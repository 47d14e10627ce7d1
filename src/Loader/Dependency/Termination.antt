-- ===== src/Loader/Dependency/Termination.antt =====
-- loader/dependency.go: the search ends. Each nested visit marks one more module, so its depth is
-- bounded by the number of modules.
use mathlib.Core.Path.{subst}
use qk.Prelude.{
  ℕ, zero, suc, ◌+◌, ◌≤◌, ◌<◌, String, true, Option, none, some, List, [], ◌∷◌, str_eq_iff,
  str_eq_refl, ◌≡◌, refl, arith, ◌≢◌, length,
}
use qk.Loader.Dependency.{
  VisitedStatus, unseen, visiting, done, Error, unknown_import, unknown_package, circular,
  primary_not_found, Result, ok, err, exhausted, ◌>>=◌, Modules, Search, mark, finish,
  visit_imports, visit, start, module_dependency_order,
}
use qk.Loader.Dependency.Sets.{contains}

-- The search ends, and its value is as said.
abbrev pub Ends {ℓ} : {A : Type ℓ} → (A → Type 0) → Result A → Type 0
Ends P (ok a) = P a
Ends P (err e) = Unit
Ends P exhausted = ⊥

Ends-bind {ℓ κ} :
    {A : Type ℓ} {B : Type κ} (P : A → Type 0) (Q : B → Type 0) (m : Result A) (f : A → Result B)
    → Ends P m
    → ((a : A) → P a → Ends Q (f a))
    → Ends Q (m >>= f)
Ends-bind P Q (ok a) f h k = k a h
Ends-bind P Q (err e) f h k = tt
Ends-bind P Q exhausted f h k = absurd h

Ends-map {ℓ} :
    {A : Type ℓ} (P Q : A → Type 0) (m : Result A) → ((a : A) → P a → Q a) → Ends P m → Ends Q m
Ends-map P Q (ok a) f h = f a h
Ends-map P Q (err e) f h = tt
Ends-map P Q exhausted f h = h

Ends-known {ℓ κ} :
    {A : Type ℓ} {B : Type κ} (o : Option A) (P : B → Type 0) (e : Error) (r : A → Result B)
    → ((a : A) → o ≡ some a → Ends P (r a))
    → Ends P (elim o [ none ↦ err e | some a ↦ r a ])
Ends-known none P e r h = tt
Ends-known (some a) P e r h = h a refl

Ends-by_status {ℓ} :
    {A : Type ℓ} (s : VisitedStatus) (P : A → Type 0) (v d u : Result A)
    → (s ≡ unseen → Ends P u)
    → Ends P v
    → Ends P d
    → Ends P (elim s [ visiting ↦ v | done ↦ d | unseen ↦ u ])
Ends-by_status unseen P v d u hu hv hd = hu refl
Ends-by_status visiting P v d u hu hv hd = hv
Ends-by_status done P v d u hu hv hd = hd

abbrev weight : VisitedStatus → ℕ
weight unseen = 1
weight _ = 0

-- How many of the names are unseen.
pub unseen_count : List String → Search → ℕ
unseen_count [] st = 0
unseen_count (n ∷ ns) st = weight (st.visited n) + unseen_count ns st

mark-weight :
    (n m : String) (st : Search) → weight ((mark n visiting st).visited m) ≤ weight (st.visited m)
unfolding mark
mark-weight n m st = ground arith

mark-le :
    (ns : List String) (n : String) (st : Search)
    → unseen_count ns (mark n visiting st) ≤ unseen_count ns st
unfolding unseen_count
mark-le [] n st = omega arith
mark-le (m ∷ ns) n st = omega (arith, mark-weight n m st, mark-le ns n st)

mark-lt :
    (ns : List String) (n : String) (st : Search)
    → st.visited n ≡ unseen
    → contains ns n ≡ true
    → unseen_count ns (mark n visiting st) < unseen_count ns st
unfolding unseen_count contains mark
mark-lt [] n st u c = cc
mark-lt (m ∷ ns) n st u c =
    ground
      (arith, mark-le ns n st, mark-lt ns n st u, str_eq_iff m n, str_eq_refl n, str_eq_iff n m)

finish-le :
    (ns : List String) (n : String) (st : Search)
    → unseen_count ns (finish n st) ≤ unseen_count ns st
unfolding unseen_count finish
finish-le [] n st = omega arith
finish-le (m ∷ ns) n st = ground (arith, finish-le ns n st)

start-le : (ns : List String) → unseen_count ns start ≤ length ns
unfolding unseen_count
start-le [] = omega arith
start-le (n ∷ ns) = omega (arith, start-le ns)

module _ (mods : Modules) (names : List String)
    (complete : (n : String) (ds : List String) → mods n ≡ some ds → contains names n ≡ true) where
  abbrev Left : Search → Search → Type 0
  Left st st' = unseen_count names st' ≤ unseen_count names st

  abbrev EndsBelow : ℕ → (String → Search → Result Search) → Type 0
  EndsBelow bound again =
      (n : String) (st : Search) → unseen_count names st < bound → Ends (Left st) (again n st)

  visit_imports-Ends :
      (bound : ℕ) (again : String → Search → Result Search) (n : String) (ds : List String)
      (st : Search)
      → EndsBelow bound again
      → unseen_count names st < bound
      → Ends (Left st) (visit_imports mods again n ds st)
  unfolding visit_imports
  visit_imports-Ends bound again n [] st ends lt = omega arith
  visit_imports-Ends bound again n (d ∷ ds) st ends lt =
      Ends-known (mods d) (Left st) (unknown_import n d) _ λ imports k.
        Ends-bind (Left st) (Left st) (again d st) _ (ends d st lt) λ s le.
          Ends-map (Left s) (Left st) (visit_imports mods again n ds s) (λ t le'. omega arith)
            (visit_imports-Ends bound again n ds s ends (omega arith))

  visit-Ends : (fuel : ℕ) → EndsBelow fuel (visit mods fuel)
  unfolding visit
  visit-Ends zero n st lt = elim lt [ ]
  visit-Ends (suc fuel) n st lt =
      Ends-by_status (st.visited n) (Left st) (err (circular n)) (ok st) _
        (λ u. Ends-known (mods n) (Left st) (unknown_package n) _ λ imports k.
          let less = mark-lt names n st u (complete n imports k) in
          Ends-bind (Left (mark n visiting st)) (Left st)
            (visit_imports mods (visit mods fuel) n imports (mark n visiting st)) _
            (visit_imports-Ends fuel (visit mods fuel) n imports (mark n visiting st)
              (visit-Ends fuel) (omega arith))
            λ s le. omega (arith, finish-le names n s))
        tt (omega arith)

  -- With more fuel than there are names in a list that holds every known module,
  -- ModuleDependencyOrder ends with an order or an error.
  pub module_dependency_order_total :
      (fuel : ℕ) (primary : String)
      → length names < fuel
      → module_dependency_order mods fuel primary ≢ exhausted
  unfolding module_dependency_order
  module_dependency_order_total fuel primary lt h = subst (Ends (λ order. Unit {0})) h (
      Ends-known (mods primary) (λ order. Unit) (primary_not_found primary) _
        λ imports k.
          Ends-bind (Left start) (λ order. Unit) (visit mods fuel primary start) _
            (visit-Ends fuel primary start (omega (arith, start-le names))) λ st le. tt)
