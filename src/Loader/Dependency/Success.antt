-- ===== src/Loader/Dependency/Success.antt =====
-- loader/dependency.go: when the order is found.
use mathlib.Core.Path.{subst}
use qk.Prelude.{
  ℕ, zero, suc, ◌<◌, String, true, Option, none, some, List, [], ◌∷◌, ◌≡◌, ◌≢◌, refl, length,
}
use qk.Loader.Dependency.{
  VisitedStatus, unseen, visiting, done, Error, primary_not_found, circular, unknown_package,
  unknown_import, Result, ok, err, exhausted, ◌>>=◌, Modules, Search, mark, visit_imports, visit,
  start, module_dependency_order,
}
use qk.Loader.Dependency.Sets.{contains}
use qk.Loader.Dependency.Cycle.{Reaches, module_dependency_order-circular}
use qk.Loader.Dependency.Termination.{module_dependency_order_total}

-- No error but a circular import.
abbrev IsCircular : Error → Type 0
IsCircular (circular n) = Unit
IsCircular _ = ⊥

abbrev OnlyCircular {ℓ} : {A : Type ℓ} → Result A → Type 0
OnlyCircular (ok a) = Unit
OnlyCircular (err e) = IsCircular e
OnlyCircular exhausted = Unit

OnlyCircular-bind {ℓ κ} :
    {A : Type ℓ} {B : Type κ} (m : Result A) (f : A → Result B)
    → OnlyCircular m
    → ((a : A) → OnlyCircular (f a))
    → OnlyCircular (m >>= f)
OnlyCircular-bind (ok a) f h k = k a
OnlyCircular-bind (err e) f h k = h
OnlyCircular-bind exhausted f h k = tt

OnlyCircular-known {ℓ} :
    {A : Type ℓ} (o : Option (List String)) (e : Error) (f : List String → Result A)
    → o ≢ none
    → ((ds : List String) → o ≡ some ds → OnlyCircular (f ds))
    → OnlyCircular (elim o [ none ↦ err e | some ds ↦ f ds ])
OnlyCircular-known none e f h k = absurd (h refl)
OnlyCircular-known (some ds) e f h k = k ds refl

OnlyCircular-by_status :
    (s : VisitedStatus) (c d u : Result Search)
    → OnlyCircular c
    → OnlyCircular d
    → OnlyCircular u
    → OnlyCircular (elim s [ visiting ↦ c | done ↦ d | unseen ↦ u ])
OnlyCircular-by_status unseen c d u h k l = l
OnlyCircular-by_status visiting c d u h k l = h
OnlyCircular-by_status done c d u h k l = k

-- Every module of the list is known.
abbrev pub AllKnown : Modules → List String → Type 0
AllKnown mods [] = Unit
AllKnown mods (d ∷ ds) = (mods d ≢ none) × AllKnown mods ds

-- What a known module imports is known.
abbrev pub IsClosed : Modules → Type 0
IsClosed mods = (n : String) (ds : List String) → mods n ≡ some ds → AllKnown mods ds

module _ (mods : Modules) (closed : IsClosed mods) where
  visit_imports-OnlyCircular :
      (again : String → Search → Result Search) (n : String) (ds : List String) (st : Search)
      → ((d : String) (s : Search) → mods d ≢ none → OnlyCircular (again d s))
      → AllKnown mods ds
      → OnlyCircular (visit_imports mods again n ds st)
  unfolding visit_imports
  visit_imports-OnlyCircular again n [] st h k = tt
  visit_imports-OnlyCircular again n (d ∷ ds) st h k =
      OnlyCircular-known (mods d) (unknown_import n d) _ k.0 λ imports e.
        OnlyCircular-bind (again d st) _ (h d st k.0)
          λ s. visit_imports-OnlyCircular again n ds s h k.1

  visit-OnlyCircular :
      (fuel : ℕ) (n : String) (st : Search) → mods n ≢ none → OnlyCircular (visit mods fuel n st)
  unfolding visit
  visit-OnlyCircular zero n st h = tt
  visit-OnlyCircular (suc fuel) n st h =
      OnlyCircular-by_status (st.visited n) (err (circular n)) (ok st) _ tt tt (
        OnlyCircular-known (mods n) (unknown_package n) _ h λ imports e.
          OnlyCircular-bind (visit_imports mods (visit mods fuel) n imports (mark n visiting st)) _
            (visit_imports-OnlyCircular (visit mods fuel) n imports (mark n visiting st)
              (visit-OnlyCircular fuel) (closed n imports e))
            λ s. tt)

  order-OnlyCircular :
      (fuel : ℕ) (primary : String)
      → mods primary ≢ none
      → OnlyCircular (module_dependency_order mods fuel primary)
  unfolding module_dependency_order
  order-OnlyCircular fuel primary h =
      OnlyCircular-known (mods primary) (primary_not_found primary) _ h λ imports e.
        OnlyCircular-bind (visit mods fuel primary start) _
          (visit-OnlyCircular fuel primary start h) λ s. tt

  -- Where every import of a known module is known, no module imports itself directly or through
  -- others and the primary module is known, ModuleDependencyOrder returns an order, with more fuel
  -- than there are names in a list that holds every known module.
  pub module_dependency_order-succeeds :
      (names : List String) (fuel : ℕ) (primary : String)
      → ((n : String) (ds : List String) → mods n ≡ some ds → contains names n ≡ true)
      → ((n : String) → Reaches mods n n → ⊥)
      → mods primary ≢ none
      → length names < fuel
      → (order : List String) × (module_dependency_order mods fuel primary ≡ ok order)
  module_dependency_order-succeeds names fuel primary complete acyclic known lt =
      by_result (module_dependency_order mods fuel primary) refl
    where
      by_result :
          (r : Result (List String))
          → module_dependency_order mods fuel primary ≡ r
          → (order : List String) × (module_dependency_order mods fuel primary ≡ ok order)
      by_result (ok order) e = (order, e)
      by_result (err (circular n)) e =
          absurd (acyclic n (module_dependency_order-circular mods fuel primary n e))
      by_result (err (primary_not_found n)) e =
          absurd (subst OnlyCircular e (order-OnlyCircular fuel primary known))
      by_result (err (unknown_package n)) e =
          absurd (subst OnlyCircular e (order-OnlyCircular fuel primary known))
      by_result (err (unknown_import n d)) e =
          absurd (subst OnlyCircular e (order-OnlyCircular fuel primary known))
      by_result exhausted e =
          absurd (module_dependency_order_total mods names complete fuel primary lt e)
