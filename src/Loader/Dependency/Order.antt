-- ===== src/Loader/Dependency/Order.antt =====
-- loader/dependency.go: a successful search lists modules behind their imports.
use mathlib.Core.Path.{subst}
use qk.Prelude.{
  Option-cases, ◌⊎◌, ℕ, zero, suc, String, true, Option, none, some, List, [], ◌∷◌, ◌++◌, str_eq,
  str_eq_iff, str_eq_refl, if◌then◌else◌, ◌≡◌, refl, arith, inl, inr,
}
use qk.Loader.Dependency.{
  VisitedStatus, unseen, visiting, done, Error, unknown_import, unknown_package, circular,
  primary_not_found, Result, ok, err, exhausted, ◌>>=◌, Modules, Search, mark, finish,
  visit_imports, visit, start, module_dependency_order,
}
use qk.Loader.Dependency.Sets.{
  contains, contains-concat, contains-last, AllIn, IsOrdered, IsOrdered-concat,
}

-- The order is right so far, and holds exactly the modules that are done.
pub record IsSearch (mods : Modules) (st : Search) : Type 0 where
  pub ordered : IsOrdered mods [] st.order
  pub done_in : (n : String) → st.visited n ≡ done → contains st.order n ≡ true
  pub in_done : (n : String) → contains st.order n ≡ true → st.visited n ≡ done

-- A part of the search left the modules that were being visited as they were, and forgot none that
-- was done.
pub record Extends (st st' : Search) : Type 0 where
  pub grows : (n : String) → contains st.order n ≡ true → contains st'.order n ≡ true
  pub keeps : (n : String) → st.visited n ≡ visiting → st'.visited n ≡ visiting

-- What holds of a successful result.
abbrev pub OnOk {ℓ} : {A : Type ℓ} → (A → Type 0) → Result A → Type 0
OnOk P (ok a) = P a
OnOk P _ = Unit

ok_inj {ℓ} : {A : Type ℓ} {a b : A} → ok a ≡ ok b → a ≡ b
ok_inj e = cc

pub OnOk-bind {ℓ κ} :
    {A : Type ℓ} {B : Type κ} (P : A → Type 0) (Q : B → Type 0) (m : Result A) (f : A → Result B)
    → OnOk P m
    → ((a : A) → P a → OnOk Q (f a))
    → OnOk Q (m >>= f)
OnOk-bind P Q (ok a) f h k = k a h
OnOk-bind P Q (err e) f h k = tt
OnOk-bind P Q exhausted f h k = tt

pub OnOk-map {ℓ} :
    {A : Type ℓ} (P Q : A → Type 0) (m : Result A) → ((a : A) → P a → Q a) → OnOk P m → OnOk Q m
OnOk-map P Q (ok a) f h = f a h
OnOk-map P Q (err e) f h = tt
OnOk-map P Q exhausted f h = tt

pub OnOk-of_eq {ℓ} :
    {A : Type ℓ} (P : A → Type 0) (m : Result A) {a : A} → OnOk P m → m ≡ ok a → P a
OnOk-of_eq P (ok b) {a} h e = subst P (ok_inj e) h
OnOk-of_eq P (err _) h e = cc
OnOk-of_eq P exhausted h e = cc

OnOk-known {ℓ κ} :
    {A : Type ℓ} {B : Type κ} (o : Option A) (P : B → Type 0) (e : Error) (r : Result B)
    → OnOk P r
    → OnOk P (elim o [ none ↦ err e | some a ↦ r ])
OnOk-known none P e r h = tt
OnOk-known (some a) P e r h = h

by_status {ℓ} :
    {A : Type ℓ} (s : VisitedStatus) (P : A → Type 0) (v d u : Result A)
    → (s ≡ unseen → OnOk P u)
    → (s ≡ visiting → OnOk P v)
    → (s ≡ done → OnOk P d)
    → OnOk P (elim s [ visiting ↦ v | done ↦ d | unseen ↦ u ])
by_status unseen P v d u hu hv hd = hu refl
by_status visiting P v d u hu hv hd = hv refl
by_status done P v d u hu hv hd = hd refl

pub status_cases : (s : VisitedStatus) → (s ≡ unseen) ⊎ ((s ≡ visiting) ⊎ (s ≡ done))
status_cases unseen = inl refl
status_cases visiting = inr (inl refl)
status_cases done = inr (inr refl)

pub Extends-refl : (st : Search) → Extends st st
Extends-refl st = record { grows = λ n h. h; keeps = λ n h. h }

pub Extends-trans : {r s t : Search} → Extends r s → Extends s t → Extends r t
Extends-trans h k = record {
  grows = λ n e. k.grows n (h.grows n e);
  keeps = λ n e. k.keeps n (h.keeps n e);
}

mark-visited :
    (n m : String) (s : VisitedStatus) (st : Search)
    → (mark n s st).visited m ≡ (if str_eq n m then s else st.visited m)
unfolding mark
mark-visited n m s st = refl

finish-visited :
    (n m : String) (st : Search)
    → (finish n st).visited m ≡ (if str_eq n m then done else st.visited m)
unfolding finish
finish-visited n m st = refl

finish-order : (n : String) (st : Search) → (finish n st).order ≡ st.order ++ n ∷ []
unfolding finish
finish-order n st = refl

module _ (mods : Modules) where
  -- After a visit of `n` the module is in the order.
  pub record Visited (n : String) (st st' : Search) : Type 0 where
    pub search : IsSearch mods st'
    pub extends : Extends st st'
    pub there : contains st'.order n ≡ true

  pub record AllVisited (ns : List String) (st st' : Search) : Type 0 where
    pub search : IsSearch mods st'
    pub extends : Extends st st'
    pub all_there : AllIn st'.order ns

  mark-IsSearch :
      (n : String) (st : Search)
      → IsSearch mods st
      → st.visited n ≡ unseen
      → IsSearch mods (mark n visiting st)
  unfolding mark
  mark-IsSearch n st h u = record {
    ordered = h.ordered;
    done_in = λ m e. ground (arith, h.done_in m);
    in_done = λ m e. ground (arith, h.in_done m, str_eq_iff n m);
  }

  finish-IsSearch :
      (n : String) (imports : List String) (st : Search)
      → IsSearch mods st
      → st.visited n ≡ visiting
      → mods n ≡ some imports
      → AllIn st.order imports
      → IsSearch mods (finish n st)
  unfolding finish
  finish-IsSearch n imports st h v k a = record {
    ordered =
        IsOrdered-concat mods [] st.order n h.ordered
          (record { imports = imports; known = k; all_in = a }) (ground (arith, h.in_done n));
    done_in = λ m e. ground (arith, contains-concat st.order n m, h.done_in m);
    in_done = λ m e. ground (arith, contains-concat st.order n m, h.in_done m);
  }

  abbrev pub VisitSpec : (String → Search → Result Search) → Type 0
  VisitSpec again = (n : String) (st : Search) → IsSearch mods st → OnOk (Visited n st) (again n st)

  pub next_import :
      (d : String) (ds : List String) (r s t : Search)
      → Visited d r s
      → AllVisited ds s t
      → AllVisited (d ∷ ds) r t
  next_import d ds r s t v a = record {
    search = a.search;
    extends = Extends-trans v.extends a.extends;
    all_there = (a.extends.grows d v.there, a.all_there);
  }

  visit_imports-AllVisited :
      (again : String → Search → Result Search) (name : String) (ds : List String) (st : Search)
      → VisitSpec again
      → IsSearch mods st
      → OnOk (AllVisited ds st) (visit_imports mods again name ds st)
  unfolding visit_imports
  visit_imports-AllVisited again name [] st spec h = record {
    search = h;
    extends = Extends-refl st;
    all_there = tt;
  }
  visit_imports-AllVisited again name (d ∷ ds) st spec h =
      OnOk-known (mods d) (AllVisited (d ∷ ds) st) (unknown_import name d) _ (
        OnOk-bind (Visited d st) (AllVisited (d ∷ ds) st) (again d st) _ (spec d st h) λ s v.
          OnOk-map (AllVisited ds s) (AllVisited (d ∷ ds) st) (visit_imports mods again name ds s)
            (λ t a. next_import d ds st s t v a)
            (visit_imports-AllVisited again name ds s spec v.search))

  -- The step from the visited imports to the visited module.
  finish-Visited :
      (n : String) (imports : List String) (st s : Search)
      → st.visited n ≡ unseen
      → mods n ≡ some imports
      → AllVisited imports (mark n visiting st) s
      → Visited n st (finish n s)
  unfolding mark finish
  finish-Visited n imports st s u k a = record {
    search =
        finish-IsSearch n imports s a.search (a.extends.keeps n (ground (arith, str_eq_refl n))) k
          a.all_there;
    extends = record {
      grows = λ m e. ground (arith, contains-concat s.order n m, a.extends.grows m e);
      keeps = λ m e. ground (arith, str_eq_iff n m, a.extends.keeps m);
    };
    there = contains-last s.order n;
  }

  visit-unseen :
      (fuel : ℕ) (n : String) (st : Search)
      → VisitSpec (visit mods fuel)
      → IsSearch mods st
      → st.visited n ≡ unseen
      → OnOk (Visited n st) (elim (mods n) [
        | none ↦ err (unknown_package n)
        | some imports ↦
            visit_imports mods (visit mods fuel) n imports (mark n visiting st) >>= λ st'.
            ok (finish n st')
      ])
  visit-unseen fuel n st spec h u = elim (Option-cases (mods n)) [
    | inl missing ↦ rw missing tt
    | inr (imports, k) ↦ rw k (
        OnOk-bind (AllVisited imports (mark n visiting st)) (Visited n st)
          (visit_imports mods (visit mods fuel) n imports (mark n visiting st)) _
          (visit_imports-AllVisited (visit mods fuel) n imports (mark n visiting st) spec
            (mark-IsSearch n st h u))
          λ s a. finish-Visited n imports st s u k a)
  ]

  pub visit-Visited : (fuel : ℕ) → VisitSpec (visit mods fuel)
  unfolding visit
  visit-Visited zero n st h = tt
  visit-Visited (suc fuel) n st h =
      by_status (st.visited n) (Visited n st) (err (circular n)) (ok st) _
        (visit-unseen fuel n st (visit-Visited fuel) h) (λ v. tt)
        (λ d. record { search = h; extends = Extends-refl st; there = h.done_in n d })

  pub start-IsSearch : IsSearch mods start
  unfolding contains
  start-IsSearch = record { ordered = tt; done_in = λ n e. cc; in_done = λ n e. cc }

  -- Where ModuleDependencyOrder returns an order, it has every module once, known and behind all
  -- the modules that it imports, and holds the primary module.
  pub module_dependency_order-IsOrdered :
      (fuel : ℕ) (primary : String) {order : List String}
      → module_dependency_order mods fuel primary ≡ ok order
      → IsOrdered mods [] order × (contains order primary ≡ true)
  unfolding module_dependency_order
  module_dependency_order-IsOrdered fuel primary {order} h =
      OnOk-of_eq (λ ns. IsOrdered mods [] ns × (contains ns primary ≡ true))
        (module_dependency_order mods fuel primary)
        (OnOk-known (mods primary) _ (primary_not_found primary) _ (
          OnOk-bind (Visited primary start) _ (visit mods fuel primary start) _
            (visit-Visited fuel primary start start-IsSearch) λ st v. (v.search.ordered, v.there)))
        h
