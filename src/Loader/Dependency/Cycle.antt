-- ===== src/Loader/Dependency/Cycle.antt =====
-- loader/dependency.go: a circular import that the search reports is one.
use mathlib.Core.Path.{subst}
use qk.Prelude.{
  ℕ, zero, suc, String, true, Option, none, some, List, [], ◌∷◌, str_eq, str_eq_iff, str_eq_refl,
  ◌≡◌, refl, arith, ◌≢◌, inl, inr, Bool-cases,
}
use qk.Loader.Dependency.{
  VisitedStatus, unseen, visiting, done, Error, unknown_import, unknown_package, circular,
  primary_not_found, Result, ok, err, exhausted, ◌>>=◌, Modules, Search, mark, finish,
  visit_imports, visit, start, module_dependency_order,
}
use qk.Loader.Dependency.Sets.{contains}

-- `m` imports `n`, directly or through others.
pub data Reaches (mods : Modules) (m : String) : String → Type 0 where
  directly :
      {n : String} (ds : List String) → mods m ≡ some ds → contains ds n ≡ true → Reaches mods m n
  through :
      {k n : String} (ds : List String)
      → Reaches mods m k
      → mods k ≡ some ds
      → contains ds n ≡ true
      → Reaches mods m n

-- What holds of the results: the modules being visited on success, and a real cycle on a circular
-- import.
abbrev pub Sound : Modules → Search → Result Search → Type 0
Sound mods st (ok st') = (n : String) → st'.visited n ≡ visiting → st.visited n ≡ visiting
Sound mods st (err (circular n)) = Reaches mods n n
Sound mods st _ = Unit

Sound-bind :
    (mods : Modules) (st : Search) (m : Result Search) (f : Search → Result Search)
    → Sound mods st m
    → ((s : Search)
        → ((n : String) → s.visited n ≡ visiting → st.visited n ≡ visiting)
        → Sound mods st (f s))
    → Sound mods st (m >>= f)
Sound-bind mods st (ok s) f h k = k s h
Sound-bind mods st (err (circular n)) f h k = h
Sound-bind mods st (err _) f h k = tt
Sound-bind mods st exhausted f h k = tt

Sound-back :
    (mods : Modules) (st s : Search) (r : Result Search)
    → ((n : String) → s.visited n ≡ visiting → st.visited n ≡ visiting)
    → Sound mods s r
    → Sound mods st r
Sound-back mods st s (ok t) back h = λ n v. back n (h n v)
Sound-back mods st s (err (circular n)) back h = h
Sound-back mods st s (err _) back h = tt
Sound-back mods st s exhausted back h = tt

Sound-known {ℓ} :
    {A : Type ℓ} (mods : Modules) (st : Search) (o : Option A) (e : Error)
    → ((m : String) → e ≢ circular m)
    → (r : A → Result Search) → ((a : A) → o ≡ some a → Sound mods st (r a))
    → Sound mods st (elim o [ none ↦ err e | some a ↦ r a ])
Sound-known mods st none (circular m) ne r h = absurd (ne m refl)
Sound-known mods st none _ ne r h = tt
Sound-known mods st (some a) e ne r h = h a refl

order-circular {ℓ} :
    {A : Type ℓ} (mods : Modules) (o : Option A) (primary n : String) (r : Result Search)
    → Sound mods start r
    → elim o [ none ↦ err (primary_not_found primary) | some a ↦ r >>= λ st. ok st.order ]
      ≡ err (circular n)
    → Reaches mods n n
order-circular mods none primary n r h e = cc
order-circular mods (some a) primary n (ok s) h e = cc
order-circular mods (some a) primary n (err (circular c)) h e =
    let same : c ≡ n = cc in subst (λ x. Reaches mods x x) same h
order-circular mods (some a) primary n (err _) h e = cc
order-circular mods (some a) primary n exhausted h e = cc

Sound-by_status :
    (mods : Modules) (st : Search) (s : VisitedStatus) (v d u : Result Search)
    → (s ≡ unseen → Sound mods st u)
    → (s ≡ visiting → Sound mods st v)
    → Sound mods st d
    → Sound mods st (elim s [ visiting ↦ v | done ↦ d | unseen ↦ u ])
Sound-by_status mods st unseen v d u hu hv hd = hu refl
Sound-by_status mods st visiting v d u hu hv hd = hv refl
Sound-by_status mods st done v d u hu hv hd = hd

module _ (mods : Modules) where
  -- Every module that is being visited reaches `n`.
  abbrev pub AllReach : Search → String → Type 0
  AllReach st n = (m : String) → st.visited m ≡ visiting → Reaches mods m n

  abbrev pub SoundVisit : (String → Search → Result Search) → Type 0
  SoundVisit again = (n : String) (st : Search) → AllReach st n → Sound mods st (again n st)

  visit_imports-Sound :
      (again : String → Search → Result Search) (n : String) (ds : List String) (st : Search)
      → SoundVisit again
      → ((d : String) → contains ds d ≡ true → AllReach st d)
      → Sound mods st (visit_imports mods again n ds st)
  unfolding visit_imports contains
  visit_imports-Sound again n [] st sound reach = λ m v. v
  visit_imports-Sound again n (d ∷ ds) st sound reach =
      Sound-known mods st (mods d) (unknown_import n d) (λ m e. cc) _
        λ imports k.
          Sound-bind mods st (again d st) _ (sound d st (reach d (ground (arith, str_eq_refl d))))
            λ s back. Sound-back mods st s (visit_imports mods again n ds s) back (
              visit_imports-Sound again n ds s sound λ c i m v. reach c (ground arith) m (back m v))

  -- Among the imports of `n` every module being visited, `n` too, reaches each.
  mark-AllReach :
      (n : String) (ds : List String) (st : Search)
      → mods n ≡ some ds
      → AllReach st n
      → (d : String) → contains ds d ≡ true
      → AllReach (mark n visiting st) d
  unfolding mark
  mark-AllReach n ds st k reach d c m v = elim (Bool-cases (str_eq n m)) [
    | inl same ↦ directly ds (subst (λ x. mods x ≡ some ds) ((str_eq_iff n m).0 same) k) c
    | inr other ↦ through ds (reach m (ground arith)) k c
  ]

  finish-back :
      (n : String) (st s : Search)
      → st.visited n ≡ unseen
      → ((m : String) → s.visited m ≡ visiting → (mark n visiting st).visited m ≡ visiting)
      → (m : String) → (finish n s).visited m ≡ visiting
      → st.visited m ≡ visiting
  unfolding mark finish
  finish-back n st s u back m v = ground (arith, back m)

  Sound-bind_mark :
      (n : String) (st : Search) (m : Result Search)
      → st.visited n ≡ unseen
      → Sound mods (mark n visiting st) m
      → Sound mods st (m >>= λ s. ok (finish n s))
  Sound-bind_mark n st (ok s) u h = λ m v. finish-back n st s u h m v
  Sound-bind_mark n st (err (circular c)) u h = h
  Sound-bind_mark n st (err _) u h = tt
  Sound-bind_mark n st exhausted u h = tt

  pub visit-Sound : (fuel : ℕ) → SoundVisit (visit mods fuel)
  unfolding visit
  visit-Sound zero n st reach = tt
  visit-Sound (suc fuel) n st reach =
      Sound-by_status mods st (st.visited n) (err (circular n)) (ok st) _
        (λ u.
          Sound-known mods st (mods n) (unknown_package n) (λ m e. cc) _
            λ ds k.
              Sound-bind_mark n st (visit_imports mods (visit mods fuel) n ds (mark n visiting st))
                u
                (visit_imports-Sound (visit mods fuel) n ds (mark n visiting st) (visit-Sound fuel)
                  (mark-AllReach n ds st k reach)))
        (λ v. reach n v) (λ m v. v)

  -- ModuleDependencyOrder reports a circular import only at a module that imports itself, directly
  -- or through others.
  pub module_dependency_order-circular :
      (fuel : ℕ) (primary n : String)
      → module_dependency_order mods fuel primary ≡ err (circular n)
      → Reaches mods n n
  unfolding module_dependency_order
  module_dependency_order-circular fuel primary n h =
      order-circular mods (mods primary) primary n (visit mods fuel primary start)
        (visit-Sound fuel primary start (λ m v. cc)) h
