-- ===== src/Loader/Dependency/Sets.antt =====
-- loader/dependency.go: names in lists, and what an order of modules must satisfy.
use mathlib.Core.List.{append-nil, append_assoc}
use qk.Prelude.{
  String, Bool, true, false, ◌||◌, some, List, [], ◌∷◌, ◌++◌, str_eq, str_eq_refl, ◌≡◌, refl, arith,
}
use qk.Loader.Dependency.{Modules}

unfoldable pub contains : List String → String → Bool
contains [] n = false
contains (m ∷ ms) n = str_eq m n || contains ms n

pub contains-append :
    (xs ys : List String) (n : String) → contains (xs ++ ys) n ≡ (contains xs n || contains ys n)
unfolding contains
contains-append [] ys n = refl
contains-append (x ∷ xs) ys n = ground (arith, contains-append xs ys n)

contains-singleton : (n m : String) → contains (n ∷ []) m ≡ str_eq n m
unfolding contains
contains-singleton n m = ground arith

pub contains-concat :
    (xs : List String) (n m : String) → contains (xs ++ n ∷ []) m ≡ (contains xs m || str_eq n m)
contains-concat xs n m = rw (contains-append, contains-singleton)

pub contains-last : (xs : List String) (n : String) → contains (xs ++ n ∷ []) n ≡ true
contains-last xs n = ground (arith, contains-concat xs n n, str_eq_refl n)

-- Every name of `ds` stands in `xs`.
abbrev pub AllIn : List String → List String → Type 0
AllIn xs [] = Unit
AllIn xs (d ∷ ds) = (contains xs d ≡ true) × AllIn xs ds

-- The module is known, and all that it imports stands in `xs`.
pub record Supported (mods : Modules) (xs : List String) (n : String) : Type 0 where
  pub imports : List String
  pub known : mods n ≡ some imports
  pub all_in : AllIn xs imports

-- Every module of the list comes once, behind all that it imports; `before` has come already.
abbrev pub IsOrdered : Modules → List String → List String → Type 0
IsOrdered mods before [] = Unit
IsOrdered mods before (n ∷ ns) =
    Supported mods before n × (contains before n ≡ false) × IsOrdered mods (before ++ n ∷ []) ns

module _ (mods : Modules) where
  pub AllIn-mono :
      (xs ys ds : List String)
      → ((n : String) → contains xs n ≡ true → contains ys n ≡ true)
      → AllIn xs ds
      → AllIn ys ds
  AllIn-mono xs ys [] le h = tt
  AllIn-mono xs ys (d ∷ ds) le h = (le d h.0, AllIn-mono xs ys ds le h.1)

  pub IsOrdered-concat :
      (before ns : List String) (n : String)
      → IsOrdered mods before ns
      → Supported mods (before ++ ns) n
      → contains (before ++ ns) n ≡ false
      → IsOrdered mods before (ns ++ n ∷ [])
  IsOrdered-concat before [] n h s f = (rw append-nil at s, rw append-nil at f, tt)
  IsOrdered-concat before (m ∷ ms) n h s f = (
    h.0,
    h.1,
    IsOrdered-concat (before ++ m ∷ []) ms n h.2 (rw append_assoc s) (rw append_assoc f),
  )
