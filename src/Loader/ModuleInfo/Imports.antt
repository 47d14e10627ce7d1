-- ===== src/Loader/ModuleInfo/Imports.antt =====
-- loader/moduleinfo.go: what `unique` keeps, and what the modules that are built import.
use mathlib.Core.Path.{subst}
use qk.Prelude.{
  String, Bool, true, false, not, ◌&&◌, ◌||◌, Option, none, some, List, [], ◌∷◌, ◌++◌, str_eq,
  str_eq_iff, str_eq_refl, Bool-cases, inl, inr, if◌then◌else◌, ◌≡◌, refl, ap, arith,
}
use qk.Types.Equals.{bool_eq}
use qk.Loader.Dependency.Sets.{contains, contains-append}
use qk.Loader.ModuleInfo.{
  PartialModuleInfo, ModuleInfo, BuildError, two_modules, mixed_trust, BuildResult, built, failed,
  unique_from, unique, merge_imports, package_path, first_file, merge_file, put, add_file,
  build_modules,
}

-- No name comes twice.
abbrev pub IsDistinct : List String → Type 0
IsDistinct [] = Unit
IsDistinct (x ∷ xs) = (contains xs x ≡ false) × IsDistinct xs

contains-cong :
    (xs : List String) (v n : String) → str_eq v n ≡ true → contains xs v ≡ contains xs n
contains-cong xs v n h = rw ((str_eq_iff v n).0 h)

unique_from-contains :
    (seen xs : List String) (n : String)
    → contains (unique_from seen xs) n ≡ (not (contains seen n) && contains xs n)
unfolding unique_from contains
unique_from-contains seen [] n = ground arith
unique_from-contains seen (v ∷ vs) n = elim (Bool-cases (str_eq v n)) [
  | inl e ↦ ground (
    arith,
    e,
    contains-cong seen v n e,
    unique_from-contains seen vs n,
    unique_from-contains (v ∷ seen) vs n,
  )
  | inr e ↦ ground (arith, e, unique_from-contains seen vs n, unique_from-contains (v ∷ seen) vs n)
]

fresh : (seen xs : List String) (v : String) → contains (unique_from (v ∷ seen) xs) v ≡ false
unfolding contains
fresh seen xs v = ground (arith, unique_from-contains (v ∷ seen) xs v, str_eq_refl v)

unique_from-IsDistinct : (seen xs : List String) → IsDistinct (unique_from seen xs)
unfolding unique_from
unique_from-IsDistinct seen [] = tt
unique_from-IsDistinct seen (v ∷ vs) = elim (Bool-cases (contains seen v)) [
  | inl e ↦ rw e (unique_from-IsDistinct seen vs)
  | inr e ↦ rw e (fresh seen vs v, unique_from-IsDistinct (v ∷ seen) vs)
]

-- unique keeps every name of the list, and each once.
pub unique-IsDistinct :
    (xs : List String)
    → IsDistinct (unique xs) × ((n : String) → contains (unique xs) n ≡ contains xs n)
unfolding unique contains
unique-IsDistinct xs = (unique_from-IsDistinct [] xs, λ n. unique_from-contains [] xs n)

-- What the module of a package imports; nothing where there is no such package.
unfoldable pub imports_of : Option ModuleInfo → List String
imports_of none = []
imports_of (some m) = m.imports

unfoldable pub imports_at : (String → Option ModuleInfo) → String → List String
unfolding imports_of
imports_at modules path = imports_of (modules path)

-- Whether a file of the package imports the name.
unfoldable pub imported_by : List PartialModuleInfo → String → String → Bool
unfolding contains package_path
imported_by [] path n = false
imported_by (p ∷ ps) path n =
    (str_eq (package_path p) path && contains p.imports n) || imported_by ps path n

-- What holds of the modules that are built.
abbrev pub OnBuilt : ((String → Option ModuleInfo) → Type 0) → BuildResult → Type 0
OnBuilt P (built modules) = P modules
OnBuilt P (failed e) = Unit

OnBuilt-if :
    (P : (String → Option ModuleInfo) → Type 0) (b : Bool) (e : BuildError) (r : BuildResult)
    → OnBuilt P r
    → OnBuilt P (if b then failed e else r)
OnBuilt-if P true e r h = tt
OnBuilt-if P false e r h = h

-- The imports of every package after a file is added.
abbrev Adds :
    (String → Option ModuleInfo) → PartialModuleInfo → (String → Option ModuleInfo) → Type 0
Adds modules p modules' =
    (path n : String)
    → contains (imports_at modules' path) n ≡ (
        contains (imports_at modules path) n
        || (str_eq (package_path p) path && contains p.imports n))

imports_at-put :
    (modules : String → Option ModuleInfo) (path q : String) (m : ModuleInfo)
    → imports_at (put path m modules) q
      ≡ (if str_eq path q then m.imports else imports_at modules q)
unfolding put imports_at
imports_at-put modules path q m = elim (Bool-cases (str_eq path q)) [
  | inl e ↦ rw e refl
  | inr e ↦ rw e refl
]

put-Adds :
    (modules : String → Option ModuleInfo) (p : PartialModuleInfo) (m : ModuleInfo)
    → ((n : String)
        → contains m.imports n
          ≡ (contains (imports_at modules (package_path p)) n || contains p.imports n))
    → Adds modules p (put (package_path p) m modules)
put-Adds modules p m h path n = elim (Bool-cases (str_eq (package_path p) path)) [
  | inl e ↦ ground (
    arith,
    e,
    h n,
    imports_at-put modules (package_path p) path m,
    ap (imports_at modules) ((str_eq_iff (package_path p) path).0 e),
  )
  | inr e ↦ ground (arith, e, imports_at-put modules (package_path p) path m)
]

by_module :
    (modules : String → Option ModuleInfo) (p : PartialModuleInfo) (o : Option ModuleInfo)
    → modules (package_path p) ≡ o
    → OnBuilt (Adds modules p) (elim o [
      | none ↦ built (put (package_path p) (first_file p) modules)
      | some m ↦
          if not (str_eq m.name p.name)
          then failed (two_modules (package_path p) m.name p.name)
          else if not (bool_eq m.trusted p.trusted)
          then failed (mixed_trust (package_path p))
          else built (put (package_path p) (merge_file m p) modules)
    ])
unfolding imports_at first_file merge_file merge_imports
by_module modules p none e =
    put-Adds modules p (first_file p) λ n. ground (arith, e, (unique-IsDistinct p.imports).1 n)
by_module modules p (some m) e = OnBuilt-if (Adds modules p) (not (str_eq m.name p.name)) _ _ (
    OnBuilt-if (Adds modules p) (not (bool_eq m.trusted p.trusted)) _ _ (
      put-Adds modules p (merge_file m p) λ n. ground (
        arith,
        e,
        (unique-IsDistinct (m.imports ++ p.imports)).1 n,
        contains-append m.imports p.imports n,
      )))

add_file-Adds :
    (modules : String → Option ModuleInfo) (p : PartialModuleInfo)
    → OnBuilt (Adds modules p) (add_file modules p)
unfolding add_file
add_file-Adds modules p = by_module modules p (modules (package_path p)) refl

abbrev AddsAll :
    (String → Option ModuleInfo) → List PartialModuleInfo → (String → Option ModuleInfo) → Type 0
AddsAll modules ps modules' =
    (path n : String)
    → contains (imports_at modules' path) n
      ≡ (contains (imports_at modules path) n || imported_by ps path n)

AddsAll-chain :
    (modules modules' : String → Option ModuleInfo) (p : PartialModuleInfo)
    (ps : List PartialModuleInfo) (r : BuildResult)
    → Adds modules p modules'
    → OnBuilt (AddsAll modules' ps) r
    → OnBuilt (AddsAll modules (p ∷ ps)) r
unfolding imported_by
AddsAll-chain modules modules' p ps (failed e) h a = tt
AddsAll-chain modules modules' p ps (built modules'') h a =
    λ path n. ground (arith, a path n, h path n)

after_file :
    (modules : String → Option ModuleInfo) (p : PartialModuleInfo) (ps : List PartialModuleInfo)
    (r : BuildResult)
    → OnBuilt (Adds modules p) r
    → ((modules' : String → Option ModuleInfo)
        → OnBuilt (AddsAll modules' ps) (build_modules modules' ps))
    → OnBuilt
        (AddsAll modules (p ∷ ps))
        (elim r [ failed e ↦ failed e | built modules' ↦ build_modules modules' ps ])
after_file modules p ps (failed e) h k = tt
after_file modules p ps (built modules') h k =
    AddsAll-chain modules modules' p ps (build_modules modules' ps) h (k modules')

build_modules-AddsAll :
    (modules : String → Option ModuleInfo) (ps : List PartialModuleInfo)
    → OnBuilt (AddsAll modules ps) (build_modules modules ps)
unfolding build_modules imported_by
build_modules-AddsAll modules [] = λ path n. ground arith
build_modules-AddsAll modules (p ∷ ps) =
    after_file modules p ps (add_file modules p) (add_file-Adds modules p)
      λ modules'. build_modules-AddsAll modules' ps

-- Where BuildModules succeeds, the module of a package imports exactly what the package's files
-- import.
pub build_modules-imports :
    (ps : List PartialModuleInfo) {modules : String → Option ModuleInfo}
    → build_modules (λ path. none) ps ≡ built modules
    → (path n : String) → contains (imports_at modules path) n ≡ imported_by ps path n
unfolding imports_at contains
build_modules-imports ps {modules} h =
    subst
      (OnBuilt (λ ms. (path n : String) → contains (imports_at ms path) n ≡ imported_by ps path n))
      h (build_modules-AddsAll (λ path. none) ps)
