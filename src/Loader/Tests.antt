-- ===== src/Loader/Tests.antt =====
-- loader/dependency.go: runs of the searches on small sets of modules, and the theorems at these.
use mathlib.Core.Path.{subst}
use qk.Prelude.{
  Bool, some_inj, str_eq_iff, false, Option, String, true, none, some, List, [], ◌∷◌, str_eq,
  str_eq_sym, if◌then◌else◌, ◌≡◌, ◌≢◌, refl, arith,
}
use qk.Loader.Dependency.{ok, Modules, exhausted, module_dependency_order}
use qk.Loader.Dependency.Sets.{contains, IsOrdered}
use qk.Loader.Dependency.Order.{module_dependency_order-IsOrdered}
use qk.Loader.Dependency.Termination.{module_dependency_order_total}
use qk.Loader.Dependency.Cycle.{Reaches, directly, through, module_dependency_order-circular}
use qk.Loader.ModuleInfo.{
  PartialModuleInfo, ModuleInfo, built, first_file, merge_file, put, build_modules,
}
use qk.Loader.ModuleInfo.Imports.{imports_at, imported_by, build_modules-imports}
use qk.Loader.Dependency.Success.{IsClosed, AllKnown, module_dependency_order-succeeds}

-- `app` imports `io` and `fs`, and `io` imports `fs`.
abbrev program : Modules
program n =
    if str_eq n "app"
    then some ("io" ∷ "fs" ∷ [])
    else if str_eq n "io"
    then some ("fs" ∷ [])
    else if str_eq n "fs"
    then some []
    else none

abbrev cyclic : Modules
cyclic n = if str_eq n "a" then some ("b" ∷ []) else if str_eq n "b" then some ("a" ∷ []) else none

abbrev graph : String → List String
graph n = if str_eq n "app" then "io" ∷ "fs" ∷ [] else if str_eq n "io" then "fs" ∷ [] else []

abbrev sorted : List String
sorted = "fs" ∷ "io" ∷ "app" ∷ []

module_dependency_order-IsOrdered_example :
    IsOrdered program [] sorted × (contains sorted "app" ≡ true)
unfolding module_dependency_order str_eq
module_dependency_order-IsOrdered_example =
    module_dependency_order-IsOrdered program 4 "app" {order = sorted} refl

program_complete :
    (n : String) (ds : List String)
    → program n ≡ some ds
    → contains ("app" ∷ "io" ∷ "fs" ∷ []) n ≡ true
unfolding contains
program_complete n ds h = ground (arith, str_eq_sym n "app", str_eq_sym n "io", str_eq_sym n "fs")

module_dependency_order_total_example : module_dependency_order program 4 "app" ≢ exhausted
module_dependency_order_total_example =
    module_dependency_order_total program ("app" ∷ "io" ∷ "fs" ∷ []) program_complete 4 "app"
      (omega arith)

module_dependency_order-circular_example : Reaches cyclic "a" "a"
unfolding module_dependency_order str_eq
module_dependency_order-circular_example = module_dependency_order-circular cyclic 5 "a" "a" refl

-- Two files of the package `app`, which both import `io`.
abbrev first : PartialModuleInfo
first = record {
  path = "app";
  name = "app";
  imports = "io" ∷ ("fs" ∷ []);
  root = [];
  links = [];
  trusted = false;
}

abbrev second : PartialModuleInfo
second = record {
  path = "app";
  name = "app";
  imports = "io" ∷ ("os" ∷ []);
  root = [];
  links = [];
  trusted = false;
}

abbrev joined : String → Option ModuleInfo
joined =
    put "app" (merge_file (first_file first) second) (put "app" (first_file first) (λ path. none))

joined-built : build_modules (λ path. none) (first ∷ (second ∷ [])) ≡ built joined
unfolding build_modules str_eq
joined-built = refl

build_modules-imports_example :
    contains (imports_at joined "app") "os" ≡ imported_by (first ∷ (second ∷ [])) "app" "os"
build_modules-imports_example =
    build_modules-imports (first ∷ (second ∷ [])) {modules = joined} joined-built "app" "os"

-- `app` imports `io`.
abbrev two : Modules
two n = if str_eq n "app" then some ("io" ∷ []) else if str_eq n "io" then some [] else none

io_not_app : (n : String) → str_eq "io" n ≡ true → str_eq n "app" ≡ false
unfolding str_eq
io_not_app n h = subst (λ k. str_eq k "app" ≡ false) ((str_eq_iff "io" n).0 h) refl

two_imports :
    (m n : String) (ds : List String)
    → two m ≡ some ds
    → contains ds n ≡ true
    → (str_eq m "app" ≡ true) × (str_eq "io" n ≡ true)
unfolding contains
two_imports m n ds h k = ground (arith, h, k)

two-Reaches : {m n : String} → Reaches two m n → (str_eq m "app" ≡ true) × (str_eq "io" n ≡ true)
two-Reaches (directly ds h k) = two_imports _ _ ds h k
two-Reaches (through ds r h k) = ((two-Reaches r).0, (two_imports _ _ ds h k).1)

two_acyclic : (n : String) → Reaches two n n → ⊥
two_acyclic n r = ground (arith, two-Reaches r, io_not_app n)

imports_known :
    (a b : Bool) (ds : List String)
    → (if a then some ("io" ∷ []) else if b then some [] else none) ≡ some ds
    → AllKnown two ds
unfolding str_eq
imports_known true b ds h = subst (AllKnown two) (some_inj h) ((λ e. cc), tt)
imports_known false true ds h = subst (AllKnown two) (some_inj h) tt
imports_known false false ds h = cc

two-IsClosed : IsClosed two
two-IsClosed n ds h = imports_known (str_eq n "app") (str_eq n "io") ds h

two_complete :
    (n : String) (ds : List String) → two n ≡ some ds → contains ("app" ∷ ("io" ∷ [])) n ≡ true
unfolding contains
two_complete n ds h = ground (arith, str_eq_sym n "app", str_eq_sym n "io")

module_dependency_order-succeeds_example :
    (order : List String) × (module_dependency_order two 3 "app" ≡ ok order)
unfolding str_eq
module_dependency_order-succeeds_example =
    module_dependency_order-succeeds two two-IsClosed ("app" ∷ ("io" ∷ [])) 3 "app" two_complete
      two_acyclic (λ e. cc) (omega arith)
