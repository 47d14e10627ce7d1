-- ===== src/Loader/Dependency.antt =====
-- loader/dependency.go: the depth-first searches that order modules, every module behind those that
-- it imports. The recursion of `visit` takes fuel; `exhausted` says that it did not suffice.
pub mod Sets
pub mod Order
pub mod Termination
pub mod Cycle
pub mod Topo
pub mod Success
use qk.Prelude.{
  ℕ, zero, suc, String, Bool, true, false, Option, none, some, List, [], ◌∷◌, ◌++◌, str_eq,
  if◌then◌else◌,
}

pub data VisitedStatus : Type 0 where
  unseen visiting done : VisitedStatus

pub data Error : Type 0 where
  -- `primary package %q not found`
  primary_not_found : String → Error
  -- `circular import detected at %q`
  circular : String → Error
  -- `package imports unknown package %q`
  unknown_package : String → Error
  -- `package %q imports unknown package %q`
  unknown_import : String → String → Error

pub data Result {ℓ} (A : Type ℓ) : Type ℓ where
  ok : A → Result A
  err : Error → Result A
  exhausted : Result A

infixl 5 ◌>>=◌
abbrev pub ◌>>=◌ {ℓ κ} : {A : Type ℓ} {B : Type κ} → Result A → (A → Result B) → Result B
ok a >>= f = f a
err e >>= f = err e
exhausted >>= f = exhausted

-- `map[string]*ModuleInfo`, of which the searches read the imports.
abbrev pub Modules : Type 0
Modules = String → Option (List String)

-- The maps and slices that `visit` shares: `visited` and `order`.
pub record Search : Type 0 where
  pub visited : String → VisitedStatus
  pub order : List String

unfoldable pub mark : String → VisitedStatus → Search → Search
mark n s st = record st { visited = λ m. if str_eq n m then s else st.visited m }

-- `visited[name] = VisitedStatusDone; order = append(order, name)`.
unfoldable pub finish : String → Search → Search
finish n st = record {
  visited = λ m. if str_eq n m then done else st.visited m;
  order = st.order ++ n ∷ [];
}

-- The loop over the imports of `name`.
unfoldable pub visit_imports :
    Modules → (String → Search → Result Search) → String → List String → Search → Result Search
visit_imports mods again name [] st = ok st
visit_imports mods again name (d ∷ ds) st = elim (mods d) [
  | none ↦ err (unknown_import name d)
  | some imports ↦ again d st >>= λ st'. visit_imports mods again name ds st'
]

-- `visit` of `ModuleDependencyOrder`.
unfoldable pub visit : Modules → ℕ → String → Search → Result Search
unfolding mark finish visit_imports
visit mods zero name st = exhausted
visit mods (suc fuel) name st = elim (st.visited name) [
  | visiting ↦ err (circular name)
  | done ↦ ok st
  | unseen ↦ elim (mods name) [
    | none ↦ err (unknown_package name)
    | some imports ↦
        visit_imports mods (visit mods fuel) name imports (mark name visiting st) >>= λ st'.
        ok (finish name st')
  ]
]

abbrev pub start : Search
start = record { visited = λ m. unseen; order = [] }

-- `ModuleDependencyOrder`.
unfoldable pub module_dependency_order : Modules → ℕ → String → Result (List String)
unfolding visit
module_dependency_order mods fuel primary = elim (mods primary) [
  | none ↦ err (primary_not_found primary)
  | some imports ↦ visit mods fuel primary start >>= λ st. ok st.order
]

-- The imports of a module all known: `BuildDependencyGraph`'s inner loop.
unfoldable pub check_imports : Modules → String → List String → Result (Unit {0})
check_imports mods name [] = ok tt
check_imports mods name (d ∷ ds) = elim (mods d) [
  | none ↦ err (unknown_import name d)
  | some imports ↦ check_imports mods name ds
]

-- `BuildDependencyGraph` over the modules in the order in which the map yields them.
unfoldable pub build_dependency_graph :
    Modules → List (String × List String) → Result (List (String × List String))
unfolding check_imports
build_dependency_graph mods [] = ok []
build_dependency_graph mods ((name, imports) ∷ rest) = check_imports mods name imports >>= λ _.
    build_dependency_graph mods rest >>= λ graph. ok ((name, imports) ∷ graph)

-- `visit` of `TopoSort`; a node that the graph lacks has no dependencies.
unfoldable pub topo_dependencies :
    (String → Search → Result Search) → List String → Search → Result Search
topo_dependencies again [] st = ok st
topo_dependencies again (d ∷ ds) st = again d st >>= λ st'. topo_dependencies again ds st'

unfoldable pub topo_visit : (String → List String) → ℕ → String → Search → Result Search
unfolding mark finish topo_dependencies
topo_visit graph zero n st = exhausted
topo_visit graph (suc fuel) n st = elim (st.visited n) [
  | visiting ↦ err (circular n)
  | done ↦ ok st
  | unseen ↦ topo_dependencies (topo_visit graph fuel) (graph n) (mark n visiting st) >>= λ st'.
      ok (finish n st')
]

-- `for node := range graph`, over the nodes in the order in which the map yields them.
unfoldable pub topo_nodes : (String → List String) → ℕ → List String → Search → Result Search
topo_nodes graph fuel [] st = ok st
topo_nodes graph fuel (n ∷ ns) st =
    elim (st.visited n) [ unseen ↦ topo_visit graph fuel n st | _ ↦ ok st ] >>= λ st'.
    topo_nodes graph fuel ns st'

-- `TopoSort`.
unfoldable pub topo_sort : (String → List String) → ℕ → List String → Result (List String)
unfolding topo_nodes
topo_sort graph fuel nodes = topo_nodes graph fuel nodes start >>= λ st. ok st.order
