-- ===== src/Loader/Dependency/Topo.antt =====
-- loader/dependency.go: `TopoSort` is the search of `ModuleDependencyOrder` on a graph in which
-- every node is known, begun at each node in turn.
use mathlib.Core.Path.{fun_ext, subst}
use qk.Prelude.{ℕ, zero, suc, String, some, List, [], ◌∷◌, ◌≡◌, refl, ap, sym, ◌∙◌, ◌≢◌}
use qk.Loader.Dependency.{
  VisitedStatus, unseen, visiting, done, circular, Result, ok, err, exhausted, ◌>>=◌, Modules,
  Search, mark, finish, visit_imports, visit, start, topo_dependencies, topo_visit, topo_nodes,
  topo_sort,
}
use qk.Loader.Dependency.Sets.{AllIn, IsOrdered}
use qk.Loader.Dependency.Cycle.{Sound, visit-Sound}
use qk.Loader.Dependency.Order.{
  IsSearch, Extends-refl, OnOk, OnOk-bind, OnOk-map, OnOk-of_eq, Visited, AllVisited, next_import,
  visit-Visited, start-IsSearch,
}

module _ (graph : String → List String) where
  abbrev all_known : Modules
  all_known n = some (graph n)

  topo_dependencies-visit_imports :
      (again : String → Search → Result Search) (n : String) (ds : List String) (st : Search)
      → topo_dependencies again ds st ≡ visit_imports all_known again n ds st
  unfolding topo_dependencies visit_imports
  topo_dependencies-visit_imports again n [] st = refl
  topo_dependencies-visit_imports again n (d ∷ ds) st =
      ap (◌>>=◌ (again d st)) (fun_ext λ s. topo_dependencies-visit_imports again n ds s)

  topo_visit-visit :
      (fuel : ℕ) (n : String) (st : Search) → topo_visit graph fuel n st ≡ visit all_known fuel n st
  unfolding topo_visit visit
  topo_visit-visit zero n st = refl
  topo_visit-visit (suc fuel) n st =
      let again = fun_ext λ m. fun_ext λ s. topo_visit-visit fuel m s in
      let st' = mark n visiting st in
      let inner =
        ap (λ f. topo_dependencies f (graph n) st') again
        ∙ topo_dependencies-visit_imports (visit all_known fuel) n (graph n) st' in
      ap
        (λ r. elim (st.visited n) [
          | visiting ↦ err (circular n)
          | done ↦ ok st
          | unseen ↦ r >>= λ s. ok (finish n s)
        ])
        inner

  abbrev NoneVisiting : Search → Type 0
  NoneVisiting st = (n : String) → st.visited n ≢ visiting

  -- Between two nodes no module is being visited.
  record Node (n : String) (st st' : Search) : Type 0 where
    visited : Visited all_known n st st'
    none_visiting : NoneVisiting st'

  visit-Node :
      (n : String) (st : Search) (r : Result Search)
      → NoneVisiting st
      → OnOk (Visited all_known n st) r
      → Sound all_known st r
      → OnOk (Node n st) r
  visit-Node n st (ok s) nv v h = record { visited = v; none_visiting = λ m e. nv m (h m e) }
  visit-Node n st (err e) nv v h = tt
  visit-Node n st exhausted nv v h = tt

  topo_visit-Node :
      (fuel : ℕ) (n : String) (st : Search)
      → IsSearch all_known st
      → NoneVisiting st
      → OnOk (Node n st) (topo_visit graph fuel n st)
  topo_visit-Node fuel n st h nv = subst (OnOk (Node n st)) (sym (topo_visit-visit fuel n st)) (
      visit-Node n st (visit all_known fuel n st) nv (visit-Visited all_known fuel n st h)
        (visit-Sound all_known fuel n st (λ m e. absurd (nv m e))))

  Node-Node :
      (s : VisitedStatus) (n : String) (st : Search) (r : Result Search)
      → st.visited n ≡ s
      → IsSearch all_known st
      → NoneVisiting st
      → OnOk (Node n st) r
      → OnOk (Node n st) (elim s [ unseen ↦ r | _ ↦ ok st ])
  Node-Node unseen n st r e h nv k = k
  Node-Node visiting n st r e h nv k = absurd (nv n e)
  Node-Node done n st r e h nv k = record {
    visited = record { search = h; extends = Extends-refl st; there = h.done_in n e };
    none_visiting = nv;
  }

  topo_nodes-AllVisited :
      (fuel : ℕ) (ns : List String) (st : Search)
      → IsSearch all_known st
      → NoneVisiting st
      → OnOk (AllVisited all_known ns st) (topo_nodes graph fuel ns st)
  unfolding topo_nodes
  topo_nodes-AllVisited fuel [] st h nv = record {
    search = h;
    extends = Extends-refl st;
    all_there = tt;
  }
  topo_nodes-AllVisited fuel (n ∷ ns) st h nv =
      OnOk-bind (Node n st) (AllVisited all_known (n ∷ ns) st)
        (elim (st.visited n) [ unseen ↦ topo_visit graph fuel n st | _ ↦ ok st ]) _
        (Node-Node (st.visited n) n st (topo_visit graph fuel n st) refl h nv
          (topo_visit-Node fuel n st h nv))
        λ s d.
          OnOk-map (AllVisited all_known ns s) (AllVisited all_known (n ∷ ns) st)
            (topo_nodes graph fuel ns s) (λ t a. next_import all_known n ns st s t d.visited a)
            (topo_nodes-AllVisited fuel ns s d.visited.search d.none_visiting)

  -- Where TopoSort returns an order, it has every node of the graph once, behind all that it
  -- depends on, whatever order the nodes are taken in.
  pub topo_sort-IsOrdered :
      (fuel : ℕ) (nodes : List String) {order : List String}
      → topo_sort graph fuel nodes ≡ ok order
      → IsOrdered (λ n. some (graph n)) [] order × AllIn order nodes
  unfolding topo_sort
  topo_sort-IsOrdered fuel nodes h =
      OnOk-of_eq (λ ns. IsOrdered all_known [] ns × AllIn ns nodes) (topo_sort graph fuel nodes)
        (OnOk-bind (AllVisited all_known nodes start) _ (topo_nodes graph fuel nodes start) _
          (topo_nodes-AllVisited fuel nodes start (start-IsSearch all_known) (λ m e. cc))
          λ st a. (a.search.ordered, a.all_there))
        h
