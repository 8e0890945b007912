-- ===== src/Graphs/Scheduling/Order.antt =====
-- What SortGraph returns: it ends, and its levels hold every node once, behind its dependencies.
use depengine.Prelude.{
  Result-cases, concat, distinct, String, ◌≡◌, refl, sym, ◌∙◌, ◌≢◌, ◌⊎◌, inl, inr, true, false,
  List, [], ◌∷◌, arith, string_eq, nat_eq, Bool-cases, length, is_empty, contains, ok, Table,
}
use depengine.Graphs.{Graph, Node, Edge, edge_eq, node_ids, is_scheduled, scheduling_projection}
use depengine.Graphs.Canonical.{IsKeyed, scheduling_projection-Same, scheduling_projection-once}
use depengine.Graphs.Scheduling.{
  sorted, out_of_fuel, in_degree, check_ends, sort_scheduled, sort_graph,
}
use depengine.Graphs.Scheduling.Rounds.{
  Placed, levels-Placed, levels-ends, start-Counts, check_ends-contains, earlier,
}

sort_scheduled-ends :
    (nodes : List String) (edges : List Edge)
    → distinct nodes ≡ true
    → sort_scheduled nodes edges ≢ out_of_fuel
unfolding sort_scheduled
sort_scheduled-ends nodes edges d e = elim (Result-cases (check_ends nodes edges)) [
  | inr (message, bad) ↦ ground (arith, bad)
  | inl (unit, good) ↦
      levels-ends (length nodes) edges nodes (in_degree edges) (start-Counts nodes edges d good)
        (omega arith) (ground (arith, good))
]

-- SortGraph ends on every graph: as many rounds as there are nodes are enough for the levels, and for
-- each path in the search for a cycle one step more than there are remaining nodes.
pub sort_graph_ends : (g : Graph) → sort_graph g ≢ out_of_fuel
unfolding sort_graph
sort_graph_ends g e = elim (Bool-cases (is_empty g.nodes)) [
  | inl none_there ↦ ground (arith, none_there)
  | inr some_there ↦
      sort_scheduled-ends (node_ids (scheduling_projection g).nodes) (scheduling_projection g).edges
        (scheduling_projection-once g) (ground (arith, some_there))
]

sort_scheduled-Placed :
    (nodes : List String) (edges : List Edge) (ls : List (List String))
    → distinct nodes ≡ true
    → sort_scheduled nodes edges ≡ sorted ls
    → (check_ends nodes edges ≡ ok tt) × Placed edges nodes ls
unfolding sort_scheduled
sort_scheduled-Placed nodes edges ls d e = elim (Result-cases (check_ends nodes edges)) [
  | inr (message, bad) ↦ absurd (ground (arith, bad))
  | inl (unit, good) ↦ (
    good,
    levels-Placed (length nodes) edges nodes (in_degree edges) ls (start-Counts nodes edges d good)
        (ground (arith, good)),
  )
]

sort_graph-inversion :
    (g : Graph) (ls : List (List String))
    → sort_graph g ≡ sorted ls
    → ((is_empty g.nodes ≡ true) × (ls ≡ []))
      ⊎ (sort_scheduled (node_ids (scheduling_projection g).nodes) (scheduling_projection g).edges
          ≡ sorted ls)
unfolding sort_graph
sort_graph-inversion g ls e = ground arith

no_ids :
    (nodes : Table String Node) (x : String)
    → is_empty nodes ≡ true
    → contains (node_ids nodes) x ≡ false
unfolding node_ids
no_ids [] x e = refl
no_ids (n ∷ nodes) x e = cc e

-- SortGraph's levels hold exactly the nodes of the graph, each once.
pub sort_graph-places :
    (g : Graph) (ls : List (List String)) (x : String)
    → IsKeyed g.nodes
    → sort_graph g ≡ sorted ls
    → (contains (concat ls) x ≡ contains (node_ids g.nodes) x) × (distinct (concat ls) ≡ true)
unfolding node_ids
sort_graph-places g ls x k e = elim (sort_graph-inversion g ls e) [
  | inl (none_there, none_placed) ↦
      let empty = no_ids g.nodes x none_there in rw none_placed (sym empty, refl)
  | inr e' ↦
      let (check, p) =
        sort_scheduled-Placed (node_ids (scheduling_projection g).nodes)
          (scheduling_projection g).edges ls (scheduling_projection-once g) e' in
      let same = (scheduling_projection-Same g k).0 in (p.all_placed x ∙ same.ids x, p.once)
]

-- Every scheduled edge goes from a level to a later one.
pub sort_graph-orders :
    (g : Graph) (ls : List (List String)) (e : Edge)
    → IsKeyed g.nodes
    → sort_graph g ≡ sorted ls
    → is_empty g.nodes ≡ false
    → contains g.edges e ≡ true
    → is_scheduled e ≡ true
    → earlier ls e.from e.to ≡ true
sort_graph-orders g ls e k s some_there c a = elim (sort_graph-inversion g ls s) [
  | inl (none_there, none_placed) ↦ absurd (ground arith)
  | inr s' ↦
      let (check, p) =
        sort_scheduled-Placed (node_ids (scheduling_projection g).nodes)
          (scheduling_projection g).edges ls (scheduling_projection-once g) s' in
      let here = (scheduling_projection-Same g k).1 e ∙ ground arith in
      let (start, stop) =
        check_ends-contains (node_ids (scheduling_projection g).nodes)
          (scheduling_projection g).edges e check here in
      p.in_order e here start stop
]
