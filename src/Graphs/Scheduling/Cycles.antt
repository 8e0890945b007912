-- ===== src/Graphs/Scheduling/Cycles.antt =====
-- The cycle that SortGraph reports is a cycle of scheduled edges.
use depengine.Prelude.{
  Option, none, some, Result-cases, ==_refl, contains-sort_texts, distinct, ℕ, zero, suc, String,
  ◌≡◌, refl, sym, ap, ◌∙◌, inl, inr, true, false, ◌&&◌, List, [], ◌∷◌, arith, ◌==◌, string_eq,
  nat_eq, Bool-cases, length, is_empty, contains,
}
use depengine.Graphs.{
  Option, some, scheduled, sort_texts, Graph, Edge, edge_eq, node_ids, scheduling_projection,
}
use depengine.Graphs.Canonical.{
  IsKeyed, contains-scheduled, scheduling_projection-Same, scheduling_projection-once,
}
use depengine.Graphs.Scheduling.{
  cycle_outcome, release, add_level, remove_names, SortOutcome, sorted, cyclic, failed, out_of_fuel,
  InDegree, in_degree, check_ends, levels, sort_scheduled, sort_graph, try_starts, extract_cycle,
}
use depengine.Graphs.Scheduling.Paths.{link, is_cycle, link_of_contains, is_cycle-le}
use depengine.Graphs.Scheduling.Counting.{edges_between, contains-remove_names}
use depengine.Graphs.Scheduling.Rounds.{start-Counts, Counts, level, contains-level, round-Counts}
use depengine.Graphs.Scheduling.Following.{Stuck, follow-is_cycle}

contains_none : (xs : List String) (x : String) → is_empty xs ≡ true → contains xs x ≡ false
contains_none [] x e = refl
contains_none (y ∷ xs) x e = cc e

-- A node with a count has an edge from a remaining node.
edges_between-link :
    (es : List Edge) (names : List String) (x : String)
    → (edges_between es names x == 0) ≡ false
    → (d : String) × (link es x d ≡ true) × (contains names d ≡ true)
edges_between-link [] names x h = absurd (ground arith)
edges_between-link (e ∷ es) names x h = elim (Bool-cases (contains names e.from && e.to == x)) [
  | inl here ↦ (e.from, ground (arith, here, ==_refl e.from), ground (arith, here))
  | inr other ↦
      let (d, on, held) = edges_between-link es names x (ground (arith, other)) in
      (d, ground (arith, on), held)
]

empty_level-Stuck :
    (edges : List Edge) (remaining : List String) (degree : InDegree)
    (inv : Counts edges remaining degree)
    → contains remaining "" ≡ false
    → is_empty (level edges remaining degree inv) ≡ true
    → Stuck edges remaining
empty_level-Stuck edges remaining degree inv n e = record {
  named = n;
  waits = λ y c. edges_between-link edges remaining y (
      ground (
        arith,
        contains_none (level edges remaining degree inv) y e,
        contains-level edges remaining degree inv y,
        inv.counted y,
      ));
}

try_starts-is_cycle :
    (edges : List Edge) (remaining names : List String) (x : String) (c : List String)
    → Stuck edges remaining
    → ((y : String) → contains names y ≡ true → contains remaining y ≡ true)
    → contains names x ≡ true
    → try_starts edges remaining names ≡ some c
    → is_cycle edges c ≡ true
unfolding try_starts
try_starts-is_cycle edges remaining [] x c s sub m h = cc m
try_starts-is_cycle edges remaining (y ∷ names) x c s sub m h =
    let (cycle, e, leads_back) =
      follow-is_cycle (suc (length remaining)) edges remaining [] y s refl refl (λ z m. cc m)
        (sub y (ground (arith, ==_refl y))) (omega arith) in
    let same : cycle ≡ c = ground (arith, e) in ap (is_cycle edges) (sym same) ∙ leads_back

extract_cycle-is_cycle :
    (edges : List Edge) (name : String) (names c : List String)
    → Stuck edges (name ∷ names)
    → extract_cycle edges (name ∷ names) ≡ some c
    → is_cycle edges c ≡ true
unfolding extract_cycle
extract_cycle-is_cycle edges name names c s =
    try_starts-is_cycle edges (name ∷ names) (sort_texts (name ∷ names)) name c s
      (λ y m. sym (contains-sort_texts y (name ∷ names)) ∙ m)
      (contains-sort_texts name (name ∷ names) ∙ ground (arith, ==_refl name))

cycle_outcome-cyclic :
    (o : Option (List String)) (c : List String) → cycle_outcome o ≡ cyclic c → o ≡ some c
cycle_outcome-cyclic none c e = cc e
cycle_outcome-cyclic (some d) c e = ground arith

add_level-cyclic :
    (l : List String) (o : SortOutcome) (c : List String) → add_level l o ≡ cyclic c → o ≡ cyclic c
add_level-cyclic l (sorted ls) c e = cc e
add_level-cyclic l (cyclic d) c e = e
add_level-cyclic l (failed m) c e = cc e
add_level-cyclic l out_of_fuel c e = cc e

levels-is_cycle :
    (fuel : ℕ) (edges : List Edge) (remaining : List String) (degree : InDegree) (c : List String)
    → Counts edges remaining degree
    → contains remaining "" ≡ false
    → levels fuel edges remaining degree ≡ cyclic c
    → is_cycle edges c ≡ true
unfolding levels
levels-is_cycle zero edges [] degree c inv n e = cc e
levels-is_cycle (suc fuel) edges [] degree c inv n e = cc e
levels-is_cycle zero edges (x ∷ xs) degree c inv n e = cc e
levels-is_cycle (suc fuel) edges (x ∷ xs) degree c inv n e =
    let now : List String = level edges (x ∷ xs) degree inv in
    elim (Bool-cases (is_empty now)) [
      | inl stuck ↦
          extract_cycle-is_cycle edges x xs c (empty_level-Stuck edges (x ∷ xs) degree inv n stuck)
            (cycle_outcome-cyclic (extract_cycle edges (x ∷ xs)) c (ground (arith, stuck)))
      | inr more ↦
          levels-is_cycle fuel edges (remove_names now (x ∷ xs)) (release edges now degree) c
            (round-Counts edges (x ∷ xs) degree inv)
            (ground (arith, contains-remove_names now (x ∷ xs) ""))
            (add_level-cyclic now
              (levels fuel edges (remove_names now (x ∷ xs)) (release edges now degree)) c
              (ground (arith, more)))
    ]

sort_scheduled-is_cycle :
    (nodes : List String) (edges : List Edge) (c : List String)
    → distinct nodes ≡ true
    → contains nodes "" ≡ false
    → sort_scheduled nodes edges ≡ cyclic c
    → is_cycle edges c ≡ true
unfolding sort_scheduled
sort_scheduled-is_cycle nodes edges c d n e = elim (Result-cases (check_ends nodes edges)) [
  | inr (message, bad) ↦ absurd (ground (arith, bad))
  | inl (unit, good) ↦
      levels-is_cycle (length nodes) edges nodes (in_degree edges) c
        (start-Counts nodes edges d good) n (ground (arith, good))
]

-- Where SortGraph reports a cycle and no node has an empty name, each node of the reported cycle
-- depends on the next by a scheduled edge of the graph, and the last on the first.
pub sort_graph-is_cycle :
    (g : Graph) (c : List String)
    → IsKeyed g.nodes
    → contains (node_ids g.nodes) "" ≡ false
    → sort_graph g ≡ cyclic c
    → is_cycle (scheduled g.edges) c ≡ true
unfolding sort_graph
sort_graph-is_cycle g c k n e =
    let (same, edges) = scheduling_projection-Same g k in
    let found : is_cycle (scheduling_projection g).edges c ≡ true =
      sort_scheduled-is_cycle (node_ids (scheduling_projection g).nodes)
        (scheduling_projection g).edges c (scheduling_projection-once g) (same.ids "" ∙ n)
        (ground arith) in
    is_cycle-le (scheduling_projection g).edges (scheduled g.edges) c
      (link_of_contains (scheduling_projection g).edges (scheduled g.edges)
        (λ d h. ground (arith, edges d, contains-scheduled d g.edges, h)))
      found
