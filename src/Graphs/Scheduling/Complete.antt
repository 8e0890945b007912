-- ===== src/Graphs/Scheduling/Complete.antt =====
-- SortGraph puts every graph without a cycle in order.
use depengine.Prelude.{
  Option, none, some, ==_refl, ℕ, zero, suc, ◌<◌, String, ◌≡◌, refl, sym, ◌∙◌, ◌≢◌, inl, inr, true,
  false, List, [], ◌∷◌, arith, string_eq, nat_eq, Bool-cases, length, is_empty, contains, ok,
}
use depengine.Graphs.{
  some, Option, scheduled, sort_texts, Graph, Edge, edge_eq, node_ids, scheduling_projection,
}
use depengine.Graphs.Canonical.{IsKeyed, contains-scheduled, scheduling_projection-Same}
use depengine.Graphs.Scheduling.{
  cycle_outcome, extract_cycle, release, add_level, remove_names, SortOutcome, sorted, cyclic,
  failed, out_of_fuel, InDegree, in_degree, check_ends, levels, ready, sort_scheduled, sort_graph,
}
use depengine.Graphs.Scheduling.Paths.{link, chain, is_cycle, link-edge}
use depengine.Graphs.Scheduling.Cycles.{sort_graph-is_cycle}
use depengine.Graphs.Scheduling.Order.{sort_graph_ends}

-- Along a chain of dependencies a rank that rises from each dependency falls.
chain-falls :
    (rank : String → ℕ) (es : List Edge) (x : String) (path : List String) (end : String)
    → ((a b : String) → link es a b ≡ true → rank b < rank a)
    → chain es (x ∷ path) end ≡ true
    → rank end < rank x
chain-falls rank es x [] end h c = h x end c
chain-falls rank es x (y ∷ path) end h c =
    omega (arith, chain-falls rank es y path end h (ground arith), h x y (ground arith))

ranked_no_cycle :
    (rank : String → ℕ) (es : List Edge) (c : List String)
    → ((a b : String) → link es a b ≡ true → rank b < rank a)
    → is_cycle es c ≡ false
ranked_no_cycle rank es [] h = refl
ranked_no_cycle rank es (x ∷ path) h = elim (Bool-cases (is_cycle es (x ∷ path))) [
  | inl cycle ↦ absurd (omega (arith, chain-falls rank es x path x h cycle))
  | inr none_there ↦ none_there
]

check_ends-ok :
    (nodes : List String) (es : List Edge)
    → ((e : Edge)
        → contains es e ≡ true
        → (contains nodes e.from ≡ true) × (contains nodes e.to ≡ true))
    → check_ends nodes es ≡ ok tt
unfolding check_ends
check_ends-ok nodes [] h = refl
check_ends-ok nodes (e ∷ es) h = ground (
  arith,
  h e (ground (arith, ==_refl e)),
  check_ends-ok nodes es (λ f c. h f (ground (arith, c))),
)

add_level_not_failed :
    (l : List String) (o : SortOutcome) (m : String) → o ≢ failed m → add_level l o ≢ failed m
add_level_not_failed l (sorted ls) m h e = cc e
add_level_not_failed l (cyclic c) m h e = cc e
add_level_not_failed l (failed k) m h e = h e
add_level_not_failed l out_of_fuel m h e = cc e

cycle_outcome_not_failed : (o : Option (List String)) (m : String) → cycle_outcome o ≢ failed m
cycle_outcome_not_failed none m e = cc e
cycle_outcome_not_failed (some c) m e = cc e

levels_not_failed :
    (fuel : ℕ) (edges : List Edge) (remaining : List String) (degree : InDegree) (m : String)
    → levels fuel edges remaining degree ≢ failed m
unfolding levels
levels_not_failed zero edges [] degree m e = cc e
levels_not_failed (suc fuel) edges [] degree m e = cc e
levels_not_failed zero edges (x ∷ xs) degree m e = cc e
levels_not_failed (suc fuel) edges (x ∷ xs) degree m e =
    let now : List String = sort_texts (ready (x ∷ xs) degree) in
    let rest = levels fuel edges (remove_names now (x ∷ xs)) (release edges now degree) in
    elim (Bool-cases (is_empty now)) [
      | inl stuck ↦
          cycle_outcome_not_failed (extract_cycle edges (x ∷ xs)) m (ground (arith, stuck))
      | inr more ↦
          add_level_not_failed now rest m
            (levels_not_failed fuel edges (remove_names now (x ∷ xs)) (release edges now degree) m)
            (ground (arith, more))
    ]

sort_scheduled_not_failed :
    (nodes : List String) (edges : List Edge) (m : String)
    → check_ends nodes edges ≡ ok tt
    → sort_scheduled nodes edges ≢ failed m
unfolding sort_scheduled
sort_scheduled_not_failed nodes edges m h e =
    levels_not_failed (length nodes) edges nodes (in_degree edges) m (ground (arith, h))

sort_graph_not_failed :
    (g : Graph) (m : String)
    → check_ends (node_ids (scheduling_projection g).nodes) (scheduling_projection g).edges ≡ ok tt
    → sort_graph g ≢ failed m
unfolding sort_graph
sort_graph_not_failed g m h e = elim (Bool-cases (is_empty g.nodes)) [
  | inl none_there ↦ ground (arith, none_there)
  | inr some_there ↦
      sort_scheduled_not_failed (node_ids (scheduling_projection g).nodes)
        (scheduling_projection g).edges m h (ground (arith, some_there))
]

sorted_of_others :
    (o : SortOutcome)
    → o ≢ out_of_fuel
    → ((m : String) → o ≢ failed m)
    → ((c : List String) → o ≢ cyclic c)
    → (ls : List (List String)) × (o ≡ sorted ls)
sorted_of_others (sorted ls) f m c = (ls, refl)
sorted_of_others (cyclic d) f m c = absurd (c d refl)
sorted_of_others (failed k) f m c = absurd (m k refl)
sorted_of_others out_of_fuel f m c = absurd (f refl)

-- SortGraph returns levels on a graph without a node of the empty name, whose scheduled edges have
-- their ends in the graph and rise in some rank.
pub sort_graph-sorted :
    (g : Graph) (rank : String → ℕ)
    → IsKeyed g.nodes
    → contains (node_ids g.nodes) "" ≡ false
    → ((e : Edge)
        → contains (scheduled g.edges) e ≡ true
        → (contains (node_ids g.nodes) e.from ≡ true)
          × (contains (node_ids g.nodes) e.to ≡ true)
          × (rank e.from < rank e.to))
    → (ls : List (List String)) × (sort_graph g ≡ sorted ls)
sort_graph-sorted g rank k n h =
    let (same, edges) = scheduling_projection-Same g k in
    let ids = node_ids (scheduling_projection g).nodes in
    let es = (scheduling_projection g).edges in
    let check : check_ends ids es ≡ ok tt = check_ends-ok ids es (λ e c.
      let (start, stop, up) = h e (contains-scheduled e g.edges ∙ sym (edges e) ∙ c) in
      (same.ids e.from ∙ start, same.ids e.to ∙ stop)) in
    sorted_of_others (sort_graph g) (sort_graph_ends g) (λ m. sort_graph_not_failed g m check)
      (λ c bad.
        let cycle = sort_graph-is_cycle g c k n bad in
        let no_cycle = ranked_no_cycle rank (scheduled g.edges) c (λ a b on.
          let (e, held, stop, start) = link-edge (scheduled g.edges) a b on in
          let (_, _, up) = h e held in rw (sym stop, sym start) up) in
        ground arith)
