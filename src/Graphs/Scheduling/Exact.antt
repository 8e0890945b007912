-- ===== src/Graphs/Scheduling/Exact.antt =====
-- The counts of SortGraph: no decrement goes below 0.
use depengine.Prelude.{
  sort_texts, ◌+◌, ℕ, suc, ◌++◌, [], ◌∷◌, refl, sym, ap, ◌∙◌, true, false, is_empty, length, arith,
  distinct, String, ◌≡◌, List, string_eq, ok,
}
use depengine.Graphs.{Graph, Edge, node_ids, scheduling_projection}
use depengine.Graphs.Canonical.{scheduling_projection-once}
use depengine.Graphs.Scheduling.{
  SortOutcome, add_level, levels, sort_scheduled, InDegree, in_degree, release, ready, remove_names,
  check_ends,
}
use depengine.Graphs.Scheduling.Counting.{edges_between}
use depengine.Graphs.Scheduling.Rounds.{Counts, start-Counts, round-Counts, round-exact}

-- the outcome with these levels in front
abbrev pub after : List (List String) → SortOutcome → SortOutcome
after [] o = o
after (l ∷ ls) o = add_level l (after ls o)

after-append :
    (ls : List (List String)) (l : List String) (o : SortOutcome)
    → after (ls ++ l ∷ []) o ≡ after ls (add_level l o)
after-append [] l o = refl
after-append (x ∷ ls) l o = ap (add_level x) (after-append ls l o)

-- The rounds of `levels` below `sort_scheduled`: the fuel that is left, the levels so far, the
-- remaining nodes, and their counts.
pub data Round (nodes : List String) (edges : List Edge)
    : ℕ → List (List String) → List String → InDegree → Type 0 where
  start : Round nodes edges (length nodes) [] nodes (in_degree edges)
  onward :
      {fuel : ℕ} {done : List (List String)} {remaining : List String} {degree : InDegree}
      → Round nodes edges (suc fuel) done remaining degree
      → is_empty (sort_texts (ready remaining degree)) ≡ false
      → Round nodes edges fuel
          (done ++ sort_texts (ready remaining degree) ∷ [])
          (remove_names (sort_texts (ready remaining degree)) remaining)
          (release edges (sort_texts (ready remaining degree)) degree)

Round-Counts :
    (nodes : List String) (edges : List Edge) {fuel : ℕ} {done : List (List String)}
    {remaining : List String} {degree : InDegree}
    → distinct nodes ≡ true
    → check_ends nodes edges ≡ ok tt
    → Round nodes edges fuel done remaining degree
    → Counts edges remaining degree
Round-Counts nodes edges d h start = start-Counts nodes edges d h
Round-Counts nodes edges d h (onward {remaining = r} {degree = k} before more) =
    round-Counts edges r k (Round-Counts nodes edges d h before)

levels-round :
    (fuel : ℕ) (edges : List Edge) (remaining : List String) (degree : InDegree)
    → is_empty (sort_texts (ready remaining degree)) ≡ false
    → levels (suc fuel) edges remaining degree
      ≡ add_level (sort_texts (ready remaining degree)) (
          levels fuel edges
            (remove_names (sort_texts (ready remaining degree)) remaining)
            (release edges (sort_texts (ready remaining degree)) degree))
unfolding levels ready sort_texts
levels-round fuel edges [] degree e = cc e
levels-round fuel edges (x ∷ xs) degree e = ground arith

Round-levels :
    (nodes : List String) (edges : List Edge) {fuel : ℕ} {done : List (List String)}
    {remaining : List String} {degree : InDegree}
    → check_ends nodes edges ≡ ok tt
    → Round nodes edges fuel done remaining degree
    → sort_scheduled nodes edges ≡ after done (levels fuel edges remaining degree)
unfolding sort_scheduled
Round-levels nodes edges h start = ground arith
Round-levels nodes edges h
      (onward {fuel = n} {done = ls} {remaining = r} {degree = k} before more) =
    let level = sort_texts (ready r k) in
    let rest = levels n edges (remove_names level r) (release edges level k) in
    Round-levels nodes edges h before
    ∙ ap (after ls) (levels-round n edges r k more)
    ∙ sym (after-append ls level rest)

-- In every round of SortGraph on a graph whose scheduled edges have their ends among its nodes, the
-- loop over the level takes from each count exactly the number of scheduled edges from the level, and
-- no count is less than that: no decrement goes below 0. What the sort returns is the levels so far,
-- followed by what the loop makes of the remaining nodes and their counts.
pub release_exact :
    (g : Graph) (fuel : ℕ) (done : List (List String)) (remaining : List String) (degree : InDegree)
    (x : String)
    → check_ends (node_ids (scheduling_projection g).nodes) (scheduling_projection g).edges ≡ ok tt
    → Round
        (node_ids (scheduling_projection g).nodes)
        (scheduling_projection g).edges
        fuel
        done
        remaining
        degree
    → (release (scheduling_projection g).edges (sort_texts (ready remaining degree)) degree x
          + edges_between (scheduling_projection g).edges (sort_texts (ready remaining degree)) x
        ≡ degree x)
      × (sort_scheduled (node_ids (scheduling_projection g).nodes) (scheduling_projection g).edges
          ≡ after done (levels fuel (scheduling_projection g).edges remaining degree))
release_exact g fuel done remaining degree x h r =
    let nodes = node_ids (scheduling_projection g).nodes in
    let edges = (scheduling_projection g).edges in
    (
      round-exact edges remaining degree
          (Round-Counts nodes edges (scheduling_projection-once g) h r) x,
      Round-levels nodes edges h r,
    )
