-- ===== src/Graphs/Scheduling/Rounds.antt =====
-- The rounds of Kahn's algorithm place every node once, behind its dependencies, and end.
use depengine.Graphs.Scheduling.Following.{extract_cycle-finishes}
use depengine.Prelude.{
  ◌+◌, distinct-sort_texts, distinct-append, distinct, contains-sort_texts, contains-append, concat,
  eq_of_==, ℕ, zero, suc, ◌≤◌, ◌<◌, String, ◌≡◌, refl, sym, ◌∙◌, ◌≢◌, inl, inr, Bool, true, false,
  ◌&&◌, ◌||◌, List, [], ◌∷◌, arith, ◌==◌, string_eq, nat_eq, Bool-cases, length, is_empty, contains,
  ok,
}
use depengine.Graphs.{some, none, Option, sort_texts, Edge, edge_eq}
use depengine.Graphs.Scheduling.{
  cycle_outcome, extract_cycle, SortOutcome, sorted, cyclic, failed, out_of_fuel, InDegree,
  in_degree, release, ready, remove_names, check_ends, add_level, levels,
}
use depengine.Graphs.Scheduling.Counting.{
  edges_between, in_degree-edges_between, release-edges_between, contains-remove_names,
  edges_between-remove_names, edges_between_counted, contains-ready, distinct-ready,
  distinct-remove_names, length-remove_names-lt,
}

-- `a` stands in a level before the one of `b`.
abbrev pub earlier : List (List String) → String → String → Bool
earlier [] a b = false
earlier (level ∷ rest) a b = contains level a && contains (concat rest) b || earlier rest a b

add_level-sorted :
    (level : List String) (o : SortOutcome) (ls : List (List String))
    → add_level level o ≡ sorted ls
    → (rest : List (List String)) × (o ≡ sorted rest) × (ls ≡ level ∷ rest)
add_level-sorted level (sorted rest) ls e = (rest, refl, ground arith)
add_level-sorted level (cyclic c) ls e = cc e
add_level-sorted level (failed m) ls e = cc e
add_level-sorted level out_of_fuel ls e = cc e

is_empty-contains : (xs : List String) → is_empty xs ≡ false → (x : String) × (contains xs x ≡ true)
is_empty-contains [] e = cc e
is_empty-contains (x ∷ xs) e = (x, ground arith)

-- The counts are those of the edges from the remaining nodes.
pub record Counts (edges : List Edge) (remaining : List String) (degree : InDegree) : Type 0 where
  pub once : distinct remaining ≡ true
  pub counted : (x : String) → degree x ≡ edges_between edges remaining x

module _ (edges : List Edge) (remaining : List String) (degree : InDegree)
    (inv : Counts edges remaining degree) where
  abbrev pub level : List String
  level = sort_texts (ready remaining degree)

  pub contains-level : (x : String) → contains level x ≡ (contains remaining x && degree x == 0)
  contains-level x =
      contains-sort_texts x (ready remaining degree) ∙ contains-ready remaining degree x

  level-distinct : distinct level ≡ true
  level-distinct =
      distinct-sort_texts (ready remaining degree) (distinct-ready remaining degree inv.once)

  pub round-Counts : Counts edges (remove_names level remaining) (release edges level degree)
  round-Counts = record {
    once = distinct-remove_names level remaining inv.once;
    counted = λ x. omega (
      arith,
      release-edges_between edges level degree x level-distinct,
      inv.counted x,
      edges_between-remove_names edges level remaining x (λ y c. ground (arith, contains-level y)),
    );
  }

  -- the loop over a level takes from each count exactly the number of edges from the level
  pub round-exact :
      (x : String) → release edges level degree x + edges_between edges level x ≡ degree x
  round-exact x = omega (
    arith,
    release-edges_between edges level degree x level-distinct,
    inv.counted x,
    edges_between-remove_names edges level remaining x (λ y c. ground (arith, contains-level y)),
  )

  -- the end of an edge from a remaining node is not in the level
  target_waits :
      (e : Edge)
      → contains edges e ≡ true
      → contains remaining e.from ≡ true
      → contains level e.to ≡ false
  target_waits e h c =
      ground
        (arith, contains-level e.to, inv.counted e.to, edges_between_counted edges remaining e h c)

  pub round-shrinks :
      is_empty level ≡ false → length (remove_names level remaining) < length remaining
  round-shrinks e =
      let (x, c) = is_empty-contains level e in
      length-remove_names-lt level remaining x c (ground (arith, contains-level x))

pub record Placed (edges : List Edge) (remaining : List String) (ls : List (List String))
    : Type 0 where
  pub all_placed : (x : String) → contains (concat ls) x ≡ contains remaining x
  pub once : distinct (concat ls) ≡ true
  pub in_order :
      (e : Edge)
      → contains edges e ≡ true
      → contains remaining e.from ≡ true
      → contains remaining e.to ≡ true
      → earlier ls e.from e.to ≡ true

round-Placed :
    (edges : List Edge) (remaining : List String) (degree : InDegree)
    (inv : Counts edges remaining degree) (rest : List (List String))
    → Placed edges (remove_names (level edges remaining degree inv) remaining) rest
    → Placed edges remaining (level edges remaining degree inv ∷ rest)
round-Placed edges remaining degree inv rest p =
    let now : List String = level edges remaining degree inv in
    let at = contains-level edges remaining degree inv in
    record {
      all_placed = λ x. ground (
        arith,
        contains-append now (concat rest) x,
        p.all_placed x,
        at x,
        contains-remove_names now remaining x,
      );
      once =
          distinct-append now (concat rest) (level-distinct edges remaining degree inv) p.once
            (λ x c. ground (arith, p.all_placed x, contains-remove_names now remaining x, c));
      in_order = λ d h c c'. ground (
        arith,
        target_waits edges remaining degree inv d h c,
        p.all_placed d.to,
        contains-remove_names now remaining d.to,
        contains-remove_names now remaining d.from,
        p.in_order d h,
      );
    }

cycle_outcome_not_sorted :
    (o : Option (List String)) (ls : List (List String)) → cycle_outcome o ≢ sorted ls
cycle_outcome_not_sorted none ls e = cc e
cycle_outcome_not_sorted (some c) ls e = cc e

pub levels-Placed :
    (fuel : ℕ) (edges : List Edge) (remaining : List String) (degree : InDegree)
    (ls : List (List String))
    → Counts edges remaining degree
    → levels fuel edges remaining degree ≡ sorted ls
    → Placed edges remaining ls
unfolding levels
levels-Placed zero edges [] degree ls inv e =
    let none_left : ls ≡ [] = ground arith in
    rw none_left (record { all_placed = λ x. refl; once = refl; in_order = λ d h c. cc })
levels-Placed (suc fuel) edges [] degree ls inv e =
    let none_left : ls ≡ [] = ground arith in
    rw none_left (record { all_placed = λ x. refl; once = refl; in_order = λ d h c. cc })
levels-Placed zero edges (n ∷ ns) degree ls inv e = cc e
levels-Placed (suc fuel) edges (n ∷ ns) degree ls inv e =
    let now : List String = level edges (n ∷ ns) degree inv in
    elim (Bool-cases (is_empty now)) [
      | inl stuck ↦
          absurd
            (cycle_outcome_not_sorted (extract_cycle edges (n ∷ ns)) ls (ground (arith, stuck)))
      | inr more ↦
          let (rest, e', same) =
            add_level-sorted now
              (levels fuel edges (remove_names now (n ∷ ns)) (release edges now degree)) ls
              (ground (arith, more)) in
          let ih =
            levels-Placed fuel edges (remove_names now (n ∷ ns)) (release edges now degree) rest
              (round-Counts edges (n ∷ ns) degree inv) e' in
          rw same (round-Placed edges (n ∷ ns) degree inv rest ih)
    ]

add_level-ne : (l : List String) (o : SortOutcome) → o ≢ out_of_fuel → add_level l o ≢ out_of_fuel
add_level-ne l (sorted ls) h e = cc e
add_level-ne l (cyclic c) h e = cc e
add_level-ne l (failed m) h e = cc e
add_level-ne l out_of_fuel h e = h refl

cycle_outcome-ne : (o : Option (List String)) → o ≢ none → cycle_outcome o ≢ out_of_fuel
cycle_outcome-ne none h e = h refl
cycle_outcome-ne (some c) h e = cc e

-- As many rounds as there are nodes are enough, and the search for a cycle ends.
pub levels-ends :
    (fuel : ℕ) (edges : List Edge) (remaining : List String) (degree : InDegree)
    → Counts edges remaining degree
    → length remaining ≤ fuel
    → levels fuel edges remaining degree ≢ out_of_fuel
unfolding levels
levels-ends zero edges [] degree inv l e = cc e
levels-ends (suc fuel) edges [] degree inv l e = cc e
levels-ends zero edges (n ∷ ns) degree inv l e = absurd (omega arith)
levels-ends (suc fuel) edges (n ∷ ns) degree inv l e =
    let now : List String = level edges (n ∷ ns) degree inv in
    elim (Bool-cases (is_empty now)) [
      | inl stuck ↦
          cycle_outcome-ne (extract_cycle edges (n ∷ ns)) (extract_cycle-finishes edges (n ∷ ns))
            (ground (arith, stuck))
      | inr more ↦
          add_level-ne now
            (levels fuel edges (remove_names now (n ∷ ns)) (release edges now degree))
            (levels-ends fuel edges (remove_names now (n ∷ ns)) (release edges now degree)
              (round-Counts edges (n ∷ ns) degree inv)
              (omega (arith, round-shrinks edges (n ∷ ns) degree inv more)))
            (ground (arith, more))
    ]

pub start-Counts :
    (nodes : List String) (edges : List Edge)
    → distinct nodes ≡ true
    → check_ends nodes edges ≡ ok tt
    → Counts edges nodes (in_degree edges)
start-Counts nodes edges d h = record {
  once = d;
  counted = λ x. in_degree-edges_between nodes edges x h;
}

pub check_ends-contains :
    (nodes : List String) (es : List Edge) (e : Edge)
    → check_ends nodes es ≡ ok tt
    → contains es e ≡ true
    → (contains nodes e.from ≡ true) × (contains nodes e.to ≡ true)
unfolding check_ends
check_ends-contains nodes [] e h c = cc c
check_ends-contains nodes (f ∷ es) e h c = elim (Bool-cases (f == e)) [
  | inl same ↦ let equal : f ≡ e = eq_of_== f e same in rw (sym equal) (ground arith)
  | inr other ↦ check_ends-contains nodes es e (ground arith) (ground arith)
]
