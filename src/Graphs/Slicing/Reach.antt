-- ===== src/Graphs/Slicing/Reach.antt =====
-- The breadth-first walk ends, and keeps exactly the nodes within the depth.
use depengine.Prelude.{
  contains-sort_texts, contains-append, ℕ, zero, suc, ◌+◌, ◌≤◌, String, ◌≡◌, refl, sym, ap, ◌∙◌,
  ◌↔◌, ◌⊎◌, inl, inr, true, ◌||◌, some, List, [], ◌∷◌, ◌++◌, arith, string_eq, nat_eq, Bool-cases,
  length, length-append, contains, Table, lookup,
}
use mathlib.Core.Option
use depengine.Graphs.{ℤ}
use depengine.Graphs.Slicing.{
  sort_texts, Walker, is_seen, distance_at, discover, stops, advance, walk, reach,
}
use depengine.Graphs.Slicing.Discovery.{
  is_seen-discover, distance_at-discover_new, Found, discover-Found,
}
use depengine.Graphs.Scheduling.Following.{length-le_of_subset}
use depengine.Graphs.Slicing.Walks.{
  Near-intro, Rising-append, within, stops-within, within-le, within-zero, Walk, Rising,
}
use depengine.Graphs.Slicing.Exploring.{Explored, stop-Explored, go-Explored}

module _ (adjacency : String → List String) (roots : List String) (depth : ℤ) where
  advance-Explored :
      (distance : Table String ℕ) (node : String) (queue kept : List String)
      → Explored adjacency roots depth distance (node ∷ queue) kept
      → (let next = advance adjacency depth (record { distance = distance; queue = queue }) node in
          Explored adjacency roots depth next.distance next.queue (node ∷ kept))
  unfolding advance
  advance-Explored distance node queue kept inv =
      let w : Walker = record { distance = distance; queue = queue } in
      let k = distance_at distance node in
      elim (Bool-cases (stops depth k)) [
        | inl s ↦ rw s (stop-Explored adjacency roots depth distance node queue kept inv s)
        | inr goes ↦
            let (new, f) = discover-Found (suc k) (adjacency node) w in
            rw (goes, f.queued)
              (go-Explored adjacency roots depth distance node queue kept new inv goes f)
      ]

  -- the names of the roots and of all neighbours
  module _ (names : List String)
      (of_roots : (x : String) → contains roots x ≡ true → contains names x ≡ true)
      (of_next : (u x : String) → contains (adjacency u) x ≡ true → contains names x ≡ true) where
    Walk-names : (k : ℕ) (x : String) → Walk adjacency roots k x → contains names x ≡ true
    Walk-names k x (Walk.start c) = of_roots x c
    Walk-names k x (Walk.onward {u = u} w c) = of_next u x c

    Explored-bound :
        (distance : Table String ℕ) (queue kept : List String)
        → Explored adjacency roots depth distance queue kept
        → length kept + length queue ≤ length names
    Explored-bound distance queue kept inv =
        let all = length-le_of_subset (kept ++ queue) names inv.once (λ x c.
          Walk-names (distance_at distance x) x
            (inv.sound x (ground (arith, inv.parts x, contains-append kept queue x))).0) in
        omega (arith, all, length-append kept queue)

    walk-Explored :
        (fuel : ℕ) (distance : Table String ℕ) (queue kept : List String)
        → Explored adjacency roots depth distance queue kept
        → length names ≤ fuel + length kept
        → (out : List String) × (walk fuel adjacency depth distance queue ≡ some out)
          × (last : Table String ℕ) × (all : List String) × Explored adjacency roots depth last []
              all
          × ((x : String) → contains all x ≡ (contains kept x || contains out x))
    unfolding walk
    walk-Explored zero distance [] kept inv l = ([], refl, distance, kept, inv, λ x. ground arith)
    walk-Explored (suc fuel) distance [] kept inv l =
        ([], refl, distance, kept, inv, λ x. ground arith)
    walk-Explored zero distance (node ∷ queue) kept inv l =
        absurd (omega (arith, Explored-bound distance (node ∷ queue) kept inv))
    walk-Explored (suc fuel) distance (node ∷ queue) kept inv l =
        let next = advance adjacency depth (record { distance = distance; queue = queue }) node in
        let (out, e, last, all, inv', same) =
          walk-Explored fuel next.distance next.queue (node ∷ kept)
            (advance-Explored distance node queue kept inv) (omega arith) in
        (
          node ∷ out,
          ap (Option.map (λ kept. node ∷ kept)) e,
          last,
          all,
          inv',
          λ x. ground (arith, same x),
        )

  -- Every node within the depth has been kept when the queue is empty.
  Walk-kept :
      (distance : Table String ℕ) (kept : List String)
      → Explored adjacency roots depth distance [] kept
      → (k : ℕ) (x : String) → Walk adjacency roots k x
      → within depth k ≡ true
      → (is_seen distance x ≡ true) × (distance_at distance x ≤ k)
  Walk-kept distance kept inv k x (Walk.start c) h =
      let (seen, zero_away) = inv.known x c in (seen, omega (arith, zero_away))
  Walk-kept distance kept inv k x (Walk.onward {k = j} {u = u} w c) h =
      let before : within depth j ≡ true = within-le depth j (suc j) (omega arith) h in
      let (seen, le) = Walk-kept distance kept inv j u w before in
      let near : within depth (distance_at distance u) ≡ true =
        within-le depth (distance_at distance u) j le before in
      let on : within depth (suc (distance_at distance u)) ≡ true =
        within-le depth (suc (distance_at distance u)) (suc j) (omega (arith, le)) h in
      let (x_seen, x_le) =
        inv.expanded u x (ground (arith, inv.parts u))
          (ground (arith, stops-within depth (distance_at distance u) near)) c in
      (x_seen, omega (arith, x_le, le))

  -- the walk before its first iteration
  start_walker : Walker
  start_walker = discover 0 (sort_texts roots) (record { distance = []; queue = [] })

  module _ (new : List String)
      (f : Found (record { distance = []; queue = [] }) 0 (sort_texts roots) new) where
    start_seen : (x : String) → is_seen start_walker.distance x ≡ contains roots x
    unfolding start_walker lookup
    start_seen x = ground (
      arith,
      is_seen-discover 0 (sort_texts roots) (record { distance = []; queue = [] }) x,
      contains-sort_texts x roots,
    )

    start_distance :
        (x : String)
        → is_seen start_walker.distance x ≡ true
        → distance_at start_walker.distance x ≡ 0
    unfolding start_walker lookup
    start_distance x c =
        distance_at-discover_new 0 (sort_texts roots) (record { distance = []; queue = [] }) x refl
          (contains-sort_texts x roots ∙ sym (start_seen x) ∙ c)

    start_queue : (x : String) → contains new x ≡ contains roots x
    unfolding lookup
    start_queue x = ground (arith, f.held x, contains-sort_texts x roots)

    start-Explored : Explored adjacency roots depth start_walker.distance new []
    unfolding Rising
    start-Explored =
        let d = start_walker.distance in
        record {
          once = f.once;
          parts = λ x. start_seen x ∙ sym (start_queue x);
          known = λ x c. (start_seen x ∙ c, start_distance x (start_seen x ∙ c));
          sound = λ x c.
              rw (start_distance x c) (Walk.start (sym (start_seen x) ∙ c), within-zero depth);
          expanded = λ u x c. cc c;
          rising =
              Rising-append d d [] new 0 tt (λ y c. cc c) (λ y c. cc c)
                (λ y c. start_distance y (start_seen y ∙ sym (start_queue y) ∙ c));
          near = Near-intro d new 0 (λ y c. omega (arith, start_distance y c)) (λ z c. omega arith);
        }

-- the nodes that are within the depth of the roots
abbrev pub Within : (String → List String) → List String → ℤ → String → Type 0
Within adjacency roots depth x = (k : ℕ) × Walk adjacency roots k x × (within depth k ≡ true)

contains-cases :
    (xs ys : List String) (x : String)
    → contains (xs ++ ys) x ≡ true
    → (contains xs x ≡ true) ⊎ (contains ys x ≡ true)
contains-cases xs ys x c = elim (Bool-cases (contains xs x)) [
  | inl left ↦ inl left
  | inr other ↦ inr (ground (arith, contains-append xs ys x))
]

-- With fuel for all names that it may meet, reach ends; it adds to the kept nodes those within the
-- depth of the roots.
pub reach-Within :
    (edges : ℕ) (keep roots names : List String) (adjacency : String → List String) (depth : ℤ)
    → ((x : String) → contains roots x ≡ true → contains names x ≡ true)
    → ((u x : String) → contains (adjacency u) x ≡ true → contains names x ≡ true)
    → length names ≤ length roots + edges
    → (out : List String) × (reach edges keep roots adjacency depth ≡ some out)
      × ((x : String)
          → (contains out x ≡ true) ↔ ((contains keep x ≡ true) ⊎ Within adjacency roots depth x))
unfolding reach start_walker
reach-Within edges keep roots names adjacency depth of_roots of_next l =
    let begin : Walker = record { distance = []; queue = [] } in
    let (new, f) = discover-Found 0 (sort_texts roots) begin in
    let d = (discover 0 (sort_texts roots) begin).distance in
    let (out, e, last, all, inv, same) =
      walk-Explored adjacency roots depth names of_roots of_next (length roots + edges) d new []
        (start-Explored adjacency roots depth new f) (omega arith) in
    (
      keep ++ out,
      rw f.queued (ap (Option.map (λ kept. keep ++ kept)) e),
      λ x. (
        λ c. elim (contains-cases keep out x c) [
          | inl held ↦ inl held
          | inr found ↦
              let seen : is_seen last x ≡ true = ground (arith, inv.parts x, same x, found) in
              let (w, ok_k) = inv.sound x seen in inr (distance_at last x, w, ok_k)
        ],
        λ c. elim c [
          | inl held ↦ ground (arith, contains-append keep out x, held)
          | inr (k, w, ok_k) ↦
              let (seen, le) = Walk-kept adjacency roots depth last all inv k x w ok_k in
              ground (arith, contains-append keep out x, inv.parts x, same x, seen)
        ],
      ),
    )
