-- ===== src/Graphs/Slicing/Exploring.antt =====
-- What holds between two iterations of the breadth-first walk.
use depengine.Prelude.{
  distinct, contains-append, distinct-append, ==_refl, eq_of_==, ℕ, suc, ◌≤◌, String, ◌≡◌, sym, ap,
  ◌∙◌, inl, inr, true, false, ◌||◌, List, ◌∷◌, ◌++◌, arith, ◌==◌, string_eq, nat_eq, Bool-cases,
  contains, Table,
}
use mathlib.Core.List.{append_assoc}
use depengine.Graphs.{ℤ}
use depengine.Graphs.Slicing.{Walker, is_seen, distance_at, discover, stops}
use depengine.Graphs.Slicing.Discovery.{
  is_seen-discover, distance_at-discover_kept, distance_at-discover_new, Found,
}
use depengine.Graphs.Slicing.Walks.{
  within, stops-within, Walk, Rising, Near, Rising-append, Near-intro, Near-tail, distinct-middle,
}

module _ (adjacency : String → List String) (roots : List String) (depth : ℤ) where
  -- the state between two iterations, when the walk has kept these nodes
  pub record Explored (distance : Table String ℕ) (queue kept : List String) : Type 0 where
    pub once : distinct (kept ++ queue) ≡ true
    pub parts : (x : String) → is_seen distance x ≡ (contains kept x || contains queue x)
    pub known :
        (x : String)
        → contains roots x ≡ true
        → (is_seen distance x ≡ true) × (distance_at distance x ≡ 0)
    pub sound :
        (x : String)
        → is_seen distance x ≡ true
        → Walk adjacency roots (distance_at distance x) x
          × (within depth (distance_at distance x) ≡ true)
    pub expanded :
        (u x : String)
        → contains kept u ≡ true
        → stops depth (distance_at distance u) ≡ false
        → contains (adjacency u) x ≡ true
        → (is_seen distance x ≡ true) × (distance_at distance x ≤ suc (distance_at distance u))
    pub rising : Rising distance queue
    pub near : Near distance queue

  pub stop-Explored :
      (distance : Table String ℕ) (node : String) (queue kept : List String)
      → Explored distance (node ∷ queue) kept
      → stops depth (distance_at distance node) ≡ true
      → Explored distance queue (node ∷ kept)
  unfolding Rising Near
  stop-Explored distance node queue kept inv s = record {
    once = distinct-middle kept queue node inv.once;
    parts = λ x. ground (arith, inv.parts x);
    known = inv.known;
    sound = inv.sound;
    expanded = λ u x c g a. elim (Bool-cases (node == u)) [
      | inl same ↦
          let equal : node ≡ u = eq_of_== node u same in
          absurd (ground (arith, ap (λ v. stops depth (distance_at distance v)) equal))
      | inr other ↦ inv.expanded u x (ground (arith, other)) g a
    ];
    rising = inv.rising.1;
    near = Near-tail distance node queue inv.rising inv.near;
  }

  module _ (distance : Table String ℕ) (node : String) (queue kept new : List String)
      (inv : Explored distance (node ∷ queue) kept)
      (goes : stops depth (distance_at distance node) ≡ false)
      (f : Found
        (record { distance = distance; queue = queue })
        (suc (distance_at distance node))
        (adjacency node)
        new) where
    abbrev m : ℕ
    m = suc (distance_at distance node)

    abbrev before : Walker
    before = record { distance = distance; queue = queue }

    abbrev after : Table String ℕ
    after = (discover m (adjacency node) before).distance

    seen_after :
        (y : String) → is_seen after y ≡ (is_seen distance y || contains (adjacency node) y)
    seen_after y = is_seen-discover m (adjacency node) before y

    old_distance :
        (y : String) → is_seen distance y ≡ true → distance_at after y ≡ distance_at distance y
    old_distance y = distance_at-discover_kept m (adjacency node) before y

    new_distance :
        (y : String)
        → is_seen distance y ≡ false
        → contains (adjacency node) y ≡ true
        → distance_at after y ≡ m
    new_distance y = distance_at-discover_new m (adjacency node) before y

    node_seen : is_seen distance node ≡ true
    node_seen = ground (arith, inv.parts node, ==_refl node)

    below_after : (y : String) → is_seen after y ≡ true → distance_at after y ≤ m
    unfolding Near
    below_after y c = elim (Bool-cases (is_seen distance y)) [
      | inl old ↦ omega (arith, old_distance y old, inv.near y old)
      | inr fresh ↦ omega (arith, new_distance y fresh (ground (arith, seen_after y)))
    ]

    sound_after :
        (x : String)
        → is_seen after x ≡ true
        → Walk adjacency roots (distance_at after x) x × (within depth (distance_at after x) ≡ true)
    sound_after x c = elim (Bool-cases (is_seen distance x)) [
      | inl old ↦ rw (old_distance x old) (inv.sound x old)
      | inr fresh ↦
          let on : contains (adjacency node) x ≡ true = ground (arith, seen_after x) in
          let (w, ok_node) = inv.sound node node_seen in
          rw (new_distance x fresh on) (
            Walk.onward w on,
            ground (arith, stops-within depth (distance_at distance node) ok_node),
          )
    ]

    expanded_after :
        (u x : String)
        → contains (node ∷ kept) u ≡ true
        → stops depth (distance_at after u) ≡ false
        → contains (adjacency u) x ≡ true
        → (is_seen after x ≡ true) × (distance_at after x ≤ suc (distance_at after u))
    expanded_after u x c g a = elim (Bool-cases (node == u)) [
      | inl same ↦
          let equal : node ≡ u = eq_of_== node u same in
          let on : contains (adjacency node) x ≡ true =
            ap (λ v. contains (adjacency v) x) equal ∙ a in
          let found : is_seen after x ≡ true = ground (arith, seen_after x) in
          let there : distance_at after u ≡ distance_at distance node =
            sym (ap (distance_at after) equal) ∙ old_distance node node_seen in
          (found, omega (arith, below_after x found, there))
      | inr other ↦
          let was : contains kept u ≡ true = ground (arith, other) in
          let u_seen : is_seen distance u ≡ true = ground (arith, inv.parts u) in
          let (x_seen, le) =
            inv.expanded u x was (sym (ap (stops depth) (old_distance u u_seen)) ∙ g) a in
          (
            ground (arith, seen_after x),
            omega (arith, old_distance x x_seen, old_distance u u_seen, le),
          )
    ]

    queue_seen : (y : String) → contains queue y ≡ true → is_seen distance y ≡ true
    queue_seen y c = ground (arith, inv.parts y, c)

    go_once : distinct (node ∷ kept ++ (queue ++ new)) ≡ true
    go_once =
        let shorter : distinct (node ∷ kept ++ queue) ≡ true =
          distinct-middle kept queue node inv.once in
        let all =
          distinct-append (node ∷ kept ++ queue) new shorter f.once
            (λ a c. ground (arith, f.held a, inv.parts a, contains-append kept queue a, c)) in
        ap distinct (sym (append_assoc (node ∷ kept) queue new)) ∙ all

    above_after : (z : String) → contains (queue ++ new) z ≡ true → m ≤ suc (distance_at after z)
    unfolding Rising
    above_after z c = elim (Bool-cases (contains queue z)) [
      | inl old ↦ omega (arith, old_distance z (queue_seen z old), inv.rising.0 z old)
      | inr fresh ↦
          let into : contains new z ≡ true = ground (arith, contains-append queue new z) in
          omega (arith, new_distance z (ground (arith, f.held z)) (ground (arith, f.held z)))
    ]

    pub go-Explored : Explored after (queue ++ new) (node ∷ kept)
    unfolding Rising Near
    go-Explored = record {
      once = go_once;
      parts = λ x. ground (arith, seen_after x, inv.parts x, contains-append queue new x, f.held x);
      known = λ x c.
          let (x_seen, zero_away) = inv.known x c in
          (ground (arith, seen_after x), old_distance x x_seen ∙ zero_away);
      sound = sound_after;
      expanded = expanded_after;
      rising =
          Rising-append distance after queue new m inv.rising.1
            (λ y c. old_distance y (queue_seen y c)) (λ y c. inv.near y (queue_seen y c))
            (λ y c. new_distance y (ground (arith, f.held y)) (ground (arith, f.held y)));
      near = Near-intro after (queue ++ new) m below_after (λ z c. above_after z c);
    }
