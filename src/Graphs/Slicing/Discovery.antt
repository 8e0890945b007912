-- ===== src/Graphs/Slicing/Discovery.antt =====
-- What the loops over roots and neighbours add to the distances and to the queue.
use depengine.Prelude.{
  ℕ, String, ◌≡◌, refl, sym, ap, inl, inr, true, false, ◌&&◌, ◌||◌, not, none, some, List, [], ◌∷◌,
  ◌++◌, arith, ◌==◌, string_eq, nat_eq, if◌then◌else◌, Bool-cases, contains, lookup, lookup-insert,
}
use depengine.Prelude.{distinct, ==_refl, eq_of_==}
use depengine.Graphs.Slicing.{Walker, is_seen, distance_at, enqueue, discover}

lookup-discover :
    (k : ℕ) (xs : List String) (w : Walker) (y : String)
    → lookup y (discover k xs w).distance ≡ (
        if is_seen w.distance y
        then lookup y w.distance
        else if contains xs y
        then some k
        else none)
unfolding discover
lookup-discover k [] w y = ground arith
lookup-discover k (x ∷ xs) w y = elim (Bool-cases (is_seen w.distance x)) [
  | inl seen ↦ elim (Bool-cases (x == y)) [
    | inl same ↦
        let equal : x ≡ y = eq_of_== x y same in
        ground (arith, lookup-discover k xs w y, ap (is_seen w.distance) equal)
    | inr other ↦ ground (arith, lookup-discover k xs w y)
  ]
  | inr fresh ↦ elim (Bool-cases (x == y)) [
    | inl same ↦
        let equal : x ≡ y = eq_of_== x y same in
        ground (
          arith,
          lookup-discover k xs (enqueue w x k) y,
          lookup-insert y x k w.distance,
          ap (is_seen w.distance) equal,
        )
    | inr other ↦
        ground (arith, lookup-discover k xs (enqueue w x k) y, lookup-insert y x k w.distance)
  ]
]

module _ (k : ℕ) (xs : List String) (w : Walker) (y : String) where
  pub is_seen-discover :
      is_seen (discover k xs w).distance y ≡ (is_seen w.distance y || contains xs y)
  is_seen-discover = ground (arith, lookup-discover k xs w y)

  pub distance_at-discover_kept :
      is_seen w.distance y ≡ true
      → distance_at (discover k xs w).distance y ≡ distance_at w.distance y
  distance_at-discover_kept h = ground (arith, lookup-discover k xs w y)

  pub distance_at-discover_new :
      is_seen w.distance y ≡ false
      → contains xs y ≡ true
      → distance_at (discover k xs w).distance y ≡ k
  distance_at-discover_new h c = ground (arith, lookup-discover k xs w y)

pub record Found (w : Walker) (k : ℕ) (xs new : List String) : Type 0 where
  pub queued : (discover k xs w).queue ≡ w.queue ++ new
  pub held : (y : String) → contains new y ≡ (not (is_seen w.distance y) && contains xs y)
  pub once : distinct new ≡ true

append-last : (xs ys : List String) (x : String) → (xs ++ x ∷ []) ++ ys ≡ xs ++ x ∷ ys
append-last [] ys x = refl
append-last (y ∷ xs) ys x = ap (λ zs. y ∷ zs) (append-last xs ys x)

append-none : (xs : List String) → xs ++ [] ≡ xs
append-none [] = refl
append-none (x ∷ xs) = ap (λ zs. x ∷ zs) (append-none xs)

pub discover-Found :
    (k : ℕ) (xs : List String) (w : Walker) → (new : List String) × Found w k xs new
unfolding discover
discover-Found k [] w =
    ([], record { queued = sym (append-none w.queue); held = λ y. ground arith; once = refl })
discover-Found k (x ∷ xs) w = elim (Bool-cases (is_seen w.distance x)) [
  | inl seen ↦
      let (new, f) = discover-Found k xs w in
      (
        new,
        record {
          queued = ground (arith, seen, f.queued);
          held = λ y. elim (Bool-cases (x == y)) [
            | inl same ↦
                let equal : x ≡ y = eq_of_== x y same in
                ground (arith, f.held y, ap (is_seen w.distance) equal)
            | inr other ↦ ground (arith, f.held y)
          ];
          once = f.once;
        },
      )
  | inr fresh ↦
      let (new, f) = discover-Found k xs (enqueue w x k) in
      (
        x ∷ new,
        record {
          queued = ground (arith, fresh, f.queued, append-last w.queue new x);
          held = λ y. elim (Bool-cases (x == y)) [
            | inl same ↦
                let equal : x ≡ y = eq_of_== x y same in
                ground (arith, f.held y, ap (is_seen w.distance) equal)
            | inr other ↦ ground (arith, f.held y, lookup-insert y x k w.distance)
          ];
          once = ground (arith, f.once, f.held x, ==_refl x, lookup-insert x x k w.distance);
        },
      )
]
