-- ===== src/Graphs/Slicing/Walks.antt =====
-- The walks from the roots, and the order of the queue of a breadth-first walk.
use depengine.Prelude.{
  distinct, contains-append, ==_refl, eq_of_==, ℕ, zero, suc, ◌≤◌, String, ◌≡◌, refl, ap, inl, inr,
  Bool, true, false, not, List, [], ◌∷◌, ◌++◌, arith, ◌==◌, string_eq, nat_eq, leb, Bool-cases,
  contains, Table,
}
use depengine.Graphs.{ℤ, pos, negsuc}
use depengine.Graphs.Slicing.{is_seen, distance_at, stops}

-- whether the depth admits this distance
abbrev pub within : ℤ → ℕ → Bool
within (pos depth) k = leb k depth
within (negsuc zero) k = true
within (negsuc (suc n)) k = k == 0

pub within-zero : (depth : ℤ) → within depth 0 ≡ true
within-zero (pos depth) = ground arith
within-zero (negsuc zero) = refl
within-zero (negsuc (suc n)) = ground arith

-- A node stops the walk where the depth does not admit the distance after it.
pub stops-within :
    (depth : ℤ) (k : ℕ) → within depth k ≡ true → stops depth k ≡ not (within depth (suc k))
stops-within (pos depth) k h = ground arith
stops-within (negsuc zero) k h = refl
stops-within (negsuc (suc n)) k h = ground arith

pub within-le : (depth : ℤ) (j k : ℕ) → j ≤ k → within depth k ≡ true → within depth j ≡ true
within-le (pos depth) j k l h = ground (arith, l)
within-le (negsuc zero) j k l h = refl
within-le (negsuc (suc n)) j k l h = ground (arith, l)

-- a walk of this many steps from a root
pub data Walk (adjacency : String → List String) (roots : List String) : ℕ → String → Type 0 where
  start : {x : String} → contains roots x ≡ true → Walk adjacency roots 0 x
  onward :
      {k : ℕ} {u x : String}
      → Walk adjacency roots k u
      → contains (adjacency u) x ≡ true
      → Walk adjacency roots (suc k) x

-- the distances along the queue do not fall
unfoldable pub Rising : Table String ℕ → List String → Type 0
Rising distance [] = Unit
Rising distance (u ∷ queue) =
    ((y : String) → contains queue y ≡ true → distance_at distance u ≤ distance_at distance y)
    × Rising distance queue

-- no node is more than a step further than the head of the queue
unfoldable pub Near : Table String ℕ → List String → Type 0
Near distance [] = Unit
Near distance (u ∷ queue) =
    (x : String) → is_seen distance x ≡ true → distance_at distance x ≤ suc (distance_at distance u)

pub Rising-append :
    (d d' : Table String ℕ) (queue new : List String) (m : ℕ)
    → Rising d queue
    → ((y : String) → contains queue y ≡ true → distance_at d' y ≡ distance_at d y)
    → ((y : String) → contains queue y ≡ true → distance_at d y ≤ m)
    → ((y : String) → contains new y ≡ true → distance_at d' y ≡ m)
    → Rising d' (queue ++ new)
unfolding Rising
Rising-append d d' [] [] m r same le new_at = tt
Rising-append d d' [] (x ∷ new) m r same le new_at = (
  λ y c. omega (arith, new_at y (ground (arith, c)), new_at x (ground (arith, ==_refl x))),
  Rising-append d d' [] new m tt same le (λ y c. new_at y (ground (arith, c))),
)
Rising-append d d' (u ∷ queue) new m r same le new_at =
    let here = same u (ground (arith, ==_refl u)) in
    (
      λ y c. elim (Bool-cases (contains queue y)) [
        | inl old ↦ omega (arith, here, same y (ground (arith, old)), r.0 y old)
        | inr fresh ↦
            let at_new = new_at y (ground (arith, contains-append queue new y)) in
            omega (arith, here, at_new, le u (ground (arith, ==_refl u)))
      ],
      Rising-append d d' queue new m r.1 (λ y c. same y (ground (arith, c)))
          (λ y c. le y (ground (arith, c))) new_at,
    )

pub Near-intro :
    (d : Table String ℕ) (queue : List String) (m : ℕ)
    → ((y : String) → is_seen d y ≡ true → distance_at d y ≤ m)
    → ((z : String) → contains queue z ≡ true → m ≤ suc (distance_at d z))
    → Near d queue
unfolding Near
Near-intro d [] m below above = tt
Near-intro d (u ∷ queue) m below above =
    λ y c. omega (arith, below y c, above u (ground (arith, ==_refl u)))

pub Near-tail :
    (d : Table String ℕ) (node : String) (queue : List String)
    → Rising d (node ∷ queue)
    → Near d (node ∷ queue)
    → Near d queue
unfolding Rising Near
Near-tail d node queue r near =
    Near-intro d queue (suc (distance_at d node)) near (λ z c. omega (arith, r.0 z c))

==_sym : (a b : String) → (a == b) ≡ (b == a)
==_sym a b = ground arith

pub distinct-middle :
    (kept queue : List String) (node : String)
    → distinct (kept ++ node ∷ queue) ≡ true
    → distinct (node ∷ kept ++ queue) ≡ true
distinct-middle [] queue node d = d
distinct-middle (x ∷ kept) queue node d = elim (Bool-cases (node == x)) [
  | inl same ↦
      let equal : node ≡ x = eq_of_== node x same in
      absurd
        (ground (arith, contains-append kept (node ∷ queue) x, ==_refl x, ap (λ y. y == x) equal))
  | inr other ↦
      let ne : (x == node) ≡ false = ground (arith, other, ==_sym x node) in
      ground (
        arith,
        distinct-middle kept queue node,
        contains-append kept (node ∷ queue) x,
        contains-append kept queue x,
        ne,
      )
]
