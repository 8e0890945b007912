-- ===== src/Graphs/Slicing/Selection.antt =====
-- The nodes that a slice selects, and that Slice finds them.
use depengine.Prelude.{
  contains-append, suc, String, ◌≡◌, refl, ap, ◌↔◌, ◌⊎◌, inl, inr, true, false, some, List, [], ◌∷◌,
  ◌++◌, arith, string_eq, nat_eq, length, length-append, contains, ok,
}
use mathlib.Core.Option
use depengine.Graphs.{ℤ}
use depengine.Graphs.Slicing.{reach}
use depengine.Graphs.{Graph, Edge, edge_eq}
use depengine.Graphs.Scheduling.{sources, targets}
use depengine.Graphs.Slicing.{
  Direction, follows_dependencies, follows_dependents, kept_nodes, check_direction,
}
use depengine.Graphs.Slicing.Reach.{Within, reach-Within}

-- the nodes that a slice in this direction selects
abbrev pub Selected : Graph → List String → Direction → ℤ → String → Type 0
Selected g roots Direction.deps depth x = Within (sources g.edges) roots depth x
Selected g roots Direction.dependents depth x = Within (targets g.edges) roots depth x
Selected g roots Direction.both depth x =
    Within (sources g.edges) roots depth x ⊎ Within (targets g.edges) roots depth x
Selected g roots (Direction.unlisted n) depth x = true ≡ false

abbrev ends : List Edge → List String
ends [] = []
ends (e ∷ es) = e.from ∷ ends es

abbrev heads : List Edge → List String
heads [] = []
heads (e ∷ es) = e.to ∷ heads es

length-ends : (es : List Edge) → length (ends es) ≡ length es
length-ends [] = refl
length-ends (e ∷ es) = ap suc (length-ends es)

length-heads : (es : List Edge) → length (heads es) ≡ length es
length-heads [] = refl
length-heads (e ∷ es) = ap suc (length-heads es)

sources-ends :
    (es : List Edge) (u x : String) → contains (sources es u) x ≡ true → contains (ends es) x ≡ true
unfolding sources
sources-ends [] u x c = c
sources-ends (e ∷ es) u x c = ground (arith, sources-ends es u x)

targets-heads :
    (es : List Edge) (u x : String)
    → contains (targets es u) x ≡ true
    → contains (heads es) x ≡ true
unfolding targets
targets-heads [] u x c = c
targets-heads (e ∷ es) u x c = ground (arith, targets-heads es u x)

module _ (es : List Edge) (keep roots : List String) (depth : ℤ) where
  reach-sources :
      (out : List String) × (reach (length es) keep roots (sources es) depth ≡ some out)
      × ((x : String)
          → (contains out x ≡ true)
            ↔ ((contains keep x ≡ true) ⊎ Within (sources es) roots depth x))
  reach-sources =
      reach-Within (length es) keep roots (roots ++ ends es) (sources es) depth
        (λ x c. ground (arith, contains-append roots (ends es) x))
        (λ u x c. ground (arith, contains-append roots (ends es) x, sources-ends es u x))
        (omega (arith, length-append roots (ends es), length-ends es))

  reach-targets :
      (out : List String) × (reach (length es) keep roots (targets es) depth ≡ some out)
      × ((x : String)
          → (contains out x ≡ true)
            ↔ ((contains keep x ≡ true) ⊎ Within (targets es) roots depth x))
  reach-targets =
      reach-Within (length es) keep roots (roots ++ heads es) (targets es) depth
        (λ x c. ground (arith, contains-append roots (heads es) x))
        (λ u x c. ground (arith, contains-append roots (heads es) x, targets-heads es u x))
        (omega (arith, length-append roots (heads es), length-heads es))

first_of : {P : Type 0} → ((false ≡ true) ⊎ P) → P
first_of (inl c) = absurd (cc c)
first_of (inr p) = p

-- The fuel is enough, and the kept nodes are the selected ones.
pub kept_nodes-Selected :
    (g : Graph) (roots : List String) (direction : Direction) (depth : ℤ)
    → check_direction direction ≡ ok tt
    → (out : List String) × (kept_nodes g roots direction depth ≡ some out)
      × ((x : String) → (contains out x ≡ true) ↔ Selected g roots direction depth x)
unfolding kept_nodes check_direction follows_dependencies follows_dependents Option.bind
kept_nodes-Selected g roots Direction.deps depth h =
    let (out, e, iff) = reach-sources g.edges [] roots depth in
    (out, ground (arith, e), λ x. (λ c. first_of ((iff x).0 c), λ w. (iff x).1 (inr w)))
kept_nodes-Selected g roots Direction.dependents depth h =
    let (out, e, iff) = reach-targets g.edges [] roots depth in
    (out, e, λ x. (λ c. first_of ((iff x).0 c), λ w. (iff x).1 (inr w)))
kept_nodes-Selected g roots Direction.both depth h =
    let (before, e, iff) = reach-sources g.edges [] roots depth in
    let (out, e', iff') = reach-targets g.edges before roots depth in
    (
      out,
      rw e e',
      λ x. (
        λ c. elim ((iff' x).0 c) [ inl held ↦ inl (first_of ((iff x).0 held)) | inr w ↦ inr w ],
        λ c. elim c [ inl w ↦ (iff' x).1 (inl ((iff x).1 (inr w))) | inr w ↦ (iff' x).1 (inr w) ],
      ),
    )
kept_nodes-Selected g roots (Direction.unlisted n) depth h = absurd (cc h)
