-- ===== src/Graphs/Slicing/Slices.antt =====
-- A slice is the subgraph that the selected nodes induce.
use depengine.Prelude.{
  ◌⊎◌, Result-cases, ==_refl, eq_of_==, suc, zero, String, ◌≡◌, refl, ap, ◌∙◌, ◌↔◌, inl, inr, true,
  ◌&&◌, not, List, [], ◌∷◌, arith, ◌==◌, string_eq, nat_eq, Bool-cases, contains, ok, succeeds,
}
use depengine.Graphs.{negsuc, pos, ℤ}
use depengine.Graphs.{sym, false, ℕ, Node, Table, Graph, Edge, edge_eq, node_ids}
use depengine.Graphs.Canonical.{IsKeyed}
use depengine.Graphs.Scheduling.{sources}
use depengine.Graphs.Slicing.{
  Direction, unbounded, missing_root, check_depth, check_direction, slice,
}
use depengine.Graphs.Slicing.Walks.{Walk}
use depengine.Graphs.Slicing.Selection.{Selected, kept_nodes-Selected}
use depengine.Graphs.Slicing.Induced.{induced, induced-Induced}

sources-edge :
    (es : List Edge) (e : Edge) → contains es e ≡ true → contains (sources es e.to) e.from ≡ true
unfolding sources
sources-edge [] e c = absurd (ground arith)
sources-edge (f ∷ es) e c = elim (Bool-cases (f == e)) [
  | inl same ↦
      let equal : f ≡ e = eq_of_== f e same in
      rw equal (ground (arith, ==_refl e.to, ==_refl e.from))
  | inr other ↦ ground (arith, other, sources-edge es e)
]

missing_root_iff :
    (nodes : Table String Node) (roots : List String)
    → (missing_root nodes roots ≡ false)
      ↔ ((root : String) → contains roots root ≡ true → contains (node_ids nodes) root ≡ true)
missing_root_iff nodes [] = (λ e root c. absurd (cc c), λ h. refl)
missing_root_iff nodes (r ∷ roots) =
    let rest = missing_root_iff nodes roots in
    (
      λ e root c. elim (Bool-cases (r == root)) [
        | inl same ↦
            let equal : r ≡ root = eq_of_== r root same in
            sym (ap (contains (node_ids nodes)) equal) ∙ ground arith
        | inr other ↦ rest.0 (ground arith) root (ground (arith, other))
      ],
      λ h.
          ground
            (arith, h r (ground (arith, ==_refl r)), rest.1 (λ root c. h root (ground (arith, c)))),
    )

listed_direction :
    (direction : Direction)
    → (succeeds (check_direction direction) ≡ true) ↔ (
        (direction ≡ Direction.deps)
        ⊎ ((direction ≡ Direction.dependents) ⊎ (direction ≡ Direction.both)))
unfolding check_direction
listed_direction Direction.deps = (λ e. inl refl, λ h. refl)
listed_direction Direction.dependents = (λ e. inr (inl refl), λ h. refl)
listed_direction Direction.both = (λ e. inr (inr refl), λ h. refl)
listed_direction (Direction.unlisted n) = (λ e. absurd (cc e), λ h. ground arith)

known_depth :
    (depth : ℤ)
    → (succeeds (check_depth depth) ≡ true) ↔ ((depth ≡ unbounded) ⊎ ((n : ℕ) × (depth ≡ pos n)))
unfolding check_depth
known_depth (pos n) = (λ e. inr (n, refl), λ h. refl)
known_depth (negsuc zero) = (λ e. inl refl, λ h. refl)
known_depth (negsuc (suc n)) = (λ e. absurd (cc e), λ h. ground arith)

slice-guards :
    (g : Graph) (roots : List String) (direction : Direction) (depth : ℤ)
    → succeeds (slice g roots direction depth) ≡ (
        succeeds (check_depth depth)
        && (succeeds (check_direction direction) && not (missing_root g.nodes roots)))
unfolding slice
slice-guards g roots direction depth = elim (Result-cases (check_direction direction)) [
  | inr (message, bad) ↦ ground (arith, bad)
  | inl (unit, good) ↦
      let (keep, found, iff) = kept_nodes-Selected g roots direction depth good in
      ground (arith, good, found)
]

-- Slice succeeds exactly where the depth is unbounded or not negative, the direction is one of the
-- three, and every root is a node of the graph; its fuel is enough.
pub slice_iff :
    (g : Graph) (roots : List String) (direction : Direction) (depth : ℤ)
    → (succeeds (slice g roots direction depth) ≡ true) ↔ (
        ((depth ≡ unbounded) ⊎ ((n : ℕ) × (depth ≡ pos n)))
        × ((direction ≡ Direction.deps)
            ⊎ ((direction ≡ Direction.dependents) ⊎ (direction ≡ Direction.both)))
        × ((root : String) → contains roots root ≡ true → contains (node_ids g.nodes) root ≡ true))
slice_iff g roots direction depth =
    let guards = slice-guards g roots direction depth in
    let near = known_depth depth in
    let listed = listed_direction direction in
    let there = missing_root_iff g.nodes roots in
    (
      λ e. (near.0 (ground arith), listed.0 (ground arith), there.0 (ground arith)),
      λ (d, l, r).
          let a = near.1 d in
          let b = listed.1 l in let c = there.1 r in guards ∙ ground (arith, a, b, c),
    )

slice-induced :
    (g : Graph) (roots : List String) (direction : Direction) (depth : ℤ) (out : Graph)
    → slice g roots direction depth ≡ ok out
    → (keep : List String) × ((x : String)
        → (contains keep x ≡ true) ↔ Selected g roots direction depth x)
      × (out ≡ induced g keep)
unfolding slice induced
slice-induced g roots direction depth out e = elim (Result-cases (check_direction direction)) [
  | inr (message, bad) ↦ absurd (ground (arith, bad))
  | inl (unit, good) ↦
      let (keep, found, iff) = kept_nodes-Selected g roots direction depth good in
      (keep, iff, ground (arith, good, found))
]

-- A slice has exactly the nodes of the graph that its direction selects within the depth, and
-- exactly the edges of the graph between two of them.
pub slice-Selected :
    (g : Graph) (roots : List String) (direction : Direction) (depth : ℤ) (out : Graph)
    → IsKeyed g.nodes
    → slice g roots direction depth ≡ ok out
    → ((x : String)
        → (contains (node_ids out.nodes) x ≡ true)
          ↔ ((contains (node_ids g.nodes) x ≡ true) × Selected g roots direction depth x))
      × ((e : Edge)
          → contains out.edges e ≡ (
              contains g.edges e
              && (contains (node_ids out.nodes) e.from && contains (node_ids out.nodes) e.to)))
slice-Selected g roots direction depth out k e =
    let (keep, iff, same) = slice-induced g roots direction depth out e in
    let made = induced-Induced g keep k in
    let ids : (x : String)
        → contains (node_ids out.nodes) x ≡ (contains keep x && contains (node_ids g.nodes) x) =
      λ x. ap (λ h. contains (node_ids h.nodes) x) same ∙ made.ids x in
    (
      λ x. (
        λ c. (ground (arith, ids x), (iff x).0 (ground (arith, ids x))),
        λ (there, s). let held = (iff x).1 s in ground (arith, ids x, there, held),
      ),
      λ f. rw same (made.edges f),
    )

-- An unbounded slice of the dependencies keeps every edge of the graph into a node that it keeps
-- and from a node of the graph.
pub slice-closed :
    (g : Graph) (roots : List String) (out : Graph) (e : Edge)
    → IsKeyed g.nodes
    → slice g roots Direction.deps unbounded ≡ ok out
    → contains g.edges e ≡ true
    → contains (node_ids g.nodes) e.from ≡ true
    → contains (node_ids out.nodes) e.to ≡ true
    → contains out.edges e ≡ true
slice-closed g roots out e k s c from to =
    let (nodes, edges) = slice-Selected g roots Direction.deps unbounded out k s in
    let (there, (steps, w, near)) = (nodes e.to).0 to in
    let next : Walk (sources g.edges) roots (suc steps) e.from =
      Walk.onward w (sources-edge g.edges e c) in
    let before : contains (node_ids out.nodes) e.from ≡ true =
      (nodes e.from).1 (from, (suc steps, next, refl)) in
    ground (arith, edges e, before)
