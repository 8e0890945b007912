-- ===== src/Graphs/Slicing.antt =====
-- internal/graph/slice.go: the part of a graph around some roots. `reach` is a breadth-first walk,
-- bounded by fuel, of which it gives enough. The depth is an integer, and -1 is Unbounded.
use depengine.Prelude.{
  ℕ, zero, suc, ◌+◌, ◌-◌, ◌≤◌, ◌<◌, String, ◌≡◌, refl, sym, ap, ◌∙◌, ◌≢◌, ◌↔◌, ◌⊎◌, inl, inr, Bool,
  true, false, ◌&&◌, ◌||◌, not, Option, none, some, List, [], ◌∷◌, ◌++◌, map, reverse, arith, Eq,
  ◌==◌, ◌!=◌, string_eq, nat_eq, String-discrete, ltb, leb, if◌then◌else◌, Bool-cases, Option-cases,
  length, get_elem?, take, drop, is_empty, length-append, contains, Result, ok, err, ◌>>=◌, ◌>>◌,
  fail_if, succeeds, >>=-eq-ok, Table, lookup, insert, remove, values, lookup-insert, lookup-remove,
  trim_space, contains_nul, text_lt,
}
use depengine.Graphs.{
  ℤ, pos, negsuc, sort_texts, Graph, Edge, Node, add_node, add_edge, new_graph, canonicalize,
  node_ids,
}
use depengine.Graphs.Scheduling.{sources, targets}
pub mod Discovery
pub mod Walks
pub mod Exploring
pub mod Reach
pub mod Selection
pub mod Induced
pub mod Slices
use mathlib.Core.Option

abbrev pub unbounded : ℤ
unbounded = negsuc 0

pub data Direction : Type 0 where
  deps dependents both : Direction
  -- a value above DirectionBoth
  unlisted : ℕ → Direction

-- Direction.String, where the value is listed
unfoldable pub direction_text : Direction → Option String
direction_text Direction.deps = some "deps"
direction_text Direction.dependents = some "dependents"
direction_text Direction.both = some "both"
direction_text (Direction.unlisted n) = none

unfoldable pub parse_direction : String → Result Direction
parse_direction value =
    if value == "deps"
    then ok Direction.deps
    else if value == "dependents"
    then ok Direction.dependents
    else if value == "both"
    then ok Direction.both
    else err "unknown direction"

-- distance and queue
pub record Walker : Type 0 where
  pub distance : Table String ℕ
  pub queue : List String

abbrev pub is_seen : Table String ℕ → String → Bool
is_seen distance x = elim (lookup x distance) [ none ↦ false | some k ↦ true ]

-- distance[x], where a missing key reads as 0
abbrev pub distance_at : Table String ℕ → String → ℕ
distance_at distance x = elim (lookup x distance) [ none ↦ 0 | some k ↦ k ]

abbrev pub enqueue : Walker → String → ℕ → Walker
enqueue w x k = record { distance = insert x k w.distance; queue = w.queue ++ x ∷ [] }

-- the loops over the roots, at distance 0, and over the neighbours of a node
unfoldable pub discover : ℕ → List String → Walker → Walker
discover k [] w = w
discover k (x ∷ xs) w = discover k xs (if is_seen w.distance x then w else enqueue w x k)

-- depth != Unbounded && distance >= depth
abbrev pub stops : ℤ → ℕ → Bool
stops (pos depth) k = leb depth k
stops (negsuc zero) k = false
stops (negsuc (suc n)) k = true

-- the part of an iteration after the node has left the queue
unfoldable pub advance : (String → List String) → ℤ → Walker → String → Walker
unfolding discover
advance adjacency depth w node =
    let k = distance_at w.distance node in
    if stops depth k then w else discover (suc k) (adjacency node) w

-- the loop over the queue; the nodes that it keeps
unfoldable pub walk :
    ℕ → (String → List String) → ℤ → Table String ℕ → List String → Option (List String)
unfolding advance
walk fuel adjacency depth distance [] = some []
walk zero adjacency depth distance (node ∷ queue) = none
walk (suc fuel) adjacency depth distance (node ∷ queue) =
    let next = advance adjacency depth (record { distance = distance; queue = queue }) node in
    Option.map (λ kept. node ∷ kept) (walk fuel adjacency depth next.distance next.queue)

-- reach, with fuel for as many nodes as there are roots and edges
unfoldable pub reach :
    ℕ → List String → List String → (String → List String) → ℤ → Option (List String)
unfolding walk discover
reach edges keep roots adjacency depth =
    let start : Walker = discover 0 (sort_texts roots) (record { distance = []; queue = [] }) in
    Option.map (λ kept. keep ++ kept)
      (walk (length roots + edges) adjacency depth start.distance start.queue)

-- the roots that the graph does not have
abbrev pub missing_root : Table String Node → List String → Bool
missing_root nodes [] = false
missing_root nodes (root ∷ roots) = not (contains (node_ids nodes) root) || missing_root nodes roots

-- if node, ok := g.Nodes[id]; ok { out.AddNode(node) }
abbrev pub keep_node : Graph → Option Node → Graph
keep_node out none = out
keep_node out (some node) = add_node out node

-- the loop over keep
unfoldable pub keep_nodes : Table String Node → List String → Graph → Graph
keep_nodes nodes [] out = out
keep_nodes nodes (id ∷ ids) out = keep_nodes nodes ids (keep_node out (lookup id nodes))

-- the last loop over the edges
unfoldable pub keep_edges : List Edge → Graph → Graph
unfolding add_edge
keep_edges [] out = out
keep_edges (e ∷ es) out =
    let held = contains (node_ids out.nodes) e.from && contains (node_ids out.nodes) e.to in
    keep_edges es (if held then add_edge out e else out)

unfoldable pub follows_dependencies : Direction → Bool
follows_dependencies Direction.deps = true
follows_dependencies Direction.both = true
follows_dependencies _ = false

unfoldable pub follows_dependents : Direction → Bool
follows_dependents Direction.dependents = true
follows_dependents Direction.both = true
follows_dependents _ = false

-- the nodes that Slice keeps
unfoldable pub kept_nodes : Graph → List String → Direction → ℤ → Option (List String)
unfolding reach follows_dependencies follows_dependents
kept_nodes g roots direction depth =
    let edges = length g.edges in
    Option.bind
      (if follows_dependencies direction
        then reach edges [] roots (sources g.edges) depth
        else some [])
      (λ before.
        if follows_dependents direction
        then reach edges before roots (targets g.edges) depth
        else some before)

unfoldable pub check_depth : ℤ → Result (Unit {0})
check_depth (negsuc (suc n)) = err "invalid depth"
check_depth _ = ok tt

unfoldable pub check_direction : Direction → Result (Unit {0})
check_direction (Direction.unlisted n) = err "invalid direction"
check_direction _ = ok tt

-- Slice
unfoldable pub slice : Graph → List String → Direction → ℤ → Result Graph
unfolding kept_nodes keep_nodes keep_edges check_depth check_direction
slice g roots direction depth = do
  check_depth depth
  check_direction direction
  fail_if (missing_root g.nodes roots) "unknown tool"
  elim (kept_nodes g roots direction depth) [
    | none ↦ err "out of fuel"
    | some keep ↦ ok (canonicalize (keep_edges g.edges (keep_nodes g.nodes keep new_graph)))
  ]
