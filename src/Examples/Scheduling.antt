-- ===== src/Examples/Scheduling.antt =====
-- The order of installation, cycles and slices of small graphs.
use depengine.Prelude.{
  is_empty, ◌⊎◌, ◌+◌, text_lt, values, ℕ, String, ◌≡◌, ◌≢◌, refl, sym, ◌↔◌, true, false, ◌&&◌, none,
  List, [], ◌∷◌, ◌==◌, string_eq, nat_eq, String-discrete, if◌then◌else◌, contains, concat,
  distinct, ok, Table, succeeds, ◌<◌, lookup, insert, sort_texts, eq_of_==, arith,
}
use native.Mathlib.Decide.{ℕ_discrete}
use depengine.Graphs.{
  scheduling_projection, EdgeKind, EdgeRole, EdgeState, Edge, Node, Graph, edge_eq, Edge-discrete,
  node_ids, scheduled, canonicalize, add_node,
}
use depengine.Graphs.Scheduling.{
  levels, sort_scheduled, remove_names, ready, InDegree, in_degree, release, check_ends, sorted,
  cyclic, out_of_fuel, sort_graph, sources,
}
use depengine.Graphs.Canonical.{IsKeyed}
use depengine.Graphs.Scheduling.Rounds.{earlier}
use depengine.Graphs.Scheduling.Exact.{Round, after, release_exact}
use depengine.Graphs.Scheduling.Counting.{edges_between}
use depengine.Graphs.Scheduling.Paths.{is_cycle}
use depengine.Graphs.Scheduling.Order.{sort_graph_ends, sort_graph-places, sort_graph-orders}
use depengine.Graphs.Scheduling.Cycles.{sort_graph-is_cycle}
use depengine.Graphs.Scheduling.Tools.{
  sort_tools, depends_on, tool_names, sort_tools-orders, sort_tools-sorted,
}
use depengine.Graphs.{pos}
use depengine.Graphs.Slicing.{unbounded, Direction, slice}
use depengine.Graphs.Slicing.Selection.{Selected}
use depengine.Graphs.Slicing.Slices.{slice_iff, slice-Selected, slice-closed}

-- go needs git
abbrev go_tools : Table String (List String)
go_tools = ("go", "git" ∷ []) ∷ ("git", []) ∷ []

abbrev install_order : List (List String)
install_order = ("git" ∷ []) ∷ ("go" ∷ []) ∷ []

abbrev requires : String → String → Edge
requires tool dependency = record {
  from = dependency;
  to = tool;
  kind = EdgeKind.tool_require;
  role = EdgeRole.scheduling;
  state = EdgeState.declared_edge;
  guard = none;
  method = "";
  candidate = pos 0;
  candidate_known = false;
}

abbrev tool_node : String → Node
tool_node name = record { id = name; tags = []; dependency_only = false }

abbrev go_graph : Graph
go_graph = record {
  nodes = ("go", tool_node "go") ∷ ("git", tool_node "git") ∷ [];
  edges = requires "go" "git" ∷ [];
}

-- two tools that need each other
abbrev circular_graph : Graph
circular_graph = record {
  nodes = ("go", tool_node "go") ∷ ("git", tool_node "git") ∷ [];
  edges = requires "go" "git" ∷ requires "git" "go" ∷ [];
}

go_graph-sorted : sort_graph go_graph ≡ sorted install_order
unfolding sort_graph sort_texts values add_node insert String-discrete text_lt lookup ℕ_discrete
go_graph-sorted = refl

circular_graph-cyclic : sort_graph circular_graph ≡ cyclic ("git" ∷ "go" ∷ [])
unfolding sort_graph String-discrete text_lt sort_texts values add_node insert lookup ℕ_discrete
circular_graph-cyclic = refl

go_tools-sorted : sort_tools go_tools ≡ sorted install_order
unfolding sort_tools insert String-discrete sort_texts values text_lt lookup ℕ_discrete
go_tools-sorted = refl

go_tools-depends_on : depends_on go_tools "go" "git" ≡ true
unfolding String-discrete
go_tools-depends_on = refl

abbrev go_slice : Graph
go_slice = record {
  nodes = ("git", tool_node "git") ∷ ("go", tool_node "go") ∷ [];
  edges = requires "go" "git" ∷ [];
}

go_graph-slice : slice go_graph ("go" ∷ []) Direction.deps unbounded ≡ ok go_slice
unfolding slice node_ids String-discrete mathlib.Core.Option.bind sort_texts lookup sources insert
    canonicalize add_node text_lt
go_graph-slice = refl

sort_graph_ends_example : sort_graph circular_graph ≢ out_of_fuel
sort_graph_ends_example = sort_graph_ends circular_graph

go_graph-IsKeyed : IsKeyed go_graph.nodes
go_graph-IsKeyed = (refl, (refl, tt))

sort_graph-places_example :
    (contains (concat install_order) "go" ≡ contains (node_ids go_graph.nodes) "go")
    × (distinct (concat install_order) ≡ true)
sort_graph-places_example =
    sort_graph-places go_graph install_order "go" go_graph-IsKeyed go_graph-sorted

go_graph-edge : contains go_graph.edges (requires "go" "git") ≡ true
unfolding Edge-discrete String-discrete ℕ_discrete
go_graph-edge = refl

sort_graph-orders_example : earlier install_order "git" "go" ≡ true
sort_graph-orders_example =
    sort_graph-orders go_graph install_order (requires "go" "git") go_graph-IsKeyed go_graph-sorted
      refl go_graph-edge refl

circular_graph-named : contains (node_ids circular_graph.nodes) "" ≡ false
unfolding node_ids String-discrete
circular_graph-named = refl

sort_graph-is_cycle_example : is_cycle (scheduled circular_graph.edges) ("git" ∷ "go" ∷ []) ≡ true
sort_graph-is_cycle_example =
    sort_graph-is_cycle circular_graph ("git" ∷ "go" ∷ []) (refl, (refl, tt)) circular_graph-named
      circular_graph-cyclic

sort_tools-orders_example : earlier install_order "git" "go" ≡ true
sort_tools-orders_example =
    sort_tools-orders go_tools install_order "go" "git" go_tools-sorted go_tools-depends_on

-- git before go
abbrev go_rank : String → ℕ
go_rank name = if name == "go" then 1 else 0

go_tools-named : contains (tool_names go_tools) "" ≡ false
unfolding String-discrete
go_tools-named = refl

go_tools-ranked :
    (name dependency : String)
    → depends_on go_tools name dependency ≡ true
    → (contains (tool_names go_tools) dependency ≡ true) × (go_rank dependency < go_rank name)
unfolding String-discrete
go_tools-ranked name dependency h =
    let is_go : "go" ≡ name = eq_of_== "go" name (ground arith) in
    let is_git : "git" ≡ dependency = eq_of_== "git" dependency (ground arith) in
    rw (sym is_go, sym is_git) (refl, omega arith)

sort_tools-sorted_example : (ls : List (List String)) × (sort_tools go_tools ≡ sorted ls)
sort_tools-sorted_example = sort_tools-sorted go_tools go_rank go_tools-named go_tools-ranked

slice_iff_example : (succeeds (slice go_graph ("go" ∷ []) Direction.both (pos 1)) ≡ true) ↔ (
    ((pos 1 ≡ unbounded) ⊎ ((n : ℕ) × (pos 1 ≡ pos n)))
    × ((Direction.both ≡ Direction.deps)
        ⊎ ((Direction.both ≡ Direction.dependents) ⊎ (Direction.both ≡ Direction.both)))
    × ((root : String)
        → contains ("go" ∷ []) root ≡ true
        → contains (node_ids go_graph.nodes) root ≡ true))
slice_iff_example = slice_iff go_graph ("go" ∷ []) Direction.both (pos 1)

slice-Selected_example :
    ((x : String)
      → (contains (node_ids go_slice.nodes) x ≡ true) ↔ (
          (contains (node_ids go_graph.nodes) x ≡ true)
          × Selected go_graph ("go" ∷ []) Direction.deps unbounded x))
    × ((e : Edge)
        → contains go_slice.edges e ≡ (
            contains go_graph.edges e
            && (contains (node_ids go_slice.nodes) e.from
                && contains (node_ids go_slice.nodes) e.to)))
slice-Selected_example =
    slice-Selected go_graph ("go" ∷ []) Direction.deps unbounded go_slice go_graph-IsKeyed
      go_graph-slice

git_in_graph : contains (node_ids go_graph.nodes) "git" ≡ true
unfolding node_ids String-discrete
git_in_graph = refl

go_in_slice : contains (node_ids go_slice.nodes) "go" ≡ true
unfolding node_ids String-discrete
go_in_slice = refl

slice-closed_example : contains go_slice.edges (requires "go" "git") ≡ true
slice-closed_example =
    slice-closed go_graph ("go" ∷ []) go_slice (requires "go" "git") go_graph-IsKeyed go_graph-slice
      go_graph-edge git_in_graph go_in_slice

abbrev go_scheduled : Graph
go_scheduled = scheduling_projection go_graph

go_ends : check_ends (node_ids go_scheduled.nodes) go_scheduled.edges ≡ ok tt
unfolding check_ends scheduling_projection String-discrete sort_texts values add_node insert text_lt
    lookup
go_ends = refl

abbrev go_ids : List String
go_ids = node_ids go_scheduled.nodes

abbrev go_degrees : InDegree
go_degrees = in_degree go_scheduled.edges

abbrev first_level : List String
first_level = sort_texts (ready go_ids go_degrees)

abbrev later_ids : List String
later_ids = remove_names first_level go_ids

abbrev later_degrees : InDegree
later_degrees = release go_scheduled.edges first_level go_degrees

go_started : Round go_ids go_scheduled.edges 2 [] go_ids go_degrees
unfolding scheduling_projection sort_texts values add_node insert String-discrete text_lt lookup
go_started = Round.start

first_level-nonempty : is_empty first_level ≡ false
unfolding ready scheduling_projection sort_texts values add_node insert String-discrete text_lt
    lookup ℕ_discrete in_degree
first_level-nonempty = refl

-- the second round of the small graph
release_exact_example :
    (release go_scheduled.edges (sort_texts (ready later_ids later_degrees)) later_degrees "go"
        + edges_between go_scheduled.edges (sort_texts (ready later_ids later_degrees)) "go"
      ≡ later_degrees "go")
    × (sort_scheduled go_ids go_scheduled.edges
        ≡ after (first_level ∷ []) (levels 1 go_scheduled.edges later_ids later_degrees))
release_exact_example =
    release_exact go_graph 1 (first_level ∷ []) later_ids later_degrees "go" go_ends
      (Round.onward go_started first_level-nonempty)
