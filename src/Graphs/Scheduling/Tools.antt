-- ===== src/Graphs/Scheduling/Tools.antt =====
-- internal/graph/sort.go: Sort, which orders tools that know their dependencies. A tool is the list
-- of its dependencies, GraphDependencies().
use depengine.Prelude.{
  ℕ, ◌<◌, String, ◌≡◌, refl, sym, ap, Bool, true, false, ◌&&◌, ◌||◌, none, List, [], ◌∷◌, ◌++◌,
  arith, ◌==◌, string_eq, nat_eq, is_empty, contains, Table,
}
use depengine.Graphs.{
  pos, EdgeState, Node, EdgeRole, new_graph, add_node, add_edge, EdgeKind, scheduled, Graph, Edge,
  edge_eq, node_ids,
}
use depengine.Graphs.Canonical.{contains-insert, add_node-IsKeyed, IsKeyed, contains-scheduled}
use depengine.Graphs.Scheduling.{SortOutcome, sorted, sort_graph, dependencies}
use depengine.Graphs.Scheduling.Paths.{edge-link, link, link-edge}
use depengine.Graphs.Scheduling.Rounds.{earlier}
use depengine.Graphs.Scheduling.Complete.{sort_graph-sorted}
use depengine.Graphs.Scheduling.Order.{sort_graph-orders}

abbrev dependency_edge : String → String → Edge
dependency_edge name dependency = record {
  from = dependency;
  to = name;
  kind = EdgeKind.tool_require;
  role = EdgeRole.scheduling;
  state = EdgeState.declared_edge;
  guard = none;
  method = "";
  candidate = pos 0;
  candidate_known = false;
}

-- the loop over the dependencies of a tool
unfoldable pub add_dependencies : Graph → String → List String → Graph
unfolding add_edge
add_dependencies g name [] = g
add_dependencies g name (dependency ∷ rest) =
    add_dependencies (add_edge g (dependency_edge name dependency)) name rest

-- the loop over the tools
unfoldable pub add_tools : Graph → Table String (List String) → Graph
unfolding add_dependencies add_node
add_tools g [] = g
add_tools g ((name, dependencies) ∷ tools) =
    let node : Node = record { id = name; tags = []; dependency_only = false } in
    add_tools (add_dependencies (add_node g node) name dependencies) tools

-- Sort
unfoldable pub sort_tools : Table String (List String) → SortOutcome
unfolding sort_graph add_tools
sort_tools tools = sort_graph (add_tools new_graph tools)

-- whether a tool of the table has this dependency
abbrev pub depends_on : Table String (List String) → String → String → Bool
depends_on [] name dependency = false
depends_on ((tool, dependencies) ∷ tools) name dependency =
    tool == name && contains dependencies dependency || depends_on tools name dependency

abbrev pub tool_names : Table String (List String) → List String
tool_names [] = []
tool_names ((tool, dependencies) ∷ tools) = tool ∷ tool_names tools

add_dependencies-nodes :
    (g : Graph) (name : String) (ds : List String) → (add_dependencies g name ds).nodes ≡ g.nodes
unfolding add_dependencies add_edge
add_dependencies-nodes g name [] = refl
add_dependencies-nodes g name (d ∷ ds) =
    add_dependencies-nodes (add_edge g (dependency_edge name d)) name ds

link-last :
    (es : List Edge) (name d a b : String)
    → link (scheduled (es ++ dependency_edge name d ∷ [])) a b
      ≡ (link (scheduled es) a b || name == a && d == b)
unfolding scheduled
link-last [] name d a b = ground arith
link-last (e ∷ es) name d a b = ground (arith, link-last es name d a b)

add_dependencies-link :
    (g : Graph) (name : String) (ds : List String) (a b : String)
    → link (scheduled (add_dependencies g name ds).edges) a b
      ≡ (link (scheduled g.edges) a b || name == a && contains ds b)
unfolding add_dependencies add_edge
add_dependencies-link g name [] a b = ground arith
add_dependencies-link g name (d ∷ ds) a b = ground (
  arith,
  add_dependencies-link (add_edge g (dependency_edge name d)) name ds a b,
  link-last g.edges name d a b,
)

add_tools-link :
    (g : Graph) (tools : Table String (List String)) (a b : String)
    → link (scheduled (add_tools g tools).edges) a b
      ≡ (link (scheduled g.edges) a b || depends_on tools a b)
unfolding add_tools add_node
add_tools-link g [] a b = ground arith
add_tools-link g ((name, ds) ∷ tools) a b =
    let node : Node = record { id = name; tags = []; dependency_only = false } in
    ground (
      arith,
      add_tools-link (add_dependencies (add_node g node) name ds) tools a b,
      add_dependencies-link (add_node g node) name ds a b,
    )

add_tools-ids :
    (g : Graph) (tools : Table String (List String)) (x : String)
    → contains (node_ids (add_tools g tools).nodes) x
      ≡ (contains (node_ids g.nodes) x || contains (tool_names tools) x)
unfolding add_tools add_node
add_tools-ids g [] x = ground arith
add_tools-ids g ((name, ds) ∷ tools) x =
    let node : Node = record { id = name; tags = []; dependency_only = false } in
    ground (
      arith,
      add_tools-ids (add_dependencies (add_node g node) name ds) tools x,
      ap (λ nodes. contains (node_ids nodes) x) (add_dependencies-nodes (add_node g node) name ds),
      contains-insert x name node g.nodes,
    )

add_tools-IsKeyed :
    (g : Graph) (tools : Table String (List String))
    → IsKeyed g.nodes
    → IsKeyed (add_tools g tools).nodes
unfolding add_tools
add_tools-IsKeyed g [] k = k
add_tools-IsKeyed g ((name, ds) ∷ tools) k =
    let node : Node = record { id = name; tags = []; dependency_only = false } in
    add_tools-IsKeyed (add_dependencies (add_node g node) name ds) tools
      (rw (add_dependencies-nodes (add_node g node) name ds) (add_node-IsKeyed g node k))

-- the graph of the tools
abbrev tool_graph : Table String (List String) → Graph
tool_graph tools = add_tools new_graph tools

tool_graph-edge :
    (tools : Table String (List String)) (a b : String)
    → depends_on tools a b ≡ true
    → (e : Edge) × (contains (scheduled (tool_graph tools).edges) e ≡ true)
      × (e.to ≡ a)
      × (e.from ≡ b)
unfolding scheduled
tool_graph-edge tools a b h =
    link-edge (scheduled (tool_graph tools).edges) a b
      (ground (arith, add_tools-link new_graph tools a b))

depends_on-tool_names :
    (tools : Table String (List String)) (a b : String)
    → depends_on tools a b ≡ true
    → contains (tool_names tools) a ≡ true
depends_on-tool_names [] a b h = h
depends_on-tool_names ((tool, ds) ∷ tools) a b h = ground (arith, depends_on-tool_names tools a b)

not_empty :
    (m : Table String Node) (x : String) → contains (node_ids m) x ≡ true → is_empty m ≡ false
unfolding node_ids
not_empty [] x c = sym c
not_empty (n ∷ m) x c = refl

-- Sort places each dependency of a tool in a level before the tool's.
pub sort_tools-orders :
    (tools : Table String (List String)) (ls : List (List String)) (name dependency : String)
    → sort_tools tools ≡ sorted ls
    → depends_on tools name dependency ≡ true
    → earlier ls dependency name ≡ true
unfolding sort_tools node_ids
sort_tools-orders tools ls name dependency s h =
    let (e, c, stop, start) = tool_graph-edge tools name dependency h in
    let there : contains (node_ids (tool_graph tools).nodes) name ≡ true =
      ground (
        arith,
        add_tools-ids new_graph tools name,
        depends_on-tool_names tools name dependency h,
      ) in
    let in_graph = contains-scheduled e (tool_graph tools).edges in
    let order =
      sort_graph-orders (tool_graph tools) ls e (add_tools-IsKeyed new_graph tools tt) s
        (not_empty (tool_graph tools).nodes name there) (ground (arith, in_graph, c))
        (ground (arith, in_graph, c)) in
    rw (sym stop, sym start) order

-- Sort returns levels for tools with names whose dependencies are tools of a lower rank.
pub sort_tools-sorted :
    (tools : Table String (List String)) (rank : String → ℕ)
    → contains (tool_names tools) "" ≡ false
    → ((name dependency : String)
        → depends_on tools name dependency ≡ true
        → (contains (tool_names tools) dependency ≡ true) × (rank dependency < rank name))
    → (ls : List (List String)) × (sort_tools tools ≡ sorted ls)
unfolding sort_tools node_ids scheduled
sort_tools-sorted tools rank n h =
    let ids = add_tools-ids new_graph tools in
    sort_graph-sorted (tool_graph tools) rank (add_tools-IsKeyed new_graph tools tt)
      (ground (arith, ids ""))
      (λ e c.
        let on : depends_on tools e.to e.from ≡ true = ground (
          arith,
          add_tools-link new_graph tools e.to e.from,
          edge-link (scheduled (tool_graph tools).edges) e c,
        ) in
        let (there, up) = h e.to e.from on in
        (
          ground (arith, ids e.from, there),
          ground (arith, ids e.to, depends_on-tool_names tools e.to e.from on),
          up,
        ))
