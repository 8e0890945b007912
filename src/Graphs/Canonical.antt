-- ===== src/Graphs/Canonical.antt =====
-- The canonical form of a graph and its scheduling projection keep the ids and the edges.
use depengine.Prelude.{
  distinct, contains-sort_texts, eq_of_==, String, ◌≡◌, refl, sym, ◌∙◌, inl, inr, true, ◌&&◌, ◌||◌,
  List, [], ◌∷◌, arith, ◌==◌, string_eq, nat_eq, if◌then◌else◌, Bool-cases, contains, Table, lookup,
  insert, values,
}
use depengine.Graphs.{
  sort_texts, Graph, Node, Edge, edge_eq, new_graph, add_node, add_nodes, is_scheduled, insert_edge,
  sort_edges, node_ids, nodes_at, or_zero, canonicalize, scheduled, scheduling_projection,
}

contains-insert_edge :
    (e f : Edge) (es : List Edge)
    → contains (insert_edge f es) e ≡ (if f == e then true else contains es e)
unfolding insert_edge
contains-insert_edge e f [] = refl
contains-insert_edge e f (x ∷ es) = ground (arith, contains-insert_edge e f es)

pub contains-sort_edges : (e : Edge) (es : List Edge) → contains (sort_edges es) e ≡ contains es e
unfolding sort_edges
contains-sort_edges e [] = refl
contains-sort_edges e (x ∷ es) =
    ground (arith, contains-insert_edge e x (sort_edges es), contains-sort_edges e es)

pub contains-scheduled :
    (e : Edge) (es : List Edge) → contains (scheduled es) e ≡ (contains es e && is_scheduled e)
unfolding scheduled
contains-scheduled e [] = refl
contains-scheduled e (x ∷ es) = elim (Bool-cases (x == e)) [
  | inl same ↦
      let equal : x ≡ e = eq_of_== x e same in rw equal (ground (arith, contains-scheduled e es))
  | inr other ↦ ground (arith, contains-scheduled e es)
]

-- each node is stored under its own id
abbrev pub IsKeyed : Table String Node → Type 0
IsKeyed [] = Unit
IsKeyed ((id, node) ∷ nodes) = (node.id ≡ id) × IsKeyed nodes

abbrev ids_of : List Node → List String
ids_of [] = []
ids_of (node ∷ nodes) = node.id ∷ ids_of nodes

pub contains-insert :
    (x id : String) (node : Node) (m : Table String Node)
    → contains (node_ids (insert id node m)) x ≡ (if id == x then true else contains (node_ids m) x)
unfolding insert node_ids
contains-insert x id node [] = refl
contains-insert x id node ((k, n) ∷ m) = ground (arith, contains-insert x id node m)

distinct-insert :
    (id : String) (node : Node) (m : Table String Node)
    → distinct (node_ids m) ≡ true
    → distinct (node_ids (insert id node m)) ≡ true
unfolding insert node_ids
distinct-insert id node [] d = refl
distinct-insert id node ((k, n) ∷ m) d =
    ground (arith, distinct-insert id node m, contains-insert k id node m)

insert-IsKeyed : (node : Node) (m : Table String Node) → IsKeyed m → IsKeyed (insert node.id node m)
unfolding insert
insert-IsKeyed node [] h = (refl, tt)
insert-IsKeyed node ((k, n) ∷ m) h = ground (arith, insert-IsKeyed node m)

-- AddNode keeps every node under its own id.
pub add_node-IsKeyed : (g : Graph) (node : Node) → IsKeyed g.nodes → IsKeyed (add_node g node).nodes
unfolding add_node
add_node-IsKeyed g node h = insert-IsKeyed node g.nodes h

contains-add_nodes :
    (x : String) (g : Graph) (ns : List Node)
    → contains (node_ids (add_nodes g ns).nodes) x
      ≡ (contains (ids_of ns) x || contains (node_ids g.nodes) x)
unfolding add_node
contains-add_nodes x g [] = refl
contains-add_nodes x g (n ∷ ns) =
    ground (arith, contains-add_nodes x (add_node g n) ns, contains-insert x n.id n g.nodes)

add_nodes-graph :
    (g : Graph) (ns : List Node)
    → distinct (node_ids g.nodes) ≡ true
    → IsKeyed g.nodes
    → (distinct (node_ids (add_nodes g ns).nodes) ≡ true) × IsKeyed (add_nodes g ns).nodes
unfolding add_node
add_nodes-graph g [] d k = (d, k)
add_nodes-graph g (n ∷ ns) d k =
    add_nodes-graph (add_node g n) ns (distinct-insert n.id n g.nodes d)
      (insert-IsKeyed n g.nodes k)

lookup-IsKeyed :
    (x : String) (m : Table String Node)
    → IsKeyed m
    → contains (node_ids m) x ≡ true
    → (or_zero (lookup x m)).id ≡ x
unfolding node_ids lookup
lookup-IsKeyed x [] h c = cc c
lookup-IsKeyed x ((k, n) ∷ m) h c = ground (arith, lookup-IsKeyed x m)

ids-nodes_at :
    (x : String) (m : Table String Node) (ids : List String)
    → IsKeyed m
    → ((y : String) → contains ids y ≡ true → contains (node_ids m) y ≡ true)
    → contains (ids_of (nodes_at m ids)) x ≡ contains ids x
unfolding nodes_at
ids-nodes_at x m [] k h = refl
ids-nodes_at x m (id ∷ ids) k h =
    let here : contains (node_ids m) id ≡ true = h id (ground arith) in
    let named = lookup-IsKeyed id m k here in
    rw named (ground (arith, ids-nodes_at x m ids k (λ y c. h y (ground (arith, c)))))

ids-values :
    (x : String) (m : Table String Node)
    → IsKeyed m
    → contains (ids_of (values m)) x ≡ contains (node_ids m) x
unfolding values node_ids
ids-values x [] k = refl
ids-values x ((id, n) ∷ m) k = ground (arith, ids-values x m)

-- what a canonical graph keeps
pub record Same (g h : Graph) : Type 0 where
  pub ids : (x : String) → contains (node_ids h.nodes) x ≡ contains (node_ids g.nodes) x
  pub once : distinct (node_ids h.nodes) ≡ true
  pub keyed : IsKeyed h.nodes

pub canonicalize-Same : (g : Graph) → IsKeyed g.nodes → Same g (canonicalize g)
unfolding canonicalize
canonicalize-Same g k =
    let ids = sort_texts (node_ids g.nodes) in
    let made = add_nodes-graph new_graph (nodes_at g.nodes ids) refl tt in
    record {
      ids = λ x. ground (
        arith,
        contains-add_nodes x new_graph (nodes_at g.nodes ids),
        ids-nodes_at x g.nodes ids k (λ y c. sym (contains-sort_texts y (node_ids g.nodes)) ∙ c),
        contains-sort_texts x (node_ids g.nodes),
      );
      once = made.0;
      keyed = made.1;
    }

pub scheduling_projection-once :
    (g : Graph) → distinct (node_ids (scheduling_projection g).nodes) ≡ true
unfolding scheduling_projection canonicalize
scheduling_projection-once g =
    let out = add_nodes new_graph (values g.nodes) in
    (add_nodes-graph new_graph (nodes_at out.nodes (sort_texts (node_ids out.nodes))) refl tt).0

-- The scheduling projection has the nodes of the graph, each once, and its scheduled edges.
pub scheduling_projection-Same :
    (g : Graph)
    → IsKeyed g.nodes
    → Same g (scheduling_projection g)
      × ((e : Edge)
          → contains (scheduling_projection g).edges e ≡ (contains g.edges e && is_scheduled e))
unfolding scheduling_projection canonicalize
scheduling_projection-Same g k =
    let out = add_nodes new_graph (values g.nodes) in
    let made = add_nodes-graph new_graph (values g.nodes) refl tt in
    let same = canonicalize-Same (record out { edges = scheduled g.edges }) made.1 in
    (
      record {
        ids = λ x. ground (
          arith,
          same.ids x,
          contains-add_nodes x new_graph (values g.nodes),
          ids-values x g.nodes k,
        );
        once = same.once;
        keyed = same.keyed;
      },
      λ e. contains-sort_edges e (scheduled g.edges) ∙ contains-scheduled e g.edges,
    )
