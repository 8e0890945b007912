-- ===== src/Graphs/Slicing/Induced.antt =====
-- The subgraph that some nodes induce.
use depengine.Prelude.{
  contains-append, ==_refl, eq_of_==, String, ◌≡◌, refl, ap, ◌∙◌, inl, inr, Bool, false, ◌&&◌, ◌||◌,
  Option, none, some, List, [], ◌∷◌, arith, ◌==◌, string_eq, nat_eq, Bool-cases, contains, Table,
  lookup,
}
use depengine.Graphs.{
  Graph, Node, Edge, edge_eq, add_node, add_edge, node_ids, canonicalize, new_graph,
}
use depengine.Graphs.Canonical.{
  IsKeyed, canonicalize-Same, contains-sort_edges, contains-insert, add_node-IsKeyed,
}
use depengine.Graphs.Slicing.{keep_node, keep_nodes, keep_edges}

-- whether the node, if any, has this id
abbrev has_id : Option Node → String → Bool
has_id none x = false
has_id (some node) x = node.id == x

lookup-has_id :
    (nodes : Table String Node) (id x : String)
    → IsKeyed nodes
    → has_id (lookup id nodes) x ≡ (id == x && contains (node_ids nodes) id)
unfolding lookup node_ids
lookup-has_id [] id x k = ground arith
lookup-has_id ((key, node) ∷ nodes) id x k = elim (Bool-cases (key == id)) [
  | inl same ↦
      let equal : key ≡ id = eq_of_== key id same in
      let named : (node.id == x) ≡ (id == x) = ap (λ y. y == x) (k.0 ∙ equal) in
      ground (arith, named)
  | inr other ↦ ground (arith, lookup-has_id nodes id x k.1)
]

keep_node-ids :
    (out : Graph) (o : Option Node) (x : String)
    → contains (node_ids (keep_node out o).nodes) x
      ≡ (contains (node_ids out.nodes) x || has_id o x)
unfolding add_node
keep_node-ids out none x = ground arith
keep_node-ids out (some node) x = ground (arith, contains-insert x node.id node out.nodes)

keep_node-IsKeyed :
    (out : Graph) (o : Option Node) → IsKeyed out.nodes → IsKeyed (keep_node out o).nodes
keep_node-IsKeyed out none k = k
keep_node-IsKeyed out (some node) k = add_node-IsKeyed out node k

keep_node-edges : (out : Graph) (o : Option Node) → (keep_node out o).edges ≡ out.edges
unfolding add_node
keep_node-edges out none = refl
keep_node-edges out (some node) = refl

keep_nodes-ids :
    (nodes : Table String Node) (ids : List String) (out : Graph) (x : String)
    → IsKeyed nodes
    → contains (node_ids (keep_nodes nodes ids out).nodes) x
      ≡ (contains (node_ids out.nodes) x || contains ids x && contains (node_ids nodes) x)
unfolding keep_nodes
keep_nodes-ids nodes [] out x k = ground arith
keep_nodes-ids nodes (id ∷ ids) out x k = elim (Bool-cases (id == x)) [
  | inl same ↦
      let equal : id ≡ x = eq_of_== id x same in
      ground (
        arith,
        keep_nodes-ids nodes ids (keep_node out (lookup id nodes)) x,
        keep_node-ids out (lookup id nodes) x,
        lookup-has_id nodes id x k,
        ap (contains (node_ids nodes)) equal,
      )
  | inr other ↦ ground (
    arith,
    keep_nodes-ids nodes ids (keep_node out (lookup id nodes)) x,
    keep_node-ids out (lookup id nodes) x,
    lookup-has_id nodes id x k,
  )
]

keep_nodes-IsKeyed :
    (nodes : Table String Node) (ids : List String) (out : Graph)
    → IsKeyed out.nodes
    → IsKeyed (keep_nodes nodes ids out).nodes
unfolding keep_nodes
keep_nodes-IsKeyed nodes [] out k = k
keep_nodes-IsKeyed nodes (id ∷ ids) out k =
    keep_nodes-IsKeyed nodes ids (keep_node out (lookup id nodes))
      (keep_node-IsKeyed out (lookup id nodes) k)

keep_nodes-edges :
    (nodes : Table String Node) (ids : List String) (out : Graph)
    → (keep_nodes nodes ids out).edges ≡ out.edges
unfolding keep_nodes
keep_nodes-edges nodes [] out = refl
keep_nodes-edges nodes (id ∷ ids) out =
    keep_nodes-edges nodes ids (keep_node out (lookup id nodes))
    ∙ keep_node-edges out (lookup id nodes)

keep_edges-nodes : (es : List Edge) (out : Graph) → (keep_edges es out).nodes ≡ out.nodes
unfolding keep_edges add_edge
keep_edges-nodes [] out = refl
keep_edges-nodes (e ∷ es) out =
    ground (arith, keep_edges-nodes es (add_edge out e), keep_edges-nodes es out)

keep_edges-edges :
    (es : List Edge) (out : Graph) (e : Edge)
    → contains (keep_edges es out).edges e ≡ (
        contains out.edges e
        || contains es e
          && (contains (node_ids out.nodes) e.from && contains (node_ids out.nodes) e.to))
unfolding keep_edges add_edge
keep_edges-edges [] out e = ground arith
keep_edges-edges (f ∷ es) out e = elim (Bool-cases (f == e)) [
  | inl same ↦
      let equal : f ≡ e = eq_of_== f e same in
      rw equal (
        ground (
          arith,
          keep_edges-edges es (add_edge out e) e,
          keep_edges-edges es out e,
          contains-append out.edges (e ∷ []) e,
          ==_refl e,
        ))
  | inr other ↦ ground (
    arith,
    keep_edges-edges es (add_edge out f) e,
    keep_edges-edges es out e,
    contains-append out.edges (f ∷ []) e,
  )
]

canonicalize-edges : (g : Graph) (e : Edge) → contains (canonicalize g).edges e ≡ contains g.edges e
unfolding canonicalize
canonicalize-edges g e = contains-sort_edges e g.edges

-- the subgraph that these nodes induce
unfoldable pub induced : Graph → List String → Graph
induced g keep = canonicalize (keep_edges g.edges (keep_nodes g.nodes keep new_graph))

pub record Induced (g : Graph) (keep : List String) (out : Graph) : Type 0 where
  pub ids :
      (x : String)
      → contains (node_ids out.nodes) x ≡ (contains keep x && contains (node_ids g.nodes) x)
  pub edges :
      (e : Edge)
      → contains out.edges e ≡ (
          contains g.edges e
          && (contains (node_ids out.nodes) e.from && contains (node_ids out.nodes) e.to))
  pub keyed : IsKeyed out.nodes

pub induced-Induced :
    (g : Graph) (keep : List String) → IsKeyed g.nodes → Induced g keep (induced g keep)
unfolding induced node_ids
induced-Induced g keep k =
    let nodes = keep_nodes g.nodes keep new_graph in
    let all = keep_edges g.edges nodes in
    let kept = keep_nodes-ids g.nodes keep new_graph in
    let keyed = keep_nodes-IsKeyed g.nodes keep new_graph tt in
    let same_nodes = keep_edges-nodes g.edges nodes in
    let same = canonicalize-Same all (rw same_nodes keyed) in
    let ids : (x : String)
        → contains (node_ids (canonicalize all).nodes) x ≡ contains (node_ids nodes.nodes) x =
      λ x. same.ids x ∙ ap (λ m. contains (node_ids m) x) same_nodes in
    record {
      ids = λ x. ground (arith, ids x, kept x k);
      edges = λ e. ground (
        arith,
        canonicalize-edges all e,
        keep_edges-edges g.edges nodes e,
        ap (λ es. contains es e) (keep_nodes-edges g.nodes keep new_graph),
        ids e.from,
        ids e.to,
      );
      keyed = same.keyed;
    }
