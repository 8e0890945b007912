-- ===== src/Graphs.antt =====
-- internal/graph/ir.go: the typed dependency graph. A guard is its String(), the only method that
-- the graph calls on it. A Go map is a table, and a slice that is copied is the same list.
pub mod Canonical
pub mod Scheduling
pub mod Slicing
use depengine.Prelude.{
  sort_texts, ℕ, zero, suc, ◌+◌, ◌-◌, ◌≤◌, ◌<◌, String, ◌≡◌, refl, sym, ap, ◌∙◌, ◌≢◌, ◌↔◌, ◌⊎◌, inl,
  inr, Bool, true, false, ◌&&◌, ◌||◌, not, Option, none, some, List, [], ◌∷◌, ◌++◌, map, reverse,
  arith, Eq, ◌==◌, ◌!=◌, string_eq, nat_eq, String-discrete, ltb, leb, if◌then◌else◌, Bool-cases,
  Option-cases, length, get_elem?, take, drop, is_empty, length-append, contains, Result, ok, err,
  ◌>>=◌, ◌>>◌, fail_if, succeeds, >>=-eq-ok, Table, lookup, insert, remove, values, lookup-insert,
  lookup-remove, trim_space, contains_nul, text_lt,
}
use native.Mathlib.Decide.{ℕ_discrete}

-- int
pub data ℤ : Type 0 where
  pos negsuc : ℕ → ℤ

-- `unlisted n` is the value that is `n + 1` above the last listed one
pub data EdgeKind : Type 0 where
  tool_require method_require : EdgeKind
  unlisted : ℕ → EdgeKind

pub data EdgeRole : Type 0 where
  scheduling activation : EdgeRole
  unlisted : ℕ → EdgeRole

pub data EdgeState : Type 0 where
  declared_edge active_edge inactive_edge : EdgeState
  unlisted : ℕ → EdgeState

pub record Node : Type 0 where
  pub id : String
  pub tags : List String
  pub dependency_only : Bool

-- An edge goes from a dependency to the tool that depends on it.
pub record Edge : Type 0 where
  pub from : String
  pub to : String
  pub kind : EdgeKind
  pub role : EdgeRole
  pub state : EdgeState
  pub guard : Option String
  pub method : String
  pub candidate : ℤ
  pub candidate_known : Bool

pub record Graph : Type 0 where
  pub nodes : Table String Node
  pub edges : List Edge

unfoldable pub ℤ-discrete : Discrete ℤ
ℤ-discrete = hlevel (ℕ_discrete)

instance abbrev pub int_eq : Eq ℤ
int_eq = record { decide = ℤ-discrete }

unfoldable pub Edge-discrete : Discrete Edge
Edge-discrete = hlevel (String-discrete, ℕ_discrete)

instance abbrev pub edge_eq : Eq Edge
edge_eq = record { decide = Edge-discrete }

abbrev pub new_graph : Graph
new_graph = record { nodes = []; edges = [] }

unfoldable pub add_node : Graph → Node → Graph
add_node g node = record g { nodes = insert node.id node g.nodes }

unfoldable pub add_edge : Graph → Edge → Graph
add_edge g edge = record g { edges = g.edges ++ edge ∷ [] }

abbrev pub add_nodes : Graph → List Node → Graph
add_nodes g [] = g
add_nodes g (node ∷ nodes) = add_nodes (add_node g node) nodes

-- whether the edge takes part in the order of installation
abbrev pub is_scheduled : Edge → Bool
is_scheduled edge = elim edge.role [
  | EdgeRole.scheduling ↦ elim edge.state [ EdgeState.inactive_edge ↦ false | _ ↦ true ]
  | _ ↦ false
]

kind_rank : EdgeKind → ℕ
kind_rank EdgeKind.tool_require = 0
kind_rank EdgeKind.method_require = 1
kind_rank (EdgeKind.unlisted n) = n + 2

role_rank : EdgeRole → ℕ
role_rank EdgeRole.scheduling = 0
role_rank EdgeRole.activation = 1
role_rank (EdgeRole.unlisted n) = n + 2

state_rank : EdgeState → ℕ
state_rank EdgeState.declared_edge = 0
state_rank EdgeState.active_edge = 1
state_rank EdgeState.inactive_edge = 2
state_rank (EdgeState.unlisted n) = n + 3

-- a < b on integers
int_lt : ℤ → ℤ → Bool
int_lt (pos m) (pos n) = ltb m n
int_lt (pos m) (negsuc n) = false
int_lt (negsuc m) (pos n) = true
int_lt (negsuc m) (negsuc n) = ltb n m

guard_label : Option String → String
guard_label none = ""
guard_label (some label) = label

-- the comparison of Canonicalize
unfoldable pub edge_lt : Edge → Edge → Bool
unfolding kind_rank role_rank state_rank guard_label int_lt
edge_lt a b =
    if a.from != b.from
    then text_lt a.from b.from
    else if a.to != b.to
    then text_lt a.to b.to
    else if kind_rank a.kind != kind_rank b.kind
    then ltb (kind_rank a.kind) (kind_rank b.kind)
    else if role_rank a.role != role_rank b.role
    then ltb (role_rank a.role) (role_rank b.role)
    else if state_rank a.state != state_rank b.state
    then ltb (state_rank a.state) (state_rank b.state)
    else if a.method != b.method
    then text_lt a.method b.method
    else if a.candidate_known && not b.candidate_known || not a.candidate_known && b.candidate_known
    then not a.candidate_known
    else if a.candidate != b.candidate
    then int_lt a.candidate b.candidate
    else text_lt (guard_label a.guard) (guard_label b.guard)

insert_edge : Edge → List Edge → List Edge
unfolding edge_lt
insert_edge e [] = e ∷ []
insert_edge e (f ∷ fs) = let rest = insert_edge e fs in if edge_lt f e then f ∷ rest else e ∷ f ∷ fs

-- sort.Slice by the comparison of Canonicalize; edges that compare equal differ at most in whether
-- they have a guard with an empty label
unfoldable pub sort_edges : List Edge → List Edge
unfolding insert_edge
sort_edges [] = []
sort_edges (e ∷ es) = insert_edge e (sort_edges es)

unfoldable pub node_ids : Table String Node → List String
node_ids [] = []
node_ids ((id, node) ∷ nodes) = id ∷ node_ids nodes

-- the nodes under these ids; a missing key reads as the zero node
abbrev zero_node : Node
zero_node = record { id = ""; tags = []; dependency_only = false }

abbrev or_zero : Option Node → Node
or_zero none = zero_node
or_zero (some node) = node

unfoldable pub nodes_at : Table String Node → List String → List Node
nodes_at nodes [] = []
nodes_at nodes (id ∷ ids) = or_zero (lookup id nodes) ∷ nodes_at nodes ids

unfoldable pub canonicalize : Graph → Graph
unfolding sort_edges node_ids nodes_at
canonicalize g =
    let ordered = add_nodes new_graph (nodes_at g.nodes (sort_texts (node_ids g.nodes))) in
    record ordered { edges = sort_edges g.edges }

unfoldable pub scheduled : List Edge → List Edge
scheduled [] = []
scheduled (e ∷ es) = let rest = scheduled es in if is_scheduled e then e ∷ rest else rest

unfoldable pub scheduling_projection : Graph → Graph
unfolding canonicalize scheduled
scheduling_projection g =
    let out = add_nodes new_graph (values g.nodes) in
    canonicalize (record out { edges = scheduled g.edges })
