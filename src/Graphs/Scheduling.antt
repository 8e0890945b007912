-- ===== src/Graphs/Scheduling.antt =====
-- internal/graph/sort.go: Kahn's algorithm by levels, and the cycle that it reports. A map is the
-- function that reads it, with the zero value at a missing key; the set of remaining nodes is a list.
-- `levels` and `follow` are bounded by fuel, of which `sort_graph` and `try_starts` give enough; a
-- loop that runs out of it makes the outcome `out_of_fuel`.
use depengine.Prelude.{
  ℕ, zero, suc, ◌+◌, ◌-◌, ◌≤◌, ◌<◌, String, ◌≡◌, refl, sym, ap, ◌∙◌, ◌≢◌, ◌↔◌, ◌⊎◌, inl, inr, Bool,
  true, false, ◌&&◌, ◌||◌, not, Option, none, some, List, [], ◌∷◌, ◌++◌, map, reverse, arith, Eq,
  ◌==◌, ◌!=◌, string_eq, nat_eq, String-discrete, ltb, leb, if◌then◌else◌, Bool-cases, Option-cases,
  length, get_elem?, take, drop, is_empty, length-append, contains, Result, ok, err, ◌>>=◌, ◌>>◌,
  fail_if, succeeds, >>=-eq-ok, Table, lookup, insert, remove, values, lookup-insert, lookup-remove,
  trim_space, contains_nul, text_lt,
}
use depengine.Graphs.{sort_texts, Graph, Edge, Node, node_ids, scheduling_projection}
pub mod Counting
pub mod Rounds
pub mod Exact
pub mod Order
pub mod Paths
pub mod Following
pub mod Cycles
pub mod Complete
pub mod Tools

pub data SortOutcome : Type 0 where
  sorted : List (List String) → SortOutcome
  -- CycleError
  cyclic : List String → SortOutcome
  failed : String → SortOutcome
  out_of_fuel : SortOutcome

abbrev pub InDegree : Type 0
InDegree = String → ℕ

-- the checks on the ends of the edges
unfoldable pub check_ends : List String → List Edge → Result (Unit {0})
check_ends nodes [] = ok tt
check_ends nodes (e ∷ es) =
    let rest = check_ends nodes es in
    (do
      fail_if (not (contains nodes e.to)) "graph: dependency edge targets a node not in graph"
      fail_if (not (contains nodes e.from)) "graph: tool requires a node not in schema"
      rest)

-- inDegree after the loop over the edges
unfoldable pub in_degree : List Edge → InDegree
in_degree [] x = 0
in_degree (e ∷ es) x = let rest = in_degree es x in if e.to == x then suc rest else rest

-- children[name] before it is sorted
unfoldable pub targets : List Edge → String → List String
targets [] name = []
targets (e ∷ es) name = let rest = targets es name in if e.from == name then e.to ∷ rest else rest

-- dependencies[name] before it is sorted
unfoldable pub sources : List Edge → String → List String
sources [] name = []
sources (e ∷ es) name = let rest = sources es name in if e.to == name then e.from ∷ rest else rest

unfoldable pub children : List Edge → String → List String
unfolding targets
children edges name = sort_texts (targets edges name)

unfoldable pub dependencies : List Edge → String → List String
unfolding sources
dependencies edges name = sort_texts (sources edges name)

-- the remaining nodes without dependencies
unfoldable pub ready : List String → InDegree → List String
ready [] degree = []
ready (name ∷ names) degree =
    let rest = ready names degree in if degree name == 0 then name ∷ rest else rest

-- inDegree[child]--, for each child in turn; no count is 0 there
unfoldable pub decrement : List String → InDegree → InDegree
decrement [] degree = degree
decrement (child ∷ rest) degree =
    decrement rest (λ x. if child == x then degree x - 1 else degree x)

-- the loop over a level, without its deletions
unfoldable pub release : List Edge → List String → InDegree → InDegree
unfolding decrement children
release edges [] degree = degree
release edges (name ∷ names) degree = release edges names (decrement (children edges name) degree)

-- the deletions of that loop
unfoldable pub remove_names : List String → List String → List String
remove_names level [] = []
remove_names level (name ∷ names) =
    let rest = remove_names level names in if contains level name then rest else name ∷ rest

-- the first dependency that remains, and "" where there is none
unfoldable pub first_remaining : List String → List String → String
first_remaining remaining [] = ""
first_remaining remaining (dependency ∷ rest) =
    let later = first_remaining remaining rest in
    if contains remaining dependency then dependency else later

-- path[idx:] for the index of `name`
unfoldable pub path_from : String → List String → List String
path_from name [] = []
path_from name (x ∷ xs) = let rest = path_from name xs in if x == name then x ∷ xs else rest

-- The path that starts at one node meets itself in a cycle, or ends; `unfinished` is neither.
pub data PathOutcome : Type 0 where
  meets : List String → PathOutcome
  ends unfinished : PathOutcome

unfoldable pub follow : ℕ → List Edge → List String → List String → String → PathOutcome
unfolding path_from
follow zero edges remaining path name = unfinished
follow (suc fuel) edges remaining path name =
    let next = first_remaining remaining (dependencies edges name) in
    let rest = follow fuel edges remaining (path ++ name ∷ []) next in
    if contains path name then meets (path_from name path) else if next == "" then ends else rest

-- the loop over the starts; none where a path is unfinished
unfoldable pub try_starts : List Edge → List String → List String → Option (List String)
unfolding follow dependencies first_remaining
try_starts edges remaining [] = some ("unknown cycle" ∷ [])
try_starts edges remaining (name ∷ names) =
    let later = try_starts edges remaining names in
    elim (follow (suc (length remaining)) edges remaining [] name) [
      | meets cycle ↦ some cycle
      | ends ↦ later
      | unfinished ↦ none
    ]

unfoldable pub extract_cycle : List Edge → List String → Option (List String)
unfolding try_starts
extract_cycle edges remaining = try_starts edges remaining (sort_texts remaining)

abbrev pub cycle_outcome : Option (List String) → SortOutcome
cycle_outcome none = out_of_fuel
cycle_outcome (some cycle) = cyclic cycle

abbrev pub add_level : List String → SortOutcome → SortOutcome
add_level level (sorted levels) = sorted (level ∷ levels)
add_level level outcome = outcome

unfoldable pub levels : ℕ → List Edge → List String → InDegree → SortOutcome
unfolding ready release remove_names extract_cycle
levels fuel edges [] degree = sorted []
levels zero edges (name ∷ names) degree = out_of_fuel
levels (suc fuel) edges (name ∷ names) degree =
    let remaining = name ∷ names in
    let level = sort_texts (ready remaining degree) in
    let rest = levels fuel edges (remove_names level remaining) (release edges level degree) in
    if is_empty level then cycle_outcome (extract_cycle edges remaining) else add_level level rest

unfoldable pub sort_scheduled : List String → List Edge → SortOutcome
unfolding check_ends in_degree levels
sort_scheduled nodes edges = elim (check_ends nodes edges) [
  | err message ↦ failed message
  | ok checked ↦ levels (length nodes) edges nodes (in_degree edges)
]

-- SortGraph; an empty graph has no levels
unfoldable pub sort_graph : Graph → SortOutcome
unfolding sort_scheduled scheduling_projection
sort_graph g =
    if is_empty g.nodes
    then sorted []
    else sort_scheduled (node_ids (scheduling_projection g).nodes) (scheduling_projection g).edges
