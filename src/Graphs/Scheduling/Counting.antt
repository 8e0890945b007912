-- ===== src/Graphs/Scheduling/Counting.antt =====
-- In-degrees count the edges from the nodes that remain.
use depengine.Prelude.{
  occurrences-sort_texts, eq_of_==, occurrences, distinct, ℕ, suc, ◌+◌, ◌-◌, ◌≤◌, ◌<◌, String, ◌≡◌,
  refl, ap, ◌∙◌, inl, inr, true, false, ◌&&◌, not, List, [], ◌∷◌, arith, ◌==◌, string_eq, nat_eq,
  if◌then◌else◌, Bool-cases, length, contains, ok,
}
use depengine.Graphs.{Edge, edge_eq}
use depengine.Graphs.Scheduling.{
  InDegree, in_degree, targets, children, decrement, release, ready, remove_names, check_ends,
}

-- the edges from a node of the list to `x`
abbrev pub edges_between : List Edge → List String → String → ℕ
edges_between [] names x = 0
edges_between (e ∷ es) names x =
    let rest = edges_between es names x in
    if contains names e.from && e.to == x then suc rest else rest

pub in_degree-edges_between :
    (nodes : List String) (es : List Edge) (x : String)
    → check_ends nodes es ≡ ok tt
    → in_degree es x ≡ edges_between es nodes x
unfolding in_degree check_ends
in_degree-edges_between nodes [] x h = refl
in_degree-edges_between nodes (e ∷ es) x h = ground (arith, in_degree-edges_between nodes es x)

occurrences-targets :
    (es : List Edge) (name x : String)
    → occurrences (targets es name) x ≡ edges_between es (name ∷ []) x
unfolding targets
occurrences-targets [] name x = refl
occurrences-targets (e ∷ es) name x = ground (arith, occurrences-targets es name x)

decrement-occurrences :
    (cs : List String) (degree : InDegree) (x : String)
    → decrement cs degree x ≡ degree x - occurrences cs x
unfolding decrement
decrement-occurrences [] degree x = omega arith
decrement-occurrences (c ∷ cs) degree x =
    ground (arith, decrement-occurrences cs (λ y. if c == y then degree y - 1 else degree y) x)

edges_between-cons :
    (es : List Edge) (name : String) (names : List String) (x : String)
    → contains names name ≡ false
    → edges_between es (name ∷ names) x ≡ edges_between es (name ∷ []) x + edges_between es names x
edges_between-cons [] name names x f = refl
edges_between-cons (e ∷ es) name names x f = ground (arith, edges_between-cons es name names x f)

edges_between-none : (es : List Edge) (x : String) → edges_between es [] x ≡ 0
edges_between-none [] x = refl
edges_between-none (e ∷ es) x = edges_between-none es x

pub release-edges_between :
    (es : List Edge) (level : List String) (degree : InDegree) (x : String)
    → distinct level ≡ true
    → release es level degree x ≡ degree x - edges_between es level x
unfolding release children
release-edges_between es [] degree x d = omega (arith, edges_between-none es x)
release-edges_between es (name ∷ names) degree x d = ground (
  arith,
  release-edges_between es names (decrement (children es name) degree) x,
  decrement-occurrences (children es name) degree x,
  occurrences-sort_texts x (targets es name),
  occurrences-targets es name x,
  edges_between-cons es name names x,
)

pub contains-remove_names :
    (level names : List String) (y : String)
    → contains (remove_names level names) y ≡ (contains names y && not (contains level y))
unfolding remove_names
contains-remove_names level [] y = refl
contains-remove_names level (name ∷ names) y = ground (arith, contains-remove_names level names y)

-- The edges from remaining nodes are those from a level and those from what remains after it.
pub edges_between-remove_names :
    (es : List Edge) (level names : List String) (x : String)
    → ((y : String) → contains level y ≡ true → contains names y ≡ true)
    → edges_between es names x
      ≡ edges_between es (remove_names level names) x + edges_between es level x
edges_between-remove_names [] level names x h = refl
edges_between-remove_names (e ∷ es) level names x h = ground (
  arith,
  edges_between-remove_names es level names x h,
  contains-remove_names level names e.from,
  h e.from,
)

-- An edge from a node of the list is counted.
pub edges_between_counted :
    (es : List Edge) (names : List String) (e : Edge)
    → contains es e ≡ true
    → contains names e.from ≡ true
    → (edges_between es names e.to == 0) ≡ false
edges_between_counted [] names e h c = cc
edges_between_counted (f ∷ es) names e h c = elim (Bool-cases (f == e)) [
  | inl same ↦ let equal : f ≡ e = eq_of_== f e same in rw equal (ground arith)
  | inr other ↦ ground (arith, edges_between_counted es names e)
]

pub contains-ready :
    (names : List String) (degree : InDegree) (x : String)
    → contains (ready names degree) x ≡ (contains names x && degree x == 0)
unfolding ready
contains-ready [] degree x = refl
contains-ready (name ∷ names) degree x = elim (Bool-cases (name == x)) [
  | inl same ↦
      let equal : name ≡ x = eq_of_== name x same in
      rw equal (ground (arith, contains-ready names degree x))
  | inr other ↦ ground (arith, contains-ready names degree x)
]

pub distinct-ready :
    (names : List String) (degree : InDegree)
    → distinct names ≡ true
    → distinct (ready names degree) ≡ true
unfolding ready
distinct-ready [] degree d = refl
distinct-ready (name ∷ names) degree d =
    ground (arith, distinct-ready names degree, contains-ready names degree name)

pub distinct-remove_names :
    (level names : List String) → distinct names ≡ true → distinct (remove_names level names) ≡ true
unfolding remove_names
distinct-remove_names level [] d = refl
distinct-remove_names level (name ∷ names) d =
    ground (arith, distinct-remove_names level names, contains-remove_names level names name)

length-remove_names-le :
    (level names : List String) → length (remove_names level names) ≤ length names
unfolding remove_names
length-remove_names-le level [] = omega arith
length-remove_names-le level (name ∷ names) = ground (arith, length-remove_names-le level names)

-- A level that has a remaining node leaves fewer nodes.
pub length-remove_names-lt :
    (level names : List String) (x : String)
    → contains level x ≡ true
    → contains names x ≡ true
    → length (remove_names level names) < length names
unfolding remove_names
length-remove_names-lt level [] x l c = cc
length-remove_names-lt level (name ∷ names) x l c = elim (Bool-cases (name == x)) [
  | inl same ↦
      let equal : name ≡ x = eq_of_== name x same in
      let held : contains level name ≡ true = ap (contains level) equal ∙ l in
      ground (arith, length-remove_names-le level names)
  | inr other ↦
      ground (arith, length-remove_names-lt level names x, length-remove_names-le level names)
]
