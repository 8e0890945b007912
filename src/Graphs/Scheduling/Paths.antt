-- ===== src/Graphs/Scheduling/Paths.antt =====
-- Paths and cycles of dependencies.
use depengine.Prelude.{
  ==_refl, eq_of_==, contains-sort_texts, String, ◌≡◌, refl, sym, ap, ◌∙◌, inl, inr, Bool, true,
  false, ◌&&◌, ◌||◌, List, [], ◌∷◌, ◌++◌, arith, ◌==◌, string_eq, nat_eq, Bool-cases, contains,
}
use depengine.Graphs.{Edge, edge_eq}
use depengine.Graphs.Scheduling.{sources, dependencies, path_from}

-- an edge from `b` to `a`
abbrev pub link : List Edge → String → String → Bool
link [] a b = false
link (e ∷ es) a b = e.to == a && e.from == b || link es a b

-- each node of the path depends on the next, and the last on `end`
abbrev pub chain : List Edge → List String → String → Bool
chain edges [] end = true
chain edges (x ∷ []) end = link edges x end
chain edges (x ∷ y ∷ rest) end = link edges x y && chain edges (y ∷ rest) end

-- a path that leads back to its first node
abbrev pub is_cycle : List Edge → List String → Bool
is_cycle edges [] = false
is_cycle edges (x ∷ path) = chain edges (x ∷ path) x

contains-sources : (es : List Edge) (a b : String) → contains (sources es a) b ≡ link es a b
unfolding sources
contains-sources [] a b = refl
contains-sources (e ∷ es) a b = ground (arith, contains-sources es a b)

pub contains-dependencies :
    (edges : List Edge) (a b : String) → contains (dependencies edges a) b ≡ link edges a b
unfolding dependencies
contains-dependencies edges a b =
    contains-sort_texts b (sources edges a) ∙ contains-sources edges a b

pub chain-append :
    (edges : List Edge) (path : List String) (x next : String)
    → chain edges path x ≡ true
    → link edges x next ≡ true
    → chain edges (path ++ x ∷ []) next ≡ true
chain-append edges [] x next h d = d
chain-append edges (y ∷ []) x next h d = ground arith
chain-append edges (y ∷ z ∷ path) x next h d = ground (arith, chain-append edges (z ∷ path) x next)

-- the part of a chain from one of its nodes is a cycle where the chain leads back to it
pub path_from-is_cycle :
    (edges : List Edge) (path : List String) (x : String)
    → chain edges path x ≡ true
    → contains path x ≡ true
    → is_cycle edges (path_from x path) ≡ true
unfolding path_from
path_from-is_cycle edges [] x h c = cc c
path_from-is_cycle edges (y ∷ []) x h c =
    let same : (y == x) ≡ true = ground arith in
    let equal : y ≡ x = eq_of_== y x same in
    let here : path_from x (y ∷ []) ≡ y ∷ [] = ground (arith, same) in
    rw here (ap (chain edges (y ∷ [])) equal ∙ h)
path_from-is_cycle edges (y ∷ z ∷ path) x h c = elim (Bool-cases (y == x)) [
  | inl same ↦
      let equal : y ≡ x = eq_of_== y x same in
      let here : path_from x (y ∷ z ∷ path) ≡ y ∷ z ∷ path = ground (arith, same) in
      rw here (ap (chain edges (y ∷ z ∷ path)) equal ∙ h)
  | inr other ↦
      let later : path_from x (y ∷ z ∷ path) ≡ path_from x (z ∷ path) = ground (arith, other) in
      rw later (path_from-is_cycle edges (z ∷ path) x (ground arith) (ground (arith, other)))
]

pub link-edge :
    (es : List Edge) (a b : String)
    → link es a b ≡ true
    → (e : Edge) × (contains es e ≡ true) × (e.to ≡ a) × (e.from ≡ b)
link-edge [] a b h = absurd (ground arith)
link-edge (e ∷ es) a b h = elim (Bool-cases (e.to == a && e.from == b)) [
  | inl here ↦ (
    e,
    ground (arith, ==_refl e),
    eq_of_== e.to a (ground arith),
    eq_of_== e.from b (ground arith),
  )
  | inr other ↦
      let (f, c, stop, start) = link-edge es a b (ground (arith, other)) in
      (f, ground (arith, c), stop, start)
]

pub edge-link : (es : List Edge) (e : Edge) → contains es e ≡ true → link es e.to e.from ≡ true
edge-link [] e c = absurd (ground arith)
edge-link (f ∷ es) e c = elim (Bool-cases (f == e)) [
  | inl same ↦
      let equal : f ≡ e = eq_of_== f e same in
      rw equal (ground (arith, ==_refl e.to, ==_refl e.from))
  | inr other ↦ ground (arith, other, edge-link es e)
]

pub link_of_contains :
    (es fs : List Edge)
    → ((e : Edge) → contains es e ≡ true → contains fs e ≡ true)
    → (a b : String) → link es a b ≡ true
    → link fs a b ≡ true
link_of_contains es fs h a b on =
    let (e, c, stop, start) = link-edge es a b on in
    rw (sym stop, sym start) (edge-link fs e (h e c))

chain-le :
    (es fs : List Edge) (path : List String) (end : String)
    → ((a b : String) → link es a b ≡ true → link fs a b ≡ true)
    → chain es path end ≡ true
    → chain fs path end ≡ true
chain-le es fs [] end h c = refl
chain-le es fs (x ∷ []) end h c = h x end c
chain-le es fs (x ∷ y ∷ path) end h c = ground (arith, chain-le es fs (y ∷ path) end h, h x y)

pub is_cycle-le :
    (es fs : List Edge) (path : List String)
    → ((a b : String) → link es a b ≡ true → link fs a b ≡ true)
    → is_cycle es path ≡ true
    → is_cycle fs path ≡ true
is_cycle-le es fs [] h c = c
is_cycle-le es fs (x ∷ path) h c = chain-le es fs (x ∷ path) x h c
