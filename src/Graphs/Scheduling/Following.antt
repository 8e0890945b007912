-- ===== src/Graphs/Scheduling/Following.antt =====
-- The path that extractCycle follows among stuck nodes meets itself.
use depengine.Prelude.{
  contains-sort_texts, ◌≢◌, contains-append, distinct-append, ==_refl, eq_of_==, distinct, ℕ, zero,
  suc, ◌+◌, ◌≤◌, ◌<◌, String, ◌≡◌, refl, sym, ap, ◌∙◌, inl, inr, true, false, none, some, List, [],
  ◌∷◌, ◌++◌, arith, ◌==◌, string_eq, nat_eq, Bool-cases, length, length-append, contains,
}
use depengine.Graphs.{sort_texts, none, Edge, edge_eq}
use depengine.Graphs.Scheduling.{
  remove_names, dependencies, first_remaining, path_from, PathOutcome, meets, ends, unfinished,
  follow, try_starts, extract_cycle,
}
use depengine.Graphs.Scheduling.Paths.{
  link, chain, is_cycle, contains-dependencies, chain-append, path_from-is_cycle,
}
use depengine.Graphs.Scheduling.Counting.{length-remove_names-lt, contains-remove_names}

first_remaining-dependency :
    (remaining ds : List String)
    → (first_remaining remaining ds == "") ≡ false
    → (contains ds (first_remaining remaining ds) ≡ true)
      × (contains remaining (first_remaining remaining ds) ≡ true)
unfolding first_remaining
first_remaining-dependency remaining [] h = absurd (ground (arith, ==_refl {A = String} ""))
first_remaining-dependency remaining (d ∷ ds) h = elim (Bool-cases (contains remaining d)) [
  | inl held ↦ rw held (ground (arith, ==_refl d), held)
  | inr gone ↦
      let (p, q) = first_remaining-dependency remaining ds (ground (arith, gone)) in
      rw gone (ground (arith, p), q)
]

-- a remaining dependency with a name is found
first_remaining_found :
    (remaining ds : List String) (d : String)
    → contains ds d ≡ true
    → contains remaining d ≡ true
    → contains remaining "" ≡ false
    → (first_remaining remaining ds == "") ≡ false
unfolding first_remaining
first_remaining_found remaining [] d h c n = cc h
first_remaining_found remaining (x ∷ ds) d h c n = elim (Bool-cases (contains remaining x)) [
  | inl held ↦ elim (Bool-cases (x == "")) [
    | inl blank ↦
        let equal : x ≡ "" = eq_of_== x "" blank in
        absurd (ground (arith, ap (contains remaining) equal))
    | inr named ↦ rw held named
  ]
  | inr gone ↦ elim (Bool-cases (x == d)) [
    | inl same ↦
        let equal : x ≡ d = eq_of_== x d same in
        absurd (ground (arith, ap (contains remaining) equal))
    | inr other ↦ rw gone (first_remaining_found remaining ds d (ground (arith, other)) c n)
  ]
]

-- distinct names that all remain are no more than those that remain
pub length-le_of_subset :
    (xs ys : List String)
    → distinct xs ≡ true
    → ((x : String) → contains xs x ≡ true → contains ys x ≡ true)
    → length xs ≤ length ys
length-le_of_subset [] ys d h = omega arith
length-le_of_subset (x ∷ xs) ys d h =
    let here : contains ys x ≡ true = h x (ground (arith, ==_refl x)) in
    let shorter = length-remove_names-lt (x ∷ []) ys x (ground (arith, ==_refl x)) here in
    let rest = length-le_of_subset xs (remove_names (x ∷ []) ys) (ground arith) (λ y c.
      ground
        (arith, c, h y, contains-remove_names (x ∷ []) ys y, ap (contains xs) {x = x} {y = y})) in
    omega (arith, shorter, rest)

-- Among the remaining nodes, each depends on another.
pub record Stuck (edges : List Edge) (remaining : List String) : Type 0 where
  pub named : contains remaining "" ≡ false
  pub waits :
      (y : String)
      → contains remaining y ≡ true
      → (d : String) × (link edges y d ≡ true) × (contains remaining d ≡ true)

-- The next node that `follow` visits remains, and the last one depends on it.
next_remains :
    (edges : List Edge) (remaining : List String) (name : String)
    → Stuck edges remaining
    → contains remaining name ≡ true
    → ((first_remaining remaining (dependencies edges name) == "") ≡ false)
      × (link edges name (first_remaining remaining (dependencies edges name)) ≡ true)
      × (contains remaining (first_remaining remaining (dependencies edges name)) ≡ true)
next_remains edges remaining name s c =
    let ds : List String = dependencies edges name in
    let (d, on, held) = s.waits name c in
    let there : contains ds d ≡ true = contains-dependencies edges name d ∙ on in
    let found = first_remaining_found remaining ds d there held s.named in
    let (p, q) = first_remaining-dependency remaining ds found in
    (found, sym (contains-dependencies edges name (first_remaining remaining ds)) ∙ p, q)

fresh_alone :
    (path : List String) (name a : String)
    → contains path name ≡ false
    → contains path a ≡ true
    → contains (name ∷ []) a ≡ false
fresh_alone path name a f c = elim (Bool-cases (name == a)) [
  | inl same ↦
      let equal : name ≡ a = eq_of_== name a same in
      absurd (ground (arith, ap (contains path) equal))
  | inr other ↦ ground (arith, other)
]

subset_last :
    (path remaining : List String) (name x : String)
    → ((y : String) → contains path y ≡ true → contains remaining y ≡ true)
    → contains remaining name ≡ true
    → contains (path ++ name ∷ []) x ≡ true
    → contains remaining x ≡ true
subset_last path remaining name x sub c m = elim (Bool-cases (name == x)) [
  | inl same ↦
      let equal : name ≡ x = eq_of_== name x same in sym (ap (contains remaining) equal) ∙ c
  | inr other ↦ sub x (ground (arith, other, contains-append path (name ∷ []) x))
]

-- with a step for each remaining node, the path meets itself
pub follow-is_cycle :
    (fuel : ℕ) (edges : List Edge) (remaining path : List String) (name : String)
    → Stuck edges remaining
    → chain edges path name ≡ true
    → distinct path ≡ true
    → ((x : String) → contains path x ≡ true → contains remaining x ≡ true)
    → contains remaining name ≡ true
    → length remaining < fuel + length path
    → (c : List String) × (follow fuel edges remaining path name ≡ meets c)
      × (is_cycle edges c ≡ true)
unfolding follow
follow-is_cycle zero edges remaining path name s h d sub c l =
    absurd (omega (arith, length-le_of_subset path remaining d sub))
follow-is_cycle (suc fuel) edges remaining path name s h d sub c l =
    elim (Bool-cases (contains path name)) [
      | inl met ↦
          (path_from name path, ground (arith, met), path_from-is_cycle edges path name h met)
      | inr fresh ↦
          let (found, on, held) = next_remains edges remaining name s c in
          let next = first_remaining remaining (dependencies edges name) in
          let (cycle, e, leads_back) : (c : List String) × (follow fuel edges remaining
                  (path ++ name ∷ []) next
                ≡ meets c)
              × (is_cycle edges c ≡ true) =
            follow-is_cycle fuel edges remaining (path ++ name ∷ []) next s
              (chain-append edges path name next h on)
              (distinct-append path (name ∷ []) d refl (λ a m. fresh_alone path name a fresh m))
              (λ x m. subset_last path remaining name x sub c m) held
              (omega (arith, length-append path (name ∷ []))) in
          (cycle, ground (arith, fresh, found, e), leads_back)
    ]

-- A path of distinct remaining nodes is extended at most once for each remaining node.
pub follow-finishes :
    (fuel : ℕ) (edges : List Edge) (remaining path : List String) (name : String)
    → distinct path ≡ true
    → ((x : String) → contains path x ≡ true → contains remaining x ≡ true)
    → contains remaining name ≡ true
    → length remaining < fuel + length path
    → follow fuel edges remaining path name ≢ unfinished
unfolding follow
follow-finishes zero edges remaining path name d sub c l e =
    omega (arith, length-le_of_subset path remaining d sub)
follow-finishes (suc fuel) edges remaining path name d sub c l e =
    let next = first_remaining remaining (dependencies edges name) in
    elim (Bool-cases (contains path name)) [
      | inl met ↦ ground (arith, met)
      | inr fresh ↦ elim (Bool-cases (next == "")) [
        | inl last ↦ ground (arith, fresh, last)
        | inr more ↦
            let (on, held) = first_remaining-dependency remaining (dependencies edges name) more in
            follow-finishes fuel edges remaining (path ++ name ∷ []) next
              (distinct-append path (name ∷ []) d refl (λ a m. fresh_alone path name a fresh m))
              (λ x m. subset_last path remaining name x sub c m) held
              (omega (arith, length-append path (name ∷ []))) (ground (arith, fresh, more))
      ]
    ]

try_starts-finishes :
    (edges : List Edge) (remaining names : List String)
    → ((y : String) → contains names y ≡ true → contains remaining y ≡ true)
    → try_starts edges remaining names ≢ none
unfolding try_starts
try_starts-finishes edges remaining [] sub e = cc e
try_starts-finishes edges remaining (y ∷ names) sub e =
    let done =
      follow-finishes (suc (length remaining)) edges remaining [] y refl (λ z m. cc m)
        (sub y (ground (arith, ==_refl y))) (omega arith) in
    let rest = try_starts-finishes edges remaining names (λ z m. sub z (ground (arith, m))) in
    go (follow (suc (length remaining)) edges remaining [] y) done rest e
  where
    go :
        (o : PathOutcome)
        → o ≢ unfinished
        → try_starts edges remaining names ≢ none
        → (elim o [
          | meets cycle ↦ some cycle
          | ends ↦ try_starts edges remaining names
          | unfinished ↦ none
        ])
          ≢ none
    go (meets cycle) n r h = cc h
    go ends n r h = r h
    go unfinished n r h = n refl

-- extractCycle ends on any remaining nodes.
pub extract_cycle-finishes :
    (edges : List Edge) (remaining : List String) → extract_cycle edges remaining ≢ none
unfolding extract_cycle
extract_cycle-finishes edges remaining =
    try_starts-finishes edges remaining (sort_texts remaining)
      (λ y c. sym (contains-sort_texts y remaining) ∙ c)
