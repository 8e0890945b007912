-- ===== src/Plan/Cleanup/Partition.antt =====
-- The cleanup of released resources cleans or retains each of them, and forgets only the cleaned.
use depengine.Prelude.{
  Result-cases, eq_of_==, String, ◌≡◌, refl, sym, ap, ◌∙◌, ◌⊎◌, inl, inr, Bool, true, false, ◌&&◌,
  ◌||◌, Option, none, some, List, [], ◌∷◌, reverse, arith, ◌==◌, string_eq, nat_eq, if◌then◌else◌,
  Bool-cases, contains, Result, ok, >>=-eq-ok, lookup, remove, lookup-remove,
}
use depengine.Plan.Resource.{resource_identity_eq, ownership_kind_eq}
use depengine.Plan.Reference.{ReferenceLibrary}
use depengine.Plan.Operation.{Operation, OperationEffect}
use depengine.Plan.Ownership.{OwnedResourceState}
use depengine.Plan.Ownership.Ledger.{
  ResourceReleaseDecision, owned_resource_snapshot, sorted_states, Snapshot,
  validate_owned_resource_snapshot,
}
use depengine.Plan.Ownership.Ledger.Snapshot.{
  find_state, IsSnapshot, owned_resource_snapshot-holds, remove-IsSnapshot,
  find_state-sorted_states, sorted_states-canonical,
}
use depengine.Plan.Preparation.{PreparationMutation, PreparationPlan, validate_plan}
use depengine.Plan.Cleanup.{
  clean_one, ResourceIdentity, ResourceCleanupDecision, same_effect, same_flag, same_strings,
  same_operations, same_resources, unwant, check_wanted, clean_all, cleanup_released_resources,
  remove_all, finalize_released_resource_cleanup,
}

same_strings-eq : (xs ys : List String) → same_strings xs ys ≡ true → xs ≡ ys
unfolding same_strings
same_strings-eq [] [] h = refl
same_strings-eq [] (y ∷ ys) h = cc
same_strings-eq (x ∷ xs) [] h = cc
same_strings-eq (x ∷ xs) (y ∷ ys) h = ground (arith, same_strings-eq xs ys)

same_resources-eq : (xs ys : List ResourceIdentity) → same_resources xs ys ≡ true → xs ≡ ys
unfolding same_resources
same_resources-eq [] [] h = refl
same_resources-eq [] (y ∷ ys) h = cc
same_resources-eq (x ∷ xs) [] h = cc
same_resources-eq (x ∷ xs) (y ∷ ys) h = ground (arith, same_resources-eq xs ys)

same_effect-eq : (a b : OperationEffect) → same_effect a b ≡ true → a ≡ b
same_effect-eq a b h = ground arith

same_flag-eq : (a b : Bool) → same_flag a b ≡ true → a ≡ b
same_flag-eq a b h = ground arith

same_operation :
    (x y : Operation)
    → x.kind ≡ y.kind
    → x.description ≡ y.description
    → x.effect ≡ y.effect
    → x.arbitrary_code ≡ y.arbitrary_code
    → x.command ≡ y.command
    → x ≡ y
same_operation x y a b c d e = ground arith

same_operations-eq : (xs ys : List Operation) → same_operations xs ys ≡ true → xs ≡ ys
unfolding same_operations
same_operations-eq [] [] h = refl
same_operations-eq [] (y ∷ ys) h = cc
same_operations-eq (x ∷ xs) [] h = cc
same_operations-eq (x ∷ xs) (y ∷ ys) h =
    let first : x ≡ y =
      same_operation x y (ground arith) (ground arith)
        (same_effect-eq x.effect y.effect (ground arith))
        (same_flag-eq x.arbitrary_code y.arbitrary_code (ground arith))
        (same_strings-eq x.command y.command (ground arith)) in
    let rest : xs ≡ ys = same_operations-eq xs ys (ground arith) in ground arith

contains-unwant :
    (r x : ResourceIdentity) (xs : List ResourceIdentity)
    → contains (unwant r xs) x ≡ (if r == x then false else contains xs x)
unfolding unwant
contains-unwant r x [] = ground arith
contains-unwant r x (y ∷ ys) = ground (arith, contains-unwant r x ys)

module _ ⦃lib : ReferenceLibrary⦄ where
  -- what a cleanup does with a resource, where it is wanted
  abbrev Split : List ResourceIdentity → ResourceCleanupDecision → ResourceIdentity → Type 0
  Split wanted out r =
      (contains wanted r ≡ (contains out.cleaned r || contains out.retained r))
      × ((contains out.cleaned r && contains out.retained r) ≡ false)

  -- the mutation's resource goes where its policy says, and the rest is unchanged
  clean_one-inversion :
      (m : PreparationMutation) (o : Option Operation) (rest : Result ResourceCleanupDecision)
      (out : ResourceCleanupDecision)
      → clean_one m o rest ≡ ok out
      → (out' : ResourceCleanupDecision) × (rest ≡ ok out')
        × (((out.cleaned ≡ m.resource ∷ out'.cleaned) × (out.retained ≡ out'.retained))
            ⊎ ((out.cleaned ≡ out'.cleaned) × (out.retained ≡ m.resource ∷ out'.retained)))
  unfolding clean_one
  clean_one-inversion m none rest out h = elim (Result-cases rest) [
    | inl (out', made) ↦ (out', made, ground (arith, made))
    | inr (message, failed) ↦ absurd (ground (arith, failed))
  ]
  clean_one-inversion m (some operation) rest out h = elim (Result-cases rest) [
    | inl (out', made) ↦ (out', made, ground (arith, made))
    | inr (message, failed) ↦ absurd (ground (arith, failed))
  ]

  clean_all-wanted :
      (wanted : List ResourceIdentity) (m : PreparationMutation) (ms : List PreparationMutation)
      (out : ResourceCleanupDecision)
      → contains wanted m.resource ≡ true
      → clean_all wanted (m ∷ ms) ≡ ok out
      → clean_one m m.rollback (clean_all (unwant m.resource wanted) ms) ≡ ok out
  unfolding clean_all
  clean_all-wanted wanted m ms out c h = ground arith

  Split-add :
      (wanted : List ResourceIdentity) (x r : ResourceIdentity) (out out' : ResourceCleanupDecision)
      → contains wanted x ≡ true
      → contains (unwant x wanted) r ≡ (contains out'.cleaned r || contains out'.retained r)
      → (contains out'.cleaned r && contains out'.retained r) ≡ false
      → ((out.cleaned ≡ x ∷ out'.cleaned) × (out.retained ≡ out'.retained))
        ⊎ ((out.cleaned ≡ out'.cleaned) × (out.retained ≡ x ∷ out'.retained))
      → Split wanted out r
  Split-add wanted x r out out' held all none_twice (inl (p, q)) =
      let gone = sym (contains-unwant x r wanted) ∙ all in
      elim (Bool-cases (x == r)) [
        | inl same ↦
            let e : x ≡ r = eq_of_== x r same in
            let held' : contains wanted r ≡ true = ap (contains wanted) (sym e) ∙ held in
            (ground (arith, held'), ground arith)
        | inr other ↦ (ground arith, ground arith)
      ]
  Split-add wanted x r out out' held all none_twice (inr (p, q)) =
      let gone = sym (contains-unwant x r wanted) ∙ all in
      elim (Bool-cases (x == r)) [
        | inl same ↦
            let e : x ≡ r = eq_of_== x r same in
            let held' : contains wanted r ≡ true = ap (contains wanted) (sym e) ∙ held in
            (ground (arith, held'), ground arith)
        | inr other ↦ (ground arith, ground arith)
      ]

  clean_all-Split :
      (wanted : List ResourceIdentity) (ms : List PreparationMutation)
      (out : ResourceCleanupDecision) (r : ResourceIdentity)
      → clean_all wanted ms ≡ ok out
      → Split wanted out r
  unfolding clean_all
  clean_all-Split [] [] out r h = (ground arith, ground arith)
  clean_all-Split (w ∷ wanted) [] out r h = cc
  clean_all-Split wanted (m ∷ ms) out r h = elim (Bool-cases (contains wanted m.resource)) [
    | inr free ↦ clean_all-Split wanted ms out r (ground (arith, free))
    | inl held ↦
        let (out', made, how) =
          clean_one-inversion m m.rollback (clean_all (unwant m.resource wanted) ms) out
            (clean_all-wanted wanted m ms out held h) in
        let ih = clean_all-Split (unwant m.resource wanted) ms out' r made in
        Split-add wanted m.resource r out out' held ih.0 ih.1 how
  ]

  -- A cleanup that is planned cleans or retains each removable resource, never both, and no other.
  pub cleanup_released_resources-partition :
      (p : PreparationPlan) (release : ResourceReleaseDecision) (out : ResourceCleanupDecision)
      (r : ResourceIdentity)
      → cleanup_released_resources p release ≡ ok out
      → (contains release.removable r ≡ (contains out.cleaned r || contains out.retained r))
        × ((contains out.cleaned r && contains out.retained r) ≡ false)
  unfolding cleanup_released_resources
  cleanup_released_resources-partition p release out r e =
      let (t0, valid, e0) = >>=-eq-ok (validate_plan p) _ e in
      let (m, built, e1) = >>=-eq-ok (owned_resource_snapshot release.updated) _ e0 in
      let (t2, checked, e2) = >>=-eq-ok (check_wanted m [] release.removable) _ e1 in
      clean_all-Split release.removable (reverse p.prepare) out r e2

  remove_all-removes :
      (rs : List ResourceIdentity) (m : Snapshot)
      → IsSnapshot m
      → IsSnapshot (remove_all rs m)
        × ((r : ResourceIdentity)
            → lookup r (remove_all rs m) ≡ (if contains rs r then none else lookup r m))
  unfolding remove_all
  remove_all-removes [] m h = (h, λ r. refl)
  remove_all-removes (x ∷ rs) m h =
      let (snap, held) = remove_all-removes rs (remove x m) (remove-IsSnapshot x m h) in
      (snap, λ r. ground (arith, held r, lookup-remove r x m))

  finalize_released_resource_cleanup-inversion :
      (p : PreparationPlan) (release : ResourceReleaseDecision) (cleanup : ResourceCleanupDecision)
      (out : List OwnedResourceState)
      → finalize_released_resource_cleanup p release cleanup ≡ ok out
      → (expected : ResourceCleanupDecision) × (m : Snapshot) × (cleanup_released_resources p
            release
          ≡ ok expected)
        × (owned_resource_snapshot release.updated ≡ ok m)
        × (cleanup.operations ≡ expected.operations)
        × (cleanup.cleaned ≡ expected.cleaned)
        × (cleanup.retained ≡ expected.retained)
        × (out ≡ sorted_states (remove_all expected.cleaned m))
  unfolding finalize_released_resource_cleanup
  finalize_released_resource_cleanup-inversion p release cleanup out e =
      let (expected, made, e0) = >>=-eq-ok (cleanup_released_resources p release) _ e in
      elim (Result-cases (owned_resource_snapshot release.updated)) [
        | inr (message, failed) ↦ absurd (ground (arith, failed))
        | inl (m, built) ↦ (
          expected,
          m,
          made,
          built,
          same_operations-eq cleanup.operations expected.operations (ground arith),
          same_resources-eq cleanup.cleaned expected.cleaned (ground arith),
          same_resources-eq cleanup.retained expected.retained (ground arith),
          ground (arith, built),
        )
      ]

  -- FinalizeReleasedResourceCleanup accepts no decision but the one that the plan gives for this
  -- release, forgets exactly the resources that it cleans, and returns a canonical list.
  pub finalize_released_resource_cleanup-forgets :
      (p : PreparationPlan) (release : ResourceReleaseDecision) (cleanup : ResourceCleanupDecision)
      (out : List OwnedResourceState)
      → finalize_released_resource_cleanup p release cleanup ≡ ok out
      → (cleanup_released_resources p release ≡ ok cleanup)
        × (validate_owned_resource_snapshot out ≡ ok tt)
        × ((r : ResourceIdentity)
            → find_state r out
              ≡ (if contains cleanup.cleaned r then none else find_state r release.updated))
  finalize_released_resource_cleanup-forgets p release cleanup out e =
      let (expected, m, made, built, a, b, c, same) =
        finalize_released_resource_cleanup-inversion p release cleanup out e in
      let equal : expected ≡ cleanup = ground (arith, a, b, c) in
      let (snap, held) = owned_resource_snapshot-holds m release.updated built in
      let (left, kept) = remove_all-removes expected.cleaned m snap in
      (
        made ∙ ap ok equal,
        rw same (sorted_states-canonical _ left),
        λ r. rw same (find_state-sorted_states r _ left ∙ kept r ∙ ground (arith, held r, b)),
      )
