-- ===== src/Plan/Journal/Claimed.antt =====
-- A finished commit claims every resource that the plan's mutations prepared.
use depengine.Prelude.{
  ℕ, zero, suc, String, ◌≡◌, refl, sym, ◌∙◌, ◌⊎◌, inl, inr, true, Option, none, some, List, [], ◌∷◌,
  arith, ◌==◌, string_eq, nat_eq, Bool-cases, get_elem?, contains, ok, >>=-eq-ok, lookup, insert,
  lookup-insert,
}
use depengine.Plan.Resource.{ResourceIdentity, resource_identity_eq, ownership_kind_eq}
use depengine.Plan.Reference.{ReferenceLibrary}
use depengine.Plan.Ownership.{
  OwnedResourceState, validate_owned, validate_dependent, claim_resource,
}
use depengine.Plan.Ownership.Claims.{claim_resource-adds, claim_resource-inversion}
use depengine.Plan.Ownership.Ledger.{
  Snapshot, owned_resource_snapshot, sorted_states, validate_owned_resource_snapshot,
}
use depengine.Plan.Ownership.Ledger.Snapshot.{
  find_state, IsSnapshot, insert-IsSnapshot, lookup-IsSnapshot, find_state-sorted_states,
  sorted_states-canonical, owned_resource_snapshot-holds,
}
use mathlib.Core.Path.{subst}
use depengine.Plan.Preparation.{PreparationMutation, PreparationPlan}
use depengine.Plan.Journal.{PreparationJournal}
use depengine.Plan.Journal.Transitions.{
  committed_state, claim_mutations, mark_committed, finalize_commit,
}

module _ ⦃lib : ReferenceLibrary⦄ where
  -- The resource `r` has a state that the dependent claims.
  abbrev Holds : String → ResourceIdentity → Snapshot → Type 0
  Holds d r m = (t : OwnedResourceState) × (lookup r m ≡ some t) × (contains t.dependents d ≡ true)

  claim-adds :
      (s t : OwnedResourceState) (d : String)
      → claim_resource s d ≡ ok t
      → (validate_owned t ≡ ok tt) × (t.resource ≡ s.resource) × (contains t.dependents d ≡ true)
  claim-adds s t d e =
      let i = claim_resource-inversion s t d e in
      let (t', made, valid, same, owner, claims) = claim_resource-adds s d i.0 i.1 in
      let equal : t' ≡ t = ground (arith, made) in
      rw (sym equal) (valid, same, ground (arith, claims d))

  committed_state-resource :
      (x : PreparationMutation) (m : Snapshot) (o : Option OwnedResourceState)
      (s : OwnedResourceState)
      → IsSnapshot m
      → lookup x.resource m ≡ o
      → committed_state x o ≡ ok s
      → s.resource ≡ x.resource
  committed_state-resource x m none s snap at e = ground arith
  committed_state-resource x m (some u) s snap at e =
      ground (arith, lookup-IsSnapshot x.resource u m snap at)

  -- one mutation's resource, with the state that its claim starts from
  claim_one :
      (d : String) (m : Snapshot) (x : PreparationMutation) (ms : List PreparationMutation)
      (out : Snapshot)
      → IsSnapshot m
      → claim_mutations d m (x ∷ ms) ≡ ok out
      → (t : OwnedResourceState) × (contains t.dependents d ≡ true)
        × IsSnapshot (insert x.resource t m)
        × (claim_mutations d (insert x.resource t m) ms ≡ ok out)
  unfolding claim_mutations
  claim_one d m x ms out snap e =
      let (s, from, e0) = >>=-eq-ok (committed_state x (lookup x.resource m)) _ e in
      let (t, claimed, e1) = >>=-eq-ok (claim_resource s d) _ e0 in
      let (valid, same, held) = claim-adds s t d claimed in
      let named = same ∙ committed_state-resource x m (lookup x.resource m) s snap refl from in
      (t, held, subst (λ r. IsSnapshot (insert r t m)) named (insert-IsSnapshot t m valid snap), e1)

  insert-Holds :
      (d : String) (m : Snapshot) (x r : ResourceIdentity) (t : OwnedResourceState)
      → contains t.dependents d ≡ true
      → (x ≡ r) ⊎ Holds d r m
      → Holds d r (insert x t m)
  insert-Holds d m x r t held (inl same) = (t, ground (arith, same, lookup-insert r x t m), held)
  insert-Holds d m x r t held (inr (s, there, held')) = elim (Bool-cases (x == r)) [
    | inl same ↦ (t, ground (arith, same, lookup-insert r x t m), held)
    | inr other ↦ (s, ground (arith, other, there, lookup-insert r x t m), held')
  ]

  claim_mutations-Holds :
      (d : String) (m : Snapshot) (ms : List PreparationMutation) (out : Snapshot)
      (r : ResourceIdentity)
      → IsSnapshot m
      → claim_mutations d m ms ≡ ok out
      → IsSnapshot out × (Holds d r m → Holds d r out)
  unfolding claim_mutations
  claim_mutations-Holds d m [] out r snap e =
      let same : out ≡ m = ground arith in rw same (snap, λ h. h)
  claim_mutations-Holds d m (x ∷ ms) out r snap e =
      let (t, held, snap', rest) = claim_one d m x ms out snap e in
      let (done, keeps) = claim_mutations-Holds d (insert x.resource t m) ms out r snap' rest in
      (done, λ h. keeps (insert-Holds d m x.resource r t held (inr h)))

  claim_mutations-claims :
      (d : String) (m : Snapshot) (ms : List PreparationMutation) (out : Snapshot) (i : ℕ)
      (x : PreparationMutation)
      → IsSnapshot m
      → claim_mutations d m ms ≡ ok out
      → get_elem? ms i ≡ some x
      → Holds d x.resource out
  claim_mutations-claims d m [] out i x snap e at = absurd (cc at)
  claim_mutations-claims d m (y ∷ ms) out zero x snap e at =
      let (t, held, snap', rest) = claim_one d m y ms out snap e in
      let same : y.resource ≡ x.resource = ground arith in
      (claim_mutations-Holds d (insert y.resource t m) ms out x.resource snap' rest).1
        (insert-Holds d m y.resource x.resource t held (inl same))
  claim_mutations-claims d m (y ∷ ms) out (suc i) x snap e at =
      let (t, held, snap', rest) = claim_one d m y ms out snap e in
      claim_mutations-claims d (insert y.resource t m) ms out i x snap' rest at

  -- After FinalizeCommit the list of owned resources is canonical, and every mutation of the plan
  -- has its resource recorded with this dependent among those that claim it.
  pub finalize_commit-claims :
      (j k : PreparationJournal) (p : PreparationPlan) (owned out : List OwnedResourceState)
      (d : String) (i : ℕ) (x : PreparationMutation)
      → finalize_commit j p owned d ≡ ok (k, out)
      → get_elem? p.prepare i ≡ some x
      → (validate_owned_resource_snapshot out ≡ ok tt)
        × (t : OwnedResourceState) × (find_state x.resource out ≡ some t)
        × (contains t.dependents d ≡ true)
  unfolding finalize_commit
  finalize_commit-claims j k p owned out d i x e at =
      let (t0, named, e0) = >>=-eq-ok (validate_dependent d) _ e in
      let (m, built, e1) = >>=-eq-ok (owned_resource_snapshot owned) _ e0 in
      let (c, made, e2) = >>=-eq-ok (mark_committed j p) _ e1 in
      let (m', claimed, e3) = >>=-eq-ok (claim_mutations d m p.prepare) _ e2 in
      let (snap, held) = owned_resource_snapshot-holds m owned built in
      let (snap', keeps) = claim_mutations-Holds d m p.prepare m' x.resource snap claimed in
      let (t, there, holds) = claim_mutations-claims d m p.prepare m' i x snap claimed at in
      let same : out ≡ sorted_states m' = ground arith in
      (
        rw same (sorted_states-canonical m' snap'),
        t,
        rw same (find_state-sorted_states x.resource m' snap' ∙ there),
        holds,
      )
