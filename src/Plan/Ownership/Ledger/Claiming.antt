-- ===== src/Plan/Ownership/Ledger/Claiming.antt =====
-- Claiming the shared resources that a dependent uses.
use mathlib.Core.Option
use mathlib.Core.Path.{subst}
use depengine.Prelude.{
  String, ◌≡◌, refl, ◌∙◌, Bool, true, false, ◌&&◌, Option, none, some, List, [], ◌∷◌, ◌==◌,
  string_eq, arith, if◌then◌else◌, inl, inr, Bool-cases, ok, lookup, insert, lookup-insert,
  contains, >>=-eq-ok,
}
use depengine.Plan.Reference.{ReferenceLibrary}
use depengine.Plan.Resource.{ResourceIdentity, resource_identity_eq, validate_resource}
use depengine.Plan.Ownership.{
  OwnedResourceState, validate_owned, validate_dependent, claim_resource,
}
use depengine.Plan.Ownership.Claims.{claim_resource-adds}
use depengine.Plan.Ownership.Ledger.{
  Snapshot, ResourceUse, sorted_states, owned_resource_snapshot, validate_owned_resource_snapshot,
  track_resource_uses, claim_from, zero_state, claim_resource_uses,
}
use depengine.Plan.Ownership.Ledger.Snapshot.{
  find_state, IsSnapshot, find_state-sorted_states, insert-IsSnapshot, lookup-IsSnapshot,
  owned_resource_snapshot-holds, sorted_states-canonical,
}
use depengine.Plan.Ownership.Ledger.Tracking.{find_use, tracked, track_resource_uses-tracked}

module _ ⦃lib : ReferenceLibrary⦄ where
  abbrev pub used : ResourceIdentity → List ResourceUse → Bool
  used r [] = false
  used r (u ∷ us) = let rest = used r us in if u.resource == r then true else rest

  -- `t` is `s` with the dependent added where `b` holds.
  pub record Claimed (d : String) (b : Bool) (s t : OwnedResourceState) : Type 0 where
    pub same_ownership : t.ownership ≡ s.ownership
    pub dependents :
        (e : String)
        → contains t.dependents e ≡ (if b && d == e then true else contains s.dependents e)

  claim_present :
      (o : Option OwnedResourceState) (d : String) (t : OwnedResourceState)
      → claim_resource (Option.get_or o zero_state) d ≡ ok t
      → (s : OwnedResourceState) × (o ≡ some s) × (claim_resource s d ≡ ok t)
  claim_present none d t e = unfold claim_resource validate_owned validate_resource in cc e
  claim_present (some s) d t e = (s, refl, e)

  Claimed-claim :
      (d : String) (s t : OwnedResourceState)
      → validate_owned s ≡ ok tt
      → validate_dependent d ≡ ok tt
      → claim_resource s d ≡ ok t
      → (t.resource ≡ s.resource) × (validate_owned t ≡ ok tt) × Claimed d true s t
  Claimed-claim d s t v g e =
      let (made, claimed, valid, resource, ownership, dependents) = claim_resource-adds s d v g in
      let same : made ≡ t = cc (claimed, e) in
      subst (λ x. (x.resource ≡ s.resource) × (validate_owned x ≡ ok tt) × Claimed d true s x) same
        (resource, valid, record { same_ownership = ownership; dependents = dependents })

  Claimed-trans :
      (d : String) (b : Bool) (s t u : OwnedResourceState)
      → Claimed d true s t
      → Claimed d b t u
      → Claimed d true s u
  Claimed-trans d b s t u first second = record {
    same_ownership = second.same_ownership ∙ first.same_ownership;
    dependents = λ e. ground (arith, first.dependents e, second.dependents e);
  }

  -- what one claim after another makes of a resource
  abbrev ClaimedAt : String → Bool → ResourceIdentity → OwnedResourceState → Snapshot → Type 0
  ClaimedAt d b r s n = (t : OwnedResourceState) × (lookup r n ≡ some t) × Claimed d b s t

  claim_entry :
      (d : String) (m n : Snapshot) (u : ResourceUse) (us : List ResourceUse)
      (s0 t0 : OwnedResourceState)
      → lookup u.resource m ≡ some s0
      → Claimed d true s0 t0
      → ((r : ResourceIdentity) (s : OwnedResourceState)
          → lookup r (insert u.resource t0 m) ≡ some s
          → ClaimedAt d (used r us) r s n)
      → (r : ResourceIdentity) (s : OwnedResourceState) → lookup r m ≡ some s
      → ClaimedAt d (used r (u ∷ us)) r s n
  claim_entry d m n u us s0 t0 there claimed ih r s e = elim (Bool-cases (u.resource == r)) [
    | inl same ↦
        let (t, held, later) = ih r t0 (ground (arith, lookup-insert r u.resource t0 m)) in
        let first : Claimed d true s t0 = subst (λ x. Claimed d true x t0) (ground arith) claimed in
        rw same (t, held, Claimed-trans d (used r us) s t0 t first later)
    | inr other ↦ rw other (ih r s (ground (arith, lookup-insert r u.resource t0 m)))
  ]

  claim_from-step :
      (d : String) (m n : Snapshot) (u : ResourceUse) (us : List ResourceUse)
      → claim_from d m (u ∷ us) ≡ ok n
      → (s t : OwnedResourceState) × (lookup u.resource m ≡ some s)
        × (claim_resource s d ≡ ok t)
        × (claim_from d (insert u.resource t m) us ≡ ok n)
  unfolding claim_from
  claim_from-step d m n u us e =
      let (t, claimed, rest) =
        >>=-eq-ok (claim_resource (Option.get_or (lookup u.resource m) zero_state) d) _ e in
      let (s, there, made) = claim_present (lookup u.resource m) d t claimed in
      (s, t, there, made, rest)

  claim_from-holds :
      (d : String) (m n : Snapshot) (us : List ResourceUse)
      → IsSnapshot m
      → validate_dependent d ≡ ok tt
      → claim_from d m us ≡ ok n
      → IsSnapshot n
        × ((r : ResourceIdentity) → used r us ≡ false → lookup r n ≡ lookup r m)
        × ((r : ResourceIdentity) (s : OwnedResourceState)
            → lookup r m ≡ some s
            → ClaimedAt d (used r us) r s n)
  claim_from-holds d m n [] h g e =
      unfold claim_from in
      let same : m ≡ n = cc e in
      subst
        (λ x.
          IsSnapshot x
          × ((r : ResourceIdentity) → false ≡ false → lookup r x ≡ lookup r m)
          × ((r : ResourceIdentity) (s : OwnedResourceState)
              → lookup r m ≡ some s
              → ClaimedAt d false r s x))
        same
        (
          h,
          λ r c. refl,
          λ r s there. (s, there, record { same_ownership = refl; dependents = λ x. refl }),
        )
  claim_from-holds d m n (u ∷ us) h g e =
      let (s, t, there, claimed, rest) = claim_from-step d m n u us e in
      let (keyed, valid) = lookup-IsSnapshot u.resource s m h there in
      let (resource, good, made) = Claimed-claim d s t valid g claimed in
      let written : IsSnapshot (insert u.resource t m) =
        subst (λ k. IsSnapshot (insert k t m)) (resource ∙ keyed) (insert-IsSnapshot t m good h) in
      let ih = claim_from-holds d (insert u.resource t m) n us written g rest in
      (
        ih.0,
        λ r c. ground (arith, ih.1 r, lookup-insert r u.resource t m),
        claim_entry d m n u us s t there made ih.2,
      )

  find_use-unused :
      (r : ResourceIdentity) (us : List ResourceUse) → used r us ≡ false → find_use r us ≡ none
  find_use-unused r [] c = refl
  find_use-unused r (u ∷ us) c = ground (arith, find_use-unused r us)

  pub claim_resource_uses-inversion :
      (states out : List OwnedResourceState) (d : String) (us : List ResourceUse)
      → claim_resource_uses states d us ≡ ok out
      → (validate_dependent d ≡ ok tt)
        × (states' : List OwnedResourceState) × (m : Snapshot) × (n : Snapshot)
        × (track_resource_uses states us ≡ ok states')
        × (owned_resource_snapshot states' ≡ ok m)
        × (claim_from d m us ≡ ok n)
        × (out ≡ sorted_states n)
  unfolding claim_resource_uses
  claim_resource_uses-inversion states out d us e =
      let (unit, g, p) = >>=-eq-ok (validate_dependent d) _ e in
      let (states', tracking, q) = >>=-eq-ok (track_resource_uses states us) _ p in
      let (m, built, r) = >>=-eq-ok (owned_resource_snapshot states') _ q in
      let (n, claimed, s) = >>=-eq-ok (claim_from d m us) _ r in
      (g, states', m, n, tracking, built, claimed, cc s)

  -- ClaimResourceUses returns a canonical list. A resource that is not used keeps its state; a used
  -- one has the ownership that tracking gives it, and its dependents with this one added.
  pub claim_resource_uses-canonical :
      (states out : List OwnedResourceState) (d : String) (us : List ResourceUse)
      → claim_resource_uses states d us ≡ ok out
      → (validate_owned_resource_snapshot out ≡ ok tt)
        × ((r : ResourceIdentity) → used r us ≡ false → find_state r out ≡ find_state r states)
        × ((r : ResourceIdentity) (s : OwnedResourceState)
            → tracked (find_use r us) (find_state r states) ≡ some s
            → (t : OwnedResourceState) × (find_state r out ≡ some t) × Claimed d (used r us) s t)
  claim_resource_uses-canonical states out d us e =
      let (g, states', m, n, tracking, built, claimed, same) =
        claim_resource_uses-inversion states out d us e in
      let (canon, effect) = track_resource_uses-tracked states states' us tracking in
      let (snap, held) = owned_resource_snapshot-holds m states' built in
      let (snap', kept, made) = claim_from-holds d m n us snap g claimed in
      let at : (r : ResourceIdentity) → lookup r m ≡ tracked (find_use r us) (find_state r states) =
        λ r. held r ∙ effect r in
      rw same (
        sorted_states-canonical n snap',
        λ r c.
            find_state-sorted_states r n snap' ∙ kept r c ∙ at r ∙ rw (find_use-unused r us c) refl,
        λ r s h.
            let (t, found, grown) = made r s (at r ∙ h) in
            (t, find_state-sorted_states r n snap' ∙ found, grown),
      )
