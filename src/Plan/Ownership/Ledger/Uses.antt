-- ===== src/Plan/Ownership/Ledger/Uses.antt =====
-- What ClaimResourceUses records of every resource.
use mathlib.Core.Path.{subst}
use depengine.Prelude.{
  String, ◌≡◌, refl, sym, ap, ◌∙◌, true, false, ◌||◌, Option, none, some, List, [], ◌∷◌, ◌==◌,
  string_eq, arith, if◌then◌else◌, inl, inr, Bool-cases, Option-cases, eq_of_==, ok, contains,
}
use depengine.Plan.Reference.{ReferenceLibrary}
use depengine.Plan.Resource.{ResourceIdentity, resource_identity_eq}
use depengine.Plan.Ownership.{is_external, OwnedResourceState, is_depengine_owned}
use depengine.Plan.Ownership.Ledger.{
  ResourceUse, validate_owned_resource_snapshot, claim_resource_uses,
}
use depengine.Plan.Ownership.Ledger.Snapshot.{find_state}
use depengine.Plan.Ownership.Ledger.Tracking.{
  find_use, find_use-resource, recorded_dependents, recorded_owner, OwnedBy, Observed,
  track_resource_uses-canonical, track_resource_uses-tracked,
}
use depengine.Plan.Ownership.Ledger.Claiming.{
  used, Claimed, claim_resource_uses-inversion, claim_resource_uses-canonical,
}

module _ ⦃lib : ReferenceLibrary⦄ where
  find_state-resource :
      (r : ResourceIdentity) (states : List OwnedResourceState) (s : OwnedResourceState)
      → find_state r states ≡ some s
      → s.resource ≡ r
  find_state-resource r [] s e = cc e
  find_state-resource r (t ∷ states) s e = elim (Bool-cases (t.resource == r)) [
    | inl same ↦
        let found : t ≡ s = ground (arith, same) in
        ap (λ x. x.resource) (sym found) ∙ eq_of_== t.resource r same
    | inr other ↦ find_state-resource r states s (ground (arith, other))
  ]

  used_of-find_use :
      (r : ResourceIdentity) (us : List ResourceUse) (u : ResourceUse)
      → find_use r us ≡ some u
      → used r us ≡ true
  used_of-find_use r [] u e = cc e
  used_of-find_use r (v ∷ us) u e = elim (Bool-cases (v.resource == r)) [
    | inl same ↦ ground (arith, same)
    | inr other ↦ ground (arith, other, used_of-find_use r us u)
  ]

  unused_of-find_use :
      (r : ResourceIdentity) (us : List ResourceUse) → find_use r us ≡ none → used r us ≡ false
  unused_of-find_use r [] e = refl
  unused_of-find_use r (v ∷ us) e = elim (Bool-cases (v.resource == r)) [
    | inl same ↦ absurd (ground (arith, same))
    | inr other ↦ ground (arith, other, unused_of-find_use r us)
  ]

  -- What a use with a claim makes of a record: depengine owns the resource where this use created it
  -- or where it was recorded as the owner, and the dependents are those recorded and the claimant.
  -- Without a use nothing changes.
  abbrev pub ClaimedUse :
      String → Option ResourceUse → Option OwnedResourceState → Option OwnedResourceState → Type 0
  ClaimedUse d none before after = after ≡ before
  ClaimedUse d (some u) before after =
      (t : OwnedResourceState) × (after ≡ some t)
      × OwnedBy u (u.created || recorded_owner before) t
      × ((e : String)
          → contains t.dependents e
            ≡ (if d == e then true else contains (recorded_dependents before) e))

  Claimed-ClaimedUse :
      (d : String) (u : ResourceUse) (before after : Option OwnedResourceState)
      (s t : OwnedResourceState)
      → Observed (some u) before (some s)
      → after ≡ some t
      → t.resource ≡ u.resource
      → Claimed d true s t
      → ClaimedUse d (some u) before after
  Claimed-ClaimedUse d u before after s t (s', same, owned, kept) there keyed claimed =
      let equal : s ≡ s' = ground arith in
      (
        t,
        there,
        record {
          same_resource = keyed;
          by_depengine =
              ap is_depengine_owned (claimed.same_ownership ∙ ap (λ x. x.ownership) equal)
              ∙ owned.by_depengine;
          by_others =
              ap is_external (claimed.same_ownership ∙ ap (λ x. x.ownership) equal)
              ∙ owned.by_others;
        },
        λ e. claimed.dependents e ∙ ground (arith, ap (λ x. contains x.dependents e) equal, kept),
      )

  -- ClaimResourceUses returns a canonical list. A used resource is recorded, with the dependents
  -- recorded before and this one; depengine owns it exactly where this use created it or where
  -- depengine was recorded as its owner, and it is external otherwise. A resource that is not used
  -- keeps its record, or its absence.
  pub claim_resource_uses-claims :
      (states out : List OwnedResourceState) (d : String) (us : List ResourceUse)
      → claim_resource_uses states d us ≡ ok out
      → (validate_owned_resource_snapshot out ≡ ok tt)
        × ((r : ResourceIdentity)
            → ClaimedUse d (find_use r us) (find_state r states) (find_state r out))
  claim_resource_uses-claims states out d us e =
      let (canon, kept, grown) = claim_resource_uses-canonical states out d us e in
      let (g, states', m, n, tracking, built, claimed, same) =
        claim_resource_uses-inversion states out d us e in
      let (canon', observed) = track_resource_uses-canonical states states' us tracking in
      let (canon'', effect) = track_resource_uses-tracked states states' us tracking in
      (
        canon,
        λ r. elim (Option-cases (find_use r us)) [
          | inl unused ↦ rw unused (kept r (unused_of-find_use r us unused))
          | inr (u, there) ↦
              let use_of : Option ResourceUse → Type 0 =
                λ x. Observed x (find_state r states) (find_state r states') in
              let made : use_of (some u) = subst use_of there (observed r) in
              let (t, found, claim) = grown r made.0 (sym (effect r) ∙ made.1) in
              let now : Claimed d true made.0 t =
                subst (λ b. Claimed d b made.0 t) (used_of-find_use r us u there) claim in
              let keyed =
                find_state-resource r out t found ∙ sym (find_use-resource r us u there) in
              rw there (
                Claimed-ClaimedUse d u (find_state r states) (find_state r out) made.0 t
                  (made.0, refl, made.2, made.3) found keyed now)
        ],
      )
