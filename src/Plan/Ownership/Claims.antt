-- ===== src/Plan/Ownership/Claims.antt =====
-- One claim on a shared resource, and its release.
use depengine.Prelude.{
  String, ◌≡◌, refl, Bool, true, false, ◌&&◌, none, List, ◌==◌, string_eq, arith, Bool-cases,
  if◌then◌else◌, ok, contains, is_empty, inl, inr, ◌↔◌, ◌∙◌,
}
use depengine.Plan.Reference.{ReferenceLibrary}
use depengine.Plan.Ownership.{
  OwnedResourceState, claims, check_dependents, validate_dependent, validate_owned, claim_resource,
  release_resource, is_depengine_owned, insert_dependent, remove_dependent,
}
use depengine.Plan.Ownership.Dependents.{
  claims-eq-contains, insert_dependent-sorted, remove_dependent-sorted, contains-insert_dependent,
  contains-remove_dependent, remove-insert_dependent, claims-insert_dependent,
}

module _ ⦃lib : ReferenceLibrary⦄ where
  -- What a valid state says of its dependents.
  pub validate_owned-dependents :
      (s : OwnedResourceState)
      → validate_owned s ≡ ok tt
      → check_dependents none s.dependents ≡ ok tt
  unfolding validate_owned
  validate_owned-dependents s h = ground arith

  -- Other dependents that are sorted too leave the state valid.
  pub validate_owned-set_dependents :
      (s : OwnedResourceState) (deps : List String)
      → validate_owned s ≡ ok tt
      → check_dependents none deps ≡ ok tt
      → validate_owned (record s { dependents = deps }) ≡ ok tt
  unfolding validate_owned
  validate_owned-set_dependents s deps h k = ground arith

  -- Adding a claim to a valid state succeeds for a well-formed name, gives a valid state with the
  -- same resource and ownership, and afterwards exactly this name and the earlier ones claim it.
  pub claim_resource-adds :
      (s : OwnedResourceState) (d : String)
      → validate_owned s ≡ ok tt
      → validate_dependent d ≡ ok tt
      → (t : OwnedResourceState) × (claim_resource s d ≡ ok t)
        × (validate_owned t ≡ ok tt)
        × (t.resource ≡ s.resource)
        × (t.ownership ≡ s.ownership)
        × ((e : String)
            → contains t.dependents e ≡ (if d == e then true else contains s.dependents e))
  unfolding claim_resource
  claim_resource-adds s d h g = elim (Bool-cases (claims s.dependents d)) [
    | inl held ↦ (
      s,
      ground arith,
      h,
      refl,
      refl,
      λ e. ground (arith, claims-eq-contains none d s.dependents (validate_owned-dependents s h)),
    )
    | inr free ↦ (
      record s { dependents = insert_dependent s.dependents d },
      ground arith,
      validate_owned-set_dependents s (insert_dependent s.dependents d) h
          (insert_dependent-sorted d g none s.dependents (validate_owned-dependents s h) free refl),
      refl,
      refl,
      λ e. contains-insert_dependent e d s.dependents,
    )
  ]

  pub claim_resource-inversion :
      (s t : OwnedResourceState) (d : String)
      → claim_resource s d ≡ ok t
      → (validate_owned s ≡ ok tt)
        × (validate_dependent d ≡ ok tt)
        × (t ≡ (
            if claims s.dependents d
            then s
            else record s { dependents = insert_dependent s.dependents d }))
  unfolding claim_resource
  claim_resource-inversion s t d h = ground arith

  release_resource-inversion :
      (s t : OwnedResourceState) (d : String) (removable : Bool)
      → release_resource s d ≡ ok (t, removable)
      → (validate_owned s ≡ ok tt)
        × (validate_dependent d ≡ ok tt)
        × (claims s.dependents d ≡ true)
        × (t ≡ record s { dependents = remove_dependent s.dependents d })
        × (removable ≡ (is_depengine_owned t.ownership && is_empty t.dependents))
  unfolding release_resource
  release_resource-inversion s t d removable h = ground arith

  -- Claiming twice is claiming once.
  pub claim_resource-idempotent :
      (s t : OwnedResourceState) (d : String)
      → claim_resource s d ≡ ok t
      → claim_resource t d ≡ ok t
  unfolding claim_resource
  claim_resource-idempotent s t d h =
      let inv = claim_resource-inversion s t d h in
      let sorted = validate_owned-dependents s inv.0 in
      elim (Bool-cases (claims s.dependents d)) [
        | inl held ↦ ground (arith, inv)
        | inr free ↦ ground (
          arith,
          inv,
          claims-insert_dependent d s.dependents,
          validate_owned-set_dependents s (insert_dependent s.dependents d) inv.0
              (insert_dependent-sorted d inv.1 none s.dependents sorted free refl),
        )
      ]

  -- Releasing a claim that was just added restores the state.
  pub release-claim :
      (s t : OwnedResourceState) (d : String)
      → contains s.dependents d ≡ false
      → claim_resource s d ≡ ok t
      → release_resource t d ≡ ok (s, is_depengine_owned s.ownership && is_empty s.dependents)
  unfolding release_resource
  release-claim s t d absent h =
      let inv = claim_resource-inversion s t d h in
      let sorted = validate_owned-dependents s inv.0 in
      let free : claims s.dependents d ≡ false =
        claims-eq-contains none d s.dependents sorted ∙ absent in
      let made : t ≡ record s { dependents = insert_dependent s.dependents d } =
        inv.2 ∙ (rw free) in
      rw made (
        ground (
          arith,
          inv.1,
          claims-insert_dependent d s.dependents,
          remove-insert_dependent d s.dependents,
          validate_owned-set_dependents s (insert_dependent s.dependents d) inv.0
              (insert_dependent-sorted d inv.1 none s.dependents sorted free refl),
        ))

  -- Releasing from a valid state succeeds exactly where the name claims the resource.
  pub release_resource_iff :
      (s : OwnedResourceState) (d : String)
      → validate_owned s ≡ ok tt
      → validate_dependent d ≡ ok tt
      → ((r : OwnedResourceState × Bool) × (release_resource s d ≡ ok r))
        ↔ (contains s.dependents d ≡ true)
  unfolding release_resource
  release_resource_iff s d h g =
      let member = claims-eq-contains none d s.dependents (validate_owned-dependents s h) in
      (
        λ (r, e). ground (arith, member),
        λ c. (
          let left = remove_dependent s.dependents d in
              (record s { dependents = left }, is_depengine_owned s.ownership && is_empty left),
          ground (arith, member),
        ),
      )

  -- A release keeps the state valid, drops this claim and no other, and calls the resource
  -- removable exactly where depengine owns it and no dependent is left.
  pub release_resource-drops :
      (s : OwnedResourceState) (d : String) (t : OwnedResourceState) (removable : Bool)
      → release_resource s d ≡ ok (t, removable)
      → (validate_owned t ≡ ok tt)
        × (t.resource ≡ s.resource)
        × (t.ownership ≡ s.ownership)
        × (removable ≡ (is_depengine_owned t.ownership && is_empty t.dependents))
        × ((e : String)
            → contains t.dependents e ≡ (if d == e then false else contains s.dependents e))
  release_resource-drops s d t removable h =
      let inv = release_resource-inversion s t d removable h in
      let sorted = validate_owned-dependents s inv.0 in
      rw inv.3 (
        validate_owned-set_dependents s (remove_dependent s.dependents d) inv.0
            (remove_dependent-sorted none d s.dependents sorted),
        refl,
        refl,
        ground (arith, inv.3, inv.4),
        λ e. contains-remove_dependent none e d s.dependents sorted inv.2,
      )
