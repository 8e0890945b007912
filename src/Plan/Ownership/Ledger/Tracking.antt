-- ===== src/Plan/Ownership/Ledger/Tracking.antt =====
-- Recording the uses of shared resources.
use mathlib.Core.Path.{subst}
use depengine.Prelude.{
  eq_of_==, inr, sym, inl, Bool-cases, Option-cases, ◌||◌, ◌≡◌, refl, ap, ◌∙◌, true, false, Option,
  none, some, List, [], ◌∷◌, ◌==◌, string_eq, arith, if◌then◌else◌, ok, lookup, insert,
  lookup-insert, contains, >>=-eq-ok,
}
use depengine.Plan.Reference.{ReferenceLibrary}
use depengine.Plan.Resource.{ResourceIdentity, resource_identity_eq, validate_resource}
use depengine.Plan.Ownership.{
  not, is_external, is_depengine_owned, String, Bool, OwnedResourceState, validate_owned,
  check_ownership, check_dependents,
}
use depengine.Plan.Ownership.Ledger.{
  Snapshot, ResourceUse, sorted_states, owned_resource_snapshot, validate_owned_resource_snapshot,
  observe_use, track_from, track_resource_uses,
}
use depengine.Plan.Ownership.Ledger.Snapshot.{
  find_state, IsSnapshot, find_state-sorted_states, insert-IsSnapshot, lookup-IsSnapshot,
  owned_resource_snapshot-holds, sorted_states-canonical,
}

-- the first use of a resource
abbrev pub find_use : ResourceIdentity → List ResourceUse → Option ResourceUse
find_use r [] = none
find_use r (u ∷ us) = let rest = find_use r us in if u.resource == r then some u else rest

-- the dependents recorded before, of which a resource without a record has none
abbrev pub recorded_dependents : Option OwnedResourceState → List String
recorded_dependents none = []
recorded_dependents (some s) = s.dependents

-- whether depengine is recorded as the owner
abbrev pub recorded_owner : Option OwnedResourceState → Bool
recorded_owner none = false
recorded_owner (some s) = is_depengine_owned s.ownership

-- The record of `u` has depengine as its owner where `b` holds, and is external otherwise.
pub record OwnedBy (u : ResourceUse) (b : Bool) (t : OwnedResourceState) : Type 0 where
  pub same_resource : t.resource ≡ u.resource
  pub by_depengine : is_depengine_owned t.ownership ≡ b
  pub by_others : is_external t.ownership ≡ not b

-- What a use makes of a record: depengine owns the resource where this use created it or where it
-- was recorded as the owner, and the dependents are those recorded. Without a use nothing changes.
abbrev pub Observed :
    Option ResourceUse → Option OwnedResourceState → Option OwnedResourceState → Type 0
Observed none before after = after ≡ before
Observed (some u) before after =
    (t : OwnedResourceState) × (after ≡ some t)
    × OwnedBy u (u.created || recorded_owner before) t
    × (t.dependents ≡ recorded_dependents before)

module _ ⦃lib : ReferenceLibrary⦄ where
  -- what recording the uses makes of the state of one resource
  abbrev pub tracked : Option ResourceUse → Option OwnedResourceState → Option OwnedResourceState
  tracked none o = o
  tracked (some u) o = some (observe_use u o)

  observe_use-valid :
      (u : ResourceUse) (o : Option OwnedResourceState)
      → validate_resource u.resource ≡ ok tt
      → ((s : OwnedResourceState)
          → o ≡ some s
          → (s.resource ≡ u.resource) × (validate_owned s ≡ ok tt))
      → ((observe_use u o).resource ≡ u.resource) × (validate_owned (observe_use u o) ≡ ok tt)
  unfolding validate_owned check_dependents check_ownership
  observe_use-valid u none v h = ground arith
  observe_use-valid u (some s) v h = ground (arith, h s refl)

  track_from-step :
      (seen : List ResourceIdentity) (m n : Snapshot) (u : ResourceUse) (us : List ResourceUse)
      → track_from seen m (u ∷ us) ≡ ok n
      → (validate_resource u.resource ≡ ok tt)
        × (contains seen u.resource ≡ false)
        × (track_from
              (u.resource ∷ seen)
              (insert u.resource (observe_use u (lookup u.resource m)) m)
              us
            ≡ ok n)
  unfolding track_from
  track_from-step seen m n u us e = ground arith

  -- Tracking keeps a snapshot one, and makes of each resource what its use, if any, makes of it.
  track_from-holds :
      (seen : List ResourceIdentity) (m n : Snapshot) (us : List ResourceUse)
      → IsSnapshot m
      → track_from seen m us ≡ ok n
      → IsSnapshot n
        × ((r : ResourceIdentity) → contains seen r ≡ true → lookup r n ≡ lookup r m)
        × ((r : ResourceIdentity)
            → contains seen r ≡ false
            → lookup r n ≡ tracked (find_use r us) (lookup r m))
  track_from-holds seen m n [] h e =
      unfold track_from in
      let same : m ≡ n = cc e in (subst IsSnapshot same h, λ r c. cc same, λ r c. cc same)
  track_from-holds seen m n (u ∷ us) h e =
      let (valid, fresh, rest) = track_from-step seen m n u us e in
      let next = observe_use u (lookup u.resource m) in
      let (keyed, good) =
        observe_use-valid u (lookup u.resource m) valid
          (λ s f. lookup-IsSnapshot u.resource s m h f) in
      let written : IsSnapshot (insert u.resource next m) =
        subst (λ k. IsSnapshot (insert k next m)) keyed (insert-IsSnapshot next m good h) in
      let ih = track_from-holds (u.resource ∷ seen) (insert u.resource next m) n us written rest in
      (
        ih.0,
        λ r c. ground (arith, ih.1 r, lookup-insert r u.resource next m),
        λ r c. ground (arith, ih.1 r, ih.2 r, lookup-insert r u.resource next m),
      )

  track_resource_uses-inversion :
      (states out : List OwnedResourceState) (us : List ResourceUse)
      → track_resource_uses states us ≡ ok out
      → (m : Snapshot) × (n : Snapshot) × (owned_resource_snapshot states ≡ ok m)
        × (track_from [] m us ≡ ok n)
        × (out ≡ sorted_states n)
  unfolding track_resource_uses
  track_resource_uses-inversion states out us e =
      let (m, p, q) = >>=-eq-ok (owned_resource_snapshot states) _ e in
      let (n, r, s) = >>=-eq-ok (track_from [] m us) _ q in (m, n, p, r, cc s)

  -- what the returned list records of each resource
  pub track_resource_uses-tracked :
      (states out : List OwnedResourceState) (us : List ResourceUse)
      → track_resource_uses states us ≡ ok out
      → (validate_owned_resource_snapshot out ≡ ok tt)
        × ((r : ResourceIdentity)
            → find_state r out ≡ tracked (find_use r us) (find_state r states))
  track_resource_uses-tracked states out us e =
      let (m, n, p, q, same) = track_resource_uses-inversion states out us e in
      let (snap, held) = owned_resource_snapshot-holds m states p in
      let t = track_from-holds [] m n us snap q in
      rw same (
        sorted_states-canonical n t.0,
        λ r. find_state-sorted_states r n t.0 ∙ t.2 r refl ∙ ap (tracked (find_use r us)) (held r),
      )

  pub find_use-resource :
      (r : ResourceIdentity) (us : List ResourceUse) (u : ResourceUse)
      → find_use r us ≡ some u
      → u.resource ≡ r
  find_use-resource r [] u e = cc e
  find_use-resource r (v ∷ us) u e = elim (Bool-cases (v.resource == r)) [
    | inl same ↦
        let found : v ≡ u = ground (arith, same) in
        ap (λ x. x.resource) (sym found) ∙ eq_of_== v.resource r same
    | inr other ↦ find_use-resource r us u (ground (arith, other))
  ]

  observe_use-Observed :
      (u : ResourceUse) (o : Option OwnedResourceState)
      → ((s : OwnedResourceState)
          → o ≡ some s
          → (s.resource ≡ u.resource) × (validate_owned s ≡ ok tt))
      → Observed (some u) o (some (observe_use u o))
  unfolding validate_owned check_ownership
  observe_use-Observed u none h = ground arith
  observe_use-Observed u (some s) h = ground (arith, h s refl)

  tracked-Observed :
      (r : ResourceIdentity) (us : List ResourceUse) (o : Option OwnedResourceState)
      → ((s : OwnedResourceState) → o ≡ some s → (s.resource ≡ r) × (validate_owned s ≡ ok tt))
      → Observed (find_use r us) o (tracked (find_use r us) o)
  tracked-Observed r us o h = elim (Option-cases (find_use r us)) [
    | inl unused ↦ rw unused refl
    | inr (u, there) ↦
        let same = find_use-resource r us u there in
        rw there (observe_use-Observed u o (λ s e. ((h s e).0 ∙ sym same, (h s e).1)))
  ]

  -- TrackResourceUses returns a canonical list. A used resource is recorded, with the dependents
  -- recorded before; depengine owns it exactly where this use created it or where depengine was
  -- recorded as its owner, and it is external otherwise. A resource that is not used keeps its
  -- record, or its absence.
  pub track_resource_uses-canonical :
      (states out : List OwnedResourceState) (us : List ResourceUse)
      → track_resource_uses states us ≡ ok out
      → (validate_owned_resource_snapshot out ≡ ok tt)
        × ((r : ResourceIdentity)
            → Observed (find_use r us) (find_state r states) (find_state r out))
  track_resource_uses-canonical states out us e =
      let (canon, effect) = track_resource_uses-tracked states out us e in
      let (m, n, p, q, same) = track_resource_uses-inversion states out us e in
      let (snap, held) = owned_resource_snapshot-holds m states p in
      (
        canon,
        λ r. rw (effect r) (
            tracked-Observed r us (find_state r states)
              (λ s there. lookup-IsSnapshot r s m snap (held r ∙ there))),
      )
