-- ===== src/Plan/Ownership/Ledger/Release.antt =====
-- Releasing a dependent's claims, and forgetting a resource that was cleaned up.
use mathlib.Core.Option
use mathlib.Core.Path.{subst}
use depengine.Prelude.{
  ap, lookup-remove, ◌∙◌, sym, >>=-eq-ok, String, ◌≡◌, refl, Bool, true, false, ◌&&◌, ◌||◌, not,
  Option, none, some, List, [], ◌∷◌, ◌==◌, string_eq, arith, if◌then◌else◌, inl, inr, Bool-cases,
  ok, lookup, contains, is_empty,
}
use depengine.Plan.Reference.{ReferenceLibrary}
use depengine.Plan.Resource.{ResourceIdentity, resource_identity_eq}
use depengine.Plan.Ownership.{
  validate_resource, OwnedResourceState, validate_owned, validate_dependent, release_resource,
  claims, is_depengine_owned, check_dependents,
}
use depengine.Plan.Ownership.Dependents.{
  without, remove_dependent-eq-without, without_unclaimed, remove_dependent-sorted,
}
use depengine.Plan.Ownership.Claims.{validate_owned-dependents, validate_owned-set_dependents}
use depengine.Plan.Ownership.Ledger.{
  remove, sorted_states, validate_owned_resource_snapshot, owned_resource_snapshot, check_zero_ref,
  release_dependent_resources, finalize_released_resource, check_removable, ResourceReleaseDecision,
  Snapshot, sort_identities, insert_identity, release_entries,
}
use depengine.Plan.Ownership.Ledger.Snapshot.{
  find_state-sorted_states, remove-IsSnapshot, sorted_states-canonical,
  owned_resource_snapshot-holds, find_state, IsSnapshot,
}

-- the state with one dependent's claim dropped
abbrev pub dropped : String → OwnedResourceState → OwnedResourceState
dropped d s = record s { dependents = without d s.dependents }

-- Whether the dependent is the only one left of a resource that depengine owns.
abbrev pub is_last_claim : String → Option OwnedResourceState → Bool
is_last_claim d none = false
is_last_claim d (some s) =
    is_depengine_owned s.ownership
    && not (is_empty s.dependents)
    && is_empty (without d s.dependents)

contains-insert_identity :
    (r s : ResourceIdentity) (rs : List ResourceIdentity)
    → contains (insert_identity s rs) r ≡ (if s == r then true else contains rs r)
unfolding insert_identity
contains-insert_identity r s [] = refl
contains-insert_identity r s (t ∷ ts) = ground (arith, contains-insert_identity r s ts)

pub contains-sort_identities :
    (r : ResourceIdentity) (rs : List ResourceIdentity)
    → contains (sort_identities rs) r ≡ contains rs r
unfolding sort_identities
contains-sort_identities r [] = refl
contains-sort_identities r (s ∷ rs) =
    ground (arith, contains-insert_identity r s (sort_identities rs), contains-sort_identities r rs)

module _ ⦃lib : ReferenceLibrary⦄ where
  claimed_nonempty : (xs : List String) (d : String) → claims xs d ≡ true → is_empty xs ≡ false
  unfolding claims
  claimed_nonempty [] d c = cc
  claimed_nonempty (x ∷ xs) d c = refl

  -- one entry of the loop: the next state, and whether it became removable
  release_entry :
      (d : String) (s : OwnedResourceState)
      → validate_owned s ≡ ok tt
      → validate_dependent d ≡ ok tt
      → claims s.dependents d ≡ true
      → (release_resource s d ≡ ok (dropped d s, is_last_claim d (some s)))
        × (validate_owned (dropped d s) ≡ ok tt)
  unfolding release_resource
  release_entry d s v g c =
      let sorted = validate_owned-dependents s v in
      let same = remove_dependent-eq-without none d s.dependents sorted c in
      (
        ground (arith, same, claimed_nonempty s.dependents d c),
        validate_owned-set_dependents s (without d s.dependents) v (
            subst (λ xs. check_dependents none xs ≡ ok tt) same
              (remove_dependent-sorted none d s.dependents sorted)),
      )

  -- an entry that the loop leaves alone
  unclaimed_entry :
      (d : String) (s : OwnedResourceState)
      → validate_owned s ≡ ok tt
      → claims s.dependents d ≡ false
      → (dropped d s ≡ s) × (is_last_claim d (some s) ≡ false)
  unclaimed_entry d s v c =
      let same = without_unclaimed none d s.dependents (validate_owned-dependents s v) c in
      (ground (arith, same), ground (arith, same))

  -- What the loop returns: each state with the claim dropped, and the resources whose last claim it was.
  record Released (d : String) (m n : Snapshot) (rs : List ResourceIdentity) : Type 0 where
    snapshot : IsSnapshot n
    states : (r : ResourceIdentity) → lookup r n ≡ Option.map (dropped d) (lookup r m)
    removable : (r : ResourceIdentity) → contains rs r ≡ is_last_claim d (lookup r m)

  release_entries-holds :
      (d : String) (m : Snapshot)
      → IsSnapshot m
      → validate_dependent d ≡ ok tt
      → (n : Snapshot) × (rs : List ResourceIdentity) × (release_entries d m ≡ ok (n, rs))
        × Released d m n rs
  unfolding release_entries lookup
  release_entries-holds d [] h g =
      ([], [], refl, record { snapshot = tt; states = λ r. refl; removable = λ r. refl })
  release_entries-holds d ((k, s) ∷ m) (keyed, valid, fresh, h) g =
      let (n, rs, done, rest) = release_entries-holds d m h g in
      elim (Bool-cases (claims s.dependents d)) [
        | inl held ↦
            let (released, good) = release_entry d s valid g held in
            (
              (k, dropped d s) ∷ n,
              if is_last_claim d (some s) then k ∷ rs else rs,
              rw held (rw released (rw done refl)),
              record {
                snapshot = (keyed, good, ground (arith, rest.states k, fresh), rest.snapshot);
                states = λ r. ground (arith, rest.states r);
                removable = λ r. ground (arith, rest.removable r, rest.removable k, fresh);
              },
            )
        | inr free ↦
            let (same, last) = unclaimed_entry d s valid free in
            (
              (k, s) ∷ n,
              rs,
              rw free (rw done refl),
              record {
                snapshot = (keyed, valid, ground (arith, rest.states k, fresh), rest.snapshot);
                states = λ r. ground (arith, rest.states r, same);
                removable = λ r.
                    unfold lookup in
                    ground (arith, rest.removable r, rest.removable k, fresh, last);
              },
            )
      ]

  -- ReleaseDependentResources succeeds for a well-formed name on every snapshot that can be built.
  -- Its list is canonical, holds each resource's state with this dependent dropped and all else
  -- unchanged, and calls removable exactly the depengine-owned resources whose last claim this was.
  pub release_dependent_resources-total :
      (states : List OwnedResourceState) (d : String) (m : Snapshot)
      → owned_resource_snapshot states ≡ ok m
      → validate_dependent d ≡ ok tt
      → (out : ResourceReleaseDecision) × (release_dependent_resources states d ≡ ok out)
        × (validate_owned_resource_snapshot out.updated ≡ ok tt)
        × ((r : ResourceIdentity)
            → find_state r out.updated ≡ Option.map (dropped d) (find_state r states))
        × ((r : ResourceIdentity)
            → contains out.removable r ≡ is_last_claim d (find_state r states))
  unfolding release_dependent_resources
  release_dependent_resources-total states d m built g =
      let (snap, held) = owned_resource_snapshot-holds m states built in
      let (n, rs, done, released) = release_entries-holds d m snap g in
      (
        record { updated = sorted_states n; removable = sort_identities rs },
        rw g (rw built (rw done refl)),
        sorted_states-canonical n released.snapshot,
        λ r.
            find_state-sorted_states r n released.snapshot
            ∙ released.states r
            ∙ ap (Option.map (dropped d)) (held r),
        λ r. contains-sort_identities r rs ∙ released.removable r ∙ ap (is_last_claim d) (held r),
      )

  check_removable-contains :
      (r : ResourceIdentity) (found : Bool) (rs : List ResourceIdentity)
      → check_removable r found rs ≡ ok true
      → (found || contains rs r) ≡ true
  unfolding check_removable
  check_removable-contains r found [] e = ground arith
  check_removable-contains r found (s ∷ rs) e =
      ground (arith, check_removable-contains r (found || s == r) rs)

  finalize_released_resource-inversion :
      (release : ResourceReleaseDecision) (r : ResourceIdentity) (out : List OwnedResourceState)
      → finalize_released_resource release r ≡ ok out
      → (m : Snapshot) × (owned_resource_snapshot release.updated ≡ ok m)
        × (check_removable r false release.removable ≡ ok true)
        × (check_zero_ref (lookup r m) ≡ ok tt)
        × (out ≡ sorted_states (remove r m))
  unfolding finalize_released_resource
  finalize_released_resource-inversion release r out e =
      let (unit, v, p) = >>=-eq-ok (validate_resource r) _ e in
      let (m, built, q) = >>=-eq-ok (owned_resource_snapshot release.updated) _ p in
      let (b, checked, s) = >>=-eq-ok (check_removable r false release.removable) _ q in
      (m, built, ground arith, ground arith, ground arith)

  check_zero_ref-eq :
      (o : Option OwnedResourceState)
      → check_zero_ref o ≡ ok tt
      → (s : OwnedResourceState) × (o ≡ some s)
        × (is_depengine_owned s.ownership ≡ true)
        × (s.dependents ≡ [])
  unfolding check_zero_ref
  check_zero_ref-eq none e = cc
  check_zero_ref-eq (some s) e = (s, refl, ground arith, ground arith)

  -- FinalizeReleasedResource forgets one resource and nothing else. Where it succeeds the resource
  -- was approved as removable, its recorded state was owned by depengine and had no dependent.
  pub finalize_released_resource-removes :
      (release : ResourceReleaseDecision) (r : ResourceIdentity) (out : List OwnedResourceState)
      → finalize_released_resource release r ≡ ok out
      → (contains release.removable r ≡ true)
        × ((s : OwnedResourceState) × (find_state r release.updated ≡ some s)
            × (is_depengine_owned s.ownership ≡ true)
            × (s.dependents ≡ []))
        × (validate_owned_resource_snapshot out ≡ ok tt)
        × ((j : ResourceIdentity)
            → find_state j out ≡ (if r == j then none else find_state j release.updated))
  finalize_released_resource-removes release r out e =
      let (m, built, approved, zero, same) = finalize_released_resource-inversion release r out e in
      let (snap, held) = owned_resource_snapshot-holds m release.updated built in
      let (s, there, owned, unused) = check_zero_ref-eq (lookup r m) zero in
      let left = remove-IsSnapshot r m snap in
      (
        check_removable-contains r false release.removable approved,
        (s, sym (held r) ∙ there, owned, unused),
        rw same (sorted_states-canonical (remove r m) left),
        λ j. rw same (
            find_state-sorted_states j (remove r m) left
            ∙ lookup-remove j r m
            ∙ ap (λ o. if r == j then none else o) (held j)),
      )
