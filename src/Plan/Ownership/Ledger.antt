-- ===== src/Plan/Ownership/Ledger.antt =====
-- internal/plan/preparation.go: operations on complete ownership snapshots.
pub mod Snapshot
pub mod Tracking
pub mod Claiming
pub mod Uses
pub mod Release
use depengine.Prelude.{
  String, text_lt, Bool, true, false, ◌||◌, ◌&&◌, not, Option, none, some, List, [], ◌∷◌, ◌==◌,
  ◌!=◌, string_eq, if◌then◌else◌, Result, ok, err, ◌>>=◌, ◌>>◌, fail_if, Table, lookup, insert,
  remove, values, contains, is_empty,
}
use depengine.Plan.Reference.{ReferenceLibrary}
use mathlib.Core.Option
use depengine.Plan.Resource.{
  ResourceKind, OwnershipKind, ResourceIdentity, resource_identity_eq, resource_lt, kind_text,
  validate_resource,
}
use depengine.Plan.Ownership.{
  OwnedResourceState, validate_owned, validate_dependent, claim_resource, release_resource, claims,
  is_depengine_owned, is_external,
}

abbrev pub Snapshot : Type 0
Snapshot = Table ResourceIdentity OwnedResourceState

-- A use of a shared resource, and whether the operation created it.
pub record ResourceUse : Type 0 where
  pub resource : ResourceIdentity
  pub created : Bool

pub record ResourceReleaseDecision : Type 0 where
  pub updated : List OwnedResourceState
  pub removable : List ResourceIdentity

insert_state : OwnedResourceState → List OwnedResourceState → List OwnedResourceState
insert_state s [] = s ∷ []
insert_state s (t ∷ ts) =
    let rest = insert_state s ts in
    if resource_lt t.resource s.resource then t ∷ rest else s ∷ t ∷ ts

sort_states : List OwnedResourceState → List OwnedResourceState
unfolding insert_state
sort_states [] = []
sort_states (s ∷ ss) = insert_state s (sort_states ss)

-- sortedOwnedResourceStates
unfoldable pub sorted_states : Snapshot → List OwnedResourceState
unfolding sort_states
sorted_states m = sort_states (values m)

insert_identity : ResourceIdentity → List ResourceIdentity → List ResourceIdentity
insert_identity r [] = r ∷ []
insert_identity r (t ∷ ts) =
    let rest = insert_identity r ts in if resource_lt t r then t ∷ rest else r ∷ t ∷ ts

pub sort_identities : List ResourceIdentity → List ResourceIdentity
unfolding insert_identity
sort_identities [] = []
sort_identities (r ∷ rs) = insert_identity r (sort_identities rs)

module _ ⦃lib : ReferenceLibrary⦄ where
  unfoldable pub snapshot_from : Snapshot → List OwnedResourceState → Result Snapshot
  snapshot_from out [] = ok out
  snapshot_from out (s ∷ ss) =
      let rest = snapshot_from (insert s.resource s out) ss in
      validate_owned s >> elim (lookup s.resource out) [
        | some _ ↦ err "duplicate owned resource state"
        | none ↦ rest
      ]

  -- ownedResourceSnapshot
  unfoldable pub owned_resource_snapshot : List OwnedResourceState → Result Snapshot
  unfolding snapshot_from
  owned_resource_snapshot states = snapshot_from [] states

  -- Kind < previous.Kind || Kind == previous.Kind && Key <= previous.Key
  abbrev pub out_of_order : Option ResourceIdentity → ResourceIdentity → Bool
  out_of_order none r = false
  out_of_order (some previous) r =
      text_lt (kind_text r.kind) (kind_text previous.kind)
      || (kind_text r.kind == kind_text previous.kind && not (text_lt previous.key r.key))

  -- the loop of ValidateOwnedResourceSnapshot; `previous` is the resource before, if any
  unfoldable pub check_snapshot :
      Option ResourceIdentity → List OwnedResourceState → Result (Unit {0})
  check_snapshot previous [] = ok tt
  check_snapshot previous (s ∷ ss) =
      let rest = check_snapshot (some s.resource) ss in
      (do
        validate_owned s
        fail_if (out_of_order previous s.resource) "owned resources must be sorted and unique"
        rest)

  unfoldable pub validate_owned_resource_snapshot : List OwnedResourceState → Result (Unit {0})
  unfolding check_snapshot
  validate_owned_resource_snapshot states = check_snapshot none states

  -- what a use makes of the recorded state
  abbrev pub observe_use : ResourceUse → Option OwnedResourceState → OwnedResourceState
  observe_use observed none = record {
    resource = observed.resource;
    ownership = if observed.created then OwnershipKind.depengine_owned else OwnershipKind.external;
    dependents = [];
  }
  observe_use observed (some state) =
      if observed.created && is_external state.ownership
      then record state { ownership = OwnershipKind.depengine_owned }
      else state

  unfoldable pub track_from : List ResourceIdentity → Snapshot → List ResourceUse → Result Snapshot
  track_from seen m [] = ok m
  track_from seen m (observed ∷ uses) =
      let rest =
        track_from (observed.resource ∷ seen)
          (insert observed.resource (observe_use observed (lookup observed.resource m)) m) uses in
      (do
        validate_resource observed.resource
        fail_if (contains seen observed.resource) "duplicate resource use"
        rest)

  unfoldable pub track_resource_uses :
      List OwnedResourceState → List ResourceUse → Result (List OwnedResourceState)
  unfolding track_from sorted_states
  track_resource_uses states uses = do
    snapshot ← owned_resource_snapshot states
    tracked ← track_from [] snapshot uses
    ok (sorted_states tracked)

  -- the zero value that Go reads for a missing key
  abbrev zero_state : OwnedResourceState
  zero_state = record {
    resource = record { kind = ResourceKind.unlisted ""; key = "" };
    ownership = OwnershipKind.unlisted "";
    dependents = [];
  }

  unfoldable pub claim_from : String → Snapshot → List ResourceUse → Result Snapshot
  claim_from dependent m [] = ok m
  claim_from dependent m (observed ∷ uses) = do
    state ← claim_resource (Option.get_or (lookup observed.resource m) zero_state) dependent
    claim_from dependent (insert observed.resource state m) uses

  unfoldable pub claim_resource_uses :
      List OwnedResourceState → String → List ResourceUse → Result (List OwnedResourceState)
  unfolding claim_from sorted_states
  claim_resource_uses states dependent uses = do
    validate_dependent dependent
    tracked ← track_resource_uses states uses
    snapshot ← owned_resource_snapshot tracked
    claimed ← claim_from dependent snapshot uses
    ok (sorted_states claimed)

  -- The loop over the map: each entry is replaced in place, and what became removable is collected.
  unfoldable pub release_entries : String → Snapshot → Result (Snapshot × List ResourceIdentity)
  release_entries dependent [] = ok ([], [])
  release_entries dependent ((r, state) ∷ m) =
      let rest = release_entries dependent m in
      if claims state.dependents dependent
      then (do
        (next, can_remove) ← release_resource state dependent
        (m', removable) ← rest
        ok ((r, next) ∷ m', if can_remove then r ∷ removable else removable))
      else (do (m', removable) ← rest; ok ((r, state) ∷ m', removable))

  unfoldable pub release_dependent_resources :
      List OwnedResourceState → String → Result ResourceReleaseDecision
  unfolding release_entries sorted_states
  release_dependent_resources states dependent = do
    validate_dependent dependent
    snapshot ← owned_resource_snapshot states
    (released, removable) ← release_entries dependent snapshot
    ok (record { updated = sorted_states released; removable = sort_identities removable })

  check_removable : ResourceIdentity → Bool → List ResourceIdentity → Result Bool
  check_removable resource found [] = ok found
  check_removable resource found (candidate ∷ rest) =
      let more = check_removable resource (found || candidate == resource) rest in
      validate_resource candidate >> more

  check_zero_ref : Option OwnedResourceState → Result (Unit {0})
  check_zero_ref none = err "resource is absent from released ownership state"
  check_zero_ref (some state) =
      fail_if (not (is_depengine_owned state.ownership) || not (is_empty state.dependents))
        "resource is not a zero-ref depengine-owned resource"

  unfoldable pub finalize_released_resource :
      ResourceReleaseDecision → ResourceIdentity → Result (List OwnedResourceState)
  unfolding check_removable check_zero_ref sorted_states
  finalize_released_resource release resource = do
    validate_resource resource
    snapshot ← owned_resource_snapshot release.updated
    removable ← check_removable resource false release.removable
    fail_if (not removable) "resource is not approved for cleanup"
    check_zero_ref (lookup resource snapshot)
    ok (sorted_states (remove resource snapshot))
