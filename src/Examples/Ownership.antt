-- ===== src/Examples/Ownership.antt =====
-- The theorems on the ownership of shared resources at the example resource.
use depengine.Plan.Ownership.Ledger.Release.{
  release_dependent_resources-total, is_last_claim, dropped, finalize_released_resource-removes,
}
use depengine.Plan.Ownership.Ledger.Uses.{claim_resource_uses-claims, ClaimedUse}
use depengine.Plan.Ownership.Ledger.Tracking.{track_resource_uses-canonical, find_use, Observed}
use depengine.Plan.Ownership.Ledger.Snapshot.{find_state}
use depengine.Plan.Ownership.Claims.{
  release_resource-drops, release-claim, release_resource_iff, claim_resource-idempotent,
}
use depengine.Plan.Ownership.{
  insert_dependent, remove_dependent, check_dependents, check_ownership, claims, is_depengine_owned,
  validate_dependent, claim_resource, validate_owned, release_resource, OwnedResourceState,
}
use depengine.Plan.Ownership.Ledger.{
  release_dependent_resources, validate_owned_resource_snapshot, ResourceReleaseDecision,
  track_resource_uses, claim_resource_uses, owned_resource_snapshot, finalize_released_resource,
}
use native.Mathlib.Decide.{ℕ_discrete}
use mathlib.Core.Option
use depengine.Prelude.{
  contains_text, String, ◌≡◌, refl, ◌↔◌, Bool, true, false, ◌&&◌, none, some, [], ◌∷◌, ◌==◌,
  string_eq, nat_eq, String-discrete, if◌then◌else◌, is_empty, contains, ok, lookup, insert, remove,
  values, trim_space, contains_nul, text_lt,
}
use depengine.Plan.Resource.{
  validate_resource, OwnershipKind, is_bad_name, ResourceIdentity, ResourceKind-discrete,
  ResourceIdentity-discrete, resource_identity_eq, ownership_kind_eq,
}
use depengine.Plan.Reference.{validate_credential_free_reference}
use depengine.Examples.Data.{
  created_repository, repository, used_by, released_repository, plain_library,
}

unused-valid : validate_owned (used_by []) ≡ ok tt
unfolding validate_owned validate_dependent is_bad_name String-discrete trim_space contains_nul
    validate_resource validate_credential_free_reference ℕ_discrete contains_text check_ownership
    check_dependents
unused-valid = refl

app-named : validate_dependent "app" ≡ ok tt
unfolding validate_owned validate_dependent is_bad_name String-discrete trim_space contains_nul
    validate_resource validate_credential_free_reference ℕ_discrete contains_text check_ownership
app-named = refl

app_claims : claim_resource (used_by []) "app" ≡ ok (used_by ("app" ∷ []))
unfolding claim_resource validate_owned validate_dependent is_bad_name String-discrete trim_space
    contains_nul validate_resource validate_credential_free_reference ℕ_discrete contains_text
    check_ownership check_dependents claims insert_dependent
app_claims = refl

tool_claims : claim_resource (used_by ("app" ∷ [])) "tool" ≡ ok (used_by ("app" ∷ "tool" ∷ []))
unfolding claim_resource validate_owned validate_dependent is_bad_name String-discrete trim_space
    contains_nul validate_resource validate_credential_free_reference ℕ_discrete contains_text
    check_ownership check_dependents claims text_lt insert_dependent
tool_claims = refl

app_releases :
    release_resource (used_by ("app" ∷ "tool" ∷ [])) "app" ≡ ok (used_by ("tool" ∷ []), false)
unfolding release_resource validate_owned validate_dependent is_bad_name String-discrete trim_space
    contains_nul validate_resource validate_credential_free_reference ℕ_discrete contains_text
    check_ownership check_dependents text_lt claims remove_dependent
app_releases = refl

app_snapshot :
    owned_resource_snapshot (used_by ("app" ∷ []) ∷ [])
    ≡ ok ((repository, used_by ("app" ∷ [])) ∷ [])
unfolding owned_resource_snapshot validate_owned validate_dependent is_bad_name String-discrete
    trim_space contains_nul validate_resource validate_credential_free_reference ℕ_discrete
    contains_text check_ownership check_dependents lookup insert
app_snapshot = refl

repository_used :
    claim_resource_uses [] "app" (created_repository ∷ []) ≡ ok (used_by ("app" ∷ []) ∷ [])
unfolding claim_resource_uses validate_owned validate_dependent is_bad_name String-discrete
    trim_space contains_nul validate_resource validate_credential_free_reference ℕ_discrete
    contains_text check_ownership track_resource_uses owned_resource_snapshot values insert lookup
    check_dependents claim_resource ResourceIdentity-discrete ResourceKind-discrete claims
    insert_dependent
repository_used = refl

repository_tracked : track_resource_uses [] (created_repository ∷ []) ≡ ok (used_by [] ∷ [])
unfolding track_resource_uses validate_owned validate_dependent is_bad_name String-discrete
    trim_space contains_nul validate_resource validate_credential_free_reference ℕ_discrete
    contains_text check_ownership owned_resource_snapshot values insert lookup
repository_tracked = refl

repository_removed : finalize_released_resource released_repository repository ≡ ok []
unfolding finalize_released_resource validate_owned validate_dependent is_bad_name String-discrete
    trim_space contains_nul validate_resource validate_credential_free_reference ℕ_discrete
    contains_text check_ownership owned_resource_snapshot check_dependents lookup
    ResourceIdentity-discrete ResourceKind-discrete insert values remove
repository_removed = refl

app_is_not_tool : contains (used_by ("app" ∷ [])).dependents "tool" ≡ false
unfolding String-discrete
app_is_not_tool = refl

release-claim_example :
    release_resource (used_by ("app" ∷ "tool" ∷ [])) "tool"
    ≡ ok (
      used_by ("app" ∷ []),
      is_depengine_owned (used_by ("app" ∷ [])).ownership
          && is_empty (used_by ("app" ∷ [])).dependents,
    )
release-claim_example =
    release-claim (used_by ("app" ∷ [])) (used_by ("app" ∷ "tool" ∷ [])) "tool" app_is_not_tool
      tool_claims

claim_resource-idempotent_example :
    claim_resource (used_by ("app" ∷ [])) "app" ≡ ok (used_by ("app" ∷ []))
claim_resource-idempotent_example =
    claim_resource-idempotent (used_by []) (used_by ("app" ∷ [])) "app" app_claims

release_resource_iff_example :
    ((r : OwnedResourceState × Bool) × (release_resource (used_by []) "app" ≡ ok r))
    ↔ (contains (used_by []).dependents "app" ≡ true)
release_resource_iff_example = release_resource_iff (used_by []) "app" unused-valid app-named

release_resource-drops_example :
    (validate_owned (used_by ("tool" ∷ [])) ≡ ok tt)
    × (repository ≡ repository)
    × (OwnershipKind.depengine_owned ≡ OwnershipKind.depengine_owned)
    × (false ≡ (
        is_depengine_owned OwnershipKind.depengine_owned
        && is_empty (used_by ("tool" ∷ [])).dependents))
    × ((e : String)
        → contains (used_by ("tool" ∷ [])).dependents e
          ≡ (if "app" == e then false else contains (used_by ("app" ∷ "tool" ∷ [])).dependents e))
release_resource-drops_example =
    release_resource-drops (used_by ("app" ∷ "tool" ∷ [])) "app" (used_by ("tool" ∷ [])) false
      app_releases

release_dependent_resources-total_example :
    (out : ResourceReleaseDecision) × (release_dependent_resources (used_by ("app" ∷ []) ∷ []) "app"
      ≡ ok out)
    × (validate_owned_resource_snapshot out.updated ≡ ok tt)
    × ((r : ResourceIdentity)
        → find_state r out.updated
          ≡ Option.map (dropped "app") (find_state r (used_by ("app" ∷ []) ∷ [])))
    × ((r : ResourceIdentity)
        → contains out.removable r ≡ is_last_claim "app" (find_state r (used_by ("app" ∷ []) ∷ [])))
release_dependent_resources-total_example =
    release_dependent_resources-total (used_by ("app" ∷ []) ∷ []) "app"
      ((repository, used_by ("app" ∷ [])) ∷ []) app_snapshot app-named

claim_resource_uses-claims_example :
    (validate_owned_resource_snapshot (used_by ("app" ∷ []) ∷ []) ≡ ok tt)
    × ((r : ResourceIdentity)
        → ClaimedUse "app"
            (find_use r (created_repository ∷ []))
            (find_state r [])
            (find_state r (used_by ("app" ∷ []) ∷ [])))
claim_resource_uses-claims_example =
    claim_resource_uses-claims [] (used_by ("app" ∷ []) ∷ []) "app" (created_repository ∷ [])
      repository_used

track_resource_uses-canonical_example :
    (validate_owned_resource_snapshot (used_by [] ∷ []) ≡ ok tt)
    × ((r : ResourceIdentity)
        → Observed
            (find_use r (created_repository ∷ []))
            (find_state r [])
            (find_state r (used_by [] ∷ [])))
track_resource_uses-canonical_example =
    track_resource_uses-canonical [] (used_by [] ∷ []) (created_repository ∷ []) repository_tracked

finalize_released_resource-removes_example :
    (contains released_repository.removable repository ≡ true)
    × ((s : OwnedResourceState) × (find_state repository released_repository.updated ≡ some s)
        × (is_depengine_owned s.ownership ≡ true)
        × (s.dependents ≡ []))
    × (validate_owned_resource_snapshot [] ≡ ok tt)
    × ((j : ResourceIdentity)
        → find_state j []
          ≡ (if repository == j then none else find_state j released_repository.updated))
finalize_released_resource-removes_example =
    finalize_released_resource-removes released_repository repository [] repository_removed
