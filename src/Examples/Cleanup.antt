-- ===== src/Examples/Cleanup.antt =====
-- The theorems on the cleanup of released resources at the example plan.
use depengine.Plan.Operation.{validate_operation}
use depengine.Plan.Ownership.{ref_count, check_dependents, validate_owned, check_ownership}
use depengine.Plan.Ownership.Ledger.Snapshot.{find_state}
use depengine.Plan.Cleanup.Partition.{
  finalize_released_resource_cleanup-forgets, cleanup_released_resources-partition,
}
use depengine.Plan.Ownership.Ledger.{
  sorted_states, owned_resource_snapshot, validate_owned_resource_snapshot,
}
use depengine.Plan.Preparation.{validate_mutation, validate_plan}
use depengine.Plan.Cleanup.{
  ResourceCleanupDecision, finalize_released_resource_cleanup, cleanup_released_resources,
}
use native.Mathlib.Decide.{ℕ_discrete}
use depengine.Prelude.{
  contains_text, ◌≡◌, refl, false, ◌&&◌, ◌||◌, none, [], ◌∷◌, string_eq, nat_eq, String-discrete,
  if◌then◌else◌, contains, ok, lookup, insert, remove, values, trim_space, contains_nul,
}
use depengine.Plan.Resource.{
  ResourceKind-discrete, ResourceIdentity-discrete, validate_resource, ResourceIdentity,
  is_bad_name, resource_identity_eq, ownership_kind_eq,
}
use depengine.Plan.Reference.{validate_credential_free_reference}
use depengine.Examples.Data.{
  repository, remove_repository, two_mutations, released_repository, plain_library,
}

abbrev clean_repository : ResourceCleanupDecision
clean_repository = record {
  operations = remove_repository ∷ [];
  cleaned = repository ∷ [];
  retained = [];
}

cleanup_planned : cleanup_released_resources two_mutations released_repository ≡ ok clean_repository
unfolding cleanup_released_resources validate_plan validate_mutation is_bad_name String-discrete
    trim_space contains_nul validate_resource validate_credential_free_reference ℕ_discrete
    contains_text check_ownership validate_operation validate_owned_resource_snapshot validate_owned
    owned_resource_snapshot ResourceIdentity-discrete ResourceKind-discrete check_dependents lookup
    insert ref_count
cleanup_planned = refl

cleanup_finished :
    finalize_released_resource_cleanup two_mutations released_repository clean_repository ≡ ok []
unfolding finalize_released_resource_cleanup validate_plan validate_mutation is_bad_name
    String-discrete trim_space contains_nul validate_resource validate_credential_free_reference
    ℕ_discrete contains_text check_ownership validate_operation validate_owned_resource_snapshot
    validate_owned owned_resource_snapshot cleanup_released_resources ResourceIdentity-discrete
    ResourceKind-discrete check_dependents lookup insert ref_count sorted_states values remove
cleanup_finished = refl

cleanup_released_resources-partition_example :
    (contains released_repository.removable repository ≡ (
      contains clean_repository.cleaned repository
      || contains clean_repository.retained repository))
    × ((contains clean_repository.cleaned repository
          && contains clean_repository.retained repository)
        ≡ false)
cleanup_released_resources-partition_example =
    cleanup_released_resources-partition two_mutations released_repository clean_repository
      repository cleanup_planned

finalize_released_resource_cleanup-forgets_example :
    (cleanup_released_resources two_mutations released_repository ≡ ok clean_repository)
    × (validate_owned_resource_snapshot [] ≡ ok tt)
    × ((r : ResourceIdentity)
        → find_state r [] ≡ (
            if contains clean_repository.cleaned r
            then none
            else find_state r released_repository.updated))
finalize_released_resource_cleanup-forgets_example =
    finalize_released_resource_cleanup-forgets two_mutations released_repository clean_repository []
      cleanup_finished
