-- ===== src/Examples/Rollback.antt =====
-- The theorems on rollbacks at the example plan.
use depengine.Plan.Operation.{validate_operation}
use depengine.Plan.Ownership.Ledger.Snapshot.{find_state}
use depengine.Plan.Preparation.Steps.{rollback_steps_for-Planned, Planned, is_claimed}
use depengine.Plan.Journal.Compensation.{
  plan_rollback_apply-spares_claimed, finalize_rollback_complete,
}
use depengine.Plan.Journal.Finish.{finalize_rollback-IsValid, resolve_rollback_applying-IsValid}
use depengine.Plan.Journal.Rollback.{plan_rollback-IsValid, plan_rollback_apply-IsValid}
use depengine.Plan.Ownership.Ledger.{sorted_states, owned_resource_snapshot, Snapshot}
use depengine.Plan.Ownership.{check_ownership, validate_owned, OwnedResourceState}
use depengine.Plan.Journal.{
  validate_shape, MutationOutcome, PreparationStatus, PreparationJournal, validate_journal,
}
use depengine.Plan.Preparation.{
  rollback_for, step_operations, is_safe, step_ids, validate_mutation, check_prefix, validate_plan,
  RollbackDecision, rollback_steps_for, RollbackStep, PreparationMutation,
}
use depengine.Plan.Journal.Undoing.{
  plan_rollback_apply, resolve_rollback_applying, finalize_rollback, plan_rollback,
}
use native.Mathlib.Decide.{ℕ_discrete}
use depengine.Prelude.{
  contains_text, ℕ, ◌<◌, ◌≡◌, refl, true, false, some, List, [], ◌∷◌, string_eq, nat_eq,
  String-discrete, length, get_elem?, ok, lookup, insert, values, trim_space, contains_nul,
}
use depengine.Plan.Resource.{
  ResourceKind-discrete, ResourceIdentity-discrete, validate_resource, is_bad_name, OwnershipKind,
  ResourceIdentity, resource_identity_eq, ownership_kind_eq,
}
use depengine.Plan.Reference.{validate_credential_free_reference}
use depengine.Examples.Data.{
  both_applied, remove_repository, two_mutations, signing_key, rolling_back_both, plain_library,
}

abbrev planned_rollback : RollbackDecision
planned_rollback = record {
  operation_ids = "add" ∷ [];
  operations = remove_repository ∷ [];
  retained = signing_key ∷ [];
}

abbrev undoing : PreparationJournal
undoing = record rolling_back_both { rollback_applying = "add" }

abbrev undone : PreparationJournal
undone = record rolling_back_both { rollback_applied = "add" ∷ [] }

abbrev rolled_back_both : PreparationJournal
rolled_back_both = record undone { status = PreparationStatus.rolled_back }

abbrev kept_key : OwnedResourceState
kept_key = record {
  resource = signing_key;
  ownership = OwnershipKind.depengine_owned;
  dependents = [];
}

rollback_begun :
    plan_rollback both_applied two_mutations [] ≡ ok (rolling_back_both, planned_rollback)
unfolding plan_rollback validate_journal validate_plan validate_mutation is_bad_name String-discrete
    trim_space contains_nul validate_resource validate_credential_free_reference ℕ_discrete
    contains_text check_ownership validate_operation ResourceIdentity-discrete ResourceKind-discrete
    validate_shape check_prefix rollback_for rollback_steps_for owned_resource_snapshot lookup
rollback_begun = refl

undo_begun :
    plan_rollback_apply rolling_back_both two_mutations [] "add" ≡ ok (undoing, remove_repository)
unfolding plan_rollback_apply validate_journal validate_plan validate_mutation is_bad_name
    String-discrete trim_space contains_nul validate_resource validate_credential_free_reference
    ℕ_discrete contains_text check_ownership validate_operation ResourceIdentity-discrete
    ResourceKind-discrete validate_shape check_prefix rollback_steps_for owned_resource_snapshot
    lookup
undo_begun = refl

undo_done :
    resolve_rollback_applying undoing two_mutations [] "add" MutationOutcome.applied ≡ ok undone
unfolding resolve_rollback_applying validate_journal validate_plan validate_mutation is_bad_name
    String-discrete trim_space contains_nul validate_resource validate_credential_free_reference
    ℕ_discrete contains_text check_ownership validate_operation ResourceIdentity-discrete
    ResourceKind-discrete validate_shape check_prefix rollback_steps_for owned_resource_snapshot
    lookup
undo_done = refl

rollback_finished : finalize_rollback undone two_mutations [] ≡ ok (rolled_back_both, kept_key ∷ [])
unfolding finalize_rollback validate_owned validate_journal validate_plan validate_mutation
    is_bad_name String-discrete trim_space contains_nul validate_resource
    validate_credential_free_reference ℕ_discrete contains_text check_ownership validate_operation
    ResourceIdentity-discrete ResourceKind-discrete validate_shape check_prefix rollback_steps_for
    owned_resource_snapshot lookup step_operations rollback_for sorted_states values insert
rollback_finished = refl

steps_planned :
    rollback_steps_for two_mutations ("add" ∷ "trust" ∷ []) []
    ≡ ok (record { id = "add"; operation = remove_repository } ∷ [], signing_key ∷ [])
unfolding rollback_steps_for validate_plan validate_mutation is_bad_name String-discrete trim_space
    contains_nul validate_resource validate_credential_free_reference ℕ_discrete contains_text
    check_ownership validate_operation ResourceIdentity-discrete ResourceKind-discrete
    owned_resource_snapshot lookup
steps_planned = refl

plan_rollback-IsValid_example : validate_journal rolling_back_both two_mutations ≡ ok tt
plan_rollback-IsValid_example =
    plan_rollback-IsValid both_applied rolling_back_both two_mutations [] planned_rollback
      rollback_begun

plan_rollback_apply-IsValid_example : validate_journal undoing two_mutations ≡ ok tt
plan_rollback_apply-IsValid_example =
    plan_rollback_apply-IsValid rolling_back_both undoing two_mutations [] "add" remove_repository
      undo_begun

resolve_rollback_applying-IsValid_example : validate_journal undone two_mutations ≡ ok tt
resolve_rollback_applying-IsValid_example =
    resolve_rollback_applying-IsValid undoing undone two_mutations [] "add" MutationOutcome.applied
      undo_done

finalize_rollback-IsValid_example : validate_journal rolled_back_both two_mutations ≡ ok tt
finalize_rollback-IsValid_example =
    finalize_rollback-IsValid undone rolled_back_both two_mutations [] (kept_key ∷ [])
      rollback_finished

plan_rollback_apply-spares_claimed_example :
    (n : ℕ) × (m : PreparationMutation) × (n < length rolling_back_both.applied)
    × (get_elem? two_mutations.prepare n ≡ some m)
    × ("add" ≡ m.id)
    × (m.rollback ≡ some remove_repository)
    × (is_safe m.policy ≡ true)
    × (is_claimed (find_state m.resource []) ≡ false)
    × (undoing ≡ record rolling_back_both { rollback_applying = "add" })
plan_rollback_apply-spares_claimed_example =
    plan_rollback_apply-spares_claimed rolling_back_both undoing two_mutations [] "add"
      remove_repository undo_begun

finalize_rollback_complete_example :
    (steps : List RollbackStep) × (retained : List ResourceIdentity) × (rollback_steps_for
        two_mutations undone.applied []
      ≡ ok (steps, retained))
    × (rolled_back_both.rollback_applied ≡ step_ids steps)
    × (rolled_back_both.rollback_applying ≡ "")
    × (undone.rollback_applying ≡ "")
    × (rolled_back_both.applied ≡ undone.applied)
finalize_rollback_complete_example =
    finalize_rollback_complete undone rolled_back_both two_mutations [] (kept_key ∷ [])
      rollback_finished

rollback_steps_for-Planned_example :
    (m : Snapshot) × (owned_resource_snapshot [] ≡ ok m)
    × (check_prefix ("add" ∷ "trust" ∷ []) two_mutations.prepare ≡ ok tt)
    × (validate_plan two_mutations ≡ ok tt)
    × Planned m two_mutations.prepare 2
        (record { id = "add"; operation = remove_repository } ∷ [])
        (signing_key ∷ [])
rollback_steps_for-Planned_example =
    rollback_steps_for-Planned two_mutations ("add" ∷ "trust" ∷ []) []
      (record { id = "add"; operation = remove_repository } ∷ []) (signing_key ∷ []) steps_planned
