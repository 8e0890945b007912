-- ===== src/Examples/Verification.antt =====
-- Reconciliation and recovery for an installed git.
use depengine.Plan.Environment.{parse_scope}
use depengine.Prelude.{
  ◌||◌, succeeds, ◌⊎◌, lookup, ◌≡◌, ◌↔◌, refl, true, false, none, some, [], ◌∷◌, string_eq, nat_eq,
  String-discrete, ok, trim_space, contains_nul, contains_text,
}
use native.Mathlib.Decide.{ℕ_discrete}
use depengine.Plan.Reference.{validate_credential_free_reference}
use depengine.Plan.Operation.{validate_operation}
use depengine.Plan.Identity.{ResolvedIdentity, validate_identity}
use depengine.Plan.Observation.{
  VerificationState, PresenceState, IdentityField, IdentityField-discrete, ObservedIdentity,
  Observation, VerificationResult,
}
use depengine.Plan.Verification.{reconcile}
use depengine.Plan.Verification.Validation.{validate_verification}
use depengine.Plan.Verification.Reconciliation.{reconcile-IsValid}
use depengine.Plan.Verification.Satisfied.{Matches, reconcile-satisfied_iff}
use depengine.Plan.Journal.{PreparationStatus, or_pending, validate_journal, validate_shape}
use depengine.Plan.Preparation.{
  validate_plan, validate_mutation, check_prefix, rollback_for, rollback_steps_for,
}
use depengine.Plan.Resource.{
  ResourceKind-discrete, ResourceIdentity-discrete, validate_resource, is_bad_name,
}
use depengine.Plan.Ownership.{check_ownership}
use depengine.Plan.Ownership.Ledger.{owned_resource_snapshot}
use depengine.Plan.Replacement.{ReplacementPhase, validate_replacement}
use depengine.Plan.Recovery.{
  is_drifted, is_absent, is_satisfied, TransitionKind, PreparationRecoveryAction,
  PreparationRecoveryDecision, recovery_for, no_rollback, transition_for_verification,
  no_transition, ReplacementRecoveryAction, replacement_recovery_for, rollback_decision,
}
use depengine.Plan.Recovery.Decisions.{authorised, replacement_recovery_for-authorised}
use depengine.Plan.Recovery.Transition.{
  transition_for_verification-reconcile, required_transition, IsAbsent,
}
use depengine.Plan.Recovery.Crash.{recovery_for-finalizes}
use depengine.Plan.Recovery.Quiet.{recovery_for-quiet, NoUndo, undoes, NothingInFlight}
use depengine.Examples.Data.{
  plain_library, two_mutations, committing_both, both_applied, remove_repository, signing_key,
}

abbrev git : ResolvedIdentity
git = record {
  package_name = "git";
  requested_version = none;
  version = "2.40";
  revision = "";
  digest = "";
  source = "";
  registry = "";
  scope = "user";
  environment = none;
  architecture = "";
  platform = "";
}

abbrev observed_git : ObservedIdentity
observed_git = record {
  package_name = "git";
  version = "2.40";
  revision = "";
  digest = "";
  source = "";
  registry = "";
  scope = "user";
  environment = none;
  architecture = "";
  platform = "";
}

abbrev git_present : Observation
git_present = record {
  presence = PresenceState.present;
  identity = observed_git;
  known_fields = IdentityField.version ∷ IdentityField.package_name ∷ IdentityField.scope ∷ [];
  detail = "";
}

abbrev git_satisfied : VerificationResult
git_satisfied = record {
  state = VerificationState.satisfied;
  observed = observed_git;
  known_fields = IdentityField.package_name ∷ IdentityField.version ∷ IdentityField.scope ∷ [];
  drift = [];
  unverifiable = [];
  detail = "";
}

abbrev git_absent : VerificationResult
git_absent = record git_satisfied { state = VerificationState.absent; known_fields = [] }

abbrev commit_found : PreparationRecoveryDecision
commit_found = record {
  action = PreparationRecoveryAction.finalize_commit_action;
  rollback = no_rollback;
  verification = some git_satisfied;
}

abbrev preparation_undone : PreparationRecoveryDecision
preparation_undone = rollback_decision PreparationRecoveryAction.rollback_preparation (record {
  operation_ids = "add" ∷ [];
  operations = remove_repository ∷ [];
  retained = signing_key ∷ [];
})

no_nul_in_empty : contains_nul "" ≡ false
unfolding contains_nul
no_nul_in_empty = refl

git_reconciled : reconcile git git_present ≡ git_satisfied
unfolding reconcile validate_identity String-discrete trim_space ℕ_discrete contains_nul parse_scope
    IdentityField-discrete
git_reconciled = refl

reconcile-IsValid_example : validate_verification (reconcile git git_present) ≡ ok tt
reconcile-IsValid_example = reconcile-IsValid git git_present no_nul_in_empty no_nul_in_empty

reconcile-satisfied_iff_example :
    ((reconcile git git_present).state ≡ VerificationState.satisfied) ↔ Matches git git_present
reconcile-satisfied_iff_example = reconcile-satisfied_iff git git_present

transition_for_verification-reconcile_example :
    ((transition_for_verification (reconcile git git_present) ≡ ok no_transition)
      ↔ Matches git git_present)
    × ((transition_for_verification (reconcile git git_present)
          ≡ ok (required_transition TransitionKind.install VerificationState.absent))
        ↔ IsAbsent git git_present)
    × ((transition_for_verification (reconcile git git_present)
          ≡ ok (required_transition TransitionKind.upgrade VerificationState.drifted))
        ↔ ((reconcile git git_present).state ≡ VerificationState.drifted))
    × (succeeds (transition_for_verification (reconcile git git_present)) ≡ (
        is_satisfied (reconcile git git_present).state
        || (is_absent (reconcile git git_present).state
            || is_drifted (reconcile git git_present).state)))
transition_for_verification-reconcile_example =
    transition_for_verification-reconcile git git_present no_nul_in_empty no_nul_in_empty

removal_retried :
    replacement_recovery_for ReplacementPhase.removing git_satisfied git_absent
    ≡ ok ReplacementRecoveryAction.retry_removal
unfolding replacement_recovery_for validate_replacement validate_verification IdentityField-discrete
    String-discrete trim_space ℕ_discrete contains_nul parse_scope
removal_retried = refl

replacement_recovery_for-authorised_example :
    (validate_verification git_satisfied ≡ ok tt)
    × (validate_verification git_absent ≡ ok tt)
    × (authorised ReplacementRecoveryAction.retry_removal git_satisfied.state git_absent.state
        ≡ true)
replacement_recovery_for-authorised_example =
    replacement_recovery_for-authorised ReplacementPhase.removing git_satisfied git_absent
      ReplacementRecoveryAction.retry_removal removal_retried

commit_recovered :
    recovery_for committing_both two_mutations [] (some git) (some git_present) ≡ ok commit_found
unfolding recovery_for validate_verification validate_journal validate_plan validate_mutation
    is_bad_name String-discrete trim_space contains_nul validate_resource
    validate_credential_free_reference ℕ_discrete contains_text check_ownership validate_operation
    ResourceIdentity-discrete ResourceKind-discrete validate_shape check_prefix rollback_for
    rollback_steps_for owned_resource_snapshot lookup reconcile validate_identity parse_scope
    IdentityField-discrete
commit_recovered = refl

recovery_for-finalizes_example :
    (or_pending committing_both.status ≡ PreparationStatus.committing)
    × (i : ResolvedIdentity) × (o : Observation) × (some git ≡ some i)
    × (some git_present ≡ some o)
    × Matches i o
recovery_for-finalizes_example =
    recovery_for-finalizes committing_both two_mutations [] (some git) (some git_present)
      commit_found commit_recovered refl

preparation_recovered : recovery_for both_applied two_mutations [] none none ≡ ok preparation_undone
unfolding recovery_for validate_journal validate_plan validate_mutation is_bad_name String-discrete
    trim_space contains_nul validate_resource validate_credential_free_reference ℕ_discrete
    contains_text check_ownership validate_operation ResourceIdentity-discrete ResourceKind-discrete
    validate_shape check_prefix rollback_for rollback_steps_for owned_resource_snapshot lookup
preparation_recovered = refl

recovery_for-quiet_example :
    NoUndo preparation_undone
    ⊎ ((undoes preparation_undone.action ≡ true) × NothingInFlight both_applied)
recovery_for-quiet_example =
    recovery_for-quiet both_applied two_mutations [] none none preparation_undone
      preparation_recovered
