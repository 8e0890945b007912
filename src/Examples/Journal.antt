-- ===== src/Examples/Journal.antt =====
-- The theorems on preparation journals at the example plan.
use depengine.Plan.Journal.Claimed.{finalize_commit-claims}
use depengine.Plan.Ownership.Ledger.Snapshot.{find_state}
use depengine.Plan.Ownership.Ledger.{
  sorted_states, owned_resource_snapshot, validate_owned_resource_snapshot,
}
use depengine.Plan.Operation.{validate_operation}
use depengine.Plan.Ownership.{
  insert_dependent, claims, check_dependents, validate_owned, claim_resource, validate_dependent,
  OwnedResourceState, check_ownership,
}
use depengine.Plan.Journal.Progress.{valid_plan-commits}
use depengine.Plan.Journal.Safety.{applying-resolves, committing-resolves, final-stays}
use depengine.Plan.Journal.Forward.{plan_apply-IsValid}
use depengine.Plan.Journal.Resolving.{resolve_applying-IsValid}
use depengine.Plan.Journal.Commit.{plan_commit-IsValid, mark_committed-IsValid}
use depengine.Plan.Journal.Run.{
  resolved, commit_refused, start, Reachable-valid, complete_when_ready, mutation_ids, Reachable,
  Step,
}
use depengine.Plan.Preparation.{check_prefix, validate_mutation, validate_plan}
use depengine.Examples.Data.{
  used_by, trust_key, signing_key, one_applied, two_mutations, committed_both, committing_both,
  trusting, both_applied,
}
use depengine.Plan.Journal.Transitions.{
  finalize_commit, is_committing, mark_committed, resolve_commit_not_applied, resolve_applying,
  plan_commit, plan_apply,
}
use depengine.Plan.Journal.{
  validate_shape, MutationOutcome, PreparationStatus, in_rollback, new_preparation_journal,
  validate_journal, PreparationJournal,
}
use native.Mathlib.Decide.{ℕ_discrete}
use depengine.Examples.Data.{plain_library}
use depengine.Prelude.{
  text_lt, values, insert, lookup, contains_text, ◌≡◌, refl, ◌⊎◌, inl, true, false, some, List, [],
  ◌∷◌, ◌++◌, string_eq, nat_eq, String-discrete, contains, ok, trim_space, contains_nul,
}
use depengine.Plan.Resource.{
  OwnershipKind-discrete, resource_lt, OwnershipKind, ResourceKind-discrete,
  ResourceIdentity-discrete, validate_resource, is_bad_name, resource_identity_eq,
  ownership_kind_eq,
}
use depengine.Plan.Reference.{validate_credential_free_reference}

two_mutations-valid : validate_plan two_mutations ≡ ok tt
unfolding validate_plan validate_mutation is_bad_name String-discrete trim_space contains_nul
    validate_resource validate_credential_free_reference ℕ_discrete contains_text check_ownership
    validate_operation ResourceIdentity-discrete ResourceKind-discrete
two_mutations-valid = refl

one_applied-valid : validate_journal one_applied two_mutations ≡ ok tt
unfolding validate_journal validate_plan validate_mutation is_bad_name String-discrete trim_space
    contains_nul validate_resource validate_credential_free_reference ℕ_discrete contains_text
    check_ownership validate_operation ResourceIdentity-discrete ResourceKind-discrete
    validate_shape check_prefix
one_applied-valid = refl

both_applied-valid : validate_journal both_applied two_mutations ≡ ok tt
unfolding validate_journal validate_plan validate_mutation is_bad_name String-discrete trim_space
    contains_nul validate_resource validate_credential_free_reference ℕ_discrete contains_text
    check_ownership validate_operation ResourceIdentity-discrete ResourceKind-discrete
    validate_shape check_prefix
both_applied-valid = refl

trust_planned : plan_apply one_applied two_mutations "trust" ≡ ok trusting
unfolding plan_apply validate_journal validate_plan validate_mutation is_bad_name String-discrete
    trim_space contains_nul validate_resource validate_credential_free_reference ℕ_discrete
    contains_text check_ownership validate_operation ResourceIdentity-discrete ResourceKind-discrete
    validate_shape check_prefix
trust_planned = refl

trust_resolved :
    resolve_applying trusting two_mutations "trust" MutationOutcome.applied ≡ ok both_applied
unfolding resolve_applying validate_journal validate_plan validate_mutation is_bad_name
    String-discrete trim_space contains_nul validate_resource validate_credential_free_reference
    ℕ_discrete contains_text check_ownership validate_operation ResourceIdentity-discrete
    ResourceKind-discrete validate_shape check_prefix
trust_resolved = refl

commit_begun : plan_commit both_applied two_mutations ≡ ok committing_both
unfolding plan_commit validate_journal validate_plan validate_mutation is_bad_name String-discrete
    trim_space contains_nul validate_resource validate_credential_free_reference ℕ_discrete
    contains_text check_ownership validate_operation ResourceIdentity-discrete ResourceKind-discrete
    validate_shape check_prefix
commit_begun = refl

commit_refused_again : resolve_commit_not_applied committing_both two_mutations ≡ ok both_applied
unfolding resolve_commit_not_applied validate_journal validate_plan validate_mutation is_bad_name
    String-discrete trim_space contains_nul validate_resource validate_credential_free_reference
    ℕ_discrete contains_text check_ownership validate_operation ResourceIdentity-discrete
    ResourceKind-discrete validate_shape check_prefix
commit_refused_again = refl

commit_finished : mark_committed committing_both two_mutations ≡ ok committed_both
unfolding mark_committed validate_journal validate_plan validate_mutation is_bad_name
    String-discrete trim_space contains_nul validate_resource validate_credential_free_reference
    ℕ_discrete contains_text check_ownership validate_operation ResourceIdentity-discrete
    ResourceKind-discrete validate_shape check_prefix
commit_finished = refl

plan_apply-IsValid_example : validate_journal trusting two_mutations ≡ ok tt
plan_apply-IsValid_example =
    plan_apply-IsValid one_applied trusting two_mutations "trust" trust_planned

resolve_applying-IsValid_example : validate_journal both_applied two_mutations ≡ ok tt
resolve_applying-IsValid_example =
    resolve_applying-IsValid trusting both_applied two_mutations "trust" MutationOutcome.applied
      trust_resolved

plan_commit-IsValid_example : validate_journal committing_both two_mutations ≡ ok tt
plan_commit-IsValid_example =
    plan_commit-IsValid both_applied committing_both two_mutations commit_begun

mark_committed-IsValid_example : validate_journal committed_both two_mutations ≡ ok tt
mark_committed-IsValid_example =
    mark_committed-IsValid committing_both committed_both two_mutations commit_finished

valid_plan-commits_example :
    (j : PreparationJournal) × Reachable two_mutations j
    × (j.status ≡ PreparationStatus.committing)
    × (j.applied ≡ mutation_ids two_mutations.prepare)
valid_plan-commits_example = valid_plan-commits two_mutations two_mutations-valid

applying-resolves_example :
    ((both_applied.applied ≡ trusting.applied ++ trusting.applying ∷ [])
      ⊎ (both_applied.applied ≡ trusting.applied))
    × (both_applied.applying ≡ "")
    × (in_rollback both_applied.status ≡ false)
    × (is_committing both_applied.status ≡ false)
applying-resolves_example =
    applying-resolves two_mutations trusting both_applied refl
      (resolved "trust" MutationOutcome.applied trust_resolved)

committing-resolves_example :
    (both_applied ≡ record committing_both { status = PreparationStatus.committed })
    ⊎ (both_applied ≡ record committing_both { status = PreparationStatus.ready })
committing-resolves_example =
    committing-resolves two_mutations committing_both both_applied refl
      (commit_refused commit_refused_again)

final-stays_example : ¬ Step two_mutations committed_both both_applied
final-stays_example = final-stays two_mutations committed_both both_applied refl

complete_when_ready_example : both_applied.applied ≡ mutation_ids two_mutations.prepare
complete_when_ready_example =
    complete_when_ready both_applied two_mutations both_applied-valid (inl refl)

Reachable-valid_example : validate_journal new_preparation_journal two_mutations ≡ ok tt
Reachable-valid_example =
    Reachable-valid two_mutations new_preparation_journal two_mutations-valid start

abbrev claimed_resources : List OwnedResourceState
claimed_resources =
    record {
      resource = signing_key;
      ownership = OwnershipKind.depengine_owned;
      dependents = "app" ∷ [];
    }
    ∷ used_by ("app" ∷ [])
    ∷ []

commit_claims :
    finalize_commit committing_both two_mutations [] "app" ≡ ok (committed_both, claimed_resources)
unfolding finalize_commit validate_journal validate_plan validate_mutation is_bad_name
    String-discrete trim_space contains_nul validate_resource validate_credential_free_reference
    ℕ_discrete contains_text check_ownership validate_operation validate_dependent
    owned_resource_snapshot ResourceIdentity-discrete ResourceKind-discrete validate_shape
    check_prefix lookup claim_resource validate_owned check_dependents claims insert sorted_states
    values resource_lt text_lt insert_dependent OwnershipKind-discrete
commit_claims = refl

finalize_commit-claims_example :
    (validate_owned_resource_snapshot claimed_resources ≡ ok tt)
    × (t : OwnedResourceState) × (find_state signing_key claimed_resources ≡ some t)
    × (contains t.dependents "app" ≡ true)
finalize_commit-claims_example =
    finalize_commit-claims committing_both committed_both two_mutations [] claimed_resources "app" 1
      trust_key commit_claims refl
