-- ===== src/Plan/Recovery.antt =====
-- internal/plan/preparation.go, lifecycle.go and replacement.go: the decisions that rest on a
-- verification result: crash recovery of a preparation and of a replacement, and the transition that
-- a tool needs.
use depengine.Prelude.{
  String, ◌≡◌, refl, Bool, true, false, ◌&&◌, ◌||◌, not, Option, none, some, List, [], ◌∷◌, ◌==◌,
  ◌!=◌, string_eq, if◌then◌else◌, Result, ok, err, ◌>>=◌, ◌>>◌, fail_if,
}
use depengine.Plan.Reference.{ReferenceLibrary}
use depengine.Plan.Identity.{ResolvedIdentity}
use depengine.Plan.Observation.{VerificationState, Observation, VerificationResult}
use depengine.Plan.Verification.{reconcile}
use depengine.Plan.Verification.Validation.{validate_verification}
use depengine.Plan.Ownership.{OwnedResourceState}
use depengine.Plan.Ownership.Ledger.{owned_resource_snapshot}
use depengine.Plan.Preparation.{PreparationPlan, RollbackDecision, rollback_for}
use depengine.Plan.Journal.{PreparationStatus, PreparationJournal, or_pending, validate_journal}
use depengine.Plan.Journal.Undoing.{remaining_rollback}
use depengine.Plan.Replacement.{ReplacementPhase, validate_replacement}
pub mod Decisions
pub mod Transition
pub mod Crash
pub mod Quiet

pub data PreparationRecoveryAction : Type 0 where
  rollback_preparation reconcile_commit finalize_commit_action resume_rollback blocked :
      PreparationRecoveryAction

-- `detail` is left out, a message for the user
pub record PreparationRecoveryDecision : Type 0 where
  pub action : PreparationRecoveryAction
  pub rollback : RollbackDecision
  pub verification : Option VerificationResult

abbrev pub no_rollback : RollbackDecision
no_rollback = record { operation_ids = []; operations = []; retained = [] }

abbrev pub plain_decision : PreparationRecoveryAction → PreparationRecoveryDecision
plain_decision action = record { action = action; rollback = no_rollback; verification = none }

abbrev pub rollback_decision :
    PreparationRecoveryAction → RollbackDecision → PreparationRecoveryDecision
rollback_decision action rollback = record {
  action = action;
  rollback = rollback;
  verification = none;
}

-- a desired identity and an observation, where both are given
unfoldable pub both_or_neither :
    Option ResolvedIdentity → Option Observation → Result (Option (ResolvedIdentity × Observation))
both_or_neither none none = ok none
both_or_neither (some desired) (some o) = ok (some (desired, o))
both_or_neither _ _ = err "recovery reconciliation requires both desired identity and observation"

unfoldable pub no_evidence : Option (ResolvedIdentity × Observation) → Result (Unit {0})
no_evidence none = ok tt
no_evidence (some evidence) =
    err "commit reconciliation is only valid for a committing preparation journal"

abbrev pub is_satisfied : VerificationState → Bool
is_satisfied VerificationState.satisfied = true
is_satisfied _ = false

abbrev pub is_absent : VerificationState → Bool
is_absent VerificationState.absent = true
is_absent _ = false

abbrev pub is_drifted : VerificationState → Bool
is_drifted VerificationState.drifted = true
is_drifted _ = false

module _ ⦃lib : ReferenceLibrary⦄ where
  unfoldable pub reconcile_commit_outcome :
      Option (ResolvedIdentity × Observation) → Result PreparationRecoveryDecision
  reconcile_commit_outcome none = ok (plain_decision PreparationRecoveryAction.reconcile_commit)
  reconcile_commit_outcome (some (desired, o)) = do
    let verification = reconcile desired o
    validate_verification verification
    ok (record {
      action =
          if is_satisfied verification.state
          then PreparationRecoveryAction.finalize_commit_action
          else PreparationRecoveryAction.blocked;
      rollback = no_rollback;
      verification = some verification;
    })

  -- the case of a journal that has not begun to commit
  unfoldable pub roll_back :
      PreparationJournal
      → PreparationPlan
      → List OwnedResourceState
      → Option (ResolvedIdentity × Observation)
      → Result PreparationRecoveryDecision
  unfolding no_evidence
  roll_back j p owned evidence = do
    no_evidence evidence
    rollback ← rollback_for p j.applied owned
    ok (rollback_decision PreparationRecoveryAction.rollback_preparation rollback)

  -- the case of a rollback in progress
  unfoldable pub resume :
      PreparationJournal
      → PreparationPlan
      → List OwnedResourceState
      → Option (ResolvedIdentity × Observation)
      → Result PreparationRecoveryDecision
  unfolding no_evidence
  resume j p owned evidence = do
    no_evidence evidence
    if j.rollback_applying != "" then ok (plain_decision PreparationRecoveryAction.blocked) else (do
      rollback ← remaining_rollback j p owned
      ok (rollback_decision PreparationRecoveryAction.resume_rollback rollback))

  -- the switch on the status
  unfoldable pub recover :
      PreparationStatus
      → PreparationJournal
      → PreparationPlan
      → List OwnedResourceState
      → Option (ResolvedIdentity × Observation)
      → Result PreparationRecoveryDecision
  unfolding no_evidence reconcile_commit_outcome roll_back resume
  recover PreparationStatus.applying j p owned evidence = do
    no_evidence evidence
    ok (plain_decision PreparationRecoveryAction.blocked)
  recover PreparationStatus.committing j p owned evidence = reconcile_commit_outcome evidence
  recover PreparationStatus.rolling_back j p owned evidence = resume j p owned evidence
  recover PreparationStatus.committed j p owned evidence =
      err "terminal preparation journal state must not require crash recovery"
  recover PreparationStatus.rolled_back j p owned evidence =
      err "terminal preparation journal state must not require crash recovery"
  recover (PreparationStatus.unlisted s) j p owned evidence =
      err "invalid preparation journal status"
  recover _ j p owned evidence = roll_back j p owned evidence

  -- PreparationJournal.RecoveryFor
  unfoldable pub recovery_for :
      PreparationJournal
      → PreparationPlan
      → List OwnedResourceState
      → Option ResolvedIdentity
      → Option Observation
      → Result PreparationRecoveryDecision
  unfolding recover both_or_neither
  recovery_for j p owned desired observation = do
    validate_journal j p
    owned_resource_snapshot owned
    evidence ← both_or_neither desired observation
    recover (or_pending j.status) j p owned evidence

pub data TransitionKind : Type 0 where
  unset install upgrade repair remove : TransitionKind

pub record ReconciliationDecision : Type 0 where
  pub required : Bool
  pub transition : TransitionKind
  pub state : VerificationState

abbrev pub no_transition : ReconciliationDecision
no_transition = record {
  required = false;
  transition = TransitionKind.unset;
  state = VerificationState.satisfied;
}

unfoldable pub transition_of : VerificationState → Result ReconciliationDecision
transition_of VerificationState.satisfied = ok no_transition
transition_of VerificationState.absent = ok (record {
  required = true;
  transition = TransitionKind.install;
  state = VerificationState.absent;
})
transition_of VerificationState.drifted = ok (record {
  required = true;
  transition = TransitionKind.upgrade;
  state = VerificationState.drifted;
})
transition_of VerificationState.unknown =
    err "verification state cannot select a mutating transition: desired state is unverifiable"
transition_of VerificationState.broken =
    err "verification state cannot select a mutating transition: verification probe failed"
transition_of (VerificationState.unlisted s) =
    err "verification state cannot select a lifecycle transition"

pub data ReplacementRecoveryAction : Type 0 where
  retry_removal record_removal start_install record_install continue_installed blocked :
      ReplacementRecoveryAction

-- the case of a removed or installing replacement
abbrev pub resume_install : VerificationState → VerificationState → ReplacementRecoveryAction
resume_install old desired =
    if is_satisfied desired && (is_absent old || is_drifted old)
    then ReplacementRecoveryAction.record_install
    else if is_absent old && is_absent desired
    then ReplacementRecoveryAction.start_install
    else ReplacementRecoveryAction.blocked

-- the switch on the phase, for the states of the old and of the desired identity
unfoldable pub replacement_action :
    ReplacementPhase → VerificationState → VerificationState → ReplacementRecoveryAction
replacement_action ReplacementPhase.removal_planned old desired =
    if is_satisfied old && is_absent desired
    then ReplacementRecoveryAction.retry_removal
    else ReplacementRecoveryAction.blocked
replacement_action ReplacementPhase.removing old desired =
    if is_satisfied old && is_absent desired
    then ReplacementRecoveryAction.retry_removal
    else if is_absent old && is_absent desired
    then ReplacementRecoveryAction.record_removal
    else ReplacementRecoveryAction.blocked
replacement_action ReplacementPhase.removed old desired = resume_install old desired
replacement_action ReplacementPhase.installing old desired = resume_install old desired
replacement_action ReplacementPhase.installed old desired =
    if is_satisfied desired && (is_absent old || is_drifted old)
    then ReplacementRecoveryAction.continue_installed
    else ReplacementRecoveryAction.blocked
replacement_action _ old desired = ReplacementRecoveryAction.blocked

module _ ⦃lib : ReferenceLibrary⦄ where
  -- TransitionForVerification
  unfoldable pub transition_for_verification : VerificationResult → Result ReconciliationDecision
  unfolding transition_of
  transition_for_verification result = do validate_verification result; transition_of result.state

  -- ReplacementRecoveryFor; the action beside an error is always blocked
  unfoldable pub replacement_recovery_for :
      ReplacementPhase → VerificationResult → VerificationResult → Result ReplacementRecoveryAction
  unfolding replacement_action
  replacement_recovery_for phase old desired = do
    validate_replacement (record { phase = phase })
    validate_verification old
    validate_verification desired
    ok (replacement_action phase old.state desired.state)
