-- ===== src/Plan/Recovery/Decisions.antt =====
-- What the recovery decisions authorise.
use depengine.Prelude.{
  ◌≡◌, refl, sym, Bool, true, ◌&&◌, ◌||◌, arith, string_eq, Bool-cases, inl, inr, ok,
}
use depengine.Plan.Reference.{ReferenceLibrary}
use depengine.Plan.Observation.{VerificationState, VerificationResult}
use depengine.Plan.Verification.Validation.{validate_verification}
use depengine.Plan.Replacement.{ReplacementPhase}
use depengine.Plan.Recovery.{
  is_satisfied, is_absent, is_drifted, ReplacementRecoveryAction, resume_install,
  replacement_action, replacement_recovery_for,
}

-- the observations on which an action of the recovery of a replacement rests
abbrev pub authorised : ReplacementRecoveryAction → VerificationState → VerificationState → Bool
authorised ReplacementRecoveryAction.retry_removal old desired =
    is_satisfied old && is_absent desired
authorised ReplacementRecoveryAction.record_removal old desired = is_absent old && is_absent desired
authorised ReplacementRecoveryAction.start_install old desired = is_absent old && is_absent desired
authorised ReplacementRecoveryAction.record_install old desired =
    is_satisfied desired && (is_absent old || is_drifted old)
authorised ReplacementRecoveryAction.continue_installed old desired =
    is_satisfied desired && (is_absent old || is_drifted old)
authorised ReplacementRecoveryAction.blocked old desired = true

resume_install-authorised :
    (old desired : VerificationState) → authorised (resume_install old desired) old desired ≡ true
resume_install-authorised old desired =
    elim (Bool-cases (is_satisfied desired && (is_absent old || is_drifted old))) [
      | inl found ↦ rw found found
      | inr other ↦ elim (Bool-cases (is_absent old && is_absent desired)) [
        | inl gone ↦ rw (other, gone) gone
        | inr neither ↦ rw (other, neither) refl
      ]
    ]

replacement_action-authorised :
    (phase : ReplacementPhase) (old desired : VerificationState)
    → authorised (replacement_action phase old desired) old desired ≡ true
unfolding replacement_action
replacement_action-authorised ReplacementPhase.removal_planned old desired =
    elim (Bool-cases (is_satisfied old && is_absent desired)) [
      | inl held ↦ rw held held
      | inr other ↦ rw other refl
    ]
replacement_action-authorised ReplacementPhase.removing old desired =
    elim (Bool-cases (is_satisfied old && is_absent desired)) [
      | inl held ↦ rw held held
      | inr other ↦ elim (Bool-cases (is_absent old && is_absent desired)) [
        | inl gone ↦ rw (other, gone) gone
        | inr neither ↦ rw (other, neither) refl
      ]
    ]
replacement_action-authorised ReplacementPhase.removed old desired =
    resume_install-authorised old desired
replacement_action-authorised ReplacementPhase.installing old desired =
    resume_install-authorised old desired
replacement_action-authorised ReplacementPhase.installed old desired =
    elim (Bool-cases (is_satisfied desired && (is_absent old || is_drifted old))) [
      | inl found ↦ rw found found
      | inr other ↦ rw other refl
    ]
replacement_action-authorised ReplacementPhase.post_hook_running old desired = refl
replacement_action-authorised (ReplacementPhase.unlisted s) old desired = refl

module _ ⦃lib : ReferenceLibrary⦄ where
  -- Where ReplacementRecoveryFor returns an action, both observations are valid and authorise it: a
  -- removal is retried only while the old identity is satisfied and the desired one absent, a removal
  -- is recorded and an install started only where both are absent, and an install is recorded or
  -- continued only where the desired identity is satisfied and the old one absent or drifted.
  pub replacement_recovery_for-authorised :
      (phase : ReplacementPhase) (old desired : VerificationResult)
      (action : ReplacementRecoveryAction)
      → replacement_recovery_for phase old desired ≡ ok action
      → (validate_verification old ≡ ok tt)
        × (validate_verification desired ≡ ok tt)
        × (authorised action old.state desired.state ≡ true)
  unfolding replacement_recovery_for
  replacement_recovery_for-authorised phase old desired action e =
      let same : replacement_action phase old.state desired.state ≡ action = ground arith in
      (
        ground arith,
        ground arith,
        rw (sym same) (replacement_action-authorised phase old.state desired.state),
      )
