-- ===== src/Plan/Recovery/Crash.antt =====
-- When crash recovery of a preparation finalizes a commit.
use depengine.Prelude.{
  >>=-eq-ok, ◌≡◌, ◌⊎◌, refl, ap, ◌∙◌, true, false, ◌&&◌, not, Option, none, some, List, arith, ◌==◌,
  ◌!=◌, string_eq, Bool-cases, inl, inr, Result, ok, ◌>>=◌,
}
use depengine.Plan.Reference.{ReferenceLibrary}
use depengine.Plan.Identity.{ResolvedIdentity}
use depengine.Plan.Observation.{VerificationState, Observation}
use depengine.Plan.Verification.{reconcile}
use depengine.Plan.Verification.Satisfied.{Matches, reconcile-satisfied_iff}
use depengine.Plan.Ownership.{OwnedResourceState}
use depengine.Plan.Ownership.Ledger.{owned_resource_snapshot}
use depengine.Plan.Preparation.{validate_plan, PreparationPlan, RollbackDecision, rollback_for}
use depengine.Plan.Journal.{
  PreparationStatus, PreparationJournal, or_pending, in_rollback, check_shape, validate_shape,
  validate_journal,
}
use depengine.Plan.Recovery.{
  PreparationRecoveryAction, PreparationRecoveryDecision, rollback_decision, both_or_neither,
  no_evidence, is_satisfied, reconcile_commit_outcome, roll_back, resume, recover, recovery_for,
}

satisfied_state :
    (state : VerificationState) → is_satisfied state ≡ true → state ≡ VerificationState.satisfied
satisfied_state VerificationState.satisfied h = refl
satisfied_state VerificationState.absent h = cc h
satisfied_state VerificationState.drifted h = cc h
satisfied_state VerificationState.unknown h = cc h
satisfied_state VerificationState.broken h = cc h
satisfied_state (VerificationState.unlisted s) h = cc h

module _ ⦃lib : ReferenceLibrary⦄ where
  pub roll_back-action :
      (j : PreparationJournal) (p : PreparationPlan) (owned : List OwnedResourceState)
      (evidence : Option (ResolvedIdentity × Observation)) (d : PreparationRecoveryDecision)
      → roll_back j p owned evidence ≡ ok d
      → d.action ≡ PreparationRecoveryAction.rollback_preparation
  unfolding roll_back
  roll_back-action j p owned evidence d e =
      let (unit, none_given, rest) =
        >>=-eq-ok (no_evidence evidence)
          (λ ignored. rollback_for p j.applied owned >>= roll_decision) e in
      let (rollback, planned, done) =
        >>=-eq-ok (rollback_for p j.applied owned) roll_decision rest in
      ground (arith, done)
    where
      roll_decision : RollbackDecision → Result PreparationRecoveryDecision
      roll_decision rollback =
          ok (rollback_decision PreparationRecoveryAction.rollback_preparation rollback)

  resume-action :
      (j : PreparationJournal) (p : PreparationPlan) (owned : List OwnedResourceState)
      (evidence : Option (ResolvedIdentity × Observation)) (d : PreparationRecoveryDecision)
      → resume j p owned evidence ≡ ok d
      → (d.action ≡ PreparationRecoveryAction.blocked)
        ⊎ ((d.action ≡ PreparationRecoveryAction.resume_rollback)
            × ((j.rollback_applying == "") ≡ true))
  unfolding resume
  resume-action j p owned evidence d e = elim (Bool-cases (j.rollback_applying != "")) [
    | inl busy ↦ inl (ground (arith, busy))
    | inr idle ↦ inr (ground (arith, idle))
  ]

  reconcile_commit_outcome-finalizes :
      (evidence : Option (ResolvedIdentity × Observation)) (d : PreparationRecoveryDecision)
      → reconcile_commit_outcome evidence ≡ ok d
      → d.action ≡ PreparationRecoveryAction.finalize_commit_action
      → (desired : ResolvedIdentity) × (o : Observation) × (evidence ≡ some (desired, o))
        × Matches desired o
  unfolding reconcile_commit_outcome
  reconcile_commit_outcome-finalizes none d e f = absurd (ground arith)
  reconcile_commit_outcome-finalizes (some (desired, o)) d e f =
      let state : (reconcile desired o).state ≡ VerificationState.satisfied =
        elim (Bool-cases (is_satisfied (reconcile desired o).state)) [
          | inl found ↦ satisfied_state (reconcile desired o).state found
          | inr other ↦ absurd (ground (arith, other))
        ] in
      (desired, o, refl, (reconcile-satisfied_iff desired o).0 state)

  not_rollback :
      (action : PreparationRecoveryAction)
      → action ≡ PreparationRecoveryAction.rollback_preparation
      → action ≡ PreparationRecoveryAction.finalize_commit_action
      → ⊥
  not_rollback action a f = cc (a, f)

  recover-finalizes :
      (status : PreparationStatus) (j : PreparationJournal) (p : PreparationPlan)
      (owned : List OwnedResourceState) (evidence : Option (ResolvedIdentity × Observation))
      (d : PreparationRecoveryDecision)
      → recover status j p owned evidence ≡ ok d
      → d.action ≡ PreparationRecoveryAction.finalize_commit_action
      → (status ≡ PreparationStatus.committing)
        × (desired : ResolvedIdentity) × (o : Observation) × (evidence ≡ some (desired, o))
        × Matches desired o
  unfolding recover no_evidence
  recover-finalizes PreparationStatus.committing j p owned evidence d e f =
      let (desired, o, given, m) = reconcile_commit_outcome-finalizes evidence d e f in
      (refl, desired, o, given, m)
  recover-finalizes PreparationStatus.unset j p owned evidence d e f =
      absurd (not_rollback d.action (roll_back-action j p owned evidence d e) f)
  recover-finalizes PreparationStatus.pending j p owned evidence d e f =
      absurd (not_rollback d.action (roll_back-action j p owned evidence d e) f)
  recover-finalizes PreparationStatus.preparing j p owned evidence d e f =
      absurd (not_rollback d.action (roll_back-action j p owned evidence d e) f)
  recover-finalizes PreparationStatus.ready j p owned evidence d e f =
      absurd (not_rollback d.action (roll_back-action j p owned evidence d e) f)
  recover-finalizes PreparationStatus.applying j p owned none d e f = absurd (ground arith)
  recover-finalizes PreparationStatus.applying j p owned (some x) d e f = absurd (cc e)
  recover-finalizes PreparationStatus.rolling_back j p owned evidence d e f =
      elim (resume-action j p owned evidence d e) [
        | inl stopped ↦ absurd (cc (stopped, f))
        | inr (resumed, idle) ↦ absurd (cc (resumed, f))
      ]
  recover-finalizes PreparationStatus.committed j p owned evidence d e f = absurd (cc e)
  recover-finalizes PreparationStatus.rolled_back j p owned evidence d e f = absurd (cc e)
  recover-finalizes (PreparationStatus.unlisted s) j p owned evidence d e f = absurd (cc e)

  both-given :
      (desired : Option ResolvedIdentity) (observation : Option Observation) (i : ResolvedIdentity)
      (o : Observation)
      → both_or_neither desired observation ≡ ok (some (i, o))
      → (desired ≡ some i) × (observation ≡ some o)
  unfolding both_or_neither
  both-given none none i o e = absurd (ground arith)
  both-given none (some q) i o e = absurd (cc e)
  both-given (some d) none i o e = absurd (cc e)
  both-given (some d) (some q) i o e = ground arith

  pub recovery_for-inversion :
      (j : PreparationJournal) (p : PreparationPlan) (owned : List OwnedResourceState)
      (desired : Option ResolvedIdentity) (observation : Option Observation)
      (d : PreparationRecoveryDecision)
      → recovery_for j p owned desired observation ≡ ok d
      → (evidence : Option (ResolvedIdentity × Observation)) × (validate_journal j p ≡ ok tt)
        × (both_or_neither desired observation ≡ ok evidence)
        × (recover (or_pending j.status) j p owned evidence ≡ ok d)
  unfolding recovery_for
  recovery_for-inversion j p owned desired observation d e =
      let (u, valid, after) = >>=-eq-ok (validate_journal j p) _ e in
      let (w, owns, last) = >>=-eq-ok (owned_resource_snapshot owned) _ after in
      let (evidence, given, rest) =
        >>=-eq-ok (both_or_neither desired observation)
          (λ evidence. recover (or_pending j.status) j p owned evidence) last in
      (evidence, valid, given, rest)

  pub journal_shape :
      (j : PreparationJournal) (p : PreparationPlan)
      → validate_journal j p ≡ ok tt
      → (check_shape (or_pending j.status) j ≡ ok tt)
        × ((not (in_rollback (or_pending j.status)) && j.rollback_applying != "") ≡ false)
  unfolding validate_journal validate_shape
  journal_shape j p h =
      let (u, a, rest) = >>=-eq-ok (validate_plan p) _ h in
      let (v, shape, more) = >>=-eq-ok (validate_shape j) _ rest in
      (ground (arith, shape), ground (arith, shape))

  -- RecoveryFor finalizes a commit only for a committing journal and where the given observation
  -- matches the given desired identity.
  pub recovery_for-finalizes :
      (j : PreparationJournal) (p : PreparationPlan) (owned : List OwnedResourceState)
      (desired : Option ResolvedIdentity) (observation : Option Observation)
      (d : PreparationRecoveryDecision)
      → recovery_for j p owned desired observation ≡ ok d
      → d.action ≡ PreparationRecoveryAction.finalize_commit_action
      → (or_pending j.status ≡ PreparationStatus.committing)
        × (i : ResolvedIdentity) × (o : Observation) × (desired ≡ some i)
        × (observation ≡ some o)
        × Matches i o
  unfolding recovery_for
  recovery_for-finalizes j p owned desired observation d e f =
      let (evidence, valid, given, rest) =
        recovery_for-inversion j p owned desired observation d e in
      let (status, i, o, here, m) =
        recover-finalizes (or_pending j.status) j p owned evidence d rest f in
      let (first, second) = both-given desired observation i o (given ∙ ap ok here) in
      (status, i, o, first, second, m)
