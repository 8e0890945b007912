-- ===== src/Plan/Recovery/Quiet.antt =====
-- When crash recovery of a preparation hands out rollback operations.
use depengine.Prelude.{
  ◌≡◌, ◌⊎◌, ap, Bool, true, false, ◌&&◌, not, Option, none, some, List, arith, ◌==◌, ◌!=◌,
  string_eq, Bool-cases, inl, inr, ok,
}
use depengine.Plan.Reference.{ReferenceLibrary}
use depengine.Plan.Identity.{ResolvedIdentity}
use depengine.Plan.Observation.{Observation}
use depengine.Plan.Verification.{reconcile}
use depengine.Plan.Ownership.{OwnedResourceState}
use depengine.Plan.Preparation.{PreparationPlan}
use depengine.Plan.Journal.{
  PreparationStatus, PreparationJournal, or_pending, in_rollback, check_shape,
}
use depengine.Plan.Recovery.{
  [], PreparationRecoveryAction, PreparationRecoveryDecision, no_evidence, is_satisfied,
  reconcile_commit_outcome, resume, recover, recovery_for,
}
use depengine.Plan.Recovery.Crash.{roll_back-action, recovery_for-inversion, journal_shape}

module _ ⦃lib : ReferenceLibrary⦄ where
  -- the actions that run rollback operations
  abbrev pub undoes : PreparationRecoveryAction → Bool
  undoes PreparationRecoveryAction.rollback_preparation = true
  undoes PreparationRecoveryAction.resume_rollback = true
  undoes _ = false

  -- a decision with nothing to undo
  pub record NoUndo (d : PreparationRecoveryDecision) : Type 0 where
    pub operations : d.rollback.operations ≡ []
    pub operation_ids : d.rollback.operation_ids ≡ []
    pub action : undoes d.action ≡ false

  commit_outcome-NoUndo :
      (evidence : Option (ResolvedIdentity × Observation)) (d : PreparationRecoveryDecision)
      → reconcile_commit_outcome evidence ≡ ok d
      → NoUndo d
  unfolding reconcile_commit_outcome
  commit_outcome-NoUndo none d e = ground arith
  commit_outcome-NoUndo (some (desired, o)) d e =
      elim (Bool-cases (is_satisfied (reconcile desired o).state)) [
        | inl found ↦ ground (arith, found)
        | inr other ↦ ground (arith, other)
      ]

  -- no operation of the journal is in flight
  abbrev pub NothingInFlight : PreparationJournal → Type 0
  NothingInFlight j = ((j.applying == "") ≡ true) × ((j.rollback_applying == "") ≡ true)

  resume-quiet :
      (j : PreparationJournal) (p : PreparationPlan) (owned : List OwnedResourceState)
      (evidence : Option (ResolvedIdentity × Observation)) (d : PreparationRecoveryDecision)
      → resume j p owned evidence ≡ ok d
      → NoUndo d ⊎ ((undoes d.action ≡ true) × ((j.rollback_applying == "") ≡ true))
  unfolding resume
  resume-quiet j p owned evidence d e = elim (Bool-cases (j.rollback_applying != "")) [
    | inl busy ↦ inl (ground (arith, busy))
    | inr idle ↦ inr (ground (arith, idle))
  ]

  recover-quiet :
      (status : PreparationStatus) (j : PreparationJournal) (p : PreparationPlan)
      (owned : List OwnedResourceState) (evidence : Option (ResolvedIdentity × Observation))
      (d : PreparationRecoveryDecision)
      → check_shape status j ≡ ok tt
      → (not (in_rollback status) && j.rollback_applying != "") ≡ false
      → recover status j p owned evidence ≡ ok d
      → NoUndo d ⊎ ((undoes d.action ≡ true) × NothingInFlight j)
  unfolding recover no_evidence check_shape
  recover-quiet PreparationStatus.unset j p owned evidence d h r e = absurd (cc h)
  recover-quiet PreparationStatus.pending j p owned evidence d h r e =
      inr (ap undoes (roll_back-action j p owned evidence d e), (ground arith, ground arith))
  recover-quiet PreparationStatus.preparing j p owned evidence d h r e =
      inr (ap undoes (roll_back-action j p owned evidence d e), (ground arith, ground arith))
  recover-quiet PreparationStatus.ready j p owned evidence d h r e =
      inr (ap undoes (roll_back-action j p owned evidence d e), (ground arith, ground arith))
  recover-quiet PreparationStatus.applying j p owned none d h r e = inl (ground arith)
  recover-quiet PreparationStatus.applying j p owned (some x) d h r e = absurd (cc e)
  recover-quiet PreparationStatus.committing j p owned evidence d h r e =
      inl (commit_outcome-NoUndo evidence d e)
  recover-quiet PreparationStatus.rolling_back j p owned evidence d h r e =
      elim (resume-quiet j p owned evidence d e) [
        | inl stopped ↦ inl stopped
        | inr (undone, idle) ↦ inr (undone, (ground arith, idle))
      ]
  recover-quiet PreparationStatus.committed j p owned evidence d h r e = absurd (cc e)
  recover-quiet PreparationStatus.rolled_back j p owned evidence d h r e = absurd (cc e)
  recover-quiet (PreparationStatus.unlisted s) j p owned evidence d h r e = absurd (cc e)

  -- Where RecoveryFor returns a decision, either it hands out no rollback operation and no operation
  -- id and its action does not undo anything, or its action undoes and the journal has no mutation
  -- and no rollback operation in flight.
  pub recovery_for-quiet :
      (j : PreparationJournal) (p : PreparationPlan) (owned : List OwnedResourceState)
      (desired : Option ResolvedIdentity) (observation : Option Observation)
      (d : PreparationRecoveryDecision)
      → recovery_for j p owned desired observation ≡ ok d
      → NoUndo d ⊎ ((undoes d.action ≡ true) × NothingInFlight j)
  recovery_for-quiet j p owned desired observation d e =
      let (evidence, valid, given, rest) =
        recovery_for-inversion j p owned desired observation d e in
      let (shape, idle) = journal_shape j p valid in
      recover-quiet (or_pending j.status) j p owned evidence d shape idle rest
