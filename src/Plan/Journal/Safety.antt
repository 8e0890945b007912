-- ===== src/Plan/Journal/Safety.antt =====
-- Which steps a preparation has left while a mutation is in flight, while a commit is in progress, and
-- when it is final.
use depengine.Plan.Ownership.{OwnedResourceState}
use depengine.Prelude.{
  ◌≡◌, ◌⊎◌, inl, inr, Bool, true, false, List, [], ◌∷◌, ◌++◌, arith, string_eq, nat_eq, ok,
}
use depengine.Prelude.{
  ◌≡◌, ◌⊎◌, inl, inr, Bool, true, false, List, [], ◌∷◌, ◌++◌, arith, string_eq, nat_eq, ok,
}
use depengine.Plan.Resource.{resource_identity_eq, ownership_kind_eq}
use depengine.Plan.Reference.{ReferenceLibrary}
use depengine.Plan.Preparation.{PreparationPlan, RollbackDecision}
use depengine.Plan.Journal.{PreparationStatus, PreparationJournal, in_rollback, validate_journal}
use depengine.Plan.Journal.Run.{
  Step, planned, applied_recorded, commit_marked, undo_recorded, resolved, commit_planned,
  commit_refused, committed, rollback_planned, undo_planned, undo_resolved, rolled_back,
}
use depengine.Plan.Journal.Forward.{plan_apply-inversion, record_applied-inversion}
use depengine.Plan.Journal.Resolving.{resolve_applying-inversion}
use depengine.Plan.Journal.Commit.{
  plan_commit-inversion, resolve_commit_not_applied-inversion, mark_committed-inversion,
}
use depengine.Plan.Journal.Rollback.{plan_rollback-inversion, plan_rollback_apply-inversion}
use depengine.Plan.Journal.Recorded.{record_rollback_applied-inversion}
use depengine.Plan.Journal.Finish.{
  resolve_rollback_applying-inversion, finalize_rollback-inversion, finalize_commit-mark_committed,
}
use depengine.Plan.Journal.Transitions.{is_applying, is_committing, ready_for_commit}
use depengine.Plan.Journal.Undoing.{plan_rollback}

abbrev pub is_final : PreparationStatus → Bool
is_final PreparationStatus.committed = true
is_final PreparationStatus.rolled_back = true
is_final _ = false

module _ ⦃lib : ReferenceLibrary⦄ where
  commit_ready :
      (j : PreparationJournal) (p : PreparationPlan)
      → validate_journal j p ≡ ok tt
      → ready_for_commit j p ≡ true
      → (is_applying j.status ≡ false)
        × (is_committing j.status ≡ false)
        × (is_final j.status ≡ false)
        × (in_rollback j.status ≡ false)
  unfolding ready_for_commit
  commit_ready j p v r = (ground arith, ground arith, ground arith, ground arith)

  may_start :
      (j k : PreparationJournal) (p : PreparationPlan) (owned : List OwnedResourceState)
      (d : RollbackDecision)
      → plan_rollback j p owned ≡ ok (k, d)
      → is_final j.status ≡ false
  unfolding plan_rollback
  may_start j k p owned d e = ground arith

  -- While a mutation is in flight the only step resolves that mutation: it is appended to the
  -- applied prefix, or withdrawn with the prefix unchanged. No commit and no rollback begins.
  pub applying-resolves :
      (p : PreparationPlan) (j k : PreparationJournal)
      → is_applying j.status ≡ true
      → Step p j k
      → ((k.applied ≡ j.applied ++ j.applying ∷ []) ⊎ (k.applied ≡ j.applied))
        × (k.applying ≡ "")
        × (in_rollback k.status ≡ false)
        × (is_committing k.status ≡ false)
  applying-resolves p j k a (planned id e) =
      let i = plan_apply-inversion j k p id e in absurd (ground (arith, i.1))
  applying-resolves p j k a (applied_recorded id e) =
      let (v, flying, same, made) = record_applied-inversion j k p id e in
      (ground (arith, made), ground (arith, made), ground (arith, made), ground (arith, made))
  applying-resolves p j k a (resolved id outcome e) =
      let (v, flying, same, how) = resolve_applying-inversion j k p id outcome e in
      elim how [
        | inl (o, made) ↦
            let (v', f', s', r) = record_applied-inversion j k p id made in
            (ground arith, ground arith, ground arith, ground arith)
        | inr (o, made) ↦ (ground arith, ground arith, ground arith, ground arith)
      ]
  applying-resolves p j k a (commit_planned e) =
      let i = plan_commit-inversion j k p e in absurd (ground (arith, commit_ready j p i.0 i.1))
  applying-resolves p j k a (commit_refused e) =
      let i = resolve_commit_not_applied-inversion j k p e in absurd (ground (arith, i.1))
  applying-resolves p j k a (commit_marked e) =
      let i = mark_committed-inversion j k p e in absurd (ground (arith, i.1))
  applying-resolves p j k a (committed owned owned' dependent e) =
      let i =
        mark_committed-inversion j k p
          (finalize_commit-mark_committed j k p owned owned' dependent e) in
      absurd (ground (arith, i.1))
  applying-resolves p j k a (rollback_planned owned d e) =
      let i = plan_rollback-inversion j k p owned d e in absurd (ground (arith, i.2, i.3))
  applying-resolves p j k a (undo_planned owned id op e) =
      let i = plan_rollback_apply-inversion j k p owned id op e in absurd (ground (arith, i.1))
  applying-resolves p j k a (undo_recorded owned id e) =
      let i = record_rollback_applied-inversion j k p owned id e in absurd (ground (arith, i.1))
  applying-resolves p j k a (undo_resolved owned id outcome e) =
      let i = resolve_rollback_applying-inversion j k p owned id outcome e in
      absurd (ground (arith, i.1))
  applying-resolves p j k a (rolled_back owned owned' e) =
      let i = finalize_rollback-inversion j k p owned owned' e in absurd (ground (arith, i.1))

  -- While a commit is in progress the only steps record it as committed or make the journal ready
  -- again; in both the recorded mutations stay as they are. No rollback begins.
  pub committing-resolves :
      (p : PreparationPlan) (j k : PreparationJournal)
      → is_committing j.status ≡ true
      → Step p j k
      → (k ≡ record j { status = PreparationStatus.committed })
        ⊎ (k ≡ record j { status = PreparationStatus.ready })
  committing-resolves p j k a (planned id e) =
      let i = plan_apply-inversion j k p id e in absurd (ground (arith, i.1))
  committing-resolves p j k a (applied_recorded id e) =
      let i = record_applied-inversion j k p id e in absurd (ground (arith, i.1))
  committing-resolves p j k a (resolved id outcome e) =
      let i = resolve_applying-inversion j k p id outcome e in absurd (ground (arith, i.1))
  committing-resolves p j k a (commit_planned e) =
      let i = plan_commit-inversion j k p e in absurd (ground (arith, commit_ready j p i.0 i.1))
  committing-resolves p j k a (commit_refused e) =
      inr (resolve_commit_not_applied-inversion j k p e).2
  committing-resolves p j k a (commit_marked e) = inl (mark_committed-inversion j k p e).2
  committing-resolves p j k a (committed owned owned' dependent e) =
      inl
        (mark_committed-inversion j k p
          (finalize_commit-mark_committed j k p owned owned' dependent e)).2
  committing-resolves p j k a (rollback_planned owned d e) =
      let i = plan_rollback-inversion j k p owned d e in absurd (ground (arith, i.2, i.3))
  committing-resolves p j k a (undo_planned owned id op e) =
      let i = plan_rollback_apply-inversion j k p owned id op e in absurd (ground (arith, i.1))
  committing-resolves p j k a (undo_recorded owned id e) =
      let i = record_rollback_applied-inversion j k p owned id e in absurd (ground (arith, i.1))
  committing-resolves p j k a (undo_resolved owned id outcome e) =
      let i = resolve_rollback_applying-inversion j k p owned id outcome e in
      absurd (ground (arith, i.1))
  committing-resolves p j k a (rolled_back owned owned' e) =
      let i = finalize_rollback-inversion j k p owned owned' e in absurd (ground (arith, i.1))

  -- A committed or rolled-back journal has no further step.
  pub final-stays :
      (p : PreparationPlan) (j k : PreparationJournal) → is_final j.status ≡ true → ¬ Step p j k
  final-stays p j k a (planned id e) =
      let i = plan_apply-inversion j k p id e in ground (arith, i.1)
  final-stays p j k a (applied_recorded id e) =
      let i = record_applied-inversion j k p id e in ground (arith, i.1)
  final-stays p j k a (resolved id outcome e) =
      let i = resolve_applying-inversion j k p id outcome e in ground (arith, i.1)
  final-stays p j k a (commit_planned e) =
      let i = plan_commit-inversion j k p e in ground (arith, commit_ready j p i.0 i.1)
  final-stays p j k a (commit_refused e) =
      let i = resolve_commit_not_applied-inversion j k p e in ground (arith, i.1)
  final-stays p j k a (commit_marked e) =
      let i = mark_committed-inversion j k p e in ground (arith, i.1)
  final-stays p j k a (committed owned owned' dependent e) =
      let i =
        mark_committed-inversion j k p
          (finalize_commit-mark_committed j k p owned owned' dependent e) in
      ground (arith, i.1)
  final-stays p j k a (rollback_planned owned d e) =
      let c = may_start j k p owned d e in ground (arith, c)
  final-stays p j k a (undo_planned owned id op e) =
      let i = plan_rollback_apply-inversion j k p owned id op e in ground (arith, i.1)
  final-stays p j k a (undo_recorded owned id e) =
      let i = record_rollback_applied-inversion j k p owned id e in ground (arith, i.1)
  final-stays p j k a (undo_resolved owned id outcome e) =
      let i = resolve_rollback_applying-inversion j k p owned id outcome e in ground (arith, i.1)
  final-stays p j k a (rolled_back owned owned' e) =
      let i = finalize_rollback-inversion j k p owned owned' e in ground (arith, i.1)
