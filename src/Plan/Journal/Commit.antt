-- ===== src/Plan/Journal/Commit.antt =====
-- The transitions around a commit keep a journal valid.
use depengine.Plan.Journal.Validity.{IsValid-validate, validate-IsValid, IsValid}
use depengine.Plan.Journal.Transitions.{
  is_committing, resolve_commit_not_applied, ready_for_commit, mark_committed, plan_commit,
}
use depengine.Prelude.{arith, ◌≡◌}
use depengine.Plan.Journal.{
  false, or_pending, in_rollback, validate_journal, length, ok, true, PreparationPlan,
  PreparationJournal, PreparationStatus, check_shape, check_progress,
}
use depengine.Plan.Reference.{ReferenceLibrary}

module _ ⦃lib : ReferenceLibrary⦄ where
  -- What PlanCommit establishes: the plan's mutations are all recorded.
  pub plan_commit-inversion :
      (j k : PreparationJournal) (p : PreparationPlan)
      → plan_commit j p ≡ ok k
      → (validate_journal j p ≡ ok tt)
        × (ready_for_commit j p ≡ true)
        × (k ≡ record j { status = PreparationStatus.committing })
  unfolding plan_commit
  plan_commit-inversion j k p e = ground arith

  -- a journal that is ready to commit has recorded every mutation and has none in flight
  pub ready_for_commit_complete :
      (j : PreparationJournal) (p : PreparationPlan)
      → IsValid j p
      → ready_for_commit j p ≡ true
      → (length j.applied ≡ length p.prepare)
        × (j.applying ≡ "")
        × (in_rollback (or_pending j.status) ≡ false)
  unfolding ready_for_commit check_shape check_progress
  ready_for_commit_complete j p v r =
      (ground (arith, v.shape), ground (arith, v.shape), ground arith)

  committing-IsValid :
      (j : PreparationJournal) (p : PreparationPlan)
      → IsValid j p
      → ready_for_commit j p ≡ true
      → IsValid (record j { status = PreparationStatus.committing }) p
  unfolding check_shape check_progress
  committing-IsValid j p v r =
      let (full, idle, quiet) = ready_for_commit_complete j p v r in
      record {
        plan = v.plan;
        ids = v.ids;
        in_flight = v.in_flight;
        rollback_ids = v.rollback_ids;
        rollback_in_flight = v.rollback_in_flight;
        no_rollback = ground (arith, v.no_rollback, quiet);
        shape = ground (arith, idle);
        fits = v.fits;
        applied_prefix = v.applied_prefix;
        rollback = v.rollback;
        progress = ground (arith, full);
      }

  -- PlanCommit keeps a journal valid.
  pub plan_commit-IsValid :
      (j k : PreparationJournal) (p : PreparationPlan)
      → plan_commit j p ≡ ok k
      → validate_journal k p ≡ ok tt
  plan_commit-IsValid j k p e =
      let (valid, ready, made) = plan_commit-inversion j k p e in
      rw made (validate-IsValid _ p (committing-IsValid j p (IsValid-validate j p valid) ready))

  -- after a commit that did not take effect, or that completed
  resolved-IsValid :
      (j : PreparationJournal) (p : PreparationPlan)
      → IsValid j p
      → is_committing j.status ≡ true
      → IsValid (record j { status = PreparationStatus.ready }) p
        × IsValid (record j { status = PreparationStatus.committed }) p
  unfolding check_shape check_progress
  resolved-IsValid j p v c = (
    record {
      plan = v.plan;
      ids = v.ids;
      in_flight = v.in_flight;
      rollback_ids = v.rollback_ids;
      rollback_in_flight = v.rollback_in_flight;
      no_rollback = ground (arith, v.no_rollback);
      shape = ground (arith, v.shape);
      fits = v.fits;
      applied_prefix = v.applied_prefix;
      rollback = v.rollback;
      progress = ground (arith, v.progress);
    },
    record {
      plan = v.plan;
      ids = v.ids;
      in_flight = v.in_flight;
      rollback_ids = v.rollback_ids;
      rollback_in_flight = v.rollback_in_flight;
      no_rollback = ground (arith, v.no_rollback);
      shape = ground (arith, v.shape);
      fits = v.fits;
      applied_prefix = v.applied_prefix;
      rollback = v.rollback;
      progress = ground (arith, v.progress);
    },
  )

  pub resolve_commit_not_applied-inversion :
      (j k : PreparationJournal) (p : PreparationPlan)
      → resolve_commit_not_applied j p ≡ ok k
      → (validate_journal j p ≡ ok tt)
        × (is_committing j.status ≡ true)
        × (k ≡ record j { status = PreparationStatus.ready })
  unfolding resolve_commit_not_applied
  resolve_commit_not_applied-inversion j k p e = ground arith

  pub mark_committed-inversion :
      (j k : PreparationJournal) (p : PreparationPlan)
      → mark_committed j p ≡ ok k
      → (validate_journal j p ≡ ok tt)
        × (is_committing j.status ≡ true)
        × (k ≡ record j { status = PreparationStatus.committed })
  unfolding mark_committed
  mark_committed-inversion j k p e = ground arith

  -- ResolveCommitNotApplied keeps a journal valid.
  pub resolve_commit_not_applied-IsValid :
      (j k : PreparationJournal) (p : PreparationPlan)
      → resolve_commit_not_applied j p ≡ ok k
      → validate_journal k p ≡ ok tt
  resolve_commit_not_applied-IsValid j k p e =
      let (valid, open_commit, made) = resolve_commit_not_applied-inversion j k p e in
      rw made
        (validate-IsValid _ p (resolved-IsValid j p (IsValid-validate j p valid) open_commit).0)

  -- MarkCommitted keeps a journal valid.
  pub mark_committed-IsValid :
      (j k : PreparationJournal) (p : PreparationPlan)
      → mark_committed j p ≡ ok k
      → validate_journal k p ≡ ok tt
  mark_committed-IsValid j k p e =
      let (valid, open_commit, made) = mark_committed-inversion j k p e in
      rw made
        (validate-IsValid _ p (resolved-IsValid j p (IsValid-validate j p valid) open_commit).1)
