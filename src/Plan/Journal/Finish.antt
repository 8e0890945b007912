-- ===== src/Plan/Journal/Finish.antt =====
-- The transitions that end a preparation or a rollback keep a journal valid.
use depengine.Plan.Ownership.Ledger.{owned_resource_snapshot}
use depengine.Plan.Ownership.{validate_dependent, OwnedResourceState}
use depengine.Prelude.{
  String, ◌≡◌, refl, ◌∙◌, ◌⊎◌, inl, inr, true, false, not, List, [], arith, ◌==◌, ◌!=◌, string_eq,
  nat_eq, length, is_empty, ok, fail_if, >>=-eq-ok,
}
use depengine.Plan.Resource.{resource_identity_eq, ownership_kind_eq}
use depengine.Plan.Reference.{ReferenceLibrary}
use depengine.Plan.Preparation.{PreparationPlan, RollbackDecision, rollback_for}
use depengine.Plan.Journal.{
  PreparationStatus, MutationOutcome, PreparationJournal, check_shape, check_progress,
  check_in_flight, validate_journal,
}
use depengine.Plan.Journal.Validity.{IsValid, IsValid-validate, validate-IsValid}
use depengine.Plan.Journal.Rollback.{check_rollback-withdraw}
use depengine.Plan.Journal.Recorded.{record_rollback_applied-IsValid}
use depengine.Plan.Journal.Transitions.{
  claim_mutations, is_rolling_back, mark_committed, finalize_commit,
}
use depengine.Plan.Journal.Undoing.{
  retain_all, record_rollback_applied, resolve_rollback_applying, remaining_rollback,
  finalize_rollback,
}

module _ ⦃lib : ReferenceLibrary⦄ where
  -- what ResolveApplying of a rollback establishes
  pub resolve_rollback_applying-inversion :
      (j k : PreparationJournal) (p : PreparationPlan) (owned : List OwnedResourceState)
      (id : String) (outcome : MutationOutcome)
      → resolve_rollback_applying j p owned id outcome ≡ ok k
      → (validate_journal j p ≡ ok tt)
        × (is_rolling_back j.status ≡ true)
        × ((j.rollback_applying == "") ≡ false)
        × (id ≡ j.rollback_applying)
        × (((outcome ≡ MutationOutcome.applied) × (record_rollback_applied j p owned id ≡ ok k))
            ⊎ ((outcome ≡ MutationOutcome.not_applied) × (k ≡ record j { rollback_applying = "" })))
  unfolding resolve_rollback_applying
  resolve_rollback_applying-inversion j k p owned id outcome e =
      (ground arith, ground arith, ground arith, ground arith, ground arith)

  stopped-IsValid :
      (j : PreparationJournal) (p : PreparationPlan)
      → IsValid j p
      → is_rolling_back j.status ≡ true
      → IsValid (record j { rollback_applying = "" }) p
  unfolding check_shape check_progress check_in_flight
  stopped-IsValid j p v rolling = record {
    plan = v.plan;
    ids = v.ids;
    in_flight = v.in_flight;
    rollback_ids = v.rollback_ids;
    rollback_in_flight = ground arith;
    no_rollback = ground (arith, rolling);
    shape = ground (arith, rolling, v.shape);
    fits = v.fits;
    applied_prefix = v.applied_prefix;
    rollback =
        check_rollback-withdraw p.prepare j.rollback_applied j.rollback_applying (length j.applied)
          v.rollback;
    progress = ground (arith, rolling);
  }

  -- ResolveApplying of a rollback keeps a journal valid.
  pub resolve_rollback_applying-IsValid :
      (j k : PreparationJournal) (p : PreparationPlan) (owned : List OwnedResourceState)
      (id : String) (outcome : MutationOutcome)
      → resolve_rollback_applying j p owned id outcome ≡ ok k
      → validate_journal k p ≡ ok tt
  resolve_rollback_applying-IsValid j k p owned id outcome e =
      let (valid, rolling, flying, same, how) =
        resolve_rollback_applying-inversion j k p owned id outcome e in
      elim how [
        | inl (o, made) ↦ record_rollback_applied-IsValid j k p owned id made
        | inr (o, made) ↦
            rw made
              (validate-IsValid _ p (stopped-IsValid j p (IsValid-validate j p valid) rolling))
      ]

  -- what FinalizeRollback establishes: nothing is in flight and no operation remains
  pub finalize_rollback-inversion :
      (j k : PreparationJournal) (p : PreparationPlan) (owned owned' : List OwnedResourceState)
      → finalize_rollback j p owned ≡ ok (k, owned')
      → (validate_journal j p ≡ ok tt)
        × (is_rolling_back j.status ≡ true)
        × (j.rollback_applying ≡ "")
        × (r : RollbackDecision) × (remaining_rollback j p owned ≡ ok r)
        × (r.operations ≡ [])
        × (k ≡ record j { status = PreparationStatus.rolled_back; rollback_applying = "" })
  unfolding finalize_rollback
  finalize_rollback-inversion j k p owned owned' e =
      let (t0, valid, e0) = >>=-eq-ok (validate_journal j p) _ e in
      let (t1, rolling, e1) = >>=-eq-ok (fail_if (not (is_rolling_back j.status)) _) _ e0 in
      let (t2, idle, e2) = >>=-eq-ok (fail_if (j.rollback_applying != "") _) _ e1 in
      let (r, left, e3) = >>=-eq-ok (remaining_rollback j p owned) _ e2 in
      let (t4, none_left, e4) = >>=-eq-ok (fail_if (not (is_empty r.operations)) _) _ e3 in
      let (d, decided, e5) = >>=-eq-ok (rollback_for p j.applied owned) _ e4 in
      let (m, built, e6) = >>=-eq-ok (owned_resource_snapshot owned) _ e5 in
      let (m', kept, e7) = >>=-eq-ok (retain_all p.prepare (length j.applied) m d.retained) _ e6 in
      (valid, ground arith, ground arith, r, left, ground arith, ground arith)

  undone_all-IsValid :
      (j : PreparationJournal) (p : PreparationPlan)
      → IsValid j p
      → is_rolling_back j.status ≡ true
      → IsValid (record j { status = PreparationStatus.rolled_back; rollback_applying = "" }) p
  unfolding check_shape check_progress check_in_flight
  undone_all-IsValid j p v rolling =
      let w = stopped-IsValid j p v rolling in
      record {
        plan = v.plan;
        ids = v.ids;
        in_flight = v.in_flight;
        rollback_ids = v.rollback_ids;
        rollback_in_flight = w.rollback_in_flight;
        no_rollback = refl;
        shape = ground (arith, rolling, v.shape);
        fits = v.fits;
        applied_prefix = v.applied_prefix;
        rollback = w.rollback;
        progress = refl;
      }

  -- FinalizeRollback keeps a journal valid.
  pub finalize_rollback-IsValid :
      (j k : PreparationJournal) (p : PreparationPlan) (owned owned' : List OwnedResourceState)
      → finalize_rollback j p owned ≡ ok (k, owned')
      → validate_journal k p ≡ ok tt
  finalize_rollback-IsValid j k p owned owned' e =
      let (valid, rolling, idle, r, left, none_left, made) =
        finalize_rollback-inversion j k p owned owned' e in
      rw made (validate-IsValid _ p (undone_all-IsValid j p (IsValid-validate j p valid) rolling))

  -- FinalizeCommit moves the journal as MarkCommitted does.
  pub finalize_commit-mark_committed :
      (j k : PreparationJournal) (p : PreparationPlan) (owned owned' : List OwnedResourceState)
      (dependent : String)
      → finalize_commit j p owned dependent ≡ ok (k, owned')
      → mark_committed j p ≡ ok k
  unfolding finalize_commit
  finalize_commit-mark_committed j k p owned owned' dependent e =
      let (t0, named, e0) = >>=-eq-ok (validate_dependent dependent) _ e in
      let (m, built, e1) = >>=-eq-ok (owned_resource_snapshot owned) _ e0 in
      let (c, made, e2) = >>=-eq-ok (mark_committed j p) _ e1 in
      let (m', claimed, e3) = >>=-eq-ok (claim_mutations dependent m p.prepare) _ e2 in
      made ∙ ground arith
