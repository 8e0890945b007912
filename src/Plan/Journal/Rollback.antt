-- ===== src/Plan/Journal/Rollback.antt =====
-- The transitions of a rollback keep a journal valid, and what each of them establishes.
use depengine.Plan.Preparation.Steps.{rollback_steps_for-Planned}
use depengine.Plan.Operation.{Operation}
use depengine.Plan.Ownership.{OwnedResourceState}
use depengine.Prelude.{
  Result-cases, ℕ, String, ◌≡◌, refl, inl, inr, true, false, some, List, [], ◌∷◌, ◌++◌, arith,
  string_eq, nat_eq, Option-cases, length, get_elem?, ok,
}
use depengine.Plan.Resource.{ResourceIdentity, resource_identity_eq, ownership_kind_eq}
use depengine.Plan.Reference.{ReferenceLibrary}
use depengine.Plan.Preparation.{
  PreparationMutation, PreparationPlan, RollbackStep, RollbackDecision, rollback_steps_for,
  rollback_for,
}
use depengine.Plan.Journal.{
  check_ids, find_below, PreparationStatus, PreparationJournal, or_pending, in_rollback,
  check_shape, check_progress, check_rollback, check_in_flight, validate_journal,
}
use depengine.Plan.Journal.Validity.{
  IsValid, IsValid-validate, validate-IsValid, validate_plan-prepare,
}
use depengine.Plan.Journal.Forward.{check_in_flight-new}
use depengine.Plan.Journal.Order.{next_step_is_new, check_rollback-Planned}
use depengine.Plan.Journal.Transitions.{is_committing, is_applying, is_rolling_back}
use depengine.Plan.Journal.Undoing.{check_done, plan_rollback, plan_rollback_apply}

-- An empty last entry adds nothing to rollback progress.
pub check_rollback-end :
    (ms : List PreparationMutation) (ids : List String) (k : ℕ)
    → check_rollback ms k ids ≡ ok tt
    → check_rollback ms k (ids ++ "" ∷ []) ≡ ok tt
unfolding check_rollback
check_rollback-end ms [] k h = ground arith
check_rollback-end ms (id ∷ ids) k h = elim (Option-cases (find_below ms id k)) [
  | inl missing ↦ ground (arith, missing, check_rollback-end ms ids k)
  | inr (i, found) ↦ ground (arith, found, check_rollback-end ms ids k, check_rollback-end ms ids i)
]

-- Progress stays in order when its last entry is withdrawn.
pub check_rollback-withdraw :
    (ms : List PreparationMutation) (ids : List String) (last : String) (k : ℕ)
    → check_rollback ms k (ids ++ last ∷ []) ≡ ok tt
    → check_rollback ms k (ids ++ "" ∷ []) ≡ ok tt
unfolding check_rollback
check_rollback-withdraw ms [] last k h = ground arith
check_rollback-withdraw ms (id ∷ ids) last k h = elim (Option-cases (find_below ms id k)) [
  | inl missing ↦ ground (arith, missing, check_rollback-withdraw ms ids last k)
  | inr (i, found) ↦
      ground
        (arith, found, check_rollback-withdraw ms ids last k, check_rollback-withdraw ms ids last i)
]

module _ ⦃lib : ReferenceLibrary⦄ where
  -- The next step's id extends progress that follows the steps.
  check_done-append :
      (ids : List String) (steps : List RollbackStep) (s : RollbackStep)
      → check_done ids steps ≡ ok tt
      → get_elem? steps (length ids) ≡ some s
      → check_done (ids ++ s.id ∷ []) steps ≡ ok tt
  unfolding check_done
  check_done-append [] [] s h e = cc
  check_done-append [] (t ∷ steps) s h e = ground arith
  check_done-append (id ∷ ids) [] s h e = cc
  check_done-append (id ∷ ids) (t ∷ steps) s h e = ground (arith, check_done-append ids steps s)

  -- a journal that may start a rollback has nothing in flight
  idle_start :
      (j : PreparationJournal) (p : PreparationPlan) (owned : List OwnedResourceState)
      (k : PreparationJournal) (d : RollbackDecision)
      → plan_rollback j p owned ≡ ok (k, d)
      → (validate_journal j p ≡ ok tt)
        × (in_rollback (or_pending j.status) ≡ false)
        × (is_applying j.status ≡ false)
        × (is_committing j.status ≡ false)
  unfolding plan_rollback
  idle_start j p owned k d e = (ground arith, ground arith, ground arith, ground arith)

  -- what PlanRollback establishes: no mutation, commit or rollback is in progress
  pub plan_rollback-inversion :
      (j k : PreparationJournal) (p : PreparationPlan) (owned : List OwnedResourceState)
      (d : RollbackDecision)
      → plan_rollback j p owned ≡ ok (k, d)
      → (validate_journal j p ≡ ok tt)
        × (in_rollback (or_pending j.status) ≡ false)
        × (is_applying j.status ≡ false)
        × (is_committing j.status ≡ false)
        × (rollback_for p j.applied owned ≡ ok d)
        × (k ≡ record j {
          status = PreparationStatus.rolling_back;
          rollback_applied = [];
          rollback_applying = "";
        })
  unfolding plan_rollback
  plan_rollback-inversion j k p owned d e =
      let (valid, quiet, idle, closed) = idle_start j p owned k d e in
      (valid, quiet, idle, closed, ground arith, ground arith)

  started-IsValid :
      (j : PreparationJournal) (p : PreparationPlan)
      → IsValid j p
      → is_applying j.status ≡ false
      → IsValid
          (record j {
            status = PreparationStatus.rolling_back;
            rollback_applied = [];
            rollback_applying = "";
          })
          p
  unfolding check_shape check_progress check_ids check_in_flight check_rollback
  started-IsValid j p v idle = record {
    plan = v.plan;
    ids = v.ids;
    in_flight = v.in_flight;
    rollback_ids = refl;
    rollback_in_flight = ground arith;
    no_rollback = refl;
    shape = ground (arith, v.shape);
    fits = v.fits;
    applied_prefix = v.applied_prefix;
    rollback = ground arith;
    progress = refl;
  }

  -- PlanRollback keeps a journal valid.
  pub plan_rollback-IsValid :
      (j k : PreparationJournal) (p : PreparationPlan) (owned : List OwnedResourceState)
      (d : RollbackDecision)
      → plan_rollback j p owned ≡ ok (k, d)
      → validate_journal k p ≡ ok tt
  plan_rollback-IsValid j k p owned d e =
      let (valid, quiet, idle, closed, decided, made) = plan_rollback-inversion j k p owned d e in
      rw made (validate-IsValid _ p (started-IsValid j p (IsValid-validate j p valid) idle))

  -- what PlanApply of a rollback establishes: the id and the operation are those of the next step
  pub plan_rollback_apply-inversion :
      (j k : PreparationJournal) (p : PreparationPlan) (owned : List OwnedResourceState)
      (id : String) (op : Operation)
      → plan_rollback_apply j p owned id ≡ ok (k, op)
      → (validate_journal j p ≡ ok tt)
        × (is_rolling_back j.status ≡ true)
        × (j.rollback_applying ≡ "")
        × (steps : List RollbackStep) × (retained : List ResourceIdentity) × (s : RollbackStep)
        × (rollback_steps_for p j.applied owned ≡ ok (steps, retained))
        × (check_done j.rollback_applied steps ≡ ok tt)
        × (get_elem? steps (length j.rollback_applied) ≡ some s)
        × (id ≡ s.id)
        × (op ≡ s.operation)
        × (k ≡ record j { rollback_applying = s.id })
  unfolding plan_rollback_apply
  plan_rollback_apply-inversion j k p owned id op e =
      let h0 : validate_journal j p ≡ ok tt = ground arith in
      let h1 : is_rolling_back j.status ≡ true = ground arith in
      let h2 : j.rollback_applying ≡ "" = ground arith in
      elim (Result-cases (rollback_steps_for p j.applied owned)) [
        | inr (message, failed) ↦ absurd (ground (arith, failed))
        | inl ((steps, retained), planned) ↦
            elim (Option-cases (get_elem? steps (length j.rollback_applied))) [
              | inl missing ↦ absurd (ground (arith, planned, missing))
              | inr (s, there) ↦ (
                h0,
                h1,
                h2,
                steps,
                retained,
                s,
                planned,
                ground (arith, planned, there),
                there,
                ground (arith, planned, there),
                ground (arith, planned, there),
                ground (arith, planned, there),
              )
            ]
      ]

  undoing-IsValid :
      (j : PreparationJournal) (p : PreparationPlan) (owned : List OwnedResourceState)
      (steps : List RollbackStep) (retained : List ResourceIdentity) (s : RollbackStep)
      → IsValid j p
      → is_rolling_back j.status ≡ true
      → rollback_steps_for p j.applied owned ≡ ok (steps, retained)
      → check_done j.rollback_applied steps ≡ ok tt
      → get_elem? steps (length j.rollback_applied) ≡ some s
      → IsValid (record j { rollback_applying = s.id }) p
  unfolding check_shape check_progress
  undoing-IsValid j p owned steps retained s v rolling made followed there =
      let (m, built, prefixed, plan, planned) =
        rollback_steps_for-Planned p j.applied owned steps retained made in
      let prepare = validate_plan-prepare p v.plan in
      let new = next_step_is_new p.prepare prepare j.rollback_applied s planned followed there in
      record {
        plan = v.plan;
        ids = v.ids;
        in_flight = v.in_flight;
        rollback_ids = v.rollback_ids;
        rollback_in_flight = (check_in_flight-new s.id j.rollback_applied new.0 new.1).0;
        no_rollback = ground (arith, rolling);
        shape = ground (arith, rolling, v.shape);
        fits = v.fits;
        applied_prefix = v.applied_prefix;
        rollback =
            check_rollback-Planned p.prepare prepare planned (j.rollback_applied ++ s.id ∷ [])
              (check_done-append j.rollback_applied steps s followed there);
        progress = ground (arith, rolling);
      }

  -- PlanApply of a rollback keeps a journal valid.
  pub plan_rollback_apply-IsValid :
      (j k : PreparationJournal) (p : PreparationPlan) (owned : List OwnedResourceState)
      (id : String) (op : Operation)
      → plan_rollback_apply j p owned id ≡ ok (k, op)
      → validate_journal k p ≡ ok tt
  plan_rollback_apply-IsValid j k p owned id op e =
      let (valid, rolling, idle, steps, retained, s, planned, followed, there, same, op', made) =
        plan_rollback_apply-inversion j k p owned id op e in
      rw made (
        validate-IsValid _ p (
          undoing-IsValid j p owned steps retained s (IsValid-validate j p valid) rolling planned
            followed there))
