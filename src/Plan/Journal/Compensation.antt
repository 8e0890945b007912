-- ===== src/Plan/Journal/Compensation.antt =====
-- Which operations a rollback runs, and that it runs all of them.
use depengine.Plan.Operation.{Operation}
use depengine.Plan.Ownership.Ledger.{Snapshot}
use depengine.Plan.Ownership.{OwnedResourceState}
use depengine.Prelude.{
  ℕ, zero, suc, ◌<◌, String, ◌≡◌, refl, sym, ap, ◌∙◌, true, false, ◌&&◌, not, some, List, [], ◌∷◌,
  arith, string_eq, nat_eq, ltb, length, get_elem?, drop, ok, >>=-eq-ok, lookup,
}
use depengine.Plan.Resource.{ResourceIdentity, resource_identity_eq, ownership_kind_eq}
use depengine.Plan.Reference.{ReferenceLibrary}
use depengine.Plan.Preparation.{
  PreparationMutation, PreparationPlan, RollbackDecision, RollbackStep, is_safe, rollback_steps_for,
  step_ids, step_operations,
}
use depengine.Plan.Preparation.Steps.{
  Planned, done, keep, undo, is_claimed, rollback_steps_for-Planned,
}
use depengine.Plan.Ownership.Ledger.Snapshot.{find_state, owned_resource_snapshot-holds}
use depengine.Plan.Journal.{PreparationJournal}
use depengine.Plan.Journal.Rollback.{plan_rollback_apply-inversion}
use depengine.Plan.Journal.Finish.{finalize_rollback-inversion}
use depengine.Plan.Journal.Undoing.{
  check_done, plan_rollback_apply, remaining_rollback, finalize_rollback,
}

module _ ⦃lib : ReferenceLibrary⦄ where
  pub step-undoes :
      {owned : Snapshot} {ms : List PreparationMutation} {k : ℕ} {steps : List RollbackStep}
      {retained : List ResourceIdentity} (i : ℕ) (s : RollbackStep)
      → Planned owned ms k steps retained
      → get_elem? steps i ≡ some s
      → (n : ℕ) × (m : PreparationMutation) × (n < k)
        × (get_elem? ms n ≡ some m)
        × (s.id ≡ m.id)
        × (m.rollback ≡ some s.operation)
        × ((is_safe m.policy && not (is_claimed (lookup m.resource owned))) ≡ true)
  step-undoes i s done e = absurd (cc e)
  step-undoes i s (keep m there held rest) e =
      let (n, u, l, at, named, undoes, free) = step-undoes i s rest e in
      (n, u, omega arith, at, named, undoes, free)
  step-undoes zero s (undo {k = k} m operation there undoes free rest) e =
      (k, m, omega arith, there, ground arith, ground (arith, undoes), free)
  step-undoes (suc i) s (undo m operation there undoes free rest) e =
      let (n, u, l, at, named, undoes', free') = step-undoes i s rest e in
      (n, u, omega arith, at, named, undoes', free')

  -- A rollback operation that is planned undoes an applied mutation of the plan whose rollback is
  -- declared safe, by the operation that this mutation declares, and only where the recorded owned
  -- resources have no dependent on the mutation's resource.
  pub plan_rollback_apply-spares_claimed :
      (j k : PreparationJournal) (p : PreparationPlan) (owned : List OwnedResourceState)
      (id : String) (op : Operation)
      → plan_rollback_apply j p owned id ≡ ok (k, op)
      → (n : ℕ) × (m : PreparationMutation) × (n < length j.applied)
        × (get_elem? p.prepare n ≡ some m)
        × (id ≡ m.id)
        × (m.rollback ≡ some op)
        × (is_safe m.policy ≡ true)
        × (is_claimed (find_state m.resource owned) ≡ false)
        × (k ≡ record j { rollback_applying = id })
  plan_rollback_apply-spares_claimed j k p owned id op e =
      let (valid, rolling, idle, steps, retained, s, made, followed, there, same, op', next) =
        plan_rollback_apply-inversion j k p owned id op e in
      let (owned', built, prefixed, plan, planned) =
        rollback_steps_for-Planned p j.applied owned steps retained made in
      let (n, m, l, at, named, undoes, free) =
        step-undoes (length j.rollback_applied) s planned there in
      let held = (owned_resource_snapshot-holds owned' owned built).1 m.resource in
      (
        n,
        m,
        l,
        at,
        same ∙ named,
        undoes ∙ ap some (sym op'),
        ground (arith, free),
        ap is_claimed (sym held) ∙ ground (arith, free),
        next ∙ ap (λ x. record j { rollback_applying = x }) (sym same),
      )

  done_all :
      (ids : List String) (steps : List RollbackStep)
      → check_done ids steps ≡ ok tt
      → ltb (length steps) (length ids) ≡ false
      → step_operations (drop (length ids) steps) ≡ []
      → ids ≡ step_ids steps
  unfolding check_done step_operations step_ids
  done_all [] [] h l e = refl
  done_all [] (s ∷ steps) h l e = cc
  done_all (x ∷ ids) [] h l e = cc
  done_all (x ∷ ids) (s ∷ steps) h l e = ground (arith, done_all ids steps)

  remaining-none :
      (j : PreparationJournal) (p : PreparationPlan) (owned : List OwnedResourceState)
      (steps : List RollbackStep) (retained : List ResourceIdentity) (r : RollbackDecision)
      → rollback_steps_for p j.applied owned ≡ ok (steps, retained)
      → remaining_rollback j p owned ≡ ok r
      → r.operations ≡ []
      → j.rollback_applied ≡ step_ids steps
  unfolding remaining_rollback
  remaining-none j p owned steps retained r made left none_left =
      done_all j.rollback_applied steps (ground (arith, made)) (ground (arith, made))
        (ground (arith, made))

  -- A journal becomes rolled back only when no operation is in flight and every step that the
  -- rollback plans has been recorded, in the plan's reverse order.
  pub finalize_rollback_complete :
      (j k : PreparationJournal) (p : PreparationPlan) (owned owned' : List OwnedResourceState)
      → finalize_rollback j p owned ≡ ok (k, owned')
      → (steps : List RollbackStep) × (retained : List ResourceIdentity) × (rollback_steps_for p
            j.applied owned
          ≡ ok (steps, retained))
        × (k.rollback_applied ≡ step_ids steps)
        × (k.rollback_applying ≡ "")
        × (j.rollback_applying ≡ "")
        × (k.applied ≡ j.applied)
  unfolding remaining_rollback
  finalize_rollback_complete j k p owned owned' e =
      let (valid, rolling, idle, r, left, none_left, made) =
        finalize_rollback-inversion j k p owned owned' e in
      let ((steps, retained), planned, rest) =
        >>=-eq-ok (rollback_steps_for p j.applied owned) _ left in
      (
        steps,
        retained,
        planned,
        ground (arith, remaining-none j p owned steps retained r planned left none_left),
        ground arith,
        idle,
        ground arith,
      )
