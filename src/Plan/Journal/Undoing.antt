-- ===== src/Plan/Journal/Undoing.antt =====
-- internal/plan/preparation.go: the methods that roll a preparation back.
use depengine.Prelude.{
  String, ℕ, zero, suc, Bool, false, ◌||◌, not, Option, none, some, List, [], ◌∷◌, ◌++◌, ◌==◌, ◌!=◌,
  string_eq, nat_eq, if◌then◌else◌, Result, ok, err, ◌>>=◌, ◌>>◌, fail_if, is_empty, length, ltb,
  get_elem?, drop, lookup, insert,
}
use depengine.Plan.Reference.{ReferenceLibrary}
use depengine.Plan.Operation.{Operation}
use depengine.Plan.Resource.{ResourceIdentity, resource_identity_eq, ownership_kind_eq}
use depengine.Plan.Ownership.{OwnedResourceState}
use depengine.Plan.Ownership.Ledger.{Snapshot, owned_resource_snapshot, sorted_states}
use depengine.Plan.Preparation.{
  PreparationMutation, PreparationPlan, RollbackStep, RollbackDecision, rollback_steps_for,
  rollback_for, step_ids, step_operations,
}
use depengine.Plan.Journal.{
  PreparationStatus, MutationOutcome, PreparationJournal, validate_journal,
}
use depengine.Plan.Journal.Transitions.{is_rolling_back}

module _ ⦃lib : ReferenceLibrary⦄ where
  check_rollback_start : PreparationStatus → Result (Unit {0})
  check_rollback_start PreparationStatus.applying =
      err "preparation mutation is in progress; mutation outcome must be reconciled before rollback"
  check_rollback_start PreparationStatus.committing =
      err "preparation commit is in progress; commit outcome must be reconciled before rollback"
  check_rollback_start PreparationStatus.committed =
      err "committed preparation cannot use candidate rollback"
  check_rollback_start PreparationStatus.rolled_back = err "preparation is already rolled back"
  check_rollback_start PreparationStatus.rolling_back =
      err "preparation rollback is already in progress"
  check_rollback_start _ = ok tt

  unfoldable pub plan_rollback :
      PreparationJournal
      → PreparationPlan
      → List OwnedResourceState
      → Result (PreparationJournal × RollbackDecision)
  unfolding check_rollback_start
  plan_rollback j p owned = do
    validate_journal j p
    check_rollback_start j.status
    decision ← rollback_for p j.applied owned
    ok (
      record j {
        status = PreparationStatus.rolling_back;
        rollback_applied = [];
        rollback_applying = "";
      },
      decision,
    )

  -- the loop that compares the recorded rollback ids with the steps; a step too few is excluded before
  unfoldable pub check_done : List String → List RollbackStep → Result (Unit {0})
  check_done [] steps = ok tt
  check_done (id ∷ ids) [] = err "index out of range"
  check_done (id ∷ ids) (s ∷ steps) =
      let rest = check_done ids steps in
      fail_if (id != s.id) "rollback journal mutation does not match the decision" >> rest

  check_next_step : Option RollbackStep → String → Result Operation
  check_next_step none id = err "all rollback operations are already recorded"
  check_next_step (some s) id =
      fail_if (id != s.id) "rollback mutation planned out of order" >> ok s.operation

  unfoldable pub plan_rollback_apply :
      PreparationJournal
      → PreparationPlan
      → List OwnedResourceState
      → String
      → Result (PreparationJournal × Operation)
  unfolding check_done check_next_step
  plan_rollback_apply j p owned id = do
    validate_journal j p
    fail_if (not (is_rolling_back j.status)) "preparation rollback is not in progress"
    fail_if (j.rollback_applying != "") "rollback mutation is already in flight"
    (steps, retained) ← rollback_steps_for p j.applied owned
    fail_if (ltb (length steps) (length j.rollback_applied))
        "rollback journal contains more completed operations than the current rollback decision"
    check_done j.rollback_applied steps
    operation ← check_next_step (get_elem? steps (length j.rollback_applied)) id
    ok (record j { rollback_applying = id }, operation)

  abbrev step_id_is : Option RollbackStep → String → Bool
  step_id_is none id = false
  step_id_is (some s) id = s.id == id

  unfoldable pub record_rollback_applied :
      PreparationJournal
      → PreparationPlan
      → List OwnedResourceState
      → String
      → Result PreparationJournal
  record_rollback_applied j p owned id = do
    validate_journal j p
    fail_if (not (is_rolling_back j.status) || j.rollback_applying == "")
        "rollback mutation is not in flight"
    fail_if (id != j.rollback_applying) "rollback mutation completed out of order"
    (steps, retained) ← rollback_steps_for p j.applied owned
    fail_if (not (step_id_is (get_elem? steps (length j.rollback_applied)) id))
        "rollback mutation no longer matches the current rollback decision"
    ok (record j { rollback_applied = j.rollback_applied ++ id ∷ []; rollback_applying = "" })

  resolve_rollback_outcome :
      MutationOutcome
      → PreparationJournal
      → PreparationPlan
      → List OwnedResourceState
      → String
      → Result PreparationJournal
  unfolding record_rollback_applied
  resolve_rollback_outcome MutationOutcome.applied j p owned id =
      record_rollback_applied j p owned id
  resolve_rollback_outcome MutationOutcome.not_applied j p owned id =
      ok (record j { rollback_applying = "" })
  resolve_rollback_outcome (MutationOutcome.unlisted _) j p owned id =
      err "invalid rollback mutation outcome"

  unfoldable pub resolve_rollback_applying :
      PreparationJournal
      → PreparationPlan
      → List OwnedResourceState
      → String
      → MutationOutcome
      → Result PreparationJournal
  unfolding resolve_rollback_outcome
  resolve_rollback_applying j p owned id outcome = do
    validate_journal j p
    fail_if (not (is_rolling_back j.status) || j.rollback_applying == "")
        "rollback mutation is not in flight"
    fail_if (id != j.rollback_applying) "rollback mutation does not match in-flight mutation"
    resolve_rollback_outcome outcome j p owned id

  unfoldable pub remaining_rollback :
      PreparationJournal → PreparationPlan → List OwnedResourceState → Result RollbackDecision
  unfolding check_done
  remaining_rollback j p owned = do
    (steps, retained) ← rollback_steps_for p j.applied owned
    fail_if (ltb (length steps) (length j.rollback_applied))
        "rollback journal contains more completed operations than the current rollback decision"
    check_done j.rollback_applied steps
    let left = drop (length j.rollback_applied) steps
    ok (record {
      operation_ids = step_ids left;
      operations = step_operations left;
      retained = retained;
    })

  -- the applied mutation of a retained resource: the last one in the map of the first `k` mutations
  find_applied : List PreparationMutation → ℕ → ResourceIdentity → Option PreparationMutation
  find_applied ms zero r = none
  find_applied [] (suc k) r = none
  find_applied (m ∷ ms) (suc k) r =
      let rest = find_applied ms k r in
      elim rest [ some n ↦ some n | none ↦ if m.resource == r then some m else none ]

  retained_state :
      ResourceIdentity
      → PreparationMutation
      → Option OwnedResourceState
      → Snapshot
      → Result Snapshot
  retained_state r m none owned =
      ok (insert r (record { resource = r; ownership = m.ownership; dependents = [] }) owned)
  retained_state r m (some state) owned =
      if state.ownership != m.ownership
      then err "retained resource ownership differs from the plan"
      else ok owned

  unfoldable pub retain_all :
      List PreparationMutation → ℕ → Snapshot → List ResourceIdentity → Result Snapshot
  unfolding find_applied retained_state
  retain_all ms k owned [] = ok owned
  retain_all ms k owned (r ∷ rs) = elim (find_applied ms k r) [
    | none ↦ err "retained resource is not an applied preparation mutation"
    | some m ↦ retained_state r m (lookup r owned) owned >>= λ next. retain_all ms k next rs
  ]

  unfoldable pub finalize_rollback :
      PreparationJournal
      → PreparationPlan
      → List OwnedResourceState
      → Result (PreparationJournal × List OwnedResourceState)
  unfolding remaining_rollback retain_all
  finalize_rollback j p owned = do
    validate_journal j p
    fail_if (not (is_rolling_back j.status)) "preparation rollback is not in progress"
    fail_if (j.rollback_applying != "") "rollback mutation has an ambiguous host-side outcome"
    remaining ← remaining_rollback j p owned
    fail_if (not (is_empty remaining.operations)) "preparation rollback has unconfirmed operations"
    decision ← rollback_for p j.applied owned
    snapshot ← owned_resource_snapshot owned
    retained ← retain_all p.prepare (length j.applied) snapshot decision.retained
    ok (
      record j { status = PreparationStatus.rolled_back; rollback_applying = "" },
      sorted_states retained,
    )
