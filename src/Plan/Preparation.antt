-- ===== src/Plan/Preparation.antt =====
-- internal/plan/preparation.go: mutations that prepare a candidate, the plan that lists them, and the
-- rollback that the plan allows. `*m.Rollback` of a mutation without one, which validation excludes,
-- is an error here.
pub mod Steps
use depengine.Prelude.{
  String, ℕ, zero, suc, Bool, true, false, ◌||◌, ◌&&◌, not, Option, none, some, List, [], ◌∷◌, ◌==◌,
  ◌!=◌, string_eq, if◌then◌else◌, Result, ok, err, ◌>>=◌, ◌>>◌, fail_if, lookup, contains, is_empty,
  length, ltb, get_elem?,
}
use depengine.Plan.Reference.{ReferenceLibrary}
use depengine.Plan.Operation.{Operation, validate_operation, is_mutation, is_read_only}
use depengine.Plan.Resource.{
  OwnershipKind, RollbackPolicy, ResourceIdentity, ownership_kind_eq, resource_identity_eq,
  is_bad_name, validate_resource,
}
use depengine.Plan.Ownership.{OwnedResourceState, ref_count, check_ownership, is_depengine_owned}
use depengine.Plan.Ownership.Ledger.{Snapshot, ResourceUse, owned_resource_snapshot}

pub record PreparationMutation : Type 0 where
  pub id : String
  pub resource : ResourceIdentity
  pub ownership : OwnershipKind
  pub apply : Operation
  pub rollback : Option Operation
  pub policy : RollbackPolicy

pub record PreparationPlan : Type 0 where
  pub probe : List Operation
  pub prepare : List PreparationMutation
  pub commit : List Operation
  pub commit_uses : List ResourceUse

pub record RollbackStep : Type 0 where
  pub id : String
  pub operation : Operation

pub record RollbackDecision : Type 0 where
  pub operation_ids : List String
  pub operations : List Operation
  pub retained : List ResourceIdentity

abbrev pub is_safe : RollbackPolicy → Bool
is_safe RollbackPolicy.safe = true
is_safe _ = false

-- the switch on the rollback policy
check_policy : RollbackPolicy → OwnershipKind → Option Operation → Result (Unit {0})
check_policy RollbackPolicy.safe ownership none = do
  fail_if (not (is_depengine_owned ownership)) "safe rollback requires depengine-owned resource"
  err "safe rollback requires a rollback operation"
check_policy RollbackPolicy.safe ownership (some rollback) = do
  fail_if (not (is_depengine_owned ownership)) "safe rollback requires depengine-owned resource"
  fail_if (not (is_mutation rollback.effect)) "rollback operation must be classified as mutation"
  validate_operation rollback
check_policy RollbackPolicy.retain_report ownership none = ok tt
check_policy RollbackPolicy.retain_report ownership (some _) =
    err "retain_report mutation must not declare an automatic rollback operation"
check_policy (RollbackPolicy.unlisted _) ownership rollback = err "invalid rollback policy"

check_probe : List Operation → Result (Unit {0})
check_probe [] = ok tt
check_probe (op ∷ ops) =
    let rest = check_probe ops in
    (do
      validate_operation op
      fail_if (not (is_read_only op.effect)) "probe operation must be read-only"
      rest)

check_commit : List Operation → Result (Unit {0})
check_commit [] = ok tt
check_commit (op ∷ ops) =
    let rest = check_commit ops in
    (do
      validate_operation op
      fail_if (not (is_mutation op.effect)) "commit operation must be a mutation"
      rest)

module _ ⦃lib : ReferenceLibrary⦄ where
  -- PreparationMutation.Validate
  unfoldable pub validate_mutation : PreparationMutation → Result (Unit {0})
  unfolding check_policy
  validate_mutation m = do
    fail_if (is_bad_name m.id) "mutation id is required and must not contain surrounding whitespace"
    validate_resource m.resource
    check_ownership m.ownership
    fail_if (not (is_mutation m.apply.effect)) "apply operation must be classified as mutation"
    validate_operation m.apply
    check_policy m.policy m.ownership m.rollback

  -- the loop over the mutations, with the ids and the resources met so far
  unfoldable pub check_prepare :
      List String → List ResourceIdentity → List PreparationMutation → Result (Unit {0})
  check_prepare ids resources [] = ok tt
  check_prepare ids resources (m ∷ ms) =
      let rest = check_prepare (m.id ∷ ids) (m.resource ∷ resources) ms in
      (do
        validate_mutation m
        fail_if (contains ids m.id) "duplicate preparation mutation id"
        fail_if (contains resources m.resource) "preparation mutations target the same resource"
        rest)

  unfoldable pub check_uses : List ResourceIdentity → List ResourceUse → Result (Unit {0})
  check_uses seen [] = ok tt
  check_uses seen (u ∷ us) =
      let rest = check_uses (u.resource ∷ seen) us in
      (do
        validate_resource u.resource
        fail_if (contains seen u.resource) "duplicate commit resource use"
        rest)

  -- PreparationPlan.Validate
  unfoldable pub validate_plan : PreparationPlan → Result (Unit {0})
  unfolding check_probe check_prepare check_commit check_uses
  validate_plan p = do
    check_probe p.probe
    check_prepare [] [] p.prepare
    check_commit p.commit
    check_uses [] p.commit_uses

  -- The loop that compares the recorded ids with the plan's; the lengths are compared before it.
  unfoldable pub check_prefix : List String → List PreparationMutation → Result (Unit {0})
  check_prefix [] ms = ok tt
  check_prefix (id ∷ ids) [] = err "index out of range"
  check_prefix (id ∷ ids) (m ∷ ms) =
      let rest = check_prefix ids ms in
      fail_if (id != m.id) "mutation is not the applied prefix" >> rest

  abbrev pub Steps : Type 0
  Steps = List RollbackStep × List ResourceIdentity

  abbrev add_step : PreparationMutation → Option Operation → Result Steps → Result Steps
  add_step m none rest = err "nil pointer dereference"
  add_step m (some operation) rest = do
    (steps, retained) ← rest
    ok (record { id = m.id; operation = operation } ∷ steps, retained)

  abbrev retain : PreparationMutation → Result Steps → Result Steps
  retain m rest = do (steps, retained) ← rest; ok (steps, m.resource ∷ retained)

  -- one mutation of the loop, against the recorded state of its resource
  unfoldable pub rollback_step :
      PreparationMutation → Option OwnedResourceState → Result Steps → Result Steps
  unfolding ref_count
  rollback_step m none rest = if is_safe m.policy then add_step m m.rollback rest else retain m rest
  rollback_step m (some state) rest =
      if is_safe m.policy
      then (if state.ownership != m.ownership
          then err "rollback resource ownership changed"
          else if ltb 0 (ref_count state)
          then retain m rest
          else add_step m m.rollback rest)
      else retain m rest

  abbrev pub step_at : Option PreparationMutation → Snapshot → Result Steps → Result Steps
  step_at none owned rest = err "index out of range"
  step_at (some m) owned rest = rollback_step m (lookup m.resource owned) rest

  -- The loop from the last applied mutation down to the first: `k` are left.
  unfoldable pub rollback_steps : Snapshot → List PreparationMutation → ℕ → Result Steps
  unfolding rollback_step
  rollback_steps owned ms zero = ok ([], [])
  rollback_steps owned ms (suc i) =
      let rest = rollback_steps owned ms i in step_at (get_elem? ms i) owned rest

  -- rollbackStepsFor
  unfoldable pub rollback_steps_for :
      PreparationPlan → List String → List OwnedResourceState → Result Steps
  unfolding rollback_steps check_prefix
  rollback_steps_for p applied owned = do
    validate_plan p
    snapshot ← owned_resource_snapshot owned
    fail_if (ltb (length p.prepare) (length applied))
        "rollback records more mutations than the plan has"
    check_prefix applied p.prepare
    rollback_steps snapshot p.prepare (length applied)

  unfoldable pub step_ids : List RollbackStep → List String
  step_ids [] = []
  step_ids (s ∷ ss) = s.id ∷ step_ids ss

  unfoldable pub step_operations : List RollbackStep → List Operation
  step_operations [] = []
  step_operations (s ∷ ss) = s.operation ∷ step_operations ss

  -- RollbackFor
  unfoldable pub rollback_for :
      PreparationPlan → List String → List OwnedResourceState → Result RollbackDecision
  unfolding step_ids step_operations
  rollback_for p applied owned = do
    (steps, retained) ← rollback_steps_for p applied owned
    ok (record {
      operation_ids = step_ids steps;
      operations = step_operations steps;
      retained = retained;
    })
