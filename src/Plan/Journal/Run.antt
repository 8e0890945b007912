-- ===== src/Plan/Journal/Run.antt =====
-- A preparation as the sequence of journals that it goes through: one step is one method of the
-- journal that returned without an error, in any order, whoever calls it.
use depengine.Prelude.{
  String, ◌≡◌, refl, ap, ◌∙◌, ◌⊎◌, List, [], ◌∷◌, arith, string_eq, nat_eq, length, take, ok,
}
use depengine.Plan.Operation.{Operation}
use depengine.Plan.Ownership.{OwnedResourceState}
use depengine.Prelude.{
  String, ◌≡◌, refl, ap, ◌∙◌, ◌⊎◌, List, [], ◌∷◌, arith, string_eq, nat_eq, length, take, ok,
}
use depengine.Plan.Resource.{resource_identity_eq, ownership_kind_eq}
use depengine.Plan.Reference.{ReferenceLibrary}
use depengine.Plan.Preparation.{
  PreparationMutation, PreparationPlan, RollbackDecision, check_prefix, validate_plan,
}
use depengine.Plan.Journal.{
  check_rollback, check_in_flight, check_ids, PreparationStatus, MutationOutcome,
  PreparationJournal, check_shape, check_progress, validate_journal, new_preparation_journal,
}
use depengine.Plan.Journal.Validity.{IsValid, IsValid-validate, validate-IsValid}
use depengine.Plan.Journal.Forward.{plan_apply-IsValid, record_applied-IsValid}
use depengine.Plan.Journal.Resolving.{resolve_applying-IsValid}
use depengine.Plan.Journal.Commit.{
  plan_commit-IsValid, resolve_commit_not_applied-IsValid, mark_committed-IsValid,
}
use depengine.Plan.Journal.Rollback.{plan_rollback-IsValid, plan_rollback_apply-IsValid}
use depengine.Plan.Journal.Recorded.{record_rollback_applied-IsValid}
use depengine.Plan.Journal.Finish.{
  resolve_rollback_applying-IsValid, finalize_rollback-IsValid, finalize_commit-mark_committed,
}
use depengine.Plan.Journal.Transitions.{
  plan_apply, record_applied, mark_committed, resolve_applying, plan_commit,
  resolve_commit_not_applied, finalize_commit,
}
use depengine.Plan.Journal.Undoing.{
  plan_rollback, plan_rollback_apply, record_rollback_applied, resolve_rollback_applying,
  finalize_rollback,
}

-- the ids of a plan's mutations, in order
unfoldable pub mutation_ids : List PreparationMutation → List String
mutation_ids [] = []
mutation_ids (m ∷ ms) = m.id ∷ mutation_ids ms

check_prefix-all :
    ⦃lib : ReferenceLibrary⦄ (ids : List String) (ms : List PreparationMutation)
    → check_prefix ids ms ≡ ok tt
    → ids ≡ take (length ids) (mutation_ids ms)
unfolding check_prefix mutation_ids
check_prefix-all [] ms h = refl
check_prefix-all (x ∷ ids) [] h = cc
check_prefix-all (x ∷ ids) (m ∷ ms) h = ground (arith, check_prefix-all ids ms)

take-all : (ms : List PreparationMutation) → take (length ms) (mutation_ids ms) ≡ mutation_ids ms
unfolding mutation_ids
take-all [] = refl
take-all (m ∷ ms) = ap (λ xs. m.id ∷ xs) (take-all ms)

module _ ⦃lib : ReferenceLibrary⦄ where
  pub data Step (p : PreparationPlan) : PreparationJournal → PreparationJournal → Type 0 where
    planned : {j k : PreparationJournal} (id : String) → plan_apply j p id ≡ ok k → Step p j k
    applied_recorded :
        {j k : PreparationJournal} (id : String) → record_applied j p id ≡ ok k → Step p j k
    resolved :
        {j k : PreparationJournal} (id : String) (outcome : MutationOutcome)
        → resolve_applying j p id outcome ≡ ok k
        → Step p j k
    commit_planned : {j k : PreparationJournal} → plan_commit j p ≡ ok k → Step p j k
    commit_refused : {j k : PreparationJournal} → resolve_commit_not_applied j p ≡ ok k → Step p j k
    commit_marked : {j k : PreparationJournal} → mark_committed j p ≡ ok k → Step p j k
    committed :
        {j k : PreparationJournal} (owned owned' : List OwnedResourceState) (dependent : String)
        → finalize_commit j p owned dependent ≡ ok (k, owned')
        → Step p j k
    rollback_planned :
        {j k : PreparationJournal} (owned : List OwnedResourceState) (d : RollbackDecision)
        → plan_rollback j p owned ≡ ok (k, d)
        → Step p j k
    undo_planned :
        {j k : PreparationJournal} (owned : List OwnedResourceState) (id : String) (op : Operation)
        → plan_rollback_apply j p owned id ≡ ok (k, op)
        → Step p j k
    undo_recorded :
        {j k : PreparationJournal} (owned : List OwnedResourceState) (id : String)
        → record_rollback_applied j p owned id ≡ ok k
        → Step p j k
    undo_resolved :
        {j k : PreparationJournal} (owned : List OwnedResourceState) (id : String)
        (outcome : MutationOutcome)
        → resolve_rollback_applying j p owned id outcome ≡ ok k
        → Step p j k
    rolled_back :
        {j k : PreparationJournal} (owned owned' : List OwnedResourceState)
        → finalize_rollback j p owned ≡ ok (k, owned')
        → Step p j k

  pub data Reachable (p : PreparationPlan) : PreparationJournal → Type 0 where
    start : Reachable p new_preparation_journal
    next : {j k : PreparationJournal} → Reachable p j → Step p j k → Reachable p k

  pub Step-valid :
      {p : PreparationPlan} {j k : PreparationJournal} → Step p j k → validate_journal k p ≡ ok tt
  Step-valid {p} {j} {k} (planned id e) = plan_apply-IsValid j k p id e
  Step-valid {p} {j} {k} (applied_recorded id e) = record_applied-IsValid j k p id e
  Step-valid {p} {j} {k} (resolved id outcome e) = resolve_applying-IsValid j k p id outcome e
  Step-valid {p} {j} {k} (commit_planned e) = plan_commit-IsValid j k p e
  Step-valid {p} {j} {k} (commit_refused e) = resolve_commit_not_applied-IsValid j k p e
  Step-valid {p} {j} {k} (commit_marked e) = mark_committed-IsValid j k p e
  Step-valid {p} {j} {k} (committed owned owned' dependent e) =
      mark_committed-IsValid j k p (finalize_commit-mark_committed j k p owned owned' dependent e)
  Step-valid {p} {j} {k} (rollback_planned owned d e) = plan_rollback-IsValid j k p owned d e
  Step-valid {p} {j} {k} (undo_planned owned id op e) =
      plan_rollback_apply-IsValid j k p owned id op e
  Step-valid {p} {j} {k} (undo_recorded owned id e) =
      record_rollback_applied-IsValid j k p owned id e
  Step-valid {p} {j} {k} (undo_resolved owned id outcome e) =
      resolve_rollback_applying-IsValid j k p owned id outcome e
  Step-valid {p} {j} {k} (rolled_back owned owned' e) =
      finalize_rollback-IsValid j k p owned owned' e

  new_journal-IsValid :
      (p : PreparationPlan) → validate_plan p ≡ ok tt → IsValid new_preparation_journal p
  unfolding check_ids check_in_flight check_shape check_prefix check_rollback check_progress
  new_journal-IsValid p h = record {
    plan = h;
    ids = refl;
    in_flight = ground arith;
    rollback_ids = refl;
    rollback_in_flight = ground arith;
    no_rollback = ground arith;
    shape = ground arith;
    fits = ground arith;
    applied_prefix = refl;
    rollback = ground arith;
    progress = refl;
  }

  -- Every journal that the methods return without an error, called in any order from the new journal
  -- of a valid plan on, is accepted by Validate when it is read back.
  pub Reachable-valid :
      (p : PreparationPlan) (j : PreparationJournal)
      → validate_plan p ≡ ok tt
      → Reachable p j
      → validate_journal j p ≡ ok tt
  Reachable-valid p j h start = validate-IsValid _ p (new_journal-IsValid p h)
  Reachable-valid p k h (next before step) = Step-valid step

  -- A journal that Validate accepts records the first mutations of the plan, in order.
  pub applied_is_prefix :
      (j : PreparationJournal) (p : PreparationPlan)
      → validate_journal j p ≡ ok tt
      → j.applied ≡ take (length j.applied) (mutation_ids p.prepare)
  applied_is_prefix j p h =
      check_prefix-all j.applied p.prepare (IsValid-validate j p h).applied_prefix

  -- A journal that Validate accepts as ready, committing or committed records every mutation of the
  -- plan, in order.
  pub complete_when_ready :
      (j : PreparationJournal) (p : PreparationPlan)
      → validate_journal j p ≡ ok tt
      → (j.status ≡ PreparationStatus.ready)
        ⊎ ((j.status ≡ PreparationStatus.committing) ⊎ (j.status ≡ PreparationStatus.committed))
      → j.applied ≡ mutation_ids p.prepare
  unfolding check_progress
  complete_when_ready j p h late =
      let v = IsValid-validate j p h in
      let full : length j.applied ≡ length p.prepare = ground (arith, late, v.progress) in
      applied_is_prefix j p h ∙ ap (λ n. take n (mutation_ids p.prepare)) full ∙ take-all p.prepare
