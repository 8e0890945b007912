-- ===== src/Plan/Journal/Transitions.antt =====
-- internal/plan/preparation.go: the methods that advance a preparation journal.
use depengine.Prelude.{
  String, Bool, true, false, ◌||◌, ◌&&◌, not, Option, none, some, List, [], ◌∷◌, ◌++◌, ◌==◌, ◌!=◌,
  string_eq, nat_eq, if◌then◌else◌, Result, ok, err, ◌>>=◌, ◌>>◌, fail_if, is_empty, length,
  get_elem?, succeeds, lookup, insert,
}
use depengine.Plan.Reference.{ReferenceLibrary}
use depengine.Plan.Resource.{resource_identity_eq, ownership_kind_eq}
use depengine.Plan.Ownership.{OwnedResourceState, claim_resource, validate_dependent}
use depengine.Plan.Ownership.Ledger.{Snapshot, owned_resource_snapshot, sorted_states}
use depengine.Plan.Preparation.{PreparationMutation, PreparationPlan}
use depengine.Plan.Journal.{
  PreparationStatus, MutationOutcome, PreparationJournal, or_pending, validate_journal,
}

abbrev pub may_plan : PreparationStatus → Bool
may_plan PreparationStatus.pending = true
may_plan PreparationStatus.preparing = true
may_plan _ = false

abbrev pub is_applying : PreparationStatus → Bool
is_applying PreparationStatus.applying = true
is_applying _ = false

abbrev pub is_pending : PreparationStatus → Bool
is_pending PreparationStatus.pending = true
is_pending _ = false

abbrev pub is_ready : PreparationStatus → Bool
is_ready PreparationStatus.ready = true
is_ready _ = false

abbrev pub is_committing : PreparationStatus → Bool
is_committing PreparationStatus.committing = true
is_committing _ = false

abbrev pub is_rolling_back : PreparationStatus → Bool
is_rolling_back PreparationStatus.rolling_back = true
is_rolling_back _ = false

pub check_next : Option PreparationMutation → String → Result (Unit {0})
check_next none id = err "all preparation mutations are already recorded"
check_next (some m) id = fail_if (id != m.id) "preparation mutation planned out of order"

module _ ⦃lib : ReferenceLibrary⦄ where
  unfoldable pub plan_apply :
      PreparationJournal → PreparationPlan → String → Result PreparationJournal
  unfolding check_next
  plan_apply j p id = do
    validate_journal j p
    fail_if (not (may_plan (or_pending j.status))) "cannot plan preparation mutation in this state"
    check_next (get_elem? p.prepare (length j.applied)) id
    ok (record j { status = PreparationStatus.applying; applying = id })

  unfoldable pub record_applied :
      PreparationJournal → PreparationPlan → String → Result PreparationJournal
  record_applied j p id = do
    validate_journal j p
    fail_if (not (is_applying j.status)) "preparation mutation is not in flight"
    fail_if (id != j.applying) "preparation mutation completed out of order"
    let applied = j.applied ++ id ∷ []
    ok (record j {
      status =
          if length applied == length p.prepare
          then PreparationStatus.ready
          else PreparationStatus.preparing;
      applied = applied;
      applying = "";
    })

  unfoldable pub resolve_outcome :
      MutationOutcome → PreparationJournal → PreparationPlan → String → Result PreparationJournal
  unfolding record_applied
  resolve_outcome MutationOutcome.applied j p id = record_applied j p id
  resolve_outcome MutationOutcome.not_applied j p id = ok (record j {
    status = if is_empty j.applied then PreparationStatus.pending else PreparationStatus.preparing;
    applying = "";
  })
  resolve_outcome (MutationOutcome.unlisted _) j p id = err "invalid preparation mutation outcome"

  unfoldable pub resolve_applying :
      PreparationJournal → PreparationPlan → String → MutationOutcome → Result PreparationJournal
  unfolding resolve_outcome
  resolve_applying j p id outcome = do
    validate_journal j p
    fail_if (not (is_applying j.status)) "preparation mutation is not in flight"
    fail_if (id != j.applying) "preparation mutation does not match in-flight mutation"
    resolve_outcome outcome j p id

  unfoldable pub ready_for_commit : PreparationJournal → PreparationPlan → Bool
  ready_for_commit j p =
      succeeds (validate_journal j p)
      && (if is_empty p.prepare
          then is_pending (or_pending j.status) || is_ready j.status
          else is_ready j.status && length j.applied == length p.prepare)

  unfoldable pub plan_commit : PreparationJournal → PreparationPlan → Result PreparationJournal
  unfolding ready_for_commit
  plan_commit j p = do
    validate_journal j p
    fail_if (not (ready_for_commit j p)) "preparation is not ready to commit"
    ok (record j { status = PreparationStatus.committing })

  unfoldable pub resolve_commit_not_applied :
      PreparationJournal → PreparationPlan → Result PreparationJournal
  resolve_commit_not_applied j p = do
    validate_journal j p
    fail_if (not (is_committing j.status)) "preparation commit is not in progress"
    ok (record j { status = PreparationStatus.ready })

  unfoldable pub mark_committed : PreparationJournal → PreparationPlan → Result PreparationJournal
  mark_committed j p = do
    validate_journal j p
    fail_if (not (is_committing j.status)) "preparation commit is not in progress"
    ok (record j { status = PreparationStatus.committed })

  -- the state that a committed mutation's resource has before its claim
  abbrev pub committed_state :
      PreparationMutation → Option OwnedResourceState → Result OwnedResourceState
  committed_state m none =
      ok (record { resource = m.resource; ownership = m.ownership; dependents = [] })
  committed_state m (some state) =
      if state.ownership != m.ownership
      then err "commit resource ownership differs from the plan"
      else ok state

  unfoldable pub claim_mutations : String → Snapshot → List PreparationMutation → Result Snapshot
  claim_mutations dependent owned [] = ok owned
  claim_mutations dependent owned (m ∷ ms) = do
    state ← committed_state m (lookup m.resource owned)
    claimed ← claim_resource state dependent
    claim_mutations dependent (insert m.resource claimed owned) ms

  unfoldable pub finalize_commit :
      PreparationJournal
      → PreparationPlan
      → List OwnedResourceState
      → String
      → Result (PreparationJournal × List OwnedResourceState)
  unfolding mark_committed claim_mutations
  finalize_commit j p owned dependent = do
    validate_dependent dependent
    snapshot ← owned_resource_snapshot owned
    committed ← mark_committed j p
    claimed ← claim_mutations dependent snapshot p.prepare
    ok (committed, sorted_states claimed)
