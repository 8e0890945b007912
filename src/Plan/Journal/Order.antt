-- ===== src/Plan/Journal/Order.antt =====
-- The order of a plan's mutations and of the steps that undo them.
use depengine.Prelude.{
  ℕ, zero, suc, ◌≤◌, ◌<◌, String, ◌≡◌, refl, inl, inr, false, none, some, List, [], ◌∷◌, arith,
  ◌==◌, string_eq, nat_eq, Option-cases, length, get_elem?, contains, ok,
}
use depengine.Plan.Reference.{ReferenceLibrary}
use depengine.Plan.Journal.{find_below, check_rollback, id_is}
use depengine.Plan.Preparation.{PreparationMutation, RollbackStep, check_prepare}
use depengine.Plan.Preparation.Steps.{Planned, done, keep, undo}
use depengine.Plan.Journal.Validity.{check_prepare-at}
use depengine.Plan.Journal.Undoing.{check_done}
use depengine.Plan.Resource.{resource_identity_eq, ownership_kind_eq, is_bad_name, ResourceIdentity}
use depengine.Plan.Ownership.Ledger.{Snapshot}

module _ ⦃lib : ReferenceLibrary⦄ where
  -- Two mutations of a valid plan have different ids.
  ids_differ :
      (seen : List String) (resources : List ResourceIdentity) (ms : List PreparationMutation)
      (i j : ℕ) (m n : PreparationMutation)
      → check_prepare seen resources ms ≡ ok tt
      → get_elem? ms i ≡ some m
      → get_elem? ms j ≡ some n
      → i < j
      → (m.id == n.id) ≡ false
  unfolding check_prepare
  ids_differ seen resources [] i j m n h a b l = absurd (cc a)
  ids_differ seen resources (x ∷ ms) i zero m n h a b l = absurd (omega arith)
  ids_differ seen resources (x ∷ ms) zero (suc j) m n h a b l =
      ground (arith, check_prepare-at (x.id ∷ seen) (x.resource ∷ resources) ms j n)
  ids_differ seen resources (x ∷ ms) (suc i) (suc j) m n h a b l =
      ground (arith, ids_differ (x.id ∷ seen) (x.resource ∷ resources) ms i j m n)

  module _ (ms : List PreparationMutation) (valid : check_prepare [] [] ms ≡ ok tt) where
    id_is_not :
        (i k : ℕ) (m : PreparationMutation)
        → get_elem? ms k ≡ some m
        → i < k
        → id_is (get_elem? ms i) m.id ≡ false
    id_is_not i k m there l = elim (Option-cases (get_elem? ms i)) [
      | inl missing ↦ rw missing refl
      | inr (n, here) ↦ rw here (ids_differ [] [] ms i k n m valid here there l)
    ]

    -- The id of a mutation is not found below its own place.
    find_below-none :
        (i k : ℕ) (m : PreparationMutation)
        → get_elem? ms k ≡ some m
        → i ≤ k
        → find_below ms m.id i ≡ none
    unfolding find_below
    find_below-none zero k m there l = refl
    find_below-none (suc i) k m there l =
        ground (arith, find_below-none i k m there (omega arith), id_is_not i k m there l)

    -- A planned step undoes a mutation of the applied prefix.
    pub step-mutation :
        {owned : Snapshot} {k : ℕ} {steps : List RollbackStep} {retained : List ResourceIdentity}
        (i : ℕ) (s : RollbackStep)
        → Planned owned ms k steps retained
        → get_elem? steps i ≡ some s
        → (j : ℕ) × (n : PreparationMutation) × (j < k) × (get_elem? ms j ≡ some n) × (s.id ≡ n.id)
    step-mutation i s done e = absurd (cc e)
    step-mutation i s (keep {k = k} m there held rest) e =
        let (j, n, l, at, same) = step-mutation i s rest e in (j, n, omega arith, at, same)
    step-mutation zero s (undo {k = k} m operation there undoes free rest) e =
        (k, m, omega arith, there, ground arith)
    step-mutation (suc i) s (undo {k = k} m operation there undoes free rest) e =
        let (j, n, l, at, same) = step-mutation i s rest e in (j, n, omega arith, at, same)

    step_named :
        {owned : Snapshot} {k : ℕ} {steps : List RollbackStep} {retained : List ResourceIdentity}
        (i : ℕ) (s : RollbackStep)
        → Planned owned ms k steps retained
        → get_elem? steps i ≡ some s
        → is_bad_name s.id ≡ false
    step_named i s planned e =
        let (j, n, l, at, same) = step-mutation i s planned e in
        rw same (check_prepare-at [] [] ms j n valid at).0

    step_differs :
        {owned : Snapshot} {k : ℕ} {steps : List RollbackStep} {retained : List ResourceIdentity}
        (i : ℕ) (s : RollbackStep) (m : PreparationMutation)
        → Planned owned ms k steps retained
        → get_elem? steps i ≡ some s
        → get_elem? ms k ≡ some m
        → (m.id == s.id) ≡ false
    step_differs {k} i s m planned e there =
        let (j, n, l, at, same) = step-mutation i s planned e in
        let other : (n.id == m.id) ≡ false = ids_differ [] [] ms j k n m valid at there l in
        rw same (ground (arith, other))

    new_id :
        {owned : Snapshot} {k : ℕ} {steps : List RollbackStep} {retained : List ResourceIdentity}
        → Planned owned ms k steps retained
        → (ids : List String) (s : RollbackStep) → check_done ids steps ≡ ok tt
        → get_elem? steps (length ids) ≡ some s
        → contains ids s.id ≡ false
    unfolding check_done
    new_id done [] s h e = refl
    new_id done (x ∷ ids) s h e = absurd (ground arith)
    new_id (keep m there held rest) ids s h e = new_id rest ids s h e
    new_id (undo m operation there undoes free rest) [] s h e = refl
    new_id (undo m operation there undoes free rest) (x ∷ ids) s h e =
        ground
          (arith, new_id rest ids s (ground arith) e, step_differs (length ids) s m rest e there)

    -- The next step's id is not among the ids of the steps before it.
    pub next_step_is_new :
        {owned : Snapshot} {k : ℕ} {steps : List RollbackStep} {retained : List ResourceIdentity}
        (ids : List String) (s : RollbackStep)
        → Planned owned ms k steps retained
        → check_done ids steps ≡ ok tt
        → get_elem? steps (length ids) ≡ some s
        → (is_bad_name s.id ≡ false) × (contains ids s.id ≡ false)
    next_step_is_new ids s planned h e =
        (step_named (length ids) s planned e, new_id planned ids s h e)

    -- One more mutation that was applied later changes nothing for the progress below it.
    check_rollback-later :
        (k : ℕ) (m : PreparationMutation) (id : String) (ids : List String)
        → get_elem? ms k ≡ some m
        → is_bad_name id ≡ false
        → check_rollback ms k (id ∷ ids) ≡ ok tt
        → check_rollback ms (suc k) (id ∷ ids) ≡ ok tt
    unfolding check_rollback is_bad_name
    check_rollback-later k m id ids there good h =
        ground (arith, there, find_below-none k k m there (omega arith))

    first_named :
        {owned : Snapshot} {k : ℕ} {steps : List RollbackStep} {retained : List ResourceIdentity}
        (id : String) (ids : List String)
        → Planned owned ms k steps retained
        → check_done (id ∷ ids) steps ≡ ok tt
        → is_bad_name id ≡ false
    unfolding check_done
    first_named {steps = []} id ids planned h = cc
    first_named {steps = s ∷ steps} id ids planned h = ground (arith, step_named 0 s planned refl)

    check_rollback-skip :
        {owned : Snapshot} {steps : List RollbackStep} {retained : List ResourceIdentity} (k : ℕ)
        (m : PreparationMutation) (ids : List String)
        → get_elem? ms k ≡ some m
        → Planned owned ms k steps retained
        → check_done ids steps ≡ ok tt
        → check_rollback ms k ids ≡ ok tt
        → check_rollback ms (suc k) ids ≡ ok tt
    unfolding check_rollback
    check_rollback-skip k m [] there planned h e = refl
    check_rollback-skip k m (x ∷ ids) there planned h e =
        check_rollback-later k m x ids there (first_named x ids planned h) e

    -- Rollback progress that follows the planned steps passes the journal's check.
    pub check_rollback-Planned :
        {owned : Snapshot} {k : ℕ} {steps : List RollbackStep} {retained : List ResourceIdentity}
        → Planned owned ms k steps retained
        → (ids : List String) → check_done ids steps ≡ ok tt
        → check_rollback ms k ids ≡ ok tt
    unfolding check_rollback check_done is_bad_name
    check_rollback-Planned done [] h = refl
    check_rollback-Planned done (x ∷ ids) h = absurd (ground arith)
    check_rollback-Planned (keep {k = k} m there held rest) ids h =
        check_rollback-skip k m ids there rest h (check_rollback-Planned rest ids h)
    check_rollback-Planned (undo m operation there undoes free rest) [] h = refl
    check_rollback-Planned (undo {k = k} m operation there undoes free rest) (x ∷ ids) h = ground (
      arith,
      there,
      check_prepare-at [] [] ms k m valid there,
      free,
      check_rollback-Planned rest ids (ground arith),
    )
