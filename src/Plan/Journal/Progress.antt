-- ===== src/Plan/Journal/Progress.antt =====
-- Every valid plan can be carried through to its commit.
use depengine.Prelude.{
  ℕ, zero, suc, ◌+◌, ◌≤◌, ◌<◌, ◌≡◌, refl, ap, ◌∙◌, ◌⊎◌, inl, inr, true, some, List, [], ◌∷◌, ◌++◌,
  arith, string_eq, nat_eq, length, get_elem?, is_empty, length-append, ok,
}
use depengine.Plan.Resource.{resource_identity_eq, ownership_kind_eq}
use depengine.Plan.Reference.{ReferenceLibrary}
use depengine.Plan.Preparation.{PreparationMutation, PreparationPlan, validate_plan}
use depengine.Plan.Journal.{
  PreparationStatus, MutationOutcome, PreparationJournal, or_pending, validate_journal,
  new_preparation_journal,
}
use depengine.Plan.Journal.Run.{
  planned, resolved, commit_planned, Reachable, start, next, Reachable-valid, mutation_ids,
  complete_when_ready,
}
use depengine.Plan.Journal.Forward.{plan_apply-IsValid, recorded}
use depengine.Plan.Journal.Transitions.{
  may_plan, plan_apply, record_applied, resolve_applying, ready_for_commit, plan_commit,
}

get_elem?-below {ℓ} :
    {A : Type ℓ} (xs : List A) (i : ℕ) → i < length xs → (x : A) × (get_elem? xs i ≡ some x)
get_elem?-below [] i l = absurd (omega arith)
get_elem?-below (x ∷ xs) zero l = (x, refl)
get_elem?-below (x ∷ xs) (suc i) l = get_elem?-below xs i (omega arith)

module _ ⦃lib : ReferenceLibrary⦄ where
  abbrev begun : PreparationJournal → PreparationMutation → PreparationJournal
  begun j m = record j { status = PreparationStatus.applying; applying = m.id }

  plan_apply-next :
      (j : PreparationJournal) (p : PreparationPlan) (m : PreparationMutation)
      → validate_journal j p ≡ ok tt
      → may_plan (or_pending j.status) ≡ true
      → get_elem? p.prepare (length j.applied) ≡ some m
      → plan_apply j p m.id ≡ ok (begun j m)
  unfolding plan_apply
  plan_apply-next j p m v may there = ground (arith, there)

  resolve-begun :
      (j : PreparationJournal) (p : PreparationPlan) (m : PreparationMutation)
      → validate_journal (begun j m) p ≡ ok tt
      → resolve_applying (begun j m) p m.id MutationOutcome.applied ≡ ok (recorded (begun j m) p)
  unfolding resolve_applying record_applied
  resolve-begun j p m v = ground (arith, v)

  -- what the journal is after `k` mutations
  abbrev Prepared : PreparationPlan → ℕ → Type 0
  Prepared p k =
      (j : PreparationJournal) × Reachable p j
      × (length j.applied ≡ k)
      × (k < length p.prepare → may_plan j.status ≡ true)
      × (k ≡ length p.prepare
          → (j.status ≡ PreparationStatus.ready)
            ⊎ ((is_empty p.prepare ≡ true) × (j.status ≡ PreparationStatus.pending)))

  Prepared-next :
      (p : PreparationPlan) (k : ℕ)
      → validate_plan p ≡ ok tt
      → k < length p.prepare
      → Prepared p k
      → Prepared p (suc k)
  Prepared-next p k h l (j, reached, counted, may, full) =
      let valid = Reachable-valid p j h reached in
      let (m, there) = get_elem?-below p.prepare k l in
      let here : get_elem? p.prepare (length j.applied) ≡ some m =
        ap (get_elem? p.prepare) counted ∙ there in
      let open_plan : may_plan (or_pending j.status) ≡ true = ground (arith, may l) in
      let first = plan_apply-next j p m valid open_plan here in
      let second = resolve-begun j p m (plan_apply-IsValid j (begun j m) p m.id first) in
      let grown : length (j.applied ++ m.id ∷ []) ≡ length j.applied + 1 =
        length-append j.applied (m.id ∷ []) in
      (
        recorded (begun j m) p,
        next (next reached (planned m.id first)) (resolved m.id MutationOutcome.applied second),
        ground (arith, grown, counted),
        λ l'. ground (arith, grown, counted),
        λ e. inl (ground (arith, grown, counted)),
      )

  prepared :
      (p : PreparationPlan) (k : ℕ) → validate_plan p ≡ ok tt → k ≤ length p.prepare → Prepared p k
  prepared p zero h l =
      (new_preparation_journal, start, refl, λ l'. refl, λ e. inr (ground arith, refl))
  prepared p (suc k) h l = Prepared-next p k h (omega arith) (prepared p k h (omega arith))

  plan_commit-ready :
      (j : PreparationJournal) (p : PreparationPlan)
      → validate_journal j p ≡ ok tt
      → length j.applied ≡ length p.prepare
      → (j.status ≡ PreparationStatus.ready)
        ⊎ ((is_empty p.prepare ≡ true) × (j.status ≡ PreparationStatus.pending))
      → plan_commit j p ≡ ok (record j { status = PreparationStatus.committing })
  unfolding plan_commit ready_for_commit
  plan_commit-ready j p v full (inl r) = ground (arith, r)
  plan_commit-ready j p v full (inr (none_left, r)) = ground (arith, r)

  -- From the new journal of a valid plan, the methods reach a journal in which the commit is begun
  -- and every mutation of the plan is recorded as applied, in order.
  pub valid_plan-commits :
      (p : PreparationPlan)
      → validate_plan p ≡ ok tt
      → (j : PreparationJournal) × Reachable p j
        × (j.status ≡ PreparationStatus.committing)
        × (j.applied ≡ mutation_ids p.prepare)
  valid_plan-commits p h =
      let (j, reached, counted, may, full) = prepared p (length p.prepare) h (omega arith) in
      let made = plan_commit-ready j p (Reachable-valid p j h reached) counted (full refl) in
      let reached' = next reached (commit_planned made) in
      (
        record j { status = PreparationStatus.committing },
        reached',
        refl,
        complete_when_ready _ p (Reachable-valid p _ h reached') (inr (inl refl)),
      )
