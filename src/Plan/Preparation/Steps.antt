-- ===== src/Plan/Preparation/Steps.antt =====
-- What a rollback plans: every applied mutation is either compensated or retained, the latest first,
-- and no resource that a committed dependent claims is compensated.
use depengine.Plan.Preparation.{
  check_prefix, validate_plan, owned_resource_snapshot, PreparationPlan, rollback_steps_for,
  is_empty, lookup, true, err, suc, not, false, Bool, get_elem?, Steps, [], OwnedResourceState,
  rollback_steps, Option, ℕ, is_safe, Operation, ok, some, step_at, ResourceIdentity, RollbackStep,
  List, Result, Snapshot, PreparationMutation, rollback_step,
}
use depengine.Prelude.{
  ℕ, zero, suc, String, ◌≡◌, refl, sym, ap, ◌∙◌, ◌⊎◌, inl, inr, Bool, true, false, ◌&&◌, not,
  Option, none, some, List, [], ◌∷◌, arith, string_eq, nat_eq, Bool-cases, Option-cases, length,
  get_elem?, is_empty, Result, ok, err, >>=-eq-ok, lookup,
}
use depengine.Plan.Resource.{resource_identity_eq, ownership_kind_eq}
use depengine.Plan.Reference.{ReferenceLibrary}

-- whether a committed dependent claims the resource
abbrev pub is_claimed : Option OwnedResourceState → Bool
is_claimed none = false
is_claimed (some s) = not (is_empty s.dependents)

module _ ⦃lib : ReferenceLibrary⦄ where
  abbrev compensate : PreparationMutation → Operation → RollbackStep
  compensate m operation = record { id = m.id; operation = operation }

  rollback_step-operation :
      (m : PreparationMutation) (o : Option OwnedResourceState) (rest : Result Steps)
      (steps : List RollbackStep) (retained : List ResourceIdentity)
      → rollback_step m o rest ≡ ok (steps, retained)
      → (is_safe m.policy && not (is_claimed o)) ≡ true
      → (operation : Operation) × (m.rollback ≡ some operation)
  unfolding rollback_step
  rollback_step-operation m none rest steps retained h b = ground arith
  rollback_step-operation m (some s) rest steps retained h b = ground arith

  -- One mutation of the loop is compensated where its policy is safe and nothing claims its
  -- resource, and retained otherwise.
  rollback_step-split :
      (m : PreparationMutation) (o : Option OwnedResourceState) (steps' steps : List RollbackStep)
      (retained' retained : List ResourceIdentity)
      → rollback_step m o (ok (steps', retained')) ≡ ok (steps, retained)
      → (((is_safe m.policy && not (is_claimed o)) ≡ false)
          × (steps ≡ steps')
          × (retained ≡ m.resource ∷ retained'))
        ⊎ ((operation : Operation) × (m.rollback ≡ some operation)
            × ((is_safe m.policy && not (is_claimed o)) ≡ true)
            × (steps ≡ compensate m operation ∷ steps')
            × (retained ≡ retained'))
  unfolding rollback_step
  rollback_step-split m o steps' steps retained' retained h =
      elim (Bool-cases (is_safe m.policy && not (is_claimed o))) [
        | inl free ↦
            let (operation, there) =
              rollback_step-operation m o (ok (steps', retained')) steps retained h free in
            inr (operation, there, free, ground arith, ground arith)
        | inr held ↦ inl (held, ground arith, ground arith)
      ]

  rollback_step-rest :
      (m : PreparationMutation) (o : Option OwnedResourceState) (rest : Result Steps)
      (steps : List RollbackStep) (retained : List ResourceIdentity)
      → rollback_step m o rest ≡ ok (steps, retained)
      → (r : Steps) × (rest ≡ ok r)
  unfolding rollback_step
  rollback_step-rest m o (ok r) steps retained h = (r, refl)
  rollback_step-rest m o (err e) steps retained h = absurd (ground arith)

  -- The plan of a rollback, mutation by mutation, over the first `k` of the plan's mutations: a
  -- mutation is undone where its policy is safe and its resource has no dependent, and kept otherwise.
  pub data Planned (owned : Snapshot) (ms : List PreparationMutation)
      : ℕ → List RollbackStep → List ResourceIdentity → Type 0 where
    done : Planned owned ms 0 [] []
    keep :
        {k : ℕ} {steps : List RollbackStep} {retained : List ResourceIdentity}
        (m : PreparationMutation)
        → get_elem? ms k ≡ some m
        → (is_safe m.policy && not (is_claimed (lookup m.resource owned))) ≡ false
        → Planned owned ms k steps retained
        → Planned owned ms (suc k) steps (m.resource ∷ retained)
    undo :
        {k : ℕ} {steps : List RollbackStep} {retained : List ResourceIdentity}
        (m : PreparationMutation) (operation : Operation)
        → get_elem? ms k ≡ some m
        → m.rollback ≡ some operation
        → (is_safe m.policy && not (is_claimed (lookup m.resource owned))) ≡ true
        → Planned owned ms k steps retained
        → Planned owned ms (suc k) (compensate m operation ∷ steps) retained

  pub rollback_steps-Planned :
      (owned : Snapshot) (ms : List PreparationMutation) (k : ℕ) (steps : List RollbackStep)
      (retained : List ResourceIdentity)
      → rollback_steps owned ms k ≡ ok (steps, retained)
      → Planned owned ms k steps retained
  unfolding rollback_steps
  rollback_steps-Planned owned ms zero steps retained h =
      let p : steps ≡ [] = ground arith in let q : retained ≡ [] = ground arith in rw (p, q) done
  rollback_steps-Planned owned ms (suc i) steps retained h = elim (Option-cases (get_elem? ms i)) [
    | inl missing ↦ absurd (ground arith)
    | inr (m, there) ↦
        let h' : rollback_step m (lookup m.resource owned) (rollback_steps owned ms i)
            ≡ ok (steps, retained) =
          ap (λ o. step_at o owned (rollback_steps owned ms i)) (sym there) ∙ h in
        let (r, e) =
          rollback_step-rest m (lookup m.resource owned) (rollback_steps owned ms i) steps retained
            h' in
        let h'' : rollback_step m (lookup m.resource owned) (ok r) ≡ ok (steps, retained) =
          ap (rollback_step m (lookup m.resource owned)) (sym e) ∙ h' in
        let ih = rollback_steps-Planned owned ms i r.0 r.1 e in
        elim (rollback_step-split m (lookup m.resource owned) r.0 steps r.1 retained h'') [
          | inl (held, p, q) ↦ rw (p, q) (keep m there held ih)
          | inr (operation, undoes, free, p, q) ↦ rw (p, q) (undo m operation there undoes free ih)
        ]
  ]

  rollback_steps_for-inversion :
      (p : PreparationPlan) (applied : List String) (owned : List OwnedResourceState) (r : Steps)
      → rollback_steps_for p applied owned ≡ ok r
      → (m : Snapshot) × (validate_plan p ≡ ok tt)
        × (owned_resource_snapshot owned ≡ ok m)
        × (check_prefix applied p.prepare ≡ ok tt)
        × (rollback_steps m p.prepare (length applied) ≡ ok r)
  unfolding rollback_steps_for
  rollback_steps_for-inversion p applied owned r e =
      let (unit, v, e1) = >>=-eq-ok (validate_plan p) _ e in
      let (m, built, e2) = >>=-eq-ok (owned_resource_snapshot owned) _ e1 in
      (m, v, built, ground arith, ground arith)

  -- A rollback that is planned follows `Planned` on the mutations of the applied prefix: from the last
  -- to the first, each one has a step with the operation it declares where its policy is safe and no
  -- dependent claims its resource in the recorded states, and has its resource retained otherwise.
  pub rollback_steps_for-Planned :
      (p : PreparationPlan) (applied : List String) (owned : List OwnedResourceState)
      (steps : List RollbackStep) (retained : List ResourceIdentity)
      → rollback_steps_for p applied owned ≡ ok (steps, retained)
      → (m : Snapshot) × (owned_resource_snapshot owned ≡ ok m)
        × (check_prefix applied p.prepare ≡ ok tt)
        × (validate_plan p ≡ ok tt)
        × Planned m p.prepare (length applied) steps retained
  rollback_steps_for-Planned p applied owned steps retained e =
      let (m, v, built, prefixed, made) =
        rollback_steps_for-inversion p applied owned (steps, retained) e in
      (
        m,
        built,
        prefixed,
        v,
        rollback_steps-Planned m p.prepare (length applied) steps retained made,
      )
