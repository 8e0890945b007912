-- ===== src/Plan/Journal/Validity.antt =====
-- What the validation of a journal says, part by part, and what it says of the next mutation.
use depengine.Prelude.{
  String, ℕ, zero, suc, ◌≡◌, refl, false, ◌||◌, ◌&&◌, not, some, List, [], ◌∷◌, ◌++◌, ◌!=◌,
  string_eq, nat_eq, arith, ok, contains, is_empty, length, ltb, get_elem?,
}
use depengine.Plan.Reference.{ReferenceLibrary}
use depengine.Plan.Resource.{ResourceIdentity, is_bad_name}
use depengine.Plan.Preparation.{
  PreparationMutation, PreparationPlan, validate_plan, validate_mutation, check_prepare,
  check_prefix,
}
use depengine.Plan.Journal.{
  PreparationJournal, or_pending, in_rollback, check_ids, check_in_flight, check_shape,
  validate_shape, check_rollback, check_progress, validate_journal,
}

-- A recorded id can be appended where it is well-formed and new.
pub check_ids-append :
    (seen ids : List String) (id : String)
    → check_ids seen ids ≡ ok tt
    → is_bad_name id ≡ false
    → contains seen id ≡ false
    → contains ids id ≡ false
    → check_ids seen (ids ++ id ∷ []) ≡ ok tt
unfolding check_ids
check_ids-append seen [] id h b s c = ground arith
check_ids-append seen (x ∷ ids) id h b s c = ground (arith, check_ids-append (x ∷ seen) ids id)

module _ ⦃lib : ReferenceLibrary⦄ where
  pub record IsValid (j : PreparationJournal) (p : PreparationPlan) : Type 0 where
    pub plan : validate_plan p ≡ ok tt
    pub ids : check_ids [] j.applied ≡ ok tt
    pub in_flight : check_in_flight j.applying j.applied ≡ ok tt
    pub rollback_ids : check_ids [] j.rollback_applied ≡ ok tt
    pub rollback_in_flight : check_in_flight j.rollback_applying j.rollback_applied ≡ ok tt
    pub no_rollback :
        (not (in_rollback (or_pending j.status))
          && (not (is_empty j.rollback_applied) || j.rollback_applying != ""))
        ≡ false
    pub shape : check_shape (or_pending j.status) j ≡ ok tt
    pub fits : ltb (length p.prepare) (length j.applied) ≡ false
    pub applied_prefix : check_prefix j.applied p.prepare ≡ ok tt
    pub rollback :
        check_rollback p.prepare (length j.applied) (j.rollback_applied ++ j.rollback_applying ∷ [])
        ≡ ok tt
    pub progress : check_progress (or_pending j.status) j p.prepare ≡ ok tt

  pub IsValid-validate :
      (j : PreparationJournal) (p : PreparationPlan) → validate_journal j p ≡ ok tt → IsValid j p
  unfolding validate_journal validate_shape
  IsValid-validate j p h = record {
    plan = ground arith;
    ids = ground arith;
    in_flight = ground arith;
    rollback_ids = ground arith;
    rollback_in_flight = ground arith;
    no_rollback = ground arith;
    shape = ground arith;
    fits = ground arith;
    applied_prefix = ground arith;
    rollback = ground arith;
    progress = ground arith;
  }

  pub validate-IsValid :
      (j : PreparationJournal) (p : PreparationPlan) → IsValid j p → validate_journal j p ≡ ok tt
  unfolding validate_journal validate_shape
  validate-IsValid j p h = ground (
    arith, h.plan, h.ids, h.in_flight, h.rollback_ids, h.rollback_in_flight, h.no_rollback, h.shape,
    h.fits, h.applied_prefix, h.rollback, h.progress,
  )

  pub check_prepare-at :
      (seen : List String) (resources : List ResourceIdentity) (ms : List PreparationMutation)
      (k : ℕ) (m : PreparationMutation)
      → check_prepare seen resources ms ≡ ok tt
      → get_elem? ms k ≡ some m
      → (is_bad_name m.id ≡ false) × (contains seen m.id ≡ false) × (validate_mutation m ≡ ok tt)
  unfolding check_prepare validate_mutation
  check_prepare-at seen resources [] k m h e = cc
  check_prepare-at seen resources (n ∷ ms) zero m h e = ground arith
  check_prepare-at seen resources (n ∷ ms) (suc k) m h e =
      ground (arith, check_prepare-at (n.id ∷ seen) (n.resource ∷ resources) ms k m)

  -- The mutation behind an applied prefix has a well-formed id that is not in the prefix.
  pub next_is_new :
      (seen : List String) (resources : List ResourceIdentity) (applied : List String)
      (ms : List PreparationMutation) (m : PreparationMutation)
      → check_prepare seen resources ms ≡ ok tt
      → check_prefix applied ms ≡ ok tt
      → get_elem? ms (length applied) ≡ some m
      → (is_bad_name m.id ≡ false) × (contains seen m.id ≡ false) × (contains applied m.id ≡ false)
  unfolding check_prepare check_prefix
  next_is_new seen resources [] ms m h q e =
      let at = check_prepare-at seen resources ms 0 m h e in (at.0, at.1, refl)
  next_is_new seen resources (x ∷ applied) [] m h q e = cc
  next_is_new seen resources (x ∷ applied) (n ∷ ms) m h q e =
      ground (arith, next_is_new (n.id ∷ seen) (n.resource ∷ resources) applied ms m)

  -- An applied prefix grows by the plan's next id.
  pub check_prefix-append :
      (applied : List String) (ms : List PreparationMutation) (m : PreparationMutation)
      → check_prefix applied ms ≡ ok tt
      → get_elem? ms (length applied) ≡ some m
      → check_prefix (applied ++ m.id ∷ []) ms ≡ ok tt
  unfolding check_prefix
  check_prefix-append [] [] m h e = cc
  check_prefix-append [] (n ∷ ms) m h e = ground arith
  check_prefix-append (x ∷ applied) [] m h e = cc
  check_prefix-append (x ∷ applied) (n ∷ ms) m h e =
      ground (arith, check_prefix-append applied ms m)

  pub validate_plan-prepare :
      (p : PreparationPlan) → validate_plan p ≡ ok tt → check_prepare [] [] p.prepare ≡ ok tt
  unfolding validate_plan
  validate_plan-prepare p h = ground arith
