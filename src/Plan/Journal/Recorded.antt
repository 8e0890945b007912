-- ===== src/Plan/Journal/Recorded.antt =====
-- Recording a rollback operation keeps a journal valid.
use depengine.Plan.Ownership.{OwnedResourceState}
use depengine.Prelude.{
  Result-cases, String, ◌≡◌, refl, inl, inr, true, false, List, [], ◌∷◌, ◌++◌, arith, ◌==◌,
  string_eq, nat_eq, length, ok,
}
use depengine.Plan.Resource.{resource_identity_eq, ownership_kind_eq}
use depengine.Plan.Reference.{ReferenceLibrary}
use depengine.Plan.Preparation.{PreparationPlan, rollback_steps_for}
use depengine.Plan.Journal.{
  PreparationJournal, check_shape, check_progress, check_in_flight, validate_journal,
}
use depengine.Plan.Journal.Validity.{IsValid, IsValid-validate, validate-IsValid, check_ids-append}
use depengine.Plan.Journal.Forward.{in_flight_is_new}
use depengine.Plan.Journal.Transitions.{is_rolling_back}
use depengine.Plan.Journal.Undoing.{record_rollback_applied}
use depengine.Plan.Journal.Rollback.{check_rollback-end}

module _ ⦃lib : ReferenceLibrary⦄ where
  -- what RecordApplied of a rollback establishes: the in-flight step is still the planned one
  pub record_rollback_applied-inversion :
      (j k : PreparationJournal) (p : PreparationPlan) (owned : List OwnedResourceState)
      (id : String)
      → record_rollback_applied j p owned id ≡ ok k
      → (validate_journal j p ≡ ok tt)
        × (is_rolling_back j.status ≡ true)
        × ((j.rollback_applying == "") ≡ false)
        × (id ≡ j.rollback_applying)
        × (k ≡ record j {
          rollback_applied = j.rollback_applied ++ j.rollback_applying ∷ [];
          rollback_applying = "";
        })
  unfolding record_rollback_applied
  record_rollback_applied-inversion j k p owned id e =
      elim (Result-cases (rollback_steps_for p j.applied owned)) [
        | inr (message, failed) ↦ absurd (ground (arith, failed))
        | inl ((steps, retained), planned) ↦
            (ground arith, ground arith, ground arith, ground arith, ground (arith, planned))
      ]

  undone-IsValid :
      (j : PreparationJournal) (p : PreparationPlan)
      → IsValid j p
      → is_rolling_back j.status ≡ true
      → (j.rollback_applying == "") ≡ false
      → IsValid
          (record j {
            rollback_applied = j.rollback_applied ++ j.rollback_applying ∷ [];
            rollback_applying = "";
          })
          p
  unfolding check_shape check_progress check_in_flight
  undone-IsValid j p v rolling flying =
      let new =
        in_flight_is_new j.rollback_applying j.rollback_applied v.rollback_in_flight flying in
      record {
        plan = v.plan;
        ids = v.ids;
        in_flight = v.in_flight;
        rollback_ids =
            check_ids-append [] j.rollback_applied j.rollback_applying v.rollback_ids new.0 refl
              new.1;
        rollback_in_flight = ground arith;
        no_rollback = ground (arith, rolling);
        shape = ground (arith, rolling, v.shape);
        fits = v.fits;
        applied_prefix = v.applied_prefix;
        rollback =
            check_rollback-end p.prepare (j.rollback_applied ++ j.rollback_applying ∷ [])
              (length j.applied) v.rollback;
        progress = ground (arith, rolling);
      }

  -- RecordApplied of a rollback keeps a journal valid.
  pub record_rollback_applied-IsValid :
      (j k : PreparationJournal) (p : PreparationPlan) (owned : List OwnedResourceState)
      (id : String)
      → record_rollback_applied j p owned id ≡ ok k
      → validate_journal k p ≡ ok tt
  record_rollback_applied-IsValid j k p owned id e =
      let (valid, rolling, flying, same, made) =
        record_rollback_applied-inversion j k p owned id e in
      rw made
        (validate-IsValid _ p (undone-IsValid j p (IsValid-validate j p valid) rolling flying))
