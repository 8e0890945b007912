-- ===== src/Plan/Journal/Resolving.antt =====
-- Resolving a mutation in flight keeps a journal valid.
use depengine.Prelude.{
  ◌⊎◌, inr, inl, String, ◌≡◌, true, string_eq, nat_eq, arith, if◌then◌else◌, ok, is_empty, length,
}
use depengine.Plan.Reference.{ReferenceLibrary}
use depengine.Plan.Preparation.{PreparationPlan}
use depengine.Plan.Journal.{
  PreparationStatus, MutationOutcome, PreparationJournal, check_in_flight, check_shape,
  check_progress, validate_journal,
}
use depengine.Plan.Journal.Transitions.{is_applying, record_applied, resolve_applying}
use depengine.Plan.Journal.Validity.{IsValid, IsValid-validate, validate-IsValid}
use depengine.Plan.Journal.Forward.{get_elem?-lt, applying-next, record_applied-IsValid}

module _ ⦃lib : ReferenceLibrary⦄ where
  abbrev pub withdrawn : PreparationJournal → PreparationJournal
  withdrawn j = record j {
    status = if is_empty j.applied then PreparationStatus.pending else PreparationStatus.preparing;
    applying = "";
  }

  withdrawn-IsValid :
      (j : PreparationJournal) (p : PreparationPlan)
      → IsValid j p
      → is_applying j.status ≡ true
      → IsValid (withdrawn j) p
  unfolding check_shape check_progress check_in_flight
  withdrawn-IsValid j p v a =
      let (m, there, same, named) = applying-next j p v a in
      let room = get_elem?-lt p.prepare (length j.applied) m there in
      record {
        plan = v.plan;
        ids = v.ids;
        in_flight = ground arith;
        rollback_ids = v.rollback_ids;
        rollback_in_flight = v.rollback_in_flight;
        no_rollback = ground (arith, v.no_rollback);
        shape = ground arith;
        fits = v.fits;
        applied_prefix = v.applied_prefix;
        rollback = v.rollback;
        progress = ground (arith, room);
      }

  -- ResolveApplying records the mutation or withdraws it, and needs an applying journal.
  pub resolve_applying-inversion :
      (j k : PreparationJournal) (p : PreparationPlan) (id : String) (outcome : MutationOutcome)
      → resolve_applying j p id outcome ≡ ok k
      → (validate_journal j p ≡ ok tt)
        × (is_applying j.status ≡ true)
        × (id ≡ j.applying)
        × (((outcome ≡ MutationOutcome.applied) × (record_applied j p id ≡ ok k))
            ⊎ ((outcome ≡ MutationOutcome.not_applied) × (k ≡ withdrawn j)))
  unfolding resolve_applying
  resolve_applying-inversion j k p id outcome e =
      (ground arith, ground arith, ground arith, ground arith)

  -- ResolveApplying keeps a journal valid.
  pub resolve_applying-IsValid :
      (j k : PreparationJournal) (p : PreparationPlan) (id : String) (outcome : MutationOutcome)
      → resolve_applying j p id outcome ≡ ok k
      → validate_journal k p ≡ ok tt
  resolve_applying-IsValid j k p id outcome e =
      let (valid, flying, same, how) = resolve_applying-inversion j k p id outcome e in
      elim how [
        | inl (o, made) ↦ record_applied-IsValid j k p id made
        | inr (o, made) ↦
            rw made
              (validate-IsValid _ p (withdrawn-IsValid j p (IsValid-validate j p valid) flying))
      ]
