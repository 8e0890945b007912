-- ===== src/Plan/Journal/Forward.antt =====
-- The forward transitions keep a journal valid.
use depengine.Prelude.{
  inr, inl, ◌+◌, Option-cases, String, ℕ, zero, suc, ◌≡◌, refl, true, false, ◌||◌, ◌&&◌, not, some,
  List, [], ◌∷◌, ◌++◌, ◌==◌, ◌!=◌, string_eq, nat_eq, arith, if◌then◌else◌, ok, contains, is_empty,
  length, ltb, get_elem?, length-append,
}
use depengine.Plan.Reference.{ReferenceLibrary}
use depengine.Plan.Resource.{is_bad_name}
use depengine.Plan.Preparation.{PreparationMutation, PreparationPlan}
use depengine.Plan.Journal.{
  PreparationStatus, PreparationJournal, or_pending, in_rollback, check_in_flight, check_shape,
  check_rollback, check_progress, validate_journal,
}
use depengine.Plan.Journal.Transitions.{may_plan, is_applying, plan_apply, record_applied}
use depengine.Plan.Journal.Validity.{
  IsValid, IsValid-validate, validate-IsValid, check_ids-append, check_prefix-append, next_is_new,
  validate_plan-prepare,
}

-- a well-formed name is not empty, not padded and has no NUL
pub check_in_flight-new :
    (id : String) (seen : List String)
    → is_bad_name id ≡ false
    → contains seen id ≡ false
    → (check_in_flight id seen ≡ ok tt) × ((id == "") ≡ false)
unfolding check_in_flight is_bad_name
check_in_flight-new id seen b c = ground arith

pub in_flight_is_new :
    (id : String) (seen : List String)
    → check_in_flight id seen ≡ ok tt
    → (id == "") ≡ false
    → (is_bad_name id ≡ false) × (contains seen id ≡ false)
unfolding check_in_flight is_bad_name
in_flight_is_new id seen h e = ground arith

pub get_elem?-lt {ℓ} :
    {A : Type ℓ} (xs : List A) (i : ℕ) (x : A) → get_elem? xs i ≡ some x → ltb i (length xs) ≡ true
get_elem?-lt [] i x e = cc
get_elem?-lt (y ∷ ys) zero x e = ground arith
get_elem?-lt (y ∷ ys) (suc i) x e = ground (arith, get_elem?-lt ys i x)

append-nonempty {ℓ} : {A : Type ℓ} (xs : List A) (x : A) → is_empty (xs ++ x ∷ []) ≡ false
append-nonempty [] x = refl
append-nonempty (y ∷ ys) x = refl

-- Outside a rollback the check of rollback progress passes at every length.
no_rollback_check :
    (j : PreparationJournal) (ms : List PreparationMutation) (k : ℕ)
    → in_rollback (or_pending j.status) ≡ false
    → (not (in_rollback (or_pending j.status))
        && (not (is_empty j.rollback_applied) || j.rollback_applying != ""))
      ≡ false
    → check_rollback ms k (j.rollback_applied ++ j.rollback_applying ∷ []) ≡ ok tt
unfolding check_rollback
no_rollback_check j ms k s h =
    let none_done : j.rollback_applied ≡ [] = ground arith in
    let none_flying : j.rollback_applying ≡ "" = ground arith in
    rw (none_done, none_flying) (ground arith)

module _ ⦃lib : ReferenceLibrary⦄ where
  -- what PlanApply establishes
  pub plan_apply-inversion :
      (j k : PreparationJournal) (p : PreparationPlan) (id : String)
      → plan_apply j p id ≡ ok k
      → (validate_journal j p ≡ ok tt)
        × (may_plan (or_pending j.status) ≡ true)
        × (m : PreparationMutation) × (get_elem? p.prepare (length j.applied) ≡ some m)
        × (id ≡ m.id)
        × (k ≡ record j { status = PreparationStatus.applying; applying = m.id })
  unfolding plan_apply
  plan_apply-inversion j k p id e = elim (Option-cases (get_elem? p.prepare (length j.applied))) [
    | inl missing ↦ absurd (ground arith)
    | inr (m, there) ↦ (ground arith, ground arith, m, there, ground arith, ground arith)
  ]

  applying-IsValid :
      (j : PreparationJournal) (p : PreparationPlan) (m : PreparationMutation)
      → IsValid j p
      → may_plan (or_pending j.status) ≡ true
      → get_elem? p.prepare (length j.applied) ≡ some m
      → IsValid (record j { status = PreparationStatus.applying; applying = m.id }) p
  unfolding check_shape check_progress
  applying-IsValid j p m v may there =
      let new =
        next_is_new [] [] j.applied p.prepare m (validate_plan-prepare p v.plan) v.applied_prefix
          there in
      let flight = check_in_flight-new m.id j.applied new.0 new.2 in
      record {
        plan = v.plan;
        ids = v.ids;
        in_flight = flight.0;
        rollback_ids = v.rollback_ids;
        rollback_in_flight = v.rollback_in_flight;
        no_rollback = ground (arith, v.no_rollback);
        shape = ground (arith, flight.1);
        fits = v.fits;
        applied_prefix = v.applied_prefix;
        rollback = v.rollback;
        progress = ground (arith, there);
      }

  -- PlanApply keeps a journal valid.
  pub plan_apply-IsValid :
      (j k : PreparationJournal) (p : PreparationPlan) (id : String)
      → plan_apply j p id ≡ ok k
      → validate_journal k p ≡ ok tt
  plan_apply-IsValid j k p id e =
      let (valid, may, m, there, same, made) = plan_apply-inversion j k p id e in
      rw made (validate-IsValid _ p (applying-IsValid j p m (IsValid-validate j p valid) may there))

  abbrev pub recorded : PreparationJournal → PreparationPlan → PreparationJournal
  recorded j p =
      let applied = j.applied ++ j.applying ∷ [] in
      record j {
        status =
            if length applied == length p.prepare
            then PreparationStatus.ready
            else PreparationStatus.preparing;
        applied = applied;
        applying = "";
      }

  -- what RecordApplied establishes
  pub record_applied-inversion :
      (j k : PreparationJournal) (p : PreparationPlan) (id : String)
      → record_applied j p id ≡ ok k
      → (validate_journal j p ≡ ok tt)
        × (is_applying j.status ≡ true)
        × (id ≡ j.applying)
        × (k ≡ recorded j p)
  unfolding record_applied
  record_applied-inversion j k p id e = ground arith

  -- an applying journal has the plan's next mutation in flight
  pub applying-next :
      (j : PreparationJournal) (p : PreparationPlan)
      → IsValid j p
      → is_applying j.status ≡ true
      → (m : PreparationMutation) × (get_elem? p.prepare (length j.applied) ≡ some m)
        × (j.applying ≡ m.id)
        × ((j.applying == "") ≡ false)
  unfolding check_progress check_shape
  applying-next j p v a = elim (Option-cases (get_elem? p.prepare (length j.applied))) [
    | inl missing ↦ absurd (ground (arith, v.progress))
    | inr (m, there) ↦ (m, there, ground (arith, v.progress), ground (arith, v.shape))
  ]

  recorded-IsValid :
      (j : PreparationJournal) (p : PreparationPlan)
      → IsValid j p
      → is_applying j.status ≡ true
      → IsValid (recorded j p) p
  unfolding check_shape check_progress check_in_flight
  recorded-IsValid j p v a =
      let (m, there, same, named) = applying-next j p v a in
      let new = in_flight_is_new j.applying j.applied v.in_flight named in
      let room = get_elem?-lt p.prepare (length j.applied) m there in
      let grown : length (j.applied ++ j.applying ∷ []) ≡ length j.applied + 1 =
        length-append j.applied (j.applying ∷ []) in
      let nonempty = append-nonempty j.applied j.applying in
      record {
        plan = v.plan;
        ids = check_ids-append [] j.applied j.applying v.ids new.0 refl new.1;
        in_flight = ground arith;
        rollback_ids = v.rollback_ids;
        rollback_in_flight = v.rollback_in_flight;
        no_rollback = ground (arith, v.no_rollback);
        shape = ground (arith, nonempty);
        fits = ground (arith, grown, room);
        applied_prefix = rw same (check_prefix-append j.applied p.prepare m v.applied_prefix there);
        rollback = no_rollback_check j p.prepare _ (ground arith) v.no_rollback;
        progress = ground (arith, grown, room, nonempty);
      }

  -- RecordApplied keeps a journal valid.
  pub record_applied-IsValid :
      (j k : PreparationJournal) (p : PreparationPlan) (id : String)
      → record_applied j p id ≡ ok k
      → validate_journal k p ≡ ok tt
  record_applied-IsValid j k p id e =
      let (valid, flying, same, made) = record_applied-inversion j k p id e in
      rw made (validate-IsValid _ p (recorded-IsValid j p (IsValid-validate j p valid) flying))
