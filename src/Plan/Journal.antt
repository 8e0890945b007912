-- ===== src/Plan/Journal.antt =====
-- internal/plan/preparation.go: the write-ahead journal of candidate preparation. `Transitions` and
-- `Undoing` have the methods that advance it.
pub mod Transitions
pub mod Undoing
pub mod Validity
pub mod Forward
pub mod Resolving
pub mod Commit
pub mod Order
pub mod Rollback
pub mod Recorded
pub mod Finish
pub mod Run
pub mod Safety
pub mod Compensation
pub mod Progress
pub mod Claimed
use depengine.Prelude.{
  String, ℕ, zero, suc, Bool, true, false, ◌||◌, ◌&&◌, not, Option, none, some, List, [], ◌∷◌, ◌++◌,
  ◌==◌, ◌!=◌, string_eq, nat_eq, if◌then◌else◌, Result, ok, err, ◌>>=◌, ◌>>◌, fail_if, contains,
  is_empty, length, ltb, leb, get_elem?, trim_space, contains_nul,
}
use depengine.Plan.Reference.{ReferenceLibrary}
use depengine.Plan.Resource.{is_bad_name}
use depengine.Plan.Preparation.{
  PreparationMutation, PreparationPlan, is_safe, validate_plan, check_prefix,
}

-- `unset` is the empty string, which the methods read as `pending`.
pub data PreparationStatus : Type 0 where
  unset pending applying preparing ready committing committed rolling_back rolled_back :
      PreparationStatus
  unlisted : String → PreparationStatus

pub data MutationOutcome : Type 0 where
  applied not_applied : MutationOutcome
  unlisted : String → MutationOutcome

pub record PreparationJournal : Type 0 where
  pub status : PreparationStatus
  pub applied : List String
  pub applying : String
  pub rollback_applied : List String
  pub rollback_applying : String

abbrev pub new_preparation_journal : PreparationJournal
new_preparation_journal = record {
  status = PreparationStatus.pending;
  applied = [];
  applying = "";
  rollback_applied = [];
  rollback_applying = "";
}

abbrev pub or_pending : PreparationStatus → PreparationStatus
or_pending PreparationStatus.unset = PreparationStatus.pending
or_pending status = status

abbrev pub in_rollback : PreparationStatus → Bool
in_rollback PreparationStatus.rolling_back = true
in_rollback PreparationStatus.rolled_back = true
in_rollback _ = false

-- the loop over recorded ids, with those met so far
unfoldable pub check_ids : List String → List String → Result (Unit {0})
check_ids seen [] = ok tt
check_ids seen (id ∷ ids) =
    let rest = check_ids (id ∷ seen) ids in
    (do
      fail_if (is_bad_name id) "preparation journal mutation has invalid id"
      fail_if (contains seen id) "preparation journal contains duplicate mutation id"
      rest)

-- the tests on an in-flight id, against the ids already recorded
unfoldable pub check_in_flight : String → List String → Result (Unit {0})
check_in_flight id seen = if id == "" then ok tt else (do
  fail_if (trim_space id != id || contains_nul id) "in-flight mutation has invalid id"
  fail_if (contains seen id) "in-flight mutation is already recorded as applied")

-- the switch of ValidateShape
unfoldable pub check_shape : PreparationStatus → PreparationJournal → Result (Unit {0})
check_shape PreparationStatus.pending j =
    fail_if (not (is_empty j.applied) || j.applying != "")
      "pending preparation journal cannot contain mutation progress"
check_shape PreparationStatus.applying j =
    fail_if (j.applying == "") "applying preparation journal requires an in-flight mutation"
check_shape PreparationStatus.preparing j = do
  fail_if (is_empty j.applied) "preparing journal requires at least one applied mutation"
  fail_if (j.applying != "") "preparing journal cannot contain an in-flight mutation"
check_shape PreparationStatus.ready j =
    fail_if (j.applying != "") "preparation journal cannot contain an in-flight mutation"
check_shape PreparationStatus.committing j =
    fail_if (j.applying != "") "preparation journal cannot contain an in-flight mutation"
check_shape PreparationStatus.committed j =
    fail_if (j.applying != "") "preparation journal cannot contain an in-flight mutation"
check_shape PreparationStatus.rolling_back j =
    fail_if (j.applying != "") "preparation journal cannot contain an in-flight prepare mutation"
check_shape PreparationStatus.rolled_back j = do
  fail_if (j.applying != "") "preparation journal cannot contain an in-flight prepare mutation"
  fail_if (j.rollback_applying != "")
      "rolled_back preparation journal cannot contain an in-flight rollback mutation"
check_shape _ j = err "invalid preparation journal status"

unfoldable pub validate_shape : PreparationJournal → Result (Unit {0})
unfolding check_ids check_in_flight check_shape
validate_shape j = do
  check_ids [] j.applied
  check_in_flight j.applying j.applied
  check_ids [] j.rollback_applied
  check_in_flight j.rollback_applying j.rollback_applied
  fail_if
      (not (in_rollback (or_pending j.status))
        && (not (is_empty j.rollback_applied) || j.rollback_applying != ""))
      "preparation journal cannot contain rollback progress"
  check_shape (or_pending j.status) j

abbrev id_is : Option PreparationMutation → String → Bool
id_is none id = false
id_is (some m) id = m.id == id

-- The highest index below `k` whose mutation has this id.
unfoldable pub find_below : List PreparationMutation → String → ℕ → Option ℕ
find_below ms id zero = none
find_below ms id (suc i) =
    let rest = find_below ms id i in if id_is (get_elem? ms i) id then some i else rest

abbrev safe_at : Option PreparationMutation → Bool
safe_at none = false
safe_at (some m) = is_safe m.policy

-- The loop over rollback progress: the ids stand in reverse order below `k`.
unfoldable pub check_rollback : List PreparationMutation → ℕ → List String → Result (Unit {0})
unfolding find_below
check_rollback ms k [] = ok tt
check_rollback ms k (id ∷ ids) =
    let skip = check_rollback ms k ids in
    if id == "" then skip else elim (find_below ms id k) [
      | none ↦ err "rollback mutation is not in the applied prefix or is out of reverse order"
      | some found ↦
          if safe_at (get_elem? ms found)
          then check_rollback ms found ids
          else err "rollback mutation is not automatically reversible"
    ]

-- the second switch of Validate
unfoldable pub check_progress :
    PreparationStatus → PreparationJournal → List PreparationMutation → Result (Unit {0})
check_progress PreparationStatus.pending j ms =
    fail_if (not (is_empty j.applied))
      "pending preparation journal cannot contain applied mutations"
check_progress PreparationStatus.applying j ms = elim (get_elem? ms (length j.applied)) [
  | none ↦ err "applying preparation journal cannot follow a complete mutation prefix"
  | some m ↦
      fail_if (j.applying != m.id) "preparation journal applying mutation is not the next one"
]
check_progress PreparationStatus.preparing j ms =
    fail_if (is_empty j.applied || leb (length ms) (length j.applied))
      "preparing journal requires a non-empty partial mutation prefix"
check_progress PreparationStatus.ready j ms =
    fail_if (length j.applied != length ms)
      "ready preparation journal must contain every prepare mutation"
check_progress PreparationStatus.committing j ms =
    fail_if (length j.applied != length ms)
      "committing preparation journal must contain every prepare mutation"
check_progress PreparationStatus.committed j ms =
    fail_if (length j.applied != length ms)
      "committed preparation journal must contain every prepare mutation"
check_progress PreparationStatus.rolling_back j ms = ok tt
check_progress PreparationStatus.rolled_back j ms = ok tt
check_progress _ j ms = err "invalid preparation journal status"

module _ ⦃lib : ReferenceLibrary⦄ where
  -- PreparationJournal.Validate
  unfoldable pub validate_journal : PreparationJournal → PreparationPlan → Result (Unit {0})
  unfolding check_rollback check_progress
  validate_journal j p = do
    validate_plan p
    validate_shape j
    fail_if (ltb (length p.prepare) (length j.applied))
        "preparation journal records more mutations than the plan has"
    check_prefix j.applied p.prepare
    check_rollback p.prepare (length j.applied) (j.rollback_applied ++ j.rollback_applying ∷ [])
    check_progress (or_pending j.status) j p.prepare
