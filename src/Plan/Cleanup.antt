-- ===== src/Plan/Cleanup.antt =====
-- internal/plan/preparation.go: the cleanup of released resources by the rollback operations of the
-- mutations that created them. `*mutation.Rollback` of a mutation without one, which the plan's
-- validation excludes, is an error here.
use depengine.Prelude.{
  ℕ, zero, suc, ◌+◌, ◌-◌, ◌≤◌, ◌<◌, String, ◌≡◌, refl, sym, ap, ◌∙◌, ◌≢◌, ◌↔◌, ◌⊎◌, inl, inr, Bool,
  true, false, ◌&&◌, ◌||◌, not, Option, none, some, List, [], ◌∷◌, ◌++◌, map, reverse, arith, Eq,
  ◌==◌, ◌!=◌, string_eq, nat_eq, String-discrete, ltb, leb, if◌then◌else◌, Bool-cases, Option-cases,
  length, get_elem?, take, drop, is_empty, length-append, contains, Result, ok, err, ◌>>=◌, ◌>>◌,
  fail_if, succeeds, >>=-eq-ok, Table, lookup, insert, remove, values, lookup-insert, lookup-remove,
  trim_space, contains_nul, text_lt,
}
use depengine.Plan.Reference.{ReferenceLibrary}
use depengine.Plan.Operation.{Operation, OperationEffect}
use depengine.Plan.Resource.{
  ResourceIdentity, resource_identity_eq, ownership_kind_eq, validate_resource,
}
use depengine.Plan.Ownership.{OwnedResourceState, is_depengine_owned, ref_count}
use depengine.Plan.Ownership.Ledger.{
  Snapshot, ResourceReleaseDecision, owned_resource_snapshot, sorted_states,
}
use depengine.Plan.Preparation.{PreparationMutation, PreparationPlan, validate_plan, is_safe}
pub mod Partition

pub record ResourceCleanupDecision : Type 0 where
  pub operations : List Operation
  pub cleaned : List ResourceIdentity
  pub retained : List ResourceIdentity

abbrev pub same_effect : OperationEffect → OperationEffect → Bool
same_effect OperationEffect.read_only OperationEffect.read_only = true
same_effect OperationEffect.mutation OperationEffect.mutation = true
same_effect (OperationEffect.unlisted s) (OperationEffect.unlisted t) = s == t
same_effect _ _ = false

abbrev pub same_flag : Bool → Bool → Bool
same_flag true b = b
same_flag false b = not b

unfoldable pub same_strings : List String → List String → Bool
same_strings [] [] = true
same_strings [] (y ∷ ys) = false
same_strings (x ∷ xs) [] = false
same_strings (x ∷ xs) (y ∷ ys) = x == y && same_strings xs ys

unfoldable pub same_operations : List Operation → List Operation → Bool
unfolding same_strings
same_operations [] [] = true
same_operations [] (y ∷ ys) = false
same_operations (x ∷ xs) [] = false
same_operations (x ∷ xs) (y ∷ ys) =
    x.kind == y.kind
    && x.description == y.description
    && same_effect x.effect y.effect
    && same_flag x.arbitrary_code y.arbitrary_code
    && same_strings x.command y.command
    && same_operations xs ys

unfoldable pub same_resources : List ResourceIdentity → List ResourceIdentity → Bool
same_resources [] [] = true
same_resources [] (y ∷ ys) = false
same_resources (x ∷ xs) [] = false
same_resources (x ∷ xs) (y ∷ ys) = x == y && same_resources xs ys

-- delete(wanted, r)
unfoldable pub unwant : ResourceIdentity → List ResourceIdentity → List ResourceIdentity
unwant r [] = []
unwant r (x ∷ xs) = let rest = unwant r xs in if x == r then rest else x ∷ rest

module _ ⦃lib : ReferenceLibrary⦄ where
  check_state : Option OwnedResourceState → Result (Unit {0})
  check_state none = err "removable resource is absent from updated ownership state"
  check_state (some state) =
      fail_if (not (is_depengine_owned state.ownership) || ref_count state != 0)
        "removable resource must be depengine-owned with zero dependents"

  -- the loop over the removable resources, with the ones met so far
  unfoldable pub check_wanted :
      Snapshot → List ResourceIdentity → List ResourceIdentity → Result (Unit {0})
  unfolding check_state
  check_wanted snapshot seen [] = ok tt
  check_wanted snapshot seen (r ∷ rs) =
      let rest = check_wanted snapshot (r ∷ seen) rs in
      (do
        validate_resource r
        fail_if (contains seen r) "duplicate removable resource"
        check_state (lookup r snapshot)
        rest)

  -- one mutation whose resource is wanted, before the mutations that are left
  unfoldable pub clean_one :
      PreparationMutation
      → Option Operation
      → Result ResourceCleanupDecision
      → Result ResourceCleanupDecision
  clean_one m none rest =
      if is_safe m.policy
      then err "nil pointer dereference"
      else (do out ← rest; ok (record out { retained = m.resource ∷ out.retained }))
  clean_one m (some operation) rest =
      if is_safe m.policy
      then (do
        out ← rest
        ok (record out {
          operations = operation ∷ out.operations;
          cleaned = m.resource ∷ out.cleaned;
        }))
      else (do out ← rest; ok (record out { retained = m.resource ∷ out.retained }))

  -- the loop over the mutations, from the last to the first
  unfoldable pub clean_all :
      List ResourceIdentity → List PreparationMutation → Result ResourceCleanupDecision
  unfolding clean_one unwant
  clean_all wanted [] =
      if is_empty wanted
      then ok (record { operations = []; cleaned = []; retained = [] })
      else err "removable resource is not represented by preparation plan"
  clean_all wanted (m ∷ ms) =
      let skip = clean_all wanted ms in
      let rest = clean_all (unwant m.resource wanted) ms in
      if not (contains wanted m.resource)
      then skip
      else if not (is_depengine_owned m.ownership)
      then err "cleanup resource is not depengine-owned in preparation plan"
      else clean_one m m.rollback rest

  unfoldable pub cleanup_released_resources :
      PreparationPlan → ResourceReleaseDecision → Result ResourceCleanupDecision
  unfolding check_wanted clean_all
  cleanup_released_resources p release = do
    validate_plan p
    snapshot ← owned_resource_snapshot release.updated
    check_wanted snapshot [] release.removable
    clean_all release.removable (reverse p.prepare)

  unfoldable pub remove_all : List ResourceIdentity → Snapshot → Snapshot
  remove_all [] m = m
  remove_all (r ∷ rs) m = remove_all rs (remove r m)

  unfoldable pub finalize_released_resource_cleanup :
      PreparationPlan
      → ResourceReleaseDecision
      → ResourceCleanupDecision
      → Result (List OwnedResourceState)
  unfolding same_operations same_resources remove_all
  finalize_released_resource_cleanup p release cleanup = do
    expected ← cleanup_released_resources p release
    fail_if
        (not (same_operations cleanup.operations expected.operations)
          || not (same_resources cleanup.cleaned expected.cleaned)
          || not (same_resources cleanup.retained expected.retained))
        "cleanup decision does not match preparation plan"
    snapshot ← owned_resource_snapshot release.updated
    ok (sorted_states (remove_all expected.cleaned snapshot))
