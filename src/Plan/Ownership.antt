-- ===== src/Plan/Ownership.antt =====
-- internal/plan/preparation.go: ownership and reference counts of shared host resources. `Ledger` has
-- the operations on whole snapshots.
pub mod Dependents
pub mod Claims
pub mod Ledger
use depengine.Prelude.{
  String, ℕ, suc, ◌+◌, Bool, true, false, ◌||◌, ◌&&◌, not, Option, none, some, List, [], ◌∷◌, ◌++◌,
  ◌==◌, ◌!=◌, string_eq, trim_space, contains_nul, text_lt, get_elem?, take, drop, length, is_empty,
  if◌then◌else◌, Result, ok, err, ◌>>=◌, ◌>>◌, fail_if,
}
use depengine.Plan.Reference.{ReferenceLibrary}
use depengine.Plan.Resource.{OwnershipKind, ResourceIdentity, ownership_kind_eq, validate_resource}

pub record OwnedResourceState : Type 0 where
  pub resource : ResourceIdentity
  pub ownership : OwnershipKind
  pub dependents : List String

unfoldable pub ref_count : OwnedResourceState → ℕ
ref_count s = length s.dependents

-- sort.SearchStrings: the first index whose entry is not below `x`
unfoldable pub search_strings : List String → String → ℕ
search_strings [] x = 0
search_strings (y ∷ ys) x = let rest = search_strings ys x in if text_lt y x then suc rest else 0

abbrev pub entry_is : Option String → String → Bool
entry_is none x = false
entry_is (some y) x = y == x

-- i < len(dependents) && dependents[i] == dependent, for the index that the search finds
unfoldable pub claims : List String → String → Bool
unfolding search_strings
claims dependents dependent =
    entry_is (get_elem? dependents (search_strings dependents dependent)) dependent

unfoldable pub insert_dependent : List String → String → List String
unfolding search_strings
insert_dependent dependents dependent =
    let i = search_strings dependents dependent in
    take i dependents ++ (dependent ∷ drop i dependents)

unfoldable pub remove_dependent : List String → String → List String
unfolding search_strings
remove_dependent dependents dependent =
    let i = search_strings dependents dependent in take i dependents ++ drop (suc i) dependents

abbrev above : Option String → String → Bool
above none x = true
above (some last) x = text_lt last x

-- the loop over the dependents; `last` is the one before, if any
unfoldable pub check_dependents : Option String → List String → Result (Unit {0})
check_dependents last [] = ok tt
check_dependents last (dep ∷ deps) =
    let rest = check_dependents (some dep) deps in
    (do
      fail_if (trim_space dep != dep || dep == "")
          "dependent is empty or has surrounding whitespace"
      fail_if (contains_nul dep) "dependent contains NUL"
      fail_if (not (above last dep)) "dependents must be sorted and unique"
      rest)

unfoldable pub check_ownership : OwnershipKind → Result (Unit {0})
check_ownership (OwnershipKind.unlisted _) = err "invalid ownership"
check_ownership _ = ok tt

-- validateDependent
unfoldable pub validate_dependent : String → Result (Unit {0})
validate_dependent dependent = do
  fail_if (trim_space dependent != dependent || dependent == "")
      "dependent is required and must not contain surrounding whitespace"
  fail_if (contains_nul dependent) "dependent contains NUL"

abbrev pub is_depengine_owned : OwnershipKind → Bool
is_depengine_owned OwnershipKind.depengine_owned = true
is_depengine_owned _ = false

abbrev pub is_external : OwnershipKind → Bool
is_external OwnershipKind.external = true
is_external _ = false

module _ ⦃lib : ReferenceLibrary⦄ where
  -- OwnedResourceState.Validate
  unfoldable pub validate_owned : OwnedResourceState → Result (Unit {0})
  unfolding check_ownership
  validate_owned s = do
    validate_resource s.resource
    check_ownership s.ownership
    check_dependents none s.dependents

  unfoldable pub claim_resource : OwnedResourceState → String → Result OwnedResourceState
  claim_resource state dependent = do
    validate_owned state
    validate_dependent dependent
    if claims state.dependents dependent
        then ok state
        else ok (record state { dependents = insert_dependent state.dependents dependent })

  -- the state without the claim, and whether its resource may be removed
  unfoldable pub release_resource : OwnedResourceState → String → Result (OwnedResourceState × Bool)
  release_resource state dependent = do
    validate_owned state
    validate_dependent dependent
    fail_if (not (claims state.dependents dependent)) "dependent does not claim resource"
    let left = remove_dependent state.dependents dependent
    ok (record state { dependents = left }, is_depengine_owned state.ownership && is_empty left)
