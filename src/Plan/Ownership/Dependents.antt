-- ===== src/Plan/Ownership/Dependents.antt =====
-- The sorted list of dependents: searching, inserting and removing.
use depengine.Prelude.{
  String, ◌≡◌, refl, sym, ◌∙◌, true, false, Option, none, some, List, [], ◌∷◌, ◌==◌, string_eq,
  arith, text_lt, text_lt_irrefl, text_lt_trans, text_lt_total, if◌then◌else◌, ok, contains,
}
use depengine.Plan.Ownership.{
  claims, insert_dependent, remove_dependent, check_dependents, validate_dependent, above,
}

insert-cons :
    (y d : String) (ys : List String)
    → insert_dependent (y ∷ ys) d ≡ (if text_lt y d then y ∷ insert_dependent ys d else d ∷ y ∷ ys)
unfolding insert_dependent
insert-cons y d ys = ground arith

remove-cons :
    (y d : String) (ys : List String)
    → remove_dependent (y ∷ ys) d ≡ (if text_lt y d then y ∷ remove_dependent ys d else ys)
unfolding remove_dependent
remove-cons y d ys = ground arith

claims-cons :
    (y d : String) (ys : List String)
    → claims (y ∷ ys) d ≡ (if text_lt y d then claims ys d else y == d)
unfolding claims
claims-cons y d ys = ground arith

-- Nothing below the previous entry stands in a sorted list.
not_contains_below :
    (l d : String) (xs : List String)
    → check_dependents (some l) xs ≡ ok tt
    → text_lt l d ≡ false
    → contains xs d ≡ false
unfolding check_dependents
not_contains_below l d [] h below = refl
not_contains_below l d (y ∷ ys) h below =
    ground (arith, not_contains_below y d ys, text_lt_trans l y d)

-- On a sorted list the binary search decides membership.
pub claims-eq-contains :
    (last : Option String) (d : String) (xs : List String)
    → check_dependents last xs ≡ ok tt
    → claims xs d ≡ contains xs d
unfolding check_dependents
claims-eq-contains last d [] h = unfold claims in refl
claims-eq-contains last d (y ∷ ys) h =
    rw claims-cons (
      ground (arith, claims-eq-contains (some y) d ys, text_lt_irrefl d, not_contains_below y d ys))

module _ (d : String) (good : validate_dependent d ≡ ok tt) where
  -- Inserting an absent name keeps the list sorted, unique and well-formed.
  pub insert_dependent-sorted :
      (last : Option String) (xs : List String)
      → check_dependents last xs ≡ ok tt
      → claims xs d ≡ false
      → above last d ≡ true
      → check_dependents last (insert_dependent xs d) ≡ ok tt
  unfolding check_dependents validate_dependent
  insert_dependent-sorted last [] h absent low = unfold insert_dependent in ground arith
  insert_dependent-sorted last (y ∷ ys) h absent low =
      rw insert-cons
        (ground (arith, claims-cons y d ys, insert_dependent-sorted (some y) ys, text_lt_total y d))

-- Removing a name keeps the list sorted, unique and well-formed.
pub remove_dependent-sorted :
    (last : Option String) (d : String) (xs : List String)
    → check_dependents last xs ≡ ok tt
    → check_dependents last (remove_dependent xs d) ≡ ok tt
unfolding check_dependents
remove_dependent-sorted last d [] h = unfold remove_dependent in refl
remove_dependent-sorted last d (y ∷ []) h = rw remove-cons (unfold remove_dependent in ground arith)
remove_dependent-sorted none d (y ∷ z ∷ zs) h =
    rw remove-cons (ground (arith, remove_dependent-sorted (some y) d (z ∷ zs)))
remove_dependent-sorted (some l) d (y ∷ z ∷ zs) h =
    rw remove-cons
      (ground (arith, remove_dependent-sorted (some y) d (z ∷ zs), text_lt_trans l y z))

pub contains-insert_dependent :
    (e d : String) (xs : List String)
    → contains (insert_dependent xs d) e ≡ (if d == e then true else contains xs e)
contains-insert_dependent e d [] = unfold insert_dependent in refl
contains-insert_dependent e d (y ∷ ys) =
    rw insert-cons (ground (arith, contains-insert_dependent e d ys))

-- Once removed, a name stands nowhere in the list, and every other name stands where it stood.
pub contains-remove_dependent :
    (last : Option String) (e d : String) (xs : List String)
    → check_dependents last xs ≡ ok tt
    → claims xs d ≡ true
    → contains (remove_dependent xs d) e ≡ (if d == e then false else contains xs e)
unfolding check_dependents
contains-remove_dependent last e d [] h c = unfold claims in cc c
contains-remove_dependent last e d (y ∷ ys) h c = rw remove-cons (
    ground (
      arith,
      claims-cons y d ys,
      contains-remove_dependent (some y) e d ys,
      not_contains_below y d ys,
      text_lt_irrefl y,
    ))

-- Removing what was inserted restores the list.
pub remove-insert_dependent :
    (d : String) (xs : List String) → remove_dependent (insert_dependent xs d) d ≡ xs
remove-insert_dependent d [] =
    unfold insert_dependent remove_dependent in ground (arith, text_lt_irrefl d)
remove-insert_dependent d (y ∷ ys) = rw insert-cons (
    ground (
      arith,
      remove-cons y d (insert_dependent ys d),
      remove-cons d d (y ∷ ys),
      text_lt_irrefl d,
      remove-insert_dependent d ys,
    ))

pub claims-insert_dependent :
    (d : String) (xs : List String) → claims (insert_dependent xs d) d ≡ true
claims-insert_dependent d [] = unfold insert_dependent claims in ground (arith, text_lt_irrefl d)
claims-insert_dependent d (y ∷ ys) = rw insert-cons (
    ground (
      arith,
      claims-cons y d (insert_dependent ys d),
      claims-cons d d (y ∷ ys),
      text_lt_irrefl d,
      claims-insert_dependent d ys,
    ))

-- the list without a name
abbrev pub without : String → List String → List String
without d [] = []
without d (y ∷ ys) = let rest = without d ys in if y == d then rest else y ∷ rest

without_absent : (d : String) (xs : List String) → contains xs d ≡ false → without d xs ≡ xs
without_absent d [] h = refl
without_absent d (y ∷ ys) h = ground (arith, without_absent d ys)

-- On a sorted list, removing the entry that the search finds leaves the other names.
pub remove_dependent-eq-without :
    (last : Option String) (d : String) (xs : List String)
    → check_dependents last xs ≡ ok tt
    → claims xs d ≡ true
    → remove_dependent xs d ≡ without d xs
unfolding check_dependents
remove_dependent-eq-without last d [] h c = unfold claims in cc c
remove_dependent-eq-without last d (y ∷ ys) h c = rw remove-cons (
    ground (
      arith,
      claims-cons y d ys,
      remove_dependent-eq-without (some y) d ys,
      not_contains_below y d ys,
      without_absent d ys,
      text_lt_irrefl y,
    ))

-- A name that claims nothing leaves the list as it is.
pub without_unclaimed :
    (last : Option String) (d : String) (xs : List String)
    → check_dependents last xs ≡ ok tt
    → claims xs d ≡ false
    → without d xs ≡ xs
without_unclaimed last d xs h c = without_absent d xs (sym (claims-eq-contains last d xs h) ∙ c)
