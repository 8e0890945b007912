-- ===== src/Plan/Verification/Fields.antt =====
-- The sets of identity fields that a reconciliation builds.
use depengine.Prelude.{
  ==_refl, eq_of_==, distinct, ◌≡◌, refl, ap, true, false, ◌&&◌, List, [], ◌∷◌, arith, ◌==◌, ◌!=◌,
  string_eq, Bool-cases, contains, ok, inl, inr,
}
use depengine.Plan.Identity.{ResolvedIdentity}
use depengine.Plan.Observation.{
  IdentityField, IdentityField-discrete, identity_field_eq, identity_fields, desired_field,
  desired_identity_fields, normalized_fields, named_fields, select_fields, check_fields,
  validate_field_set,
}

pub identity_fields-distinct : distinct identity_fields ≡ true
unfolding IdentityField-discrete
identity_fields-distinct = refl

check_fields-ok :
    (seen fields : List IdentityField)
    → distinct fields ≡ true
    → ((f : IdentityField)
        → contains fields f ≡ true
        → (contains identity_fields f ≡ true) × (contains seen f ≡ false))
    → check_fields seen fields ≡ ok tt
unfolding check_fields
check_fields-ok seen [] d h = refl
check_fields-ok seen (field ∷ fields) d h =
    let here = h field (ground (arith, ==_refl field)) in
    let rest = check_fields-ok (field ∷ seen) fields (ground arith) (λ f c.
      elim (Bool-cases (field == f)) [
        | inl same ↦
            let equal : field ≡ f = eq_of_== field f same in
            absurd (ground (arith, c, ap (contains fields) equal))
        | inr other ↦ ground (arith, h f, c, other)
      ]) in
    ground (arith, here, rest)

-- Distinct identity fields are a field set.
pub validate_field_set-ok :
    (fields : List IdentityField)
    → distinct fields ≡ true
    → ((f : IdentityField) → contains fields f ≡ true → contains identity_fields f ≡ true)
    → validate_field_set fields ≡ ok tt
unfolding validate_field_set
validate_field_set-ok fields d h = check_fields-ok [] fields d (λ f c. (h f c, refl))

pub contains-select_fields :
    (fields canon : List IdentityField) (f : IdentityField)
    → contains (select_fields fields canon) f ≡ (contains canon f && contains fields f)
unfolding select_fields
contains-select_fields fields [] f = refl
contains-select_fields fields (c ∷ canon) f = elim (Bool-cases (c == f)) [
  | inl same ↦
      let equal : c ≡ f = eq_of_== c f same in
      ground (arith, contains-select_fields fields canon f, ap (contains fields) equal)
  | inr other ↦ ground (arith, contains-select_fields fields canon f)
]

distinct-select_fields :
    (fields canon : List IdentityField)
    → distinct canon ≡ true
    → distinct (select_fields fields canon) ≡ true
unfolding select_fields
distinct-select_fields fields [] d = refl
distinct-select_fields fields (c ∷ canon) d =
    ground (arith, distinct-select_fields fields canon, contains-select_fields fields canon c)

pub contains-named_fields :
    (i : ResolvedIdentity) (fields : List IdentityField) (f : IdentityField)
    → contains (named_fields i fields) f ≡ (contains fields f && desired_field i f != "")
unfolding named_fields
contains-named_fields i [] f = refl
contains-named_fields i (c ∷ fields) f = elim (Bool-cases (c == f)) [
  | inl same ↦
      let equal : c ≡ f = eq_of_== c f same in
      ground (arith, contains-named_fields i fields f, ap (desired_field i) equal)
  | inr other ↦ ground (arith, contains-named_fields i fields f)
]

distinct-named_fields :
    (i : ResolvedIdentity) (fields : List IdentityField)
    → distinct fields ≡ true
    → distinct (named_fields i fields) ≡ true
unfolding named_fields
distinct-named_fields i [] d = refl
distinct-named_fields i (c ∷ fields) d =
    ground (arith, distinct-named_fields i fields, contains-named_fields i fields c)

pub contains-normalized_fields :
    (fields : List IdentityField) (f : IdentityField)
    → contains (normalized_fields fields) f ≡ (contains identity_fields f && contains fields f)
unfolding normalized_fields
contains-normalized_fields fields f = contains-select_fields fields identity_fields f

pub normalized_fields-ok :
    (fields : List IdentityField) → validate_field_set (normalized_fields fields) ≡ ok tt
unfolding normalized_fields
normalized_fields-ok fields =
    validate_field_set-ok (normalized_fields fields)
      (distinct-select_fields fields identity_fields identity_fields-distinct)
      (λ f c. ground (arith, contains-normalized_fields fields f))

pub contains-desired_identity_fields :
    (i : ResolvedIdentity) (f : IdentityField)
    → contains (desired_identity_fields i) f
      ≡ (contains identity_fields f && desired_field i f != "")
unfolding desired_identity_fields
contains-desired_identity_fields i f = contains-named_fields i identity_fields f

pub distinct-desired_identity_fields :
    (i : ResolvedIdentity) → distinct (desired_identity_fields i) ≡ true
unfolding desired_identity_fields
distinct-desired_identity_fields i =
    distinct-named_fields i identity_fields identity_fields-distinct

pub desired_identity_fields-ok :
    (i : ResolvedIdentity) → validate_field_set (desired_identity_fields i) ≡ ok tt
desired_identity_fields-ok i =
    validate_field_set-ok (desired_identity_fields i) (distinct-desired_identity_fields i)
      (λ f c. ground (arith, contains-desired_identity_fields i f))
