-- ===== src/Plan/Verification/Parts.antt =====
-- The parts of VerificationResult.Validate on what Reconcile builds.
use depengine.Prelude.{
  Result-cases, ==_refl, eq_of_==, distinct, String, ◌≡◌, refl, sym, ap, true, false, ◌&&◌, not,
  Option, none, some, List, [], ◌∷◌, arith, ◌==◌, ◌!=◌, string_eq, String-discrete, Bool-cases, inl,
  inr, contains, Result, ok, err,
}
use depengine.Plan.Reference.{ReferenceLibrary}
use depengine.Plan.Environment.{EnvironmentTarget}
use depengine.Plan.Identity.{ResolvedIdentity, unless_empty}
use depengine.Plan.Observation.{
  IdentityField, identity_field_eq, identity_fields, ObservedIdentity, IdentityDrift,
  VerificationResult, desired_field, observed_field, check_fields, validate_field_set,
}
use depengine.Plan.Verification.{
  comparable, check_observed, check_known_environment, check_trimmed, validate_known_observed, wrap,
  drift_of, unverifiable_of, broken_result, compared_state,
}
use depengine.Plan.Verification.Validation.{
  validate_drift_value, check_disjoint, check_drift, check_listed_state, check_reported_state,
  validate_verification,
}

pub check_fields-message :
    (seen fields : List IdentityField) (m : String)
    → check_fields seen fields ≡ err m
    → (m == "") ≡ false
unfolding check_fields String-discrete
check_fields-message seen [] m e = cc e
check_fields-message seen (f ∷ fields) m e = elim (Bool-cases (contains identity_fields f)) [
  | inl listed ↦ elim (Bool-cases (contains seen f)) [
    | inl twice ↦
        let message : "duplicate identity field" ≡ m = ground (arith, listed, twice) in
        rw (sym message) refl
    | inr once ↦ check_fields-message (f ∷ seen) fields m (ground (arith, listed, once))
  ]
  | inr other ↦
      let message : "invalid identity field" ≡ m = ground (arith, other) in rw (sym message) refl
]

wrap-message :
    (context : String) (r : Result (Unit {0})) (m : String)
    → (context == "") ≡ false
    → wrap context r ≡ err m
    → (m == "") ≡ false
wrap-message context (err n) m c e = let same : context ≡ m = ground arith in rw (sym same) c
wrap-message context (ok value) m c e = absurd (cc e)

unless_empty-err :
    (value : String) (check : Result (Unit {0})) (m : String)
    → unless_empty value check ≡ err m
    → check ≡ err m
unless_empty-err value check m e = elim (Bool-cases (value == "")) [
  | inl empty ↦ absurd (ground (arith, empty))
  | inr named ↦ ground (arith, named)
]

check_trimmed-message : (value m : String) → check_trimmed value ≡ err m → (m == "") ≡ false
unfolding check_trimmed String-discrete
check_trimmed-message value m e =
    let message : "observed field must not contain surrounding whitespace or NUL" ≡ m =
      ground arith in
    rw (sym message) refl

environment-message :
    (o : Option EnvironmentTarget) (m : String)
    → check_known_environment o ≡ err m
    → (m == "") ≡ false
unfolding String-discrete
environment-message none m e = absurd (cc e)
environment-message (some e) m h = wrap-message "observed environment" _ m refl h

module _ ⦃lib : ReferenceLibrary⦄ where
  pub known-observed :
      (i : ObservedIdentity) (fields : List IdentityField) (f : IdentityField)
      → validate_known_observed i fields ≡ ok tt
      → contains fields f ≡ true
      → check_observed i f ≡ ok tt
  unfolding validate_known_observed
  known-observed i [] f h c = absurd (cc c)
  known-observed i (field ∷ fields) f h c = elim (Bool-cases (field == f)) [
    | inl same ↦ let equal : field ≡ f = eq_of_== field f same in rw (sym equal) (ground arith)
    | inr other ↦ known-observed i fields f (ground arith) (ground (arith, other))
  ]

  pub observed-known :
      (i : ObservedIdentity) (fields : List IdentityField)
      → ((f : IdentityField) → contains fields f ≡ true → check_observed i f ≡ ok tt)
      → validate_known_observed i fields ≡ ok tt
  unfolding validate_known_observed
  observed-known i [] h = refl
  observed-known i (field ∷ fields) h =
      let rest = observed-known i fields (λ f c. h f (ground (arith, c))) in
      ground (arith, h field (ground (arith, ==_refl field)), rest)

  pub contains-unverifiable_of :
      (known fields : List IdentityField) (f : IdentityField)
      → contains (unverifiable_of known fields) f ≡ (contains fields f && not (contains known f))
  unfolding unverifiable_of
  contains-unverifiable_of known [] f = refl
  contains-unverifiable_of known (field ∷ fields) f = elim (Bool-cases (field == f)) [
    | inl same ↦
        let equal : field ≡ f = eq_of_== field f same in
        ground (arith, contains-unverifiable_of known fields f, ap (contains known) equal)
    | inr other ↦ ground (arith, contains-unverifiable_of known fields f)
  ]

  pub distinct-unverifiable_of :
      (known fields : List IdentityField)
      → distinct fields ≡ true
      → distinct (unverifiable_of known fields) ≡ true
  unfolding unverifiable_of
  distinct-unverifiable_of known [] d = refl
  distinct-unverifiable_of known (field ∷ fields) d =
      ground
        (arith, distinct-unverifiable_of known fields, contains-unverifiable_of known fields field)

  pub check_disjoint-ok :
      (known fields : List IdentityField)
      → ((f : IdentityField) → contains fields f ≡ true → contains known f ≡ false)
      → check_disjoint known fields ≡ ok tt
  unfolding check_disjoint
  check_disjoint-ok known [] h = refl
  check_disjoint-ok known (field ∷ fields) h =
      let rest = check_disjoint-ok known fields (λ f c. h f (ground (arith, c))) in
      ground (arith, h field (ground (arith, ==_refl field)), rest)

  -- what the check of the drift needs of a field of the desired identity
  pub record Compared (desired : ResolvedIdentity) (r : VerificationResult) (f : IdentityField)
      : Type 0 where
    pub listed : contains identity_fields f ≡ true
    pub apart : contains r.known_fields f ≡ true → contains r.unverifiable f ≡ false
    pub value : validate_drift_value f (desired_field desired f) ≡ ok tt

  pub check_drift-ok :
      (desired : ResolvedIdentity) (r : VerificationResult) (seen fields : List IdentityField)
      → distinct fields ≡ true
      → ((f : IdentityField)
          → contains fields f ≡ true
          → Compared desired r f × (contains seen f ≡ false))
      → check_drift r seen (drift_of desired r.observed r.known_fields fields) ≡ ok tt
  unfolding check_drift drift_of
  check_drift-ok desired r seen [] d h = refl
  check_drift-ok desired r seen (field ∷ fields) d h =
      let (here, fresh) = h field (ground (arith, ==_refl field)) in
      let later =
        check_drift-ok desired r seen fields (ground arith) (λ f c. h f (ground (arith, c))) in
      let after = check_drift-ok desired r (field ∷ seen) fields (ground arith) (λ f c.
        let (it, unseen) = h f (ground (arith, c)) in
        (
          it,
          elim (Bool-cases (field == f)) [
            | inl same ↦
                let equal : field ≡ f = eq_of_== field f same in
                absurd (ground (arith, c, ap (contains fields) equal))
            | inr other ↦ ground (arith, unseen, other)
          ],
        )) in
      elim (Bool-cases (contains r.known_fields field)) [
        | inr missing ↦ rw missing later
        | inl held ↦
            elim (Bool-cases (
              comparable field (desired_field desired field)
              != comparable field (observed_field r.observed field))) [
                | inr same ↦ rw (held, same) later
                | inl differ ↦
                    let it = here.apart held in
                    rw (held, differ)
                      (ground (arith, here.listed, fresh, held, it, here.value, differ, after))
              ]
      ]

  check_observed-message :
      (i : ObservedIdentity) (f : IdentityField) (m : String)
      → check_observed i f ≡ err m
      → (m == "") ≡ false
  unfolding check_observed String-discrete
  check_observed-message i IdentityField.package_name m e = check_trimmed-message i.package_name m e
  check_observed-message i IdentityField.version m e = check_trimmed-message i.version m e
  check_observed-message i IdentityField.revision m e = check_trimmed-message i.revision m e
  check_observed-message i IdentityField.architecture m e = check_trimmed-message i.architecture m e
  check_observed-message i IdentityField.platform m e = check_trimmed-message i.platform m e
  check_observed-message i IdentityField.digest m e =
      wrap-message "observed digest" _ m refl (unless_empty-err i.digest _ m e)
  check_observed-message i IdentityField.source m e =
      wrap-message "observed source" _ m refl (unless_empty-err i.source _ m e)
  check_observed-message i IdentityField.registry m e =
      wrap-message "observed registry" _ m refl (unless_empty-err i.registry _ m e)
  check_observed-message i IdentityField.scope m e =
      wrap-message "observed scope" _ m refl (unless_empty-err i.scope _ m e)
  check_observed-message i IdentityField.environment m e = environment-message i.environment m e
  check_observed-message i (IdentityField.unlisted s) m e = absurd (cc e)

  pub observed-message :
      (i : ObservedIdentity) (fields : List IdentityField) (m : String)
      → validate_known_observed i fields ≡ err m
      → (m == "") ≡ false
  unfolding validate_known_observed
  observed-message i [] m e = absurd (cc e)
  observed-message i (f ∷ fields) m e = elim (Result-cases (check_observed i f)) [
    | inl (unit, good) ↦ observed-message i fields m (ground (arith, good))
    | inr (n, bad) ↦ check_observed-message i f m (ground (arith, bad))
  ]

  pub broken-IsValid :
      (observed : ObservedIdentity) (detail : String)
      → (detail == "") ≡ false
      → validate_verification (broken_result observed detail) ≡ ok tt
  unfolding validate_verification broken_result check_listed_state validate_field_set check_fields
      validate_known_observed check_disjoint check_drift check_reported_state
  broken-IsValid observed detail n = ground (arith, n)

  pub valid_of_parts :
      (r : VerificationResult)
      → check_listed_state r.state ≡ ok tt
      → validate_field_set r.known_fields ≡ ok tt
      → validate_field_set r.unverifiable ≡ ok tt
      → validate_known_observed r.observed r.known_fields ≡ ok tt
      → check_disjoint r.known_fields r.unverifiable ≡ ok tt
      → check_drift r [] r.drift ≡ ok tt
      → check_reported_state r.state r ≡ ok tt
      → validate_verification r ≡ ok tt
  unfolding validate_verification
  valid_of_parts r a b c d e f g = rw (a, b, c, d, e, f, g) refl

  pub compared_state_listed :
      (drift : List IdentityDrift) (fields : List IdentityField)
      → check_listed_state (compared_state drift fields) ≡ ok tt
  unfolding check_listed_state compared_state
  compared_state_listed [] [] = refl
  compared_state_listed [] (f ∷ fields) = refl
  compared_state_listed (d ∷ drift) fields = refl

  pub compared_state_checked :
      (r : VerificationResult) (drift : List IdentityDrift) (fields : List IdentityField)
      → r.drift ≡ drift
      → r.unverifiable ≡ fields
      → check_reported_state (compared_state drift fields) r ≡ ok tt
  unfolding check_reported_state compared_state
  compared_state_checked r [] [] d u = rw (d, u) refl
  compared_state_checked r [] (f ∷ fields) d u = rw (d, u) refl
  compared_state_checked r (e ∷ drift) fields d u = rw d refl
