-- ===== src/Plan/Verification/Reconciliation.antt =====
-- Reconcile returns results that VerificationResult.Validate accepts.
use depengine.Prelude.{
  String, ◌≡◌, refl, sym, ap, ◌∙◌, true, false, ◌&&◌, not, List, [], ◌∷◌, arith, ◌==◌, ◌!=◌,
  string_eq, String-discrete, Bool-cases, if◌then◌else◌, inl, inr, is_empty, contains, Result, ok,
  err, contains_nul,
}
use depengine.Plan.Reference.{ReferenceLibrary}
use depengine.Plan.Identity.{ResolvedIdentity, validate_identity}
use depengine.Plan.Observation.{
  VerificationState, PresenceState, IdentityField, identity_field_eq, identity_fields,
  ObservedIdentity, Observation, VerificationResult, desired_field, desired_identity_fields,
  normalized_fields, check_fields, validate_field_set,
}
use depengine.Plan.Verification.{
  reconcile_checked, validate_known_observed, unverifiable_of, or_else, reconcile_presence,
  reconcile,
}
use depengine.Plan.Verification.Validation.{
  check_disjoint, check_drift, check_listed_state, check_reported_state, validate_verification,
}
use depengine.Plan.Verification.Fields.{
  validate_field_set-ok, normalized_fields-ok, contains-normalized_fields,
  contains-desired_identity_fields, distinct-desired_identity_fields, desired_identity_fields-ok,
}
use depengine.Plan.Verification.Desired.{desired_field-ok}
use depengine.Plan.Verification.Parts.{
  compared_state_checked, compared_state_listed, valid_of_parts, check_fields-message,
  known-observed, observed-known, contains-unverifiable_of, distinct-unverifiable_of, Compared,
  check_disjoint-ok, check_drift-ok, observed-message, broken-IsValid,
}

module _ ⦃lib : ReferenceLibrary⦄ where
  module _ (desired : ResolvedIdentity) (known : List IdentityField) where
    unverifiable : List IdentityField
    unverifiable = unverifiable_of known (desired_identity_fields desired)

    unverifiable-contains :
        (f : IdentityField)
        → contains unverifiable f
          ≡ (contains identity_fields f && desired_field desired f != "" && not (contains known f))
    unfolding unverifiable
    unverifiable-contains f = ground (
      arith,
      contains-unverifiable_of known (desired_identity_fields desired) f,
      contains-desired_identity_fields desired f,
    )

    unverifiable-ok : validate_field_set unverifiable ≡ ok tt
    unfolding unverifiable
    unverifiable-ok =
        validate_field_set-ok unverifiable
          (distinct-unverifiable_of known (desired_identity_fields desired)
            (distinct-desired_identity_fields desired))
          (λ f c. ground (arith, unverifiable-contains f))

    unverifiable-disjoint : check_disjoint known unverifiable ≡ ok tt
    unverifiable-disjoint =
        check_disjoint-ok known unverifiable (λ f c. ground (arith, unverifiable-contains f))

    field-Compared :
        (r : VerificationResult) (f : IdentityField)
        → validate_identity desired ≡ ok tt
        → contains_nul desired.source ≡ false
        → contains_nul desired.registry ≡ false
        → r.known_fields ≡ known
        → r.unverifiable ≡ unverifiable
        → contains (desired_identity_fields desired) f ≡ true
        → Compared desired r f
    field-Compared r f h s g k u c =
        let named = contains-desired_identity_fields desired f in
        record {
          listed = ground (arith, named);
          apart = λ held.
              ap (λ fields. contains fields f) u
              ∙ unverifiable-contains f
              ∙ ground (arith, sym (ap (λ fields. contains fields f) k) ∙ held);
          value = desired_field-ok desired f h s g (ground (arith, named));
        }

  normalized-observed :
      (i : ObservedIdentity) (fields : List IdentityField)
      → validate_known_observed i fields ≡ ok tt
      → validate_known_observed i (normalized_fields fields) ≡ ok tt
  normalized-observed i fields k =
      observed-known i (normalized_fields fields)
        (λ f c. known-observed i fields f k (ground (arith, contains-normalized_fields fields f)))

  compared-IsValid :
      (desired : ResolvedIdentity) (o : Observation)
      → validate_identity desired ≡ ok tt
      → contains_nul desired.source ≡ false
      → contains_nul desired.registry ≡ false
      → validate_known_observed o.identity o.known_fields ≡ ok tt
      → validate_verification (reconcile_presence PresenceState.present desired o) ≡ ok tt
  unfolding reconcile_presence unverifiable
  compared-IsValid desired o h s g k =
      let known = normalized_fields o.known_fields in
      let fields = desired_identity_fields desired in
      let r = reconcile_presence PresenceState.present desired o in
      valid_of_parts r (compared_state_listed r.drift r.unverifiable)
        (normalized_fields-ok o.known_fields) (unverifiable-ok desired known)
        (normalized-observed o.identity o.known_fields k) (unverifiable-disjoint desired known)
        (check_drift-ok desired r [] fields (distinct-desired_identity_fields desired)
          (λ f c. (field-Compared desired known r f h s g refl refl c, refl)))
        (compared_state_checked r r.drift r.unverifiable refl refl)

  or_else_nonempty :
      (detail default : String) → (default == "") ≡ false → (or_else detail default == "") ≡ false
  unfolding or_else
  or_else_nonempty detail default h = elim (Bool-cases (detail == "")) [
    | inl empty ↦ rw empty h
    | inr given ↦ rw given given
  ]

  probe_message : (◌==◌ {A = String} "verification probe failed" "") ≡ false
  unfolding String-discrete
  probe_message = refl

  presence_message : (◌==◌ {A = String} "invalid presence state" "") ≡ false
  unfolding String-discrete
  presence_message = refl

  presence_unknown : (◌==◌ {A = String} "target presence could not be determined" "") ≡ false
  unfolding String-discrete
  presence_unknown = refl

  unknown-checked :
      (r : VerificationResult) (fields : List IdentityField) (detail : String)
      → r.drift ≡ []
      → r.unverifiable ≡ fields
      → r.detail ≡ (
          if is_empty fields
          then or_else detail "target presence could not be determined"
          else detail)
      → check_reported_state VerificationState.unknown r ≡ ok tt
  unfolding check_reported_state
  unknown-checked r [] detail d u t =
      let given =
        or_else_nonempty detail "target presence could not be determined" presence_unknown in
      rw (d, u, t, given) refl
  unknown-checked r (f ∷ fields) detail d u t = rw (d, u) refl

  presence-IsValid :
      (presence : PresenceState) (desired : ResolvedIdentity) (o : Observation)
      → validate_identity desired ≡ ok tt
      → contains_nul desired.source ≡ false
      → contains_nul desired.registry ≡ false
      → validate_known_observed o.identity o.known_fields ≡ ok tt
      → validate_verification (reconcile_presence presence desired o) ≡ ok tt
  unfolding reconcile_presence check_listed_state validate_field_set check_fields
      validate_known_observed check_drift check_reported_state
  presence-IsValid PresenceState.present desired o h s g k = compared-IsValid desired o h s g k
  presence-IsValid PresenceState.absent desired o h s g k =
      valid_of_parts (reconcile_presence PresenceState.absent desired o) refl refl refl refl
        (check_disjoint-ok [] [] (λ f c. refl)) refl refl
  presence-IsValid PresenceState.unknown desired o h s g k =
      let fields = desired_identity_fields desired in
      valid_of_parts (reconcile_presence PresenceState.unknown desired o) refl refl
        (desired_identity_fields-ok desired) refl (check_disjoint-ok [] fields (λ f c. refl)) refl
        (unknown-checked (reconcile_presence PresenceState.unknown desired o) fields o.detail refl
          refl refl)
  presence-IsValid PresenceState.broken desired o h s g k =
      broken-IsValid o.identity (or_else o.detail "verification probe failed")
        (or_else_nonempty o.detail "verification probe failed" probe_message)
  presence-IsValid (PresenceState.unlisted t) desired o h s g k =
      broken-IsValid o.identity "invalid presence state" presence_message

  checked-IsValid :
      (first second third : Result (Unit {0})) (desired : ResolvedIdentity) (o : Observation)
      → validate_identity desired ≡ first
      → validate_field_set o.known_fields ≡ second
      → validate_known_observed o.identity o.known_fields ≡ third
      → contains_nul desired.source ≡ false
      → contains_nul desired.registry ≡ false
      → validate_verification (reconcile_checked first second third desired o) ≡ ok tt
  unfolding reconcile_checked validate_field_set String-discrete
  checked-IsValid (err m) second third desired o a b c s g =
      broken-IsValid o.identity "invalid desired identity" refl
  checked-IsValid (ok v) (err m) third desired o a b c s g =
      broken-IsValid o.identity m (check_fields-message [] o.known_fields m b)
  checked-IsValid (ok v) (ok w) (err m) desired o a b c s g =
      broken-IsValid o.identity m (observed-message o.identity o.known_fields m c)
  checked-IsValid (ok v) (ok w) (ok x) desired o a b c s g =
      presence-IsValid o.presence desired o a s g c

  -- Where no desired reference contains NUL, Reconcile returns a result that Validate accepts,
  -- whatever the observation is.
  pub reconcile-IsValid :
      (desired : ResolvedIdentity) (o : Observation)
      → contains_nul desired.source ≡ false
      → contains_nul desired.registry ≡ false
      → validate_verification (reconcile desired o) ≡ ok tt
  unfolding reconcile
  reconcile-IsValid desired o s g =
      checked-IsValid (validate_identity desired) (validate_field_set o.known_fields)
        (validate_known_observed o.identity o.known_fields) desired o refl refl refl s g
