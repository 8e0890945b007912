-- ===== src/Plan/Verification/Satisfied.antt =====
-- When Reconcile reports that the desired state is satisfied.
use depengine.Prelude.{
  ==_refl, eq_of_==, ◌≡◌, ◌↔◌, refl, sym, ap, ◌∙◌, Bool, true, false, ◌&&◌, List, [], ◌∷◌, arith,
  ◌==◌, string_eq, Bool-cases, inl, inr, is_empty, contains, Result, ok, err,
}
use depengine.Plan.Reference.{ReferenceLibrary}
use depengine.Plan.Identity.{ResolvedIdentity, validate_identity}
use depengine.Plan.Observation.{
  VerificationState, PresenceState, IdentityField, identity_field_eq, identity_fields,
  ObservedIdentity, Observation, IdentityDrift, desired_field, observed_field,
  desired_identity_fields, normalized_fields, validate_field_set,
}
use depengine.Plan.Verification.{
  comparable, validate_known_observed, drift_of, unverifiable_of, broken_result, compared_state,
  reconcile_presence, reconcile_checked, reconcile,
}
use depengine.Plan.Verification.Fields.{
  contains-normalized_fields, contains-desired_identity_fields,
}

module _ ⦃lib : ReferenceLibrary⦄ where
  -- the field is known, and has the desired value up to its canonical form
  abbrev pub agrees :
      ResolvedIdentity → ObservedIdentity → List IdentityField → IdentityField → Bool
  agrees desired observed known f =
      contains known f
      && comparable f (desired_field desired f) == comparable f (observed_field observed f)

  abbrev all_agree :
      ResolvedIdentity → ObservedIdentity → List IdentityField → List IdentityField → Bool
  all_agree desired observed known [] = true
  all_agree desired observed known (f ∷ fields) =
      agrees desired observed known f && all_agree desired observed known fields

  clean_agree :
      (desired : ResolvedIdentity) (observed : ObservedIdentity) (known fields : List IdentityField)
      → (is_empty (drift_of desired observed known fields)
          && is_empty (unverifiable_of known fields))
        ≡ all_agree desired observed known fields
  unfolding drift_of unverifiable_of
  clean_agree desired observed known [] = refl
  clean_agree desired observed known (f ∷ fields) =
      ground (arith, clean_agree desired observed known fields)

  compared_satisfied :
      (drift : List IdentityDrift) (fields : List IdentityField)
      → (compared_state drift fields ≡ VerificationState.satisfied)
        ↔ ((is_empty drift && is_empty fields) ≡ true)
  unfolding compared_state
  compared_satisfied [] [] = (λ e. refl, λ e. refl)
  compared_satisfied [] (f ∷ fields) = (λ e. absurd (cc e), λ e. absurd (cc e))
  compared_satisfied (d ∷ drift) fields = (λ e. absurd (cc e), λ e. absurd (cc e))

  all_agree-at :
      (desired : ResolvedIdentity) (observed : ObservedIdentity) (known fields : List IdentityField)
      → all_agree desired observed known fields ≡ true
      → (f : IdentityField) → contains fields f ≡ true
      → agrees desired observed known f ≡ true
  all_agree-at desired observed known [] h f c = absurd (cc c)
  all_agree-at desired observed known (x ∷ fields) h f c = elim (Bool-cases (x == f)) [
    | inl same ↦
        let equal : x ≡ f = eq_of_== x f same in
        sym (ap (agrees desired observed known) equal) ∙ ground arith
    | inr other ↦
        all_agree-at desired observed known fields (ground arith) f (ground (arith, other))
  ]

  all_agree_of :
      (desired : ResolvedIdentity) (observed : ObservedIdentity) (known fields : List IdentityField)
      → ((f : IdentityField) → contains fields f ≡ true → agrees desired observed known f ≡ true)
      → all_agree desired observed known fields ≡ true
  all_agree_of desired observed known [] h = refl
  all_agree_of desired observed known (x ∷ fields) h =
      let rest = all_agree_of desired observed known fields (λ f c. h f (ground (arith, c))) in
      ground (arith, h x (ground (arith, ==_refl x)), rest)

  -- a target that is present, known in every desired field and equal to the desired identity there
  pub record Matches (desired : ResolvedIdentity) (o : Observation) : Type 0 where
    pub present : o.presence ≡ PresenceState.present
    pub valid : validate_identity desired ≡ ok tt
    pub field_set : validate_field_set o.known_fields ≡ ok tt
    pub observed : validate_known_observed o.identity o.known_fields ≡ ok tt
    pub agreeing :
        (f : IdentityField)
        → contains identity_fields f ≡ true
        → (desired_field desired f == "") ≡ false
        → agrees desired o.identity o.known_fields f ≡ true

  normalized_agrees :
      (desired : ResolvedIdentity) (o : Observation) (f : IdentityField)
      → contains identity_fields f ≡ true
      → agrees desired o.identity (normalized_fields o.known_fields) f
        ≡ agrees desired o.identity o.known_fields f
  normalized_agrees desired o f c = ground (arith, contains-normalized_fields o.known_fields f, c)

  satisfied-agreeing :
      (desired : ResolvedIdentity) (o : Observation)
      → (reconcile_presence PresenceState.present desired o).state ≡ VerificationState.satisfied
      → (f : IdentityField) → contains identity_fields f ≡ true
      → (desired_field desired f == "") ≡ false
      → agrees desired o.identity o.known_fields f ≡ true
  unfolding reconcile_presence
  satisfied-agreeing desired o e f c n =
      let known = normalized_fields o.known_fields in
      let fields = desired_identity_fields desired in
      let clean =
        (compared_satisfied (drift_of desired o.identity known fields)
            (unverifiable_of known fields)).0
          e in
      let all = sym (clean_agree desired o.identity known fields) ∙ clean in
      let there : contains fields f ≡ true =
        ground (arith, contains-desired_identity_fields desired f, c, n) in
      sym (normalized_agrees desired o f c)
      ∙ all_agree-at desired o.identity known fields all f there

  presence-satisfied :
      (presence : PresenceState) (desired : ResolvedIdentity) (o : Observation)
      → (reconcile_presence presence desired o).state ≡ VerificationState.satisfied
      → (presence ≡ PresenceState.present)
        × ((reconcile_presence PresenceState.present desired o).state ≡ VerificationState.satisfied)
  unfolding reconcile_presence broken_result
  presence-satisfied PresenceState.present desired o e = (refl, e)
  presence-satisfied PresenceState.absent desired o e = absurd (cc e)
  presence-satisfied PresenceState.unknown desired o e = absurd (cc e)
  presence-satisfied PresenceState.broken desired o e = absurd (cc e)
  presence-satisfied (PresenceState.unlisted t) desired o e = absurd (cc e)

  checked-Matches :
      (first second third : Result (Unit {0})) (desired : ResolvedIdentity) (o : Observation)
      → validate_identity desired ≡ first
      → validate_field_set o.known_fields ≡ second
      → validate_known_observed o.identity o.known_fields ≡ third
      → (reconcile_checked first second third desired o).state ≡ VerificationState.satisfied
      → Matches desired o
  unfolding reconcile_checked broken_result
  checked-Matches (err m) second third desired o a b c e = absurd (cc e)
  checked-Matches (ok v) (err m) third desired o a b c e = absurd (cc e)
  checked-Matches (ok v) (ok w) (err m) desired o a b c e = absurd (cc e)
  checked-Matches (ok v) (ok w) (ok x) desired o a b c e =
      let (here, clean) = presence-satisfied o.presence desired o e in
      record {
        present = here;
        valid = a;
        field_set = b;
        observed = c;
        agreeing = satisfied-agreeing desired o clean;
      }

  Matches-satisfied :
      (desired : ResolvedIdentity) (o : Observation)
      → Matches desired o
      → (reconcile desired o).state ≡ VerificationState.satisfied
  unfolding reconcile reconcile_checked reconcile_presence
  Matches-satisfied desired o m =
      let known = normalized_fields o.known_fields in
      let fields = desired_identity_fields desired in
      let all = all_agree_of desired o.identity known fields (λ f c.
        let named = contains-desired_identity_fields desired f in
        let listed : contains identity_fields f ≡ true = ground (arith, named, c) in
        normalized_agrees desired o f listed ∙ m.agreeing f listed (ground (arith, named, c))) in
      let clean = clean_agree desired o.identity known fields ∙ all in
      rw (m.valid, m.field_set, m.observed, m.present)
        ((compared_satisfied (drift_of desired o.identity known fields)
            (unverifiable_of known fields)).1
          clean)

  -- Reconcile reports satisfied exactly where the checks pass, the target is present, and every
  -- desired field is known and equal up to its canonical form.
  pub reconcile-satisfied_iff :
      (desired : ResolvedIdentity) (o : Observation)
      → ((reconcile desired o).state ≡ VerificationState.satisfied) ↔ Matches desired o
  unfolding reconcile
  reconcile-satisfied_iff desired o = (
    checked-Matches (validate_identity desired) (validate_field_set o.known_fields)
        (validate_known_observed o.identity o.known_fields) desired o refl refl refl,
    Matches-satisfied desired o,
  )
