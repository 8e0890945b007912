-- ===== src/Plan/Recovery/Transition.antt =====
-- The transition that a tool needs, behind Reconcile.
use depengine.Prelude.{
  succeeds, ◌≡◌, ◌↔◌, List, [], ◌∷◌, refl, true, false, ◌||◌, string_eq, contains_nul, ok,
}
use depengine.Plan.Reference.{ReferenceLibrary}
use depengine.Plan.Identity.{validate_identity, ResolvedIdentity}
use depengine.Plan.Observation.{
  IdentityField, IdentityDrift, PresenceState, validate_field_set, VerificationState, Observation,
}
use depengine.Plan.Verification.{
  broken_result, reconcile_presence, compared_state, reconcile_checked, validate_known_observed,
  reconcile,
}
use depengine.Plan.Verification.Reconciliation.{reconcile-IsValid}
use depengine.Plan.Verification.Satisfied.{Matches, reconcile-satisfied_iff}
use depengine.Plan.Recovery.{
  err, Result, List, ReconciliationDecision, TransitionKind, no_transition, is_satisfied, is_absent,
  is_drifted, transition_of, transition_for_verification,
}

both_false {ℓ κ} : {A : Type ℓ} {B : Type κ} → ¬ A → ¬ B → A ↔ B
both_false f g = (λ a. absurd (f a), λ b. absurd (g b))

-- the transition that a lifecycle needs, and the observed state that calls for it
abbrev pub required_transition : TransitionKind → VerificationState → ReconciliationDecision
required_transition kind state = record { required = true; transition = kind; state = state }

-- TransitionForVerification behind its check, against the state that it switches on
transition_of_iff :
    (state : VerificationState)
    → ((transition_of state ≡ ok no_transition) ↔ (state ≡ VerificationState.satisfied))
      × ((transition_of state
            ≡ ok (required_transition TransitionKind.install VerificationState.absent))
          ↔ (state ≡ VerificationState.absent))
      × ((transition_of state
            ≡ ok (required_transition TransitionKind.upgrade VerificationState.drifted))
          ↔ (state ≡ VerificationState.drifted))
      × (succeeds (transition_of state)
          ≡ (is_satisfied state || (is_absent state || is_drifted state)))
unfolding transition_of
transition_of_iff VerificationState.satisfied = (
  (λ e. refl, λ e. refl),
  both_false (λ e. cc e) (λ e. cc e),
  both_false (λ e. cc e) (λ e. cc e),
  refl,
)
transition_of_iff VerificationState.absent = (
  both_false (λ e. cc e) (λ e. cc e),
  (λ e. refl, λ e. refl),
  both_false (λ e. cc e) (λ e. cc e),
  refl,
)
transition_of_iff VerificationState.drifted = (
  both_false (λ e. cc e) (λ e. cc e),
  both_false (λ e. cc e) (λ e. cc e),
  (λ e. refl, λ e. refl),
  refl,
)
transition_of_iff VerificationState.unknown = (
  both_false (λ e. cc e) (λ e. cc e),
  both_false (λ e. cc e) (λ e. cc e),
  both_false (λ e. cc e) (λ e. cc e),
  refl,
)
transition_of_iff VerificationState.broken = (
  both_false (λ e. cc e) (λ e. cc e),
  both_false (λ e. cc e) (λ e. cc e),
  both_false (λ e. cc e) (λ e. cc e),
  refl,
)
transition_of_iff (VerificationState.unlisted s) = (
  both_false (λ e. cc e) (λ e. cc e),
  both_false (λ e. cc e) (λ e. cc e),
  both_false (λ e. cc e) (λ e. cc e),
  refl,
)

module _ ⦃lib : ReferenceLibrary⦄ where
  compared_not_absent :
      (drift : List IdentityDrift) (fields : List IdentityField)
      → ¬ (compared_state drift fields ≡ VerificationState.absent)
  unfolding compared_state
  compared_not_absent [] [] e = cc e
  compared_not_absent [] (f ∷ fields) e = cc e
  compared_not_absent (d ∷ drift) fields e = cc e

  presence-absent_iff :
      (presence : PresenceState) (desired : ResolvedIdentity) (o : Observation)
      → ((reconcile_presence presence desired o).state ≡ VerificationState.absent)
        ↔ (presence ≡ PresenceState.absent)
  unfolding reconcile_presence broken_result
  presence-absent_iff PresenceState.absent desired o = (λ e. refl, λ e. refl)
  presence-absent_iff PresenceState.unknown desired o = both_false (λ e. cc e) (λ e. cc e)
  presence-absent_iff PresenceState.broken desired o = both_false (λ e. cc e) (λ e. cc e)
  presence-absent_iff (PresenceState.unlisted s) desired o = both_false (λ e. cc e) (λ e. cc e)
  presence-absent_iff PresenceState.present desired o =
      both_false (compared_not_absent _ _) (λ e. cc e)

  checked-absent_iff :
      (a b c : Result (Unit {0})) (desired : ResolvedIdentity) (o : Observation)
      → ((reconcile_checked a b c desired o).state ≡ VerificationState.absent)
        ↔ ((a ≡ ok tt) × (b ≡ ok tt) × (c ≡ ok tt) × (o.presence ≡ PresenceState.absent))
  unfolding reconcile_checked broken_result
  checked-absent_iff (err m) b c desired o = both_false (λ e. cc e) (λ (p, q, r, gone). cc p)
  checked-absent_iff (ok u) (err m) c desired o = both_false (λ e. cc e) (λ (p, q, r, gone). cc q)
  checked-absent_iff (ok u) (ok v) (err m) desired o =
      both_false (λ e. cc e) (λ (p, q, r, gone). cc r)
  checked-absent_iff (ok u) (ok v) (ok w) desired o =
      let iff = presence-absent_iff o.presence desired o in
      (λ e. (refl, refl, refl, iff.0 e), λ (p, q, r, gone). iff.1 gone)

  -- the target is absent: the observation says so, and passes the checks before it is compared
  abbrev pub IsAbsent : ResolvedIdentity → Observation → Type 0
  IsAbsent desired o =
      (validate_identity desired ≡ ok tt)
      × (validate_field_set o.known_fields ≡ ok tt)
      × (validate_known_observed o.identity o.known_fields ≡ ok tt)
      × (o.presence ≡ PresenceState.absent)

  reconcile-absent_iff :
      (desired : ResolvedIdentity) (o : Observation)
      → ((reconcile desired o).state ≡ VerificationState.absent) ↔ IsAbsent desired o
  unfolding reconcile
  reconcile-absent_iff desired o =
      checked-absent_iff (validate_identity desired) (validate_field_set o.known_fields)
        (validate_known_observed o.identity o.known_fields) desired o

  -- Behind Reconcile, for a desired identity whose references contain no NUL, a lifecycle needs no
  -- transition exactly where the observation matches the desired identity; it must install exactly
  -- where the identity, the known fields and the known values are valid and the observed presence is
  -- absent, and upgrade exactly where the reconciled state is drifted; outside the satisfied, absent
  -- and drifted states an error is returned.
  pub transition_for_verification-reconcile :
      (desired : ResolvedIdentity) (o : Observation)
      → contains_nul desired.source ≡ false
      → contains_nul desired.registry ≡ false
      → ((transition_for_verification (reconcile desired o) ≡ ok no_transition) ↔ Matches desired o)
        × ((transition_for_verification (reconcile desired o)
              ≡ ok (required_transition TransitionKind.install VerificationState.absent))
            ↔ IsAbsent desired o)
        × ((transition_for_verification (reconcile desired o)
              ≡ ok (required_transition TransitionKind.upgrade VerificationState.drifted))
            ↔ ((reconcile desired o).state ≡ VerificationState.drifted))
        × (succeeds (transition_for_verification (reconcile desired o)) ≡ (
            is_satisfied (reconcile desired o).state
            || (is_absent (reconcile desired o).state || is_drifted (reconcile desired o).state)))
  unfolding transition_for_verification
  transition_for_verification-reconcile desired o s g =
      let iff = reconcile-satisfied_iff desired o in
      let valid = reconcile-IsValid desired o s g in
      let (idle, install, upgrade, others) = transition_of_iff (reconcile desired o).state in
      let gone = reconcile-absent_iff desired o in
      rw valid (
        (λ e. iff.0 (idle.0 e), λ m. idle.1 (iff.1 m)),
        (λ e. gone.0 (install.0 e), λ h. install.1 (gone.1 h)),
        upgrade,
        others,
      )
