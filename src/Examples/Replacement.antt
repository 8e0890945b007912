-- ===== src/Examples/Replacement.antt =====
-- The order of a replacement's phases at a run up to its installation.
use depengine.Plan.Replacement.Order.{replacement_phase_eq}
use depengine.Plan.Replacement.Order.{
  install_begun, removal_recorded, removal_begun, fresh, further, Replaced, Replaced-visits,
}
use depengine.Prelude.{◌≡◌, refl, true, List, [], ◌∷◌, arith, string_eq, nat_eq, contains}
use depengine.Plan.Resource.{resource_identity_eq, ownership_kind_eq}
use depengine.Plan.Replacement.{
  ReplacementPhase, ReplacementJournal, plan_remove, record_removed, plan_install,
}

abbrev in_phase : ReplacementPhase → ReplacementJournal
in_phase phase = record { phase = phase }

abbrev past : List ReplacementPhase
past =
    ReplacementPhase.installing ∷ ReplacementPhase.removed ∷ ReplacementPhase.removing
    ∷ ReplacementPhase.removal_planned ∷ []

install_reached : Replaced (in_phase ReplacementPhase.installing) past
unfolding plan_remove record_removed plan_install
install_reached =
    further
      (further (further fresh (removal_begun {k = in_phase ReplacementPhase.removing} refl))
        (removal_recorded {k = in_phase ReplacementPhase.removed} refl))
      (install_begun {k = in_phase ReplacementPhase.installing} refl)

Replaced-visits_example : contains past ReplacementPhase.removed ≡ true
Replaced-visits_example =
    Replaced-visits (in_phase ReplacementPhase.installing) past ReplacementPhase.removed
      install_reached (omega arith)
