-- ===== src/Plan/Replacement/Order.antt =====
-- A replacement goes through its phases in order and skips none.
use depengine.Prelude.{
  ℕ, ◌+◌, ◌≤◌, ◌<◌, ◌≡◌, sym, inl, inr, true, List, [], ◌∷◌, arith, Eq, string_eq, nat_eq,
  String-discrete, leb, Bool-cases, contains, ok,
}
use depengine.Plan.Resource.{resource_identity_eq, ownership_kind_eq}
use depengine.Plan.Replacement.{
  ReplacementPhase, ReplacementJournal, new_replacement_journal, plan_remove, record_removed,
  plan_install, record_installed, plan_post_hook,
}

unfoldable pub ReplacementPhase-discrete : Discrete ReplacementPhase
ReplacementPhase-discrete = hlevel String-discrete

instance abbrev pub replacement_phase_eq : Eq ReplacementPhase
replacement_phase_eq = record { decide = ReplacementPhase-discrete }

-- the place of a phase in the replacement; an unlisted one stands behind all
abbrev pub rank : ReplacementPhase → ℕ
rank ReplacementPhase.removal_planned = 0
rank ReplacementPhase.removing = 1
rank ReplacementPhase.removed = 2
rank ReplacementPhase.installing = 3
rank ReplacementPhase.installed = 4
rank ReplacementPhase.post_hook_running = 5
rank (ReplacementPhase.unlisted _) = 6

pub data ReplacementStep : ReplacementJournal → ReplacementJournal → Type 0 where
  removal_begun : {j k : ReplacementJournal} → plan_remove j ≡ ok k → ReplacementStep j k
  removal_recorded : {j k : ReplacementJournal} → record_removed j ≡ ok k → ReplacementStep j k
  install_begun : {j k : ReplacementJournal} → plan_install j ≡ ok k → ReplacementStep j k
  install_recorded : {j k : ReplacementJournal} → record_installed j ≡ ok k → ReplacementStep j k
  post_hook_begun : {j k : ReplacementJournal} → plan_post_hook j ≡ ok k → ReplacementStep j k

-- a journal that the methods lead to, with the phases that were persisted on the way
pub data Replaced : ReplacementJournal → List ReplacementPhase → Type 0 where
  fresh : Replaced new_replacement_journal (ReplacementPhase.removal_planned ∷ [])
  further :
      {j k : ReplacementJournal} {past : List ReplacementPhase}
      → Replaced j past
      → ReplacementStep j k
      → Replaced k (k.phase ∷ past)

step_rank :
    (j k : ReplacementJournal)
    → ReplacementStep j k
    → (rank j.phase ≤ rank k.phase) × (rank k.phase ≤ rank j.phase + 1) × (rank k.phase < 6)
unfolding plan_remove record_removed plan_install record_installed plan_post_hook
step_rank j k (removal_begun e) = (ground arith, ground arith, ground arith)
step_rank j k (removal_recorded e) = (ground arith, ground arith, ground arith)
step_rank j k (install_begun e) = (ground arith, ground arith, ground arith)
step_rank j k (install_recorded e) = (ground arith, ground arith, ground arith)
step_rank j k (post_hook_begun e) = (ground arith, ground arith, ground arith)

rank-injective : (p q : ReplacementPhase) → rank p ≡ rank q → rank q < 6 → p ≡ q
rank-injective p q e l = ground arith

-- A replacement that the methods carry out has persisted every phase up to the one that it is in:
-- in particular, nothing is installed before the removal was recorded.
pub Replaced-visits :
    (j : ReplacementJournal) (past : List ReplacementPhase) (q : ReplacementPhase)
    → Replaced j past
    → rank q ≤ rank j.phase
    → contains past q ≡ true
Replaced-visits j past q fresh l =
    let same : ReplacementPhase.removal_planned ≡ q =
      sym (rank-injective q ReplacementPhase.removal_planned (omega arith) (omega arith)) in
    ground (arith, same)
Replaced-visits k past q (further {j = j} {past = before} done step) l =
    let (up, one, low) = step_rank j k step in
    elim (Bool-cases (leb (rank q) (rank j.phase))) [
      | inl seen ↦ ground (arith, Replaced-visits j before q done (ground arith))
      | inr new ↦
          let same : q ≡ k.phase = rank-injective q k.phase (ground arith) low in
          ground (arith, same)
    ]
