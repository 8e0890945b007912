-- ===== src/Plan/Replacement.antt =====
-- internal/plan/replacement.go: the write-ahead journal of the replacement of an installed tool.
-- `Order` has the order of its phases.
use depengine.Prelude.{
  ℕ, zero, suc, ◌+◌, ◌-◌, ◌≤◌, ◌<◌, String, ◌≡◌, refl, sym, ap, ◌∙◌, ◌≢◌, ◌↔◌, ◌⊎◌, inl, inr, Bool,
  true, false, ◌&&◌, ◌||◌, not, Option, none, some, List, [], ◌∷◌, ◌++◌, map, reverse, arith, Eq,
  ◌==◌, ◌!=◌, string_eq, nat_eq, String-discrete, ltb, leb, if◌then◌else◌, Bool-cases, Option-cases,
  length, get_elem?, take, drop, is_empty, length-append, contains, Result, ok, err, ◌>>=◌, ◌>>◌,
  fail_if, succeeds, >>=-eq-ok, Table, lookup, insert, remove, values, lookup-insert, lookup-remove,
  trim_space, contains_nul, text_lt,
}
use depengine.Plan.Resource.{resource_identity_eq, ownership_kind_eq}
pub mod Order

pub data ReplacementPhase : Type 0 where
  removal_planned removing removed installing installed post_hook_running : ReplacementPhase
  unlisted : String → ReplacementPhase

pub record ReplacementJournal : Type 0 where
  pub phase : ReplacementPhase

abbrev pub new_replacement_journal : ReplacementJournal
new_replacement_journal = record { phase = ReplacementPhase.removal_planned }

-- ReplacementJournal.Validate
unfoldable pub validate_replacement : ReplacementJournal → Result (Unit {0})
validate_replacement j = elim j.phase [
  | ReplacementPhase.unlisted _ ↦ err "invalid active replacement phase"
  | _ ↦ ok tt
]

abbrev may_remove : ReplacementPhase → Bool
may_remove ReplacementPhase.removal_planned = true
may_remove ReplacementPhase.removing = true
may_remove _ = false

abbrev is_removing : ReplacementPhase → Bool
is_removing ReplacementPhase.removing = true
is_removing _ = false

abbrev may_install : ReplacementPhase → Bool
may_install ReplacementPhase.removed = true
may_install ReplacementPhase.installing = true
may_install _ = false

abbrev is_installing : ReplacementPhase → Bool
is_installing ReplacementPhase.installing = true
is_installing _ = false

abbrev is_installed : ReplacementPhase → Bool
is_installed ReplacementPhase.installed = true
is_installed _ = false

unfoldable pub plan_remove : ReplacementJournal → Result ReplacementJournal
unfolding validate_replacement
plan_remove j = do
  validate_replacement j
  fail_if (not (may_remove j.phase)) "cannot plan replacement removal in this phase"
  ok (record { phase = ReplacementPhase.removing })

unfoldable pub record_removed : ReplacementJournal → Result ReplacementJournal
unfolding validate_replacement
record_removed j = do
  validate_replacement j
  fail_if (not (is_removing j.phase)) "cannot record replacement removal in this phase"
  ok (record { phase = ReplacementPhase.removed })

unfoldable pub plan_install : ReplacementJournal → Result ReplacementJournal
unfolding validate_replacement
plan_install j = do
  validate_replacement j
  fail_if (not (may_install j.phase)) "cannot plan replacement install in this phase"
  ok (record { phase = ReplacementPhase.installing })

unfoldable pub record_installed : ReplacementJournal → Result ReplacementJournal
unfolding validate_replacement
record_installed j = do
  validate_replacement j
  fail_if (not (is_installing j.phase)) "cannot record replacement install in this phase"
  ok (record { phase = ReplacementPhase.installed })

unfoldable pub plan_post_hook : ReplacementJournal → Result ReplacementJournal
unfolding validate_replacement
plan_post_hook j = do
  validate_replacement j
  fail_if (not (is_installed j.phase)) "cannot plan replacement post-hook in this phase"
  ok (record { phase = ReplacementPhase.post_hook_running })
