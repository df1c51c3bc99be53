-- ===== src/Rules/Service/Fits.antt =====
-- What ValidateNormalize accepts, and the CHECK constraints of the rules table (the other limits of a
-- TEXT or JSONB column, such as U+0000, are not looked at).
use gitactionflow.Base.{ℕ, ◌≡◌, refl, subst, true, false, [], is_empty}
use gitactionflow.Base.Text.{trim_space, trim_blanks, Unicode}
use gitactionflow.Base.Text.Trim.{trim_space_idem, trim_blanks_visible}
use gitactionflow.Errors.{ok}
use gitactionflow.Store.Rules.{satisfies_checks, is_event_type}
use gitactionflow.Store.Actions.{is_action_type}
use gitactionflow.Rules.Validate.{Input, validate_normalize}
use gitactionflow.Rules.Validate.Config.{normalize_action_config-Settled}
use gitactionflow.Rules.Validate.Normal.{
  IsNormal, normalize_labels-IsNormal, validate_normalize-Accepted,
}
use gitactionflow.Rules.Service.{to_rule}

-- A rule that ValidateNormalize accepts satisfies the CHECK constraints of the table, and its labels are not blank, have no space around them, and are
-- different when case is ignored.
pub validate_normalize-satisfies_checks :
    ⦃u : Unicode⦄ (repository_id : ℕ) (input norm : Input)
    → validate_normalize input ≡ ok norm
    → (satisfies_checks (to_rule repository_id norm) ≡ true) × IsNormal [] norm.required_labels
unfolding satisfies_checks is_event_type is_action_type
validate_normalize-satisfies_checks ⦃u⦄ repository_id input norm h =
    let a = validate_normalize-Accepted input norm h in
    let named : is_empty (trim_blanks (trim_space input.name)) ≡ false =
      trim_blanks_visible (trim_space input.name) (rw (trim_space_idem input.name) a.name) in
    let config =
      (normalize_action_config-Settled (trim_space input.action_type) input.action_config
        norm.action_config a.config).1 in
    subst
      (λ (i : Input).
        (satisfies_checks (to_rule repository_id i) ≡ true) × IsNormal [] i.required_labels)
      a.same
      (
        rw (a.event_type, a.action_type, named, config) refl,
        normalize_labels-IsNormal [] input.required_labels,
      )
