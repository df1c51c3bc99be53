-- ===== src/Tests/Automation.antt =====
-- Runs of the rules: matching, validation, and the service.
use mathlib.Core.List.{Memᴰ}
use gitactionflow.Base.{◌≡◌, ◌↔◌, refl, true, none, some, [], ◌∷◌, arith}
use gitactionflow.Base.Int.{pos}
use gitactionflow.Base.Text.{codes, text_eq, trim_space, contains}
use gitactionflow.Errors.{ok}
use gitactionflow.Json.{entry, value, obj, field, str, bool, end}
use gitactionflow.Store.Rows.{Rule}
use gitactionflow.Store.Rules.{satisfies_checks}
use gitactionflow.Rules.Engine.{EventContext, intent, match_rule, evaluate}
use gitactionflow.Rules.Engine.Meaning.{Matches, match_rule_iff, evaluate_iff}
use gitactionflow.Rules.Validate.{Input, validate_normalize}
use gitactionflow.Rules.Validate.Normal.{IsNormal, validate_normalize_idem}
use gitactionflow.Rules.Service.Owned.{get_owned}
use gitactionflow.Store.Rows.{Repository}
use gitactionflow.Store.Exec.{query}
use gitactionflow.Store.Repositories.{get_by_user_id}
use gitactionflow.Store.Rules.{get_by_id}
use gitactionflow.Base.{find, ◌==◌}
use gitactionflow.Rules.Service.{get, to_rule, create, update, delete}
use gitactionflow.Rules.Service.Fits.{validate_normalize-satisfies_checks}
use gitactionflow.Rules.Service.Scope.{rules_of, service_confined}
use gitactionflow.Tests.Samples.{ascii, quiet, label_rule, connected, world_of}

abbrev crash : EventContext
crash = record {
  event_id = 4;
  repository_id = 1;
  event_type = codes "issues";
  action = codes "opened";
  author = codes "ann";
  title = codes "CRASH on start";
  body = [];
  labels = codes "Bug" ∷ [];
  issue_number = pos 5;
}

match_rule_iff_example :
    (match_rule ⦃u = ascii⦄ label_rule crash ≡ true) ↔ Matches ⦃u = ascii⦄ label_rule crash
match_rule_iff_example = match_rule_iff ⦃u = ascii⦄ label_rule crash

matches_crash : match_rule ⦃u = ascii⦄ label_rule crash ≡ true
unfolding match_rule text_eq trim_space contains
matches_crash = refl

evaluate_iff_example :
    Memᴰ (intent label_rule crash) (evaluate ⦃u = ascii⦄ (label_rule ∷ []) crash) ↔ (
      (r : Rule) × Memᴰ r (label_rule ∷ [])
      × Matches ⦃u = ascii⦄ r crash
      × (intent label_rule crash ≡ intent r crash))
evaluate_iff_example = evaluate_iff ⦃u = ascii⦄ (label_rule ∷ []) crash (intent label_rule crash)

-- A form as a user may fill it in, and what is stored of it.
abbrev entered : Input
entered = record {
  name = codes " bugs ";
  enabled = true;
  event_type = codes "issues";
  keyword = some (codes "  ");
  author = none;
  required_labels = codes "Bug" ∷ codes " bug" ∷ [];
  action_type = codes "github_label";
  action_config =
      value (obj (field (codes "label") (str (codes " bug ")) (field (codes "x") (bool true) end)));
}

abbrev stored : Input
stored = record {
  name = codes "bugs";
  enabled = true;
  event_type = codes "issues";
  keyword = none;
  author = none;
  required_labels = codes "Bug" ∷ [];
  action_type = codes "github_label";
  action_config = value (obj (field (codes "label") (str (codes "bug")) end));
}

entered-stored : validate_normalize ⦃u = ascii⦄ entered ≡ ok stored
unfolding validate_normalize trim_space text_eq entry
entered-stored = refl

validate_normalize_idem_example : validate_normalize ⦃u = ascii⦄ stored ≡ ok stored
validate_normalize_idem_example = validate_normalize_idem ⦃u = ascii⦄ entered stored entered-stored

validate_normalize-satisfies_checks_example :
    (satisfies_checks (to_rule 1 stored) ≡ true) × IsNormal ⦃u = ascii⦄ [] stored.required_labels
validate_normalize-satisfies_checks_example =
    validate_normalize-satisfies_checks ⦃u = ascii⦄ 1 entered stored entered-stored

-- User 9 is not connected to repository 1.
service_confined_example :
    (rules_of 1 (create ⦃u = ascii⦄ quiet 9 entered (world_of connected)).1.db
      ≡ rules_of 1 connected)
    × (rules_of 1 (update ⦃u = ascii⦄ quiet 9 3 entered (world_of connected)).1.db
        ≡ rules_of 1 connected)
    × (rules_of 1 (delete ⦃u = ascii⦄ quiet 9 3 (world_of connected)).1.db ≡ rules_of 1 connected)
service_confined_example =
    service_confined ⦃u = ascii⦄ quiet 9 1 3 entered (world_of connected) (λ p. ground arith, tt)

got :
    get ⦃u = ascii⦄ quiet 2 3 (world_of connected)
    ≡ (ok label_rule, (get ⦃u = ascii⦄ quiet 2 3 (world_of connected)).1)
unfolding get query get_by_user_id get_by_id
got = refl

get_owned_example :
    (repo : Repository) × (find (λ (x : Repository). x.user_id == 2) connected.repositories
      ≡ some repo)
    × (label_rule.repository_id ≡ repo.id)
    × (label_rule.id ≡ 3)
get_owned_example =
    get_owned ⦃u = ascii⦄ quiet 2 3 (world_of connected) label_rule
      (get ⦃u = ascii⦄ quiet 2 3 (world_of connected)).1 got
