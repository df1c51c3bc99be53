-- ===== src/Rules/Validate.antt =====
-- backend/internal/rules/validate.go: checking and normalising what a user enters for a rule.
pub mod Config
pub mod Normal
use gitactionflow.Base.{
  ℕ, Bool, true, false, ◌&&◌, ◌||◌, not, Option, none, some, List, [], ◌∷◌, ◌++◌, if◌then◌else◌,
  any, is_empty, String,
}
use gitactionflow.Base.Text.{Text, codes, text_eq, trim_space, Unicode, to_lower}
use gitactionflow.Errors.{Error, Result, ok, err, invalid_rule, ◌>>=◌}
use gitactionflow.Json.{
  Raw, empty, value, empty_object, is_valid, as_map, as_bool, as_string, entry, Json, Fields, obj,
  str, bool, end, field,
}

pub record Input : Type 0 where
  pub name : Text
  pub enabled : Bool
  pub event_type : Text
  pub keyword : Option Text
  pub author : Option Text
  pub required_labels : List Text
  pub action_type : Text
  pub action_config : Raw

-- fmt.Errorf("%w: ...", ErrInvalidInput)
abbrev pub invalid : String → Error
invalid why = record { kind = invalid_rule; message = codes "invalid rule input: " ++ codes why }

abbrev pub issues : Text
issues = codes "issues"

abbrev pub pull_request : Text
pull_request = codes "pull_request"

abbrev pub github_label : Text
github_label = codes "github_label"

abbrev pub github_comment : Text
github_comment = codes "github_comment"

abbrev pub slack_notification : Text
slack_notification = codes "slack_notification"

-- An optional text that is blank counts as absent.
unfoldable pub normalize_optional : Option Text → Option Text
normalize_optional none = none
normalize_optional (some t) = if is_empty (trim_space t) then none else some (trim_space t)

-- `map[string]any{...}` as json.Marshal writes it: the flags that are set, among the sorted keys.
abbrev flag : Bool → Text → Fields → Fields
flag true k rest = field k (bool true) rest
flag false k rest = rest

abbrev pub label_config : Text → Bool → Raw
label_config label use_ai =
    value (obj (field (codes "label") (str label) (flag use_ai (codes "use_ai") end)))

abbrev pub comment_config : Text → Bool → Bool → Raw
comment_config comment use_ai append_ai = value (
    obj (
      flag append_ai (codes "append_ai_summary")
        (field (codes "comment") (str comment) (flag use_ai (codes "use_ai") end))))

abbrev pub slack_config : Text → Bool → Raw
slack_config message append_ai =
    value
      (obj (flag append_ai (codes "append_ai_summary") (field (codes "message") (str message) end)))

-- The `switch` of normalizeActionConfig, over the decoded map.
unfoldable pub normalize_map : Text → Fields → Result Raw
normalize_map action_type m =
    let use_ai = as_bool (entry (codes "use_ai") m) in
    let append_ai = as_bool (entry (codes "append_ai_summary") m) in
    let label = trim_space (as_string (entry (codes "label") m)) in
    let comment = trim_space (as_string (entry (codes "comment") m)) in
    let message = trim_space (as_string (entry (codes "message") m)) in
    if text_eq action_type github_label
    then (if is_empty label && not use_ai
        then err (invalid "action_config.label is required (or set use_ai)")
        else ok (label_config label use_ai))
    else if text_eq action_type github_comment
    then (if is_empty comment && (not use_ai && not append_ai)
        then err (invalid "action_config.comment is required (or set use_ai / append_ai_summary)")
        else ok (comment_config comment use_ai append_ai))
    else if text_eq action_type slack_notification
    then (if is_empty message
        then err (invalid "action_config.message is required")
        else ok (slack_config message append_ai))
    else err (invalid "invalid action_type")

abbrev or_empty : Raw → Raw
or_empty empty = empty_object
or_empty r = r

abbrev with_map : Option Fields → Text → Result Raw
with_map none action_type = err (invalid "action_config must be a JSON object")
with_map (some m) action_type = normalize_map action_type m

unfoldable pub normalize_action_config : Text → Raw → Result Raw
unfolding normalize_map
normalize_action_config action_type raw =
    if not (is_valid (or_empty raw))
    then err (invalid "action_config must be valid JSON")
    else with_map (as_map (or_empty raw)) action_type

module _ ⦃u : Unicode⦄ where
  -- The loop over the labels, with the keys seen so far.
  unfoldable pub normalize_labels : List Text → List Text → List Text
  normalize_labels seen [] = []
  normalize_labels seen (l ∷ ls) =
      let t = trim_space l in
      let skip = normalize_labels seen ls in
      let keep = t ∷ normalize_labels (to_lower t ∷ seen) ls in
      if is_empty t then skip else if any (text_eq (to_lower t)) seen then skip else keep

  -- ValidateNormalize
  unfoldable pub validate_normalize : Input → Result Input
  unfolding normalize_optional normalize_labels normalize_action_config
  validate_normalize input =
      let name = trim_space input.name in
      let event_type = trim_space input.event_type in
      let action_type = trim_space input.action_type in
      if is_empty name
      then err (invalid "name is required")
      else if not (text_eq event_type issues || text_eq event_type pull_request)
      then err (invalid "event_type must be issues or pull_request")
      else if not (
          text_eq action_type github_label
          || text_eq action_type github_comment
          || text_eq action_type slack_notification)
      then err (invalid "invalid action_type")
      else (normalize_action_config action_type input.action_config >>= λ cfg. ok (record {
        name = name;
        enabled = input.enabled;
        event_type = event_type;
        keyword = normalize_optional input.keyword;
        author = normalize_optional input.author;
        required_labels = normalize_labels [] input.required_labels;
        action_type = action_type;
        action_config = cfg;
      }))
