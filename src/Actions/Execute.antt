-- ===== src/Actions/Execute.antt =====
-- backend/internal/actions/executor.go, from executeOne on: one action's call to GitHub or Slack.
pub mod Footprint
pub mod Calls
use gitactionflow.Base.{
  ℕ, Bool, true, false, ◌&&◌, ◌||◌, not, Option, none, some, List, [], ◌∷◌, ◌++◌, if◌then◌else◌,
  is_empty, ltb, String,
}
use gitactionflow.Base.Int.{ℤ, is_le_zero}
use gitactionflow.Base.Text.{
  Text, codes, text_eq, trim_space, Unicode, replace_all, byte_len, cut_bytes,
}
use gitactionflow.Errors.{
  Error, Result, ok, err, is, github_permanent, github_unauthorized, github_forbidden,
  github_not_found, slack_permanent, slack_not_configured, invalid_event,
}
use gitactionflow.Json.{
  Raw, Fields, decode_field, string_value, bool_value, as_struct, as_map, as_bool, entry,
}
use gitactionflow.Store.Rows.{Action, Repository, WebhookEvent}
use gitactionflow.Store.Exec.{
  Env, Exec, World, query, send, raise, pure, ◌>>=◌, ◌>>◌, add_issue_labels, create_issue_comment,
  send_text,
}
use gitactionflow.Store.Repositories
use gitactionflow.Store.Users
use gitactionflow.Rules.Engine.{EventContext}
use gitactionflow.Rules.Validate.{github_label, github_comment, slack_notification}
use gitactionflow.Ai.{Suggestion}

-- The Executor struct, less its stores and clients, with the functions of other packages that it
-- calls: auth.Decrypt and uuid.UUID.String.
pub record Executor : Type 0 where
  pub max_attempts : ℤ
  pub token_key : Text
  pub suggest : Option (Text → Text → Result Suggestion)
  pub decrypt : Text → Text → Option Text
  pub uuid_text : ℕ → Text

abbrev pub github_error : String → Error
github_error why = record {
  kind = github_permanent;
  message = codes "github permanent error: " ++ codes why;
}

abbrev pub err_slack_config : Error
err_slack_config = record {
  kind = slack_permanent;
  message = codes "slack permanent error: invalid slack config";
}

-- isPermanent
unfoldable pub is_permanent : Error → Bool
is_permanent e =
    is e github_permanent
    || is e github_unauthorized
    || is e github_forbidden
    || is e github_not_found
    || is e slack_permanent
    || is e slack_not_configured
    || is e invalid_event

-- sanitizeErr: `none` if the cut leaves bytes that are not valid UTF-8.
unfoldable pub sanitize_err : Error → Option Text
sanitize_err e =
    let msg = replace_all e.message (codes "hooks.slack.com") (codes "[redacted-host]") in
    if ltb 500 (byte_len msg) then cut_bytes 500 msg else some msg

abbrev wants_ai : Option Fields → Bool
wants_ai none = false
wants_ai (some m) =
    as_bool (entry (codes "use_ai") m) || as_bool (entry (codes "append_ai_summary") m)

-- needsAI
unfoldable pub needs_ai : List Action → Bool
needs_ai [] = false
needs_ai (a ∷ as') = wants_ai (as_map a.action_config) || needs_ai as'

abbrev or_skip : Result Suggestion → Option Suggestion
or_skip (ok s) = some s
or_skip (err e) = none

-- fetchSuggestion: no suggester and a failing one both leave the actions without a suggestion.
unfoldable pub fetch_suggestion : Executor → EventContext → Option Suggestion
fetch_suggestion x ctx = elim x.suggest [
  | none ↦ none
  | some suggest ↦ or_skip (suggest ctx.title ctx.body)
]

-- The structs that the action configs decode into.
pub record Config : Type 0 where
  pub text : Text
  pub use_ai : Bool
  pub append_ai_summary : Bool

infixl 5 ◌&>◌
abbrev ◌&>◌ {ℓ κ} : {A : Type ℓ} {B : Type κ} → Option A → (A → Option B) → Option B
none &> k = none
some a &> k = k a

module _ ⦃u : Unicode⦄ where
  label_fields : Fields → Option Config
  unfolding decode_field
  label_fields fs = decode_field (codes "label") string_value [] fs &> λ text.
      decode_field (codes "use_ai") bool_value false fs &> λ use_ai.
      some (record { text = text; use_ai = use_ai; append_ai_summary = false })

  comment_fields : Fields → Option Config
  unfolding decode_field
  comment_fields fs = decode_field (codes "comment") string_value [] fs &> λ text.
      decode_field (codes "use_ai") bool_value false fs &> λ use_ai.
      decode_field (codes "append_ai_summary") bool_value false fs &> λ append.
      some (record { text = text; use_ai = use_ai; append_ai_summary = append })

  slack_fields : Fields → Option Config
  unfolding decode_field
  slack_fields fs = decode_field (codes "message") string_value [] fs &> λ text.
      decode_field (codes "append_ai_summary") bool_value false fs &> λ append.
      some (record { text = text; use_ai = false; append_ai_summary = append })

abbrev first_label : Text → List Text → Text
first_label label [] = label
first_label label (l ∷ ls) = l

-- The label to set: the configured one, or the first suggested one if the rule uses AI.
unfoldable pub choose_label : Config → Option Suggestion → Text
choose_label cfg none = trim_space cfg.text
choose_label cfg (some s) =
    if cfg.use_ai then first_label (trim_space cfg.text) s.suggested_labels else trim_space cfg.text

-- The comment to post.
unfoldable pub choose_comment : Config → Option Suggestion → Text
choose_comment cfg none = trim_space cfg.text
choose_comment cfg (some s) =
    let comment = trim_space cfg.text in
    if (cfg.use_ai || cfg.append_ai_summary) && not (is_empty s.summary)
    then (if cfg.use_ai && is_empty comment
        then s.summary
        else if cfg.append_ai_summary
        then (if is_empty comment
            then s.summary
            else comment ++ 10 ∷ 10 ∷ codes "---" ++ 10 ∷ codes "AI summary: " ++ s.summary)
        else comment)
    else comment

-- The part of the Slack message that the rule configures.
unfoldable pub choose_message : Config → Option Suggestion → Text
choose_message cfg none = trim_space cfg.text
choose_message cfg (some s) =
    let msg = trim_space cfg.text in
    if cfg.append_ai_summary && not (is_empty s.summary)
    then msg ++ 10 ∷ codes "AI: " ++ s.summary ++ codes " (priority: " ++ s.priority ++ codes ")"
    else msg

slack_text : Repository → WebhookEvent → Text → Text → Text
slack_text repo ev rule_name msg =
    codes "GitActionFlow automation triggered"
    ++ 10 ∷ 10 ∷ codes "Repository: "
    ++ repo.full_name
    ++ 10 ∷ codes "Event: "
    ++ ev.event_type
    ++ 10 ∷ codes "Action: "
    ++ ev.action
    ++ 10 ∷ codes "Rule: "
    ++ (if is_empty rule_name then codes "(unnamed)" else rule_name)
    ++ 10 ∷ 10 ∷ msg

abbrev token_result : Executor → Result Text → Result Text
token_result x (err e) = err (github_error "token unavailable")
token_result x (ok enc) = elim (x.decrypt x.token_key enc) [
  | none ↦ err (github_error "token decrypt")
  | some plain ↦ ok plain
]

module _ ⦃u : Unicode⦄ (env : Env) (x : Executor) where
  -- accessToken
  unfoldable pub access_token : ℕ → Exec Text
  access_token user_id w =
      let (r, w') = query env (Users.get_encrypted_access_token user_id) w in (token_result x r, w')

  abbrev with_label : Repository → EventContext → Text → Exec (Unit {0})
  with_label repo ctx label =
      if is_empty label
      then raise (github_error "invalid label config")
      else (access_token repo.user_id >>= λ token.
          send env
            (add_issue_labels token repo.owner_login repo.name ctx.issue_number (label ∷ [])))

  abbrev label_with :
      Repository → EventContext → Option Suggestion → Option Config → Exec (Unit {0})
  label_with repo ctx s none = raise (github_error "invalid label config")
  label_with repo ctx s (some cfg) = with_label repo ctx (choose_label cfg s)

  -- execGitHubLabel
  unfoldable pub exec_github_label :
      Repository → EventContext → Action → Option Suggestion → Exec (Unit {0})
  unfolding label_fields
  exec_github_label repo ctx a s =
      if is_le_zero ctx.issue_number
      then raise (github_error "missing issue number")
      else label_with repo ctx s (as_struct label_fields a.action_config)

  abbrev with_comment : Repository → EventContext → Text → Exec (Unit {0})
  with_comment repo ctx comment =
      if is_empty comment
      then raise (github_error "invalid comment config")
      else (access_token repo.user_id >>= λ token.
          send env (create_issue_comment token repo.owner_login repo.name ctx.issue_number comment))

  abbrev comment_with :
      Repository → EventContext → Option Suggestion → Option Config → Exec (Unit {0})
  comment_with repo ctx s none = raise (github_error "invalid comment config")
  comment_with repo ctx s (some cfg) = with_comment repo ctx (choose_comment cfg s)

  -- execGitHubComment
  unfoldable pub exec_github_comment :
      Repository → EventContext → Action → Option Suggestion → Exec (Unit {0})
  unfolding comment_fields
  exec_github_comment repo ctx a s =
      if is_le_zero ctx.issue_number
      then raise (github_error "missing issue number")
      else comment_with repo ctx s (as_struct comment_fields a.action_config)

  abbrev slack_with :
      Repository → WebhookEvent → Text → Option Suggestion → Option Config → Exec (Unit {0})
  slack_with repo ev rule_name s none = raise err_slack_config
  slack_with repo ev rule_name s (some cfg) =
      if is_empty (trim_space cfg.text)
      then raise err_slack_config
      else send env (send_text (slack_text repo ev rule_name (choose_message cfg s)))

  -- execSlack
  unfoldable pub exec_slack :
      Repository → WebhookEvent → Action → Text → Option Suggestion → Exec (Unit {0})
  unfolding slack_fields slack_text
  exec_slack repo ev a rule_name s =
      slack_with repo ev rule_name s (as_struct slack_fields a.action_config)

  -- executeOne
  unfoldable pub execute_one :
      Repository → WebhookEvent → EventContext → Action → Text → Option Suggestion → Exec (Unit {0})
  unfolding exec_github_label exec_github_comment exec_slack
  execute_one repo ev ctx a rule_name s =
      if text_eq a.action_type github_label
      then exec_github_label repo ctx a s
      else if text_eq a.action_type github_comment
      then exec_github_comment repo ctx a s
      else if text_eq a.action_type slack_notification
      then exec_slack repo ev a rule_name s
      else raise (record {
        kind = invalid_event;
        message = codes "invalid persisted event: unknown action_type";
      })
