-- ===== src/Tests/Clients.antt =====
-- Answers of GitHub and Slack.
use gitactionflow.Base.{some, none, ◌≡◌, refl, false, [], ◌∷◌, is_empty}
use gitactionflow.Base.Int.{pos}
use gitactionflow.Base.Text.{
  replace_all, has_prefix, codes, trim_space, decimal, text_eq, equal_fold,
}
use gitactionflow.Errors.{Error, ok, err, github_rate_limited, slack_retryable}
use gitactionflow.Json.{null, num, arr, obj, field, end, cons, nil, value}
use gitactionflow.Transport.{answer, Transport}
use gitactionflow.Githubapi.{post_json, list_repositories, plain}
use gitactionflow.Githubapi.Decode.{no_repository, decode_repositories}
use gitactionflow.Githubapi.Retries.{MaySucceed, post_json-IsSettled}
use gitactionflow.Githubapi.Pages.{IsPaged, list_repositories-IsPaged}
use gitactionflow.Slack.{send_text}
use gitactionflow.Slack.Retries as SlackRetries
use gitactionflow.Slack.Retries.{send_text-IsSettled}
use gitactionflow.Store.Rows.{Action, ActionStatus}
use gitactionflow.Store.Exec.{World}
use gitactionflow.Actions.Execute.{sanitize_err}
use gitactionflow.Actions.Executor.{record_failure}
use gitactionflow.Actions.Executor.Outcome.{IsSettled}
use gitactionflow.Tests.Samples.{ascii, quiet, executor, world_of, with_event, label_rule}

-- Every request is answered with 429.
abbrev limited : Transport
limited r = answer (record { status = 429; rate_remaining = []; body = value null })

label_fails :
    post_json ⦃u = ascii⦄ (codes "api") limited (codes "t") (codes "/labels") null
    ≡ err (plain github_rate_limited)
unfolding post_json
label_fails = refl

-- An action whose call was made.
abbrev called : Action
called = record {
  id = 6;
  event_id = 4;
  rule_id = some 3;
  action_type = codes "github_label";
  action_config = label_rule.action_config;
  idempotency_key = codes "k";
  status = ActionStatus.processing;
  attempt_count = 0;
  max_attempts = 3;
  next_retry_at = none;
  last_error = none;
  started_at = some 5;
  completed_at = none;
  failed_at = none;
  created_at = 5;
  updated_at = 5;
}

abbrev start : World
start = world_of (record with_event { actions = called ∷ [] })

rate_message : sanitize_err (plain github_rate_limited) ≡ some (plain github_rate_limited).message
unfolding sanitize_err replace_all has_prefix
rate_message = refl

post_json-IsSettled_example :
    IsSettled called
      (record_failure ⦃u = ascii⦄ quiet executor called (plain github_rate_limited) start).1.db
      (MaySucceed (answer (record { status = 429; rate_remaining = []; body = value null })))
post_json-IsSettled_example =
    post_json-IsSettled ⦃u = ascii⦄ (codes "api") limited (codes "t") (codes "/labels") null quiet
      executor called (plain github_rate_limited) (plain github_rate_limited).message start
      label_fails refl rate_message refl refl

abbrev slack_busy : Error
slack_busy = record { kind = slack_retryable; message = codes "slack retryable error: status 429" }

message_fails : send_text (codes "hook") limited (codes "hi") ≡ err slack_busy
unfolding send_text trim_space decimal
message_fails = refl

hook_given : is_empty (trim_space (codes "hook")) ≡ false
unfolding trim_space
hook_given = refl

busy_message : sanitize_err slack_busy ≡ some slack_busy.message
unfolding sanitize_err replace_all has_prefix
busy_message = refl

send_text-IsSettled_example :
    IsSettled called (record_failure ⦃u = ascii⦄ quiet executor called slack_busy start).1.db (
      SlackRetries.MaySucceed
        (answer (record { status = 429; rate_remaining = []; body = value null })))
send_text-IsSettled_example =
    send_text-IsSettled ⦃u = ascii⦄ (codes "hook") limited (codes "hi") quiet executor called
      slack_busy slack_busy.message start hook_given message_fails refl busy_message refl refl

-- GitHub lists one repository.
abbrev one_repository : Transport
one_repository r = answer (record {
  status = 200;
  rate_remaining = [];
  body = value (arr (cons (obj (field (codes "id") (num (pos 7)) end)) nil));
})

repositories_listed :
    list_repositories ⦃u = ascii⦄ (codes "api") one_repository (codes "t")
    ≡ ok (record no_repository { id = pos 7 } ∷ [])
unfolding list_repositories decode_repositories text_eq equal_fold
repositories_listed = refl

list_repositories-IsPaged_example :
    IsPaged ⦃u = ascii⦄
      (codes "api")
      one_repository
      (codes "t")
      5
      1
      (record no_repository { id = pos 7 } ∷ [])
list_repositories-IsPaged_example =
    list_repositories-IsPaged ⦃u = ascii⦄ (codes "api") one_repository (codes "t")
      repositories_listed
