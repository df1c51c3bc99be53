-- ===== src/Slack.antt =====
-- backend/internal/slack/client.go: posting a message to Slack's webhook.
pub mod Retries
use gitactionflow.Base.{ℕ, Bool, ◌||◌, none, some, ◌++◌, ◌==◌, leb, is_empty, if◌then◌else◌}
use gitactionflow.Base.Text.{Text, codes, decimal, trim_space}
use gitactionflow.Errors.{
  Error, Result, ok, err, other, slack_not_configured, slack_retryable, slack_permanent,
}
use gitactionflow.Json.{str, obj, field, end}
use gitactionflow.Transport.{
  json, no_body, post, Response, Attempt, unbuilt, no_answer, unreadable, answer, Transport, is_2xx,
}

abbrev not_configured : Error
not_configured = record {
  kind = slack_not_configured;
  message = codes "slack webhook not configured";
}

abbrev retryable : Text → Error
retryable detail = record {
  kind = slack_retryable;
  message = codes "slack retryable error: " ++ detail;
}

abbrev permanent : Text → Error
permanent detail = record {
  kind = slack_permanent;
  message = codes "slack permanent error: " ++ detail;
}

abbrev status_text : ℕ → Text
status_text n = codes "status " ++ decimal n

-- The switch on the status.
unfoldable pub of_status : ℕ → Result (Unit {0})
of_status n =
    if is_2xx n
    then ok tt
    else if n == 429 || leb 500 n
    then err (retryable (status_text n))
    else err (permanent (status_text n))

-- The body of an answer plays no part.
unfoldable pub of_attempt : Attempt → Result (Unit {0})
unfolding of_status
of_attempt (unbuilt e) = err (record { kind = other; message = e })
of_attempt (no_answer e) = err (retryable e)
of_attempt (unreadable r e) = of_status r.status
of_attempt (answer r) = of_status r.status

-- New trims the URL, and SendText posts to it.
unfoldable pub send_text : Text → Transport → Text → Result (Unit {0})
unfolding of_attempt
send_text configured transport text =
    let webhook_url = trim_space configured in
    if is_empty webhook_url
    then err not_configured
    else of_attempt (
        transport (record {
          method = post;
          url = webhook_url;
          bearer = none;
          body = json (obj (field (codes "text") (str text) end));
        }))
