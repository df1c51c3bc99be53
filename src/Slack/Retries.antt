-- ===== src/Slack/Retries.antt =====
-- Which failures of Slack (backend/internal/slack/client.go) the executor tries again.
use gitactionflow.Base.{
  true, some, ℕ, ◌≤◌, ◌≡◌, refl, subst, ◌↔◌, ◌⊎◌, false, none, is_empty, arith,
}
use gitactionflow.Base.Text.{Text, codes, trim_space, Unicode}
use gitactionflow.Errors.{Error, err, is, err_injective}
use gitactionflow.Json.{str, obj, field, end}
use gitactionflow.Store.Rows.{Action, action_is_processing}
use gitactionflow.Store.Exec.{Env, World}
use gitactionflow.Actions.Executor.{record_failure}
use gitactionflow.Actions.Executor.Outcome.{row_of, IsSettled, record_failure-IsSettled}
use gitactionflow.Actions.Execute.{Executor, is_permanent, sanitize_err}
use gitactionflow.Transport.{json, post, Attempt, unbuilt, no_answer, unreadable, answer, Transport}
use gitactionflow.Slack.{of_status, of_attempt, send_text}

abbrev IsBusy : ℕ → Type 0
IsBusy n = (n ≡ 429) ⊎ (500 ≤ n)

-- Slack was not reached, or was busy.
abbrev pub MaySucceed : Attempt → Type 0
MaySucceed (unbuilt e) = Unit
MaySucceed (no_answer e) = Unit
MaySucceed (unreadable r e) = IsBusy r.status
MaySucceed (answer r) = IsBusy r.status

status-Retried : (n : ℕ) {e : Error} → of_status n ≡ err e → (is_permanent e ≡ false) ↔ IsBusy n
unfolding of_status is_permanent is
status-Retried n {e} h = ground arith

attempt-Retried :
    (a : Attempt) {e : Error} → of_attempt a ≡ err e → (is_permanent e ≡ false) ↔ MaySucceed a
unfolding of_attempt is_permanent is
attempt-Retried (unbuilt m) {e} h =
    (λ _. tt, λ _. subst (λ x. is_permanent x ≡ false) (err_injective h) refl)
attempt-Retried (no_answer m) {e} h =
    (λ _. tt, λ _. subst (λ x. is_permanent x ≡ false) (err_injective h) refl)
attempt-Retried (unreadable r m) h = status-Retried r.status h
attempt-Retried (answer r) h = status-Retried r.status h

-- What is_permanent says of the errors of a message.
send_text-Retried :
    (configured : Text) (transport : Transport) (text : Text) {e : Error}
    → is_empty (trim_space configured) ≡ false
    → send_text configured transport text ≡ err e
    → (is_permanent e ≡ false)
      ↔ MaySucceed (
          transport (record {
            method = post;
            url = trim_space configured;
            bearer = none;
            body = json (obj (field (codes "text") (str text) end));
          }))
unfolding send_text
send_text-Retried configured transport text given h = attempt-Retried _ (rw (send_text, given) at h)

-- With a webhook configured: when a message has failed, the attempt is counted; the action waits for
-- another try if Slack was not reached, or answered with 429 or 5xx, and an attempt is left; otherwise
-- it is failed for good. This is for an action that is in the table as it was claimed, an error whose
-- message can be stored, and a statement that does not fail.
pub send_text-IsSettled :
    ⦃u : Unicode⦄ (configured : Text) (transport : Transport) (text : Text) (env : Env)
    (x : Executor) (a : Action) (e : Error) (msg : Text) (w : World)
    → is_empty (trim_space configured) ≡ false
    → send_text configured transport text ≡ err e
    → (env.beat w.statements).fault ≡ none
    → sanitize_err e ≡ some msg
    → row_of a.id w.db ≡ some a
    → action_is_processing a.status ≡ true
    → IsSettled a (record_failure env x a e w).1.db (
        MaySucceed (
          transport (record {
            method = post;
            url = trim_space configured;
            bearer = none;
            body = json (obj (field (codes "text") (str text) end));
          })))
send_text-IsSettled configured transport text env x a e msg w given h quiet cut at live =
    record_failure-IsSettled env x a e msg w quiet cut at live _
      (send_text-Retried configured transport text given h)
