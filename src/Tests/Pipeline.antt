-- ===== src/Tests/Pipeline.antt =====
-- Runs of the pipeline: an event is claimed, checked, and its actions are run.
use gitactionflow.Store.Rows.{Repository, Action, ActionStatus}
use gitactionflow.Base.{
  none, some, find, any, not, ◌≤◌, ℕ, ◌≡◌, ◌⊎◌, refl, true, false, List, [], ◌∷◌, is_empty, length,
  sort_by,
}
use gitactionflow.Base.Int.{pos}
use gitactionflow.Base.Text.{codes, trim_space, text_eq, equal_fold, decimal}
use gitactionflow.Errors.{ok, is}
use gitactionflow.Json.{is_valid, entry, decode_field}
use gitactionflow.Store.Exec.{World, query, send}
use gitactionflow.Store.Exec.Inversion.{Keeps}
use gitactionflow.Store.Events.Status.{NotProcessed}
use gitactionflow.Store.Actions.{
  has_key, create_or_get, insert_action, is_action_type, list_by_event_id, mark_processing,
  mark_completed,
}
use gitactionflow.Store.Actions.Unique.{KeysUnique, create_or_get_row, create_or_get-KeysUnique}
use gitactionflow.Ai.{Suggestion, allowed_priorities, validate_suggestion}
use gitactionflow.Ai.Allowed.{AreAllowed, validate_suggestion-AreAllowed}
use gitactionflow.Store.Actions.Tasks.{tasks}
use gitactionflow.Actions.Executor.Assigned.{
  Assigned, IsMadeFor, IsRepositoryOf, execute_list-Assigned,
}
use gitactionflow.Store.Repositories.{get_by_id, get_by_github_id}
use gitactionflow.Store.Users.{get_encrypted_access_token}
use gitactionflow.Actions.Execute.{
  execute_one, choose_label, needs_ai, access_token, is_permanent, sanitize_err,
}
use gitactionflow.Rules.Engine.{EventContext, ActionIntent, intent}
use gitactionflow.Webhook.Envelope.{is_supported, decode_envelope}
use gitactionflow.Events.Processor.{process, validate}
use gitactionflow.Events.Processor.Match.{FromConnected, validate-FromConnected}
use gitactionflow.Events.Worker.{process_one}
use gitactionflow.Events.Worker.Completes.{runner, process_one-AllCompleted}
use gitactionflow.Actions.Executor.{
  execute_list, ensure_and_execute, idempotency_key, create_all, process_all, process_action,
  attempt_limit, rule_names, verdict,
}
use gitactionflow.Actions.Executor.Complete.{AllCompleted, ensure_and_execute-AllCompleted}
use gitactionflow.Actions.Executor.Keys.{idempotency_key_injective}
use gitactionflow.Tests.Samples.{
  ascii, quiet, label_rule, with_event, world_of, queued_event, executor, uuid_text,
}

abbrev first_action : Action
first_action = record {
  id = 5;
  event_id = 4;
  rule_id = some 3;
  action_type = codes "github_label";
  action_config = label_rule.action_config;
  idempotency_key = codes "k";
  status = ActionStatus.pending;
  attempt_count = 0;
  max_attempts = 3;
  next_retry_at = none;
  last_error = none;
  started_at = none;
  completed_at = none;
  failed_at = none;
  created_at = 101;
  updated_at = 101;
}

abbrev start : World
start = world_of with_event

abbrev crash : EventContext
crash = record {
  event_id = 4;
  repository_id = 1;
  event_type = codes "issues";
  action = [];
  author = [];
  title = codes "crash";
  body = [];
  labels = [];
  issue_number = pos 5;
}

abbrev intents : List ActionIntent
intents = intent label_rule crash ∷ []

abbrev after : World
after = (ensure_and_execute ⦃u = ascii⦄ quiet executor queued_event crash intents start).1

executed :
    ensure_and_execute ⦃u = ascii⦄ quiet executor queued_event crash intents start ≡ (ok tt, after)
unfolding ensure_and_execute create_all create_or_get query insert_action is_action_type text_eq
    list_by_event_id sort_by get_by_id process_all process_action mark_processing execute_one
    equal_fold choose_label needs_ai entry access_token attempt_limit idempotency_key is_permanent
    sanitize_err rule_names verdict decimal trim_space is mark_completed send
    get_encrypted_access_token decode_field
executed = refl

-- The label is set once.
called_once : length after.calls ≡ 1
unfolding ensure_and_execute create_all create_or_get query insert_action is_action_type text_eq
    list_by_event_id sort_by get_by_id process_all process_action mark_processing execute_one
    equal_fold choose_label needs_ai entry access_token attempt_limit idempotency_key is_permanent
    sanitize_err rule_names verdict decimal trim_space is mark_completed send
    get_encrypted_access_token decode_field
called_once = refl

ensure_and_execute-AllCompleted_example : AllCompleted 4 after.db
ensure_and_execute-AllCompleted_example =
    ensure_and_execute-AllCompleted ⦃u = ascii⦄ quiet executor queued_event crash intents start
      executed

process_one-AllCompleted_example :
    NotProcessed 4
      (process_one quiet
        (process ⦃u = ascii⦄ quiet (runner ⦃u = ascii⦄ quiet executor))
        (pos 10)
        start).1.db
    ⊎ AllCompleted 4
        (process_one quiet
          (process ⦃u = ascii⦄ quiet (runner ⦃u = ascii⦄ quiet executor))
          (pos 10)
          start).1.db
process_one-AllCompleted_example =
    process_one-AllCompleted ⦃u = ascii⦄ quiet executor (pos 10) 4 start (λ p q. cc, tt)

validated :
    validate ⦃u = ascii⦄ quiet queued_event start
    ≡ (ok tt, (validate ⦃u = ascii⦄ quiet queued_event start).1)
unfolding validate query get_by_id get_by_github_id text_eq equal_fold trim_space is_supported
    decode_envelope decode_field
validated = refl

validate-FromConnected_example :
    (is_empty (trim_space queued_event.delivery_id) ≡ false)
    × (is_supported queued_event.event_type ≡ true)
    × (is_valid queued_event.payload ≡ true)
    × FromConnected ⦃u = ascii⦄ queued_event with_event
validate-FromConnected_example =
    validate-FromConnected ⦃u = ascii⦄ quiet queued_event start validated

uuid_text_injective : (i j : ℕ) → uuid_text i ≡ uuid_text j → i ≡ j
uuid_text_injective i j p = cc

idempotency_key_injective_example :
    (queued_event.id ≡ queued_event.id)
    × (label_rule.id ≡ label_rule.id)
    × (label_rule.action_type ≡ label_rule.action_type)
idempotency_key_injective_example =
    idempotency_key_injective uuid_text (λ i. refl) uuid_text_injective queued_event.id
      queued_event.id label_rule.id label_rule.id label_rule.action_type label_rule.action_type refl

-- The action that the rule calls for, stored and not yet run.
abbrev stored : World
stored =
    (create_or_get quiet 4 3 (codes "github_label") label_rule.action_config (codes "k") (pos 3)
      start).1

created :
    create_or_get quiet 4 3
      (codes "github_label")
      label_rule.action_config
      (codes "k")
      (pos 3)
      start
    ≡ (ok (first_action, true), stored)
unfolding create_or_get query insert_action is_action_type text_eq
created = refl

create_or_get_row_example :
    (find (has_key (codes "k")) stored.db.actions ≡ some first_action)
    × (true ≡ not (any (has_key (codes "k")) with_event.actions))
create_or_get_row_example =
    create_or_get_row quiet 4 3 (codes "github_label") label_rule.action_config (codes "k") (pos 3)
      start first_action true stored created

create_or_get-KeysUnique_example :
    Keeps KeysUnique
      (create_or_get quiet 4 3 (codes "github_label") label_rule.action_config (codes "k") (pos 3))
create_or_get-KeysUnique_example =
    create_or_get-KeysUnique quiet 4 3 (codes "github_label") label_rule.action_config (codes "k")
      (pos 3)

execute_list-Assigned_example :
    ((execute_list ⦃u = ascii⦄ quiet executor queued_event crash intents
        (first_action ∷ [])
        start).1.calls
      ≡ [])
    ⊎ ((repo : Repository) × IsRepositoryOf ⦃u = ascii⦄ quiet executor queued_event with_event repo
        × Assigned
            (IsMadeFor ⦃u = ascii⦄ quiet executor repo queued_event crash intents none
              (tasks with_event))
            (first_action ∷ [])
            []
            (execute_list ⦃u = ascii⦄ quiet executor queued_event crash intents
              (first_action ∷ [])
              start).1.calls)
unfolding needs_ai entry text_eq
execute_list-Assigned_example =
    execute_list-Assigned ⦃u = ascii⦄ quiet executor queued_event crash intents (first_action ∷ [])
      start

abbrev suggested : Suggestion
suggested = record {
  summary = codes " It crashes. ";
  suggested_labels = codes "Bug" ∷ codes "evil" ∷ codes "bug" ∷ [];
  priority = codes "urgent";
}

abbrev allowed : Suggestion
allowed = record {
  summary = codes "It crashes.";
  suggested_labels = codes "bug" ∷ [];
  priority = codes "unknown";
}

suggested-allowed : validate_suggestion ⦃u = ascii⦄ suggested ≡ ok allowed
unfolding validate_suggestion text_eq trim_space
suggested-allowed = refl

validate_suggestion-AreAllowed_example :
    AreAllowed [] allowed.suggested_labels
    × (length allowed.suggested_labels ≤ 5)
    × (any (text_eq allowed.priority) allowed_priorities ≡ true)
validate_suggestion-AreAllowed_example =
    validate_suggestion-AreAllowed ⦃u = ascii⦄ suggested allowed suggested-allowed
