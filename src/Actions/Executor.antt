-- ===== src/Actions/Executor.antt =====
-- backend/internal/actions/executor.go, EnsureAndExecute: persist the intents as actions, run those
-- that are ready, and report whether all are complete.
pub mod Complete
pub mod Keys
pub mod Footprint
pub mod Calls
pub mod Assigned
pub mod Outcome
use gitactionflow.Base.{
  ℕ, zero, suc, ◌+◌, Bool, true, false, ◌&&◌, ◌||◌, not, Option, none, some, List, [], ◌∷◌, ◌++◌,
  if◌then◌else◌, is_empty, ltb, leb, ◌==◌, option_or, count,
}
use gitactionflow.Base.Int.{ℤ, pos, is_le_zero}
use gitactionflow.Base.Text.{Text, codes, Unicode, decimal}
use gitactionflow.Errors.{
  Error, Result, ok, err, is, not_found, actions_failed, actions_incomplete, or_wrap,
}
use gitactionflow.Store.Rows.{
  Db, Action, ActionStatus, Repository, WebhookEvent, action_is_completed, action_is_failed,
  action_is_processing, action_is_pending,
}
use gitactionflow.Store.Common.{err_other}
use gitactionflow.Store.Exec.{Env, Exec, World, Statement, query, raise, pure, ◌>>=◌, ◌>>◌, attempt}
use gitactionflow.Store.Repositories
use gitactionflow.Store.Actions
use gitactionflow.Rules.Engine.{EventContext, ActionIntent}
use gitactionflow.Events.Context.{retry_backoff}
use gitactionflow.Ai.{Suggestion}
use gitactionflow.Actions.Execute.{
  Executor, is_permanent, sanitize_err, needs_ai, fetch_suggestion, execute_one,
}

-- IdempotencyKey
unfoldable pub idempotency_key : (ℕ → Text) → ℕ → ℕ → Text → Text
idempotency_key uuid_text event_id rule_id action_type =
    uuid_text event_id ++ (codes ":" ++ (uuid_text rule_id ++ (codes ":" ++ action_type)))

-- `if maxAttempts <= 0 { maxAttempts = 3 }`
unfoldable pub attempt_limit : Executor → ℤ
attempt_limit x = if is_le_zero x.max_attempts then pos 3 else x.max_attempts

-- The map from rule ids to rule names: of several intents of one rule the last counts.
unfoldable pub rule_names : List ActionIntent → ℕ → Option Text
rule_names [] id = none
rule_names (i ∷ is') id = elim (rule_names is' id) [
  | some n ↦ some n
  | none ↦ if i.rule_id == id then some i.rule_name else none
]

abbrev pub name_for : List ActionIntent → Option ℕ → Text
name_for intents none = []
name_for intents (some id) = option_or (rule_names intents id) [] (λ n. n)

-- A message that is not valid UTF-8 does not fit a TEXT column.
abbrev pub with_message {ℓ} : {A : Type ℓ} → Option Text → (Text → Statement A) → Statement A
with_message none s locked now db = (err err_other, db)
with_message (some msg) s locked now db = s msg locked now db

-- The counters of the final loop.
abbrev pub failed_count : List Action → ℕ
failed_count = count (λ a. action_is_failed a.status)

abbrev pub is_open : Action → Bool
is_open a = not (action_is_completed a.status || action_is_failed a.status)

abbrev pub pending_count : List Action → ℕ
pending_count = count is_open

-- What EnsureAndExecute returns for the actions as they are in the end.
unfoldable pub verdict : List Action → Result (Unit {0})
verdict final =
    if ltb 0 (failed_count final) && (pending_count final == 0)
    then err (record {
      kind = actions_failed;
      message =
          codes "required actions failed: " ++ decimal (failed_count final) ++ codes " failed";
    })
    else if ltb 0 (pending_count final)
    then err (record {
      kind = actions_incomplete;
      message = codes "actions incomplete: " ++ decimal (pending_count final) ++ codes " pending";
    })
    else ok tt

abbrev wrapping {ℓ} : {A : Type ℓ} → Text → Exec A → Exec A
wrapping prefix m w = let (r, w') = m w in (or_wrap prefix r, w')

abbrev is_later : Option ℕ → ℕ → Bool
is_later none now = false
is_later (some t) now = ltb now t

module _ ⦃u : Unicode⦄ (env : Env) (x : Executor) where
  -- The loop that persists the intents.
  unfoldable pub create_all : List ActionIntent → Exec (Unit {0})
  create_all [] w = (ok tt, w)
  create_all (i ∷ is') w =
      (wrapping (codes "persist action") (
            Actions.create_or_get env i.event_id i.rule_id i.action_type i.config
              (idempotency_key x.uuid_text i.event_id i.rule_id i.action_type) (attempt_limit x))
          >>= λ _. create_all is')
        w

  -- What the loop does with an action's error.
  unfoldable pub record_failure : Action → Error → Exec (Unit {0})
  record_failure a e =
      if is_permanent e
      then (query env (with_message (sanitize_err e) (Actions.mark_failed_immediately a.id))
          >>= λ _. pure tt)
      else (query env (
            with_message (sanitize_err e)
              (λ msg. Actions.schedule_retry a.id msg (retry_backoff (suc a.attempt_count))))
          >>= λ _. pure tt)

  abbrev record_result : Action → Result (Unit {0}) → Exec (Unit {0})
  record_result a (ok _) = query env (Actions.mark_completed a.id) >>= λ _. pure tt
  record_result a (err e) = record_failure a e

  module _ (repo : Repository) (ev : WebhookEvent) (ctx : EventContext)
      (intents : List ActionIntent) (s : Option Suggestion) where
    -- An action that is `processing`: make its call and record the result.
    unfoldable pub run_action : Action → Exec (Unit {0})
    unfolding record_failure
    run_action a =
        if action_is_processing a.status
        then (attempt (execute_one env x repo ev ctx a (name_for intents a.rule_id) s)
            >>= record_result a)
        else pure tt

    abbrev after_claim : Result Action → Exec (Unit {0})
    after_claim (ok a) w = run_action a w
    after_claim (err e) w = if is e not_found then (ok tt, w) else (err e, w)

    -- The body of the loop over the actions.
    unfoldable pub process_action : Action → Exec (Unit {0})
    unfolding run_action
    process_action a w =
        if action_is_completed a.status || action_is_failed a.status
        then (ok tt, w)
        else if action_is_pending a.status
        then (if is_later a.next_retry_at w.now
            then (ok tt, w)
            else (attempt (query env (Actions.mark_processing a.id)) >>= after_claim) w)
        else run_action a w

    unfoldable pub process_all : List Action → Exec (Unit {0})
    process_all [] w = (ok tt, w)
    process_all (a ∷ as') w = (process_action a >>= λ _. process_all as') w

  abbrev suggestion_for : EventContext → List Action → Option Suggestion
  suggestion_for ctx list = if needs_ai list then fetch_suggestion x ctx else none

  -- The end of EnsureAndExecute: list the actions again, and judge them.
  unfoldable pub report : WebhookEvent → Exec (Unit {0})
  report ev = query env (Actions.list_by_event_id ev.id) >>= λ final w. (verdict final, w)

  unfoldable pub run_list :
      WebhookEvent → EventContext → List ActionIntent → List Action → Repository → Exec (Unit {0})
  unfolding report
  run_list ev ctx intents list repo =
      process_all repo ev ctx intents (suggestion_for ctx list) list >>= λ _. report ev

  abbrev load_repository : WebhookEvent → Exec Repository
  load_repository ev =
      wrapping (codes "load repository") (query env (Repositories.get_by_id ev.repository_id))

  -- EnsureAndExecute, once the actions are listed.
  unfoldable pub execute_list :
      WebhookEvent → EventContext → List ActionIntent → List Action → Exec (Unit {0})
  unfolding run_list
  execute_list ev ctx intents [] = pure tt
  execute_list ev ctx intents (a ∷ as') = load_repository ev >>= run_list ev ctx intents (a ∷ as')

  unfoldable pub execute_listed : WebhookEvent → EventContext → List ActionIntent → Exec (Unit {0})
  unfolding execute_list
  execute_listed ev ctx intents =
      query env (Actions.list_by_event_id ev.id) >>= execute_list ev ctx intents

  -- EnsureAndExecute
  unfoldable pub ensure_and_execute :
      WebhookEvent → EventContext → List ActionIntent → Exec (Unit {0})
  unfolding execute_listed
  ensure_and_execute ev ctx intents = create_all intents >>= λ _. execute_listed ev ctx intents
