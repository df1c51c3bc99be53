-- ===== src/Actions/Executor/Footprint.antt =====
-- What EnsureAndExecute (backend/internal/actions/executor.go) leaves as it is: the events.
use gitactionflow.Base.{ℕ, ◌≡◌, refl, ◌||◌, Option, none, some, List, [], ◌∷◌, Bool-cases, inl, inr}
use gitactionflow.Base.Text.{Text, Unicode}
use gitactionflow.Errors.{Error, Result, ok, err, is, not_found}
use gitactionflow.Store.Rows.{
  Db, Action, WebhookEvent, Repository, action_is_completed, action_is_failed, action_is_pending,
  action_is_processing,
}
use gitactionflow.Store.Exec.{Env, World, Statement, query, attempt}
use gitactionflow.Store.Exec.Inversion.{Keeps, >>=-Keeps}
use gitactionflow.Store.Actions
use gitactionflow.Store.Actions.Footprint.{
  KeepsEvents, query-KeepsEvents, create_or_get-Keeps, mark_processing-KeepsEvents,
  mark_completed-KeepsEvents, mark_failed_immediately-KeepsEvents, schedule_retry-KeepsEvents,
}
use gitactionflow.Store.Repositories
use gitactionflow.Rules.Engine.{EventContext, ActionIntent}
use gitactionflow.Ai.{Suggestion}
use gitactionflow.Actions.Execute.{Executor, execute_one, is_permanent, sanitize_err}
use gitactionflow.Actions.Execute.Footprint.{if-Keeps, same-Keeps, execute_one-Keeps}
use gitactionflow.Actions.Executor.{
  create_all, record_failure, record_result, run_action, after_claim, process_action, process_all,
  report, run_list, load_repository, execute_list, execute_listed, ensure_and_execute, with_message,
  suggestion_for, name_for, is_later, idempotency_key, attempt_limit,
}

with_message-KeepsEvents {ℓ} :
    {A : Type ℓ} (o : Option Text) (s : Text → Statement A)
    → ((msg : Text) → KeepsEvents (s msg))
    → KeepsEvents (with_message o s)
with_message-KeepsEvents none s k locked now db = refl
with_message-KeepsEvents (some msg) s k locked now db = k msg locked now db

module _ ⦃u : Unicode⦄ (env : Env) (x : Executor) (base : List WebhookEvent) where
  abbrev P : Db → Type 0
  P db = db.events ≡ base

  create_all-Keeps : (is' : List ActionIntent) → Keeps P (create_all env x is')
  unfolding create_all
  create_all-Keeps [] = same-Keeps P _
  create_all-Keeps (i ∷ is') =
      >>=-Keeps P _ _
        (record {
          keep =
              (create_or_get-Keeps env base i.event_id i.rule_id i.action_type i.config
                (idempotency_key x.uuid_text i.event_id i.rule_id i.action_type)
                (attempt_limit x)).keep;
        })
        (λ _. create_all-Keeps is')

  record_failure-Keeps : (a : Action) (e : Error) → Keeps P (record_failure env x a e)
  unfolding record_failure
  record_failure-Keeps a e =
      if-Keeps P (is_permanent e) _ _
        (>>=-Keeps P _ _
          (query-KeepsEvents env base _ (
            with_message-KeepsEvents (sanitize_err e) _ (mark_failed_immediately-KeepsEvents a.id)))
          (λ _. same-Keeps P _))
        (>>=-Keeps P _ _
          (query-KeepsEvents env base _ (
            with_message-KeepsEvents (sanitize_err e) _
              (λ msg. schedule_retry-KeepsEvents a.id msg _)))
          (λ _. same-Keeps P _))

  record_result-Keeps : (a : Action) (r : Result (Unit {0})) → Keeps P (record_result env x a r)
  record_result-Keeps a (ok _) =
      >>=-Keeps P _ _ (query-KeepsEvents env base _ (mark_completed-KeepsEvents a.id))
        (λ _. same-Keeps P _)
  record_result-Keeps a (err e) = record_failure-Keeps a e

  module _ (repo : Repository) (ev : WebhookEvent) (ctx : EventContext)
      (intents : List ActionIntent) (s : Option Suggestion) where
    run_action-Keeps : (a : Action) → Keeps P (run_action env x repo ev ctx intents s a)
    unfolding run_action
    run_action-Keeps a =
        if-Keeps P (action_is_processing a.status) _ _
          (>>=-Keeps P (attempt (execute_one env x repo ev ctx a (name_for intents a.rule_id) s)) _
            (record {
              keep = λ w h.
                  (execute_one-Keeps env x P repo ev ctx a (name_for intents a.rule_id) s).keep w h;
            })
            (record_result-Keeps a))
          (same-Keeps P _)

    after_claim_keeps :
        (r : Result Action) (w : World)
        → P w.db
        → P (after_claim env x repo ev ctx intents s r w).1.db
    after_claim_keeps (ok a) w h = (run_action-Keeps a).keep w h
    after_claim_keeps (err e) w h = elim (Bool-cases (is e not_found)) [
      | inl p ↦ rw p h
      | inr p ↦ rw p h
    ]

    process_action-Keeps : (a : Action) → Keeps P (process_action env x repo ev ctx intents s a)
    unfolding process_action
    process_action-Keeps a = record { keep = go }
      where
        go : (w : World) → P w.db → P (process_action env x repo ev ctx intents s a w).1.db
        go w h = elim (Bool-cases (action_is_completed a.status || action_is_failed a.status)) [
          | inl done ↦ rw done h
          | inr live ↦ elim (Bool-cases (action_is_pending a.status)) [
            | inr started ↦ rw (live, started) ((run_action-Keeps a).keep w h)
            | inl waits ↦ elim (Bool-cases (is_later a.next_retry_at w.now)) [
              | inl later ↦ rw (live, waits, later) h
              | inr due ↦
                  rw (live, waits, due)
                    (after_claim_keeps _ _
                      ((query-KeepsEvents env base _ (mark_processing-KeepsEvents a.id)).keep w h))
            ]
          ]
        ]

    process_all-Keeps : (as' : List Action) → Keeps P (process_all env x repo ev ctx intents s as')
    unfolding process_all
    process_all-Keeps [] = same-Keeps P _
    process_all-Keeps (a ∷ as') =
        >>=-Keeps P _ _ (process_action-Keeps a) (λ _. process_all-Keeps as')

  list-Keeps : (id : ℕ) → Keeps P (query env (Actions.list_by_event_id id))
  unfolding Actions.list_by_event_id
  list-Keeps id = query-KeepsEvents env base (Actions.list_by_event_id id) (λ locked now db. refl)

  report-Keeps : (ev : WebhookEvent) → Keeps P (report env x ev)
  unfolding report
  report-Keeps ev = >>=-Keeps P _ _ (list-Keeps ev.id) (λ final. same-Keeps P _)

  load_repository-Keeps : (ev : WebhookEvent) → Keeps P (load_repository env x ev)
  unfolding Repositories.get_by_id
  load_repository-Keeps ev = record {
    keep =
        (query-KeepsEvents env base (Repositories.get_by_id ev.repository_id)
          (λ locked now db. refl)).keep;
  }

  module _ (ev : WebhookEvent) (ctx : EventContext) (intents : List ActionIntent) where
    execute_list-Keeps : (list : List Action) → Keeps P (execute_list env x ev ctx intents list)
    unfolding execute_list run_list
    execute_list-Keeps [] = same-Keeps P _
    execute_list-Keeps (a ∷ as') =
        >>=-Keeps P (load_repository env x ev) _ (load_repository-Keeps ev) (λ repo.
          >>=-Keeps P _ _
            (process_all-Keeps repo ev ctx intents (suggestion_for env x ctx (a ∷ as')) (a ∷ as'))
            (λ _. report-Keeps ev))

    -- EnsureAndExecute leaves the events as they are, whether it succeeds or fails.
    pub ensure_and_execute-Keeps : Keeps P (ensure_and_execute env x ev ctx intents)
    unfolding ensure_and_execute execute_listed
    ensure_and_execute-Keeps =
        >>=-Keeps P _ _ (create_all-Keeps intents)
          (λ _. >>=-Keeps P _ _ (list-Keeps ev.id) (λ list. execute_list-Keeps list))
