-- ===== src/Actions/Executor/Calls.antt =====
-- Which calls EnsureAndExecute (backend/internal/actions/executor.go) makes.
use gitactionflow.Base.{
  none, suc, ◌≡◌, refl, ◌∙◌, Option, some, List, ◌∷◌, Bool-cases, inl, inr, ◌⊎◌,
}
use gitactionflow.Base.Text.{Text, Unicode}
use gitactionflow.Errors.{Error, Result, ok, err}
use gitactionflow.Store.Rows.{Db, Action, WebhookEvent, Repository, action_is_processing}
use gitactionflow.Store.Exec.{Env, World, Call, Statement, query, attempt}
use gitactionflow.Store.Exec.Inversion.{Keeps, >>=-Keeps}
use gitactionflow.Store.Exec.Calls.{Silent, same-Silent, if-Silent, query-Silent, >>=-Silent}
use gitactionflow.Store.Actions
use gitactionflow.Store.Actions.Tasks.{
  Task, task_of, tasks, KeepsTasks, query-KeepsTasks, mark_completed-KeepsTasks,
  mark_failed_immediately-KeepsTasks, schedule_retry-KeepsTasks,
}
use gitactionflow.Rules.Engine.{EventContext, ActionIntent}
use gitactionflow.Events.Context.{retry_backoff}
use gitactionflow.Ai.{Suggestion}
use gitactionflow.Actions.Execute.{Executor, execute_one, is_permanent, sanitize_err}
use gitactionflow.Actions.Execute.Calls.{execute_one-OneCall}
use gitactionflow.Actions.Execute.Footprint.{if-Keeps, same-Keeps, execute_one-Keeps}
use gitactionflow.Actions.Executor.{
  record_failure, record_result, run_action, report, with_message, name_for,
}

with_message-KeepsTasks {ℓ} :
    {A : Type ℓ} (o : Option Text) (s : Text → Statement A)
    → ((msg : Text) → KeepsTasks (s msg))
    → KeepsTasks (with_message o s)
with_message-KeepsTasks none s k locked now db = refl
with_message-KeepsTasks (some msg) s k locked now db = k msg locked now db

module _ ⦃u : Unicode⦄ (env : Env) (x : Executor) where
  pub record_failure-Silent : (a : Action) (e : Error) → Silent (record_failure env x a e)
  unfolding record_failure
  record_failure-Silent a e =
      if-Silent (is_permanent e) _ _
        (>>=-Silent _ _
          (query-Silent env (with_message (sanitize_err e) (Actions.mark_failed_immediately a.id)))
          (λ _. same-Silent _))
        (>>=-Silent _ _
          (query-Silent env (
            with_message (sanitize_err e)
              (λ msg. Actions.schedule_retry a.id msg (retry_backoff (suc a.attempt_count)))))
          (λ _. same-Silent _))

  record_result-Silent : (a : Action) (r : Result (Unit {0})) → Silent (record_result env x a r)
  record_result-Silent a (ok _) =
      >>=-Silent _ _ (query-Silent env (Actions.mark_completed a.id)) (λ _. same-Silent _)
  record_result-Silent a (err e) = record_failure-Silent a e

  module _ (ts : List Task) where
    abbrev P : Db → Type 0
    P db = tasks db ≡ ts

    query-Keeps {ℓ} : {A : Type ℓ} (s : Statement A) → KeepsTasks s → Keeps P (query env s)
    query-Keeps s k = record { keep = λ w h. query-KeepsTasks env s ts k w h }

    record_failure-Keeps : (a : Action) (e : Error) → Keeps P (record_failure env x a e)
    unfolding record_failure
    record_failure-Keeps a e =
        if-Keeps P (is_permanent e) _ _
          (>>=-Keeps P _ _
            (query-Keeps _ (
              with_message-KeepsTasks (sanitize_err e) _ (mark_failed_immediately-KeepsTasks a.id)))
            (λ _. same-Keeps P _))
          (>>=-Keeps P _ _
            (query-Keeps _ (
              with_message-KeepsTasks (sanitize_err e) _
                (λ msg. schedule_retry-KeepsTasks a.id msg _)))
            (λ _. same-Keeps P _))

    record_result-Keeps : (a : Action) (r : Result (Unit {0})) → Keeps P (record_result env x a r)
    record_result-Keeps a (ok _) =
        >>=-Keeps P _ _ (query-Keeps _ (mark_completed-KeepsTasks a.id)) (λ _. same-Keeps P _)
    record_result-Keeps a (err e) = record_failure-Keeps a e

  module _ (repo : Repository) (ev : WebhookEvent) (ctx : EventContext)
      (intents : List ActionIntent) (s : Option Suggestion) where
    -- Executing an action with this task makes the call, in some world.
    abbrev pub IsCallOf : Task → Call → Type 0
    IsCallOf t c =
        (b : Action) × (w : World) × (task_of b ≡ t)
        × ((execute_one env x repo ev ctx b (name_for intents b.rule_id) s w).1.calls ≡ c ∷ w.calls)

    pub run_one :
        (a : Action) (w : World)
        → ((run_action env x repo ev ctx intents s a w).1.calls ≡ w.calls)
          ⊎ ((c : Call) × IsCallOf (task_of a) c
              × ((run_action env x repo ev ctx intents s a w).1.calls ≡ c ∷ w.calls))
    unfolding run_action
    run_one a w = elim (Bool-cases (action_is_processing a.status)) [
      | inr rests ↦ rw rests (inl refl)
      | inl live ↦
          let m = execute_one env x repo ev ctx a (name_for intents a.rule_id) s in
          let after = (record_result-Silent a (m w).0).same (m w).1 in
          rw live
            (elim ((execute_one-OneCall env x repo ev ctx a (name_for intents a.rule_id) s).made
              w) [
                | inl quiet ↦ inl (after ∙ quiet)
                | inr (c, one) ↦ inr (c, (a, w, refl, one), after ∙ one)
              ])
    ]

    pub run_action-Keeps :
        (ts : List Task) (a : Action) → Keeps (P ts) (run_action env x repo ev ctx intents s a)
    unfolding run_action
    run_action-Keeps ts a =
        if-Keeps (P ts) (action_is_processing a.status) _ _
          (>>=-Keeps (P ts)
            (attempt (execute_one env x repo ev ctx a (name_for intents a.rule_id) s)) _
            (record {
              keep = λ w h.
                  (execute_one-Keeps env x (P ts) repo ev ctx a (name_for intents a.rule_id) s).keep
                    w h;
            })
            (record_result-Keeps ts a))
          (same-Keeps (P ts) _)

  pub report-Silent : (ev : WebhookEvent) → Silent (report env x ev)
  unfolding report
  report-Silent ev =
      >>=-Silent _ _ (query-Silent env (Actions.list_by_event_id ev.id))
        (λ final. record { same = λ w. refl })
