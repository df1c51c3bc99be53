-- ===== src/Events/Worker/Completes.antt =====
-- When a step of the worker (processOne in backend/internal/events/worker.go) makes an event
-- `processed`.
use gitactionflow.Base.{
  ℕ, suc, ◌≡◌, ◌≢◌, refl, sym, subst, ◌⊎◌, inl, inr, true, All, Bool-cases, ◌==◌, ==_iff,
}
use gitactionflow.Base.Int.{ℤ}
use gitactionflow.Base.Text.{Unicode}
use gitactionflow.Errors.{Error, Result, ok, err}
use gitactionflow.Store.Rows.{Db, WebhookEvent, WebhookStatus}
use gitactionflow.Store.Exec.{Env, World, lift}
use gitactionflow.Store.Exec.Inversion.{>>=-eq-ok, query_keeps}
use gitactionflow.Store.Events.{claim_next, mark_processed, mark_failed_immediately, schedule_retry}
use gitactionflow.Store.Events.Status.{
  NotProcessed, claim_next_keeps, schedule_retry_keeps, mark_failed_immediately_keeps,
  mark_processed_keeps, mark_processed-actions,
}
use gitactionflow.Rules.Engine.{evaluate}
use gitactionflow.Events.Context.{extract_event_context, is_permanent, retry_backoff}
use gitactionflow.Events.Processor.{Runner, validate, process, load_rules}
use gitactionflow.Events.Processor.Footprint.{process-Keeps}
use gitactionflow.Events.Worker.{handle_failure, finish, work_on, process_one}
use gitactionflow.Actions.Execute.{Executor}
use gitactionflow.Actions.Executor.{ensure_and_execute}
use gitactionflow.Actions.Executor.Complete.{AllCompleted, ensure_and_execute-AllCompleted}
use gitactionflow.Actions.Executor.Footprint.{ensure_and_execute-Keeps}

module _ ⦃u : Unicode⦄ (env : Env) (x : Executor) where
  -- The executor as the pipeline's ActionRunner.
  abbrev pub runner : Runner
  runner ev ctx intents = ensure_and_execute env x ev ctx intents

  process-AllCompleted :
      (ev : WebhookEvent) (w : World) {w' : World}
      → process env runner ev w ≡ (ok tt, w')
      → AllCompleted ev.id w'.db
  unfolding process
  process-AllCompleted ev w e =
      let (u0, e0, f0) = >>=-eq-ok (validate env ev) _ w e in
      let (ctx, e1, f1) = >>=-eq-ok (lift (extract_event_context ev)) _ _ f0 in
      let (rules, e2, f2) =
        >>=-eq-ok (load_rules env ev.repository_id) (λ rules. runner ev ctx (evaluate rules ctx))
          (validate env ev w).1 f1 in
      ensure_and_execute-AllCompleted env x ev ctx (evaluate rules ctx)
        (load_rules env ev.repository_id (validate env ev w).1).1 f2

module _ ⦃u : Unicode⦄ (env : Env) (x : Executor) (id : ℕ) where
  -- What a step of the worker leaves behind.
  abbrev Outcome : Db → Type 0
  Outcome db = NotProcessed id db ⊎ AllCompleted id db

  handle_failure_keeps :
      (ev : WebhookEvent) (e : Error) (w : World)
      → NotProcessed id w.db
      → NotProcessed id (handle_failure env (process env (runner env x)) ev e w).db
  unfolding handle_failure
  handle_failure_keeps ev e w h = elim (Bool-cases (is_permanent e)) [
    | inl permanent ↦ rw permanent (
        query_keeps env (mark_failed_immediately ev.id e.message) (NotProcessed id)
          (mark_failed_immediately_keeps id ev.id e.message) w h)
    | inr transient ↦ rw transient (
        query_keeps env (schedule_retry ev.id e.message (retry_backoff (suc ev.retry_count)))
          (NotProcessed id)
          (schedule_retry_keeps id ev.id e.message (retry_backoff (suc ev.retry_count))) w h)
  ]

  finish-Outcome :
      (ev : WebhookEvent) (r : Result (Unit {0})) (w : World)
      → (r ≡ ok tt → AllCompleted ev.id w.db)
      → NotProcessed id w.db
      → Outcome (finish env (process env (runner env x)) ev r w).db
  unfolding finish
  finish-Outcome ev (err e) w c h = inl (handle_failure_keeps ev e w h)
  finish-Outcome ev (ok _) w c h = elim (Bool-cases (ev.id == id)) [
    | inl same ↦ inr (
        query_keeps env (mark_processed ev.id) (AllCompleted id)
          (λ locked now db q. rw (mark_processed-actions ev.id locked now db) q) w
          (subst (λ k. AllCompleted k w.db) ((==_iff ev.id id).0 same) (c refl)))
    | inr other ↦ inl (
        query_keeps env (mark_processed ev.id) (NotProcessed id)
          (mark_processed_keeps id ev.id other) w h)
  ]

  work_on-Outcome :
      (r : Result WebhookEvent) (w : World)
      → NotProcessed id w.db
      → Outcome (work_on env (process env (runner env x)) r w).1.db
  work_on-Outcome (err e) w h = inl h
  work_on-Outcome (ok ev) w h =
      finish-Outcome ev (process env (runner env x) ev w).0 (process env (runner env x) ev w).1
        (λ p. process-AllCompleted env x ev w (λ i. (p i, (process env (runner env x) ev w).1)))
        (subst
          (λ es.
            All (λ (e : WebhookEvent). (e.id == id) ≡ true → e.status ≢ WebhookStatus.processed) es)
          (sym (
            (process-Keeps env (λ db. db.events ≡ w.db.events) (runner env x)
                (λ ev ctx intents. ensure_and_execute-Keeps env x w.db.events ev ctx intents)
                ev).keep
              w refl))
          h)

-- One step of a worker, with the executor as its runner, makes no event `processed` of which some
-- action is not completed: if an event is not processed before the step, then after it the event is
-- not processed, or all its actions are completed. This holds whatever fails on the way.
pub process_one-AllCompleted :
    ⦃u : Unicode⦄ (env : Env) (x : Executor) (lease : ℤ) (id : ℕ) (w : World)
    → NotProcessed id w.db
    → let db = (process_one env (process env (runner env x)) lease w).1.db in
      NotProcessed id db ⊎ AllCompleted id db
unfolding process_one
process_one-AllCompleted env x lease id w h =
    work_on-Outcome env x id (claim_next env lease w).0 (claim_next env lease w).1
      (claim_next_keeps env id lease w h)
