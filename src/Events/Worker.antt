-- ===== src/Events/Worker.antt =====
-- backend/internal/events/worker.go: claim an event, process it, and record the outcome.
pub mod Completes
use gitactionflow.Base.{ℕ, zero, suc, Bool, true, false, if◌then◌else◌}
use gitactionflow.Base.Int.{ℤ, is_le_zero, pos_part}
use gitactionflow.Base.Text.{Unicode}
use gitactionflow.Errors.{Error, Result, ok, err}
use gitactionflow.Store.Rows.{WebhookEvent}
use gitactionflow.Store.Exec.{Env, World, Exec, query}
use gitactionflow.Store.Events.{claim_next, mark_processed, mark_failed_immediately, schedule_retry}
use gitactionflow.Events.Context.{is_permanent, retry_backoff}

module _ (env : Env) (process : WebhookEvent → Exec (Unit {0})) where
  -- handleFailure. An error of the queue is only logged.
  unfoldable pub handle_failure : WebhookEvent → Error → World → World
  handle_failure ev e w =
      if is_permanent e
      then (query env (mark_failed_immediately ev.id e.message) w).1
      else (query env (schedule_retry ev.id e.message (retry_backoff (suc ev.retry_count))) w).1

  -- What processOne does after Pipeline.Process.
  unfoldable pub finish : WebhookEvent → Result (Unit {0}) → World → World
  unfolding handle_failure
  finish ev (ok _) w = (query env (mark_processed ev.id) w).1
  finish ev (err e) w = handle_failure ev e w

  abbrev work_on : Result WebhookEvent → World → Bool × World
  work_on (err e) w = (false, w)
  work_on (ok ev) w = let (r, w') = process ev w in (true, finish ev r w')

  -- processOne: whether there was an event to process.
  unfoldable pub process_one : ℤ → World → Bool × World
  unfolding finish
  process_one lease w = let (r, w') = claim_next env lease w in work_on r w'

  drain_loop : ℕ → ℤ → (World → Bool) → World → World
  drain_loop zero lease cancelled w = w
  drain_loop (suc n) lease cancelled w = elim (cancelled w) [
    | true ↦ w
    | false ↦
        let (more, w') = process_one lease w in
        elim more [ true ↦ drain_loop n lease cancelled w' | false ↦ w' ]
  ]

  -- drain: at most MaxPerTick events, or 10 if that is not positive.
  unfoldable pub drain : ℤ → ℤ → (World → Bool) → World → World
  unfolding drain_loop
  drain max_per_tick lease cancelled w =
      drain_loop (if is_le_zero max_per_tick then 10 else pos_part max_per_tick) lease cancelled w
