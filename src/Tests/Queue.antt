-- ===== src/Tests/Queue.antt =====
-- Runs of the queue of webhook events.
use mathlib.Core.List.{Memᴰ}
use gitactionflow.Base.{arith, ℕ, ◌≤◌, ◌≡◌, refl, false, none, some, List, [], ◌∷◌, All}
use gitactionflow.Base.Int.{pos}
use gitactionflow.Base.Text.{codes}
use gitactionflow.Store.Rows.{WebhookEvent, WebhookStatus}
use gitactionflow.Store.Events.{
  insert_pending_with_max_retries, schedule_retry, claim_one, set_claimed,
}
use gitactionflow.Store.Events.Claim.{IsClaimOf, IsFree, claim_one_oldest}
use gitactionflow.Store.Events.History.{
  Op, Entry, insert, claim, retry, processed, attempts, run, step,
}
use gitactionflow.Store.Events.History.Spent.{budget}
use gitactionflow.Store.Events.History.Attempts.{attempts-le-budget}
use gitactionflow.Store.Events.History.Life.{Moves, phase_in}
use gitactionflow.Store.Events.History.Refines.{run-Refines}
use gitactionflow.Store.Events.History.Exhausted.{run-Exhausted, reschedulings, reschedules}
use gitactionflow.Store.Events.History.Leases.{AllConsistent, run-Consistent}
use gitactionflow.Tests.Samples.{connected, with_event, payload, queued_event}

abbrev at : ℕ → Op → Entry
at t o = record { locked = λ id. false; now = t; op = o }

-- A delivery, a claim that is retried, a claim whose lease goes stale, and a claim that is processed.
abbrev history : List Entry
history =
    at 1 (insert 1 (codes "d1") (codes "issues") [] payload (pos 3))
    ∷ at 2 (claim 10)
    ∷ at 3 (retry 5 (codes "down") (pos 10))
    ∷ at 20 (claim 10)
    ∷ at 40 (claim 10)
    ∷ at 41 (processed 5)
    ∷ []

attempts-le-budget_example :
    All (λ e. attempts history e.id connected ≤ budget e) (run history connected).events
attempts-le-budget_example = attempts-le-budget history connected refl

claim_one_oldest_example :
    (d : WebhookEvent) × Memᴰ d with_event.events
    × IsClaimOf d (set_claimed 7 0 none queued_event)
    × IsFree 10 7 d
    × (false ≡ false)
    × All
        (λ x. IsFree 10 7 x → false ≡ false → queued_event.created_at ≤ x.created_at)
        with_event.events
unfolding claim_one set_claimed
claim_one_oldest_example =
    claim_one_oldest 10 (λ id. false) 7 with_event (set_claimed 7 0 none queued_event) (tt, tt) refl

run-Consistent_example : AllConsistent (run history with_event)
run-Consistent_example =
    run-Consistent history with_event
      (record { lease = refl; done = λ p. absurd (cc); dead = λ p. absurd (cc) }, tt)

-- The delivery alone, and what comes after it.
abbrev delivered : List Entry
delivered = at 1 (insert 1 (codes "d1") (codes "issues") [] payload (pos 3)) ∷ []

abbrev worked : List Entry
worked = at 2 (claim 10) ∷ at 3 (retry 5 (codes "down") (pos 10)) ∷ at 20 (claim 10) ∷ []

run-Refines_example :
    Moves (phase_in 5 (run delivered connected)) (phase_in 5 (run worked (run delivered connected)))
run-Refines_example = run-Refines 5 delivered worked connected refl

-- A delivery with two retries, and a call that fails twice.
abbrev failing : List Entry
failing =
    at 1 (insert 1 (codes "d1") (codes "issues") [] payload (pos 2))
    ∷ at 2 (claim 10)
    ∷ at 3 (retry 5 (codes "down") (pos 10))
    ∷ at 20 (claim 10)
    ∷ at 21 (retry 5 (codes "down") (pos 10))
    ∷ []

abbrev failed_event : WebhookEvent
failed_event = record {
  id = 5;
  repository_id = 1;
  delivery_id = codes "d1";
  event_type = codes "issues";
  action = [];
  payload = payload;
  status = WebhookStatus.failed;
  retry_count = 2;
  max_retries = 2;
  next_retry_at = none;
  last_error = some (codes "down");
  locked_at = none;
  processed_at = none;
  failed_at = some 21;
  received_at = 1;
  created_at = 1;
  updated_at = 21;
}

run-Exhausted_example : failed_event.status ≡ WebhookStatus.failed
unfolding run step reschedulings reschedules insert_pending_with_max_retries claim_one
    schedule_retry
run-Exhausted_example = run-Exhausted 5 failing connected failed_event refl refl (omega arith)
