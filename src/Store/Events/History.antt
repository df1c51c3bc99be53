-- ===== src/Store/Events/History.antt =====
-- Every order in which the webhook handlers and the workers of any number of processes can have
-- their statements on webhook_events executed: a list of statements, each with the time at which it
-- runs and the rows that other transactions hold locked.
pub mod Spent
pub mod Counted
pub mod Attempts
pub mod Leases
pub mod Life
pub mod Refines
pub mod Exhausted
use gitactionflow.Base.{
  ℕ, suc, ◌+◌, ◌≤◌, ◌<◌, ◌≡◌, refl, Bool, true, false, Option, none, some, List, [], ◌∷◌, arith,
  ◌==◌, if◌then◌else◌, All, inl, inr, ◌⊎◌,
}
use gitactionflow.Base.Int.{ℤ}
use gitactionflow.Base.Text.{Text}
use gitactionflow.Base.Table.{Distinct, Below}
use gitactionflow.Errors.{Result, ok, err}
use gitactionflow.Json.{Raw}
use gitactionflow.Store.Rows.{Db, WebhookEvent}
use gitactionflow.Store.Events.{
  insert_pending_with_max_retries, claim_one, mark_processed, schedule_retry,
  mark_failed_immediately,
}

pub data Op : Type 0 where
  insert : (repository_id : ℕ) (delivery_id event_type action : Text) → Raw → ℤ → Op
  claim : (lease : ℕ) → Op
  processed : (id : ℕ) → Op
  retry : (id : ℕ) (msg : Text) (backoff : ℤ) → Op
  fail : (id : ℕ) (msg : Text) → Op

pub record Entry : Type 0 where
  pub locked : ℕ → Bool
  pub now : ℕ
  pub op : Op

-- The database after a statement.
apply : Op → (ℕ → Bool) → ℕ → Db → Db
apply (insert r d t a p m) locked now db =
    (insert_pending_with_max_retries r d t a p m locked now db).1
apply (claim lease) locked now db = (claim_one lease locked now db).1
apply (processed id) locked now db = (mark_processed id locked now db).1
apply (retry id msg backoff) locked now db = (schedule_retry id msg backoff locked now db).1
apply (fail id msg) locked now db = (mark_failed_immediately id msg locked now db).1

unfoldable pub step : Entry → Db → Db
unfolding apply
step x db = apply x.op x.locked x.now db

unfoldable pub run : List Entry → Db → Db
run [] db = db
run (x ∷ xs) db = run xs (step x db)

abbrev is_event : ℕ → Result (Option WebhookEvent) → ℕ
is_event id (ok (some e)) = if e.id == id then 1 else 0
is_event id (ok none) = 0
is_event id (err x) = 0

hands_out_op : Op → (ℕ → Bool) → ℕ → ℕ → Db → ℕ
hands_out_op (claim lease) locked now id db = is_event id (claim_one lease locked now db).0
hands_out_op _ locked now id db = 0

-- 1 if the statement hands the event out for processing, and 0 otherwise.
pub hands_out : Entry → ℕ → Db → ℕ
unfolding hands_out_op
hands_out x id db = hands_out_op x.op x.locked x.now id db

-- How often the event is handed out for processing.
pub attempts : List Entry → ℕ → Db → ℕ
attempts [] id db = 0
attempts (x ∷ xs) id db = hands_out x id db + attempts xs id (step x db)
