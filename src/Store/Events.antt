-- ===== src/Store/Events.antt =====
-- backend/internal/store/webhook_events.go: the webhook_events table as a queue.
pub mod Claim
pub mod History
pub mod Status
use gitactionflow.Base.{
  ℕ, zero, suc, ◌+◌, Bool, true, false, ◌&&◌, ◌||◌, not, Option, none, some, List, [], ◌∷◌, ◌++◌,
  ltb, leb, ◌==◌, if◌then◌else◌, find, filter, modify, any, sort_by, take, drop,
}
use gitactionflow.Base.Int.{ℤ, pos_part, is_le_zero}
use gitactionflow.Base.Text.{Text, codes, text_eq}
use gitactionflow.Errors.{Error, Result, ok, err, not_found, conflict, other}
use gitactionflow.Json.{Raw, is_valid}
use gitactionflow.Store.Rows.{Db, WebhookEvent, WebhookStatus, is_pending, is_processing}
use gitactionflow.Store.Common.{err_not_found, err_conflict, err_other, found, is_due, clamp_limit}
use gitactionflow.Store.Exec.{Env, Exec, Statement, query, raise}

-- `time.Minute` in microseconds.
abbrev pub minute : ℕ
minute = 60000000

new_event : ℕ → ℕ → ℕ → Text → Text → Text → Raw → ℕ → WebhookEvent
new_event id now repository_id delivery_id event_type action payload max_retries = record {
  id = id;
  repository_id = repository_id;
  delivery_id = delivery_id;
  event_type = event_type;
  action = action;
  payload = payload;
  status = WebhookStatus.pending;
  retry_count = 0;
  max_retries = max_retries;
  next_retry_at = none;
  last_error = none;
  locked_at = none;
  processed_at = none;
  failed_at = none;
  received_at = now;
  created_at = now;
  updated_at = now;
}

-- InsertPendingWithMaxRetries. A payload that is not JSON does not fit its JSONB column, a known
-- delivery id breaks the UNIQUE constraint, and an unknown repository the foreign key.
unfoldable pub insert_pending_with_max_retries :
    ℕ → Text → Text → Text → Raw → ℤ → Statement WebhookEvent
unfolding new_event
insert_pending_with_max_retries repository_id delivery_id event_type action payload max_retries
      locked now db =
    let e =
      new_event db.next_id now repository_id delivery_id event_type action payload
        (pos_part max_retries) in
    if not (is_valid payload)
    then (err err_other, db)
    else if any (λ (x : WebhookEvent). text_eq x.delivery_id delivery_id) db.events
    then (err err_conflict, db)
    else if any (λ r. r.id == repository_id) db.repositories
    then (ok e, record db { events = db.events ++ e ∷ []; next_id = suc db.next_id })
    else (err err_other, db)

-- InsertPending
unfoldable pub insert_pending : ℕ → Text → Text → Text → Raw → Statement WebhookEvent
unfolding insert_pending_with_max_retries
insert_pending repository_id delivery_id event_type action payload =
    insert_pending_with_max_retries repository_id delivery_id event_type action payload (ℤ.pos 3)

-- GetByDeliveryID
unfoldable pub get_by_delivery_id : Text → Statement WebhookEvent
get_by_delivery_id delivery_id locked now db =
    (found (find (λ e. text_eq e.delivery_id delivery_id) db.events), db)

-- GetByID
unfoldable pub get_by_id : ℕ → Statement WebhookEvent
get_by_id id locked now db = (found (find (λ e. e.id == id) db.events), db)

-- `locked_at IS NOT NULL AND locked_at < NOW() - lease`
abbrev pub is_stale : Option ℕ → ℕ → ℕ → Bool
is_stale none lease now = false
is_stale (some t) lease now = ltb (t + lease) now

-- The WHERE clause of the claim.
unfoldable pub is_claimable : ℕ → ℕ → WebhookEvent → Bool
is_claimable lease now e =
    (is_pending e.status && is_due e.next_retry_at now)
    || (is_processing e.status && is_stale e.locked_at lease now)

abbrev older : WebhookEvent → Option WebhookEvent → Option WebhookEvent
older e none = some e
older e (some d) = if leb e.created_at d.created_at then some e else some d

-- `ORDER BY created_at ASC LIMIT 1`, of the rows that pass the test.
unfoldable pub oldest : (WebhookEvent → Bool) → List WebhookEvent → Option WebhookEvent
oldest p [] = none
oldest p (e ∷ es) = let rest = oldest p es in if p e then older e rest else rest

-- `UPDATE webhook_events SET ... WHERE p RETURNING ...`, where at most one row passes the test.
abbrev update :
    (WebhookEvent → Bool) → (WebhookEvent → WebhookEvent) → Db → Result WebhookEvent × Db
update p set db = elim (find p db.events) [
  | none ↦ (err err_not_found, db)
  | some e ↦ (ok (set e), record db { events = modify p set db.events })
]

-- The three updates of the claim and of ScheduleRetry.
unfoldable pub set_failed : ℕ → ℕ → Text → WebhookEvent → WebhookEvent
set_failed now retry_count msg e = record e {
  status = WebhookStatus.failed;
  retry_count = retry_count;
  last_error = some msg;
  failed_at = some now;
  locked_at = none;
  next_retry_at = none;
  updated_at = now;
}

unfoldable pub set_claimed : ℕ → ℕ → Option Text → WebhookEvent → WebhookEvent
set_claimed now retry_count last_error e = record e {
  status = WebhookStatus.processing;
  locked_at = some now;
  retry_count = retry_count;
  last_error = last_error;
  next_retry_at = none;
  updated_at = now;
}

pub set_pending : ℕ → ℕ → Text → ℕ → WebhookEvent → WebhookEvent
set_pending now retry_count msg next e = record e {
  status = WebhookStatus.pending;
  retry_count = retry_count;
  last_error = some msg;
  next_retry_at = some next;
  locked_at = none;
  updated_at = now;
}

pub set_processed : ℕ → WebhookEvent → WebhookEvent
set_processed now e = record e {
  status = WebhookStatus.processed;
  processed_at = some now;
  locked_at = none;
  next_retry_at = none;
  last_error = none;
  updated_at = now;
}

abbrev pub stale_message : Text
stale_message = codes "reclaimed stale processing lease"

abbrev claimed_as : Result WebhookEvent × Db → Result (Option WebhookEvent) × Db
claimed_as (ok e, db) = (ok (some e), db)
claimed_as (err x, db) = (err x, db)

-- What claimOne does with the row that it selected.
claim_row : WebhookEvent → ℕ → Db → Result (Option WebhookEvent) × Db
unfolding set_failed set_claimed
claim_row e now db =
    if is_processing e.status
    then (if leb e.max_retries (suc e.retry_count)
        then (
          ok none,
          record db {
            events =
                modify (λ x. x.id == e.id) (set_failed now (suc e.retry_count) stale_message)
                  db.events;
          },
        )
        else claimed_as (
            update (λ x. x.id == e.id) (set_claimed now (suc e.retry_count) (some stale_message))
              db))
    else claimed_as (update (λ x. x.id == e.id) (set_claimed now e.retry_count e.last_error) db)

-- claimOne: `ok none` says that a stale event ran out of retries and was marked failed.
unfoldable pub claim_one : ℕ → Statement (Option WebhookEvent)
unfolding claim_row is_claimable oldest
claim_one lease locked now db =
    elim (oldest (λ e. is_claimable lease now e && not (locked e.id)) db.events) [
      | none ↦ (err err_not_found, db)
      | some e ↦ claim_row e now db
    ]

-- MarkProcessed
unfoldable pub mark_processed : ℕ → Statement WebhookEvent
unfolding set_processed
mark_processed id locked now db =
    update (λ e. (e.id == id) && is_processing e.status) (set_processed now) db

-- ScheduleRetry. The update has no test on the status.
unfoldable pub schedule_retry : ℕ → Text → ℤ → Statement WebhookEvent
unfolding set_failed set_pending
schedule_retry id msg backoff locked now db = elim (find (λ e. e.id == id) db.events) [
  | none ↦ (err err_not_found, db)
  | some e ↦
      if leb e.max_retries (suc e.retry_count)
      then update (λ x. x.id == id) (set_failed now (suc e.retry_count) msg) db
      else update (λ x. x.id == id)
          (set_pending now (suc e.retry_count) msg (now + pos_part backoff)) db
]

-- MarkFailedImmediately
unfoldable pub mark_failed_immediately : ℕ → Text → Statement WebhookEvent
unfolding set_failed
mark_failed_immediately id msg locked now db =
    update (λ e. (e.id == id) && is_processing e.status) (λ e. set_failed now e.retry_count msg e)
      db

abbrev pub newer : WebhookEvent → WebhookEvent → Bool
newer a b = ltb b.received_at a.received_at || ((a.received_at == b.received_at) && ltb b.id a.id)

-- ListRecentByRepository
unfoldable pub list_recent_by_repository : ℕ → ℤ → ℤ → Statement (List WebhookEvent)
list_recent_by_repository repository_id limit offset locked now db = (
  ok (
      take (clamp_limit limit) (
        drop (pos_part offset)
          (sort_by newer (filter (λ e. e.repository_id == repository_id) db.events)))),
  db,
)

module _ (env : Env) where
  claim_loop : ℕ → ℕ → Exec WebhookEvent
  claim_loop zero lease w = raise err_not_found w
  claim_loop (suc n) lease w =
      let (r, w') = query env (claim_one lease) w in
      elim r [ err x ↦ (err x, w') | ok none ↦ claim_loop n lease w' | ok (some e) ↦ (ok e, w') ]

  -- ClaimNext. A duration is in microseconds; one that is not positive means a minute.
  unfoldable pub claim_next : ℤ → Exec WebhookEvent
  unfolding claim_loop
  claim_next lease = claim_loop 32 (if is_le_zero lease then minute else pos_part lease)
