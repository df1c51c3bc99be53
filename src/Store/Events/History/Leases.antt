-- ===== src/Store/Events/History/Leases.antt =====
-- The leases and the times of webhook events, whatever the workers do.
use gitactionflow.Base.{
  ℕ, suc, ◌+◌, ◌≡◌, refl, Bool, true, ◌&&◌, not, Option, some, List, [], ◌∷◌, leb, ◌==◌, All,
  All-modify, All-append, any, find, is_some, Bool-cases, Option-cases, inl, inr,
}
use gitactionflow.Base.Int.{ℤ, pos_part}
use gitactionflow.Base.Text.{Text, text_eq}
use gitactionflow.Errors.{Result, ok, err}
use gitactionflow.Json.{Raw, is_valid}
use gitactionflow.Store.Rows.{Db, Repository, WebhookEvent, WebhookStatus, is_processing}
use gitactionflow.Store.Events.{
  update, insert_pending_with_max_retries, is_claimable, oldest, claim_row, claimed_as, claim_one,
  mark_processed, schedule_retry, mark_failed_immediately, set_claimed, set_failed, set_pending,
  set_processed, stale_message,
}
use gitactionflow.Store.Events.History.{
  Op, Entry, insert, claim, processed, retry, fail, step, apply, run,
}

-- The event has a lease exactly while it is being processed, and the time of its end once it is
-- processed or failed.
pub record Consistent (e : WebhookEvent) : Type 0 where
  pub lease : is_some e.locked_at ≡ is_processing e.status
  pub done : e.status ≡ WebhookStatus.processed → is_some e.processed_at ≡ true
  pub dead : e.status ≡ WebhookStatus.failed → is_some e.failed_at ≡ true

set_failed-Consistent :
    (now n : ℕ) (msg : Text) (e : WebhookEvent) → Consistent (set_failed now n msg e)
unfolding set_failed
set_failed-Consistent now n msg e = record {
  lease = refl;
  done = λ p. absurd (cc);
  dead = λ p. refl;
}

set_claimed-Consistent :
    (now n : ℕ) (msg : Option Text) (e : WebhookEvent) → Consistent (set_claimed now n msg e)
unfolding set_claimed
set_claimed-Consistent now n msg e = record {
  lease = refl;
  done = λ p. absurd (cc);
  dead = λ p. absurd (cc);
}

set_pending-Consistent :
    (now n : ℕ) (msg : Text) (next : ℕ) (e : WebhookEvent)
    → Consistent (set_pending now n msg next e)
unfolding set_pending
set_pending-Consistent now n msg next e = record {
  lease = refl;
  done = λ p. absurd (cc);
  dead = λ p. absurd (cc);
}

set_processed-Consistent : (now : ℕ) (e : WebhookEvent) → Consistent (set_processed now e)
unfolding set_processed
set_processed-Consistent now e = record { lease = refl; done = λ p. refl; dead = λ p. absurd (cc) }

abbrev pub AllConsistent : Db → Type 0
AllConsistent db = All Consistent db.events

update-Consistent :
    (p : WebhookEvent → Bool) (f : WebhookEvent → WebhookEvent)
    → ((e : WebhookEvent) → Consistent (f e))
    → (db : Db) → AllConsistent db
    → AllConsistent (update p f db).1
update-Consistent p f k db h = elim (Option-cases (find p db.events)) [
  | inl miss ↦ rw (miss, update) h
  | inr (e, hit) ↦ rw (hit, update) (All-modify Consistent p f (λ x q c. k x) db.events h)
]

claimed_as-Consistent :
    (r : Result WebhookEvent × Db) → AllConsistent r.1 → AllConsistent (claimed_as r).1
claimed_as-Consistent (ok e, db) h = h
claimed_as-Consistent (err x, db) h = h

module _ (db : Db) (h : AllConsistent db) where
  claim_row-Consistent : (e : WebhookEvent) (now : ℕ) → AllConsistent (claim_row e now db).1
  unfolding claim_row
  claim_row-Consistent e now = elim (Bool-cases (is_processing e.status)) [
    | inl live ↦ elim (Bool-cases (leb e.max_retries (suc e.retry_count))) [
      | inl out ↦
          rw (live, out)
            (All-modify Consistent (λ x. x.id == e.id)
              (set_failed now (suc e.retry_count) stale_message)
              (λ x q c. set_failed-Consistent now (suc e.retry_count) stale_message x) db.events h)
      | inr left ↦
          rw (live, left)
            (claimed_as-Consistent _ (
              update-Consistent (λ x. x.id == e.id)
                (set_claimed now (suc e.retry_count) (some stale_message))
                (set_claimed-Consistent now (suc e.retry_count) (some stale_message)) db h))
    ]
    | inr rests ↦ rw rests (
        claimed_as-Consistent _ (
          update-Consistent (λ x. x.id == e.id) (set_claimed now e.retry_count e.last_error)
            (set_claimed-Consistent now e.retry_count e.last_error) db h))
  ]

  claim_one-Consistent :
      (lease : ℕ) (locked : ℕ → Bool) (now : ℕ) → AllConsistent (claim_one lease locked now db).1
  unfolding claim_one
  claim_one-Consistent lease locked now =
      elim (Option-cases (oldest (λ e. is_claimable lease now e && not (locked e.id)) db.events)) [
        | inl e ↦ rw (e, claim_one) h
        | inr (e, p) ↦ rw (p, claim_one) (claim_row-Consistent e now)
      ]

  schedule_retry-Consistent :
      (id : ℕ) (msg : Text) (backoff : ℤ) (locked : ℕ → Bool) (now : ℕ)
      → AllConsistent (schedule_retry id msg backoff locked now db).1
  unfolding schedule_retry
  schedule_retry-Consistent id msg backoff locked now =
      elim (Option-cases (find (λ (e : WebhookEvent). e.id == id) db.events)) [
        | inl miss ↦ rw (miss, schedule_retry) h
        | inr (e, hit) ↦ elim (Bool-cases (leb e.max_retries (suc e.retry_count))) [
          | inl out ↦
              rw (hit, schedule_retry, out)
                (update-Consistent (λ x. x.id == id) (set_failed now (suc e.retry_count) msg)
                  (set_failed-Consistent now (suc e.retry_count) msg) db h)
          | inr left ↦
              rw (hit, schedule_retry, left)
                (update-Consistent (λ x. x.id == id)
                  (set_pending now (suc e.retry_count) msg (now + pos_part backoff))
                  (set_pending-Consistent now (suc e.retry_count) msg (now + pos_part backoff)) db
                  h)
        ]
      ]

  insert-Consistent :
      (r : ℕ) (d t a : Text) (p : Raw) (m : ℤ) (locked : ℕ → Bool) (now : ℕ)
      → AllConsistent (insert_pending_with_max_retries r d t a p m locked now db).1
  unfolding insert_pending_with_max_retries
  insert-Consistent r d t a p m locked now = elim (Bool-cases (not (is_valid p))) [
    | inl bad ↦ rw (bad, insert_pending_with_max_retries) h
    | inr good ↦ elim (Bool-cases (any (λ (x : WebhookEvent). text_eq x.delivery_id d) db.events)) [
      | inl known ↦ rw (good, known, insert_pending_with_max_retries) h
      | inr new ↦ elim (Bool-cases (any (λ (x : Repository). x.id == r) db.repositories)) [
        | inl repo ↦
            rw (good, new, repo, insert_pending_with_max_retries)
              (All-append Consistent db.events _ h
                (record { lease = refl; done = λ q. absurd (cc); dead = λ q. absurd (cc) }, tt))
        | inr no_repo ↦ rw (good, new, no_repo, insert_pending_with_max_retries) h
      ]
    ]
  ]

  mark_processed-Consistent :
      (id : ℕ) (locked : ℕ → Bool) (now : ℕ) → AllConsistent (mark_processed id locked now db).1
  unfolding mark_processed
  mark_processed-Consistent id locked now =
      update-Consistent (λ e. (e.id == id) && is_processing e.status) (set_processed now)
        (set_processed-Consistent now) db h

  mark_failed_immediately-Consistent :
      (id : ℕ) (msg : Text) (locked : ℕ → Bool) (now : ℕ)
      → AllConsistent (mark_failed_immediately id msg locked now db).1
  unfolding mark_failed_immediately
  mark_failed_immediately-Consistent id msg locked now =
      update-Consistent (λ e. (e.id == id) && is_processing e.status)
        (λ e. set_failed now e.retry_count msg e)
        (λ e. set_failed-Consistent now e.retry_count msg e) db h

  apply-Consistent : (o : Op) (locked : ℕ → Bool) (now : ℕ) → AllConsistent (apply o locked now db)
  unfolding apply
  apply-Consistent (insert r d t a p m) locked now = insert-Consistent r d t a p m locked now
  apply-Consistent (claim lease) locked now = claim_one-Consistent lease locked now
  apply-Consistent (processed id) locked now = mark_processed-Consistent id locked now
  apply-Consistent (retry id msg backoff) locked now =
      schedule_retry-Consistent id msg backoff locked now
  apply-Consistent (fail id msg) locked now = mark_failed_immediately-Consistent id msg locked now

-- In whatever order the statements of webhook handlers and workers run: if every event has a lease
-- exactly while it is `processing`, the time of processing once it is `processed`, and the time of
-- failure once it is `failed`, then this holds of every event afterwards.
pub run-Consistent : (xs : List Entry) (db : Db) → AllConsistent db → AllConsistent (run xs db)
unfolding run step
run-Consistent [] db h = h
run-Consistent (x ∷ xs) db h =
    run-Consistent xs (step x db) (apply-Consistent db h x.op x.locked x.now)
