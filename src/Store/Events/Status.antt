-- ===== src/Store/Events/Status.antt =====
-- Which statements of backend/internal/store/webhook_events.go make an event `processed`.
use gitactionflow.Base.{
  ℕ, zero, suc, ◌+◌, ◌≡◌, ◌≢◌, refl, Bool, true, false, ◌&&◌, not, Option, none, some, List, arith,
  leb, ◌==◌, All, All-modify, find, modify, Bool-cases, Option-cases, inl, inr, if◌then◌else◌,
}
use gitactionflow.Base.Int.{ℤ, pos_part, is_le_zero}
use gitactionflow.Base.Text.{Text}
use gitactionflow.Errors.{Result, ok, err}
use gitactionflow.Store.Rows.{Db, WebhookEvent, WebhookStatus, is_processing}
use gitactionflow.Store.Exec.{Env, World, query}
use gitactionflow.Store.Exec.Inversion.{query_keeps}
use gitactionflow.Store.Events.{
  update, set_failed, set_claimed, set_pending, set_processed, is_claimable, oldest, claim_row,
  claimed_as, claim_one, claim_loop, claim_next, mark_processed, mark_failed_immediately,
  schedule_retry, minute, stale_message,
}

-- The event with the id, if there is one, is not processed.
abbrev pub NotProcessed : ℕ → Db → Type 0
NotProcessed id db = All (λ e. (e.id == id) ≡ true → e.status ≢ WebhookStatus.processed) db.events

-- The update never writes `processed`.
abbrev Spares : (WebhookEvent → WebhookEvent) → Type 0
Spares f = (e : WebhookEvent) → (f e).status ≢ WebhookStatus.processed

module _ (id : ℕ) (f : WebhookEvent → WebhookEvent) (s : Spares f) (p : WebhookEvent → Bool) where
  modify_keeps :
      (es : List WebhookEvent)
      → All (λ e. (e.id == id) ≡ true → e.status ≢ WebhookStatus.processed) es
      → All (λ e. (e.id == id) ≡ true → e.status ≢ WebhookStatus.processed) (modify p f es)
  modify_keeps es h =
      All-modify (λ (e : WebhookEvent). (e.id == id) ≡ true → e.status ≢ WebhookStatus.processed) p
        f (λ e hit q same. s e) es h

  update_keeps : (db : Db) → NotProcessed id db → NotProcessed id (update p f db).1
  update_keeps db h = elim (Option-cases (find p db.events)) [
    | inl miss ↦ rw (miss, update) h
    | inr (e, hit) ↦ rw (hit, update) (modify_keeps db.events h)
  ]

set_failed-Spares : (now n : ℕ) (msg : Text) → Spares (set_failed now n msg)
unfolding set_failed
set_failed-Spares now n msg e p = cc

set_claimed-Spares : (now n : ℕ) (msg : Option Text) → Spares (set_claimed now n msg)
unfolding set_claimed
set_claimed-Spares now n msg e p = cc

set_pending-Spares : (now n : ℕ) (msg : Text) (next : ℕ) → Spares (set_pending now n msg next)
unfolding set_pending
set_pending-Spares now n msg next e p = cc

claimed_as_keeps :
    (id : ℕ) (r : Result WebhookEvent × Db) → NotProcessed id r.1 → NotProcessed id (claimed_as r).1
claimed_as_keeps id (ok e, db) h = h
claimed_as_keeps id (err x, db) h = h

claim_row_keeps :
    (id : ℕ) (e : WebhookEvent) (now : ℕ) (db : Db)
    → NotProcessed id db
    → NotProcessed id (claim_row e now db).1
unfolding claim_row
claim_row_keeps id e now db h = elim (Bool-cases (is_processing e.status)) [
  | inl live ↦ elim (Bool-cases (leb e.max_retries (suc e.retry_count))) [
    | inl out ↦
        rw (live, out)
          (modify_keeps id (set_failed now (suc e.retry_count) stale_message)
            (set_failed-Spares now (suc e.retry_count) stale_message) (λ x. x.id == e.id) db.events
            h)
    | inr left ↦
        rw (live, left)
          (claimed_as_keeps id _ (
            update_keeps id (set_claimed now (suc e.retry_count) (some stale_message))
              (set_claimed-Spares now (suc e.retry_count) (some stale_message)) (λ x. x.id == e.id)
              db h))
  ]
  | inr rests ↦ rw rests (
      claimed_as_keeps id _ (
        update_keeps id (set_claimed now e.retry_count e.last_error)
          (set_claimed-Spares now e.retry_count e.last_error) (λ x. x.id == e.id) db h))
]

claim_one_keeps :
    (id lease : ℕ) (locked : ℕ → Bool) (now : ℕ) (db : Db)
    → NotProcessed id db
    → NotProcessed id (claim_one lease locked now db).1
unfolding claim_one
claim_one_keeps id lease locked now db h =
    elim (Option-cases (oldest (λ e. is_claimable lease now e && not (locked e.id)) db.events)) [
      | inl e ↦ rw (e, claim_one) h
      | inr (e, p) ↦ rw (p, claim_one) (claim_row_keeps id e now db h)
    ]

module _ (env : Env) (id : ℕ) where
  claim_loop_keeps :
      (n lease : ℕ) (w : World)
      → NotProcessed id w.db
      → NotProcessed id (claim_loop env n lease w).1.db
  unfolding claim_loop
  claim_loop_keeps zero lease w h = h
  claim_loop_keeps (suc n) lease w h =
      go (λ w1 p. claim_loop_keeps n lease w1 p) (query env (claim_one lease) w).0
        (query env (claim_one lease) w).1
        (query_keeps env (claim_one lease) (NotProcessed id) (claim_one_keeps id lease) w h)
    where
      go :
          ((w1 : World) → NotProcessed id w1.db → NotProcessed id (claim_loop env n lease w1).1.db)
          → (r : Result (Option WebhookEvent)) (w1 : World) → NotProcessed id w1.db
          → NotProcessed id
              (elim r as (λ _. Result WebhookEvent × World) [
                | err x ↦ (err x, w1)
                | ok none ↦ claim_loop env n lease w1
                | ok (some e) ↦ (ok e, w1)
              ]).1.db
      go next (err x) w1 p = p
      go next (ok none) w1 p = next w1 p
      go next (ok (some e)) w1 p = p

  -- ClaimNext makes no event processed.
  pub claim_next_keeps :
      (lease : ℤ) (w : World) → NotProcessed id w.db → NotProcessed id (claim_next env lease w).1.db
  unfolding claim_next
  claim_next_keeps lease w h =
      claim_loop_keeps 32 (if is_le_zero lease then minute else pos_part lease) w h

pub schedule_retry_keeps :
    (id k : ℕ) (msg : Text) (backoff : ℤ) (locked : ℕ → Bool) (now : ℕ) (db : Db)
    → NotProcessed id db
    → NotProcessed id (schedule_retry k msg backoff locked now db).1
unfolding schedule_retry
schedule_retry_keeps id k msg backoff locked now db h =
    elim (Option-cases (find (λ (e : WebhookEvent). e.id == k) db.events)) [
      | inl miss ↦ rw (miss, schedule_retry) h
      | inr (e, hit) ↦ elim (Bool-cases (leb e.max_retries (suc e.retry_count))) [
        | inl out ↦
            rw (hit, schedule_retry, out)
              (update_keeps id (set_failed now (suc e.retry_count) msg)
                (set_failed-Spares now (suc e.retry_count) msg) (λ x. x.id == k) db h)
        | inr left ↦
            rw (hit, schedule_retry, left)
              (update_keeps id (set_pending now (suc e.retry_count) msg (now + pos_part backoff))
                (set_pending-Spares now (suc e.retry_count) msg (now + pos_part backoff))
                (λ x. x.id == k) db h)
      ]
    ]

pub mark_failed_immediately_keeps :
    (id k : ℕ) (msg : Text) (locked : ℕ → Bool) (now : ℕ) (db : Db)
    → NotProcessed id db
    → NotProcessed id (mark_failed_immediately k msg locked now db).1
unfolding mark_failed_immediately
mark_failed_immediately_keeps id k msg locked now db h =
    update_keeps id (λ e. set_failed now e.retry_count msg e)
      (λ e. set_failed-Spares now e.retry_count msg e) (λ e. (e.id == k) && is_processing e.status)
      db h

-- MarkProcessed leaves the other events.
pub mark_processed_keeps :
    (id k : ℕ)
    → (k == id) ≡ false
    → (locked : ℕ → Bool) (now : ℕ) (db : Db) → NotProcessed id db
    → NotProcessed id (mark_processed k locked now db).1
unfolding mark_processed set_processed
mark_processed_keeps id k apart locked now db h =
    elim (Option-cases
      (find (λ (e : WebhookEvent). (e.id == k) && is_processing e.status) db.events)) [
        | inl miss ↦ rw (miss, update) h
        | inr (e, hit) ↦
            rw (hit, update)
              (All-modify
                (λ (e : WebhookEvent). (e.id == id) ≡ true → e.status ≢ WebhookStatus.processed)
                (λ e. (e.id == k) && is_processing e.status) (set_processed now)
                (λ x p q same. absurd (ground arith)) db.events h)
      ]

-- MarkProcessed leaves the actions.
pub mark_processed-actions :
    (k : ℕ) (locked : ℕ → Bool) (now : ℕ) (db : Db)
    → (mark_processed k locked now db).1.actions ≡ db.actions
unfolding mark_processed
mark_processed-actions k locked now db =
    elim (Option-cases
      (find (λ (e : WebhookEvent). (e.id == k) && is_processing e.status) db.events)) [
        | inl miss ↦ rw (miss, update) refl
        | inr (e, hit) ↦ rw (hit, update) refl
      ]
