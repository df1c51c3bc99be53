-- ===== src/Store/Events/History/Spent.antt =====
-- A webhook event and how often it has been handed out for processing.
use Prim.Native.Nat.{max}
use gitactionflow.Base.{ℕ, suc, ◌+◌, ◌≤◌, ◌<◌, ◌≡◌, true, false, Option, arith, ◌⊎◌, leb}
use gitactionflow.Base.Text.{Text}
use gitactionflow.Store.Rows.{WebhookEvent, is_pending, is_processing}
use gitactionflow.Store.Events.{set_claimed, set_failed, set_pending, set_processed}

-- The number of times that an event may be processed: `max_retries`, and once if that is 0.
abbrev pub budget : WebhookEvent → ℕ
budget e = max 1 e.max_retries

-- What holds of an event that has been handed out `k` times.
pub record Spent (k : ℕ) (e : WebhookEvent) : Type 0 where
  pub waiting : is_pending e.status ≡ true → k ≤ e.retry_count
  pub held : k ≤ suc e.retry_count
  pub within : k ≤ budget e
  pub live :
      (is_pending e.status ≡ true) ⊎ (is_processing e.status ≡ true)
      → (e.retry_count < e.max_retries) ⊎ (e.retry_count ≡ 0)

module _ (k now : ℕ) (e : WebhookEvent) (s : Spent k e) where
  pub Spent-failed : (rc : ℕ) (msg : Text) → e.retry_count ≤ rc → Spent k (set_failed now rc msg e)
  unfolding set_failed
  Spent-failed rc msg h = ground arith

  pub Spent-processed : Spent k (set_processed now e)
  unfolding set_processed
  Spent-processed = ground arith

  pub Spent-pending :
      (msg : Text) (next : ℕ)
      → leb e.max_retries (suc e.retry_count) ≡ false
      → Spent k (set_pending now (suc e.retry_count) msg next e)
  unfolding set_pending
  Spent-pending msg next h = ground arith

  pub Spent-taken :
      is_pending e.status ≡ true → Spent (1 + k) (set_claimed now e.retry_count e.last_error e)
  unfolding set_claimed
  Spent-taken h = ground arith

  pub Spent-reclaimed :
      (msg : Option Text)
      → is_processing e.status ≡ true
      → leb e.max_retries (suc e.retry_count) ≡ false
      → Spent (1 + k) (set_claimed now (suc e.retry_count) msg e)
  unfolding set_claimed
  Spent-reclaimed msg h l = ground arith
