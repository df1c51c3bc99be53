-- ===== src/Http/RateLimit.antt =====
-- backend/internal/http/middleware/ratelimit.go: one bucket of tokens for each client. float64 is an
-- abstract type with the operations that the code uses; a duration is in microseconds.
pub mod Burst
use gitactionflow.Base.{
  ℕ, ◌-◌, ◌+◌, Bool, true, false, not, Option, none, some, if◌then◌else◌, ltb, leb, option_or,
}
use gitactionflow.Base.Int.{ℤ, is_le_zero, pos, pos_part}
use gitactionflow.Base.Text.{Text, codes, text_eq}
use gitactionflow.Store.Exec.{World}
use gitactionflow.Http.Reply.{Reply, Handling, json_error}

-- The operations on float64; `seconds` is Duration.Seconds.
pub record Float {ℓ} (F : Type ℓ) : Type ℓ where
  pub of_int : ℕ → F
  pub seconds : ℕ → F
  pub add : F → F → F
  pub sub : F → F → F
  pub div : F → F → F
  pub gt : F → F → Bool
  pub lt : F → F → Bool

pub record Visitor {ℓ} (F : Type ℓ) : Type ℓ where
  pub tokens : F
  pub last : ℕ
  pub last_seen : ℕ

-- RateLimiter. A rate is positive and a burst at least 1 (NewRateLimiter).
pub record RateLimiter {ℓ} (F : Type ℓ) : Type ℓ where
  pub visitors : Text → Option (Visitor F)
  pub rate : ℕ
  pub burst : ℕ

-- `visitors[key] = v`
abbrev pub put {ℓ} : {F : Type ℓ} → Text → Visitor F → RateLimiter F → RateLimiter F
put key v rl = record rl { visitors = λ k. if text_eq key k then some v else rl.visitors k }

module _ {ℓ} {F : Type ℓ} where
  -- NewRateLimiter
  unfoldable pub new_rate_limiter : ℤ → ℤ → RateLimiter F
  new_rate_limiter rate burst = record {
    visitors = λ k. none;
    rate = if is_le_zero rate then 1000000 else pos_part rate;
    burst = if is_le_zero burst then 1 else pos_part burst;
  }

  abbrev fresh_only : ℕ → Option (Visitor F) → Option (Visitor F)
  fresh_only cutoff none = none
  fresh_only cutoff (some v) = if ltb v.last_seen cutoff then none else some v

  -- One round of cleanup: visitors that were not seen for ten minutes are forgotten.
  unfoldable pub clean : ℕ → RateLimiter F → RateLimiter F
  clean now rl = record rl { visitors = λ k. fresh_only (now - 600000000) (rl.visitors k) }

module _ {ℓ} {F : Type ℓ} ⦃f : Float F⦄ where
  -- The tokens after the time since the last request, and no more than the burst.
  abbrev pub refilled : RateLimiter F → ℕ → Visitor F → F
  refilled rl now v =
      let tokens = f.add v.tokens (f.div (f.seconds (now - v.last)) (f.seconds rl.rate)) in
      if f.gt tokens (f.of_int rl.burst) then f.of_int rl.burst else tokens

  abbrev pub spend : Text → RateLimiter F → ℕ → F → Bool × RateLimiter F
  spend key rl now tokens =
      if f.lt tokens (f.of_int 1)
      then (false, put key (record { tokens = tokens; last = now; last_seen = now }) rl)
      else (
        true,
        put key (record { tokens = f.sub tokens (f.of_int 1); last = now; last_seen = now }) rl,
      )

  abbrev pub allow_visitor : Text → ℕ → RateLimiter F → Option (Visitor F) → Bool × RateLimiter F
  allow_visitor key now rl none =
      (true, put key (record { tokens = f.of_int (rl.burst - 1); last = now; last_seen = now }) rl)
  allow_visitor key now rl (some v) = spend key rl now (refilled rl now v)

  -- allow
  unfoldable pub allow : Text → ℕ → RateLimiter F → Bool × RateLimiter F
  allow key now rl = allow_visitor key now rl (rl.visitors key)

  -- Limit, with the client's address: the response to the request, and the limiter after it.
  unfoldable pub limit {κ} :
      {A : Type κ} → Text → RateLimiter F → Handling A → World → (Reply A × World) × RateLimiter F
  unfolding allow
  limit ip rl next w =
      let (allowed, rl') = allow ip w.now rl in
      if allowed
      then (next w, rl')
      else ((json_error 429 (codes "RATE_LIMITED") (codes "too many requests"), w), rl')
