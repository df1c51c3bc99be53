-- ===== src/Http/RateLimit/Burst.antt =====
-- How many requests the rate limiter (backend/internal/http/middleware/ratelimit.go) lets pass.
use gitactionflow.Base.{
  ℕ, zero, suc, ◌+◌, ◌-◌, ◌≤◌, ◌<◌, ◌≡◌, refl, ap, ◌∙◌, true, false, Option, none, some, List, [],
  ◌∷◌, if◌then◌else◌, ltb, leb, count, arith, Bool-cases, inl, inr,
}
use gitactionflow.Base.Text.{Text, text_eq, text_eq_iff, text_eq_refl}
use gitactionflow.Http.RateLimit.{Float, Visitor, RateLimiter, put, refilled, allow_visitor, allow}

-- float64 is exact on whole numbers up to 2^53, and zero divided by a positive number is zero.
pub record IsExact {ℓ} (F : Type ℓ) ⦃f : Float F⦄ : Type ℓ where
  pub add_none :
      (k d : ℕ) → 0 < d → f.add (f.of_int k) (f.div (f.seconds 0) (f.seconds d)) ≡ f.of_int k
  pub sub_one : (k : ℕ) → k < 9007199254740992 → f.sub (f.of_int (suc k)) (f.of_int 1) ≡ f.of_int k
  pub gt_int :
      (a b : ℕ)
      → a ≤ 9007199254740992
      → b ≤ 9007199254740992
      → f.gt (f.of_int a) (f.of_int b) ≡ ltb b a
  pub lt_int :
      (a b : ℕ)
      → a ≤ 9007199254740992
      → b ≤ 9007199254740992
      → f.lt (f.of_int a) (f.of_int b) ≡ ltb a b

abbrev pub min : ℕ → ℕ → ℕ
min a b = if leb a b then a else b

module _ {ℓ} {F : Type ℓ} ⦃f : Float F⦄ where
  -- How many of the requests of one client pass, when requests come in at one moment.
  pub passed : Text → ℕ → List Text → RateLimiter F → ℕ
  passed key now [] rl = 0
  passed key now (k ∷ ks) rl =
      let (allowed, rl') = allow k now rl in
      (if text_eq k key then (if allowed then 1 else 0) else 0) + passed key now ks rl'

module _ {ℓ} {F : Type ℓ} ⦃f : Float F⦄ (x : IsExact F) (key : Text) (now : ℕ) where
  -- The client has `m` tokens.
  record Has (m : ℕ) (rl : RateLimiter F) : Type ℓ where
    visitor : Visitor F
    there : rl.visitors key ≡ some visitor
    tokens : visitor.tokens ≡ f.of_int m
    last : visitor.last ≡ now
    full : m ≤ rl.burst
    rate : 0 < rl.rate
    small : rl.burst ≤ 9007199254740992

  refilled_same :
      (m : ℕ) (rl : RateLimiter F) (h : Has m rl) → refilled rl now h.visitor ≡ f.of_int m
  refilled_same m rl h =
      let none_passed : now - h.visitor.last ≡ 0 = omega (arith, h.last) in
      let same = x.add_none m rl.rate h.rate in
      let below : f.gt (f.of_int m) (f.of_int rl.burst) ≡ false =
        x.gt_int m rl.burst (omega (arith, h.full, h.small)) h.small
        ∙ not_above m rl.burst h.full in
      rw (none_passed, h.tokens, same, below) refl
    where
      not_above : (a b : ℕ) → a ≤ b → ltb b a ≡ false
      not_above a b le = ground arith

  put_own :
      (m : ℕ) (rl : RateLimiter F) (tokens : F) (n : ℕ)
      → Has m rl
      → n ≤ m
      → tokens ≡ f.of_int n
      → Has n (put key (record { tokens = tokens; last = now; last_seen = now }) rl)
  put_own m rl tokens n h le e = record {
    visitor = record { tokens = tokens; last = now; last_seen = now };
    there = rw (text_eq_refl key) refl;
    tokens = e;
    last = refl;
    full = omega (arith, h.full);
    rate = h.rate;
    small = h.small;
  }

  put_other :
      (m : ℕ) (rl : RateLimiter F) (k : Text) (v : Visitor F)
      → text_eq k key ≡ false
      → Has m rl
      → Has m (put k v rl)
  put_other m rl k v apart h = record {
    visitor = h.visitor;
    there = rw apart h.there;
    tokens = h.tokens;
    last = h.last;
    full = h.full;
    rate = h.rate;
    small = h.small;
  }

  allow_other :
      (m : ℕ) (rl : RateLimiter F) (k : Text)
      → text_eq k key ≡ false
      → Has m rl
      → (o : Option (Visitor F)) → Has m (allow_visitor k now rl o).1
  allow_other m rl k apart h none = put_other m rl k _ apart h
  allow_other m rl k apart h (some v) = elim (Bool-cases (f.lt (refilled rl now v) (f.of_int 1))) [
    | inl few ↦ rw few (put_other m rl k _ apart h)
    | inr some_left ↦ rw some_left (put_other m rl k _ apart h)
  ]

  -- A request of the client passes exactly if it has a token, which it then has no more.
  allow_empty :
      (rl : RateLimiter F) → Has 0 rl → ((allow key now rl).0 ≡ false) × Has 0 (allow key now rl).1
  unfolding allow
  allow_empty rl h =
      let few : f.lt (refilled rl now h.visitor) (f.of_int 1) ≡ true =
        ap (λ t. f.lt t (f.of_int 1)) (refilled_same 0 rl h)
        ∙ x.lt_int 0 1 (omega arith) (omega arith) in
      rw (allow, h.there, few)
        (refl, put_own 0 rl (refilled rl now h.visitor) 0 h (omega arith) (refilled_same 0 rl h))

  allow_some :
      (m : ℕ) (rl : RateLimiter F)
      → Has (suc m) rl
      → ((allow key now rl).0 ≡ true) × Has m (allow key now rl).1
  unfolding allow
  allow_some m rl h =
      let le : suc m ≤ 9007199254740992 = omega (arith, h.full, h.small) in
      let enough : f.lt (refilled rl now h.visitor) (f.of_int 1) ≡ false =
        ap (λ t. f.lt t (f.of_int 1)) (refilled_same (suc m) rl h)
        ∙ (x.lt_int (suc m) 1 le (omega arith) ∙ not_less m) in
      let left =
        ap (λ t. f.sub t (f.of_int 1)) (refilled_same (suc m) rl h) ∙ x.sub_one m (omega arith) in
      rw (allow, h.there, enough) (refl, put_own (suc m) rl _ m h (omega arith) left)
    where
      not_less : (m : ℕ) → ltb (suc m) 1 ≡ false
      not_less m = ground arith

  skip : (a b m : ℕ) → a ≡ min b m → 0 + a ≡ min (0 + b) m
  skip a b m e = ground arith

  one_more : (a b n : ℕ) → 1 ≤ n → a ≡ min b (n - 1) → 1 + a ≡ min (1 + b) n
  one_more a b n one e = ground arith

  -- What a request of the client adds, with what is passed after it.
  own_step :
      (ks : List Text)
      → ((n : ℕ) (rl : RateLimiter F)
          → Has n rl
          → passed key now ks rl ≡ min (count (λ k. text_eq k key) ks) n)
      → (m : ℕ) (rl : RateLimiter F) → Has m rl
      → (if (allow key now rl).0 then 1 else 0) + passed key now ks (allow key now rl).1
        ≡ min (1 + count (λ k. text_eq k key) ks) m
  own_step ks ih zero rl h =
      let (refused, left) = allow_empty rl h in
      let rest = ih 0 (allow key now rl).1 left in rw refused (ground arith)
  own_step ks ih (suc m) rl h =
      let (allowed, left) = allow_some m rl h in
      let rest = ih m (allow key now rl).1 left in rw allowed (ground arith)

  passed-Has :
      (ks : List Text) (m : ℕ) (rl : RateLimiter F)
      → Has m rl
      → passed key now ks rl ≡ min (count (λ k. text_eq k key) ks) m
  unfolding passed allow
  passed-Has [] m rl h = ground arith
  passed-Has (k ∷ ks) m rl h = elim (Bool-cases (text_eq k key)) [
    | inr other ↦
        let rest =
          passed-Has ks m (allow k now rl).1 (allow_other m rl k other h (rl.visitors k)) in
        rw other (skip _ (count (λ k. text_eq k key) ks) m rest)
    | inl own ↦
        let same = (text_eq_iff k key).0 own in
        rw (same, text_eq_refl key) (own_step ks (passed-Has ks) m rl h)
  ]

  -- The client was not seen before.
  record Unseen (burst : ℕ) (rl : RateLimiter F) : Type ℓ where
    unseen : rl.visitors key ≡ none
    rate : 0 < rl.rate
    limit : rl.burst ≡ burst

  put-Unseen :
      (burst : ℕ) (rl : RateLimiter F) (k : Text) (v : Visitor F)
      → text_eq k key ≡ false
      → Unseen burst rl
      → Unseen burst (put k v rl)
  put-Unseen burst rl k v apart h = record {
    unseen = rw apart h.unseen;
    rate = h.rate;
    limit = h.limit;
  }

  Unseen-other :
      (burst : ℕ) (rl : RateLimiter F) (k : Text)
      → text_eq k key ≡ false
      → Unseen burst rl
      → (o : Option (Visitor F)) → Unseen burst (allow_visitor k now rl o).1
  Unseen-other burst rl k apart h none = put-Unseen burst rl k _ apart h
  Unseen-other burst rl k apart h (some v) =
      elim (Bool-cases (f.lt (refilled rl now v) (f.of_int 1))) [
        | inl few ↦ rw few (put-Unseen burst rl k _ apart h)
        | inr some_left ↦ rw some_left (put-Unseen burst rl k _ apart h)
      ]

  first_own :
      (burst : ℕ) (rl : RateLimiter F)
      → Unseen burst rl
      → 1 ≤ burst
      → burst ≤ 9007199254740992
      → ((allow key now rl).0 ≡ true) × Has (burst - 1) (allow key now rl).1
  unfolding allow
  first_own burst rl h one small =
      rw (allow, h.unseen)
        (
          refl,
          record {
            visitor = record { tokens = f.of_int (rl.burst - 1); last = now; last_seen = now };
            there = rw (text_eq_refl key) refl;
            tokens = ap (λ n. f.of_int (n - 1)) h.limit;
            last = refl;
            full = omega (arith, h.limit);
            rate = h.rate;
            small = omega (arith, h.limit);
          },
        )

  passed-Unseen :
      (burst : ℕ) (ks : List Text) (rl : RateLimiter F)
      → Unseen burst rl
      → 1 ≤ burst
      → burst ≤ 9007199254740992
      → passed key now ks rl ≡ min (count (λ k. text_eq k key) ks) burst
  unfolding passed allow
  passed-Unseen burst [] rl h one small = ground arith
  passed-Unseen burst (k ∷ ks) rl h one small = elim (Bool-cases (text_eq k key)) [
    | inr other ↦
        let rest =
          passed-Unseen burst ks (allow k now rl).1
            (Unseen-other burst rl k other h (rl.visitors k)) one small in
        rw other (skip _ (count (λ k. text_eq k key) ks) burst rest)
    | inl own ↦
        let same = (text_eq_iff k key).0 own in
        let (allowed, left) = first_own burst rl h one small in
        let rest = passed-Has ks (burst - 1) (allow key now rl).1 left in
        rw (same, text_eq_refl key, allowed)
          (one_more _ (count (λ k. text_eq k key) ks) burst one rest)
  ]

  -- Of the requests of all clients that come in at one moment, as many of a client that was not seen
  -- before pass as it makes, up to the burst.
  pub passed-burst :
      (ks : List Text) (rl : RateLimiter F)
      → rl.visitors key ≡ none
      → 0 < rl.rate
      → 1 ≤ rl.burst
      → rl.burst ≤ 9007199254740992
      → passed key now ks rl ≡ min (count (λ k. text_eq k key) ks) rl.burst
  passed-burst ks rl e rate one small =
      passed-Unseen rl.burst ks rl (record { unseen = e; rate = rate; limit = refl }) one small
