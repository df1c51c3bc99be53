-- ===== src/Tests/Gate.antt =====
-- Requests at the gate: the rate limiter with whole numbers for float64, and an origin.
use gitactionflow.Base.{
  ℕ, ◌+◌, ◌-◌, ◌/◌, ◌≡◌, refl, ◌⊎◌, true, Option, none, some, drop, inl, ap, length, List, [], ◌∷◌,
  ltb, count, arith,
}
use gitactionflow.Base.Text.{Text, codes, text_eq, contains, trim_space, has_prefix, to_lower}
use gitactionflow.Http.Login.{me}
use gitactionflow.Http.RateLimit.{Float, RateLimiter}
use gitactionflow.Http.RateLimit.Burst.{IsExact, passed, min, passed-burst}
use gitactionflow.Http.Origin.{Url, Request, csrf_origin, csrf_refused}
use gitactionflow.Http.Origin.Csrf.{Reads, IsSameOrigin, csrf_origin-IsSameOrigin}
use gitactionflow.Tests.Samples.{ascii, connected, world_of}

abbrev whole : Float ℕ
whole = record {
  of_int = λ n. n;
  seconds = λ n. n;
  add = λ a b. a + b;
  sub = λ a b. a - b;
  div = λ a b. a / b;
  gt = λ a b. ltb b a;
  lt = ltb;
}

whole-IsExact : IsExact ℕ ⦃f = whole⦄
whole-IsExact = record {
  add_none = λ k d h. omega arith;
  sub_one = λ k h. omega arith;
  gt_int = λ a b h k. refl;
  lt_int = λ a b h k. refl;
}

-- NewRateLimiter(time.Second, 2)
abbrev limiter : RateLimiter ℕ
limiter = record { visitors = λ k. none; rate = 1000000; burst = 2 }

abbrev crowd : List Text
crowd = codes "a" ∷ codes "b" ∷ codes "a" ∷ codes "a" ∷ []

passed-burst_example :
    passed ⦃f = whole⦄ (codes "a") 50 crowd limiter
    ≡ min (count (λ k. text_eq k (codes "a")) crowd) 2
passed-burst_example =
    passed-burst ⦃f = whole⦄ whole-IsExact (codes "a") 50 crowd limiter refl (omega arith)
      (omega arith) (omega arith)

-- The host is what follows "https://".
abbrev parse_url : Text → Option Url
parse_url s = some (record { scheme = codes "https"; host = drop 8 s })

abbrev forged : Request
forged = record {
  method = codes "DELETE";
  origin = codes "https://evil";
  referer = [];
  request_id = [];
  forwarded_proto = [];
  is_tls = true;
}

abbrev evil : Url
evil = record { scheme = codes "https"; host = codes "evil" }

abbrev app : Url
app = record { scheme = codes "https"; host = codes "app" }

evil-Reads : Reads ⦃u = ascii⦄ parse_url (codes "https://evil") evil
unfolding contains trim_space has_prefix to_lower
evil-Reads = record {
  full = refl;
  parses = refl;
  scheme = λ p. cc;
  host = λ p. cc;
  no_colon = (refl, (refl, (refl, (refl, (refl, tt)))));
}

app-Reads : Reads ⦃u = ascii⦄ parse_url (codes "https://app") app
unfolding contains trim_space has_prefix to_lower
app-Reads = record {
  full = refl;
  parses = refl;
  scheme = λ p. cc;
  host = λ p. cc;
  no_colon = (refl, (refl, (refl, (refl, (refl, tt)))));
}

csrf_origin-IsSameOrigin_example :
    ((csrf_origin ⦃u = ascii⦄ parse_url (codes "https://app") forged (me none) (world_of connected)
        ≡ me none (world_of connected))
      × IsSameOrigin ⦃u = ascii⦄ evil app)
    ⊎ ((csrf_origin ⦃u = ascii⦄ parse_url
            (codes "https://app")
            forged
            (me none)
            (world_of connected)
          ≡ (csrf_refused ⦃u = ascii⦄ parse_url, world_of connected))
        × (¬ IsSameOrigin ⦃u = ascii⦄ evil app))
csrf_origin-IsSameOrigin_example =
    csrf_origin-IsSameOrigin ⦃u = ascii⦄ parse_url (codes "https://app") forged (me none)
      (world_of connected) (codes "https://evil") evil app
      (λ p. absurd (omega (arith, ap length p))) (λ p. absurd (omega (arith, ap length p)))
      (λ p. absurd (omega (arith, ap length p))) (inl (λ p. cc, refl)) evil-Reads app-Reads
