-- ===== src/Errors.antt =====
-- The program's errors: the sentinel values of its packages (backend/internal/*/errors.go and the
-- `var Err... = errors.New(...)` blocks), errors that wrap one, and results.
use gitactionflow.Base.{◌≡◌, refl, ◌↔◌, ◌⊎◌, inl, inr, Bool, true, false, ◌++◌}
use gitactionflow.Base.Text.{Text, codes}

-- `other` stands for an error that wraps none of the sentinels.
pub data Sentinel : Type 0 where
  -- store
  not_found conflict : Sentinel
  -- events
  invalid_event unsupported_event repo_mismatch actions_incomplete actions_failed : Sentinel
  -- githubapi
  github_unauthorized github_not_found github_forbidden github_rate_limited : Sentinel
  github_retryable github_permanent : Sentinel
  -- slack
  slack_not_configured slack_retryable slack_permanent : Sentinel
  -- webhook
  missing_signature invalid_signature missing_event missing_delivery_id : Sentinel
  invalid_payload persist_failed : Sentinel
  -- rules
  invalid_rule no_repository rule_not_found : Sentinel
  -- reposervice
  already_connected access_denied repository_not_found unauthorized rate_limited : Sentinel
  invalid_input token_unavailable : Sentinel
  -- ai
  ai_disabled ai_invalid_output : Sentinel
  other : Sentinel

unfoldable pub Sentinel-discrete : Discrete Sentinel
Sentinel-discrete = hlevel

-- An error: the sentinel in its chain of wrapped errors, and what `Error()` returns.
pub record Error : Type 0 where
  pub kind : Sentinel
  pub message : Text

-- errors.Is(err, s)
unfoldable pub is : Error → Sentinel → Bool
unfolding Sentinel-discrete
is e s = elim (Sentinel-discrete e.kind s) [ yes _ ↦ true | no _ ↦ false ]

pub is_iff : (e : Error) (s : Sentinel) → (is e s ≡ true) ↔ (e.kind ≡ s)
unfolding is
is_iff e s =
    elim (Sentinel-discrete e.kind s)
      as (λ d. (elim d [ yes _ ↦ true | no _ ↦ false ] ≡ true) ↔ (e.kind ≡ s)) [
        | yes p ↦ (λ _. p, λ _. refl)
        | no n ↦ (λ h. cc, λ p. absurd (n p))
      ]

-- fmt.Errorf("prefix: %w", err)
abbrev pub wrap : Text → Error → Error
wrap prefix e = record { kind = e.kind; message = prefix ++ codes ": " ++ e.message }

pub data Result {ℓ} (A : Type ℓ) : Type ℓ where
  ok : A → Result A
  err : Error → Result A

infixl 5 ◌>>=◌
abbrev pub ◌>>=◌ {ℓ κ} : {A : Type ℓ} {B : Type κ} → Result A → (A → Result B) → Result B
ok a >>= f = f a
err e >>= f = err e

-- `return x, fmt.Errorf("prefix: %w", err)`
abbrev pub or_wrap {ℓ} : {A : Type ℓ} → Text → Result A → Result A
or_wrap prefix (ok a) = ok a
or_wrap prefix (err e) = err (wrap prefix e)

abbrev pub is_ok {ℓ} : {A : Type ℓ} → Result A → Bool
is_ok (ok a) = true
is_ok (err e) = false

pub err_injective {ℓ} : {A : Type ℓ} {a b : Error} → ◌≡◌ {A = Result A} (err a) (err b) → a ≡ b
err_injective h = cc

-- Inversion of a bind that returned.
pub >>=-eq-ok {ℓ κ} :
    {A : Type ℓ} {B : Type κ} (r : Result A) (f : A → Result B) {b : B}
    → (r >>= f) ≡ ok b
    → (a : A) × (r ≡ ok a) × (f a ≡ ok b)
>>=-eq-ok (ok a) f h = (a, refl, h)
>>=-eq-ok (err e) f h = absurd (cc)

pub Result-cases {ℓ} :
    {A : Type ℓ} (r : Result A) → ((a : A) × (r ≡ ok a)) ⊎ ((e : Error) × (r ≡ err e))
Result-cases (ok a) = inl (a, refl)
Result-cases (err e) = inr (e, refl)
