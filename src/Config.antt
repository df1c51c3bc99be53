-- ===== src/Config.antt =====
-- backend/internal/config/config.go: the configuration, read from the environment. A time.Duration is
-- a number of nanoseconds.
pub mod Load
pub mod Validate
pub mod Redact
use gitactionflow.Base.{ℕ, Bool, Option}
use gitactionflow.Base.Int.{ℤ}
use gitactionflow.Base.Text.{Text}

pub record Config : Type 0 where
  pub app_env : Text
  pub app_port : ℤ
  pub database_url : Text
  pub log_level : Text
  pub auto_migrate : Bool
  pub frontend_url : Text
  pub github_client_id : Text
  pub github_client_secret : Text
  pub github_oauth_redirect_url : Text
  pub github_webhook_secret : Text
  pub slack_webhook_url : Text
  pub session_secret : Text
  pub session_ttl : ℤ
  pub oauth_state_ttl : ℤ
  pub cookie_secure : Bool
  pub cookie_same_site : Text
  pub webhook_max_body_bytes : ℤ
  pub ai_api_key : Text
  pub ai_enabled : Bool
  pub ai_provider : Text
  pub event_worker_enabled : Bool
  pub event_worker_poll_interval : ℤ
  pub event_max_retries : ℤ
  pub event_processing_lease : ℤ
  pub action_max_retries : ℤ

-- An error: a variable whose value does not parse, or what Validate says.
pub data Loaded {ℓ} (A : Type ℓ) : Type ℓ where
  loaded : A → Loaded A
  bad_value : Text → Loaded A
  invalid : Text → Loaded A

infixl 5 ◌>>=◌ ◌>>◌
abbrev pub ◌>>=◌ {ℓ κ} : {A : Type ℓ} {B : Type κ} → Loaded A → (A → Loaded B) → Loaded B
loaded a >>= f = f a
bad_value name >>= f = bad_value name
invalid message >>= f = invalid message

abbrev pub ◌>>◌ {ℓ κ} : {A : Type ℓ} {B : Type κ} → Loaded A → Loaded B → Loaded B
m >> n = m >>= λ _. n
