-- ===== src/Config/Validate/Decides.antt =====
-- What Validate (backend/internal/config/config.go) accepts.
use gitactionflow.Base.{ℕ, suc, ◌≤◌, ◌≡◌, ◌≢◌, ◌⊎◌, true, false, []}
use gitactionflow.Base.Int.{ℤ, pos}
use gitactionflow.Base.Text.{Text, codes, trim_space, byte_len, Unicode, equal_fold, to_lower}
use gitactionflow.Config.{Config}

abbrev pub IsBetween : ℕ → ℕ → ℤ → Type 0
IsBetween lo hi x = (n : ℕ) × (x ≡ pos n) × (lo ≤ n) × (n ≤ hi)

abbrev pub IsPositive : ℤ → Type 0
IsPositive x = (n : ℕ) × (x ≡ pos (suc n))

abbrev pub IsNat : ℤ → Type 0
IsNat x = (n : ℕ) × (x ≡ pos n)

abbrev pub IsGiven : Text → Type 0
IsGiven s = trim_space s ≢ []

-- The text is one of the levels when spaces around it and case are ignored.
abbrev pub IsLevel : ⦃u : Unicode⦄ → Text → Type 0
IsLevel s =
    (to_lower (trim_space s) ≡ codes "debug")
    ⊎ (to_lower (trim_space s) ≡ codes "info")
    ⊎ (to_lower (trim_space s) ≡ codes "warn")
    ⊎ (to_lower (trim_space s) ≡ codes "error")

-- The text is Lax, Strict or None when case is ignored.
abbrev pub IsSameSite : ⦃u : Unicode⦄ → Text → Type 0
IsSameSite s =
    (to_lower s ≡ codes "lax") ⊎ (to_lower s ≡ codes "strict") ⊎ (to_lower s ≡ codes "none")

-- What is required of each setting.
pub record IsValid ⦃u : Unicode⦄ (c : Config) : Type 0 where
  pub app_env : IsGiven c.app_env
  pub app_port : IsBetween 1 65535 c.app_port
  pub database_url : IsGiven c.database_url
  pub log_level : IsLevel c.log_level
  pub frontend_url : IsGiven c.frontend_url
  pub github_client_id : IsGiven c.github_client_id
  pub github_client_secret : IsGiven c.github_client_secret
  pub github_oauth_redirect_url : IsGiven c.github_oauth_redirect_url
  pub session_secret : 32 ≤ byte_len (trim_space c.session_secret)
  pub github_webhook_secret : 16 ≤ byte_len (trim_space c.github_webhook_secret)
  pub webhook_max_body_bytes : IsBetween 1024 10485760 c.webhook_max_body_bytes
  pub event_worker_poll_interval : IsPositive c.event_worker_poll_interval
  pub event_max_retries : IsNat c.event_max_retries
  pub event_processing_lease : IsPositive c.event_processing_lease
  pub action_max_retries : IsNat c.action_max_retries
  pub session_ttl : IsPositive c.session_ttl
  pub oauth_state_ttl : IsPositive c.oauth_state_ttl
  pub cookie_same_site : IsSameSite c.cookie_same_site
  pub cookie_secure :
      (equal_fold c.cookie_same_site (codes "none") ≡ false) ⊎ (c.cookie_secure ≡ true)
