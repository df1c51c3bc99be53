-- ===== src/Config/Validate.antt =====
-- Validate of backend/internal/config/config.go.
pub mod Decides
use gitactionflow.Base.{ℕ, Bool, true, false, ◌||◌, ◌&&◌, not, [], ◌∷◌, any, is_empty, ltb}
use gitactionflow.Base.Int.{ℤ, pos, negsuc, is_le_zero, is_negative, pos_part}
use gitactionflow.Base.Text.{
  Text, codes, text_eq, trim_space, byte_len, Unicode, to_lower, equal_fold,
}
use gitactionflow.Config.{Config, Loaded, loaded, invalid, ◌>>=◌, ◌>>◌}

-- `strings.TrimSpace(s) == ""`
abbrev pub is_blank : Text → Bool
is_blank s = is_empty (trim_space s)

-- `x < lo || x > hi`, for positive bounds.
abbrev pub outside : ℕ → ℕ → ℤ → Bool
outside lo hi x = ltb (pos_part x) lo || ltb hi (pos_part x)

-- `if bad { return fmt.Errorf(message) }`
abbrev pub refuse : Bool → Text → Loaded (Unit {0})
refuse true message = invalid message
refuse false message = loaded tt

module _ ⦃u : Unicode⦄ where
  -- validLogLevel
  unfoldable pub valid_log_level : Text → Bool
  valid_log_level level =
      any (text_eq (to_lower (trim_space level)))
        (codes "debug" ∷ codes "info" ∷ codes "warn" ∷ codes "error" ∷ [])

  -- The cases of the switch on CookieSameSite.
  unfoldable pub is_same_site : Text → Bool
  is_same_site s = any (text_eq (to_lower s)) (codes "lax" ∷ codes "strict" ∷ codes "none" ∷ [])

  -- Validate
  unfoldable pub validate : Config → Loaded (Unit {0})
  unfolding valid_log_level is_same_site
  validate c = do
    refuse (is_blank c.app_env) (codes "APP_ENV is required")
    refuse (outside 1 65535 c.app_port) (codes "APP_PORT must be between 1 and 65535")
    refuse (is_blank c.database_url) (codes "DATABASE_URL is required")
    refuse (not (valid_log_level c.log_level))
        (codes "LOG_LEVEL must be one of: debug, info, warn, error")
    refuse (is_blank c.frontend_url) (codes "FRONTEND_URL is required")
    refuse (is_blank c.github_client_id) (codes "GITHUB_CLIENT_ID is required")
    refuse (is_blank c.github_client_secret) (codes "GITHUB_CLIENT_SECRET is required")
    refuse (is_blank c.github_oauth_redirect_url) (codes "GITHUB_OAUTH_REDIRECT_URL is required")
    refuse (ltb (byte_len (trim_space c.session_secret)) 32)
        (codes "SESSION_SECRET is required and must be at least 32 characters")
    refuse (ltb (byte_len (trim_space c.github_webhook_secret)) 16)
        (codes "GITHUB_WEBHOOK_SECRET is required and must be at least 16 characters")
    refuse (outside 1024 10485760 c.webhook_max_body_bytes)
        (codes "WEBHOOK_MAX_BODY_BYTES must be between 1KiB and 10MiB")
    refuse (is_le_zero c.event_worker_poll_interval)
        (codes "EVENT_WORKER_POLL_INTERVAL must be positive")
    refuse (is_negative c.event_max_retries) (codes "EVENT_MAX_RETRIES must be >= 0")
    refuse (is_le_zero c.event_processing_lease) (codes "EVENT_PROCESSING_LEASE must be positive")
    refuse (is_negative c.action_max_retries) (codes "ACTION_MAX_RETRIES must be >= 0")
    refuse (is_le_zero c.session_ttl) (codes "SESSION_TTL must be positive")
    refuse (is_le_zero c.oauth_state_ttl) (codes "OAUTH_STATE_TTL must be positive")
    refuse (not (is_same_site c.cookie_same_site))
        (codes "COOKIE_SAMESITE must be one of: Lax, Strict, None")
    refuse (equal_fold c.cookie_same_site (codes "none") && not c.cookie_secure)
        (codes "COOKIE_SAMESITE=None requires COOKIE_SECURE=true")
