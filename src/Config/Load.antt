-- ===== src/Config/Load.antt =====
-- Load of backend/internal/config/config.go. The environment is a function, and time.ParseDuration a
-- parameter.
pub mod Valid
use gitactionflow.Base.{
  ℕ, Bool, true, false, ◌||◌, ◌&&◌, not, Option, none, some, List, [], ◌∷◌, is_empty, if◌then◌else◌,
}
use gitactionflow.Base.Int.{ℤ}
use gitactionflow.Base.Numeral.{atoi, parse_bool}
use gitactionflow.Base.Text.{Text, codes, trim_space, trim_right_of, Unicode, to_lower, equal_fold}
use gitactionflow.Config.{Config, Loaded, loaded, bad_value, ◌>>=◌, ◌>>◌}
use gitactionflow.Config.Validate.{validate, is_blank}

abbrev or_blank : Option Text → Text
or_blank none = []
or_blank (some v) = v

abbrev given_or : Text → Option Text → Text
given_or fallback none = fallback
given_or fallback (some v) = if is_blank v then fallback else trim_space v

-- firstNonEmpty
unfoldable pub first_non_empty : List Text → Text
first_non_empty [] = []
first_non_empty (v ∷ vs) =
    let rest = first_non_empty vs in if is_blank v then rest else trim_space v

-- The parsers, with the variable that an error names.
abbrev or_bad {ℓ} : {A : Type ℓ} → Text → Option A → Loaded A
or_bad name none = bad_value name
or_bad name (some a) = loaded a

-- parseBool
unfoldable pub load_bool : Text → Text → Loaded Bool
load_bool name raw = or_bad name (parse_bool (trim_space raw))

-- parsePort, parseInt and parseInt64
unfoldable pub load_int : Text → Text → Loaded ℤ
load_int name raw = or_bad name (atoi (trim_space raw))

-- The variables that have to be parsed.
pub record Parsed : Type 0 where
  pub ai_enabled : Bool
  pub port : ℤ
  pub auto_migrate : Bool
  pub cookie_secure : Bool
  pub session_ttl : ℤ
  pub state_ttl : ℤ
  pub max_body : ℤ
  pub worker_enabled : Bool
  pub poll_interval : ℤ
  pub max_retries : ℤ
  pub lease : ℤ
  pub action_max_retries : ℤ

module _ ⦃u : Unicode⦄ (parse_duration : Text → Option ℤ) (lookup_env : Text → Option Text) where
  -- parseDuration
  unfoldable pub load_duration : Text → Text → Loaded ℤ
  load_duration name raw = or_bad name (parse_duration (trim_space raw))

  -- os.Getenv
  abbrev getenv : Text → Text
  getenv key = or_blank (lookup_env key)

  -- getEnv
  abbrev get_env : Text → Text → Text
  get_env key fallback = given_or fallback (lookup_env key)

  -- defaultAutoMigrate
  unfoldable pub default_auto_migrate : Text → Text
  default_auto_migrate app_env =
      if equal_fold app_env (codes "development") || equal_fold app_env (codes "test")
      then codes "true"
      else codes "false"

  -- The trimmed FRONTEND_URL, with its default.
  unfoldable pub load_frontend_url : Text
  unfolding first_non_empty
  load_frontend_url =
      let url =
        first_non_empty (getenv (codes "FRONTEND_URL") ∷ getenv (codes "FRONTEND_ORIGIN") ∷ []) in
      trim_right_of b'/' (trim_space (if is_empty url then codes "http://localhost:5173" else url))

  abbrev app_env : Text
  app_env = get_env (codes "APP_ENV") (codes "development")

  abbrev is_production : Bool
  is_production = equal_fold app_env (codes "production")

  -- What Load parses, in its order.
  unfoldable pub parse_all : Loaded Parsed
  unfolding load_bool load_int load_duration default_auto_migrate first_non_empty
  parse_all = do
    ai_enabled ← load_bool (codes "AI_ENABLED") (get_env (codes "AI_ENABLED") (codes "false"))
    port ←
        load_int (codes "PORT/APP_PORT")
          (first_non_empty (getenv (codes "PORT") ∷ getenv (codes "APP_PORT") ∷ codes "8080" ∷ []))
    auto_migrate ←
        load_bool (codes "AUTO_MIGRATE")
          (get_env (codes "AUTO_MIGRATE") (default_auto_migrate app_env))
    cookie_secure ←
        load_bool (codes "COOKIE_SECURE")
          (get_env (codes "COOKIE_SECURE") (if is_production then codes "true" else codes "false"))
    session_ttl ← load_duration (codes "SESSION_TTL") (get_env (codes "SESSION_TTL") (codes "168h"))
    state_ttl ←
        load_duration (codes "OAUTH_STATE_TTL") (get_env (codes "OAUTH_STATE_TTL") (codes "10m"))
    max_body ←
        load_int (codes "WEBHOOK_MAX_BODY_BYTES")
          (get_env (codes "WEBHOOK_MAX_BODY_BYTES") (codes "1048576"))
    worker_enabled ←
        load_bool (codes "EVENT_WORKER_ENABLED")
          (get_env (codes "EVENT_WORKER_ENABLED") (codes "true"))
    poll_interval ←
        load_duration (codes "EVENT_WORKER_POLL_INTERVAL")
          (get_env (codes "EVENT_WORKER_POLL_INTERVAL") (codes "2s"))
    max_retries ←
        load_int (codes "EVENT_MAX_RETRIES") (get_env (codes "EVENT_MAX_RETRIES") (codes "3"))
    lease ←
        load_duration (codes "EVENT_PROCESSING_LEASE")
          (get_env (codes "EVENT_PROCESSING_LEASE") (codes "1m"))
    action_max_retries ←
        load_int (codes "ACTION_MAX_RETRIES") (get_env (codes "ACTION_MAX_RETRIES") (codes "3"))
    loaded (record {
      ai_enabled = ai_enabled;
      port = port;
      auto_migrate = auto_migrate;
      cookie_secure = cookie_secure;
      session_ttl = session_ttl;
      state_ttl = state_ttl;
      max_body = max_body;
      worker_enabled = worker_enabled;
      poll_interval = poll_interval;
      max_retries = max_retries;
      lease = lease;
      action_max_retries = action_max_retries;
    })

  unfoldable pub assemble : Parsed → Config
  unfolding load_frontend_url first_non_empty
  assemble p = record {
    app_env = app_env;
    app_port = p.port;
    database_url = trim_space (getenv (codes "DATABASE_URL"));
    log_level = get_env (codes "LOG_LEVEL") (codes "info");
    auto_migrate = p.auto_migrate;
    frontend_url = load_frontend_url;
    github_client_id = trim_space (getenv (codes "GITHUB_CLIENT_ID"));
    github_client_secret = getenv (codes "GITHUB_CLIENT_SECRET");
    github_oauth_redirect_url =
        get_env (codes "GITHUB_OAUTH_REDIRECT_URL")
          (codes "http://localhost:8080/auth/github/callback");
    github_webhook_secret = getenv (codes "GITHUB_WEBHOOK_SECRET");
    slack_webhook_url = getenv (codes "SLACK_WEBHOOK_URL");
    session_secret = getenv (codes "SESSION_SECRET");
    session_ttl = p.session_ttl;
    oauth_state_ttl = p.state_ttl;
    cookie_secure = p.cookie_secure;
    cookie_same_site =
        get_env (codes "COOKIE_SAMESITE") (if is_production then codes "None" else codes "Lax");
    webhook_max_body_bytes = p.max_body;
    ai_api_key = first_non_empty (
        getenv (codes "AI_API_KEY")
        ∷ getenv (codes "GEMINI_API_KEY")
        ∷ getenv (codes "GROQ_API_KEY")
        ∷ []);
    ai_enabled = p.ai_enabled;
    ai_provider = to_lower (get_env (codes "AI_PROVIDER") (codes "gemini"));
    event_worker_enabled = p.worker_enabled;
    event_worker_poll_interval = p.poll_interval;
    event_max_retries = p.max_retries;
    event_processing_lease = p.lease;
    action_max_retries = p.action_max_retries;
  }

  -- Load
  unfoldable pub load : Loaded Config
  unfolding parse_all assemble
  load = parse_all >>= λ p. validate (assemble p) >> loaded (assemble p)
