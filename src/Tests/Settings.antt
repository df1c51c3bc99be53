-- ===== src/Tests/Settings.antt =====
-- A configuration that is loaded, checked and redacted.
use gitactionflow.Base.{◌≡◌, refl, true, false, Option, none, some, [], if◌then◌else◌, ◌||◌}
use gitactionflow.Base.Numeral.{atoi, parse_bool}
use gitactionflow.Base.Int.{ℤ, pos}
use gitactionflow.Base.Text.{Text, codes, text_eq, trim_space, equal_fold, trim_right_of}
use gitactionflow.Config.{Config, loaded}
use gitactionflow.Config.Load.{load}
use gitactionflow.Config.Validate.{validate}
use gitactionflow.Config.Redact.{redacted_config}
use gitactionflow.Config.Redact.Hidden.{Secrets, AreSet, with_secrets, redacted_config_hides}
use gitactionflow.Tests.Samples.{ascii}

-- Every duration is a second.
abbrev parse_duration : Text → Option ℤ
parse_duration s = some (pos 1000000000)

abbrev long_secret : Text
long_secret = codes "0123456789abcdef0123456789abcdef"

abbrev environment : Text → Option Text
environment key =
    if text_eq key (codes "DATABASE_URL")
    then some (codes "postgres://u:p@db/app")
    else if text_eq key (codes "GITHUB_CLIENT_ID") || text_eq key (codes "GITHUB_CLIENT_SECRET")
    then some (codes "id")
    else if text_eq key (codes "SESSION_SECRET") || text_eq key (codes "GITHUB_WEBHOOK_SECRET")
    then some long_secret
    else none

abbrev second : ℤ
second = pos 1000000000

abbrev config : Config
config = record {
  app_env = codes "development";
  app_port = pos 8080;
  database_url = codes "postgres://u:p@db/app";
  log_level = codes "info";
  auto_migrate = true;
  frontend_url = codes "http://localhost:5173";
  github_client_id = codes "id";
  github_client_secret = codes "id";
  github_oauth_redirect_url = codes "http://localhost:8080/auth/github/callback";
  github_webhook_secret = long_secret;
  slack_webhook_url = [];
  session_secret = long_secret;
  session_ttl = second;
  oauth_state_ttl = second;
  cookie_secure = false;
  cookie_same_site = codes "Lax";
  webhook_max_body_bytes = pos 1048576;
  ai_api_key = [];
  ai_enabled = false;
  ai_provider = codes "gemini";
  event_worker_enabled = true;
  event_worker_poll_interval = second;
  event_max_retries = pos 3;
  event_processing_lease = second;
  action_max_retries = pos 3;
}

loads : load ⦃u = ascii⦄ parse_duration environment ≡ loaded config
unfolding load text_eq parse_bool trim_space atoi equal_fold validate trim_right_of
loads = refl

-- The same environment in production.
abbrev live : Text → Option Text
live key = if text_eq key (codes "APP_ENV") then some (codes "production") else environment key

abbrev live_config : Config
live_config = record config {
  app_env = codes "production";
  auto_migrate = false;
  cookie_secure = true;
  cookie_same_site = codes "None";
}

abbrev secrets_with : Text → Secrets
secrets_with password = record {
  userinfo = password;
  github_client_secret = password;
  github_webhook_secret = password;
  slack_webhook_url = password;
  session_secret = password;
  ai_api_key = password;
}

first_set : AreSet (secrets_with (codes "u:p"))
unfolding trim_space
first_set = record {
  userinfo = refl;
  github_client_secret = refl;
  github_webhook_secret = refl;
  slack_webhook_url = refl;
  session_secret = refl;
  ai_api_key = refl;
}

second_set : AreSet (secrets_with (codes "root"))
unfolding trim_space
second_set = record {
  userinfo = refl;
  github_client_secret = refl;
  github_webhook_secret = refl;
  slack_webhook_url = refl;
  session_secret = refl;
  ai_api_key = refl;
}

redacted_config_hides_example :
    redacted_config
      (with_secrets config (codes "postgres") (codes "db/app") (secrets_with (codes "u:p")))
    ≡ redacted_config
        (with_secrets config (codes "postgres") (codes "db/app") (secrets_with (codes "root")))
redacted_config_hides_example =
    redacted_config_hides config (codes "postgres") (codes "db/app") (secrets_with (codes "u:p"))
      (secrets_with (codes "root")) refl first_set second_set
