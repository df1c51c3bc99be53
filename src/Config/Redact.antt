-- ===== src/Config/Redact.antt =====
-- Redacted of backend/internal/config/config.go: the configuration as it may be logged.
pub mod Hidden
use gitactionflow.Base.{
  ℕ, suc, ◌+◌, Option, none, some, [], ◌∷◌, ◌++◌, take, drop, length, if◌then◌else◌,
}
use gitactionflow.Base.Text.{Text, codes, has_prefix, decimal}
use gitactionflow.Base.Int.{ℤ, pos_part}
use gitactionflow.Config.{Config}
use gitactionflow.Config.Validate.{is_blank}

abbrev shift : Option ℕ → Option ℕ
shift none = none
shift (some n) = some (suc n)

-- strings.Index
unfoldable pub index : Text → Text → Option ℕ
unfolding has_prefix
index [] p = if has_prefix [] p then some 0 else none
index (c ∷ s) p = let rest = index s p in if has_prefix (c ∷ s) p then some 0 else shift rest

abbrev pub redacted : Text
redacted = codes "[redacted]"

-- redactIfSet
unfoldable pub redact_if_set : Text → Text
redact_if_set v = if is_blank v then [] else redacted

abbrev with_at : Text → Text → Option ℕ → Text
with_at scheme rest none = redacted
with_at scheme rest (some at) = scheme ++ (redacted ++ (codes "@" ++ drop (at + 1) rest))

abbrev with_scheme : Text → Option ℕ → Text
with_scheme raw none = redacted
with_scheme raw (some i) =
    let rest = drop (i + 3) raw in with_at (take (i + 3) raw) rest (index rest (codes "@"))

-- redactURL
unfoldable pub redact_url : Text → Text
unfolding index
redact_url raw = if is_blank raw then [] else with_scheme raw (index raw (codes "://"))

-- Redacted
unfoldable pub redacted_config : Config → Config
unfolding redact_url redact_if_set
redacted_config c = record c {
  database_url = redact_url c.database_url;
  github_client_secret = redact_if_set c.github_client_secret;
  github_webhook_secret = redact_if_set c.github_webhook_secret;
  slack_webhook_url = redact_if_set c.slack_webhook_url;
  session_secret = redact_if_set c.session_secret;
  ai_api_key = redact_if_set c.ai_api_key;
}
