-- ===== src/Http/Health.antt =====
-- backend/internal/http/handlers/health.go: liveness and readiness.
use gitactionflow.Base.{Option, none, some}
use gitactionflow.Base.Text.{Text, codes}
use gitactionflow.Errors.{Error}
use gitactionflow.Http.Reply.{Reply, json, json_error}

-- Health
abbrev pub health : Reply Text
health = json 200 (codes "ok")

abbrev not_ready : Reply Text
not_ready = json_error 503 (codes "NOT_READY") (codes "database unavailable")

-- Ready, with the database, if there is one, as the error of its Ping.
unfoldable pub ready : Option (Option Error) → Reply Text
ready none = not_ready
ready (some (some e)) = not_ready
ready (some none) = json 200 (codes "ready")
