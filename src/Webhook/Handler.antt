-- ===== src/Webhook/Handler.antt =====
-- backend/internal/http/handlers/webhook.go: POST /webhooks/github.
pub mod Unsigned
use gitactionflow.Base.{
  ℕ, Bool, true, false, ◌||◌, Option, none, some, if◌then◌else◌, is_empty, length, ltb,
}
use gitactionflow.Base.Int.{ℤ, is_le_zero, pos_part}
use gitactionflow.Base.Text.{Text, codes, Unicode}
use gitactionflow.Errors.{
  Error, Result, ok, err, is, missing_delivery_id, missing_event, invalid_payload, persist_failed,
}
use gitactionflow.Json.{Raw}
use gitactionflow.Store.Exec.{Env, World}
use gitactionflow.Webhook.Signature.{verify_signature256}
use gitactionflow.Webhook.Ingest.{
  IngestResult, accepted, already_received, ignored, Reason, unsupported_event, unknown_repository,
  ingest,
}

-- A request body: its bytes, and what the JSON decoder reads in them.
pub record Body : Type 0 where
  pub bytes : Text
  pub raw : Raw

-- A request; `body` is `none` if reading it fails.
pub record Request : Type 0 where
  pub body : Option Body
  pub signature : Text
  pub event : Text
  pub delivery : Text

-- The HTTP status of a response, and its `code` or `status` entry.
pub record Response : Type 0 where
  pub code : ℕ
  pub tag : Text

pub record Handler : Type 0 where
  pub secret : Text
  pub max_body : ℤ
  pub max_retries : ℤ
  pub hmac : Text → Text → Text

abbrev pub respond : ℕ → Text → Response
respond code tag = record { code = code; tag = tag }

-- The responses to what Ingest returns.
unfoldable pub response_to : Result IngestResult → Response
response_to (ok accepted) = respond 200 (codes "accepted")
response_to (ok already_received) = respond 200 (codes "already_received")
response_to (ok (ignored r)) = respond 200 (codes "ignored")
response_to (err e) =
    if is e invalid_payload
    then respond 400 (codes "INVALID_PAYLOAD")
    else if is e missing_delivery_id || is e missing_event
    then respond 400 (codes "BAD_REQUEST")
    else respond 500 (codes "INTERNAL_ERROR")

-- The limit on the body: 1 MiB if none is configured.
abbrev pub body_limit : ℤ → ℕ
body_limit n = if is_le_zero n then 1048576 else pos_part n

module _ ⦃u : Unicode⦄ (env : Env) (h : Handler) where
  abbrev responding : Result IngestResult × World → Response × World
  responding (r, w) = (response_to r, w)

  abbrev with_signature : Request → Body → Result (Unit {0}) → World → Response × World
  with_signature req body (err e) w = (respond 401 (codes "UNAUTHORIZED"), w)
  with_signature req body (ok _) w =
      if is_empty req.event || is_empty req.delivery
      then (respond 400 (codes "BAD_REQUEST"), w)
      else responding (
          ingest env h.max_retries
            (record { delivery_id = req.delivery; event_type = req.event; raw_body = body.raw }) w)

  abbrev with_body : Request → Option Body → World → Response × World
  with_body req none w = (respond 400 (codes "BAD_REQUEST"), w)
  with_body req (some body) w =
      if ltb (body_limit h.max_body) (length body.bytes)
      then (respond 413 (codes "PAYLOAD_TOO_LARGE"), w)
      else with_signature req body (verify_signature256 h.hmac h.secret body.bytes req.signature) w

  -- HandlePOST
  unfoldable pub handle_post : Request → World → Response × World
  handle_post req w = with_body req req.body w
