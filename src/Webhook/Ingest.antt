-- ===== src/Webhook/Ingest.antt =====
-- backend/internal/webhook/service.go: from a verified delivery to a row of webhook_events.
pub mod Delivery
use gitactionflow.Base.{
  ℕ, Bool, true, false, not, Option, none, some, ◌++◌, if◌then◌else◌, is_empty,
}
use gitactionflow.Base.Int.{ℤ, pos, is_le_zero, is_negative}
use gitactionflow.Base.Text.{Text, codes, Unicode}
use gitactionflow.Errors.{
  Error, Result, ok, err, is, not_found, conflict, missing_delivery_id, missing_event,
  invalid_payload, persist_failed,
}
use gitactionflow.Json.{Raw}
use gitactionflow.Store.Rows.{WebhookEvent, Repository}
use gitactionflow.Store.Exec.{Env, Exec, World, query, raise, pure, attempt, ◌>>=◌}
use gitactionflow.Store.Repositories
use gitactionflow.Store.Events.{insert_pending_with_max_retries}
use gitactionflow.Webhook.Envelope.{Envelope, is_supported, decode_envelope}

pub record IngestInput : Type 0 where
  pub delivery_id : Text
  pub event_type : Text
  pub raw_body : Raw

pub data Reason : Type 0 where
  unsupported_event unknown_repository : Reason

pub data IngestResult : Type 0 where
  accepted already_received : IngestResult
  ignored : Reason → IngestResult

abbrev pub err_missing_delivery_id : Error
err_missing_delivery_id = record {
  kind = missing_delivery_id;
  message = codes "missing delivery id";
}

abbrev pub err_missing_event : Error
err_missing_event = record { kind = missing_event; message = codes "missing event type" }

abbrev pub err_invalid_payload : Error
err_invalid_payload = record { kind = invalid_payload; message = codes "invalid payload" }

-- fmt.Errorf("%w: %v", ErrPersistFailed, err): the cause stays in the message only.
abbrev pub err_persist_failed : Error → Error
err_persist_failed e = record {
  kind = persist_failed;
  message = codes "persist failed: " ++ e.message;
}

-- `if maxRetries < 0 { maxRetries = 3 }`
abbrev pub retries_or_default : ℤ → ℤ
retries_or_default n = if is_negative n then pos 3 else n

abbrev inserted : Result WebhookEvent → Exec IngestResult
inserted (ok e) = pure accepted
inserted (err e) = if is e conflict then pure already_received else raise (err_persist_failed e)

module _ ⦃u : Unicode⦄ (env : Env) (max_retries : ℤ) where
  abbrev persist : IngestInput → Envelope → Result Repository → Exec IngestResult
  persist input v (ok repo) =
      attempt (
        query env (
          insert_pending_with_max_retries repo.id input.delivery_id input.event_type v.action
            input.raw_body (retries_or_default max_retries)))
      >>= inserted
  persist input v (err e) =
      if is e not_found then pure (ignored unknown_repository) else raise (err_persist_failed e)

  abbrev with_envelope : IngestInput → Option Envelope → Exec IngestResult
  with_envelope input none = raise err_invalid_payload
  with_envelope input (some v) =
      if is_le_zero v.repo_id
      then raise err_invalid_payload
      else (attempt (query env (Repositories.get_by_github_id v.repo_id)) >>= persist input v)

  -- Ingest
  unfoldable pub ingest : IngestInput → Exec IngestResult
  ingest input =
      if is_empty input.delivery_id
      then raise err_missing_delivery_id
      else if is_empty input.event_type
      then raise err_missing_event
      else if not (is_supported input.event_type)
      then pure (ignored unsupported_event)
      else with_envelope input (decode_envelope input.raw_body)
