-- ===== src/Webhook/Envelope.antt =====
-- What backend/internal/webhook/service.go and backend/internal/events/processor.go read of a
-- payload: its action and the id of its repository; and the supported event types.
use gitactionflow.Base.{Bool, ◌||◌, Option, some, []}
use gitactionflow.Base.Int.{ℤ, pos}
use gitactionflow.Base.Text.{Text, codes, text_eq, Unicode}
use gitactionflow.Json.{
  Raw, Fields, decode_field, string_value, int_value, struct_value, as_struct, ◌>>=◌,
}

pub record Envelope : Type 0 where
  pub action : Text
  pub repo_id : ℤ

-- SupportedEvents
unfoldable pub is_supported : Text → Bool
is_supported t = text_eq t (codes "issues") || text_eq t (codes "pull_request")

module _ ⦃u : Unicode⦄ where
  decode_repo : ℤ → Fields → Option ℤ
  unfolding decode_field
  decode_repo old fs = decode_field (codes "id") int_value old fs

  decode_fields : Fields → Option Envelope
  unfolding decode_field decode_repo
  decode_fields fs = do
    action ← decode_field (codes "action") string_value [] fs
    repo_id ← decode_field (codes "repository") (struct_value decode_repo) (pos 0) fs
    some (record { action = action; repo_id = repo_id })

  -- json.Unmarshal into the envelope.
  unfoldable pub decode_envelope : Raw → Option Envelope
  unfolding decode_fields
  decode_envelope = as_struct decode_fields
