-- ===== src/Tests/Webhooks.antt =====
-- Runs of the webhook handler.
use gitactionflow.Base.{◌≡◌, ◌↔◌, ◌⊎◌, refl, some, length, ◌≤◌, [], ◌∷◌, arith}
use gitactionflow.Base.Int.{pos}
use gitactionflow.Base.Text.{Text, codes, trim_space}
use gitactionflow.Errors.{ok}
use gitactionflow.Webhook.Signature.{verify_signature256, sign_body}
use gitactionflow.Webhook.Signature.RoundTrip.{verify_signature256-sign_body}
use gitactionflow.Webhook.Ingest.{IngestInput, ingest}
use gitactionflow.Webhook.Ingest.Delivery.{Stored, ingest-Stored}
use gitactionflow.Webhook.Handler.{Request, Body, Handler, handle_post, body_limit}
use gitactionflow.Webhook.Handler.Unsigned.{IsSigned, IsRefused, handle_post_unsigned}
use gitactionflow.Tests.Samples.{ascii, quiet, connected, world_of, payload}

-- A MAC of two bytes.
abbrev mac : Text → Text → Text
mac secret body = 7 ∷ 200 ∷ []

verify_signature256-sign_body_example :
    (verify_signature256 mac (codes "s") (codes "b") (sign_body mac (codes "s") (codes "c"))
      ≡ ok tt)
    ↔ (mac (codes "s") (codes "b") ≡ mac (codes "s") (codes "c"))
unfolding trim_space
verify_signature256-sign_body_example =
    verify_signature256-sign_body mac (codes "s") (codes "b") (codes "s") (codes "c")
      (omega arith, (omega arith, tt)) refl

abbrev delivery : IngestInput
delivery = record { delivery_id = codes "d1"; event_type = codes "issues"; raw_body = payload }

ingest-Stored_example :
    Stored delivery
      (pos 3)
      connected
      (ingest ⦃u = ascii⦄ quiet (pos 3) delivery (world_of connected)).0
      (ingest ⦃u = ascii⦄ quiet (pos 3) delivery (world_of connected)).1.db
ingest-Stored_example = ingest-Stored ⦃u = ascii⦄ quiet (pos 3) delivery (world_of connected)

abbrev handler : Handler
handler = record { secret = codes "s"; max_body = pos 0; max_retries = pos 3; hmac = mac }

abbrev body : Body
body = record { bytes = codes "{}"; raw = payload }

abbrev unsigned : Request
unsigned = record {
  body = some body;
  signature = [];
  event = codes "issues";
  delivery = codes "d1";
}

handle_post_unsigned_example :
    ((b : Body) × (some body ≡ some b)
      × (length b.bytes ≤ body_limit (pos 0))
      × IsSigned mac (codes "s") b.bytes [])
    ⊎ IsRefused
        (world_of connected)
        (handle_post ⦃u = ascii⦄ quiet handler unsigned (world_of connected))
handle_post_unsigned_example =
    handle_post_unsigned ⦃u = ascii⦄ quiet handler unsigned (world_of connected)
