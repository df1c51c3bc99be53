-- ===== src/Webhook.antt =====
-- Package webhook (backend/internal/webhook): verified deliveries become pending events.
pub mod Envelope
pub mod Signature
pub mod Ingest
pub mod Handler
