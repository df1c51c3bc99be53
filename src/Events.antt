-- ===== src/Events.antt =====
-- Package events (backend/internal/events): the worker that drains the queue of webhook events.
pub mod Context
pub mod Processor
pub mod Worker
