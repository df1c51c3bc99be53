-- ===== src/Tests.antt =====
-- Runs on sample data: a user with a connected repository and one rule, and a delivery for it.
pub mod Samples
pub mod Queue
pub mod Webhooks
pub mod Automation
pub mod Pipeline
pub mod Logins
pub mod Connecting
pub mod Api
pub mod Settings
pub mod Clients
pub mod Gate
