-- ===== src/Rules.antt =====
-- Package rules (backend/internal/rules): matching events, validating rules, and the rule service.
pub mod Engine
pub mod Validate
pub mod Service
