-- ===== src/Actions.antt =====
-- Package actions (backend/internal/actions): running the actions that matched rules ask for.
pub mod Execute
pub mod Executor
