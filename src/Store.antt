-- ===== src/Store.antt =====
-- Package store (backend/internal/store): the tables, and the statements on each of them.
pub mod Rows
pub mod Exec
pub mod Common
pub mod Events
pub mod Actions
pub mod Rules
pub mod Repositories
pub mod OauthStates
pub mod Sessions
pub mod Users
pub mod Logins
