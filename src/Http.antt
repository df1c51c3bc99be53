-- ===== src/Http.antt =====
-- The HTTP layer (backend/internal/http): responses, the middleware, and the handlers of the API.
pub mod Reply
pub mod Cookie
pub mod RequireAuth
pub mod Activity
pub mod RuleApi
pub mod RepositoryApi
pub mod Login
pub mod RateLimit
pub mod Origin
pub mod Health
pub mod Router
