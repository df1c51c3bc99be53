-- ===== src/Http/RequireAuth.antt =====
-- backend/internal/http/middleware/auth.go: the middleware in front of the protected routes.
pub mod Guards
use gitactionflow.Base.{ℕ, Bool, Option, none, some, is_empty, if◌then◌else◌}
use gitactionflow.Base.Text.{Text}
use gitactionflow.Errors.{Error, Result, ok, err, is, not_found}
use gitactionflow.Store.Exec.{Env, World, query}
use gitactionflow.Store.Sessions.{Session}
use gitactionflow.Store.Users.{User, get_by_id}
use gitactionflow.Store.Logins.{get_valid_session}
use gitactionflow.Http.Reply.{Reply, Handling, unauthorized, internal}

-- auth.HashToken, and the session cookie of the request: `none` if there is none.
module _ {ℓ} {A : Type ℓ} (env : Env) (hash_token : Text → Text)
    (next : Option User → Handling A) where
  abbrev pub refused : Error → Reply A
  refused e = if is e not_found then unauthorized else internal

  abbrev pub with_account : Result User × World → Reply A × World
  with_account (err e, w) = (refused e, w)
  with_account (ok user, w) = next (some user) w

  abbrev pub with_session : Result Session × World → Reply A × World
  with_session (err e, w) = (refused e, w)
  with_session (ok sess, w) = with_account (query env (get_by_id sess.user_id) w)

  -- RequireAuth
  unfoldable pub require_auth : Option Text → Handling A
  require_auth none w = (unauthorized, w)
  require_auth (some raw) w =
      if is_empty raw
      then (unauthorized, w)
      else with_session (query env (get_valid_session (hash_token raw) w.now) w)
