-- ===== src/Store/Logins.antt =====
-- The statements of sessions.go and oauth_states.go (backend/internal/store) on the database, with
-- the foreign key from sessions to users.
use gitactionflow.Base.{ℕ, suc, any, ◌==◌, if◌then◌else◌}
use gitactionflow.Base.Text.{Text}
use gitactionflow.Errors.{ok, err}
use gitactionflow.Store.Common.{err_other}
use gitactionflow.Store.Exec.{Statement}
use gitactionflow.Store.Sessions
use gitactionflow.Store.Sessions.{Session}
use gitactionflow.Store.OauthStates

-- Create and Consume of OAuthStates. The time of Consume comes from the caller.
unfoldable pub create_state : Text → ℕ → Statement (Unit {0})
create_state hash expires_at locked now db =
    let (r, states) = OauthStates.create hash expires_at now db.oauth_states in
    (r, record db { oauth_states = states })

unfoldable pub consume_state : Text → ℕ → Statement (Unit {0})
consume_state hash at locked now db =
    let (r, states) = OauthStates.consume hash at db.oauth_states in
    (r, record db { oauth_states = states })

-- Create, GetValidByTokenHash and DeleteByTokenHash of Sessions.
unfoldable pub create_session : ℕ → Text → ℕ → Statement Session
create_session user_id hash expires_at locked now db =
    let (r, sessions) = Sessions.create user_id hash expires_at db.next_id now db.sessions in
    if any (λ u. u.id == user_id) db.users
    then (r, record db { sessions = sessions; next_id = suc db.next_id })
    else (err err_other, db)

unfoldable pub get_valid_session : Text → ℕ → Statement Session
get_valid_session hash at locked now db = (Sessions.get_valid_by_token_hash hash at db.sessions, db)

unfoldable pub delete_session : Text → Statement (Unit {0})
delete_session hash locked now db =
    (ok tt, record db { sessions = Sessions.delete_by_token_hash hash db.sessions })
