-- ===== src/Http/Login.antt =====
-- backend/internal/http/handlers/auth.go: logging in through GitHub, and logging out. SHA-256,
-- AES-GCM, random tokens, net/url and the answers of GitHub are parameters; what can differ from one
-- call to the next depends on the number of statements that have run.
pub mod Replay
pub mod SignedIn
pub mod RoundTrip
use gitactionflow.Base.{
  ℕ, suc, ◌+◌, ◌-◌, Bool, ◌||◌, not, Option, none, some, is_empty, if◌then◌else◌,
}
use gitactionflow.Base.Int.{ℤ, pos, negsuc}
use gitactionflow.Base.Text.{Text, codes, Unicode}
use gitactionflow.Errors.{Error, Result, ok, err}
use gitactionflow.Store.Exec.{Env, World, query}
use gitactionflow.Store.Sessions.{Session}
use gitactionflow.Store.Users.{User, upsert_from_github}
use gitactionflow.Store.Logins.{create_state, consume_state, create_session, delete_session}
use gitactionflow.Http.Reply.{ErrorDetail, unauthorized, Reply, json, Handling, with_user}
use gitactionflow.Http.Cookie.{Cookie, CookieOptions, set_session_cookie, clear_session_cookie}

-- githuboauth.User
pub record GithubUser : Type 0 where
  pub id : ℤ
  pub login : Text
  pub name : Text
  pub avatar_url : Text

-- AuthHandler, with auth.HashToken, auth.Encrypt and auth.RandomURLToken, and redirectFrontend's URL
-- (`none` if FrontendURL does not parse).
pub record AuthHandler : Type 0 where
  pub authorize_url : Text → Text
  pub exchange_code : ℕ → Text → Result Text
  pub fetch_user : ℕ → Text → Result GithubUser
  pub random_token : ℕ → Option Text
  pub hash_token : Text → Text
  pub encrypt : ℕ → Text → Option Text
  pub frontend_url : (path error : Text) → Option Text
  pub cookie : CookieOptions
  pub state_ttl : ℤ

pub data Outcome : Type 0 where
  redirect : Text → Outcome
  status_ok : Outcome
  internal_error : Outcome

pub record Answer : Type 0 where
  pub outcome : Outcome
  pub cookie : Option Cookie

-- The query of the callback; a parameter that is missing is empty.
pub record Callback : Type 0 where
  pub error : Text
  pub code : Text
  pub state : Text

-- `t.Add(d)`
abbrev pub add_duration : ℕ → ℤ → ℕ
add_duration t (pos n) = t + n
add_duration t (negsuc n) = t - suc n

abbrev pub failed : Answer
failed = record { outcome = internal_error; cookie = none }

abbrev pub to : Text → Answer
to url = record { outcome = redirect url; cookie = none }

module _ ⦃u : Unicode⦄ (env : Env) (h : AuthHandler) where
  abbrev outcome_to : Option Text → Outcome
  outcome_to none = internal_error
  outcome_to (some url) = redirect url

  -- redirectFrontend
  unfoldable pub redirect_frontend : Option Cookie → Text → Text → Answer
  redirect_frontend c path error = record {
    outcome = outcome_to (h.frontend_url path error);
    cookie = c;
  }

  abbrev login_page : Text → Answer
  login_page error = redirect_frontend none (codes "/login") error

  abbrev started : Text → Result (Unit {0}) × World → Answer × World
  started state (ok _, w) = (to (h.authorize_url state), w)
  started state (err e, w) = (failed, w)

  abbrev start_with : Option Text → World → Answer × World
  start_with none w = (failed, w)
  start_with (some state) w =
      started state
        (query env (create_state (h.hash_token state) (add_duration w.now h.state_ttl)) w)

  -- StartGitHub
  unfoldable pub start_github : World → Answer × World
  start_github w = start_with (h.random_token w.statements) w

  abbrev signed_in : Text → Result Session × World → Answer × World
  signed_in token (err e, w) = (failed, w)
  signed_in token (ok s, w) =
      (redirect_frontend (some (set_session_cookie token h.cookie)) (codes "/") (codes ""), w)

  abbrev open_session : User → Option Text → World → Answer × World
  open_session user none w = (failed, w)
  open_session user (some token) w =
      signed_in token (
        query env (create_session user.id (h.hash_token token) (add_duration w.now h.cookie.ttl)) w)

  abbrev with_account : Result User × World → Answer × World
  with_account (err e, w) = (failed, w)
  with_account (ok user, w) = open_session user (h.random_token w.statements) w

  abbrev store_user : GithubUser → Option Text → World → Answer × World
  store_user g none w = (failed, w)
  store_user g (some encrypted) w = with_account (
      query env
        (upsert_from_github g.id g.login (if is_empty g.name then g.login else g.name) g.avatar_url
          encrypted)
        w)

  abbrev with_profile : Text → Result GithubUser → World → Answer × World
  with_profile token (err e) w = (login_page (codes "oauth_failed"), w)
  with_profile token (ok g) w = store_user g (h.encrypt w.statements token) w

  abbrev with_token : Result Text → World → Answer × World
  with_token (err e) w = (login_page (codes "oauth_failed"), w)
  with_token (ok token) w = with_profile token (h.fetch_user w.statements token) w

  abbrev with_state : Text → Result (Unit {0}) × World → Answer × World
  with_state code (err e, w) = (login_page (codes "invalid_state"), w)
  with_state code (ok _, w) = with_token (h.exchange_code w.statements code) w

  -- CallbackGitHub
  unfoldable pub callback_github : Callback → World → Answer × World
  unfolding redirect_frontend
  callback_github q w =
      if not (is_empty q.error)
      then (login_page (codes "oauth_denied"), w)
      else if is_empty q.code || is_empty q.state
      then (login_page (codes "invalid_callback"), w)
      else with_state q.code (query env (consume_state (h.hash_token q.state) w.now) w)

  abbrev logged_out : Result (Unit {0}) × World → Answer × World
  logged_out (err e, w) = (failed, w)
  logged_out (ok _, w) =
      (record { outcome = status_ok; cookie = some (clear_session_cookie h.cookie) }, w)

  -- Logout, with the session cookie of the request.
  unfoldable pub logout : Option Text → World → Answer × World
  logout none w = logged_out (ok tt, w)
  logout (some raw) w =
      if is_empty raw
      then logged_out (ok tt, w)
      else logged_out (query env (delete_session (h.hash_token raw)) w)

-- PublicUser
pub record PublicUser : Type 0 where
  pub id : ℕ
  pub github_username : Text
  pub display_name : Text
  pub avatar_url : Text

-- ToPublic
abbrev pub to_public : User → PublicUser
to_public u = record {
  id = u.id;
  github_username = u.github_username;
  display_name = u.display_name;
  avatar_url = u.avatar_url;
}

-- Me
unfoldable pub me : Option User → Handling PublicUser
me user = with_user user λ u w. (json 200 (to_public u), w)
