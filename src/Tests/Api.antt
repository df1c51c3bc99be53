-- ===== src/Tests/Api.antt =====
-- Runs of the API: a login, a request with its cookie, and the dashboard's lists.
use gitactionflow.Base.{◌≤◌, ◌≡◌, refl, true, none, some, [], ◌∷◌, arith, All, sort_by}
use gitactionflow.Base.Int.{pos}
use gitactionflow.Base.Text.{Text, codes, text_eq}
use gitactionflow.Errors.{ok}
use gitactionflow.Store.Rows.{Db, Repository, Action, ActionStatus}
use gitactionflow.Store.Exec.{World, query}
use gitactionflow.Store.OauthStates
use gitactionflow.Store.Sessions
use gitactionflow.Store.Events
use gitactionflow.Store.Actions
use gitactionflow.Store.Repositories.{get_by_user_id}
use gitactionflow.Base.Numeral.{atoi}
use gitactionflow.Store.Users.{User, of_row, upsert_from_github}
use gitactionflow.Store.Users.Upsert.{UsersKeyed}
use gitactionflow.Store.Logins.{consume_state, create_session}
use gitactionflow.Json.{empty_object}
use gitactionflow.Http.Reply.{json}
use gitactionflow.Http.Cookie.{Cookie, CookieOptions, lax, set_session_cookie}
use gitactionflow.Http.RequireAuth.{require_auth}
use gitactionflow.Http.RequireAuth.Guards.{Guarded, require_auth-Guards}
use gitactionflow.Http.Login.{
  AuthHandler, Callback, GithubUser, callback_github, me, redirect_frontend,
}
use gitactionflow.Http.Login.Replay.{NoLogin, callback-replay}
use gitactionflow.Http.Login.SignedIn.{SignedIn}
use gitactionflow.Http.Login.RoundTrip.{callback-require_auth}
use gitactionflow.Http.Activity.{Query, Page, ActionResponse, to_event_response, list_events}
use gitactionflow.Http.Activity.Confined.{ShowsEvent, IsConnected, list_events-Confined}
use gitactionflow.Tests.Samples.{ascii, quiet, connected, with_event, world_of, queued_event}

abbrev profile : GithubUser
profile = record { id = pos 9; login = codes "o"; name = []; avatar_url = [] }

abbrev options : CookieOptions
options = record { is_secure = true; same_site = codes "Lax"; ttl = pos 5000000; path = [] }

abbrev handler : AuthHandler
handler = record {
  authorize_url = λ state. state;
  exchange_code = λ n code. ok (codes "gho");
  fetch_user = λ n token. ok profile;
  random_token = λ n. some (codes "tok");
  hash_token = λ t. t;
  encrypt = λ n t. some t;
  frontend_url = λ path error. some path;
  cookie = options;
  state_ttl = pos 600;
}

abbrev asked : Callback
asked = record { error = []; code = codes "c"; state = codes "s" }

-- A state is there, since a login has begun.
abbrev begun : World
begun = world_of (record connected {
  oauth_states =
      record { state_hash = codes "s"; expires_at = 900; created_at = 0; consumed_at = none } ∷ [];
})

abbrev set_cookie : Cookie
set_cookie = record {
  name = codes "gaf_session";
  value = codes "tok";
  max_age = pos 5;
  path = codes "/";
  is_secure = true;
  is_http_only = true;
  same_site = lax;
}

signs_in : (callback_github ⦃u = ascii⦄ quiet handler asked begun).0.cookie ≡ some set_cookie
unfolding callback_github query consume_state create_session upsert_from_github redirect_frontend
    OauthStates.consume text_eq Sessions.create set_session_cookie
signs_in = refl

abbrev logged_in : World
logged_in = (callback_github ⦃u = ascii⦄ quiet handler asked begun).1

keyed : UsersKeyed begun.db
keyed = record { distinct = (tt, tt); below = (omega arith, tt) }

logged_in_now : logged_in.now ≡ 103
unfolding callback_github query consume_state create_session upsert_from_github redirect_frontend
    OauthStates.consume text_eq Sessions.create set_session_cookie
logged_in_now = refl

callback-replay_example :
    NoLogin ⦃u = ascii⦄ quiet handler logged_in
      (callback_github ⦃u = ascii⦄ quiet handler asked logged_in)
callback-replay_example =
    callback-replay ⦃u = ascii⦄ quiet quiet handler asked asked begun logged_in signs_in refl refl
      (omega (arith, logged_in_now))

callback-require_auth_example :
    (i : SignedIn handler (codes "c") logged_in.now set_cookie logged_in.db) × (w2 : World)
    × (require_auth quiet handler.hash_token me (some (codes "tok")) logged_in
        ≡ me (some (of_row i.row)) w2)
callback-require_auth_example =
    callback-require_auth ⦃u = ascii⦄ quiet quiet handler me asked begun logged_in keyed signs_in
      refl refl (omega (arith, logged_in_now)) (λ n. refl)

require_auth-Guards_example :
    Guarded quiet
      (λ t. t)
      me
      (some (codes "tok"))
      begun
      (require_auth quiet (λ t. t) me (some (codes "tok")) begun)
require_auth-Guards_example = require_auth-Guards quiet (λ t. t) me (some (codes "tok")) begun

abbrev user : User
user = record {
  id = 2;
  github_user_id = pos 9;
  github_username = codes "o";
  display_name = codes "O";
  avatar_url = [];
  created_at = 0;
  updated_at = 0;
}

abbrev any_page : Query
any_page = record { limit = codes "5"; page = []; offset = []; event_type = [] }

abbrev page : Page
page = record { limit = pos 5; offset = pos 0 }

events_listed : list_events quiet any_page (some user) (world_of with_event) ≡ (
  json 200 (to_event_response queued_event ∷ [], page),
  (list_events quiet any_page (some user) (world_of with_event)).1,
)
unfolding list_events query get_by_user_id Events.list_recent_by_repository atoi sort_by
events_listed = refl

list_events-Confined_example :
    (repo : Repository) × IsConnected 2 with_event repo
    × All (ShowsEvent with_event repo) (to_event_response queued_event ∷ [])
    × (1 ≤ 100)
list_events-Confined_example =
    list_events-Confined quiet any_page user (world_of with_event) events_listed

abbrev stored_action : Action
stored_action = record {
  id = 6;
  event_id = 4;
  rule_id = some 3;
  action_type = codes "github_label";
  action_config = empty_object;
  idempotency_key = codes "k";
  status = ActionStatus.completed;
  attempt_count = 1;
  max_attempts = 3;
  next_retry_at = none;
  last_error = none;
  started_at = none;
  completed_at = none;
  failed_at = none;
  created_at = 5;
  updated_at = 5;
}

abbrev with_action : Db
with_action = record with_event { actions = stored_action ∷ [] }

abbrev shown_action : ActionResponse
shown_action = record {
  id = 6;
  event_id = 4;
  rule_id = some 3;
  rule_name = some (codes "bugs");
  action_type = codes "github_label";
  status = ActionStatus.completed;
  attempt_count = 1;
  max_attempts = 3;
  last_error = none;
  created_at = 5;
  completed_at = none;
  failed_at = none;
}

abbrev issues_only : Query
issues_only = record any_page { event_type = codes "issues" }
