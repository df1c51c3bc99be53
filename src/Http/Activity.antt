-- ===== src/Http/Activity.antt =====
-- backend/internal/http/handlers/activity.go: the history of events and actions for the dashboard.
pub mod Confined
use gitactionflow.Base.{
  ℕ, ◌*◌, ◌-◌, Bool, true, false, ◌||◌, ◌&&◌, not, Option, none, some, List, [], map, is_empty,
  if◌then◌else◌,
}
use gitactionflow.Base.Int.{ℤ, pos, negsuc, is_le_zero, is_negative, pos_part}
use gitactionflow.Base.Numeral.{atoi, wrap64}
use gitactionflow.Base.Text.{Text, codes, text_eq, trim_space}
use gitactionflow.Errors.{Error, Result, ok, err, is, not_found}
use gitactionflow.Store.Rows.{Repository, WebhookEvent, WebhookStatus, Action, ActionStatus}
use gitactionflow.Store.Exec.{Env, World, Exec, query}
use gitactionflow.Store.Users.{User}
use gitactionflow.Store.Repositories.{get_by_user_id}
use gitactionflow.Store.Events
use gitactionflow.Store.Actions
use gitactionflow.Store.Actions.{ActionWithRule}
use gitactionflow.Http.Reply.{Reply, json, Handling, json_error, with_user, respond}

-- The query string of a request; a parameter that is missing is empty.
pub record Query : Type 0 where
  pub limit : Text
  pub page : Text
  pub offset : Text
  pub event_type : Text

pub record Page : Type 0 where
  pub limit : ℤ
  pub offset : ℤ

pub record EventResponse : Type 0 where
  pub id : ℕ
  pub event_type : Text
  pub action : Text
  pub status : WebhookStatus
  pub delivery_id : Text
  pub retry_count : ℕ
  pub last_error : Option Text
  pub received_at : ℕ
  pub processed_at : Option ℕ
  pub failed_at : Option ℕ

pub record ActionResponse : Type 0 where
  pub id : ℕ
  pub event_id : ℕ
  pub rule_id : Option ℕ
  pub rule_name : Option Text
  pub action_type : Text
  pub status : ActionStatus
  pub attempt_count : ℕ
  pub max_attempts : ℕ
  pub last_error : Option Text
  pub created_at : ℕ
  pub completed_at : Option ℕ
  pub failed_at : Option ℕ

abbrev limit_of : Option ℤ → ℤ
limit_of none = pos 20
limit_of (some v) = if is_le_zero v then pos 20 else v

-- `(page - 1) * limit` for a page above 1; the product wraps around.
abbrev page_offset : ℤ → Option ℤ → ℤ
page_offset limit none = pos 0
page_offset limit (some page) =
    if is_le_zero page then pos 0 else wrap64 ((pos_part page - 1) * pos_part limit)

abbrev offset_of : ℤ → Option ℤ → ℤ
offset_of old none = old
offset_of old (some v) = if is_negative v then old else v

-- parsePageLimit. An empty parameter is no number.
unfoldable pub parse_page_limit : Query → Page
parse_page_limit q =
    let limit = limit_of (atoi q.limit) in
    record { limit = limit; offset = offset_of (page_offset limit (atoi q.page)) (atoi q.offset) }

-- parseEventTypeFilter: `none` for a value that is not allowed.
unfoldable pub parse_event_type_filter : Query → Option Text
parse_event_type_filter q =
    let raw = trim_space q.event_type in
    if is_empty raw
    then some []
    else if text_eq raw (codes "issues") || text_eq raw (codes "pull_request")
    then some raw
    else none

abbrev pub to_event_response : WebhookEvent → EventResponse
to_event_response e = record {
  id = e.id;
  event_type = e.event_type;
  action = e.action;
  status = e.status;
  delivery_id = e.delivery_id;
  retry_count = e.retry_count;
  last_error = e.last_error;
  received_at = e.received_at;
  processed_at = e.processed_at;
  failed_at = e.failed_at;
}

abbrev pub to_action_response : ActionWithRule → ActionResponse
to_action_response row = record {
  id = row.action.id;
  event_id = row.action.event_id;
  rule_id = row.action.rule_id;
  rule_name = row.rule_name;
  action_type = row.action.action_type;
  status = row.action.status;
  attempt_count = row.action.attempt_count;
  max_attempts = row.action.max_attempts;
  last_error = row.action.last_error;
  created_at = row.action.created_at;
  completed_at = row.action.completed_at;
  failed_at = row.action.failed_at;
}

abbrev pub failed_to {ℓ} : {A : Type ℓ} → Text → Error → Reply A
failed_to message e = json_error 500 (codes "INTERNAL") message

module _ (env : Env) where
  abbrev pub with_found {ℓ} :
      {A : Type ℓ} → (Repository → Handling A) → Result Repository → Handling A
  with_found h (ok repo) w = h repo w
  with_found h (err e) w = (
    if is e not_found
        then json_error 404 (codes "REPOSITORY_NOT_CONNECTED") (codes "no repository connected")
        else failed_to (codes "failed to load repository") e,
    w,
  )

  -- connectedRepo, with what the handler does with the repository.
  unfoldable pub with_connected_repo {ℓ} : {A : Type ℓ} → ℕ → (Repository → Handling A) → Handling A
  with_connected_repo user_id h w =
      let (r, w') = query env (get_by_user_id user_id) w in with_found h r w'

  abbrev pub events_of : Query → Repository → Handling (List EventResponse × Page)
  events_of q repo =
      let p = parse_page_limit q in
      respond 200 (λ list. (map to_event_response list, p))
        (failed_to (codes "failed to list events"))
        (query env (Events.list_recent_by_repository repo.id p.limit p.offset))

  -- ListEvents
  unfoldable pub list_events : Query → Option User → Handling (List EventResponse × Page)
  unfolding with_connected_repo parse_page_limit
  list_events q user = with_user user λ u. with_connected_repo u.id (events_of q)

  abbrev pub actions_of_type :
      Page → Repository → Option Text → Handling (List ActionResponse × Page)
  actions_of_type p repo none w = (
    json_error 400 (codes "INVALID_QUERY") (codes "event_type must be issues or pull_request"),
    w,
  )
  actions_of_type p repo (some event_type) w =
      respond 200 (λ list. (map to_action_response list, p))
        (failed_to (codes "failed to list actions"))
        (query env (Actions.list_recent_by_repository repo.id p.limit p.offset event_type)) w

  -- ListActions
  unfoldable pub list_actions : Query → Option User → Handling (List ActionResponse × Page)
  unfolding with_connected_repo parse_page_limit parse_event_type_filter
  list_actions q user = with_user user λ u.
      with_connected_repo u.id
        λ repo. actions_of_type (parse_page_limit q) repo (parse_event_type_filter q)
