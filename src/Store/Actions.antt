-- ===== src/Store/Actions.antt =====
-- backend/internal/store/actions.go: the actions table, with one row for each idempotency key.
pub mod Tasks
pub mod Listing
pub mod Footprint
pub mod Unique
use gitactionflow.Base.{
  ℕ, suc, ◌+◌, Bool, true, false, ◌&&◌, ◌||◌, not, Option, none, some, List, [], ◌∷◌, ◌++◌, ltb,
  leb, ◌==◌, if◌then◌else◌, find, filter, modify, any, sort_by, take, drop, map, is_empty,
  option_or,
}
use mathlib.Core.Option
use gitactionflow.Base.Int.{ℤ, pos_part}
use gitactionflow.Base.Text.{Text, codes, text_eq}
use gitactionflow.Errors.{Error, Result, ok, err, conflict, is, wrap}
use gitactionflow.Json.{Raw, is_valid, empty, empty_object}
use gitactionflow.Store.Rows.{
  Db, Action, ActionStatus, WebhookEvent, action_is_pending, action_is_processing,
}
use gitactionflow.Store.Common.{err_not_found, err_conflict, err_other, found, is_due, clamp_limit}
use gitactionflow.Store.Exec.{Env, World, Exec, Statement, query}

-- The constraint actions_action_type_check.
unfoldable pub is_action_type : Text → Bool
is_action_type t =
    text_eq t (codes "github_label")
    || text_eq t (codes "github_comment")
    || text_eq t (codes "slack_notification")

new_action : ℕ → ℕ → ℕ → ℕ → Text → Raw → Text → ℕ → Action
new_action id now event_id rule_id action_type config key max_attempts = record {
  id = id;
  event_id = event_id;
  rule_id = some rule_id;
  action_type = action_type;
  action_config = config;
  idempotency_key = key;
  status = ActionStatus.pending;
  attempt_count = 0;
  max_attempts = max_attempts;
  next_retry_at = none;
  last_error = none;
  started_at = none;
  completed_at = none;
  failed_at = none;
  created_at = now;
  updated_at = now;
}

abbrev pub has_key : Text → Action → Bool
has_key key a = text_eq a.idempotency_key key

-- The INSERT of CreateOrGet, with the constraints of the table.
unfoldable pub insert_action : ℕ → ℕ → Text → Raw → Text → ℕ → Statement Action
unfolding new_action
insert_action event_id rule_id action_type config key max_attempts locked now db =
    let a = new_action db.next_id now event_id rule_id action_type config key max_attempts in
    if not (is_valid config && is_action_type action_type)
    then (err err_other, db)
    else if any (has_key key) db.actions
    then (err err_conflict, db)
    else if any (λ e. e.id == event_id) db.events && any (λ r. r.id == rule_id) db.rules
    then (ok a, record db { actions = db.actions ++ a ∷ []; next_id = suc db.next_id })
    else (err err_other, db)

-- GetByIdempotencyKey
unfoldable pub get_by_idempotency_key : Text → Statement Action
get_by_idempotency_key key locked now db = (found (find (has_key key) db.actions), db)

abbrev pub earlier : Action → Action → Bool
earlier a b = ltb a.created_at b.created_at || ((a.created_at == b.created_at) && ltb a.id b.id)

-- ListByEventID
unfoldable pub list_by_event_id : ℕ → Statement (List Action)
list_by_event_id event_id locked now db =
    (ok (sort_by earlier (filter (λ a. a.event_id == event_id) db.actions)), db)

-- `UPDATE actions SET ... WHERE p RETURNING ...`, where at most one row passes the test.
abbrev pub update : (Action → Bool) → (Action → Action) → Db → Result Action × Db
update p set db = elim (find p db.actions) [
  | none ↦ (err err_not_found, db)
  | some a ↦ (ok (set a), record db { actions = modify p set db.actions })
]

set_processing : ℕ → Action → Action
set_processing now a = record a {
  status = ActionStatus.processing;
  started_at = some (option_or a.started_at now (λ t. t));
  next_retry_at = none;
  updated_at = now;
}

set_completed : ℕ → Action → Action
set_completed now a = record a {
  status = ActionStatus.completed;
  completed_at = some now;
  last_error = none;
  next_retry_at = none;
  updated_at = now;
}

set_failed : ℕ → ℕ → Text → Action → Action
set_failed now attempts msg a = record a {
  status = ActionStatus.failed;
  attempt_count = attempts;
  last_error = some msg;
  failed_at = some now;
  next_retry_at = none;
  updated_at = now;
}

set_pending : ℕ → ℕ → Text → ℕ → Action → Action
set_pending now attempts msg next a = record a {
  status = ActionStatus.pending;
  attempt_count = attempts;
  last_error = some msg;
  next_retry_at = some next;
  updated_at = now;
}

-- MarkProcessing
unfoldable pub mark_processing : ℕ → Statement Action
unfolding set_processing
mark_processing id locked now db =
    update (λ a. (a.id == id) && action_is_pending a.status && is_due a.next_retry_at now)
      (set_processing now) db

-- MarkCompleted
unfoldable pub mark_completed : ℕ → Statement Action
unfolding set_completed
mark_completed id locked now db =
    update (λ a. (a.id == id) && action_is_processing a.status) (set_completed now) db

-- MarkFailedImmediately
unfoldable pub mark_failed_immediately : ℕ → Text → Statement Action
unfolding set_failed
mark_failed_immediately id msg locked now db =
    update (λ a. (a.id == id) && action_is_processing a.status)
      (λ a. set_failed now (suc a.attempt_count) msg a) db

-- ScheduleRetry. The update has no test on the status.
unfoldable pub schedule_retry : ℕ → Text → ℤ → Statement Action
unfolding set_failed set_pending
schedule_retry id msg backoff locked now db = elim (find (λ a. a.id == id) db.actions) [
  | none ↦ (err err_not_found, db)
  | some a ↦
      if leb a.max_attempts (suc a.attempt_count)
      then update (λ x. x.id == id) (set_failed now (suc a.attempt_count) msg) db
      else update (λ x. x.id == id)
          (set_pending now (suc a.attempt_count) msg (now + pos_part backoff)) db
]

pub record ActionWithRule : Type 0 where
  pub action : Action
  pub rule_name : Option Text

abbrev pub of_repository : ℕ → Text → Db → Action → Bool
of_repository repository_id event_type db a =
    any
      (λ (e : WebhookEvent).
        (e.id == a.event_id)
        && (e.repository_id == repository_id)
        && (is_empty event_type || text_eq e.event_type event_type))
      db.events

abbrev pub name_of : Option ℕ → Db → Option Text
name_of none db = none
name_of (some r) db = Option.map (λ x. x.name) (find (λ x. x.id == r) db.rules)

-- ListRecentByRepository: the actions of the repository's events, with the names of their rules.
unfoldable pub list_recent_by_repository : ℕ → ℤ → ℤ → Text → Statement (List ActionWithRule)
list_recent_by_repository repository_id limit offset event_type locked now db = (
  ok (
      map (λ a. record { action = a; rule_name = name_of a.rule_id db })
        (take (clamp_limit limit) (
          drop (pos_part offset) (
            sort_by (λ a b. earlier b a)
              (filter (of_repository repository_id event_type db) db.actions))))),
  db,
)

-- `if len(config) == 0 { config = json.RawMessage("{}") }`
abbrev or_empty : Raw → Raw
or_empty empty = empty_object
or_empty r = r

abbrev old_row : Result Action → World → Result (Action × Bool) × World
old_row (ok a) w = (ok (a, false), w)
old_row (err e) w = (err e, w)

module _ (env : Env) where
  -- What CreateOrGet does after its INSERT.
  unfoldable pub get_on_conflict : Text → Result Action → Exec (Action × Bool)
  get_on_conflict key (ok a) w = (ok (a, true), w)
  get_on_conflict key (err e) w =
      if is e conflict
      then (let (r, w') = query env (get_by_idempotency_key key) w in old_row r w')
      else (err (wrap (codes "create action") e), w)

  -- CreateOrGet: the row, and whether it is new.
  unfoldable pub create_or_get : ℕ → ℕ → Text → Raw → Text → ℤ → Exec (Action × Bool)
  unfolding get_on_conflict
  create_or_get event_id rule_id action_type config key max_attempts w =
      let (r, w') =
        query env
          (insert_action event_id rule_id action_type (or_empty config) key (pos_part max_attempts))
          w in
      get_on_conflict key r w'
