-- ===== src/Store/Rows.antt =====
-- The rows of the PostgreSQL tables as package store reads them, and the database.
-- A `uuid.UUID` is a number, with 0 for `uuid.Nil`; a time is a number of microseconds, the
-- resolution of TIMESTAMPTZ; a column that may be NULL is an `Option`.
use gitactionflow.Base.{ℕ, Bool, true, false, Option, List}
use gitactionflow.Base.Int.{ℤ}
use gitactionflow.Base.Text.{Text}
use gitactionflow.Json.{Raw}
use gitactionflow.Store.Sessions.{Session}
use gitactionflow.Store.OauthStates.{State}

pub record Repository : Type 0 where
  pub id : ℕ
  pub user_id : ℕ
  pub github_repository_id : ℤ
  pub name : Text
  pub full_name : Text
  pub owner_login : Text
  pub default_branch : Text
  pub html_url : Text
  pub is_private : Bool
  pub created_at : ℕ
  pub updated_at : ℕ

pub record Rule : Type 0 where
  pub id : ℕ
  pub repository_id : ℕ
  pub name : Text
  pub enabled : Bool
  pub event_type : Text
  pub keyword : Option Text
  pub author : Option Text
  pub required_labels : List Text
  pub action_type : Text
  pub action_config : Raw
  pub created_at : ℕ
  pub updated_at : ℕ

pub data WebhookStatus : Type 0 where
  pending processing processed failed : WebhookStatus

pub record WebhookEvent : Type 0 where
  pub id : ℕ
  pub repository_id : ℕ
  pub delivery_id : Text
  pub event_type : Text
  pub action : Text
  pub payload : Raw
  pub status : WebhookStatus
  pub retry_count : ℕ
  pub max_retries : ℕ
  pub next_retry_at : Option ℕ
  pub last_error : Option Text
  pub locked_at : Option ℕ
  pub processed_at : Option ℕ
  pub failed_at : Option ℕ
  pub received_at : ℕ
  pub created_at : ℕ
  pub updated_at : ℕ

pub data ActionStatus : Type 0 where
  pending processing completed failed : ActionStatus

pub record Action : Type 0 where
  pub id : ℕ
  pub event_id : ℕ
  pub rule_id : Option ℕ
  pub action_type : Text
  pub action_config : Raw
  pub idempotency_key : Text
  pub status : ActionStatus
  pub attempt_count : ℕ
  pub max_attempts : ℕ
  pub next_retry_at : Option ℕ
  pub last_error : Option Text
  pub started_at : Option ℕ
  pub completed_at : Option ℕ
  pub failed_at : Option ℕ
  pub created_at : ℕ
  pub updated_at : ℕ

-- A row of `users`.
pub record UserRow : Type 0 where
  pub id : ℕ
  pub github_user_id : ℤ
  pub github_username : Text
  pub display_name : Text
  pub avatar_url : Text
  pub encrypted_token : Text
  pub created_at : ℕ
  pub updated_at : ℕ

-- `next_id` is what `gen_random_uuid()` returns next: an id that no row has.
pub record Db : Type 0 where
  pub repositories : List Repository
  pub rules : List Rule
  pub events : List WebhookEvent
  pub actions : List Action
  pub users : List UserRow
  pub sessions : List Session
  pub oauth_states : List State
  pub next_id : ℕ

abbrev pub is_pending : WebhookStatus → Bool
is_pending pending = true
is_pending _ = false

abbrev pub is_processing : WebhookStatus → Bool
is_processing processing = true
is_processing _ = false

abbrev pub action_is_pending : ActionStatus → Bool
action_is_pending ActionStatus.pending = true
action_is_pending _ = false

abbrev pub action_is_processing : ActionStatus → Bool
action_is_processing ActionStatus.processing = true
action_is_processing _ = false

abbrev pub action_is_completed : ActionStatus → Bool
action_is_completed ActionStatus.completed = true
action_is_completed _ = false

abbrev pub action_is_failed : ActionStatus → Bool
action_is_failed ActionStatus.failed = true
action_is_failed _ = false
