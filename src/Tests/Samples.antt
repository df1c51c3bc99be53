-- ===== src/Tests/Samples.antt =====
-- Sample data: the tables of package unicode for ASCII, an environment in which nothing fails, a
-- connected repository, a rule, and the payload of an event.
use gitactionflow.Base.{
  ℕ, zero, suc, ◌+◌, true, false, ◌&&◌, none, some, [], ◌∷◌, leb, ◌==◌, if◌then◌else◌,
}
use gitactionflow.Base.Int.{pos}
use gitactionflow.Base.Text.{Text, codes, Unicode}
use gitactionflow.Json.{Raw, value, str, num, obj, end, field}
use gitactionflow.Store.Rows.{Repository, Rule, WebhookEvent, WebhookStatus, Db}
use gitactionflow.Store.Exec.{Env, World}
use gitactionflow.Actions.Execute.{Executor}

abbrev pub ascii_lower : ℕ → ℕ
ascii_lower c = if leb 65 c && leb c 90 then c + 32 else c

abbrev pub ascii : Unicode
ascii = record { lower = ascii_lower; fold = λ c d. ascii_lower c == ascii_lower d }

abbrev pub quiet : Env
quiet = record {
  beat = λ n. record { elapsed = 1; fault = none; locked = λ id. false };
  reply = λ n c. none;
}

abbrev pub repository : Repository
repository = record {
  id = 1;
  user_id = 2;
  github_repository_id = pos 77;
  name = codes "r";
  full_name = codes "o/r";
  owner_login = codes "o";
  default_branch = codes "main";
  html_url = [];
  is_private = false;
  created_at = 0;
  updated_at = 0;
}

abbrev pub label_rule : Rule
label_rule = record {
  id = 3;
  repository_id = 1;
  name = codes "bugs";
  enabled = true;
  event_type = codes "issues";
  keyword = some (codes "Crash");
  author = none;
  required_labels = [];
  action_type = codes "github_label";
  action_config = value (obj (field (codes "label") (str (codes "bug")) end));
  created_at = 0;
  updated_at = 0;
}

-- {"repository": {"id": 77}, "issue": {"number": 5, "title": "crash"}}
abbrev pub payload : Raw
payload = value (
    obj (
      field (codes "repository") (obj (field (codes "id") (num (pos 77)) end)) (
        field (codes "issue")
          (obj (
            field (codes "number") (num (pos 5)) (field (codes "title") (str (codes "crash")) end)))
          end)))

abbrev pub queued_event : WebhookEvent
queued_event = record {
  id = 4;
  repository_id = 1;
  delivery_id = codes "d1";
  event_type = codes "issues";
  action = [];
  payload = payload;
  status = WebhookStatus.pending;
  retry_count = 0;
  max_retries = 3;
  next_retry_at = none;
  last_error = none;
  locked_at = none;
  processed_at = none;
  failed_at = none;
  received_at = 0;
  created_at = 0;
  updated_at = 0;
}

abbrev pub connected : Db
connected = record {
  repositories = repository ∷ [];
  rules = label_rule ∷ [];
  events = [];
  actions = [];
  users =
      record {
        id = 2;
        github_user_id = pos 9;
        github_username = codes "o";
        display_name = codes "O";
        avatar_url = [];
        encrypted_token = codes "t";
        created_at = 0;
        updated_at = 0;
      }
      ∷ [];
  sessions = [];
  oauth_states = [];
  next_id = 5;
}

abbrev pub with_event : Db
with_event = record connected { events = queued_event ∷ [] }

abbrev pub world_of : Db → World
world_of db = record { db = db; now = 100; statements = 0; call_count = 0; calls = [] }

abbrev zeros : ℕ → Text
zeros zero = []
zeros (suc n) = 48 ∷ zeros n

-- Ids of 36 characters.
abbrev pub uuid_text : ℕ → Text
uuid_text n = n ∷ zeros 35

abbrev pub executor : Executor
executor = record {
  max_attempts = pos 3;
  token_key = [];
  suggest = none;
  decrypt = λ key enc. some enc;
  uuid_text = uuid_text;
}
