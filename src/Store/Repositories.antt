-- ===== src/Store/Repositories.antt =====
-- backend/internal/store/repositories.go: the connected repositories, at most one for each user.
use gitactionflow.Base.{
  ℕ, suc, Bool, true, ◌&&◌, not, none, some, [], ◌∷◌, ◌++◌, ◌==◌, if◌then◌else◌, find, filter,
  modify, any, option_or,
}
use gitactionflow.Base.Int.{ℤ, int_eq}
use gitactionflow.Base.Text.{Text}
use gitactionflow.Errors.{ok, err}
use gitactionflow.Store.Rows.{Db, Repository, WebhookEvent, Action, Rule}
use gitactionflow.Store.Common.{err_conflict, err_other, found}
use gitactionflow.Store.Exec.{Statement}

-- GetByUserID
unfoldable pub get_by_user_id : ℕ → Statement Repository
get_by_user_id user_id locked now db =
    (found (find (λ r. r.user_id == user_id) db.repositories), db)

-- GetByID
unfoldable pub get_by_id : ℕ → Statement Repository
get_by_id id locked now db = (found (find (λ r. r.id == id) db.repositories), db)

-- GetByGitHubID: of several rows PostgreSQL may return any; here it is the first in the table.
unfoldable pub get_by_github_id : ℤ → Statement Repository
get_by_github_id github_id locked now db =
    (found (find (λ r. int_eq r.github_repository_id github_id) db.repositories), db)

-- Insert. UNIQUE (user_id), and the foreign key to users.
unfoldable pub insert :
    ℕ
    → ℤ
    → (name full_name owner_login default_branch html_url : Text) → Bool
    → Statement Repository
insert user_id github_id name full_name owner_login default_branch html_url is_private locked now
      db =
    let r : Repository = record {
      id = db.next_id;
      user_id = user_id;
      github_repository_id = github_id;
      name = name;
      full_name = full_name;
      owner_login = owner_login;
      default_branch = default_branch;
      html_url = html_url;
      is_private = is_private;
      created_at = now;
      updated_at = now;
    } in
    if any (λ x. x.user_id == user_id) db.repositories
    then (err err_conflict, db)
    else if any (λ u. u.id == user_id) db.users
    then (ok r, record db { repositories = db.repositories ++ r ∷ []; next_id = suc db.next_id })
    else (err err_other, db)

abbrev owns : ℕ → ℕ → Db → Bool
owns user_id id db =
    any (λ (r : Repository). (r.id == id) && (r.user_id == user_id)) db.repositories

abbrev event_owned : ℕ → ℕ → Db → Bool
event_owned user_id id db =
    any (λ (e : WebhookEvent). (e.id == id) && owns user_id e.repository_id db) db.events

abbrev rule_owned : ℕ → ℕ → Db → Bool
rule_owned user_id id db =
    any (λ (r : Rule). (r.id == id) && owns user_id r.repository_id db) db.rules

abbrev forget_rules : ℕ → Db → Action → Action
forget_rules user_id db a = record a {
  rule_id = option_or a.rule_id none (λ r. if rule_owned user_id r db then none else some r);
}

-- DeleteByUserID, with what the foreign keys cascade to.
unfoldable pub delete_by_user_id : ℕ → Statement (Unit {0})
delete_by_user_id user_id locked now db = (
  ok tt,
  record db {
    repositories = filter (λ r. not (r.user_id == user_id)) db.repositories;
    rules = filter (λ r. not (owns user_id r.repository_id db)) db.rules;
    events = filter (λ e. not (owns user_id e.repository_id db)) db.events;
    actions =
        modify (λ a. true) (forget_rules user_id db)
          (filter (λ a. not (event_owned user_id a.event_id db)) db.actions);
  },
)
