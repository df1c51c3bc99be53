-- ===== src/Store/Rules.antt =====
-- backend/internal/store/rules.go: the rules table. Each statement that changes or deletes a rule is
-- confined to one repository.
use gitactionflow.Base.{
  ℕ, suc, Bool, true, ◌&&◌, ◌||◌, not, none, some, List, [], ◌∷◌, ◌++◌, ltb, ◌==◌, if◌then◌else◌,
  find, filter, modify, any, sort_by, is_empty, option_or,
}
use gitactionflow.Base.Text.{Text, codes, text_eq, trim_blanks}
use gitactionflow.Errors.{ok, err}
use gitactionflow.Json.{is_valid}
use gitactionflow.Store.Rows.{Rule, Action}
use gitactionflow.Store.Common.{err_not_found, err_other, found}
use gitactionflow.Store.Exec.{Statement}
use gitactionflow.Store.Actions.{is_action_type}

-- The constraint rules_event_type_check.
unfoldable pub is_event_type : Text → Bool
is_event_type t = text_eq t (codes "issues") || text_eq t (codes "pull_request")

-- The CHECK constraints of the table, and its JSONB column.
unfoldable pub satisfies_checks : Rule → Bool
satisfies_checks r =
    is_event_type r.event_type
    && is_action_type r.action_type
    && not (is_empty (trim_blanks r.name))
    && is_valid r.action_config

-- Create
unfoldable pub create : Rule → Statement Rule
create r locked now db =
    let new = record r { id = db.next_id; created_at = now; updated_at = now } in
    if satisfies_checks r && any (λ x. x.id == r.repository_id) db.repositories
    then (ok new, record db { rules = db.rules ++ new ∷ []; next_id = suc db.next_id })
    else (err err_other, db)

abbrev earlier : Rule → Rule → Bool
earlier a b = ltb a.created_at b.created_at || ((a.created_at == b.created_at) && ltb a.id b.id)

-- ListByRepository
unfoldable pub list_by_repository : ℕ → Statement (List Rule)
list_by_repository repository_id locked now db =
    (ok (sort_by earlier (filter (λ r. r.repository_id == repository_id) db.rules)), db)

-- ListEnabledByRepository
unfoldable pub list_enabled_by_repository : ℕ → Statement (List Rule)
list_enabled_by_repository repository_id locked now db = (
  ok (sort_by earlier (filter (λ r. (r.repository_id == repository_id) && r.enabled) db.rules)),
  db,
)

-- GetByID
unfoldable pub get_by_id : ℕ → Statement Rule
get_by_id id locked now db = (found (find (λ r. r.id == id) db.rules), db)

abbrev pub owned : ℕ → ℕ → Rule → Bool
owned repository_id id r = (r.id == id) && (r.repository_id == repository_id)

unfoldable pub set_fields : ℕ → Rule → Rule → Rule
set_fields now new r = record r {
  name = new.name;
  enabled = new.enabled;
  event_type = new.event_type;
  keyword = new.keyword;
  author = new.author;
  required_labels = new.required_labels;
  action_type = new.action_type;
  action_config = new.action_config;
  updated_at = now;
}

-- Update
unfoldable pub update : ℕ → ℕ → Rule → Statement Rule
unfolding set_fields
update repository_id id new locked now db = elim (find (owned repository_id id) db.rules) [
  | none ↦ (err err_not_found, db)
  | some r ↦
      if satisfies_checks new
      then (
        ok (set_fields now new r),
        record db { rules = modify (owned repository_id id) (set_fields now new) db.rules },
      )
      else (err err_other, db)
]

-- `ON DELETE SET NULL` of actions.rule_id
abbrev pub forget_rule : ℕ → Action → Action
forget_rule id a = record a {
  rule_id = option_or a.rule_id none (λ r. if r == id then none else some r);
}

-- Delete
unfoldable pub delete : ℕ → ℕ → Statement (Unit {0})
delete repository_id id locked now db = elim (find (owned repository_id id) db.rules) [
  | none ↦ (err err_not_found, db)
  | some r ↦ (
    ok tt,
    record db {
      rules = filter (λ r. not (owned repository_id id r)) db.rules;
      actions = modify (λ a. true) (forget_rule id) db.actions;
    },
  )
]
