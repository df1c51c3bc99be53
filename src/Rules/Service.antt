-- ===== src/Rules/Service.antt =====
-- backend/internal/rules/service.go: rules of the caller's connected repository.
pub mod Scope
pub mod Owned
pub mod Fits
use gitactionflow.Base.{ℕ, Bool, true, false, Option, none, some, List, [], if◌then◌else◌, ◌==◌}
use gitactionflow.Base.Text.{Text, codes, Unicode}
use gitactionflow.Errors.{Error, Result, ok, err, is, not_found, no_repository, rule_not_found}
use gitactionflow.Store.Rows.{Rule, Repository}
use gitactionflow.Store.Exec.{Env, World, Exec, query, lift, raise, pure, ◌>>=◌, ◌>>◌}
use gitactionflow.Store.Repositories
use gitactionflow.Store.Rules
use gitactionflow.Rules.Validate.{Input, validate_normalize}

abbrev pub err_no_repository : Error
err_no_repository = record { kind = no_repository; message = codes "no repository connected" }

abbrev pub err_rule_not_found : Error
err_rule_not_found = record { kind = rule_not_found; message = codes "rule not found" }

-- `if errors.Is(err, store.ErrNotFound) { return instead }; return err`
abbrev pub replace_not_found {ℓ} : {A : Type ℓ} → Error → Result A → Result A
replace_not_found instead (ok a) = ok a
replace_not_found instead (err e) = err (if is e not_found then instead else e)

abbrev pub mapping {ℓ} : {A : Type ℓ} → Error → Exec A → Exec A
mapping instead m w = let (r, w') = m w in (replace_not_found instead r, w')

-- The rule that Create and Update hand to the store. The store sets the id and the times.
abbrev pub to_rule : ℕ → Input → Rule
to_rule repository_id norm = record {
  id = 0;
  repository_id = repository_id;
  name = norm.name;
  enabled = norm.enabled;
  event_type = norm.event_type;
  keyword = norm.keyword;
  author = norm.author;
  required_labels = norm.required_labels;
  action_type = norm.action_type;
  action_config = norm.action_config;
  created_at = 0;
  updated_at = 0;
}

module _ ⦃u : Unicode⦄ (env : Env) where
  unfoldable pub connected_repo : ℕ → Exec Repository
  connected_repo user_id =
      mapping err_no_repository (query env (Repositories.get_by_user_id user_id))

  unfoldable pub create : ℕ → Input → Exec Rule
  unfolding connected_repo
  create user_id input = do
    norm ← lift (validate_normalize input)
    repo ← connected_repo user_id
    query env (Rules.create (to_rule repo.id norm))

  unfoldable pub list : ℕ → Exec (List Rule)
  unfolding connected_repo
  list user_id = do repo ← connected_repo user_id; query env (Rules.list_by_repository repo.id)

  unfoldable pub get : ℕ → ℕ → Exec Rule
  unfolding connected_repo
  get user_id rule_id = do
    repo ← connected_repo user_id
    r ← mapping err_rule_not_found (query env (Rules.get_by_id rule_id))
    if r.repository_id == repo.id then pure r else raise err_rule_not_found

  unfoldable pub update : ℕ → ℕ → Input → Exec Rule
  unfolding connected_repo
  update user_id rule_id input = do
    norm ← lift (validate_normalize input)
    repo ← connected_repo user_id
    mapping err_rule_not_found (query env (Rules.update repo.id rule_id (to_rule repo.id norm)))

  unfoldable pub delete : ℕ → ℕ → Exec (Unit {0})
  unfolding connected_repo
  delete user_id rule_id = do
    repo ← connected_repo user_id
    mapping err_rule_not_found (query env (Rules.delete repo.id rule_id))
