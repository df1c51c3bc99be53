-- ===== src/Http/RuleApi.antt =====
-- backend/internal/http/handlers/rules.go: the API of the rules. A request's path parameter and body
-- are what uuid.Parse and ShouldBindJSON read in them: `none` if that fails.
use gitactionflow.Base.{ℕ, Bool, true, Option, none, some, List, map, if◌then◌else◌, option_or}
use gitactionflow.Base.Text.{Text, codes, Unicode}
use gitactionflow.Errors.{Error, is, invalid_rule, no_repository, rule_not_found}
use gitactionflow.Json.{Raw}
use gitactionflow.Store.Rows.{Rule}
use gitactionflow.Store.Exec.{Env}
use gitactionflow.Store.Users.{User}
use gitactionflow.Rules.Validate.{Input}
use gitactionflow.Rules.Service
use gitactionflow.Http.Reply.{
  Reply, Handling, json_error, internal, bad_request, with_user, respond,
}

pub record RuleRequest : Type 0 where
  pub name : Text
  pub enabled : Option Bool
  pub event_type : Text
  pub keyword : Option Text
  pub author : Option Text
  pub required_labels : List Text
  pub action_type : Text
  pub action_config : Raw

pub record RuleResponse : Type 0 where
  pub id : ℕ
  pub name : Text
  pub enabled : Bool
  pub event_type : Text
  pub keyword : Option Text
  pub author : Option Text
  pub required_labels : List Text
  pub action_type : Text
  pub action_config : Raw
  pub created_at : ℕ
  pub updated_at : ℕ

-- toRuleResponse
abbrev pub to_rule_response : Rule → RuleResponse
to_rule_response r = record {
  id = r.id;
  name = r.name;
  enabled = r.enabled;
  event_type = r.event_type;
  keyword = r.keyword;
  author = r.author;
  required_labels = r.required_labels;
  action_type = r.action_type;
  action_config = r.action_config;
  created_at = r.created_at;
  updated_at = r.updated_at;
}

-- toInput: a rule is enabled unless the request says otherwise.
abbrev pub to_input : RuleRequest → Input
to_input req = record {
  name = req.name;
  enabled = option_or req.enabled true (λ b. b);
  event_type = req.event_type;
  keyword = req.keyword;
  author = req.author;
  required_labels = req.required_labels;
  action_type = req.action_type;
  action_config = req.action_config;
}

-- writeError
unfoldable pub write_error {ℓ} : {A : Type ℓ} → Error → Reply A
write_error e =
    if is e invalid_rule
    then json_error 400 (codes "INVALID_RULE") e.message
    else if is e no_repository
    then json_error 404 (codes "REPOSITORY_NOT_CONNECTED")
        (codes "connect a repository before managing rules")
    else if is e rule_not_found
    then json_error 404 (codes "RULE_NOT_FOUND") (codes "rule not found")
    else internal

abbrev with_id {ℓ} : {A : Type ℓ} → Option ℕ → (ℕ → Handling A) → Handling A
with_id none h w = (bad_request (codes "invalid rule id"), w)
with_id (some id) h w = h id w

abbrev with_request {ℓ} :
    {A : Type ℓ} → Option RuleRequest → (RuleRequest → Handling A) → Handling A
with_request none h w = (bad_request (codes "invalid request body"), w)
with_request (some req) h w = h req w

module _ ⦃u : Unicode⦄ (env : Env) where
  unfoldable pub list : Option User → Handling (List RuleResponse)
  unfolding write_error
  list user =
      with_user user λ x. respond 200 (map to_rule_response) write_error (Service.list env x.id)

  unfoldable pub create : Option RuleRequest → Option User → Handling RuleResponse
  unfolding write_error
  create body user = with_user user λ x.
      with_request body
        λ req. respond 201 to_rule_response write_error (Service.create env x.id (to_input req))

  unfoldable pub get : Option ℕ → Option User → Handling RuleResponse
  unfolding write_error
  get param user =
      with_user user
        λ x. with_id param λ id. respond 200 to_rule_response write_error (Service.get env x.id id)

  unfoldable pub update : Option ℕ → Option RuleRequest → Option User → Handling RuleResponse
  unfolding write_error
  update param body user = with_user user λ x. with_id param λ id.
      with_request body
        λ req. respond 200 to_rule_response write_error (Service.update env x.id id (to_input req))

  -- The body of the response is a fixed status.
  unfoldable pub delete : Option ℕ → Option User → Handling (Unit {0})
  unfolding write_error
  delete param user =
      with_user user
        λ x. with_id param λ id. respond 200 (λ t. t) write_error (Service.delete env x.id id)
