-- ===== src/Reposervice.antt =====
-- backend/internal/reposervice/service.go: connecting a GitHub repository. The calls of the GitHub
-- API and auth.Decrypt are parameters.
pub mod Admin
use gitactionflow.Base.{
  ℕ, Bool, true, false, not, Option, none, some, List, [], ◌∷◌, ◌++◌, if◌then◌else◌, map,
}
use gitactionflow.Base.Int.{ℤ, is_le_zero}
use gitactionflow.Base.Text.{Text, codes}
use gitactionflow.Errors.{
  Error, Result, ok, err, is, wrap, not_found, conflict, github_unauthorized, github_rate_limited,
  github_not_found, github_forbidden, Sentinel, already_connected, access_denied,
  repository_not_found, unauthorized, rate_limited, invalid_input, token_unavailable,
}
use gitactionflow.Store.Rows.{Repository}
use gitactionflow.Store.Exec.{Env, World, Exec, query, raise, pure, attempt, lift, ◌>>=◌}
use gitactionflow.Store.Repositories
use gitactionflow.Store.Users

-- githubapi.Repository, less the permissions that are not used.
pub record GithubRepository : Type 0 where
  pub id : ℤ
  pub name : Text
  pub full_name : Text
  pub is_private : Bool
  pub default_branch : Text
  pub html_url : Text
  pub owner_login : Text
  pub admin : Bool

-- The Service, with what the GitHub API answers to a token.
pub record Service : Type 0 where
  pub list_repositories : Text → Result (List GithubRepository)
  pub get_repository : Text → ℤ → Result GithubRepository
  pub token_key : Text
  pub decrypt : Text → Text → Option Text

abbrev pub failure : Sentinel → Error
failure s = record { kind = s; message = codes "repository service" }

-- mapGitHubErr
unfoldable pub map_github_err : Error → Error
map_github_err e =
    if is e github_unauthorized
    then failure unauthorized
    else if is e github_rate_limited
    then failure rate_limited
    else if is e github_not_found
    then failure repository_not_found
    else if is e github_forbidden
    then failure access_denied
    else e

abbrev or_mapped {ℓ} : {A : Type ℓ} → Result A → Result A
or_mapped (ok a) = ok a
or_mapped (err e) = err (map_github_err e)

module _ (env : Env) (x : Service) where
  abbrev token_result : Result Text → Result Text
  token_result (err e) = err (if is e not_found then failure token_unavailable else e)
  token_result (ok enc) = elim (x.decrypt x.token_key enc) [
    | none ↦ err (failure token_unavailable)
    | some plain ↦ ok plain
  ]

  -- accessToken
  unfoldable pub access_token : ℕ → Exec Text
  access_token user_id w =
      let (r, w') = query env (Users.get_encrypted_access_token user_id) w in (token_result r, w')

  -- ListGitHubRepositories
  unfoldable pub list_github_repositories : ℕ → Exec (List GithubRepository)
  unfolding access_token map_github_err
  list_github_repositories user_id =
      access_token user_id >>= λ token. lift (or_mapped (x.list_repositories token))

  -- GetConnected
  unfoldable pub get_connected : ℕ → Exec Repository
  get_connected user_id = query env (Repositories.get_by_user_id user_id)

  abbrev saved : Result Repository → Exec Repository
  saved (ok r) = pure r
  saved (err e) =
      raise
        (if is e conflict then failure already_connected else wrap (codes "persist repository") e)

  abbrev with_repository : ℕ → GithubRepository → Exec Repository
  with_repository user_id g =
      if not g.admin
      then raise (failure access_denied)
      else (attempt (
            query env (
              Repositories.insert user_id g.id g.name g.full_name g.owner_login g.default_branch
                g.html_url g.is_private))
          >>= saved)

  abbrev when_free : ℕ → ℤ → Result Repository → Exec Repository
  when_free user_id repo_id (ok r) = raise (failure already_connected)
  when_free user_id repo_id (err e) =
      if not (is e not_found)
      then raise e
      else (access_token user_id >>= λ token.
          lift (or_mapped (x.get_repository token repo_id)) >>= with_repository user_id)

  -- Connect
  unfoldable pub connect : ℕ → ℤ → Exec Repository
  unfolding access_token map_github_err
  connect user_id repo_id =
      if is_le_zero repo_id
      then raise (failure invalid_input)
      else (attempt (query env (Repositories.get_by_user_id user_id)) >>= when_free user_id repo_id)

  -- Disconnect
  unfoldable pub disconnect : ℕ → Exec (Unit {0})
  disconnect user_id = query env (Repositories.delete_by_user_id user_id)
