-- ===== src/Http/RepositoryApi.antt =====
-- backend/internal/http/handlers/repository.go: the API of the connected repository.
use gitactionflow.Base.{◌||◌, Option, none, some, List, if◌then◌else◌}
use gitactionflow.Base.Int.{ℤ}
use gitactionflow.Base.Text.{codes}
use gitactionflow.Errors.{
  Error, is, not_found, invalid_input, already_connected, access_denied, repository_not_found,
  unauthorized, token_unavailable, rate_limited,
}
use gitactionflow.Store.Rows.{Repository}
use gitactionflow.Store.Exec.{Env}
use gitactionflow.Store.Users.{User}
use gitactionflow.Reposervice
use gitactionflow.Reposervice.{Service, GithubRepository}
use gitactionflow.Http.Reply.{
  Reply, Handling, json_error, internal, bad_request, with_user, respond,
}

-- writeServiceError
unfoldable pub write_service_error {ℓ} : {A : Type ℓ} → Error → Reply A
write_service_error e =
    if is e invalid_input
    then json_error 400 (codes "INVALID_REPOSITORY_ID") (codes "invalid repository id")
    else if is e already_connected
    then json_error 409 (codes "REPOSITORY_ALREADY_CONNECTED")
        (codes "disconnect the current repository before connecting another")
    else if is e access_denied
    then json_error 403 (codes "REPOSITORY_ACCESS_DENIED")
        (codes "admin access to the repository is required")
    else if is e repository_not_found
    then json_error 404 (codes "REPOSITORY_NOT_FOUND") (codes "repository could not be found")
    else if is e unauthorized || is e token_unavailable
    then json_error 401 (codes "GITHUB_UNAUTHORIZED")
        (codes "github authentication failed; sign in again")
    else if is e rate_limited
    then json_error 429 (codes "GITHUB_RATE_LIMITED") (codes "github rate limit exceeded")
    else internal

abbrev connected_error {ℓ} : {A : Type ℓ} → Error → Reply A
connected_error e =
    if is e not_found
    then json_error 404 (codes "REPOSITORY_NOT_CONNECTED") (codes "no repository connected")
    else write_service_error e

module _ (env : Env) (x : Service) where
  unfoldable pub list_github_repositories : Option User → Handling (List GithubRepository)
  unfolding write_service_error
  list_github_repositories user = with_user user λ u.
      respond 200 (λ list. list) write_service_error
        (Reposervice.list_github_repositories env x u.id)

  unfoldable pub get_connected : Option User → Handling Repository
  unfolding write_service_error
  get_connected user =
      with_user user
        λ u. respond 200 (λ r. r) connected_error (Reposervice.get_connected env x u.id)

  abbrev with_body {ℓ} : {A : Type ℓ} → Option ℤ → (ℤ → Handling A) → Handling A
  with_body none h w = (bad_request (codes "invalid request body"), w)
  with_body (some id) h w = h id w

  -- The body is the `github_repository_id` that ShouldBindJSON reads, 0 if there is none.
  unfoldable pub connect : Option ℤ → Option User → Handling Repository
  unfolding write_service_error
  connect body user = with_user user λ u.
      with_body body
        λ id. respond 201 (λ r. r) write_service_error (Reposervice.connect env x u.id id)

  unfoldable pub disconnect : Option User → Handling (Unit {0})
  unfolding write_service_error
  disconnect user =
      with_user user
        λ u. respond 200 (λ t. t) write_service_error (Reposervice.disconnect env x u.id)
