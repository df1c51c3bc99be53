-- ===== src/Githubapi.antt =====
-- backend/internal/githubapi/client.go: the calls of GitHub's REST API.
pub mod Decode
pub mod Retries
pub mod Pages
use gitactionflow.Base.{
  ℕ, zero, suc, ◌+◌, Bool, true, false, ◌&&◌, Option, none, some, List, [], ◌∷◌, ◌++◌, any, ◌==◌,
  leb, ltb, length, if◌then◌else◌,
}
use gitactionflow.Base.Int.{ℤ, pos, negsuc, int_eq}
use gitactionflow.Base.Text.{Text, codes, text_eq, decimal, Unicode}
use gitactionflow.Errors.{
  Error, Result, ok, err, other, Sentinel, github_unauthorized, github_not_found, github_forbidden,
  github_rate_limited, github_retryable, github_permanent, ◌>>=◌,
}
use gitactionflow.Json.{Json, str, arr, obj, Items, nil, cons, field, end, Raw}
use gitactionflow.Githubapi.Decode.{Repository, decode_repository, decode_repositories}
use gitactionflow.Transport.{
  json, no_body, Request, Method, get, post, Response, Attempt, unbuilt, no_answer, unreadable,
  answer, Transport,
}

abbrev pub message_of : Sentinel → Text
message_of github_unauthorized = codes "github unauthorized"
message_of github_not_found = codes "github not found"
message_of github_forbidden = codes "github forbidden"
message_of github_rate_limited = codes "github rate limited"
message_of github_retryable = codes "github retryable error"
message_of github_permanent = codes "github permanent error"
message_of _ = []

-- One of the package's errors, and one that wraps it.
abbrev pub plain : Sentinel → Error
plain s = record { kind = s; message = message_of s }

abbrev pub wrapping : Sentinel → Text → Error
wrapping s detail = record { kind = s; message = message_of s ++ (codes ": " ++ detail) }

abbrev pub status_text : ℕ → Text
status_text n = codes "github status " ++ decimal n

-- The error of a response whose status is not expected.
unfoldable pub classify : Response → Error
classify r =
    if r.status == 401
    then plain github_unauthorized
    else if r.status == 403
    then (if text_eq r.rate_remaining (codes "0")
        then plain github_rate_limited
        else plain github_forbidden)
    else if r.status == 404
    then plain github_not_found
    else if r.status == 422
    then wrapping github_permanent (status_text 422)
    else if r.status == 409
    then wrapping github_permanent (status_text 409)
    else if r.status == 429
    then plain github_rate_limited
    else if leb 500 r.status
    then wrapping github_retryable (status_text r.status)
    else if leb 400 r.status
    then wrapping github_permanent (status_text r.status)
    else record { kind = other; message = status_text r.status }

abbrev decoded {ℓ} : {A : Type ℓ} → Option A → Result A
decoded none = err (record { kind = other; message = codes "decode github json" })
decoded (some a) = ok a

abbrev from_response {ℓ} : {A : Type ℓ} → List ℕ → (Raw → Option A) → Response → Result A
from_response ok_codes decode r =
    if any (λ c. r.status == c) ok_codes then decoded (decode r.body) else err (classify r)

-- doJSON; `decode` reads the body of a response with an expected status.
unfoldable pub do_json {ℓ} : {A : Type ℓ} → List ℕ → (Raw → Option A) → Attempt → Result A
unfolding classify
do_json ok_codes decode (unbuilt e) = err (record { kind = other; message = e })
do_json ok_codes decode (no_answer e) = err (wrapping github_retryable e)
do_json ok_codes decode (unreadable r e) =
    err (wrapping github_retryable (codes "read body: " ++ e))
do_json ok_codes decode (answer r) = from_response ok_codes decode r

-- A JSON array of strings.
abbrev texts : List Text → Items
texts [] = nil
texts (t ∷ ts) = cons (str t) (texts ts)

-- What a path, a path with a number and one with a further part add to the base URL.
abbrev int_text : ℤ → Text
int_text (pos n) = decimal n
int_text (negsuc n) = codes "-" ++ decimal (suc n)

module _ ⦃u : Unicode⦄ (base_url : Text) (transport : Transport) where
  -- getJSON
  unfoldable pub get_json {ℓ} : {A : Type ℓ} → Text → Text → (Raw → Option A) → Result A
  unfolding do_json
  get_json token path decode = do_json (200 ∷ []) decode (
      transport
        (record { method = get; url = base_url ++ path; bearer = some token; body = no_body }))

  unfoldable pub page_path : ℕ → Text
  page_path page =
      codes "/user/repos?per_page=100&page="
      ++ (decimal page ++ codes "&affiliation=owner,collaborator&sort=updated")

  -- The loop of ListRepositories, with the number of pages that it may still get.
  unfoldable pub list_pages : Text → ℕ → ℕ → Result (List Repository)
  unfolding get_json page_path
  list_pages token zero page = ok []
  list_pages token (suc left) page =
      let rest = list_pages token left (suc page) in
      get_json token (page_path page) decode_repositories >>= λ batch.
      if ltb (length batch) 100 then ok batch else rest >>= λ more. ok (batch ++ more)

  -- ListRepositories
  unfoldable pub list_repositories : Text → Result (List Repository)
  unfolding list_pages
  list_repositories token = list_pages token 5 1

  -- GetRepository
  unfoldable pub get_repository : Text → ℤ → Result Repository
  unfolding get_json
  get_repository token id =
      get_json token (codes "/repositories/" ++ int_text id) decode_repository >>= λ repo.
      if int_eq repo.id (pos 0) then err (plain github_not_found) else ok repo

  abbrev issue_path : Text → Text → ℤ → Text → Text
  issue_path owner repo number what =
      codes "/repos/"
      ++ (owner ++ (codes "/" ++ (repo ++ (codes "/issues/" ++ (int_text number ++ what)))))

  -- A POST whose response is not decoded.
  unfoldable pub post_json : Text → Text → Json → Result (Unit {0})
  unfolding do_json
  post_json token path body =
      do_json (200 ∷ 201 ∷ []) (λ raw. some tt)
        (transport
          (record { method = post; url = base_url ++ path; bearer = some token; body = json body }))

  -- AddIssueLabels
  unfoldable pub add_issue_labels : Text → Text → Text → ℤ → List Text → Result (Unit {0})
  unfolding post_json
  add_issue_labels token owner repo number labels =
      post_json token (issue_path owner repo number (codes "/labels"))
        (obj (field (codes "labels") (arr (texts labels)) end))

  -- CreateIssueComment
  unfoldable pub create_issue_comment : Text → Text → Text → ℤ → Text → Result (Unit {0})
  unfolding post_json
  create_issue_comment token owner repo number comment =
      post_json token (issue_path owner repo number (codes "/comments"))
        (obj (field (codes "body") (str comment) end))
