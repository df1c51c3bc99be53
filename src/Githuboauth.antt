-- ===== src/Githuboauth.antt =====
-- backend/internal/githuboauth/client.go: exchanging a code for a token, and asking for the user.
-- url.QueryEscape is a parameter.
pub mod Decode
use gitactionflow.Base.{
  ℕ, Bool, ◌||◌, not, Option, none, some, ◌++◌, is_empty, if◌then◌else◌, List, [], ◌∷◌,
}
use gitactionflow.Base.Int.{ℤ, pos, int_eq}
use gitactionflow.Base.Text.{Text, codes, decimal, Unicode}
use gitactionflow.Errors.{Error, Result, ok, err, other, ◌>>=◌}
use gitactionflow.Githuboauth.Decode.{TokenResponse, User, decode_token, decode_user}
use gitactionflow.Json.{Raw}
use gitactionflow.Transport.{
  get, post, no_body, form, Response, Attempt, unbuilt, no_answer, unreadable, answer, Transport,
  is_2xx,
}

pub record Config : Type 0 where
  pub client_id : Text
  pub client_secret : Text
  pub redirect_url : Text
  pub scopes : Text

abbrev pub authorize_page : Text
authorize_page = codes "https://github.com/login/oauth/authorize"

abbrev pub token_url : Text
token_url = codes "https://github.com/login/oauth/access_token"

abbrev pub user_url : Text
user_url = codes "https://api.github.com/user"

-- New: the default scopes.
unfoldable pub new : Config → Config
new cfg = record cfg { scopes = if is_empty cfg.scopes then codes "read:user repo" else cfg.scopes }

abbrev failed {ℓ} : {A : Type ℓ} → Text → Result A
failed message = err (record { kind = other; message = message })

abbrev or_failed {ℓ} : {A : Type ℓ} → Text → Option A → Result A
or_failed message none = failed message
or_failed message (some a) = ok a

-- The body of an answer that was read in full and has a status of 2xx; `what` names the request.
unfoldable pub body_of : (what read status : Text) → Attempt → Result Raw
body_of what read status (unbuilt e) = failed e
body_of what read status (no_answer e) = failed (what ++ (codes ": " ++ e))
body_of what read status (unreadable r e) = failed (read ++ (codes ": " ++ e))
body_of what read status (answer r) =
    if not (is_2xx r.status) then failed (status ++ (codes " " ++ decimal r.status)) else ok r.body

module _ ⦃u : Unicode⦄ (query_escape : Text → Text) (cfg : Config) (transport : Transport) where
  -- AuthorizeURL: Encode sorts the parameters by their keys.
  unfoldable pub authorize_url : Text → Text
  authorize_url state =
      authorize_page
      ++ (codes "?client_id="
          ++ (query_escape cfg.client_id
              ++ (codes "&redirect_uri="
                  ++ (query_escape cfg.redirect_url
                      ++ (codes "&scope="
                          ++ (query_escape cfg.scopes
                              ++ (codes "&state=" ++ query_escape state)))))))

  -- ExchangeCode
  unfoldable pub exchange_code : Text → Result TokenResponse
  unfolding body_of
  exchange_code code = do
    body ←
        body_of (codes "token exchange request") (codes "read token response")
          (codes "token exchange status")
          (transport (record {
            method = post;
            url = token_url;
            bearer = none;
            body = form (
                (codes "client_id", cfg.client_id)
                ∷ (codes "client_secret", cfg.client_secret)
                ∷ (codes "code", code)
                ∷ (codes "redirect_uri", cfg.redirect_url)
                ∷ []);
          }))
    tr ← or_failed (codes "decode token response") (decode_token body)
    if is_empty tr.access_token then failed (codes "token exchange failed") else ok tr

  -- FetchUser
  unfoldable pub fetch_user : Text → Result User
  unfolding body_of
  fetch_user access_token = do
    body ←
        body_of (codes "github user request") (codes "read github user")
          (codes "github user status")
          (transport
            (record { method = get; url = user_url; bearer = some access_token; body = no_body }))
    found ← or_failed (codes "decode github user") (decode_user body)
    if int_eq found.id (pos 0) || is_empty found.login
        then failed (codes "invalid github user payload")
        else ok found
