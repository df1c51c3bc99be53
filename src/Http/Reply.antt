-- ===== src/Http/Reply.antt =====
-- backend/internal/http/response/response.go, and what the handlers share: a handler answers a
-- request and leaves the world changed.
use gitactionflow.Base.{ℕ, Option, none, some}
use gitactionflow.Base.Text.{Text, codes}
use gitactionflow.Errors.{Error, Result, ok, err}
use gitactionflow.Store.Exec.{World, Exec}
use gitactionflow.Store.Users.{User}

-- ErrorDetail
pub record ErrorDetail : Type 0 where
  pub code : Text
  pub message : Text

-- A response: a status with a body, or the error envelope.
pub data Reply {ℓ} (A : Type ℓ) : Type ℓ where
  json : ℕ → A → Reply A
  failure : ℕ → ErrorDetail → Reply A

abbrev pub Handling {ℓ} : Type ℓ → Type ℓ
Handling A = World → Reply A × World

-- JSONError
abbrev pub json_error {ℓ} : {A : Type ℓ} → ℕ → Text → Text → Reply A
json_error status code message = failure status (record { code = code; message = message })

-- Internal
abbrev pub internal {ℓ} : {A : Type ℓ} → Reply A
internal = json_error 500 (codes "INTERNAL_ERROR") (codes "internal server error")

-- The answer to a request without a user.
abbrev pub unauthorized {ℓ} : {A : Type ℓ} → Reply A
unauthorized = json_error 401 (codes "UNAUTHORIZED") (codes "authentication required")

abbrev pub bad_request {ℓ} : {A : Type ℓ} → Text → Reply A
bad_request message = json_error 400 (codes "BAD_REQUEST") message

-- `user, ok := auth.UserFromGin(c)`, which every handler of the API starts with.
abbrev pub with_user {ℓ} : {A : Type ℓ} → Option User → (User → Handling A) → Handling A
with_user none h w = (unauthorized, w)
with_user (some u) h w = h u w

-- The response to what a service returned: its result with a status, or its error.
abbrev pub answered {ℓ κ} :
    {A : Type ℓ} {B : Type κ} → ℕ → (A → B) → (Error → Reply B) → Result A → Reply B
answered status f failed (ok a) = json status (f a)
answered status f failed (err e) = failed e

abbrev pub respond {ℓ κ} :
    {A : Type ℓ} {B : Type κ} → ℕ → (A → B) → (Error → Reply B) → Exec A → Handling B
respond status f failed m w = let (r, w') = m w in (answered status f failed r, w')
