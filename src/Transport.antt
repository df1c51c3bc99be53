-- ===== src/Transport.antt =====
-- What the clients (backend/internal/githubapi, slack, githuboauth and ai) use of net/http: a request
-- that is sent, and what comes of it. The sending itself is a parameter of each client.
use gitactionflow.Base.{ℕ, Bool, ◌&&◌, Option, List, leb, ltb}
use gitactionflow.Base.Text.{Text}
use gitactionflow.Json.{Json, Raw}

pub data Method : Type 0 where
  get post : Method

-- A body: none, JSON, or the fields of a form.
pub data Payload : Type 0 where
  no_body : Payload
  json : Json → Payload
  form : List (Text × Text) → Payload

-- `bearer` is the token of the Authorization header.
pub record Request : Type 0 where
  pub method : Method
  pub url : Text
  pub bearer : Option Text
  pub body : Payload

-- A response: its status, its X-RateLimit-Remaining header (empty if there is none), and what the
-- JSON decoder reads in its body.
pub record Response : Type 0 where
  pub status : ℕ
  pub rate_remaining : Text
  pub body : Raw

-- The request cannot be built, is not answered, its answer cannot be read to the end (the response
-- holds what was read), or it is answered.
pub data Attempt : Type 0 where
  unbuilt no_answer : Text → Attempt
  unreadable : Response → Text → Attempt
  answer : Response → Attempt

abbrev pub Transport : Type 0
Transport = Request → Attempt

-- `status >= 200 && status < 300`
abbrev pub is_2xx : ℕ → Bool
is_2xx n = leb 200 n && ltb n 300
