-- ===== src/Http/Origin.antt =====
-- backend/internal/http/middleware/cors.go, security.go and requestid.go, and normalizeOrigin of
-- ratelimit.go. url.Parse is a parameter: the scheme and the host of a URL.
pub mod Csrf
use gitactionflow.Base.{
  ℕ, Bool, true, false, ◌&&◌, ◌||◌, not, Option, none, some, List, [], ◌∷◌, ◌++◌, is_empty,
  if◌then◌else◌, any,
}
use gitactionflow.Base.Text.{
  Text, codes, text_eq, trim_space, trim_right_of, contains, Unicode, to_lower,
}
use gitactionflow.Store.Exec.{World}
use gitactionflow.Http.Reply.{Reply, Handling, json_error}

pub record Url : Type 0 where
  pub scheme : Text
  pub host : Text

-- A request's method and headers; a header that is missing is empty.
pub record Request : Type 0 where
  pub method : Text
  pub origin : Text
  pub referer : Text
  pub request_id : Text
  pub forwarded_proto : Text
  pub is_tls : Bool

abbrev pub Header : Type 0
Header = Text × Text

module _ ⦃u : Unicode⦄ (parse_url : Text → Option Url) where
  abbrev of_url : Text → Option Url → Text
  of_url raw none = trim_right_of b'/' (trim_space raw)
  of_url raw (some url) =
      if is_empty url.scheme || is_empty url.host
      then trim_right_of b'/' (trim_space raw)
      else to_lower url.scheme ++ (codes "://" ++ to_lower url.host)

  abbrev with_scheme : Text → Text
  with_scheme raw = if not (contains raw (codes "://")) then codes "https://" ++ raw else raw

  -- normalizeOrigin
  unfoldable pub normalize_origin : Text → Text
  normalize_origin s =
      let raw = trim_space s in
      if is_empty raw then [] else (let full = with_scheme raw in of_url full (parse_url full))

  abbrev pub is_allowed : Text → Text → Bool
  is_allowed frontend_url origin = text_eq (normalize_origin origin) (normalize_origin frontend_url)

  -- The headers that CORS sets.
  unfoldable pub cors_headers : Text → Request → List Header
  unfolding normalize_origin
  cors_headers frontend_url r =
      if not (is_empty (normalize_origin frontend_url))
        && (not (is_empty r.origin) && is_allowed frontend_url r.origin)
      then (codes "Access-Control-Allow-Origin", r.origin)
        ∷ (codes "Access-Control-Allow-Credentials", codes "true")
        ∷ (codes "Access-Control-Allow-Headers", codes "Content-Type, X-Request-ID")
        ∷ (codes "Access-Control-Allow-Methods", codes "GET, POST, PUT, DELETE, OPTIONS")
        ∷ (codes "Access-Control-Expose-Headers", codes "X-Request-ID")
        ∷ (codes "Vary", codes "Origin")
        ∷ []
      else []

  -- Whether CORS answers the request itself, with 204.
  abbrev pub is_preflight : Request → Bool
  is_preflight r = text_eq r.method (codes "OPTIONS")

  abbrev pub is_safe : Text → Bool
  is_safe method = any (text_eq method) (codes "GET" ∷ codes "HEAD" ∷ codes "OPTIONS" ∷ [])

  abbrev pub csrf_refused {ℓ} : {A : Type ℓ} → Reply A
  csrf_refused = json_error 403 (codes "CSRF_ORIGIN") (codes "origin not allowed")

  abbrev checked {ℓ} : {A : Type ℓ} → Text → Text → Handling A → Handling A
  checked frontend_url origin next w =
      if not (is_allowed frontend_url origin) then (csrf_refused, w) else next w

  -- CSRFOrigin
  unfoldable pub csrf_origin {ℓ} : {A : Type ℓ} → Text → Request → Handling A → Handling A
  unfolding normalize_origin
  csrf_origin frontend_url r next w =
      if is_safe r.method
      then next w
      else if not (is_empty r.origin)
      then checked frontend_url r.origin next w
      else if is_empty r.referer
      then next w
      else checked frontend_url r.referer next w

-- SecurityHeaders
unfoldable pub security_headers : Request → List Header
security_headers r =
    (codes "X-Content-Type-Options", codes "nosniff")
    ∷ (codes "X-Frame-Options", codes "DENY")
    ∷ (codes "Referrer-Policy", codes "strict-origin-when-cross-origin")
    ∷ (
      codes "Content-Security-Policy",
      codes "default-src 'none'; frame-ancestors 'none'; base-uri 'none'",
    )
    ∷ (codes "Permissions-Policy", codes "geolocation=(), microphone=(), camera=()")
    ∷ (if r.is_tls || text_eq r.forwarded_proto (codes "https")
        then (codes "Strict-Transport-Security", codes "max-age=31536000; includeSubDomains") ∷ []
        else [])

-- RequestID: the request's own id, or one that is made up.
unfoldable pub request_id : Text → Request → Text
request_id random r = if is_empty r.request_id then random else r.request_id
