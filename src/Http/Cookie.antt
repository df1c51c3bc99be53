-- ===== src/Http/Cookie.antt =====
-- backend/internal/auth/cookie.go: the session cookie.
use gitactionflow.Base.{suc, ◌/◌, ◌-◌, Bool, true, ◌==◌, is_empty, if◌then◌else◌, [], ◌==◌}
use gitactionflow.Base.Int.{ℤ, pos, negsuc}
use gitactionflow.Base.Text.{Text, codes, text_eq, Unicode, to_lower}

pub data SameSite : Type 0 where
  lax strict none_mode : SameSite

-- CookieOptions; `ttl` is a time.Duration.
pub record CookieOptions : Type 0 where
  pub is_secure : Bool
  pub same_site : Text
  pub ttl : ℤ
  pub path : Text

-- What gin's SetCookie puts into the Set-Cookie header.
pub record Cookie : Type 0 where
  pub name : Text
  pub value : Text
  pub max_age : ℤ
  pub path : Text
  pub is_secure : Bool
  pub is_http_only : Bool
  pub same_site : SameSite

-- SessionCookieName
abbrev pub session_cookie_name : Text
session_cookie_name = codes "gaf_session"

-- `int(d.Seconds())`, for a duration in microseconds.
abbrev pub seconds : ℤ → ℤ
seconds (pos n) = pos (n / 1000000)
seconds (negsuc n) = let s = suc n / 1000000 in if s == 0 then pos 0 else negsuc (s - 1)

module _ ⦃u : Unicode⦄ where
  -- sameSiteMode
  unfoldable pub same_site_mode : CookieOptions → SameSite
  same_site_mode o =
      if text_eq (to_lower o.same_site) (codes "strict")
      then strict
      else if text_eq (to_lower o.same_site) (codes "none")
      then none_mode
      else lax

  abbrev cookie_path : CookieOptions → Text
  cookie_path o = if is_empty o.path then codes "/" else o.path

  abbrev cookie : Text → ℤ → CookieOptions → Cookie
  cookie value max_age o = record {
    name = session_cookie_name;
    value = value;
    max_age = max_age;
    path = cookie_path o;
    is_secure = o.is_secure;
    is_http_only = true;
    same_site = same_site_mode o;
  }

  -- SetSessionCookie
  unfoldable pub set_session_cookie : Text → CookieOptions → Cookie
  unfolding same_site_mode
  set_session_cookie token o = cookie token (seconds o.ttl) o

  -- ClearSessionCookie
  unfoldable pub clear_session_cookie : CookieOptions → Cookie
  unfolding same_site_mode
  clear_session_cookie o = cookie [] (negsuc 0) o
