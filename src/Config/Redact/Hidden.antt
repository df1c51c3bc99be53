-- ===== src/Config/Redact/Hidden.antt =====
-- What the log does not show (Redacted of backend/internal/config/config.go).
use mathlib.Core.List.{append_assoc}
use gitactionflow.Base.{
  ℕ, ◌+◌, ◌≡◌, refl, sym, ap, ◌∙◌, true, false, ◌==◌, some, [], ◌∷◌, ◌++◌, take, drop, length,
  length-append, is_empty, all, not, arith, Bool-cases, inl, inr,
}
use gitactionflow.Base.Text.{Text, codes, has_prefix, is_space, trim_left, trim_right, trim_space}
use gitactionflow.Config.{Config}
use gitactionflow.Config.Validate.{is_blank}
use gitactionflow.Config.Redact.{index, redacted, redact_if_set, redact_url, redacted_config}

-- The text does not have the character.
abbrev pub Lacks : ℕ → Text → Type 0
Lacks c s = all (λ d. not (d == c)) s ≡ true

-- The first place of a text that begins with `c`, past a text without `c`.
index-append :
    (c : ℕ) (p before after : Text)
    → Lacks c before
    → has_prefix after (c ∷ p) ≡ true
    → index (before ++ after) (c ∷ p) ≡ some (length before)
unfolding index has_prefix
index-append c p [] [] l h = absurd (cc)
index-append c p [] (d ∷ after) l h = rw h refl
index-append c p (d ∷ before) after l h =
    let rest = index-append c p before after (ground arith) h in
    let away : (d == c) ≡ false = ground arith in rw (away, rest) refl

take-append : (s t : Text) → take (length s) (s ++ t) ≡ s
take-append [] t = refl
take-append (c ∷ s) t = ap (λ r. c ∷ r) (take-append s t)

drop-append : (s t : Text) → drop (length s) (s ++ t) ≡ t
drop-append [] t = refl
drop-append (c ∷ s) t = drop-append s t

right_visible :
    (before after : Text) (c : ℕ)
    → is_space c ≡ false
    → is_empty (trim_right (before ++ c ∷ after)) ≡ false
unfolding trim_right
right_visible [] after c h = rw h refl
right_visible (d ∷ before) after c h = let rest = right_visible before after c h in ground arith

left_visible :
    (before after : Text) (c : ℕ)
    → is_space c ≡ false
    → (b : Text) × (trim_left (before ++ c ∷ after) ≡ b ++ c ∷ after)
unfolding trim_left
left_visible [] after c h = ([], rw h refl)
left_visible (d ∷ before) after c h = elim (Bool-cases (is_space d)) [
  | inl space ↦ let (b, e) = left_visible before after c h in (b, rw space e)
  | inr other ↦ (d ∷ before, rw other refl)
]

-- A text with a character that is no space is not blank.
not_blank :
    (before after : Text) (c : ℕ) → is_space c ≡ false → is_blank (before ++ c ∷ after) ≡ false
unfolding trim_space
not_blank before after c h =
    let (b, e) = left_visible before after c h in rw e (right_visible b after c h)

-- A URL with a userinfo, such as a user and a password.
abbrev pub url_with : (scheme userinfo host : Text) → Text
url_with scheme userinfo host = scheme ++ (codes "://" ++ (userinfo ++ (codes "@" ++ host)))

take-part :
    (n : ℕ) (s part t : Text) → n ≡ length s + length part → take n (s ++ (part ++ t)) ≡ s ++ part
take-part n s part t e =
    let len : n ≡ length (s ++ part) = omega (arith, length-append s part) in
    rw (← append_assoc s part t, len) (take-append (s ++ part) t)

drop-part : (n : ℕ) (s part t : Text) → n ≡ length s + length part → drop n (s ++ (part ++ t)) ≡ t
drop-part n s part t e =
    let len : n ≡ length (s ++ part) = omega (arith, length-append s part) in
    rw (← append_assoc s part t, len) (drop-append (s ++ part) t)

colon_visible : is_space b':' ≡ false
unfolding is_space
colon_visible = refl

-- Of a URL with a userinfo that has no @, the userinfo is replaced and the rest is kept.
pub redact_url-url_with :
    (scheme userinfo host : Text)
    → Lacks b':' scheme
    → Lacks b'@' userinfo
    → redact_url (url_with scheme userinfo host)
      ≡ scheme ++ (codes "://" ++ (redacted ++ (codes "@" ++ host)))
unfolding redact_url has_prefix
redact_url-url_with scheme userinfo host ls lu =
    let tail = userinfo ++ (codes "@" ++ host) in
    let raw = scheme ++ (codes "://" ++ tail) in
    let seen = not_blank scheme (b'/' ∷ b'/' ∷ tail) b':' colon_visible in
    let i = index-append b':' (b'/' ∷ b'/' ∷ []) scheme (codes "://" ++ tail) ls refl in
    let head : take (length scheme + 3) raw ≡ scheme ++ codes "://" =
      take-part (length scheme + 3) scheme (codes "://") tail refl in
    let rest : drop (length scheme + 3) raw ≡ tail =
      drop-part (length scheme + 3) scheme (codes "://") tail refl in
    let j = index-append b'@' [] userinfo (codes "@" ++ host) lu refl in
    let last : drop (length userinfo + 1) tail ≡ host =
      drop-part (length userinfo + 1) userinfo (codes "@") host refl in
    rw (redact_url, seen, i, head, rest, j, last) (append_assoc scheme (codes "://") _)

-- Of a userinfo with an @, such as one in the password, only what stands before the first @ is
-- replaced; the rest of the userinfo is shown.
pub redact_url_shows :
    (scheme first second host : Text)
    → Lacks b':' scheme
    → Lacks b'@' first
    → redact_url (url_with scheme (first ++ (codes "@" ++ second)) host)
      ≡ scheme ++ (codes "://" ++ (redacted ++ (codes "@" ++ (second ++ (codes "@" ++ host)))))
redact_url_shows scheme first second host ls lf =
    ap (λ t. redact_url (scheme ++ (codes "://" ++ t)))
      (append_assoc first (codes "@" ++ second) (codes "@" ++ host))
    ∙ redact_url-url_with scheme first (second ++ (codes "@" ++ host)) ls lf

-- What a configuration keeps secret.
pub record Secrets : Type 0 where
  pub userinfo : Text
  pub github_client_secret : Text
  pub github_webhook_secret : Text
  pub slack_webhook_url : Text
  pub session_secret : Text
  pub ai_api_key : Text

abbrev pub with_secrets : Config → (scheme host : Text) → Secrets → Config
with_secrets c scheme host k = record c {
  database_url = url_with scheme k.userinfo host;
  github_client_secret = k.github_client_secret;
  github_webhook_secret = k.github_webhook_secret;
  slack_webhook_url = k.slack_webhook_url;
  session_secret = k.session_secret;
  ai_api_key = k.ai_api_key;
}

-- Every secret is set, and the userinfo has no @.
pub record AreSet (k : Secrets) : Type 0 where
  pub userinfo : Lacks b'@' k.userinfo
  pub github_client_secret : is_blank k.github_client_secret ≡ false
  pub github_webhook_secret : is_blank k.github_webhook_secret ≡ false
  pub slack_webhook_url : is_blank k.slack_webhook_url ≡ false
  pub session_secret : is_blank k.session_secret ≡ false
  pub ai_api_key : is_blank k.ai_api_key ≡ false

set_redacted : (v : Text) → is_blank v ≡ false → redact_if_set v ≡ redacted
unfolding redact_if_set
set_redacted v h = rw h refl

abbrev shown : Config → (scheme host : Text) → Config
shown c scheme host = record c {
  database_url = scheme ++ (codes "://" ++ (redacted ++ (codes "@" ++ host)));
  github_client_secret = redacted;
  github_webhook_secret = redacted;
  slack_webhook_url = redacted;
  session_secret = redacted;
  ai_api_key = redacted;
}

all_redacted :
    (c : Config) (scheme host : Text) (k : Secrets)
    → Lacks b':' scheme
    → AreSet k
    → redacted_config (with_secrets c scheme host k) ≡ shown c scheme host
unfolding redacted_config
all_redacted c scheme host k ls a =
    rw
      (
        redacted_config,
        redact_url-url_with scheme k.userinfo host ls a.userinfo,
        set_redacted k.github_client_secret a.github_client_secret,
        set_redacted k.github_webhook_secret a.github_webhook_secret,
        set_redacted k.slack_webhook_url a.slack_webhook_url,
        set_redacted k.session_secret a.session_secret,
        set_redacted k.ai_api_key a.ai_api_key,
      )
      refl

-- The redacted configuration does not depend on the secrets, as long as they are set and the
-- database's userinfo has no @.
pub redacted_config_hides :
    (c : Config) (scheme host : Text) (k k' : Secrets)
    → Lacks b':' scheme
    → AreSet k
    → AreSet k'
    → redacted_config (with_secrets c scheme host k)
      ≡ redacted_config (with_secrets c scheme host k')
redacted_config_hides c scheme host k k' ls a b =
    all_redacted c scheme host k ls a ∙ sym (all_redacted c scheme host k' ls b)
