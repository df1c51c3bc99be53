-- ===== src/Webhook/Signature.antt =====
-- backend/internal/webhook/signature.go: the X-Hub-Signature-256 header. HMAC-SHA256 is a parameter:
-- from a secret and a body it makes a list of bytes.
pub mod RoundTrip
use gitactionflow.Base.{
  ℕ, ◌+◌, ◌-◌, ◌*◌, Bool, true, false, ◌&&◌, not, Option, none, some, List, [], ◌∷◌, ◌++◌,
  if◌then◌else◌, is_empty, leb, ltb,
}
use Prim.Native.Nat.{◌/◌, ◌%◌}
use gitactionflow.Base.Text.{Text, codes, text_eq, trim_space, has_prefix, trim_prefix}
use gitactionflow.Errors.{Error, Result, ok, err, missing_signature, invalid_signature, other}

abbrev pub signature_prefix : Text
signature_prefix = codes "sha256="

abbrev pub err_no_secret : Error
err_no_secret = record { kind = other; message = codes "webhook secret not configured" }

abbrev pub err_missing_signature : Error
err_missing_signature = record { kind = missing_signature; message = codes "missing signature" }

abbrev pub err_invalid_signature : Error
err_invalid_signature = record { kind = invalid_signature; message = codes "invalid signature" }

-- hex.DecodeString and hex.EncodeToString
unfoldable pub hex_digit : ℕ → Option ℕ
hex_digit c =
    if leb b'0' c && leb c b'9'
    then some (c - 48)
    else if leb b'a' c && leb c b'f'
    then some (c - 87)
    else if leb b'A' c && leb c b'F'
    then some (c - 55)
    else none

abbrev byte_of : Option ℕ → Option ℕ → Option Text → Option Text
byte_of (some h) (some l) (some rest) = some ((h * 16 + l) ∷ rest)
byte_of (some h) (some l) none = none
byte_of (some h) none rest = none
byte_of none l rest = none

unfoldable pub hex_decode : Text → Option Text
unfolding hex_digit
hex_decode [] = some []
hex_decode (c ∷ []) = none
hex_decode (c ∷ d ∷ s) = byte_of (hex_digit c) (hex_digit d) (hex_decode s)

unfoldable pub hex_char : ℕ → ℕ
hex_char n = if ltb n 10 then n + 48 else n + 87

unfoldable pub hex_encode : Text → Text
unfolding hex_char
hex_encode [] = []
hex_encode (b ∷ bs) = hex_char (b / 16) ∷ hex_char (b % 16) ∷ hex_encode bs

module _ (hmac : Text → Text → Text) where
  abbrev pub compare_mac : Text → Text → Option Text → Result (Unit {0})
  compare_mac secret body none = err err_invalid_signature
  compare_mac secret body (some got) =
      if text_eq (hmac secret body) got then ok tt else err err_invalid_signature

  -- VerifySignature256
  unfoldable pub verify_signature256 : Text → Text → Text → Result (Unit {0})
  unfolding hex_decode
  verify_signature256 secret body header =
      let h = trim_space header in
      if is_empty (trim_space secret)
      then err err_no_secret
      else if is_empty h
      then err err_missing_signature
      else if not (has_prefix h signature_prefix)
      then err err_invalid_signature
      else compare_mac secret body (hex_decode (trim_prefix h signature_prefix))

  -- SignBody
  unfoldable pub sign_body : Text → Text → Text
  unfolding hex_encode
  sign_body secret body = signature_prefix ++ hex_encode (hmac secret body)
