-- ===== src/Webhook/Signature/RoundTrip.antt =====
-- SignBody and VerifySignature256 (backend/internal/webhook/signature.go).
use gitactionflow.Base.{
  ℕ, ◌<◌, ◌≡◌, refl, ap, ◌↔◌, false, some, [], ◌∷◌, ◌++◌, arith, All, is_empty,
}
use Prim.Native.Nat.{◌/◌, ◌%◌}
use gitactionflow.Base.Text.{
  Text, trim_left, trim_right, trim_space, is_space, has_prefix, trim_prefix, text_eq_iff,
}
use gitactionflow.Errors.{ok}
use gitactionflow.Webhook.Signature.{
  hex_digit, hex_char, hex_decode, hex_encode, verify_signature256, sign_body, signature_prefix,
}

abbrev pub AreBytes : Text → Type 0
AreBytes = All (λ b. b < 256)

hex_digit-hex_char : (n : ℕ) → n < 16 → hex_digit (hex_char n) ≡ some n
unfolding hex_digit hex_char
hex_digit-hex_char n h = ground arith

hex_char-is_space : (n : ℕ) → n < 16 → is_space (hex_char n) ≡ false
unfolding is_space hex_char
hex_char-is_space n h = ground arith

-- Decoding the hexadecimal digits of bytes gives the bytes.
pub hex_decode-hex_encode : (bs : Text) → AreBytes bs → hex_decode (hex_encode bs) ≡ some bs
unfolding hex_decode hex_encode
hex_decode-hex_encode [] h = refl
hex_decode-hex_encode (b ∷ bs) h =
    rw
      (
        hex_digit-hex_char (b / 16) (omega (arith, h.0)),
        hex_digit-hex_char (b % 16) (omega (arith, h.0)),
        hex_decode-hex_encode bs h.1,
      )
      (ap (λ c. some (c ∷ bs)) (omega arith))

trim_right_visible : (s : Text) → All (λ c. is_space c ≡ false) s → trim_right s ≡ s
unfolding trim_right
trim_right_visible [] h = refl
trim_right_visible (c ∷ s) h = rw (h.0, trim_right_visible s h.1) refl

trim_left_visible : (s : Text) → All (λ c. is_space c ≡ false) s → trim_left s ≡ s
unfolding trim_left
trim_left_visible [] h = refl
trim_left_visible (c ∷ s) h = rw h.0 refl

hex_encode_visible : (bs : Text) → AreBytes bs → All (λ c. is_space c ≡ false) (hex_encode bs)
unfolding hex_encode
hex_encode_visible [] h = tt
hex_encode_visible (b ∷ bs) h = (
  hex_char-is_space (b / 16) (omega (arith, h.0)),
  (hex_char-is_space (b % 16) (omega (arith, h.0)), hex_encode_visible bs h.1),
)

module _ (hmac : Text → Text → Text) where
  trim_space-sign_body :
      (secret body : Text)
      → AreBytes (hmac secret body)
      → trim_space (sign_body hmac secret body) ≡ sign_body hmac secret body
  unfolding sign_body trim_space is_space
  trim_space-sign_body secret body h =
      let visible : All (λ c. is_space c ≡ false)
          (signature_prefix ++ hex_encode (hmac secret body)) =
        (
          refl,
          (refl, (refl, (refl, (refl, (refl, (refl, hex_encode_visible (hmac secret body) h)))))),
        ) in
      rw (trim_left_visible (signature_prefix ++ hex_encode (hmac secret body)) visible)
        (trim_right_visible _ visible)

  -- A header that SignBody made for some body with some secret verifies for a body and a secret that
  -- is not blank if, and only if, the two have the same MAC. The MAC is a list of bytes.
  pub verify_signature256-sign_body :
      (secret body secret2 body2 : Text)
      → AreBytes (hmac secret2 body2)
      → is_empty (trim_space secret) ≡ false
      → (verify_signature256 hmac secret body (sign_body hmac secret2 body2) ≡ ok tt)
        ↔ (hmac secret body ≡ hmac secret2 body2)
  unfolding verify_signature256 trim_prefix has_prefix sign_body
  verify_signature256-sign_body secret body secret2 body2 b s =
      let decoded = hex_decode-hex_encode (hmac secret2 body2) b in
      let trimmed = trim_space-sign_body secret2 body2 b in
      rw (s, trimmed, decoded) (ground (arith, text_eq_iff (hmac secret body) (hmac secret2 body2)))
