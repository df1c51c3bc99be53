-- ===== src/Webhook/Handler/Unsigned.antt =====
-- Which deliveries are let in (HandlePOST in backend/internal/http/handlers/webhook.go).
use gitactionflow.Base.{
  ◌≡◌, ◌≢◌, refl, sym, ap, ◌∙◌, ◌⊎◌, inl, inr, Option, none, some, true, ltb, length, is_empty,
  arith, ◌≤◌, ◌++◌, [], Bool-cases,
}
use gitactionflow.Base.Text.{
  Text, codes, text_eq, text_eq_iff, trim_space, has_prefix, trim_prefix, Unicode,
}
use gitactionflow.Base.Text.Search.{has_prefix-eq-true}
use gitactionflow.Errors.{Result, ok, err}
use gitactionflow.Store.Exec.{Env, World}
use gitactionflow.Webhook.Signature.{verify_signature256, hex_decode, compare_mac}
use gitactionflow.Webhook.Handler.{
  Request, Body, Response, Handler, handle_post, with_signature, with_body, body_limit,
}

-- The header, without the spaces around it, is "sha256=" and the hexadecimal digits of the body's MAC
-- with the secret, and the secret is not blank.
abbrev pub IsSigned : (Text → Text → Text) → Text → Text → Text → Type 0
IsSigned hmac secret body header =
    (trim_space secret ≢ [])
    × ((digits : Text) × (trim_space header ≡ codes "sha256=" ++ digits)
        × (hex_decode digits ≡ some (hmac secret body)))

compare_mac-eq-ok :
    (hmac : Text → Text → Text) (secret body : Text) (got : Option Text)
    → compare_mac hmac secret body got ≡ ok tt
    → got ≡ some (hmac secret body)
compare_mac-eq-ok hmac secret body none h = absurd (cc)
compare_mac-eq-ok hmac secret body (some g) h = elim (Bool-cases (text_eq (hmac secret body) g)) [
  | inl same ↦ ap some (sym ((text_eq_iff (hmac secret body) g).0 same))
  | inr other ↦ absurd (let q = rw other at h in cc)
]

-- After the prefix come the digits.
trim_prefix-signature :
    (digits : Text) → trim_prefix (codes "sha256=" ++ digits) (codes "sha256=") ≡ digits
unfolding trim_prefix has_prefix
trim_prefix-signature digits = refl

verify_signature256-IsSigned :
    (hmac : Text → Text → Text) (secret body header : Text)
    → verify_signature256 hmac secret body header ≡ ok tt
    → IsSigned hmac secret body header
unfolding verify_signature256
verify_signature256-IsSigned hmac secret body header h =
    elim (Bool-cases (is_empty (trim_space secret))) [
      | inl blank ↦ absurd (let q = rw blank at h in cc)
      | inr given ↦ elim (Bool-cases (is_empty (trim_space header))) [
        | inl missing ↦ absurd (let q = rw (given, missing) at h in cc)
        | inr there ↦ elim (Bool-cases (has_prefix (trim_space header) (codes "sha256="))) [
          | inr odd ↦ absurd (let q = rw (given, there, odd) at h in cc)
          | inl prefixed ↦
              let (digits, e) = has_prefix-eq-true (trim_space header) (codes "sha256=") prefixed in
              let mac = compare_mac-eq-ok hmac secret body _ (rw (given, there, prefixed) at h) in
              (
                λ p. let q : is_empty (trim_space secret) ≡ true = ap is_empty p in cc,
                (
                  digits,
                  e,
                  ap hex_decode (
                        sym (trim_prefix-signature digits)
                        ∙ ap (λ t. trim_prefix t (codes "sha256=")) (sym e))
                      ∙ mac,
                ),
              )
        ]
      ]
    ]

-- The request is refused, and nothing happens.
abbrev pub IsRefused : World → Response × World → Type 0
IsRefused w (r, w') = (w' ≡ w) × ((r.code ≡ 400) ⊎ (r.code ≡ 401) ⊎ (r.code ≡ 413))

module _ ⦃u : Unicode⦄ (env : Env) (h : Handler) (req : Request) (w : World) where
  with_signature-cases :
      (body : Body) (r : Result (Unit {0}))
      → (r ≡ ok tt) ⊎ IsRefused w (with_signature env h req body r w)
  with_signature-cases body (ok _) = inl refl
  with_signature-cases body (err e) = inr (refl, inr (inl refl))

  with_body-cases :
      (b : Option Body)
      → ((body : Body) × (b ≡ some body)
          × (length body.bytes ≤ body_limit h.max_body)
          × IsSigned h.hmac h.secret body.bytes req.signature)
        ⊎ IsRefused w (with_body env h req b w)
  with_body-cases none = inr (refl, inl refl)
  with_body-cases (some body) =
      elim (Bool-cases (ltb (body_limit h.max_body) (length body.bytes))) [
        | inl large ↦ inr (rw large (refl, inr (inr refl)))
        | inr fits ↦
            elim (with_signature-cases body
              (verify_signature256 h.hmac h.secret body.bytes req.signature)) [
                | inl good ↦ inl (
                  body,
                  refl,
                  ground arith,
                  verify_signature256-IsSigned h.hmac h.secret body.bytes req.signature good,
                )
                | inr bad ↦ inr (rw fits bad)
              ]
      ]

  -- A delivery is refused with 400, 401 or 413, and makes no statement and no call (the world is as it
  -- was), unless the secret is not blank, the body was read and is not too large, and the header is
  -- "sha256=" and the hexadecimal digits of the body's MAC with the secret.
  pub handle_post_unsigned :
      ((body : Body) × (req.body ≡ some body)
        × (length body.bytes ≤ body_limit h.max_body)
        × IsSigned h.hmac h.secret body.bytes req.signature)
      ⊎ IsRefused w (handle_post env h req w)
  unfolding handle_post
  handle_post_unsigned = with_body-cases req.body
