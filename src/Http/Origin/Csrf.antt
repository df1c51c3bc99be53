-- ===== src/Http/Origin/Csrf.antt =====
-- Which requests CSRFOrigin (backend/internal/http/middleware/security.go) lets pass.
use gitactionflow.Base.{
  sym, subst, ◌↔◌, All, ◌==◌, ◌∷◌, ◌++◌, arith, ℕ, some, false, ◌≡◌, ◌≢◌, refl, ◌⊎◌, inl, inr, true,
  false, Option, [], is_empty, Bool-cases,
}
use gitactionflow.Base.Text.{
  Text, codes, text_eq_iff, Unicode, has_prefix, to_lower, trim_space, contains,
}
use gitactionflow.Base.Text.Search.{is_empty_iff}
use gitactionflow.Store.Exec.{World}
use gitactionflow.Http.Reply.{Handling}
use gitactionflow.Http.Origin.{
  Url, Request, normalize_origin, is_allowed, is_safe, csrf_refused, csrf_origin,
}

module _ ⦃u : Unicode⦄ (parse_url : Text → Option Url) (frontend_url : Text) where
  -- The text names the frontend's origin.
  abbrev pub IsFrontend : Text → Type 0
  IsFrontend s = normalize_origin parse_url s ≡ normalize_origin parse_url frontend_url

  -- The request's Origin is the frontend's, or it has none and its Referer is the frontend's, or it
  -- has neither.
  abbrev pub IsTrusted : Request → Type 0
  IsTrusted r =
      ((r.origin ≢ []) × IsFrontend r.origin)
      ⊎ ((r.origin ≡ []) × (((r.referer ≢ []) × IsFrontend r.referer) ⊎ (r.referer ≡ [])))

  is_allowed-cases :
      (s : Text)
      → (IsFrontend s × (is_allowed parse_url frontend_url s ≡ true))
        ⊎ ((¬ IsFrontend s) × (is_allowed parse_url frontend_url s ≡ false))
  is_allowed-cases s = elim (Bool-cases (is_allowed parse_url frontend_url s)) [
    | inl same ↦ inl ((text_eq_iff _ _).0 same, same)
    | inr other ↦ inr (λ e. let q = (text_eq_iff _ _).1 e in cc, other)
  ]

  untrusted_origin : (r : Request) → r.origin ≢ [] → ¬ IsFrontend r.origin → ¬ IsTrusted r
  untrusted_origin r given no_match (inl p) = no_match p.1
  untrusted_origin r given no_match (inr p) = given p.0

  untrusted_referer :
      (r : Request) → r.origin ≡ [] → r.referer ≢ [] → ¬ IsFrontend r.referer → ¬ IsTrusted r
  untrusted_referer r missing given no_match (inl p) = p.0 missing
  untrusted_referer r missing given no_match (inr (o, inl p)) = no_match p.1
  untrusted_referer r missing given no_match (inr (o, inr p)) = given p

not_empty : (s : Text) → is_empty s ≡ false → s ≢ []
not_empty s h e = let q = (is_empty_iff s).1 e in cc

module _ {ℓ} {A : Type ℓ} ⦃u : Unicode⦄ (parse_url : Text → Option Url) (frontend_url : Text) where
  -- What CSRFOrigin does, by normalized origins.
  csrf_origin_cases :
      (r : Request) (next : Handling A) (w : World)
      → is_safe parse_url r.method ≡ false
      → ((csrf_origin parse_url frontend_url r next w ≡ next w)
          × IsTrusted parse_url frontend_url r)
        ⊎ ((csrf_origin parse_url frontend_url r next w ≡ (csrf_refused parse_url, w))
            × (¬ IsTrusted parse_url frontend_url r))
  unfolding csrf_origin
  csrf_origin_cases r next w unsafe = elim (Bool-cases (is_empty r.origin)) [
    | inr given ↦ elim (is_allowed-cases parse_url frontend_url r.origin) [
      | inl p ↦ inl (rw (unsafe, given, p.1) refl, inl (not_empty r.origin given, p.0))
      | inr p ↦ inr (
        rw (unsafe, given, p.1) refl,
        untrusted_origin parse_url frontend_url r (not_empty r.origin given) p.0,
      )
    ]
    | inl missing ↦ elim (Bool-cases (is_empty r.referer)) [
      | inl neither ↦ inl (
        rw (unsafe, missing, neither) refl,
        inr ((is_empty_iff r.origin).0 missing, inr ((is_empty_iff r.referer).0 neither)),
      )
      | inr referred ↦ elim (is_allowed-cases parse_url frontend_url r.referer) [
        | inl p ↦ inl (
          rw (unsafe, missing, referred, p.1) refl,
          inr ((is_empty_iff r.origin).0 missing, inl (not_empty r.referer referred, p.0)),
        )
        | inr p ↦ inr (
          rw (unsafe, missing, referred, p.1) refl,
          untrusted_referer parse_url frontend_url r ((is_empty_iff r.origin).0 missing)
              (not_empty r.referer referred) p.0,
        )
      ]
    ]
  ]

-- The text has no character `c`.
abbrev Lacks : ℕ → Text → Type 0
Lacks c s = All (λ d. (d == c) ≡ false) s

-- Texts with a colon after them, and none in them, are equal if the rest is.
before_colon :
    (s t a b : Text)
    → Lacks b':' s
    → Lacks b':' t
    → s ++ (b':' ∷ a) ≡ t ++ (b':' ∷ b)
    → (s ≡ t) × (a ≡ b)
before_colon [] [] a b ls lt h = (refl, cc)
before_colon [] (d ∷ t) a b ls lt h = let q : b':' ≡ d = cc in absurd (let f = lt.0 in ground arith)
before_colon (c ∷ s) [] a b ls lt h = let q : c ≡ b':' = cc in absurd (let f = ls.0 in ground arith)
before_colon (c ∷ s) (d ∷ t) a b ls lt h =
    let q : c ≡ d = cc in let (p, r) = before_colon s t a b ls.1 lt.1 (cc) in (rw (q, p) refl, r)

-- The text, without the spaces around it, is a URL with this scheme and host.
pub record Reads ⦃u : Unicode⦄ (parse_url : Text → Option Url) (s : Text) (url : Url) : Type 0 where
  pub full : contains (trim_space s) (codes "://") ≡ true
  pub parses : parse_url (trim_space s) ≡ some url
  pub scheme : url.scheme ≢ []
  pub host : url.host ≢ []
  pub no_colon : Lacks b':' (to_lower url.scheme)

-- Scheme and host are the same when case is ignored.
abbrev pub IsSameOrigin : ⦃u : Unicode⦄ → Url → Url → Type 0
IsSameOrigin a b = (to_lower a.scheme ≡ to_lower b.scheme) × (to_lower a.host ≡ to_lower b.host)

-- Where the request says that it comes from: its Origin or, if it has none, its Referer.
abbrev pub IsSource : Request → Text → Type 0
IsSource r s =
    ((r.origin ≢ []) × (s ≡ r.origin)) ⊎ ((r.origin ≡ []) × ((r.referer ≢ []) × (s ≡ r.referer)))

full_given : (s : Text) → contains s (codes "://") ≡ true → is_empty s ≡ false
unfolding contains has_prefix
full_given [] h = absurd (cc)
full_given (c ∷ s) h = refl

given : (s : Text) → s ≢ [] → is_empty s ≡ false
given [] h = absurd (h refl)
given (c ∷ s) h = refl

module _ ⦃u : Unicode⦄ (parse_url : Text → Option Url) where
  normalize_origin-Reads :
      (s : Text) (url : Url)
      → Reads parse_url s url
      → normalize_origin parse_url s ≡ to_lower url.scheme ++ (codes "://" ++ to_lower url.host)
  unfolding normalize_origin
  normalize_origin-Reads s url r =
      rw
        (
          full_given (trim_space s) r.full,
          r.full,
          r.parses,
          given url.scheme r.scheme,
          given url.host r.host,
        )
        refl

  -- Two URLs have one normalized origin exactly if their scheme and host are the same.
  normalize_origin_iff :
      (s t : Text) (a b : Url)
      → Reads parse_url s a
      → Reads parse_url t b
      → (normalize_origin parse_url s ≡ normalize_origin parse_url t) ↔ IsSameOrigin a b
  normalize_origin_iff s t a b r q =
      rw (normalize_origin-Reads s a r, normalize_origin-Reads t b q)
        (
          λ e.
              let (p, rest) =
                before_colon (to_lower a.scheme) (to_lower b.scheme) _ _ r.no_colon q.no_colon e in
              (p, cc rest),
          λ (p, h). rw (p, h) refl,
        )

module _ {ℓ} {A : Type ℓ} ⦃u : Unicode⦄ (parse_url : Text → Option Url) (frontend_url : Text) where
  -- A request whose method is not GET, HEAD or OPTIONS, whose Origin (or Referer, if it has no Origin)
  -- is a URL, passes CSRFOrigin if, and only if, this URL has the scheme and the host of the frontend's
  -- URL, up to case; otherwise it is answered with 403, and nothing happens.
  pub csrf_origin-IsSameOrigin :
      (r : Request) (next : Handling A) (w : World) (s : Text) (a f : Url)
      → r.method ≢ codes "GET"
      → r.method ≢ codes "HEAD"
      → r.method ≢ codes "OPTIONS"
      → IsSource r s
      → Reads parse_url s a
      → Reads parse_url frontend_url f
      → ((csrf_origin parse_url frontend_url r next w ≡ next w) × IsSameOrigin a f)
        ⊎ ((csrf_origin parse_url frontend_url r next w ≡ (csrf_refused parse_url, w))
            × (¬ IsSameOrigin a f))
  csrf_origin-IsSameOrigin r next w s a f get head options source ra rf =
      elim (csrf_origin_cases parse_url frontend_url r next w unsafe) [
        | inl (passed, trusted) ↦ inl (passed, same.0 (to_frontend source trusted))
        | inr (refused, untrusted) ↦ inr (refused, λ e. untrusted (of_frontend source (same.1 e)))
      ]
    where
      same : IsFrontend parse_url frontend_url s ↔ IsSameOrigin a f
      same = normalize_origin_iff parse_url s frontend_url a f ra rf

      unsafe : is_safe parse_url r.method ≡ false
      unsafe =
          let (g, g') = text_eq_iff r.method (codes "GET") in
          let (h, h') = text_eq_iff r.method (codes "HEAD") in
          let (o, o') = text_eq_iff r.method (codes "OPTIONS") in ground arith

      to_frontend :
          IsSource r s → IsTrusted parse_url frontend_url r → IsFrontend parse_url frontend_url s
      to_frontend (inl (p, e)) (inl t) = subst (IsFrontend parse_url frontend_url) (sym e) t.1
      to_frontend (inl (p, e)) (inr t) = absurd (p t.0)
      to_frontend (inr (p, q)) (inl t) = absurd (t.0 p)
      to_frontend (inr (p, q)) (inr (o, inl t)) =
          subst (IsFrontend parse_url frontend_url) (sym q.1) t.1
      to_frontend (inr (p, q)) (inr (o, inr t)) = absurd (q.0 t)

      of_frontend :
          IsSource r s → IsFrontend parse_url frontend_url s → IsTrusted parse_url frontend_url r
      of_frontend (inl (p, e)) t = inl (p, subst (IsFrontend parse_url frontend_url) e t)
      of_frontend (inr (p, q)) t =
          inr (p, inl (q.0, subst (IsFrontend parse_url frontend_url) q.1 t))
