-- ===== src/Ai/Provider/Checked.antt =====
-- No provider (backend/internal/ai/suggest.go) gets round the check of its output.
use gitactionflow.Base.{◌≤◌, ◌≡◌, true, Option, none, some, [], ◌++◌, length, any}
use gitactionflow.Base.Text.{Text, codes, text_eq, Unicode}
use gitactionflow.Errors.{ok, ◌>>=◌, >>=-eq-ok}
use gitactionflow.Json.{Raw}
use gitactionflow.Transport.{Transport}
use gitactionflow.Ai.{Suggestion, allowed_priorities}
use gitactionflow.Ai.Allowed.{AreAllowed, validate_suggestion-AreAllowed}
use gitactionflow.Ai.Decode.{decode_suggestion, decode_gemini, decode_groq}
use gitactionflow.Ai.Provider.{
  Suggester, noop, gemini, groq, suggest, parse_model_json, checked, first_part, first_choice,
  or_failed, body_of, ask, json_part, gemini_endpoint, gemini_payload, groq_endpoint, groq_payload,
}

abbrev pub IsChecked : Suggestion → Type 0
IsChecked t =
    AreAllowed [] t.suggested_labels
    × (length t.suggested_labels ≤ 5)
    × (any (text_eq t.priority) allowed_priorities ≡ true)

module _ ⦃u : Unicode⦄ (parse : Text → Raw) (transport : Transport) where
  checked-IsChecked :
      (o : Option Suggestion) (t : Suggestion) → checked parse transport o ≡ ok t → IsChecked t
  checked-IsChecked none t h = absurd (cc)
  checked-IsChecked (some s) t h = validate_suggestion-AreAllowed s t h

  parsed-IsChecked :
      (text : Text) (t : Suggestion) → parse_model_json parse transport text ≡ ok t → IsChecked t
  unfolding parse_model_json
  parsed-IsChecked text t h = checked-IsChecked (decode_suggestion (parse (json_part text))) t h

  -- Whatever a provider answers: a suggestion that it makes has at most five labels, all of them
  -- allowed and no two the same, and an allowed priority.
  pub suggest-IsChecked :
      (p : Suggester) (title body : Text) (t : Suggestion)
      → suggest parse transport p title body ≡ ok t
      → IsChecked t
  unfolding suggest
  suggest-IsChecked noop title body t h = absurd (cc)
  suggest-IsChecked (gemini key) title body t h =
      let answer = ask parse transport (gemini_endpoint ++ key) none (gemini_payload title body) in
      let (raw, e0, h0) =
        >>=-eq-ok (body_of (codes "gemini") answer)
          (λ raw. or_failed (decode_gemini raw) >>= λ c.
            first_part c >>= λ x. parse_model_json parse transport x)
          h in
      let (candidates, e1, h1) =
        >>=-eq-ok (or_failed (decode_gemini raw))
          (λ c. first_part c >>= λ x. parse_model_json parse transport x) h0 in
      let (text, e2, h2) =
        >>=-eq-ok (first_part candidates) (λ x. parse_model_json parse transport x) h1 in
      parsed-IsChecked text t h2
  suggest-IsChecked (groq key) title body t h =
      let answer = ask parse transport groq_endpoint (some key) (groq_payload title body) in
      let (raw, e0, h0) =
        >>=-eq-ok (body_of (codes "groq") answer)
          (λ raw. or_failed (decode_groq raw) >>= λ c.
            first_choice c >>= λ x. parse_model_json parse transport x)
          h in
      let (choices, e1, h1) =
        >>=-eq-ok (or_failed (decode_groq raw))
          (λ c. first_choice c >>= λ x. parse_model_json parse transport x) h0 in
      let (text, e2, h2) =
        >>=-eq-ok (first_choice choices) (λ x. parse_model_json parse transport x) h1 in
      parsed-IsChecked text t h2
