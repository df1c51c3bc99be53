-- ===== src/Ai/Provider.antt =====
-- The suggesters of backend/internal/ai/suggest.go: Gemini, Groq, and none. The HTTP transport and the
-- JSON decoder of a model's text are parameters.
pub mod Checked
use gitactionflow.Base.{
  ℕ, suc, ◌+◌, ◌-◌, Bool, true, false, ◌||◌, not, Option, none, some, List, [], ◌∷◌, ◌++◌, ltb, leb,
  ◌==◌, take, drop, length, is_empty, if◌then◌else◌,
}
use gitactionflow.Base.Text.{
  Text, codes, text_eq, trim_space, Unicode, to_lower, byte_len, cut_replace, decimal,
}
use gitactionflow.Base.Int.{ℤ, pos}
use gitactionflow.Errors.{Error, Result, ok, err, other, ai_invalid_output, ai_disabled, ◌>>=◌}
use gitactionflow.Json.{Json, str, frac, num, obj, arr, Items, cons, nil, Fields, field, end, Raw}
use gitactionflow.Transport.{
  post, json, Request, Response, Attempt, unbuilt, no_answer, unreadable, answer, Transport,
}
use gitactionflow.Ai.{Suggestion, validate_suggestion}
use gitactionflow.Ai.Decode.{decode_suggestion, decode_gemini, decode_groq}

-- Config
pub record Config : Type 0 where
  pub is_enabled : Bool
  pub provider : Text
  pub api_key : Text

pub data Suggester : Type 0 where
  noop : Suggester
  gemini groq : (key : Text) → Suggester

-- strings.Index and strings.LastIndex of one character.
unfoldable pub first_of : ℕ → Text → Option ℕ
first_of c [] = none
first_of c (d ∷ s) = elim (first_of c s) [
  | none ↦ if d == c then some 0 else none
  | some n ↦ if d == c then some 0 else some (suc n)
]

unfoldable pub last_of : ℕ → Text → Option ℕ
last_of c [] = none
last_of c (d ∷ s) = elim (last_of c s) [
  | none ↦ if d == c then some 0 else none
  | some n ↦ some (suc n)
]

abbrev up_to : Text → ℕ → Option ℕ → Text
up_to raw i none = raw
up_to raw i (some j) = if ltb i j then take (j + 1 - i) (drop i raw) else raw

abbrev from_brace : Text → Option ℕ → Text
from_brace raw none = raw
from_brace raw (some i) = up_to raw i (last_of b'}' raw)

-- The part of a model's text from its first { to its last }.
unfoldable pub json_part : Text → Text
unfolding first_of last_of
json_part s = let raw = trim_space s in from_brace raw (first_of b'{' raw)

abbrev pub invalid_output : Text → Error
invalid_output detail = record {
  kind = ai_invalid_output;
  message = codes "ai invalid output" ++ detail;
}

-- truncate
unfoldable pub truncate : Text → ℕ → Text
truncate s n = if leb (byte_len s) n then s else cut_replace n s

-- systemPrompt
abbrev newline : Text
newline = 10 ∷ []

abbrev system_prompt : Text
system_prompt =
    codes "You assist a GitHub automation bot. Reply with ONLY compact JSON (no markdown):"
    ++ (newline
        ++ (codes
              "{\"summary\":\"one short sentence\",\"suggested_labels\":[\"bug\"],\"priority\":\"low|medium|high|unknown\"}"
            ++ (newline
                ++ (codes
                      "Labels must be from: bug, enhancement, documentation, question, help wanted, good first issue, priority, wontfix."
                    ++ (newline
                        ++ codes
                            "Do not invent other keys. Do not include secrets or URLs to call.")))))

abbrev issue_text : Text → Text → Text
issue_text title body =
    codes "Title: "
    ++ (title ++ (newline ++ (newline ++ (codes "Body:" ++ (newline ++ truncate body 4000)))))

-- A field of an object, alone or before others.
abbrev entry_of : Text → Json → Json
entry_of k v = obj (field k v end)

abbrev one : Json → Json
one j = arr (cons j nil)

-- `map[string]any` is encoded with its keys in order.
abbrev gemini_payload : Text → Text → Json
gemini_payload title body = obj (
    field (codes "contents")
      (one (
        entry_of (codes "parts") (
          one (
            entry_of (codes "text")
              (str (system_prompt ++ (newline ++ (newline ++ issue_text title body))))))))
      (field (codes "generationConfig")
        (obj
          (field (codes "maxOutputTokens") (num (pos 256)) (field (codes "temperature") frac end)))
        end))

abbrev role_message : Text → Text → Json
role_message role content =
    obj (field (codes "content") (str content) (field (codes "role") (str role) end))

abbrev groq_payload : Text → Text → Json
groq_payload title body = obj (
    field (codes "max_tokens") (num (pos 256)) (
      field (codes "messages")
        (arr (
          cons (role_message (codes "system") system_prompt)
            (cons (role_message (codes "user") (issue_text title body)) nil)))
        (field (codes "model") (str (codes "llama-3.1-8b-instant"))
          (field (codes "temperature") frac end))))

abbrev gemini_endpoint : Text
gemini_endpoint =
    codes
      "https://generativelanguage.googleapis.com/v1beta/models/gemini-2.0-flash:generateContent?key="

abbrev groq_endpoint : Text
groq_endpoint = codes "https://api.groq.com/openai/v1/chat/completions"

abbrev failed {ℓ} : {A : Type ℓ} → Text → Result A
failed message = err (record { kind = other; message = message })

abbrev or_failed {ℓ} : {A : Type ℓ} → Option A → Result A
or_failed none = failed (codes "json")
or_failed (some a) = ok a

abbrev by_status : Text → Response → Result Raw
by_status name r =
    if leb 300 r.status then failed (name ++ (codes " status " ++ decimal r.status)) else ok r.body

-- The body of an answer; what could be read of it, if reading it failed.
unfoldable pub body_of : Text → Attempt → Result Raw
body_of name (unbuilt e) = failed e
body_of name (no_answer e) = failed e
body_of name (unreadable r e) = by_status name r
body_of name (answer r) = by_status name r

abbrev first_part : List (List Text) → Result Text
first_part [] = err (invalid_output [])
first_part ([] ∷ cs) = err (invalid_output [])
first_part ((t ∷ ts) ∷ cs) = ok t

abbrev first_choice : List Text → Result Text
first_choice [] = err (invalid_output [])
first_choice (t ∷ ts) = ok t

module _ ⦃u : Unicode⦄ (parse : Text → Raw) (transport : Transport) where
  abbrev checked : Option Suggestion → Result Suggestion
  checked none = err (invalid_output (codes ": json"))
  checked (some s) = validate_suggestion s

  -- parseModelJSON
  unfoldable pub parse_model_json : Text → Result Suggestion
  unfolding json_part
  parse_model_json raw = checked (decode_suggestion (parse (json_part raw)))

  abbrev ask : Text → Option Text → Json → Attempt
  ask url bearer body =
      transport (record { method = post; url = url; bearer = bearer; body = json body })

  -- Suggest, of each provider.
  unfoldable pub suggest : Suggester → Text → Text → Result Suggestion
  unfolding body_of parse_model_json truncate
  suggest noop title body = err (record { kind = ai_disabled; message = codes "ai disabled" })
  suggest (gemini key) title body = do
    raw ← body_of (codes "gemini") (ask (gemini_endpoint ++ key) none (gemini_payload title body))
    candidates ← or_failed (decode_gemini raw)
    text ← first_part candidates
    parse_model_json text
  suggest (groq key) title body = do
    raw ← body_of (codes "groq") (ask groq_endpoint (some key) (groq_payload title body))
    choices ← or_failed (decode_groq raw)
    text ← first_choice choices
    parse_model_json text

-- New
unfoldable pub new : ⦃u : Unicode⦄ → Config → Suggester
new cfg =
    let name = to_lower (trim_space cfg.provider) in
    if not cfg.is_enabled || is_empty (trim_space cfg.api_key)
    then noop
    else if text_eq name (codes "groq")
    then groq cfg.api_key
    else if text_eq name (codes "gemini") || is_empty name
    then gemini cfg.api_key
    else noop
