-- ===== src/Ai/Decode.antt =====
-- What backend/internal/ai/suggest.go decodes from JSON. An element of an array is decoded into a
-- zero value; Go decodes an array under a repeated key into the elements of the one before.
use gitactionflow.Base.{Option, none, some, List, [], ◌∷◌}
use gitactionflow.Base.Text.{Text, codes, Unicode}
use gitactionflow.Json.{
  Json, null, arr, Items, nil, cons, Fields, Raw, decode_field, string_value, struct_value,
  as_struct, ◌>>=◌,
}
use gitactionflow.Ai.{Suggestion}

abbrev items_value {ℓ} : {A : Type ℓ} → (Json → Option A) → Items → Option (List A)
items_value decode nil = some []
items_value decode (cons j rest) = do a ← decode j; as' ← items_value decode rest; some (a ∷ as')

-- A slice: `null` empties it.
abbrev slice_value {ℓ} : {A : Type ℓ} → (Json → Option A) → List A → Json → Option (List A)
slice_value decode old null = some []
slice_value decode old (arr items) = items_value decode items
slice_value decode old _ = none

module _ ⦃u : Unicode⦄ where
  suggestion_fields : Fields → Option Suggestion
  unfolding decode_field
  suggestion_fields fs = do
    summary ← decode_field (codes "summary") string_value [] fs
    labels ← decode_field (codes "suggested_labels") (slice_value (string_value [])) [] fs
    priority ← decode_field (codes "priority") string_value [] fs
    some (record { summary = summary; suggested_labels = labels; priority = priority })

  unfoldable pub decode_suggestion : Raw → Option Suggestion
  unfolding suggestion_fields
  decode_suggestion = as_struct suggestion_fields

  part_text : Text → Fields → Option Text
  unfolding decode_field
  part_text old fs = decode_field (codes "text") string_value old fs

  content_parts : List Text → Fields → Option (List Text)
  unfolding decode_field part_text
  content_parts old fs =
      decode_field (codes "parts") (slice_value (struct_value part_text [])) old fs

  candidate_parts : List Text → Fields → Option (List Text)
  unfolding decode_field content_parts
  candidate_parts old fs = decode_field (codes "content") (struct_value content_parts) old fs

  gemini_fields : Fields → Option (List (List Text))
  unfolding decode_field candidate_parts
  gemini_fields fs =
      decode_field (codes "candidates") (slice_value (struct_value candidate_parts [])) [] fs

  -- The texts of the parts of each candidate.
  unfoldable pub decode_gemini : Raw → Option (List (List Text))
  unfolding gemini_fields
  decode_gemini = as_struct gemini_fields

  message_content : Text → Fields → Option Text
  unfolding decode_field
  message_content old fs = decode_field (codes "content") string_value old fs

  choice_content : Text → Fields → Option Text
  unfolding decode_field message_content
  choice_content old fs = decode_field (codes "message") (struct_value message_content) old fs

  groq_fields : Fields → Option (List Text)
  unfolding decode_field choice_content
  groq_fields fs =
      decode_field (codes "choices") (slice_value (struct_value choice_content [])) [] fs

  -- The content of each choice's message.
  unfoldable pub decode_groq : Raw → Option (List Text)
  unfolding groq_fields
  decode_groq = as_struct groq_fields
