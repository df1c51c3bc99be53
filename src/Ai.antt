-- ===== src/Ai.antt =====
-- backend/internal/ai/suggest.go: the check that a model's output goes through.
pub mod Allowed
pub mod Decode
pub mod Provider
use gitactionflow.Base.{ℕ, ◌-◌, List, [], ◌∷◌, if◌then◌else◌, any, is_empty, ltb}
use gitactionflow.Base.Text.{
  Text, codes, text_eq, trim_space, Unicode, to_lower, byte_len, cut_replace,
}
use gitactionflow.Errors.{Result, ok, err, ai_invalid_output}

pub record Suggestion : Type 0 where
  pub summary : Text
  pub suggested_labels : List Text
  pub priority : Text

abbrev pub allowed_priorities : List Text
allowed_priorities = codes "low" ∷ codes "medium" ∷ codes "high" ∷ codes "unknown" ∷ []

abbrev pub allowed_labels : List Text
allowed_labels =
    codes "bug"
    ∷ codes "enhancement"
    ∷ codes "documentation"
    ∷ codes "question"
    ∷ codes "help wanted"
    ∷ codes "good first issue"
    ∷ codes "priority"
    ∷ codes "wontfix"
    ∷ []

module _ ⦃u : Unicode⦄ where
  -- The loop over the labels: `room` is how many more fit, and `seen` holds those taken.
  unfoldable pub pick_labels : ℕ → List Text → List Text → List Text
  pick_labels room seen [] = []
  pick_labels room seen (l ∷ ls) =
      let t = to_lower (trim_space l) in
      let skip = pick_labels room seen ls in
      let keep = t ∷ (if ltb 1 room then pick_labels (room - 1) (t ∷ seen) ls else []) in
      if is_empty t
      then skip
      else if any (text_eq t) allowed_labels
      then (if any (text_eq t) seen then skip else keep)
      else skip

  -- ValidateSuggestion
  unfoldable pub validate_suggestion : Suggestion → Result Suggestion
  unfolding pick_labels
  validate_suggestion s =
      let summary = trim_space s.summary in
      let priority = to_lower (trim_space s.priority) in
      if is_empty summary
      then err (record {
        kind = ai_invalid_output;
        message = codes "ai invalid output: summary required";
      })
      else ok (record {
        summary = if ltb 1000 (byte_len summary) then cut_replace 1000 summary else summary;
        suggested_labels = pick_labels 5 [] s.suggested_labels;
        priority = if any (text_eq priority) allowed_priorities then priority else codes "unknown";
      })
