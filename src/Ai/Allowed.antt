-- ===== src/Ai/Allowed.antt =====
-- What ValidateSuggestion (backend/internal/ai/suggest.go) lets through.
use gitactionflow.Base.{
  ℕ, ◌-◌, ◌≤◌, ◌≡◌, refl, subst, true, false, List, [], ◌∷◌, arith, any, is_empty, length, ltb,
  Bool-cases, inl, inr,
}
use gitactionflow.Base.Text.{Text, codes, text_eq, trim_space, Unicode, to_lower}
use gitactionflow.Errors.{ok}
use gitactionflow.Ai.{
  Suggestion, allowed_labels, allowed_priorities, pick_labels, validate_suggestion,
}

-- The labels are allowed ones, and no two of them, or of them and `seen`, are the same.
abbrev pub AreAllowed : List Text → List Text → Type 0
AreAllowed seen [] = Unit
AreAllowed seen (l ∷ ls) =
    (any (text_eq l) allowed_labels ≡ true)
    × (any (text_eq l) seen ≡ false)
    × AreAllowed (l ∷ seen) ls

module _ ⦃u : Unicode⦄ where
  pick_labels-AreAllowed :
      (room : ℕ) (seen ls : List Text)
      → 1 ≤ room
      → AreAllowed seen (pick_labels room seen ls) × (length (pick_labels room seen ls) ≤ room)
  unfolding pick_labels
  pick_labels-AreAllowed room seen [] h = (tt, omega arith)
  pick_labels-AreAllowed room seen (l ∷ ls) h =
      let t = to_lower (trim_space l) in
      let skip = pick_labels-AreAllowed room seen ls h in
      elim (Bool-cases (is_empty t)) [
        | inl blank ↦ rw blank skip
        | inr given ↦ elim (Bool-cases (any (text_eq t) allowed_labels)) [
          | inr odd ↦ rw (given, odd) skip
          | inl known ↦ elim (Bool-cases (any (text_eq t) seen)) [
            | inl double ↦ rw (given, known, double) skip
            | inr new ↦ elim (Bool-cases (ltb 1 room)) [
              | inl more ↦
                  let (a, b) = pick_labels-AreAllowed (room - 1) (t ∷ seen) ls (ground arith) in
                  rw (given, known, new, more) ((known, new, a), ground arith)
              | inr full ↦ rw (given, known, new, full) ((known, new, tt), h)
            ]
          ]
        ]
      ]

  -- A suggestion that is let through has at most five labels, all of them allowed and no two the same,
  -- and an allowed priority.
  pub validate_suggestion-AreAllowed :
      (s t : Suggestion)
      → validate_suggestion s ≡ ok t
      → AreAllowed [] t.suggested_labels
        × (length t.suggested_labels ≤ 5)
        × (any (text_eq t.priority) allowed_priorities ≡ true)
  unfolding validate_suggestion text_eq
  validate_suggestion-AreAllowed s t h = elim (Bool-cases (is_empty (trim_space s.summary))) [
    | inl blank ↦ absurd (let g = rw blank at h in cc)
    | inr given ↦
        elim (Bool-cases (any (text_eq (to_lower (trim_space s.priority))) allowed_priorities)) [
          | inl known ↦ finish _ (to_lower (trim_space s.priority)) known (rw (given, known) at h)
          | inr odd ↦ finish _ (codes "unknown") refl (rw (given, odd) at h)
        ]
  ]
    where
      finish :
          (summary priority : Text)
          → any (text_eq priority) allowed_priorities ≡ true
          → ok (record {
            summary = summary;
            suggested_labels = pick_labels 5 [] s.suggested_labels;
            priority = priority;
          })
            ≡ ok t
          → AreAllowed [] t.suggested_labels
            × (length t.suggested_labels ≤ 5)
            × (any (text_eq t.priority) allowed_priorities ≡ true)
      finish summary priority p q =
          let same : record {
            summary = summary;
            suggested_labels = pick_labels 5 [] s.suggested_labels;
            priority = priority;
          }
              ≡ t =
            cc in
          subst
            (λ (r : Suggestion).
              AreAllowed [] r.suggested_labels
              × (length r.suggested_labels ≤ 5)
              × (any (text_eq r.priority) allowed_priorities ≡ true))
            same
            (let (a, b) = pick_labels-AreAllowed 5 [] s.suggested_labels (omega arith) in (a, b, p))
