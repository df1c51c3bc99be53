-- ===== src/Rules/Engine/Meaning.antt =====
-- What Match and Evaluate (backend/internal/rules/engine.go) decide, without the loops.
use mathlib.Core.List.{Memᴰ}
use gitactionflow.Base.{
  ℕ, ◌≡◌, ◌≢◌, refl, sym, ap, subst, ◌∙◌, ◌↔◌, inl, inr, true, false, Option, none, some, List, [],
  ◌∷◌, arith, All, any, map, is_empty, Bool-cases,
}
use gitactionflow.Base.Text.{Text, text_eq, text_eq_iff, trim_space, Unicode, to_lower, equal_fold}
use gitactionflow.Base.Text.Search.{
  Occurs, contains-eq-true, contains-append, is_empty_iff, any-text_eq-Memᴰ, Memᴰ-any-text_eq,
}
use gitactionflow.Store.Rows.{Rule}
use gitactionflow.Rules.Engine.{
  EventContext, ActionIntent, haystack, intent, label_key, keyword_matches, author_matches,
  labels_match, match_rule, evaluate,
}

-- A text that is set and not blank.
abbrev pub IsGiven : Option Text → Text → Type 0
IsGiven o t = (k : Text) × (o ≡ some k) × (trim_space k ≡ t) × (t ≢ [])

module _ ⦃u : Unicode⦄ where
  -- Two texts are equal under simple case folding.
  pub data FoldEqual : Text → Text → Type 0 where
    end : FoldEqual [] []
    next : {c d : ℕ} {s t : Text} → u.fold c d ≡ true → FoldEqual s t → FoldEqual (c ∷ s) (d ∷ t)

  -- What it means for an event to satisfy a rule.
  pub record Matches (r : Rule) (ev : EventContext) : Type 0 where
    pub enabled : r.enabled ≡ true
    pub event_type : r.event_type ≡ ev.event_type
    pub keyword : (k : Text) → IsGiven r.keyword k → Occurs (to_lower k) (to_lower (haystack ev))
    pub author : (a : Text) → IsGiven r.author a → FoldEqual a (trim_space ev.author)
    pub labels :
        All
          (λ need. label_key need ≢ [] → Memᴰ (label_key need) (map label_key ev.labels))
          r.required_labels

module _ ⦃u : Unicode⦄ where
  equal_fold-FoldEqual : (s t : Text) → equal_fold s t ≡ true → FoldEqual s t
  unfolding equal_fold
  equal_fold-FoldEqual [] [] h = end
  equal_fold-FoldEqual [] (d ∷ t) h = absurd (cc)
  equal_fold-FoldEqual (c ∷ s) [] h = absurd (cc)
  equal_fold-FoldEqual (c ∷ s) (d ∷ t) h =
      next (ground arith) (equal_fold-FoldEqual s t (ground arith))

  FoldEqual-equal_fold : (s t : Text) → FoldEqual s t → equal_fold s t ≡ true
  unfolding equal_fold
  FoldEqual-equal_fold [] [] end = refl
  FoldEqual-equal_fold [] (d ∷ t) e = elim e [ ]
  FoldEqual-equal_fold (c ∷ s) [] e = elim e [ ]
  FoldEqual-equal_fold (c ∷ s) (d ∷ t) (next p q) =
      let r = FoldEqual-equal_fold s t q in ground arith

  trimmed-Given : {t k : Text} → IsGiven (some t) k → trim_space t ≡ k
  trimmed-Given {t} {k} g = let same : t ≡ g.0 = cc g.1 in rw same g.2

  module _ (ev : EventContext) where
    keyword_matches_iff :
        (o : Option Text)
        → (keyword_matches o ev ≡ true)
          ↔ ((k : Text) → IsGiven o k → Occurs (to_lower k) (to_lower (haystack ev)))
    unfolding keyword_matches
    keyword_matches_iff none = (λ h k g. absurd (let e = g.1 in cc), λ h. refl)
    keyword_matches_iff (some t) = elim (Bool-cases (is_empty (trim_space t))) [
      | inl blank ↦
          let nil = (is_empty_iff (trim_space t)).0 blank in
          rw blank (λ h k g. absurd (g.3 (sym (trimmed-Given g) ∙ nil)), λ h. refl)
      | inr given ↦ rw given (
        λ h k g.
            subst (λ z. Occurs (to_lower z) (to_lower (haystack ev))) (trimmed-Given g)
              (contains-eq-true _ _ h),
        λ h.
            let (before, after, e) =
              h (trim_space t) (t, refl, refl, λ p. ground (arith, is_empty_iff (trim_space t))) in
            rw e (contains-append before (to_lower (trim_space t)) after),
      )
    ]

    author_matches_iff :
        (o : Option Text)
        → (author_matches o ev ≡ true)
          ↔ ((a : Text) → IsGiven o a → FoldEqual a (trim_space ev.author))
    unfolding author_matches
    author_matches_iff none = (λ h k g. absurd (let e = g.1 in cc), λ h. refl)
    author_matches_iff (some t) = elim (Bool-cases (is_empty (trim_space t))) [
      | inl blank ↦
          let nil = (is_empty_iff (trim_space t)).0 blank in
          rw blank (λ h k g. absurd (g.3 (sym (trimmed-Given g) ∙ nil)), λ h. refl)
      | inr given ↦ rw given (
        λ h k g.
            subst (λ z. FoldEqual z (trim_space ev.author)) (trimmed-Given g)
              (equal_fold-FoldEqual _ _ h),
        λ h.
            FoldEqual-equal_fold _ _
              (h (trim_space t) (t, refl, refl, λ p. ground (arith, is_empty_iff (trim_space t)))),
      )
    ]

  labels_match_iff :
      (needs have : List Text)
      → (labels_match needs have ≡ true)
        ↔ All (λ need. label_key need ≢ [] → Memᴰ (label_key need) have) needs
  unfolding labels_match
  labels_match_iff [] have = (λ h. tt, λ h. refl)
  labels_match_iff (need ∷ rest) have =
      let (to, from) = labels_match_iff rest have in
      let (blank_to, blank_from) = is_empty_iff (label_key need) in
      elim (Bool-cases (is_empty (label_key need))) [
        | inl blank ↦ rw blank (λ h. (λ n. absurd (n (blank_to blank)), to h), λ h. from h.1)
        | inr given ↦ elim (Bool-cases (any (text_eq (label_key need)) have)) [
          | inl there ↦
              rw (given, there) (λ h. (λ n. any-text_eq-Memᴰ _ _ there, to h), λ h. from h.1)
          | inr missing ↦
              rw (given, missing)
                (
                  λ h. absurd (cc),
                  λ h. absurd (
                      let found = Memᴰ-any-text_eq _ _ (h.0 (λ p. let q = blank_from p in cc)) in
                      cc),
                )
        ]
      ]

  -- Match says whether the event satisfies the rule: the rule is enabled and for the event's type; its
  -- keyword, if it has one that is not blank, occurs in the title and body when case is ignored; its
  -- author, if given, is the event's, up to case; and each of its labels that is not blank is one of
  -- the event's, when case and surrounding space are ignored.
  pub match_rule_iff : (r : Rule) (ev : EventContext) → (match_rule r ev ≡ true) ↔ Matches r ev
  unfolding match_rule
  match_rule_iff r ev = (to, from)
    where
      to : match_rule r ev ≡ true → Matches r ev
      to h = record {
        enabled = ground arith;
        event_type = (text_eq_iff r.event_type ev.event_type).0 (ground arith);
        keyword = (keyword_matches_iff ev r.keyword).0 (ground arith);
        author = (author_matches_iff ev r.author).0 (ground arith);
        labels = (labels_match_iff r.required_labels (map label_key ev.labels)).0 (ground arith);
      }

      from : Matches r ev → match_rule r ev ≡ true
      from m =
          rw
            (
              m.enabled,
              (text_eq_iff r.event_type ev.event_type).1 m.event_type,
              (keyword_matches_iff ev r.keyword).1 m.keyword,
              (author_matches_iff ev r.author).1 m.author,
              (labels_match_iff r.required_labels (map label_key ev.labels)).1 m.labels,
            )
            refl

  evaluate_parts :
      (rs : List Rule) (ev : EventContext) (i : ActionIntent)
      → (Memᴰ i (evaluate rs ev) → (r : Rule) × Memᴰ r rs × Matches r ev × (i ≡ intent r ev))
        × ((r : Rule) → Memᴰ r rs → Matches r ev → Memᴰ (intent r ev) (evaluate rs ev))
  unfolding evaluate
  evaluate_parts [] ev i = (λ m. elim m [ ], λ r m h. elim m [ ])
  evaluate_parts (r ∷ rs) ev i =
      let (sound, complete) = evaluate_parts rs ev i in
      let sound_tail : Memᴰ i (evaluate rs ev)
          → (r' : Rule) × Memᴰ r' (r ∷ rs) × Matches r' ev × (i ≡ intent r' ev) =
        λ m. let (r', n, h, e) = sound m in (r', Memᴰ.tail n, h, e) in
      elim (Bool-cases (match_rule r ev)) [
        | inl hit ↦ rw hit (
          head_or_tail r rs ev i ((match_rule_iff r ev).0 hit) sound_tail,
          λ r' m h. cons_case r rs ev r' m (λ n. Memᴰ.tail (complete r' n h)),
        )
        | inr miss ↦ rw miss (
          sound_tail,
          λ r' m h. miss_case r rs ev r' m ((match_rule_iff r' ev).1 h) miss (λ n. complete r' n h),
        )
      ]
    where
      head_or_tail :
          (r : Rule) (rs : List Rule) (ev : EventContext) (i : ActionIntent)
          → Matches r ev
          → (Memᴰ i (evaluate rs ev)
              → (r' : Rule) × Memᴰ r' (r ∷ rs) × Matches r' ev × (i ≡ intent r' ev))
          → Memᴰ i (intent r ev ∷ evaluate rs ev)
          → (r' : Rule) × Memᴰ r' (r ∷ rs) × Matches r' ev × (i ≡ intent r' ev)
      head_or_tail r rs ev i h k (Memᴰ.head e) = (r, Memᴰ.head refl, h, e)
      head_or_tail r rs ev i h k (Memᴰ.tail m) = k m

      cons_case :
          (r : Rule) (rs : List Rule) (ev : EventContext) (r' : Rule)
          → Memᴰ r' (r ∷ rs)
          → (Memᴰ r' rs → Memᴰ (intent r' ev) (intent r ev ∷ evaluate rs ev))
          → Memᴰ (intent r' ev) (intent r ev ∷ evaluate rs ev)
      cons_case r rs ev r' (Memᴰ.head e) k = Memᴰ.head (ap (λ z. intent z ev) e)
      cons_case r rs ev r' (Memᴰ.tail m) k = k m

      miss_case :
          (r : Rule) (rs : List Rule) (ev : EventContext) (r' : Rule)
          → Memᴰ r' (r ∷ rs)
          → match_rule r' ev ≡ true
          → match_rule r ev ≡ false
          → (Memᴰ r' rs → Memᴰ (intent r' ev) (evaluate rs ev))
          → Memᴰ (intent r' ev) (evaluate rs ev)
      miss_case r rs ev r' (Memᴰ.head e) hit miss k =
          absurd (let q = subst (λ z. match_rule z ev ≡ true) e hit in cc)
      miss_case r rs ev r' (Memᴰ.tail m) hit miss k = k m

  -- An intent is evaluated for an event if, and only if, it is that of one of the rules, and the event
  -- satisfies that rule.
  pub evaluate_iff :
      (rs : List Rule) (ev : EventContext) (i : ActionIntent)
      → Memᴰ i (evaluate rs ev) ↔ ((r : Rule) × Memᴰ r rs × Matches r ev × (i ≡ intent r ev))
  evaluate_iff rs ev i =
      let (sound, complete) = evaluate_parts rs ev i in
      (sound, λ (r, m, h, e). subst (λ z. Memᴰ z (evaluate rs ev)) (sym e) (complete r m h))
