-- ===== src/Rules/Validate/Normal.antt =====
-- What ValidateNormalize (backend/internal/rules/validate.go) returns is normal, and fits the table.
use gitactionflow.Base.{
  ◌≡◌, refl, ap, subst, true, false, ◌||◌, Option, none, some, List, [], ◌∷◌, any, is_empty,
  Bool-cases, inl, inr,
}
use gitactionflow.Base.Text.{Text, text_eq, trim_space, Unicode, to_lower}
use gitactionflow.Base.Text.Trim.{trim_space_idem}
use gitactionflow.Errors.{Result, ok, err, ◌>>=◌}
use gitactionflow.Json.{Raw}
use gitactionflow.Rules.Validate.Config.{normalize_action_config-Settled}
use gitactionflow.Rules.Validate.{
  Input, normalize_optional, normalize_labels, normalize_action_config, validate_normalize, issues,
  pull_request, github_label, github_comment, slack_notification,
}

normalize_optional_idem :
    (o : Option Text) → normalize_optional (normalize_optional o) ≡ normalize_optional o
unfolding normalize_optional
normalize_optional_idem none = refl
normalize_optional_idem (some t) = elim (Bool-cases (is_empty (trim_space t))) [
  | inl blank ↦ rw blank refl
  | inr given ↦ rw (given, trim_space_idem t, given) refl
]

module _ ⦃u : Unicode⦄ where
  normalize_labels_idem :
      (seen ls : List Text)
      → normalize_labels seen (normalize_labels seen ls) ≡ normalize_labels seen ls
  unfolding normalize_labels
  normalize_labels_idem seen [] = refl
  normalize_labels_idem seen (l ∷ ls) = elim (Bool-cases (is_empty (trim_space l))) [
    | inl blank ↦ rw blank (normalize_labels_idem seen ls)
    | inr given ↦ elim (Bool-cases (any (text_eq (to_lower (trim_space l))) seen)) [
      | inl double ↦ rw (given, double) (normalize_labels_idem seen ls)
      | inr new ↦
          rw (given, new, trim_space_idem l, given, new)
            (ap (λ r. trim_space l ∷ r) (normalize_labels_idem (to_lower (trim_space l) ∷ seen) ls))
    ]
  ]

  -- No two labels are equal up to case, none is blank, and none has space around it.
  pub IsNormal : List Text → List Text → Type 0
  IsNormal seen [] = Unit
  IsNormal seen (l ∷ ls) =
      (is_empty l ≡ false)
      × (trim_space l ≡ l)
      × (any (text_eq (to_lower l)) seen ≡ false)
      × IsNormal (to_lower l ∷ seen) ls

  pub normalize_labels-IsNormal : (seen ls : List Text) → IsNormal seen (normalize_labels seen ls)
  unfolding normalize_labels IsNormal
  normalize_labels-IsNormal seen [] = tt
  normalize_labels-IsNormal seen (l ∷ ls) = elim (Bool-cases (is_empty (trim_space l))) [
    | inl blank ↦ rw blank (normalize_labels-IsNormal seen ls)
    | inr given ↦ elim (Bool-cases (any (text_eq (to_lower (trim_space l))) seen)) [
      | inl double ↦ rw (given, double) (normalize_labels-IsNormal seen ls)
      | inr new ↦
          rw (given, new)
            (
              given,
              trim_space_idem l,
              new,
              normalize_labels-IsNormal (to_lower (trim_space l) ∷ seen) ls,
            )
    ]
  ]

module _ ⦃u : Unicode⦄ where
  -- What ValidateNormalize makes of an input, with the config that it found.
  abbrev pub normalized : Input → Raw → Input
  normalized input cfg = record {
    name = trim_space input.name;
    enabled = input.enabled;
    event_type = trim_space input.event_type;
    keyword = normalize_optional input.keyword;
    author = normalize_optional input.author;
    required_labels = normalize_labels [] input.required_labels;
    action_type = trim_space input.action_type;
    action_config = cfg;
  }

  -- An input that is accepted.
  pub record Accepted (input norm : Input) : Type 0 where
    pub name : is_empty (trim_space input.name) ≡ false
    pub event_type :
        (text_eq (trim_space input.event_type) issues
          || text_eq (trim_space input.event_type) pull_request)
        ≡ true
    pub action_type :
        (text_eq (trim_space input.action_type) github_label
          || text_eq (trim_space input.action_type) github_comment
          || text_eq (trim_space input.action_type) slack_notification)
        ≡ true
    pub config :
        normalize_action_config (trim_space input.action_type) input.action_config
        ≡ ok norm.action_config
    pub same : normalized input norm.action_config ≡ norm

  finish-Accepted :
      (input norm : Input) (r : Result Raw)
      → (r >>= λ cfg. ok (normalized input cfg)) ≡ ok norm
      → (r ≡ ok norm.action_config) × (normalized input norm.action_config ≡ norm)
  finish-Accepted input norm (ok cfg) h =
      let same : normalized input cfg ≡ norm = cc in
      let same_cfg : cfg ≡ norm.action_config = ap (λ (i : Input). i.action_config) same in
      (ap ok same_cfg, subst (λ c. normalized input c ≡ norm) same_cfg same)
  finish-Accepted input norm (err e) h = absurd (cc)

  pub validate_normalize-Accepted :
      (input norm : Input) → validate_normalize input ≡ ok norm → Accepted input norm
  unfolding validate_normalize
  validate_normalize-Accepted input norm h = elim (Bool-cases (is_empty (trim_space input.name))) [
    | inl blank ↦ absurd (let g = rw blank at h in cc)
    | inr given ↦
        elim (Bool-cases (
          text_eq (trim_space input.event_type) issues
          || text_eq (trim_space input.event_type) pull_request)) [
            | inr odd ↦ absurd (let g = rw (given, odd) at h in cc)
            | inl typed ↦
                elim (Bool-cases (
                  text_eq (trim_space input.action_type) github_label
                  || text_eq (trim_space input.action_type) github_comment
                  || text_eq (trim_space input.action_type) slack_notification)) [
                    | inr odd ↦ absurd (let g = rw (given, typed, odd) at h in cc)
                    | inl known ↦
                        let (c, same) =
                          finish-Accepted input norm
                            (normalize_action_config (trim_space input.action_type)
                              input.action_config)
                            (rw (given, typed, known) at h) in
                        record {
                          name = given;
                          event_type = typed;
                          action_type = known;
                          config = c;
                          same = same;
                        }
                  ]
          ]
  ]

  -- Validating a rule that is already normal changes nothing.
  pub validate_normalize_idem :
      (input norm : Input) → validate_normalize input ≡ ok norm → validate_normalize norm ≡ ok norm
  unfolding validate_normalize
  validate_normalize_idem input norm h =
      let a = validate_normalize-Accepted input norm h in
      subst (λ (i : Input). validate_normalize i ≡ ok norm) a.same
        (rw
          (
            trim_space_idem input.name,
            trim_space_idem input.event_type,
            trim_space_idem input.action_type,
            a.name,
            a.event_type,
            a.action_type,
            (normalize_action_config-Settled (trim_space input.action_type) input.action_config
                norm.action_config a.config).0,
            normalize_optional_idem input.keyword,
            normalize_optional_idem input.author,
            normalize_labels_idem [] input.required_labels,
          )
          (ap ok a.same))
