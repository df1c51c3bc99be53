-- ===== src/Rules/Validate/Config.antt =====
-- The action configs that normalizeActionConfig (backend/internal/rules/validate.go) writes.
use gitactionflow.Base.{
  ◌≡◌, refl, sym, subst, Bool, true, false, not, ◌&&◌, Option, none, some, is_empty, Bool-cases,
  inl, inr,
}
use gitactionflow.Base.Text.{Text, codes, text_eq, text_eq_iff, trim_space}
use gitactionflow.Base.Text.Trim.{trim_space_idem}
use gitactionflow.Errors.{ok}
use gitactionflow.Json.{as_bool, as_string, Raw, is_valid, entry, as_map, Fields}
use gitactionflow.Rules.Validate.{
  normalize_map, normalize_action_config, label_config, comment_config, slack_config, github_label,
  github_comment, slack_notification, with_map, or_empty,
}

-- The configs that normalizeActionConfig writes, read again.
label_again :
    (t : Text) (use_ai : Bool)
    → trim_space t ≡ t
    → (is_empty t && not use_ai) ≡ false
    → normalize_action_config github_label (label_config t use_ai) ≡ ok (label_config t use_ai)
unfolding normalize_action_config normalize_map entry text_eq
label_again t true p q = rw (p, q) refl
label_again t false p q = rw (p, q) refl

comment_again :
    (t : Text) (use_ai append_ai : Bool)
    → trim_space t ≡ t
    → (is_empty t && (not use_ai && not append_ai)) ≡ false
    → normalize_action_config github_comment (comment_config t use_ai append_ai)
      ≡ ok (comment_config t use_ai append_ai)
unfolding normalize_action_config normalize_map entry text_eq
comment_again t true true p q = rw (p, q) refl
comment_again t true false p q = rw (p, q) refl
comment_again t false true p q = rw (p, q) refl
comment_again t false false p q = rw (p, q) refl

slack_again :
    (t : Text) (append_ai : Bool)
    → trim_space t ≡ t
    → is_empty t ≡ false
    → normalize_action_config slack_notification (slack_config t append_ai)
      ≡ ok (slack_config t append_ai)
unfolding normalize_action_config normalize_map entry text_eq
slack_again t true p q = rw (p, q) refl
slack_again t false p q = rw (p, q) refl

-- A config that is returned is returned unchanged when it is normalised again, and is JSON.
abbrev pub Settled : Text → Raw → Type 0
Settled t cfg = (normalize_action_config t cfg ≡ ok cfg) × (is_valid cfg ≡ true)

settle :
    (kind t : Text) {cfg written : Raw}
    → text_eq t kind ≡ true
    → ok written ≡ ok cfg
    → Settled kind written
    → Settled t cfg
settle kind t {cfg} {written} p q h =
    let same : written ≡ cfg = cc in
    subst (λ c. Settled t c) same
      (subst (λ k. Settled k written) (sym ((text_eq_iff t kind).0 p)) h)

normalize_map-Settled :
    (t : Text) (m : Fields) (cfg : Raw) → normalize_map t m ≡ ok cfg → Settled t cfg
unfolding normalize_map
normalize_map-Settled t m cfg h =
    let use_ai = as_bool (entry (codes "use_ai") m) in
    let append_ai = as_bool (entry (codes "append_ai_summary") m) in
    let label = trim_space (as_string (entry (codes "label") m)) in
    let comment = trim_space (as_string (entry (codes "comment") m)) in
    let message = trim_space (as_string (entry (codes "message") m)) in
    elim (Bool-cases (text_eq t github_label)) [
      | inl labels ↦ elim (Bool-cases (is_empty label && not use_ai)) [
        | inl bad ↦ absurd (let g = rw (labels, bad) at h in cc)
        | inr good ↦
            settle github_label t labels (rw (labels, good) at h)
              (label_again label use_ai (trim_space_idem _) good, refl)
      ]
      | inr x1 ↦ elim (Bool-cases (text_eq t github_comment)) [
        | inl comments ↦ elim (Bool-cases (is_empty comment && (not use_ai && not append_ai))) [
          | inl bad ↦ absurd (let g = rw (x1, comments, bad) at h in cc)
          | inr good ↦
              settle github_comment t comments (rw (x1, comments, good) at h)
                (comment_again comment use_ai append_ai (trim_space_idem _) good, refl)
        ]
        | inr x2 ↦ elim (Bool-cases (text_eq t slack_notification)) [
          | inl slack ↦ elim (Bool-cases (is_empty message)) [
            | inl bad ↦ absurd (let g = rw (x1, x2, slack, bad) at h in cc)
            | inr good ↦
                settle slack_notification t slack (rw (x1, x2, slack, good) at h)
                  (slack_again message append_ai (trim_space_idem _) good, refl)
          ]
          | inr x3 ↦ absurd (let g = rw (x1, x2, x3) at h in cc)
        ]
      ]
    ]

with_map-Settled :
    (o : Option Fields) (t : Text) (cfg : Raw) → with_map o t ≡ ok cfg → Settled t cfg
with_map-Settled none t cfg h = absurd (cc)
with_map-Settled (some m) t cfg h = normalize_map-Settled t m cfg h

pub normalize_action_config-Settled :
    (t : Text) (raw cfg : Raw) → normalize_action_config t raw ≡ ok cfg → Settled t cfg
unfolding normalize_action_config
normalize_action_config-Settled t raw cfg h = elim (Bool-cases (not (is_valid (or_empty raw)))) [
  | inl bad ↦ absurd (let g = rw bad at h in cc)
  | inr good ↦ with_map-Settled (as_map (or_empty raw)) t cfg (rw good at h)
]
