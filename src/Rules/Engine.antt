-- ===== src/Rules/Engine.antt =====
-- backend/internal/rules/engine.go: which rules match an event, and the action intents that follow.
pub mod Meaning
use gitactionflow.Base.{
  ℕ, Bool, true, false, ◌||◌, not, Option, none, some, List, [], ◌∷◌, ◌++◌, if◌then◌else◌, any,
  is_empty, map,
}
use gitactionflow.Base.Int.{ℤ}
use gitactionflow.Base.Text.{
  Text, codes, text_eq, trim_space, contains, Unicode, to_lower, equal_fold,
}
use gitactionflow.Json.{Raw}
use gitactionflow.Store.Rows.{Rule}

pub record EventContext : Type 0 where
  pub event_id : ℕ
  pub repository_id : ℕ
  pub event_type : Text
  pub action : Text
  pub author : Text
  pub title : Text
  pub body : Text
  pub labels : List Text
  pub issue_number : ℤ

pub record ActionIntent : Type 0 where
  pub rule_id : ℕ
  pub event_id : ℕ
  pub action_type : Text
  pub config : Raw
  pub rule_name : Text

-- `ev.Title + "\n" + ev.Body`
abbrev pub haystack : EventContext → Text
haystack ev = ev.title ++ 10 ∷ ev.body

abbrev pub intent : Rule → EventContext → ActionIntent
intent r ev = record {
  rule_id = r.id;
  event_id = ev.event_id;
  action_type = r.action_type;
  config = r.action_config;
  rule_name = r.name;
}

module _ ⦃u : Unicode⦄ where
  -- `strings.ToLower(strings.TrimSpace(l))`
  abbrev pub label_key : Text → Text
  label_key l = to_lower (trim_space l)

  unfoldable pub keyword_matches : Option Text → EventContext → Bool
  keyword_matches none ev = true
  keyword_matches (some k) ev =
      if is_empty (trim_space k)
      then true
      else contains (to_lower (haystack ev)) (to_lower (trim_space k))

  unfoldable pub author_matches : Option Text → EventContext → Bool
  author_matches none ev = true
  author_matches (some a) ev =
      if is_empty (trim_space a) then true else equal_fold (trim_space a) (trim_space ev.author)

  -- The loop over `rule.RequiredLabels`, with the keys of the event's labels.
  unfoldable pub labels_match : List Text → List Text → Bool
  labels_match [] have = true
  labels_match (need ∷ rest) have =
      let more = labels_match rest have in
      if is_empty (label_key need)
      then more
      else if any (text_eq (label_key need)) have
      then more
      else false

  -- Match
  unfoldable pub match_rule : Rule → EventContext → Bool
  unfolding keyword_matches author_matches labels_match
  match_rule r ev =
      if not r.enabled
      then false
      else if not (text_eq r.event_type ev.event_type)
      then false
      else if not (keyword_matches r.keyword ev)
      then false
      else if not (author_matches r.author ev)
      then false
      else labels_match r.required_labels (map label_key ev.labels)

  -- Evaluate
  unfoldable pub evaluate : List Rule → EventContext → List ActionIntent
  evaluate [] ev = []
  evaluate (r ∷ rs) ev =
      let rest = evaluate rs ev in if match_rule r ev then intent r ev ∷ rest else rest
