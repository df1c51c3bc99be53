-- ===== src/Events/Context.antt =====
-- backend/internal/events/context.go, errors.go and backoff.go: what the rules see of an event, which
-- errors are final, and the delays between attempts.
use gitactionflow.Base.{
  ℕ, zero, suc, Bool, ◌||◌, Option, none, some, List, [], ◌∷◌, ◌++◌, if◌then◌else◌, is_empty,
}
use gitactionflow.Base.Int.{ℤ, pos}
use gitactionflow.Base.Text.{Text, codes, text_eq, trim_space, Unicode}
use gitactionflow.Errors.{
  Error, Result, ok, err, is, invalid_event, unsupported_event, repo_mismatch, actions_failed,
  ◌>>=◌,
}
use gitactionflow.Json
use gitactionflow.Json.{
  Json, Items, Fields, null, obj, arr, nil, cons, value, as_map, entry, decode_field, string_value,
  int_value, struct_value, as_struct,
}
use gitactionflow.Store.Rows.{WebhookEvent}
use gitactionflow.Rules.Engine.{EventContext}

-- fmt.Errorf("%w: ...", ErrInvalidEvent)
abbrev pub err_invalid_event : Text → Error
err_invalid_event why = record {
  kind = invalid_event;
  message = codes "invalid persisted event: " ++ why;
}

abbrev pub err_unsupported : Text → Error
err_unsupported why = record {
  kind = unsupported_event;
  message = codes "unsupported event type: " ++ why;
}

-- IsPermanent
unfoldable pub is_permanent : Error → Bool
is_permanent e =
    is e invalid_event || is e unsupported_event || is e repo_mismatch || is e actions_failed

-- RetryBackoff, in microseconds: a minute, five minutes, fifteen minutes.
unfoldable pub retry_backoff : ℕ → ℤ
retry_backoff zero = pos 60000000
retry_backoff (suc zero) = pos 60000000
retry_backoff (suc (suc zero)) = pos 300000000
retry_backoff (suc (suc (suc n))) = pos 900000000

pub record Item : Type 0 where
  pub title : Text
  pub body : Text
  pub author : Text
  pub labels : List Text
  pub number : ℤ

-- The loop that trims the labels and drops blank ones.
unfoldable pub clean_labels : List Text → List Text
clean_labels [] = []
clean_labels (l ∷ ls) =
    let rest = clean_labels ls in if is_empty (trim_space l) then rest else trim_space l ∷ rest

module _ ⦃u : Unicode⦄ where
  decode_name : Text → Fields → Option Text
  decode_name old fs = decode_field (codes "name") string_value old fs

  decode_login : Text → Fields → Option Text
  decode_login old fs = decode_field (codes "login") string_value old fs

  label_names : Items → Option (List Text)
  label_names nil = some []
  label_names (cons j rest) = elim (struct_value decode_name [] j) [
    | none ↦ none
    | some name ↦ elim (label_names rest) [ none ↦ none | some names ↦ some (name ∷ names) ]
  ]

  labels_value : List Text → Json → Option (List Text)
  labels_value old null = some []
  labels_value old (arr items) = label_names items
  labels_value old _ = none

  decode_item : Fields → Option Item
  unfolding decode_name decode_login label_names labels_value decode_field
  decode_item fs = Json.◌>>=◌ (decode_field (codes "number") int_value (pos 0) fs) λ number.
      Json.◌>>=◌ (decode_field (codes "title") string_value [] fs) λ title.
        Json.◌>>=◌ (decode_field (codes "body") string_value [] fs) λ body.
          Json.◌>>=◌ (decode_field (codes "user") (struct_value decode_login) [] fs) λ author.
            Json.◌>>=◌ (decode_field (codes "labels") labels_value [] fs) λ labels. some (record {
              title = title;
              body = body;
              author = author;
              labels = clean_labels labels;
              number = number;
            })

  abbrev or_invalid : Option Item → Result Item
  or_invalid none = err (err_invalid_event (codes "item fields"))
  or_invalid (some i) = ok i

  -- extractItem
  unfoldable pub extract_item : Json → Result Item
  unfolding decode_item clean_labels
  extract_item j = or_invalid (as_struct decode_item (value j))

  abbrev bare_context : WebhookEvent → EventContext
  bare_context e = record {
    event_id = e.id;
    repository_id = e.repository_id;
    event_type = e.event_type;
    action = e.action;
    author = [];
    title = [];
    body = [];
    labels = [];
    issue_number = pos 0;
  }

  -- One case of the `switch`: the item under its key, if there is one.
  abbrev with_item : WebhookEvent → Option Json → Result EventContext
  with_item e none = ok (bare_context e)
  with_item e (some j) = extract_item j >>= λ i. ok (record (bare_context e) {
    author = i.author;
    title = i.title;
    body = i.body;
    labels = i.labels;
    issue_number = i.number;
  })

  abbrev by_type : WebhookEvent → Option Fields → Result EventContext
  by_type e none = err (err_invalid_event (codes "payload object"))
  by_type e (some payload) =
      if text_eq e.event_type (codes "issues")
      then with_item e (entry (codes "issue") payload)
      else if text_eq e.event_type (codes "pull_request")
      then with_item e (entry (codes "pull_request") payload)
      else err (err_unsupported e.event_type)

  -- ExtractEventContext
  unfoldable pub extract_event_context : WebhookEvent → Result EventContext
  unfolding extract_item
  extract_event_context e = by_type e (as_map e.payload)
