-- ===== src/Store/Actions/Footprint.antt =====
-- What the statements of backend/internal/store/actions.go leave as it is: the events.
use gitactionflow.Base.{
  ℕ, suc, ◌≡◌, refl, ◌∙◌, Bool, not, ◌&&◌, List, any, leb, find, Bool-cases, Option-cases, inl, inr,
  ◌==◌,
}
use gitactionflow.Base.Int.{ℤ, pos_part}
use gitactionflow.Base.Text.{Text}
use gitactionflow.Errors.{Result, ok, err, is, conflict}
use gitactionflow.Json.{Raw, is_valid}
use gitactionflow.Store.Rows.{Db, Action, WebhookEvent, Rule}
use gitactionflow.Store.Exec.{Env, World, Statement, query}
use gitactionflow.Store.Exec.Inversion.{query_keeps, Keeps}
use gitactionflow.Store.Actions.{
  update, mark_processing, mark_completed, mark_failed_immediately, schedule_retry, insert_action,
  has_key, is_action_type, create_or_get, get_on_conflict, get_by_idempotency_key, old_row,
  or_empty,
}

-- The statement leaves the events as they are.
abbrev pub KeepsEvents {ℓ} : {A : Type ℓ} → Statement A → Type 0
KeepsEvents s = (locked : ℕ → Bool) (now : ℕ) (db : Db) → (s locked now db).1.events ≡ db.events

update-events :
    (p : Action → Bool) (set : Action → Action) (db : Db) → (update p set db).1.events ≡ db.events
update-events p set db = elim (Option-cases (find p db.actions)) [
  | inl miss ↦ rw (miss, update) refl
  | inr (a, hit) ↦ rw (hit, update) refl
]

module _ (id : ℕ) where
  pub mark_processing-KeepsEvents : KeepsEvents (mark_processing id)
  unfolding mark_processing
  mark_processing-KeepsEvents locked now db = update-events _ _ db

  pub mark_completed-KeepsEvents : KeepsEvents (mark_completed id)
  unfolding mark_completed
  mark_completed-KeepsEvents locked now db = update-events _ _ db

  pub mark_failed_immediately-KeepsEvents :
      (msg : Text) → KeepsEvents (mark_failed_immediately id msg)
  unfolding mark_failed_immediately
  mark_failed_immediately-KeepsEvents msg locked now db = update-events _ _ db

  pub schedule_retry-KeepsEvents :
      (msg : Text) (backoff : ℤ) → KeepsEvents (schedule_retry id msg backoff)
  unfolding schedule_retry
  schedule_retry-KeepsEvents msg backoff locked now db =
      elim (Option-cases (find (λ (a : Action). a.id == id) db.actions)) [
        | inl miss ↦ rw (miss, schedule_retry) refl
        | inr (a, hit) ↦ elim (Bool-cases (leb a.max_attempts (suc a.attempt_count))) [
          | inl out ↦ rw (hit, schedule_retry, out) (update-events _ _ db)
          | inr left ↦ rw (hit, schedule_retry, left) (update-events _ _ db)
        ]
      ]

insert_action-KeepsEvents :
    (event_id rule_id : ℕ) (action_type : Text) (config : Raw) (key : Text) (max_attempts : ℕ)
    → KeepsEvents (insert_action event_id rule_id action_type config key max_attempts)
unfolding insert_action
insert_action-KeepsEvents event_id rule_id action_type config key max_attempts locked now db =
    elim (Bool-cases (not (is_valid config && is_action_type action_type))) [
      | inl bad ↦ rw bad refl
      | inr good ↦ elim (Bool-cases (any (has_key key) db.actions)) [
        | inl known ↦ rw (good, known) refl
        | inr new ↦
            elim (Bool-cases (
              any (λ (e : WebhookEvent). e.id == event_id) db.events
              && any (λ (r : Rule). r.id == rule_id) db.rules)) [
                | inl there ↦ rw (good, new, there) refl
                | inr gone ↦ rw (good, new, gone) refl
              ]
      ]
    ]

module _ (env : Env) (base : List WebhookEvent) where
  -- A query of such a statement.
  pub query-KeepsEvents {ℓ} :
      {A : Type ℓ} (s : Statement A) → KeepsEvents s → Keeps (λ db. db.events ≡ base) (query env s)
  query-KeepsEvents s k = record {
    keep = λ w h.
        query_keeps env s (λ db. db.events ≡ base) (λ locked now db q. k locked now db ∙ q) w h;
  }

  get_on_conflict_keeps :
      (key : Text) (r : Result Action) (w : World)
      → w.db.events ≡ base
      → (get_on_conflict env key r w).1.db.events ≡ base
  unfolding get_on_conflict get_by_idempotency_key
  get_on_conflict_keeps key (ok a) w h = h
  get_on_conflict_keeps key (err e) w h = elim (Bool-cases (is e conflict)) [
    | inl known ↦ rw known (
        old_row_Keeps _ _
          ((query-KeepsEvents (get_by_idempotency_key key) (λ locked now db. refl)).keep w h))
    | inr failed ↦ rw failed h
  ]
    where
      old_row_Keeps :
          (r : Result Action) (w1 : World) → w1.db.events ≡ base → (old_row r w1).1.db.events ≡ base
      old_row_Keeps (ok a) w1 p = p
      old_row_Keeps (err x) w1 p = p

  pub create_or_get-Keeps :
      (event_id rule_id : ℕ) (action_type : Text) (config : Raw) (key : Text) (max_attempts : ℤ)
      → Keeps
          (λ db. db.events ≡ base)
          (create_or_get env event_id rule_id action_type config key max_attempts)
  unfolding create_or_get
  create_or_get-Keeps event_id rule_id action_type config key max_attempts = record {
    keep = λ w h. get_on_conflict_keeps key _ _ (
        (query-KeepsEvents
            (insert_action event_id rule_id action_type (or_empty config) key
              (pos_part max_attempts))
            (insert_action-KeepsEvents event_id rule_id action_type (or_empty config) key
              (pos_part max_attempts))).keep
          w h);
  }
