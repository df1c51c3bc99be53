-- ===== src/Webhook/Ingest/Delivery.antt =====
-- What Ingest (backend/internal/webhook/service.go) stores of a delivery.
use gitactionflow.Base.{
  ℕ, ◌≡◌, ◌≢◌, refl, sym, subst, Bool, true, false, not, Option, none, some, [], ◌∷◌, ◌++◌, any,
  Bool-cases, inl, inr, is_empty, ◌==◌,
}
use gitactionflow.Base.Int.{ℤ, pos_part, is_le_zero}
use gitactionflow.Base.Text.{Text, text_eq, Unicode}
use gitactionflow.Errors.{Error, Result, ok, err, is, not_found, conflict}
use gitactionflow.Json.{is_valid}
use gitactionflow.Store.Rows.{Db, WebhookEvent, WebhookStatus, Repository}
use gitactionflow.Store.Exec.{Env, World, Statement, query, run_statement}
use gitactionflow.Store.Exec.Inversion.{query_keeps}
use gitactionflow.Store.Repositories.{get_by_github_id}
use gitactionflow.Store.Events.{insert_pending_with_max_retries}
use gitactionflow.Webhook.Envelope.{Envelope, is_supported, decode_envelope}
use gitactionflow.Webhook.Ingest.{
  IngestInput, IngestResult, accepted, retries_or_default, inserted, persist, with_envelope, ingest,
}

-- The delivery id is that of an event in the table.
abbrev pub is_known : Text → Db → Bool
is_known delivery_id db = any (λ (x : WebhookEvent). text_eq x.delivery_id delivery_id) db.events

-- The new row is of the delivery, and waits to be processed.
pub record Queued (input : IngestInput) (limit : ℤ) (e : WebhookEvent) : Type 0 where
  pub delivery_id : e.delivery_id ≡ input.delivery_id
  pub event_type : e.event_type ≡ input.event_type
  pub payload : e.payload ≡ input.raw_body
  pub status : e.status ≡ WebhookStatus.pending
  pub retry_count : e.retry_count ≡ 0
  pub max_retries : e.max_retries ≡ pos_part (retries_or_default limit)
  pub locked_at : e.locked_at ≡ none

-- Either nothing is stored, and the result is not `accepted`; or the result is `accepted`, the
-- delivery was not known, and one row of a connected repository is added at the end of the table.
pub data Stored (input : IngestInput) (max_retries : ℤ) (db : Db)
    : Result IngestResult → Db → Type 0 where
  kept : {r : Result IngestResult} → r ≢ ok accepted → Stored input max_retries db r db
  added :
      (e : WebhookEvent) (n : ℕ)
      → Queued input max_retries e
      → is_known input.delivery_id db ≡ false
      → any (λ (x : Repository). x.id == e.repository_id) db.repositories ≡ true
      → Stored input max_retries db
          (ok accepted)
          (record db { events = db.events ++ e ∷ []; next_id = n })

-- The INSERT does nothing or adds the row.
data Inserted (input : IngestInput) (max_retries : ℤ) (db : Db)
    : Result WebhookEvent × Db → Type 0 where
  refused : (e : Error) → Inserted input max_retries db (err e, db)
  row :
      (e : WebhookEvent) (n : ℕ)
      → Queued input max_retries e
      → is_known input.delivery_id db ≡ false
      → any (λ (x : Repository). x.id == e.repository_id) db.repositories ≡ true
      → Inserted input max_retries db
          (ok e, record db { events = db.events ++ e ∷ []; next_id = n })

module _ ⦃u : Unicode⦄ (env : Env) (max_retries : ℤ) (input : IngestInput) where
  abbrev insertion : Repository → Envelope → Statement WebhookEvent
  insertion repo v =
      insert_pending_with_max_retries repo.id input.delivery_id input.event_type v.action
        input.raw_body (retries_or_default max_retries)

  insert-Inserted :
      (repo : Repository) (v : Envelope) (locked : ℕ → Bool) (now : ℕ) (db : Db)
      → Inserted input max_retries db (insertion repo v locked now db)
  unfolding insert_pending_with_max_retries
  insert-Inserted repo v locked now db = elim (Bool-cases (not (is_valid input.raw_body))) [
    | inl bad ↦ rw (bad, insert_pending_with_max_retries) (refused _)
    | inr good ↦ elim (Bool-cases (is_known input.delivery_id db)) [
      | inl known ↦ rw (good, known, insert_pending_with_max_retries) (refused _)
      | inr new ↦ elim (Bool-cases (any (λ (x : Repository). x.id == repo.id) db.repositories)) [
        | inl there ↦
            rw (good, new, there, insert_pending_with_max_retries)
              (row _ _
                (record {
                  delivery_id = refl;
                  event_type = refl;
                  payload = refl;
                  status = refl;
                  retry_count = refl;
                  max_retries = refl;
                  locked_at = refl;
                })
                new there)
        | inr gone ↦ rw (good, new, gone, insert_pending_with_max_retries) (refused _)
      ]
    ]
  ]

  -- What the INSERT of the query does, whether it ran or the connection failed.
  query-Inserted :
      (repo : Repository) (v : Envelope) (w : World)
      → Inserted input max_retries w.db
          ((query env (insertion repo v) w).0, (query env (insertion repo v) w).1.db)
  unfolding query
  query-Inserted repo v w = go (env.beat w.statements).fault
    where
      go :
          (fault : Option Text)
          → let r = run_statement (env.beat w.statements) fault (insertion repo v) w in
            Inserted input max_retries w.db (r.0, r.1.db)
      go none = insert-Inserted repo v (env.beat w.statements).locked _ w.db
      go (some msg) = refused _

  inserted-Stored :
      (db : Db) {p : Result WebhookEvent × Db} (w1 : World)
      → Inserted input max_retries db p
      → w1.db ≡ p.1
      → let r = inserted p.0 w1 in Stored input max_retries db r.0 r.1.db
  inserted-Stored db w1 (refused e) q = elim (Bool-cases (is e conflict)) [
    | inl known ↦ rw (known, q) (kept (λ x. cc))
    | inr failed ↦ rw (failed, q) (kept (λ x. cc))
  ]
  inserted-Stored db w1 (row e n qd new there) q = rw q (added e n qd new there)

  persist-Stored :
      (v : Envelope) (repo : Result Repository) (w : World)
      → let r = persist env max_retries input v repo w in Stored input max_retries w.db r.0 r.1.db
  persist-Stored v (ok repo) w =
      inserted-Stored w.db (query env (insertion repo v) w).1 (query-Inserted repo v w) refl
  persist-Stored v (err e) w = elim (Bool-cases (is e not_found)) [
    | inl missing ↦ rw missing (kept (λ x. cc))
    | inr failed ↦ rw failed (kept (λ x. cc))
  ]

  -- Finding the repository changes nothing.
  query-get_by_github_id : (id : ℤ) (w : World) → w.db ≡ (query env (get_by_github_id id) w).1.db
  unfolding get_by_github_id
  query-get_by_github_id id w =
      query_keeps env (get_by_github_id id) (λ db. w.db ≡ db) (λ locked now db h. h) w refl

  with_envelope-Stored :
      (o : Option Envelope) (w : World)
      → let r = with_envelope env max_retries input o w in Stored input max_retries w.db r.0 r.1.db
  with_envelope-Stored none w = kept (λ x. cc)
  with_envelope-Stored (some v) w = elim (Bool-cases (is_le_zero v.repo_id)) [
    | inl bad ↦ rw bad (kept (λ x. cc))
    | inr good ↦ rw good (
        subst
          (λ (db : Db).
            Stored input max_retries db
              (persist env max_retries input v (query env (get_by_github_id v.repo_id) w).0
                (query env (get_by_github_id v.repo_id) w).1).0
              (persist env max_retries input v (query env (get_by_github_id v.repo_id) w).0
                (query env (get_by_github_id v.repo_id) w).1).1.db)
          (sym (query-get_by_github_id v.repo_id w))
          (persist-Stored v (query env (get_by_github_id v.repo_id) w).0
            (query env (get_by_github_id v.repo_id) w).1))
  ]

  -- Whatever fails on the way: a delivery is answered `accepted` if, and only if, one row is added to
  -- the queue for it, pending and with its retries, for a connected repository; that happens only
  -- if its delivery id is not in the table. Otherwise the database is as it was.
  pub ingest-Stored :
      (w : World)
      → Stored input max_retries w.db
          (ingest env max_retries input w).0
          (ingest env max_retries input w).1.db
  unfolding ingest
  ingest-Stored w = elim (Bool-cases (is_empty input.delivery_id)) [
    | inl blank ↦ rw blank (kept (λ x. cc))
    | inr given ↦ elim (Bool-cases (is_empty input.event_type)) [
      | inl blank ↦ rw (given, blank) (kept (λ x. cc))
      | inr typed ↦ elim (Bool-cases (is_supported input.event_type)) [
        | inl good ↦
            rw (given, typed, good) (with_envelope-Stored (decode_envelope input.raw_body) w)
        | inr odd ↦ rw (given, typed, odd) (kept (λ x. cc))
      ]
    ]
  ]
