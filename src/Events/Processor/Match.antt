-- ===== src/Events/Processor/Match.antt =====
-- What an event is like that Validate (backend/internal/events/processor.go) lets pass.
use gitactionflow.Base.{
  ◌≡◌, refl, ap, true, false, Bool-cases, inl, inr, Option, none, some, find, is_empty, ◌==◌, ◌||◌,
}
use gitactionflow.Base.Int.{int_eq, is_le_zero}
use gitactionflow.Base.Text.{Text, codes, trim_space, Unicode}
use gitactionflow.Errors.{Error, Result, ok, err}
use gitactionflow.Json.{is_valid}
use gitactionflow.Store.Rows.{Db, WebhookEvent, Repository}
use gitactionflow.Store.Common.{found}
use gitactionflow.Store.Exec.{Env, World}
use gitactionflow.Store.Exec.Inversion.{>>=-eq-ok, query-eq-ok}
use gitactionflow.Store.Repositories
use gitactionflow.Webhook.Envelope.{Envelope, is_supported, decode_envelope}
use gitactionflow.Events.Context.{err_invalid_event}
use gitactionflow.Events.Processor.{
  load_connected, lookup_result, validate_repository, with_envelope, validate,
}

lookup_result-eq-ok :
    (missing : Error) (prefix : Text) (r : Result Repository) {a : Repository}
    → lookup_result missing prefix r ≡ ok a
    → r ≡ ok a
lookup_result-eq-ok missing prefix (ok b) h = h
lookup_result-eq-ok missing prefix (err e) h = absurd (cc)

found-eq-ok {ℓ} : {A : Type ℓ} (o : Option A) {a : A} → found o ≡ ok a → o ≡ some a
found-eq-ok none h = absurd (cc)
found-eq-ok (some b) h = cc

-- The payload is from the repository that the event is stored for, which is still connected.
pub record FromConnected ⦃u : Unicode⦄ (e : WebhookEvent) (db : Db) : Type 0 where
  pub envelope : Envelope
  pub decoded : decode_envelope e.payload ≡ some envelope
  pub positive : is_le_zero envelope.repo_id ≡ false
  pub repository : Repository
  pub connected :
      find (λ (r : Repository). r.id == e.repository_id) db.repositories ≡ some repository
  pub same_repository : int_eq repository.github_repository_id envelope.repo_id ≡ true

module _ ⦃u : Unicode⦄ (env : Env) (e : WebhookEvent) where
  load_connected-eq-ok :
      (w : World) {r : Repository}
      → (load_connected env e.repository_id w).0 ≡ ok r
      → find (λ (x : Repository). x.id == e.repository_id) w.db.repositories ≡ some r
  unfolding Repositories.get_by_id
  load_connected-eq-ok w h =
      let (locked, now, q) = query-eq-ok env (Repositories.get_by_id e.repository_id) w (
        lookup_result-eq-ok (err_invalid_event (codes "connected repository missing"))
          (codes "load connected repository") _ h) in
      found-eq-ok _ (ap (λ p. p.0) q)

  validate_repository-FromConnected :
      (v : Envelope) (w : World) {w' : World}
      → decode_envelope e.payload ≡ some v
      → validate_repository env e v.repo_id w ≡ (ok tt, w')
      → FromConnected e w.db
  unfolding validate_repository
  validate_repository-FromConnected v w d h = elim (Bool-cases (is_le_zero v.repo_id)) [
    | inl bad ↦ absurd (let g = rw bad at h in cc)
    | inr good ↦
        let (r, e0, f0) = >>=-eq-ok (load_connected env e.repository_id) _ w (rw good at h) in
        elim (Bool-cases (int_eq r.github_repository_id v.repo_id)) [
          | inl same ↦ record {
            envelope = v;
            decoded = d;
            positive = good;
            repository = r;
            connected = load_connected-eq-ok w e0;
            same_repository = same;
          }
          | inr other ↦ absurd (let g = rw other at f0 in cc)
        ]
  ]

  with_envelope-FromConnected :
      (o : Option Envelope) (w : World) {w' : World}
      → decode_envelope e.payload ≡ o
      → with_envelope env e o w ≡ (ok tt, w')
      → FromConnected e w.db
  with_envelope-FromConnected none w d h = absurd (cc)
  with_envelope-FromConnected (some v) w d h = validate_repository-FromConnected v w d h

  -- An event passes Validate only if it has a delivery id, its type is supported and its payload is
  -- JSON, and the payload's repository is the connected repository that the event is stored for.
  pub validate-FromConnected :
      (w : World) {w' : World}
      → validate env e w ≡ (ok tt, w')
      → (is_empty (trim_space e.delivery_id) ≡ false)
        × (is_supported e.event_type ≡ true)
        × (is_valid e.payload ≡ true)
        × FromConnected e w.db
  unfolding validate
  validate-FromConnected w h = elim (Bool-cases (e.id == 0 || e.repository_id == 0)) [
    | inl bad ↦ absurd (let g = rw bad at h in cc)
    | inr ids ↦ elim (Bool-cases (is_empty (trim_space e.delivery_id))) [
      | inl bad ↦ absurd (let g = rw (ids, bad) at h in cc)
      | inr delivery ↦ elim (Bool-cases (is_supported e.event_type)) [
        | inr bad ↦ absurd (let g = rw (ids, delivery, bad) at h in cc)
        | inl typed ↦ elim (Bool-cases (is_valid e.payload)) [
          | inr bad ↦ absurd (let g = rw (ids, delivery, typed, bad) at h in cc)
          | inl json ↦ (
            delivery,
            typed,
            json,
            with_envelope-FromConnected (decode_envelope e.payload) w refl
                (rw (ids, delivery, typed, json) at h),
          )
        ]
      ]
    ]
  ]
