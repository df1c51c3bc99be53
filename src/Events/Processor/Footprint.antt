-- ===== src/Events/Processor/Footprint.antt =====
-- What Process (backend/internal/events/processor.go) leaves as it is, apart from its runner.
use gitactionflow.Base.{ℕ, Bool, true, false, not, Option, none, some, List, is_empty, ◌==◌, ◌||◌}
use gitactionflow.Base.Int.{ℤ, int_eq, is_le_zero}
use gitactionflow.Base.Text.{codes, trim_space, Unicode}
use gitactionflow.Errors.{Error, Result}
use gitactionflow.Json.{is_valid}
use gitactionflow.Store.Rows.{Db, WebhookEvent}
use gitactionflow.Store.Exec.{Env, lift}
use gitactionflow.Store.Exec.Inversion.{query_keeps, Keeps, >>=-Keeps}
use gitactionflow.Store.Repositories
use gitactionflow.Store.Rules.{list_enabled_by_repository}
use gitactionflow.Rules.Engine.{EventContext, ActionIntent, evaluate}
use gitactionflow.Webhook.Envelope.{Envelope, is_supported, decode_envelope}
use gitactionflow.Events.Context.{err_invalid_event, err_unsupported, extract_event_context}
use gitactionflow.Events.Processor.{
  Runner, require, load_connected, load_by_github_id, validate_repository, with_envelope, validate,
  load_rules, process, err_mismatch,
}

module _ {κ} ⦃u : Unicode⦄ (env : Env) (P : Db → Type κ) where
  require-Keeps : (b : Bool) (e : Error) → Keeps P (require b e)
  require-Keeps true e = record { keep = λ w h. h }
  require-Keeps false e = record { keep = λ w h. h }

  load_connected-Keeps : (id : ℕ) → Keeps P (load_connected env id)
  unfolding Repositories.get_by_id
  load_connected-Keeps id = record {
    keep = λ w h. query_keeps env (Repositories.get_by_id id) P (λ locked now db p. p) w h;
  }

  load_by_github_id-Keeps : (id : ℤ) → Keeps P (load_by_github_id env id)
  unfolding Repositories.get_by_github_id
  load_by_github_id-Keeps id = record {
    keep = λ w h. query_keeps env (Repositories.get_by_github_id id) P (λ locked now db p. p) w h;
  }

  validate_repository-Keeps :
      (e : WebhookEvent) (repo_id : ℤ) → Keeps P (validate_repository env e repo_id)
  unfolding validate_repository
  validate_repository-Keeps e repo_id =
      >>=-Keeps P _ _
        (require-Keeps (not (is_le_zero repo_id))
          (err_invalid_event (codes "missing repository.id")))
        (λ _.
          >>=-Keeps P (load_connected env e.repository_id) _ (load_connected-Keeps e.repository_id)
            (λ connected.
              >>=-Keeps P _ _
                (require-Keeps (int_eq connected.github_repository_id repo_id)
                  (err_mismatch (codes "payload id")))
                (λ _.
                  >>=-Keeps P (load_by_github_id env repo_id) _ (load_by_github_id-Keeps repo_id)
                    (λ by_github.
                      require-Keeps (by_github.id == e.repository_id)
                        (err_mismatch (codes "repository_id mismatch"))))))

  with_envelope-Keeps : (e : WebhookEvent) (o : Option Envelope) → Keeps P (with_envelope env e o)
  with_envelope-Keeps e none = record { keep = λ w h. h }
  with_envelope-Keeps e (some v) = validate_repository-Keeps e v.repo_id

  validate-Keeps : (e : WebhookEvent) → Keeps P (validate env e)
  unfolding validate
  validate-Keeps e =
      >>=-Keeps P _ _
        (require-Keeps (not (e.id == 0 || e.repository_id == 0))
          (err_invalid_event (codes "missing ids")))
        (λ _.
          >>=-Keeps P _ _
            (require-Keeps (not (is_empty (trim_space e.delivery_id)))
              (err_invalid_event (codes "empty delivery_id")))
            (λ _.
              >>=-Keeps P _ _
                (require-Keeps (is_supported e.event_type) (err_unsupported e.event_type))
                (λ _.
                  >>=-Keeps P _ _
                    (require-Keeps (is_valid e.payload)
                      (err_invalid_event (codes "payload is not valid JSON")))
                    (λ _. with_envelope-Keeps e (decode_envelope e.payload)))))

  lift-Keeps {ℓ} : {A : Type ℓ} (r : Result A) → Keeps P (lift r)
  lift-Keeps r = record { keep = λ w h. h }

  load_rules-Keeps : (id : ℕ) → Keeps P (load_rules env id)
  unfolding list_enabled_by_repository
  load_rules-Keeps id = record {
    keep = λ w h. query_keeps env (list_enabled_by_repository id) P (λ locked now db p. p) w h;
  }

  -- Process keeps what its runner keeps.
  pub process-Keeps :
      (runner : Runner)
      → ((ev : WebhookEvent) (ctx : EventContext) (intents : List ActionIntent)
          → Keeps P (runner ev ctx intents))
      → (e : WebhookEvent) → Keeps P (process env runner e)
  unfolding process
  process-Keeps runner k e = >>=-Keeps P _ _ (validate-Keeps e) (λ _.
      >>=-Keeps P _ _ (lift-Keeps (extract_event_context e)) (λ ctx.
        >>=-Keeps P (load_rules env e.repository_id) _ (load_rules-Keeps e.repository_id)
          (λ rules. k e ctx (evaluate rules ctx))))
