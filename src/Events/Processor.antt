-- ===== src/Events/Processor.antt =====
-- backend/internal/events/processor.go: validate an event, evaluate the rules, run the actions.
pub mod Footprint
pub mod Match
use gitactionflow.Base.{
  ℕ, Bool, true, false, ◌&&◌, ◌||◌, not, Option, none, some, List, [], ◌∷◌, ◌++◌, if◌then◌else◌,
  is_empty, ◌==◌,
}
use gitactionflow.Base.Int.{ℤ, int_eq, is_le_zero}
use gitactionflow.Base.Text.{Text, codes, trim_space, Unicode}
use gitactionflow.Errors.{Error, Result, ok, err, is, wrap, or_wrap, not_found, repo_mismatch}
use gitactionflow.Json.{is_valid}
use gitactionflow.Store.Rows.{WebhookEvent, Repository, Rule}
use gitactionflow.Store.Exec.{Env, World, Exec, query, lift, raise, pure, ◌>>=◌, ◌>>◌}
use gitactionflow.Store.Repositories
use gitactionflow.Store.Rules
use gitactionflow.Rules.Engine.{EventContext, ActionIntent, evaluate}
use gitactionflow.Webhook.Envelope.{Envelope, is_supported, decode_envelope}
use gitactionflow.Events.Context.{err_invalid_event, err_unsupported, extract_event_context}

abbrev pub err_mismatch : Text → Error
err_mismatch why = record {
  kind = repo_mismatch;
  message = codes "payload repository does not match connected repository: " ++ why;
}

-- `if err != nil { if errors.Is(err, store.ErrNotFound) { return missing }; return wrapped }`
abbrev lookup_result : Error → Text → Result Repository → Result Repository
lookup_result missing prefix (ok r) = ok r
lookup_result missing prefix (err e) = err (if is e not_found then missing else wrap prefix e)

abbrev looking_up : Error → Text → Exec Repository → Exec Repository
looking_up missing prefix m w = let (r, w') = m w in (lookup_result missing prefix r, w')

abbrev require : Bool → Error → Exec (Unit {0})
require true e = pure tt
require false e = raise e

-- The ActionRunner interface.
abbrev pub Runner : Type 0
Runner = WebhookEvent → EventContext → List ActionIntent → Exec (Unit {0})

module _ ⦃u : Unicode⦄ (env : Env) where
  abbrev load_connected : ℕ → Exec Repository
  load_connected id =
      looking_up (err_invalid_event (codes "connected repository missing"))
        (codes "load connected repository") (query env (Repositories.get_by_id id))

  abbrev load_by_github_id : ℤ → Exec Repository
  load_by_github_id repo_id =
      looking_up (err_invalid_event (codes "repository no longer connected"))
        (codes "lookup repository by github id") (query env (Repositories.get_by_github_id repo_id))

  -- What Validate does with the payload's repository id.
  unfoldable pub validate_repository : WebhookEvent → ℤ → Exec (Unit {0})
  validate_repository e repo_id = do
    require (not (is_le_zero repo_id)) (err_invalid_event (codes "missing repository.id"))
    connected ← load_connected e.repository_id
    require (int_eq connected.github_repository_id repo_id) (err_mismatch (codes "payload id"))
    by_github ← load_by_github_id repo_id
    require (by_github.id == e.repository_id) (err_mismatch (codes "repository_id mismatch"))

  abbrev with_envelope : WebhookEvent → Option Envelope → Exec (Unit {0})
  with_envelope e none = raise (err_invalid_event (codes "envelope"))
  with_envelope e (some v) = validate_repository e v.repo_id

  -- Validate
  unfoldable pub validate : WebhookEvent → Exec (Unit {0})
  unfolding validate_repository
  validate e = do
    require (not (e.id == 0 || e.repository_id == 0)) (err_invalid_event (codes "missing ids"))
    require (not (is_empty (trim_space e.delivery_id)))
        (err_invalid_event (codes "empty delivery_id"))
    require (is_supported e.event_type) (err_unsupported e.event_type)
    require (is_valid e.payload) (err_invalid_event (codes "payload is not valid JSON"))
    with_envelope e (decode_envelope e.payload)

  abbrev wrapping {ℓ} : {A : Type ℓ} → Text → Exec A → Exec A
  wrapping prefix m w = let (r, w') = m w in (or_wrap prefix r, w')

  abbrev pub load_rules : ℕ → Exec (List Rule)
  load_rules repository_id =
      wrapping (codes "load rules") (query env (Rules.list_enabled_by_repository repository_id))

  -- Process, with both of its optional collaborators present.
  unfoldable pub process : Runner → WebhookEvent → Exec (Unit {0})
  unfolding validate
  process runner e = do
    validate e
    ctx ← lift (extract_event_context e)
    rules ← load_rules e.repository_id
    runner e ctx (evaluate rules ctx)
