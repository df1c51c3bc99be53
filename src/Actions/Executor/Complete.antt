-- ===== src/Actions/Executor/Complete.antt =====
-- When EnsureAndExecute (backend/internal/actions/executor.go) returns nil.
use gitactionflow.Base.{ℕ, ◌≡◌, ap, subst, List, [], ◌∷◌, arith, All}
use gitactionflow.Base.Text.{Unicode}
use gitactionflow.Errors.{ok}
use gitactionflow.Store.Rows.{Db, Action, ActionStatus, WebhookEvent}
use gitactionflow.Store.Exec.{Env, World, query}
use gitactionflow.Store.Exec.Inversion.{>>=-eq-ok}
use gitactionflow.Store.Actions
use gitactionflow.Store.Actions.Listing.{All-list_by_event_id}
use gitactionflow.Rules.Engine.{EventContext, ActionIntent}
use gitactionflow.Actions.Execute.{Executor}
use gitactionflow.Actions.Executor.{
  verdict, failed_count, pending_count, create_all, execute_list, run_list, report, load_repository,
  execute_listed, process_all, suggestion_for, ensure_and_execute,
}

abbrev pub IsCompleted : Action → Type 0
IsCompleted a = a.status ≡ ActionStatus.completed

-- Every action of the event is completed.
abbrev pub AllCompleted : ℕ → Db → Type 0
AllCompleted event_id db = All (λ a. a.event_id ≡ event_id → IsCompleted a) db.actions

none_left : (as' : List Action) → failed_count as' ≡ 0 → pending_count as' ≡ 0 → All IsCompleted as'
none_left [] f p = tt
none_left (a ∷ as') f p = (ground arith, none_left as' (omega arith) (omega arith))

verdict-eq-ok : (as' : List Action) → verdict as' ≡ ok tt → All IsCompleted as'
unfolding verdict
verdict-eq-ok as' h = none_left as' (ground arith) (ground arith)

module _ ⦃u : Unicode⦄ (env : Env) (x : Executor) (ev : WebhookEvent) (ctx : EventContext)
    (intents : List ActionIntent) where
  report-AllCompleted :
      (w : World) {w' : World} → report env x ev w ≡ (ok tt, w') → AllCompleted ev.id w'.db
  unfolding report
  report-AllCompleted w {w'} e =
      let (final, e0, f0) =
        >>=-eq-ok (query env (Actions.list_by_event_id ev.id)) (λ final w1. (verdict final, w1)) w
          e in
      subst (λ (v : World). AllCompleted ev.id v.db) (ap (λ p. p.1) f0)
        (All-list_by_event_id IsCompleted env ev.id w e0 (verdict-eq-ok final (ap (λ p. p.0) f0)))

  execute_list-AllCompleted :
      (w : World) (list : List Action) {w' : World}
      → (query env (Actions.list_by_event_id ev.id) w).0 ≡ ok list
      → execute_list env x ev ctx intents list (query env (Actions.list_by_event_id ev.id) w).1
        ≡ (ok tt, w')
      → AllCompleted ev.id w'.db
  unfolding execute_list run_list
  execute_list-AllCompleted w [] {w'} e f =
      subst (λ (v : World). AllCompleted ev.id v.db) (ap (λ p. p.1) f)
        (All-list_by_event_id IsCompleted env ev.id w e tt)
  execute_list-AllCompleted w (a ∷ as') {w'} e f =
      let (repo, e0, f0) =
        >>=-eq-ok (load_repository env x ev) (run_list env x ev ctx intents (a ∷ as')) _ f in
      let (u1, e1, f1) =
        >>=-eq-ok
          (process_all env x repo ev ctx intents (suggestion_for env x ctx (a ∷ as')) (a ∷ as'))
          (λ _. report env x ev) _ f0 in
      report-AllCompleted _ f1

  -- EnsureAndExecute returns nil only if every action of the event is completed, those of earlier
  -- attempts and of rules that no longer match included; whatever fails on the way.
  pub ensure_and_execute-AllCompleted :
      (w : World) {w' : World}
      → ensure_and_execute env x ev ctx intents w ≡ (ok tt, w')
      → AllCompleted ev.id w'.db
  unfolding ensure_and_execute execute_listed
  ensure_and_execute-AllCompleted w e =
      let (u0, e0, f0) =
        >>=-eq-ok (create_all env x intents) (λ _. execute_listed env x ev ctx intents) w e in
      let (list, e1, f1) =
        >>=-eq-ok (query env (Actions.list_by_event_id ev.id)) (execute_list env x ev ctx intents) _
          f0 in
      execute_list-AllCompleted (create_all env x intents w).1 list e1 f1
