-- ===== src/Actions/Executor/Assigned.antt =====
-- Each call that EnsureAndExecute (backend/internal/actions/executor.go) makes is for one action.
use mathlib.Core.List.{Memᴰ}
use gitactionflow.Base.{
  arith, none, ◌≡◌, ◌≢◌, refl, sym, subst, ap, ◌∙◌, ◌||◌, Option, some, List, [], ◌∷◌, ◌==◌, true,
  false, find, Bool-cases, inl, inr, ◌⊎◌,
}
use gitactionflow.Base.Text.{Unicode, codes}
use gitactionflow.Errors.{Result, ok, err, is, not_found, or_wrap}
use gitactionflow.Store.Rows.{
  Db, Action, ActionStatus, WebhookEvent, Repository, action_is_completed, action_is_failed,
  action_is_pending,
}
use gitactionflow.Store.Common.{found}
use gitactionflow.Store.Exec.{Env, World, Call, Statement, query, continue}
use gitactionflow.Store.Exec.Inversion.{query-eq-ok, query_keeps, calls-query}
use gitactionflow.Store.Exec.Calls.{continue_calls}
use gitactionflow.Store.Actions
use gitactionflow.Store.Actions.Tasks.{
  Task, task_of, tasks, query-KeepsTasks, mark_processing-KeepsTasks, mark_processing-Memᴰ,
}
use gitactionflow.Store.Repositories
use gitactionflow.Rules.Engine.{EventContext, ActionIntent}
use gitactionflow.Ai.{Suggestion}
use gitactionflow.Actions.Execute.{Executor}
use gitactionflow.Actions.Executor.{
  run_action, after_claim, process_action, process_all, report, run_list, execute_list,
  suggestion_for, is_later,
}
use gitactionflow.Actions.Executor.Calls.{IsCallOf, run_one, run_action-Keeps, report-Silent}

-- The calls of `ds` that are not of `cs` (the latest stands first) were made for actions of the list,
-- one or none for each, in the list's order; `Q` holds of an action and its call.
pub data Assigned (Q : Action → Call → Type 0) : List Action → List Call → List Call → Type 0 where
  none_left : (as' : List Action) (cs : List Call) → Assigned Q as' cs cs
  without_call :
      (a : Action) (as' : List Action) (cs ds : List Call)
      → Assigned Q as' cs ds
      → Assigned Q (a ∷ as') cs ds
  with_call :
      (a : Action) (as' : List Action) (c : Call) (cs ds : List Call)
      → Q a c
      → Assigned Q as' (c ∷ cs) ds
      → Assigned Q (a ∷ as') cs ds

-- The action is neither completed nor failed.
abbrev pub IsUnfinished : Action → Type 0
IsUnfinished a = (a.status ≢ ActionStatus.completed) × (a.status ≢ ActionStatus.failed)

unfinished :
    (a : Action)
    → (action_is_completed a.status || action_is_failed a.status) ≡ false
    → IsUnfinished a
unfinished a h = (
  λ e. let q : action_is_completed a.status ≡ true = ap action_is_completed e in ground arith,
  λ e. let q : action_is_failed a.status ≡ true = ap action_is_failed e in ground arith,
)

module _ ⦃u : Unicode⦄ (env : Env) (x : Executor) where
  module _ (repo : Repository) (ev : WebhookEvent) (ctx : EventContext)
      (intents : List ActionIntent) (s : Option Suggestion) where
    module _ (ts : List Task) where
      -- The call is made for the action: the action is not finished, and executing its task, as it was
      -- listed or as the row of its id has it, makes the call.
      abbrev pub IsMadeFor : Action → Call → Type 0
      IsMadeFor a c =
          IsUnfinished a
          × ((t : Task) × ((t ≡ task_of a) ⊎ (Memᴰ t ts × (t.id ≡ a.id)))
              × IsCallOf env x repo ev ctx intents s t c)

      -- Between the worlds no call was made, or one for the action.
      abbrev IsStep : Action → World → World → Type 0
      IsStep a w w' = (w'.calls ≡ w.calls) ⊎ ((c : Call) × IsMadeFor a c × (w'.calls ≡ c ∷ w.calls))

      run-IsStep :
          (a b : Action)
          → IsUnfinished a
          → (task_of b ≡ task_of a) ⊎ (Memᴰ (task_of b) ts × (b.id ≡ a.id))
          → (w : World) → IsStep a w (run_action env x repo ev ctx intents s b w).1
      run-IsStep a b live task w = elim (run_one env x repo ev ctx intents s b w) [
        | inl quiet ↦ inl quiet
        | inr (c, one, calls) ↦ inr (c, (live, (task_of b, task, one)), calls)
      ]

      claim-IsStep :
          (a : Action)
          → IsUnfinished a
          → (r : Result Action) (w1 w : World) → w1.calls ≡ w.calls
          → ((b : Action) → r ≡ ok b → Memᴰ (task_of b) ts × (b.id ≡ a.id))
          → IsStep a w (after_claim env x repo ev ctx intents s r w1).1
      claim-IsStep a live (ok b) w1 w same row = elim (run-IsStep a b live (inr (row b refl)) w1) [
        | inl quiet ↦ inl (quiet ∙ same)
        | inr (c, one, calls) ↦ inr (c, one, calls ∙ ap (λ cs. c ∷ cs) same)
      ]
      claim-IsStep a live (err e) w1 w same row = elim (Bool-cases (is e not_found)) [
        | inl p ↦ rw p (inl same)
        | inr p ↦ rw p (inl same)
      ]

      claimed_row :
          (a : Action) (w : World)
          → tasks w.db ≡ ts
          → (b : Action) → (query env (Actions.mark_processing a.id) w).0 ≡ ok b
          → Memᴰ (task_of b) ts × (b.id ≡ a.id)
      claimed_row a w h b e =
          let (locked, now, q) = query-eq-ok env (Actions.mark_processing a.id) w e in
          let (m, id) = mark_processing-Memᴰ a.id locked now w.db q in
          (subst (λ l. Memᴰ (task_of b) l) h m, id)

      process-IsStep :
          (a : Action) (w : World)
          → tasks w.db ≡ ts
          → IsStep a w (process_action env x repo ev ctx intents s a w).1
      unfolding process_action
      process-IsStep a w h =
          elim (Bool-cases (action_is_completed a.status || action_is_failed a.status)) [
            | inl done ↦ rw done (inl refl)
            | inr live ↦ elim (Bool-cases (action_is_pending a.status)) [
              | inr started ↦ rw (live, started) (run-IsStep a a (unfinished a live) (inl refl) w)
              | inl waits ↦ elim (Bool-cases (is_later a.next_retry_at w.now)) [
                | inl later ↦ rw (live, waits, later) (inl refl)
                | inr due ↦
                    rw (live, waits, due)
                      (claim-IsStep a (unfinished a live) _ _ w
                        (calls-query env (Actions.mark_processing a.id) w) (claimed_row a w h))
              ]
            ]
          ]

      after_claim_keeps :
          (r : Result Action) (w : World)
          → tasks w.db ≡ ts
          → tasks (after_claim env x repo ev ctx intents s r w).1.db ≡ ts
      after_claim_keeps (ok a) w h = (run_action-Keeps env x repo ev ctx intents s ts a).keep w h
      after_claim_keeps (err e) w h = elim (Bool-cases (is e not_found)) [
        | inl p ↦ rw p h
        | inr p ↦ rw p h
      ]

      process_keeps :
          (a : Action) (w : World)
          → tasks w.db ≡ ts
          → tasks (process_action env x repo ev ctx intents s a w).1.db ≡ ts
      unfolding process_action
      process_keeps a w h =
          elim (Bool-cases (action_is_completed a.status || action_is_failed a.status)) [
            | inl done ↦ rw done h
            | inr live ↦ elim (Bool-cases (action_is_pending a.status)) [
              | inr started ↦
                  rw (live, started) ((run_action-Keeps env x repo ev ctx intents s ts a).keep w h)
              | inl waits ↦ elim (Bool-cases (is_later a.next_retry_at w.now)) [
                | inl later ↦ rw (live, waits, later) h
                | inr due ↦
                    rw (live, waits, due)
                      (after_claim_keeps _ _ (
                        query-KeepsTasks env (Actions.mark_processing a.id) ts
                          (mark_processing-KeepsTasks a.id) w h))
              ]
            ]
          ]

      -- What the rest of the list does after one action.
      rest-Assigned :
          (a : Action) (as' : List Action) (w w1 : World) (ds : List Call)
          → IsStep a w w1
          → Assigned IsMadeFor as' w1.calls ds
          → Assigned IsMadeFor (a ∷ as') w.calls ds
      rest-Assigned a as' w w1 ds (inl same) rest =
          without_call a as' w.calls ds (subst (λ cs. Assigned IsMadeFor as' cs ds) same rest)
      rest-Assigned a as' w w1 ds (inr (c, one, calls)) rest =
          with_call a as' c w.calls ds one (subst (λ cs. Assigned IsMadeFor as' cs ds) calls rest)

      process_all-Assigned :
          (as' : List Action) (w : World)
          → tasks w.db ≡ ts
          → Assigned IsMadeFor as' w.calls (process_all env x repo ev ctx intents s as' w).1.calls
      unfolding process_all
      process_all-Assigned [] w h = none_left [] w.calls
      process_all-Assigned (a ∷ as') w h =
          let m = process_action env x repo ev ctx intents s a w in
          rest-Assigned a as' w m.1 _ (process-IsStep a w h)
            (go (λ w1 k. process_all-Assigned as' w1 k) m.0 m.1 (process_keeps a w h))
        where
          go :
              ((w1 : World)
                → tasks w1.db ≡ ts
                → Assigned IsMadeFor as' w1.calls
                    (process_all env x repo ev ctx intents s as' w1).1.calls)
              → (r : Result (Unit {0})) (w1 : World) → tasks w1.db ≡ ts
              → Assigned IsMadeFor as' w1.calls
                  (continue r (λ _. process_all env x repo ev ctx intents s as') w1).1.calls
          go next (ok _) w1 k = next w1 k
          go next (err e) w1 k = none_left as' w1.calls

  -- The row of the event's repository.
  abbrev pub IsRepositoryOf : WebhookEvent → Db → Repository → Type 0
  IsRepositoryOf ev db repo = find (λ r. r.id == ev.repository_id) db.repositories ≡ some repo

  found-eq-ok {ℓ} : {A : Type ℓ} (o : Option A) {a : A} → found o ≡ ok a → o ≡ some a
  found-eq-ok none e = absurd (cc)
  found-eq-ok (some b) e = cc

  loaded :
      (ev : WebhookEvent) (w : World) (repo : Repository)
      → (query env (Repositories.get_by_id ev.repository_id) w).0 ≡ ok repo
      → IsRepositoryOf ev w.db repo
  unfolding Repositories.get_by_id
  loaded ev w repo e =
      let (locked, now, q) = query-eq-ok env (Repositories.get_by_id ev.repository_id) w e in
      found-eq-ok _ (ap (λ p. p.0) q)

  module _ (ev : WebhookEvent) (ctx : EventContext) (intents : List ActionIntent) where
    -- Once EnsureAndExecute has listed the event's actions, either it makes no call, or the calls that
    -- it makes to GitHub and Slack for the event's repository can be told apart by action: in the
    -- list's order, each action that is neither completed nor failed has one call or none, which is
    -- what executing that action's task makes, and the others have none.
    pub execute_list-Assigned :
        (list : List Action) (w : World)
        → ((execute_list env x ev ctx intents list w).1.calls ≡ w.calls)
          ⊎ ((repo : Repository) × IsRepositoryOf ev w.db repo
              × Assigned
                  (IsMadeFor repo ev ctx intents (suggestion_for env x ctx list) (tasks w.db))
                  list
                  w.calls
                  (execute_list env x ev ctx intents list w).1.calls)
    unfolding execute_list run_list Repositories.get_by_id
    execute_list-Assigned [] w = inl refl
    execute_list-Assigned (a ∷ as') w =
        go (query env m w).0 (query env m w).1 (calls-query env m w)
          (query_keeps env m (λ db. tasks db ≡ tasks w.db) (λ l n d p. p) w refl) (loaded ev w)
      where
        m : Statement Repository
        m = Repositories.get_by_id ev.repository_id

        go :
            (r : Result Repository) (w1 : World)
            → w1.calls ≡ w.calls
            → tasks w1.db ≡ tasks w.db
            → ((repo : Repository) → r ≡ ok repo → IsRepositoryOf ev w.db repo)
            → ((continue
                  (or_wrap (codes "load repository") r)
                  (run_list env x ev ctx intents (a ∷ as'))
                  w1).1.calls
                ≡ w.calls)
              ⊎ ((repo : Repository) × IsRepositoryOf ev w.db repo
                  × Assigned
                      (IsMadeFor repo ev ctx intents
                        (suggestion_for env x ctx (a ∷ as'))
                        (tasks w.db))
                      (a ∷ as')
                      w.calls
                      (continue
                        (or_wrap (codes "load repository") r)
                        (run_list env x ev ctx intents (a ∷ as'))
                        w1).1.calls)
        go (err e) w1 same kept own = inl same
        go (ok repo) w1 same kept own =
            let s = suggestion_for env x ctx (a ∷ as') in
            let all = process_all env x repo ev ctx intents s (a ∷ as') w1 in
            let last =
              continue_calls (λ _. report env x ev) (λ _. report-Silent env x ev) all.0 all.1 in
            let Q = IsMadeFor repo ev ctx intents s (tasks w.db) in
            inr (
              repo,
              own repo refl,
              subst (λ ds. Assigned Q (a ∷ as') w.calls ds) (sym last)
                  (subst (λ cs. Assigned Q (a ∷ as') cs all.1.calls) same
                    (process_all-Assigned repo ev ctx intents s (tasks w.db) (a ∷ as') w1 kept)),
            )
