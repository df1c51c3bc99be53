-- ===== src/Actions/Executor/Outcome.antt =====
-- What becomes of an action whose call failed (EnsureAndExecute of
-- backend/internal/actions/executor.go).
use gitactionflow.Base.{
  ◌↔◌, ℕ, suc, ◌≤◌, ◌<◌, ◌≡◌, refl, sym, subst, ◌∙◌, ◌⊎◌, inl, inr, Bool, true, false, ◌&&◌, Option,
  none, some, ◌==◌, ==_refl, leb, find, arith, Bool-cases,
}
use gitactionflow.Base.Int.{ℤ}
use gitactionflow.Base.Text.{Text, Unicode}
use gitactionflow.Base.Table.{find-modify, find-narrow}
use gitactionflow.Errors.{Error, Result, ok, err}
use gitactionflow.Store.Rows.{Db, Action, ActionStatus, action_is_processing}
use gitactionflow.Store.Exec.{Env, World, Statement, query, continue, pure, ◌>>=◌}
use gitactionflow.Store.Exec.Inversion.{query_unfaulted-db}
use gitactionflow.Store.Actions
use gitactionflow.Events.Context.{retry_backoff}
use gitactionflow.Actions.Execute.{Executor, is_permanent, sanitize_err}
use gitactionflow.Actions.Executor.{record_failure, with_message}

-- The row of an action.
abbrev pub row_of : ℕ → Db → Option Action
row_of k db = find (λ a. a.id == k) db.actions

-- The action waits for another try.
abbrev pub IsWaiting : Action → Db → Type 0
IsWaiting a db =
    (b : Action) × (row_of a.id db ≡ some b)
    × (b.status ≡ ActionStatus.pending)
    × (b.attempt_count ≡ suc a.attempt_count)

-- The action has failed for good.
abbrev pub IsOver : Action → Db → Type 0
IsOver a db =
    (b : Action) × (row_of a.id db ≡ some b)
    × (b.status ≡ ActionStatus.failed)
    × (b.attempt_count ≡ suc a.attempt_count)

-- The action waits for another try if `M` holds and an attempt is left, and is failed otherwise.
abbrev pub IsSettled : Action → Db → Type 0 → Type 0
IsSettled a db M =
    (IsWaiting a db × M × (suc a.attempt_count < a.max_attempts))
    ⊎ (IsOver a db × ((¬ M) ⊎ (a.max_attempts ≤ suc a.attempt_count)))

-- The row of an action after an update that it passes the test of.
update_at :
    (a : Action) (p : Action → Bool) (f : Action → Action) (db : Db)
    → ((x : Action) → (f x).id ≡ x.id)
    → ((x : Action) → (x.id == a.id) ≡ false → p x ≡ false)
    → row_of a.id db ≡ some a
    → p a ≡ true
    → row_of a.id (Actions.update p f db).1 ≡ some (f a)
update_at a p f db same n at mine =
    let hit = find-narrow p (λ x. x.id == a.id) n db.actions at mine in
    let after = find-modify (λ x. x.id) a.id p f same db.actions at in
    rw (hit, Actions.update) (rw mine at after)

module _ (a : Action) (msg : Text) (locked : ℕ → Bool) (now : ℕ) (db : Db)
    (at : row_of a.id db ≡ some a) where
  mark_failed_immediately-IsOver :
      action_is_processing a.status ≡ true
      → IsOver a (Actions.mark_failed_immediately a.id msg locked now db).1
  unfolding Actions.mark_failed_immediately
  mark_failed_immediately-IsOver live = (
    _,
    update_at a (λ x. (x.id == a.id) && action_is_processing x.status) _ db (λ x. refl)
        (λ x h. rw h refl) at (rw (==_refl a.id, live) refl),
    refl,
    refl,
  )

  schedule_retry-IsWaiting :
      (backoff : ℤ)
      → suc a.attempt_count < a.max_attempts
      → IsWaiting a (Actions.schedule_retry a.id msg backoff locked now db).1
  unfolding Actions.schedule_retry
  schedule_retry-IsWaiting backoff left =
      let some_left : leb a.max_attempts (suc a.attempt_count) ≡ false = ground arith in
      rw (at, Actions.schedule_retry, some_left)
        (
          _,
          update_at a (λ x. x.id == a.id) _ db (λ x. refl) (λ x h. h) at (==_refl a.id),
          refl,
          refl,
        )

  schedule_retry-IsOver :
      (backoff : ℤ)
      → a.max_attempts ≤ suc a.attempt_count
      → IsOver a (Actions.schedule_retry a.id msg backoff locked now db).1
  unfolding Actions.schedule_retry
  schedule_retry-IsOver backoff out =
      let none_left : leb a.max_attempts (suc a.attempt_count) ≡ true = ground arith in
      rw (at, Actions.schedule_retry, none_left)
        (
          _,
          update_at a (λ x. x.id == a.id) _ db (λ x. refl) (λ x h. h) at (==_refl a.id),
          refl,
          refl,
        )

-- A statement whose result is dropped.
dropped-db {ℓ} :
    {A : Type ℓ} (r : Result A) (w : World) → (continue r (λ _. pure (tt {0})) w).1.db ≡ w.db
dropped-db (ok a) w = refl
dropped-db (err e) w = refl

module _ ⦃u : Unicode⦄ (env : Env) (x : Executor) (a : Action) (e : Error) (msg : Text) (w : World)
    (quiet : (env.beat w.statements).fault ≡ none) (cut : sanitize_err e ≡ some msg)
    (at : row_of a.id w.db ≡ some a) (live : action_is_processing a.status ≡ true) where
  -- A statement of the executor, when the message fits.
  ran_to :
      (P : Db → Type 0) (s : Text → Statement Action)
      → ((locked : ℕ → Bool) (now : ℕ) → P (s msg locked now w.db).1)
      → P ((query env (with_message (sanitize_err e) s) >>= λ _. pure (tt {0})) w).1.db
  ran_to P s h =
      let (locked, now, q) = query_unfaulted-db env (with_message (sanitize_err e) s) w quiet in
      let r = query env (with_message (sanitize_err e) s) w in
      let after : r.1.db ≡ (s msg locked now w.db).1 = q ∙ rw cut refl in
      subst P (sym (dropped-db r.0 r.1 ∙ after)) (h locked now)

  -- An action whose call failed waits for another try if the error is not permanent and an attempt is
  -- left, and is failed otherwise; the attempt is counted.
  record_failure-Outcome :
      (IsWaiting a (record_failure env x a e w).1.db
        × (is_permanent e ≡ false)
        × (suc a.attempt_count < a.max_attempts))
      ⊎ (IsOver a (record_failure env x a e w).1.db
          × ((is_permanent e ≡ true) ⊎ (a.max_attempts ≤ suc a.attempt_count)))
  unfolding record_failure
  record_failure-Outcome = elim (Bool-cases (is_permanent e)) [
    | inl permanent ↦ inr (
      rw permanent (
          ran_to (IsOver a) (Actions.mark_failed_immediately a.id)
            (λ locked now. mark_failed_immediately-IsOver a msg locked now w.db at live)),
      inl permanent,
    )
    | inr transient ↦
        let backoff = retry_backoff (suc a.attempt_count) in
        elim (Bool-cases (leb a.max_attempts (suc a.attempt_count))) [
          | inl out ↦ inr (
            rw transient (
                ran_to (IsOver a) (λ m. Actions.schedule_retry a.id m backoff)
                  (λ locked now.
                    schedule_retry-IsOver a msg locked now w.db at backoff (ground arith))),
            inr (ground arith),
          )
          | inr left ↦ inl (
            rw transient (
                ran_to (IsWaiting a) (λ m. Actions.schedule_retry a.id m backoff)
                  (λ locked now.
                    schedule_retry-IsWaiting a msg locked now w.db at backoff (ground arith))),
            transient,
            ground arith,
          )
        ]
  ]

  -- The same for an error that is permanent unless `M`.
  pub record_failure-IsSettled :
      (M : Type 0) → (is_permanent e ≡ false) ↔ M → IsSettled a (record_failure env x a e w).1.db M
  record_failure-IsSettled M (to, from) = elim record_failure-Outcome [
    | inl (waits, transient, left) ↦ inl (waits, to transient, left)
    | inr (over, inl permanent) ↦ inr (over, inl (λ m. let t = from m in cc))
    | inr (over, inr out) ↦ inr (over, inr out)
  ]
