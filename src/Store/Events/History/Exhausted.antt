-- ===== src/Store/Events/History/Exhausted.antt =====
-- An event that fails again and again does not go round for ever
-- (ScheduleRetry in backend/internal/store/webhook_events.go).
use gitactionflow.Base.{
  ℕ, suc, ◌+◌, ◌≤◌, ◌≡◌, refl, sym, subst, Bool, true, Option, none, some, List, [], ◌∷◌, arith,
  ◌==◌, ==_iff, leb, find, find_holds, Bool-cases, Option-cases, if◌then◌else◌, inl, inr,
}
use gitactionflow.Base.Int.{ℤ, pos_part}
use gitactionflow.Base.Text.{Text}
use gitactionflow.Store.Rows.{Db, WebhookEvent, WebhookStatus}
use gitactionflow.Store.Events.{update, schedule_retry, set_failed, set_pending}
use gitactionflow.Store.Events.History.{
  Op, Entry, insert, claim, processed, retry, fail, step, apply, run, hands_out,
}
use gitactionflow.Store.Events.History.Spent.{budget}
use gitactionflow.Store.Events.History.Counted.{Inv}
use gitactionflow.Store.Events.History.Attempts.{Inv-step, Inv-start}
use gitactionflow.Store.Events.History.Life.{
  Phase, phase, Move, arrives, starts, restarts, succeeds, gives_up, retries, exhausts, phase_of,
  phases, phase_in, row_of, row_of-modify,
}
use gitactionflow.Store.Events.History.Refines.{Step, stays, moves, step-Refines}

abbrev is_retry : ℕ → Op → ℕ
is_retry k (retry id msg backoff) = if id == k then 1 else 0
is_retry k (insert r d t a p m) = 0
is_retry k (claim lease) = 0
is_retry k (processed id) = 0
is_retry k (fail id msg) = 0

abbrev if_known : Option WebhookEvent → ℕ → ℕ
if_known none n = 0
if_known (some e) n = n

-- 1 if the statement is a ScheduleRetry of the event, which is in the table, and 0 otherwise.
unfoldable pub reschedules : Entry → ℕ → Db → ℕ
reschedules x k db = if_known (row_of k db.events) (is_retry k x.op)

-- How often ScheduleRetry updates the event.
unfoldable pub reschedulings : List Entry → ℕ → Db → ℕ
reschedulings [] k db = 0
reschedulings (x ∷ xs) k db = reschedules x k db + reschedulings xs k (step x db)

-- The event was rescheduled at most as often as it counts, and it is failed when no retry is left.
abbrev Fits : ℕ → Option Phase → Type 0
Fits c none = c ≡ 0
Fits c (some (phase s n m)) = (c ≤ n) × (1 ≤ n → m ≤ n → s ≡ WebhookStatus.failed)

Move-Fits : (c : ℕ) {a b : Option Phase} → Move a b → Fits c a → Fits c b
Move-Fits c (arrives m) f = (omega arith, λ p. absurd (omega arith))
Move-Fits c (starts n m) f = (f.0, λ p q. absurd (let s = f.1 p q in cc))
Move-Fits c (restarts n m h) f = (omega (arith, f.0), λ p q. absurd (omega arith))
Move-Fits c (succeeds n m) f = (f.0, λ p q. absurd (let s = f.1 p q in cc))
Move-Fits c (gives_up n m) f = (f.0, λ p q. refl)
Move-Fits c (retries s n m h) f = (omega (arith, f.0), λ p q. absurd (omega arith))
Move-Fits c (exhausts s n m h) f = (omega (arith, f.0), λ p q. refl)

Step-Fits : (c : ℕ) {a b : Option Phase} → Step a b → Fits c a → Fits c b
Step-Fits c (stays e) f = subst (Fits c) e f
Step-Fits c (moves m) f = Move-Fits c m f

-- ScheduleRetry counts one more.
retry-Fits :
    (c k : ℕ) (msg : Text) (backoff : ℤ) (locked : ℕ → Bool) (now : ℕ) (db : Db) {e : WebhookEvent}
    → row_of k db.events ≡ some e
    → Fits c (phase_in k db)
    → Fits (1 + c) (phase_in k (schedule_retry k msg backoff locked now db).1)
unfolding schedule_retry set_failed set_pending
retry-Fits c k msg backoff locked now db {e} at f =
    let hit : (e.id == k) ≡ true = find_holds (λ y. y.id == k) db.events at in
    let f' : Fits c (some (phase_of e)) = subst (λ o. Fits c (phases o)) at f in
    elim (Bool-cases (leb e.max_retries (suc e.retry_count))) [
      | inl out ↦
          rw
            (
              at,
              schedule_retry,
              out,
              update,
              at,
              row_of-modify k (λ x. x.id == k) (set_failed now (suc e.retry_count) msg) (λ x. refl)
                  db.events at,
              hit,
            )
            (omega (arith, f'.0), λ p q. refl)
      | inr left ↦
          rw
            (
              at,
              schedule_retry,
              left,
              update,
              at,
              row_of-modify k (λ x. x.id == k)
                  (set_pending now (suc e.retry_count) msg (now + pos_part backoff)) (λ x. refl)
                  db.events at,
              hit,
            )
            (omega (arith, f'.0), λ p q. absurd (ground arith))
    ]

Fits-same : (n c : ℕ) (o : Option Phase) → n ≡ 0 → Fits c o → Fits (n + c) o
Fits-same n c o z f = subst (λ i. Fits i o) (omega arith) f

if_known-zero : (o : Option WebhookEvent) → if_known o 0 ≡ 0
if_known-zero none = refl
if_known-zero (some e) = refl

module _ (c k : ℕ) (h : ℕ → ℕ) (db : Db) (v : Inv h db) (f : Fits c (phase_in k db)) where
  op-Fits :
      (o : Op) (locked : ℕ → Bool) (now : ℕ)
      → Fits (if_known (row_of k db.events) (is_retry k o) + c) (phase_in k (apply o locked now db))
  unfolding apply step
  op-Fits o locked now = go o (next o)
    where
      next : (o : Op) → Fits c (phase_in k (apply o locked now db))
      next o = Step-Fits c (step-Refines h k db v (record { locked = locked; now = now; op = o })) f

      go :
          (o : Op)
          → Fits c (phase_in k (apply o locked now db))
          → Fits
              (if_known (row_of k db.events) (is_retry k o) + c)
              (phase_in k (apply o locked now db))
      go (insert r d t a p m) g = Fits-same _ c _ (if_known-zero (row_of k db.events)) g
      go (claim lease) g = Fits-same _ c _ (if_known-zero (row_of k db.events)) g
      go (processed id) g = Fits-same _ c _ (if_known-zero (row_of k db.events)) g
      go (fail id msg) g = Fits-same _ c _ (if_known-zero (row_of k db.events)) g
      go (retry id msg backoff) g = elim (Bool-cases (id == k)) [
        | inr other ↦ Fits-same _ c _ (rw other (if_known-zero (row_of k db.events))) g
        | inl mine ↦ elim (Option-cases (row_of k db.events)) [
          | inl gone ↦ Fits-same _ c _ (rw gone refl) g
          | inr (e, at) ↦
              let same : k ≡ id = sym ((==_iff id k).0 mine) in
              let one : 1 ≡ if_known (row_of k db.events) (if id == k then 1 else 0) =
                rw (at, mine) refl in
              subst (λ i. Fits (i + c) (phase_in k (schedule_retry id msg backoff locked now db).1))
                one
                (subst
                  (λ i. Fits (1 + c) (phase_in k (schedule_retry i msg backoff locked now db).1))
                  same (retry-Fits c k msg backoff locked now db at f))
        ]
      ]

run-Fits :
    (c k : ℕ) (h : ℕ → ℕ) (xs : List Entry) (db : Db)
    → Inv h db
    → Fits c (phase_in k db)
    → Fits (reschedulings xs k db + c) (phase_in k (run xs db))
unfolding run reschedulings step reschedules
run-Fits c k h [] db v f = Fits-same 0 c _ refl f
run-Fits c k h (x ∷ xs) db v f =
    subst (λ i. Fits i (phase_in k (run xs (step x db)))) (omega arith)
      (run-Fits (reschedules x k db + c) k (λ n. hands_out x n db + h n) xs (step x db)
        (Inv-step h x db v) (op-Fits c k h db v f x.op x.locked x.now))

-- In whatever order the statements of webhook handlers and workers run, starting from a table with
-- no events: when ScheduleRetry has updated an event max(1, max_retries) times, the event is failed.
pub run-Exhausted :
    (k : ℕ) (xs : List Entry) (db : Db) (e : WebhookEvent)
    → db.events ≡ []
    → find (λ x. x.id == k) (run xs db).events ≡ some e
    → budget e ≤ reschedulings xs k db
    → e.status ≡ WebhookStatus.failed
run-Exhausted k xs db e empty at spent =
    let fits : Fits (reschedulings xs k db + 0) (some (phase_of e)) =
      subst (λ o. Fits (reschedulings xs k db + 0) (phases o)) at
        (run-Fits 0 k (λ n. 0) xs db (Inv-start db empty) (rw empty refl)) in
    let enough : 1 ≤ reschedulings xs k db = omega arith in
    let all : e.max_retries ≤ reschedulings xs k db = omega arith in
    fits.1 (omega (arith, fits.0)) (omega (arith, fits.0))
