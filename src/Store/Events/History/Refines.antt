-- ===== src/Store/Events/History/Refines.antt =====
-- The statements on webhook_events (backend/internal/store/webhook_events.go) implement the life
-- cycle of an event.
use mathlib.Core.List.{Memᴰ}
use gitactionflow.Base.{
  ℕ, suc, ◌+◌, ◌≡◌, refl, sym, subst, ◌∙◌, Bool, true, not, Option, none, some, List, [], ◌∷◌, ◌++◌,
  arith, ◌==◌, ==_iff, leb, any, find, find_holds, modify, Bool-cases, Option-cases, inl, inr,
}
use gitactionflow.Base.Int.{ℤ, pos_part}
use gitactionflow.Base.Text.{Text, text_eq}
use gitactionflow.Base.Table.{find_key}
use gitactionflow.Errors.{Result}
use gitactionflow.Json.{Raw, is_valid}
use gitactionflow.Store.Rows.{
  Db, Repository, WebhookEvent, WebhookStatus, is_pending, is_processing,
}
use gitactionflow.Store.Events.{
  update, new_event, insert_pending_with_max_retries, mark_processed, schedule_retry,
  mark_failed_immediately, set_claimed, set_failed, set_pending, set_processed,
}
use gitactionflow.Store.Events.Claim.{Claimed, idle, exhausted, taken, reclaimed, claim_one-Claimed}
use gitactionflow.Store.Events.History.{
  Op, Entry, insert, claim, processed, retry, fail, step, apply, run, hands_out,
}
use gitactionflow.Store.Events.History.Counted.{Inv}
use gitactionflow.Store.Events.History.Attempts.{Inv-step, Inv-run, Inv-start}
use gitactionflow.Store.Events.History.Life.{
  Phase, phase, Move, arrives, starts, restarts, succeeds, gives_up, retries, exhausts, Moves, here,
  then_move, phase_of, phase_in, row_of, row_of-modify-none, row_of-modify, row_of-append,
  row_of-append-none,
}

-- One statement is one move of the event, or none.
pub data Step (a b : Option Phase) : Type 0 where
  stays : a ≡ b → Step a b
  moves : Move a b → Step a b

processing_eq : (s : WebhookStatus) → is_processing s ≡ true → s ≡ WebhookStatus.processing
processing_eq WebhookStatus.processing h = refl
processing_eq WebhookStatus.pending h = absurd (cc)
processing_eq WebhookStatus.processed h = absurd (cc)
processing_eq WebhookStatus.failed h = absurd (cc)

pending_eq : (s : WebhookStatus) → is_pending s ≡ true → s ≡ WebhookStatus.pending
pending_eq WebhookStatus.pending h = refl
pending_eq WebhookStatus.processing h = absurd (cc)
pending_eq WebhookStatus.processed h = absurd (cc)
pending_eq WebhookStatus.failed h = absurd (cc)

-- A move from `processing` is a move of an event that is processing.
from_processing :
    (e : WebhookEvent) (b : Option Phase)
    → is_processing e.status ≡ true
    → Move (some (phase WebhookStatus.processing e.retry_count e.max_retries)) b
    → Move (some (phase_of e)) b
from_processing e b live =
    subst (λ s. Move (some (phase s e.retry_count e.max_retries)) b)
      (sym (processing_eq e.status live))

module _ (k : ℕ) (db : Db) where
  Step-modify :
      (p : WebhookEvent → Bool) (f : WebhookEvent → WebhookEvent)
      → ((x : WebhookEvent) → (f x).id ≡ x.id)
      → ((x : WebhookEvent)
          → row_of k db.events ≡ some x
          → p x ≡ true
          → Move (some (phase_of x)) (some (phase_of (f x))))
      → Step (phase_in k db) (phase_in k (record db { events = modify p f db.events }))
  Step-modify p f same go = elim (Option-cases (row_of k db.events)) [
    | inl gone ↦ stays (rw (gone, row_of-modify-none k p f same db.events gone) refl)
    | inr (x, at) ↦ elim (Bool-cases (p x)) [
      | inl hit ↦ rw (at, row_of-modify k p f same db.events at, hit) (moves (go x at hit))
      | inr miss ↦ rw (at, row_of-modify k p f same db.events at, miss) (stays refl)
    ]
  ]

  Step-update :
      (p : WebhookEvent → Bool) (f : WebhookEvent → WebhookEvent)
      → ((x : WebhookEvent) → (f x).id ≡ x.id)
      → ((x : WebhookEvent)
          → row_of k db.events ≡ some x
          → p x ≡ true
          → Move (some (phase_of x)) (some (phase_of (f x))))
      → Step (phase_in k db) (phase_in k (update p f db).1)
  Step-update p f same go = elim (Option-cases (find p db.events)) [
    | inl miss ↦ rw (miss, update) (stays refl)
    | inr (x, hit) ↦ rw (hit, update) (Step-modify p f same go)
  ]

  -- The update of one row is a move of its event, and leaves the others.
  the_row :
      (j : ℕ) (e : WebhookEvent)
      → row_of j db.events ≡ some e
      → (f : WebhookEvent → WebhookEvent) → Move (some (phase_of e)) (some (phase_of (f e)))
      → (x : WebhookEvent) → row_of k db.events ≡ some x
      → (x.id == j) ≡ true
      → Move (some (phase_of x)) (some (phase_of (f x)))
  the_row j e at f m x there hit =
      let id_k : x.id ≡ k = (==_iff x.id k).0 (find_holds (λ y. y.id == k) db.events there) in
      let id_j : x.id ≡ j = (==_iff x.id j).0 hit in
      let at_k : row_of k db.events ≡ some e =
        subst (λ i. row_of i db.events ≡ some e) (sym id_j ∙ id_k) at in
      let me : e ≡ x = cc in subst (λ y. Move (some (phase_of y)) (some (phase_of (f y)))) me m

  Step-processed :
      (id : ℕ) (locked : ℕ → Bool) (now : ℕ)
      → Step (phase_in k db) (phase_in k (mark_processed id locked now db).1)
  unfolding mark_processed set_processed
  Step-processed id locked now =
      Step-update _ _ (λ x. refl)
        (λ x at hit. from_processing x _ (ground arith) (succeeds x.retry_count x.max_retries))

  Step-fail :
      (id : ℕ) (msg : Text) (locked : ℕ → Bool) (now : ℕ)
      → Step (phase_in k db) (phase_in k (mark_failed_immediately id msg locked now db).1)
  unfolding mark_failed_immediately set_failed
  Step-fail id msg locked now =
      Step-update _ _ (λ x. refl)
        (λ x at hit. from_processing x _ (ground arith) (gives_up x.retry_count x.max_retries))

  Step-retry :
      (id : ℕ) (msg : Text) (backoff : ℤ) (locked : ℕ → Bool) (now : ℕ)
      → Step (phase_in k db) (phase_in k (schedule_retry id msg backoff locked now db).1)
  unfolding schedule_retry set_failed set_pending
  Step-retry id msg backoff locked now = elim (Option-cases (row_of id db.events)) [
    | inl gone ↦ rw (gone, schedule_retry) (stays refl)
    | inr (e, at) ↦ elim (Bool-cases (leb e.max_retries (suc e.retry_count))) [
      | inl out ↦
          rw (at, schedule_retry, out)
            (Step-update (λ x. x.id == id) (set_failed now (suc e.retry_count) msg) (λ x. refl)
              (the_row id e at (set_failed now (suc e.retry_count) msg)
                (exhausts e.status e.retry_count e.max_retries (ground arith))))
      | inr left ↦
          rw (at, schedule_retry, left)
            (Step-update (λ x. x.id == id)
              (set_pending now (suc e.retry_count) msg (now + pos_part backoff)) (λ x. refl)
              (the_row id e at (set_pending now (suc e.retry_count) msg (now + pos_part backoff))
                (retries e.status e.retry_count e.max_retries (ground arith))))
    ]
  ]

  Step-append :
      (e : WebhookEvent) (n : ℕ)
      → Move none (some (phase_of e))
      → Step (phase_in k db) (phase_in k (record db { events = db.events ++ e ∷ []; next_id = n }))
  Step-append e n m = elim (Option-cases (row_of k db.events)) [
    | inr (x, at) ↦ rw (at, row_of-append k e db.events at) (stays refl)
    | inl gone ↦
        rw (gone, row_of-append-none k e db.events gone)
          (elim (Bool-cases (e.id == k)) [
            | inl hit ↦ rw hit (moves m)
            | inr miss ↦ rw miss (stays refl)
          ])
  ]

  Step-insert :
      (r : ℕ) (d t a : Text) (p : Raw) (m : ℤ) (locked : ℕ → Bool) (now : ℕ)
      → Step
          (phase_in k db)
          (phase_in k (insert_pending_with_max_retries r d t a p m locked now db).1)
  unfolding insert_pending_with_max_retries new_event
  Step-insert r d t a p m locked now = elim (Bool-cases (not (is_valid p))) [
    | inl bad ↦ rw (bad, insert_pending_with_max_retries) (stays refl)
    | inr good ↦ elim (Bool-cases (any (λ (x : WebhookEvent). text_eq x.delivery_id d) db.events)) [
      | inl known ↦ rw (good, known, insert_pending_with_max_retries) (stays refl)
      | inr new ↦ elim (Bool-cases (any (λ (x : Repository). x.id == r) db.repositories)) [
        | inl repo ↦
            rw (good, new, repo, insert_pending_with_max_retries)
              (Step-append (new_event db.next_id now r d t a p (pos_part m)) (suc db.next_id)
                (arrives (pos_part m)))
        | inr no_repo ↦ rw (good, new, no_repo, insert_pending_with_max_retries) (stays refl)
      ]
    ]
  ]

module _ (c : ℕ → ℕ) (k : ℕ) (db : Db) (v : Inv c db) where
  -- The update that a claim makes of the row that it selects.
  Step-row :
      (e : WebhookEvent) (f : WebhookEvent → WebhookEvent)
      → ((x : WebhookEvent) → (f x).id ≡ x.id)
      → Memᴰ e db.events
      → Move (some (phase_of e)) (some (phase_of (f e)))
      → Step
          (phase_in k db)
          (phase_in k (record db { events = modify (λ x. x.id == e.id) f db.events }))
  Step-row e f same m q =
      Step-modify k db (λ x. x.id == e.id) f same
        (the_row k db e.id e (find_key (λ x. x.id) e db.events v.keys m) f q)

  Step-claim :
      (lease now : ℕ) (r : Result (Option WebhookEvent) × Db)
      → Claimed lease now db r
      → Step (phase_in k db) (phase_in k r.1)
  unfolding set_claimed set_failed
  Step-claim lease now r idle = stays refl
  Step-claim lease now r (exhausted e m p h) =
      Step-row e _ (λ y. refl) m (exhausts e.status e.retry_count e.max_retries h)
  Step-claim lease now r (taken e m p) =
      Step-row e _ (λ y. refl) m
        (subst
          (λ s.
            Move (some (phase s e.retry_count e.max_retries))
              (some (phase WebhookStatus.processing e.retry_count e.max_retries)))
          (sym (pending_eq e.status p)) (starts e.retry_count e.max_retries))
  Step-claim lease now r (reclaimed e m p h) =
      Step-row e _ (λ y. refl) m
        (from_processing e _ p (restarts e.retry_count e.max_retries (ground arith)))

  pub step-Refines : (x : Entry) → Step (phase_in k db) (phase_in k (step x db))
  unfolding step
  step-Refines x = go x.op
    where
      go : (o : Op) → Step (phase_in k db) (phase_in k (apply o x.locked x.now db))
      go (insert r d t a p m) = Step-insert k db r d t a p m x.locked x.now
      go (claim lease) = Step-claim lease x.now _ (claim_one-Claimed lease x.locked x.now db v.keys)
      go (processed id) = Step-processed k db id x.locked x.now
      go (retry id msg backoff) = Step-retry k db id msg backoff x.locked x.now
      go (fail id msg) = Step-fail k db id msg x.locked x.now

then-Step : {a b c : Option Phase} → Moves a b → Step b c → Moves a c
then-Step {a} ms (stays e) = subst (Moves a) e ms
then-Step {b = b} {c} ms (moves m) = then_move b c ms m

run-Moves :
    (c : ℕ → ℕ) (k : ℕ) (xs : List Entry) (db : Db) {a : Option Phase}
    → Inv c db
    → Moves a (phase_in k db)
    → Moves a (phase_in k (run xs db))
unfolding run
run-Moves c k [] db v ms = ms
run-Moves c k (x ∷ xs) db v ms =
    run-Moves (λ n. hands_out x n db + c n) k xs (step x db) (Inv-step c x db v)
      (then-Step ms (step-Refines c k db v x))

-- In whatever order the statements of webhook handlers and workers run, starting from a table with
-- no events: from any database that is reached (by `xs`), what further statements (`ys`) do to the
-- event of an id is a sequence of moves of its life cycle.
pub run-Refines :
    (k : ℕ) (xs ys : List Entry) (db : Db)
    → db.events ≡ []
    → Moves (phase_in k (run xs db)) (phase_in k (run ys (run xs db)))
run-Refines k xs ys db empty =
    run-Moves _ k ys (run xs db) (Inv-run (λ n. 0) xs db (Inv-start db empty)) here
