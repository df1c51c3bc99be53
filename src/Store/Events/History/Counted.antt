-- ===== src/Store/Events/History/Counted.antt =====
-- What each statement of backend/internal/store/webhook_events.go keeps of the events and of how
-- often they have been handed out.
use mathlib.Core.List.{Memᴰ}
use mathlib.Core.Path.{fun_ext}
use gitactionflow.Base.{
  ℕ, suc, ◌+◌, ◌≤◌, ◌<◌, ◌≡◌, refl, Bool, false, Option, [], ◌∷◌, arith, ◌==◌, ==_iff, ==_refl,
  ◌++◌, if◌then◌else◌, All, All-modify, All-append, inl, inr, find, find_holds, Option-cases,
  Bool-cases, leb, modify, any, not, subst, sym,
}
use gitactionflow.Base.Int.{ℤ, pos_part}
use gitactionflow.Base.Text.{Text, text_eq}
use gitactionflow.Base.Table.{
  Distinct, Below, All-modify_at, All-key, modify-Distinct, append-Below, append-Distinct,
  find-Memᴰ, find_key, All-Memᴰ,
}
use gitactionflow.Errors.{Result}
use gitactionflow.Json.{Raw, is_valid}
use gitactionflow.Store.Rows.{Db, Repository, WebhookEvent}
use gitactionflow.Store.Events.{
  update, insert_pending_with_max_retries, mark_processed, schedule_retry, mark_failed_immediately,
  set_claimed, set_failed, set_pending,
}
use gitactionflow.Store.Events.Claim.{Claimed, idle, exhausted, taken, reclaimed}
use gitactionflow.Store.Events.History.{is_event}
use gitactionflow.Store.Events.History.Spent.{
  Spent, Spent-failed, Spent-processed, Spent-pending, Spent-taken, Spent-reclaimed,
}

pub record Inv (c : ℕ → ℕ) (db : Db) : Type 0 where
  pub keys : Distinct (λ e. e.id) db.events
  pub below : Below (λ e. e.id) db.next_id db.events
  pub fresh : (n : ℕ) → db.next_id ≤ n → c n ≡ 0
  pub rows : All (λ e. Spent (c e.id) e) db.events

module _ (c : ℕ → ℕ) (db : Db) (v : Inv c db) where
  -- A statement that hands out nothing leaves the counts.
  pub none_out : {db' : Db} → Inv c db' → Inv (λ n. 0 + c n) db'
  none_out {db'} i = subst (λ d. Inv d db') (fun_ext λ n. omega arith) i

  Inv-modify :
      (p : WebhookEvent → Bool) (f : WebhookEvent → WebhookEvent)
      → ((x : WebhookEvent) → (f x).id ≡ x.id)
      → All (λ x. Spent (c x.id) x) (modify p f db.events)
      → Inv c (record db { events = modify p f db.events })
  Inv-modify p f same rows = record {
    keys = modify-Distinct (λ x. x.id) p f same db.events v.keys;
    below = All-key (λ x. x.id) (λ k. k < db.next_id) p f same db.events v.below;
    fresh = v.fresh;
    rows = rows;
  }

  Inv-update :
      (p : WebhookEvent → Bool) (f : WebhookEvent → WebhookEvent)
      → ((x : WebhookEvent) → (f x).id ≡ x.id)
      → ((x : WebhookEvent) → Spent (c x.id) x → Spent (c (f x).id) (f x))
      → Inv c (update p f db).1
  Inv-update p f same keep = elim (Option-cases (find p db.events)) [
    | inl e ↦ rw (e, update) v
    | inr (x, e) ↦
        rw (e, update)
          (Inv-modify p f same
            (All-modify (λ x. Spent (c x.id) x) p f (λ x _. keep x) db.events v.rows))
  ]

  pub Inv-processed :
      (id : ℕ) (locked : ℕ → Bool) (now : ℕ) → Inv c (mark_processed id locked now db).1
  unfolding mark_processed
  Inv-processed id locked now = Inv-update _ _ (λ x. refl) (λ x s. Spent-processed (c x.id) now x s)

  pub Inv-fail :
      (id : ℕ) (msg : Text) (locked : ℕ → Bool) (now : ℕ)
      → Inv c (mark_failed_immediately id msg locked now db).1
  unfolding mark_failed_immediately
  Inv-fail id msg locked now =
      Inv-update _ _ (λ x. refl)
        (λ x s. Spent-failed (c x.id) now x s x.retry_count msg (omega arith))

  -- An update of the one row of an event.
  module _ (e : WebhookEvent) (f : WebhookEvent → WebhookEvent)
      (same : (x : WebhookEvent) → (f x).id ≡ x.id) (m : Memᴰ e db.events) where
    Inv-row :
        Spent (c e.id) (f e) → Inv c (record db { events = modify (λ x. x.id == e.id) f db.events })
    Inv-row q =
        Inv-modify (λ x. x.id == e.id) f same
          (All-modify_at (λ x. x.id) (λ x. Spent (c x.id) x) (λ x. Spent (c x.id) x) e f
            (λ x _ s. s) (subst (λ k. Spent (c k) (f e)) (sym (same e)) q) db.events v.keys m
            v.rows)

    Inv-update_row : Spent (c e.id) (f e) → Inv c (update (λ x. x.id == e.id) f db).1
    Inv-update_row q = rw (find_key (λ x. x.id) e db.events v.keys m, update) (Inv-row q)

    -- The same, when the statement hands the event out.
    Inv-handed :
        Spent (1 + c e.id) (f e)
        → Inv
            (λ n. (if e.id == n then 1 else 0) + c n)
            (record db { events = modify (λ x. x.id == e.id) f db.events })
    Inv-handed q = record {
      keys = modify-Distinct (λ x. x.id) _ f same db.events v.keys;
      below = All-key (λ x. x.id) (λ k. k < db.next_id) _ f same db.events v.below;
      fresh = λ n h.
          let b : e.id < db.next_id = All-Memᴰ (λ x. x.id < db.next_id) v.below m in
          ground (arith, v.fresh n h);
      rows =
          All-modify_at (λ x. x.id) (λ x. Spent (c x.id) x)
            (λ x. Spent ((if e.id == x.id then 1 else 0) + c x.id) x) e f
            (λ x ne s.
              let apart : (e.id == x.id) ≡ false = ground arith in
              let count : c x.id ≡ 0 + c x.id = omega arith in
              rw apart (subst (λ k. Spent k x) count s))
            (subst (λ k. Spent ((if e.id == k then 1 else 0) + c k) (f e)) (sym (same e))
              (rw (==_refl e.id) q))
            db.events v.keys m v.rows;
    }

  Inv-append :
      (e : WebhookEvent)
      → e.id ≡ db.next_id
      → ((k : ℕ) → k ≡ 0 → Spent k e)
      → Inv c (record db { events = db.events ++ e ∷ []; next_id = suc db.next_id })
  Inv-append e p q = record {
    keys = append-Distinct (λ x. x.id) db.next_id db.events e v.below p v.keys;
    below = append-Below (λ x. x.id) db.next_id db.events e v.below p;
    fresh = λ n h. v.fresh n (omega arith);
    rows =
        All-append (λ x. Spent (c x.id) x) db.events (e ∷ []) v.rows
          (q (c e.id) (v.fresh e.id (omega arith)), tt);
  }

module _ (c : ℕ → ℕ) (db : Db) (v : Inv c db) where
  retry_row :
      (x : WebhookEvent)
      → Memᴰ x db.events
      → (msg : Text) (next now : ℕ)
      → Inv c
          (if leb x.max_retries (suc x.retry_count)
            then update (λ y. y.id == x.id) (set_failed now (suc x.retry_count) msg) db
            else update (λ y. y.id == x.id) (set_pending now (suc x.retry_count) msg next) db).1
  unfolding set_failed set_pending
  retry_row x m msg next now =
      let s : Spent (c x.id) x = All-Memᴰ (λ y. Spent (c y.id) y) v.rows m in
      elim (Bool-cases (leb x.max_retries (suc x.retry_count))) [
        | inl out ↦ rw out (
            Inv-update_row c db v x _ (λ y. refl) m
              (Spent-failed (c x.id) now x s _ msg (omega arith)))
        | inr left ↦
            rw left (
              Inv-update_row c db v x _ (λ y. refl) m
                (Spent-pending (c x.id) now x s msg next left))
      ]

  pub Inv-retry :
      (id : ℕ) (msg : Text) (backoff : ℤ) (locked : ℕ → Bool) (now : ℕ)
      → Inv c (schedule_retry id msg backoff locked now db).1
  Inv-retry id msg backoff locked now = elim (Option-cases (find (λ e. e.id == id) db.events)) [
    | inl e ↦ unfold schedule_retry in rw (e, schedule_retry) v
    | inr (x, e) ↦
        let at : x.id ≡ id = (==_iff x.id id).0 (find_holds (λ y. y.id == id) db.events e) in
        unfold schedule_retry in
        rw (e, schedule_retry)
          (subst
            (λ k.
              Inv c
                (if leb x.max_retries (suc x.retry_count)
                  then update (λ y. y.id == k) (set_failed now (suc x.retry_count) msg) db
                  else update (λ y. y.id == k)
                      (set_pending now (suc x.retry_count) msg (now + pos_part backoff)) db).1)
            at (retry_row x (find-Memᴰ _ db.events e) msg (now + pos_part backoff) now))
  ]

  pub Inv-insert :
      (r : ℕ) (d t a : Text) (p : Raw) (m : ℤ) (locked : ℕ → Bool) (now : ℕ)
      → Inv c (insert_pending_with_max_retries r d t a p m locked now db).1
  unfolding insert_pending_with_max_retries
  Inv-insert r d t a p m locked now = elim (Bool-cases (not (is_valid p))) [
    | inl bad ↦ rw (bad, insert_pending_with_max_retries) v
    | inr good ↦ elim (Bool-cases (any (λ (x : WebhookEvent). text_eq x.delivery_id d) db.events)) [
      | inl known ↦ rw (good, known, insert_pending_with_max_retries) v
      | inr new ↦ elim (Bool-cases (any (λ (x : Repository). x.id == r) db.repositories)) [
        | inl repo ↦
            rw (good, new, repo, insert_pending_with_max_retries)
              (Inv-append c db v _ refl (λ k z. ground arith))
        | inr no_repo ↦ rw (good, new, no_repo, insert_pending_with_max_retries) v
      ]
    ]
  ]

  pub Inv-claim :
      (lease now : ℕ) (r : Result (Option WebhookEvent) × Db)
      → Claimed lease now db r
      → Inv (λ n. is_event n r.0 + c n) r.1
  unfolding set_claimed set_failed
  Inv-claim lease now r idle = none_out c db v v
  Inv-claim lease now r (exhausted e m p h) =
      let s : Spent (c e.id) e = All-Memᴰ (λ y. Spent (c y.id) y) v.rows m in
      none_out c db v
        (Inv-row c db v e _ (λ y. refl) m (Spent-failed (c e.id) now e s _ _ (omega arith)))
  Inv-claim lease now r (taken e m p) =
      let s : Spent (c e.id) e = All-Memᴰ (λ y. Spent (c y.id) y) v.rows m in
      Inv-handed c db v e _ (λ y. refl) m (Spent-taken (c e.id) now e s p)
  Inv-claim lease now r (reclaimed e m p h) =
      let s : Spent (c e.id) e = All-Memᴰ (λ y. Spent (c y.id) y) v.rows m in
      Inv-handed c db v e _ (λ y. refl) m (Spent-reclaimed (c e.id) now e s _ p h)
