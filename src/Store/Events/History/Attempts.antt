-- ===== src/Store/Events/History/Attempts.antt =====
-- How often one webhook event can be processed, whatever the workers do.
use mathlib.Core.Path.{fun_ext}
use gitactionflow.Base.{ℕ, ◌+◌, ◌≤◌, ◌≡◌, refl, List, [], ◌∷◌, arith, All, All-map, subst}
use gitactionflow.Store.Rows.{Db}
use gitactionflow.Store.Events.Claim.{claim_one-Claimed}
use gitactionflow.Store.Events.History.{
  Op, Entry, insert, claim, processed, retry, fail, step, apply, run, hands_out, hands_out_op,
  attempts,
}
use gitactionflow.Store.Events.History.Spent.{budget}
use gitactionflow.Store.Events.History.Counted.{
  Inv, none_out, Inv-processed, Inv-fail, Inv-retry, Inv-insert, Inv-claim,
}

pub Inv-step :
    (c : ℕ → ℕ) (x : Entry) (db : Db) → Inv c db → Inv (λ n. hands_out x n db + c n) (step x db)
unfolding step hands_out
Inv-step c x db v = go x.op
  where
    go : (o : Op) → Inv (λ n. hands_out_op o x.locked x.now n db + c n) (apply o x.locked x.now db)
    go (insert r d t a p m) = none_out c db v (Inv-insert c db v r d t a p m x.locked x.now)
    go (claim lease) =
        Inv-claim c db v lease x.now _ (claim_one-Claimed lease x.locked x.now db v.keys)
    go (processed id) = none_out c db v (Inv-processed c db v id x.locked x.now)
    go (retry id msg backoff) = none_out c db v (Inv-retry c db v id msg backoff x.locked x.now)
    go (fail id msg) = none_out c db v (Inv-fail c db v id msg x.locked x.now)

pub Inv-run :
    (c : ℕ → ℕ) (xs : List Entry) (db : Db)
    → Inv c db
    → Inv (λ n. attempts xs n db + c n) (run xs db)
unfolding attempts run
Inv-run c [] db v = none_out c db v v
Inv-run c (x ∷ xs) db v =
    subst (λ d. Inv d (run xs (step x db))) (fun_ext λ n. omega arith)
      (Inv-run (λ n. hands_out x n db + c n) xs (step x db) (Inv-step c x db v))

pub Inv-start : (db : Db) → db.events ≡ [] → Inv (λ n. 0) db
Inv-start db empty = record {
  keys = rw empty tt;
  below = rw empty tt;
  fresh = λ n h. refl;
  rows = rw empty tt;
}

-- In whatever order the statements of webhook handlers and workers run, starting from a table with
-- no events: no event is handed out for processing more than max(1, max_retries) times, stale leases
-- that are reclaimed included.
pub attempts-le-budget :
    (xs : List Entry) (db : Db)
    → db.events ≡ []
    → All (λ e. attempts xs e.id db ≤ budget e) (run xs db).events
attempts-le-budget xs db empty =
    All-map _ _ (λ e s. omega (arith, s.within)) (run xs db).events
      (Inv-run (λ n. 0) xs db (Inv-start db empty)).rows
