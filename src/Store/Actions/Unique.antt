-- ===== src/Store/Actions/Unique.antt =====
-- CreateOrGet (backend/internal/store/actions.go): one row for each idempotency key.
use gitactionflow.Base.{
  ℕ, ◌+◌, ◌≤◌, ◌≡◌, refl, sym, ap, subst, ◌∙◌, Bool, true, false, not, ◌&&◌, Option, none, some,
  List, [], ◌∷◌, ◌++◌, arith, any, count, find, Bool-cases, inl, inr, if◌then◌else◌, ◌==◌,
}
use gitactionflow.Base.Int.{ℤ, pos_part}
use gitactionflow.Base.Text.{Text, text_eq_iff}
use gitactionflow.Errors.{Error, Result, ok, err, is, is_iff, conflict, other}
use gitactionflow.Json.{Raw, is_valid}
use gitactionflow.Store.Rows.{Db, Action, WebhookEvent, Rule}
use gitactionflow.Store.Common.{found}
use gitactionflow.Store.Exec.{Env, World, query, run_statement}
use gitactionflow.Store.Exec.Inversion.{query_keeps, query-eq-ok, Keeps}
use gitactionflow.Store.Actions.{
  insert_action, has_key, is_action_type, create_or_get, get_on_conflict, get_by_idempotency_key,
  old_row, or_empty,
}

-- No two rows have the same key.
abbrev pub KeysUnique : Db → Type 0
KeysUnique db = (key : Text) → count (has_key key) db.actions ≤ 1

count_absent :
    (key : Text) (as' : List Action) → any (has_key key) as' ≡ false → count (has_key key) as' ≡ 0
count_absent key [] h = refl
count_absent key (a ∷ as') h = let rest = count_absent key as' (ground arith) in ground arith

count-append :
    (key : Text) (as' : List Action) (a : Action)
    → count (has_key key) (as' ++ a ∷ [])
      ≡ count (has_key key) as' + (if has_key key a then 1 else 0)
count-append key [] a = omega arith
count-append key (b ∷ as') a = omega (arith, count-append key as' a)

find-append :
    (key : Text) (as' : List Action) (a : Action)
    → any (has_key key) as' ≡ false
    → has_key key a ≡ true
    → find (has_key key) (as' ++ a ∷ []) ≡ some a
find-append key [] a h k = rw k refl
find-append key (b ∷ as') a h k =
    let miss : has_key key b ≡ false = ground arith in
    rw miss (find-append key as' a (rw miss at h) k)

-- What the INSERT does: nothing, or a new row for a key that no row had.
data Inserted (key : Text) (db : Db) : Result Action × Db → Type 0 where
  refused :
      (e : Error)
      → (is e conflict ≡ true → any (has_key key) db.actions ≡ true)
      → Inserted key db (err e, db)
  row :
      (a : Action) (n : ℕ)
      → a.idempotency_key ≡ key
      → any (has_key key) db.actions ≡ false
      → Inserted key db (ok a, record db { actions = db.actions ++ a ∷ []; next_id = n })

-- Other errors than a broken UNIQUE constraint are not `ErrConflict`.
not_conflict {ℓ} : {Q : Type ℓ} (e : Error) → e.kind ≡ other → is e conflict ≡ true → Q
not_conflict e p h = absurd (let q = (is_iff e conflict).0 h in cc)

module _ (event_id rule_id : ℕ) (action_type : Text) (config : Raw) (key : Text)
    (max_attempts : ℕ) where
  insert_action-Inserted :
      (locked : ℕ → Bool) (now : ℕ) (db : Db)
      → Inserted key db
          (insert_action event_id rule_id action_type config key max_attempts locked now db)
  unfolding insert_action
  insert_action-Inserted locked now db =
      elim (Bool-cases (not (is_valid config && is_action_type action_type))) [
        | inl bad ↦ rw bad (refused _ (not_conflict _ refl))
        | inr good ↦ elim (Bool-cases (any (has_key key) db.actions)) [
          | inl known ↦ rw (good, known) (refused _ (λ p. known))
          | inr new ↦
              elim (Bool-cases (
                any (λ (e : WebhookEvent). e.id == event_id) db.events
                && any (λ (r : Rule). r.id == rule_id) db.rules)) [
                  | inl there ↦ rw (good, new, there) (row _ _ refl new)
                  | inr gone ↦ rw (good, new, gone) (refused _ (not_conflict _ refl))
                ]
        ]
      ]

  query-Inserted :
      (env : Env) (w : World)
      → let q = query env (insert_action event_id rule_id action_type config key max_attempts) w in
        Inserted key w.db (q.0, q.1.db)
  unfolding query
  query-Inserted env w = go (env.beat w.statements).fault
    where
      go :
          (fault : Option Text)
          → let r =
              run_statement
                (env.beat w.statements)
                fault
                (insert_action event_id rule_id action_type config key max_attempts)
                w in
            Inserted key w.db (r.0, r.1.db)
      go none = insert_action-Inserted (env.beat w.statements).locked _ w.db
      go (some msg) = refused _ (not_conflict _ refl)

row-KeysUnique :
    (key : Text) (db : Db) (a : Action) (n : ℕ)
    → a.idempotency_key ≡ key
    → any (has_key key) db.actions ≡ false
    → KeysUnique db
    → KeysUnique (record db { actions = db.actions ++ a ∷ []; next_id = n })
row-KeysUnique key db a n same new h k = elim (Bool-cases (has_key k a)) [
  | inl hit ↦
      let keys : key ≡ k = sym same ∙ (text_eq_iff a.idempotency_key k).0 hit in
      let zero_rows : count (has_key k) db.actions ≡ 0 =
        subst (λ z. count (has_key z) db.actions ≡ 0) keys (count_absent key db.actions new) in
      let all = count-append k db.actions a in ground arith
  | inr miss ↦ let all = count-append k db.actions a in let old = h k in ground arith
]

found-eq-ok : (o : Option Action) {a : Action} → found o ≡ ok a → o ≡ some a
found-eq-ok none h = absurd (cc)
found-eq-ok (some b) h = cc

old_row-eq-ok :
    (r : Result Action) (w : World) {a : Action} {new : Bool} {w' : World}
    → old_row r w ≡ (ok (a, new), w')
    → (r ≡ ok a) × (new ≡ false) × (w ≡ w')
old_row-eq-ok (ok b) w h = (cc, cc, cc)
old_row-eq-ok (err e) w h = absurd (cc)

old_row-KeysUnique :
    (r : Result Action) (w : World) → KeysUnique w.db → KeysUnique (old_row r w).1.db
old_row-KeysUnique (ok b) w h = h
old_row-KeysUnique (err e) w h = h

module _ (env : Env) (key : Text) where
  query-KeysUnique :
      (w : World) → KeysUnique w.db → KeysUnique (query env (get_by_idempotency_key key) w).1.db
  unfolding get_by_idempotency_key
  query-KeysUnique w h =
      query_keeps env (get_by_idempotency_key key) KeysUnique (λ locked now db p. p) w h

  get_on_conflict-KeysUnique :
      {db : Db} {p : Result Action × Db} (w1 : World)
      → Inserted key db p
      → w1.db ≡ p.1
      → KeysUnique db
      → KeysUnique (get_on_conflict env key p.0 w1).1.db
  unfolding get_on_conflict
  get_on_conflict-KeysUnique {db} w1 (refused e c) q h = elim (Bool-cases (is e conflict)) [
    | inl known ↦ rw known (old_row-KeysUnique _ _ (query-KeysUnique w1 (rw q h)))
    | inr failed ↦ rw failed (rw q h)
  ]
  get_on_conflict-KeysUnique {db} w1 (row a n same new) q h =
      rw q (row-KeysUnique key db a n same new h)

  get_on_conflict_row :
      {db : Db} {p : Result Action × Db} (w1 : World) {a : Action} {new : Bool} {w' : World}
      → Inserted key db p
      → w1.db ≡ p.1
      → get_on_conflict env key p.0 w1 ≡ (ok (a, new), w')
      → (find (has_key key) w'.db.actions ≡ some a) × (new ≡ not (any (has_key key) db.actions))
  unfolding get_on_conflict get_by_idempotency_key
  get_on_conflict_row {db} w1 {a} {new} {w'} (refused e c) q h = elim (Bool-cases (is e conflict)) [
    | inr failed ↦ absurd (let g = rw failed at h in cc)
    | inl known ↦
        let (r, n, v) =
          old_row-eq-ok (query env (get_by_idempotency_key key) w1).0
            (query env (get_by_idempotency_key key) w1).1 (rw known at h) in
        let (locked, now, s) = query-eq-ok env (get_by_idempotency_key key) w1 r in
        let here = found-eq-ok _ (ap (λ t. t.0) s) in
        let db_same : w1.db ≡ w'.db = ap (λ t. t.1) s ∙ ap (λ (z : World). z.db) v in
        (
          subst (λ (d : Db). find (has_key key) d.actions ≡ some a) db_same here,
          rw (n, c known) refl,
        )
  ]
  get_on_conflict_row {db} w1 {a} {new} {w'} (row b n same fresh) q h =
      let row_same : b ≡ a = cc in
      let flag : true ≡ new = cc in
      let db_same : w1.db ≡ w'.db = cc in
      (
        subst (λ (d : Db). find (has_key key) d.actions ≡ some a) (sym q ∙ db_same)
            (subst (λ z. find (has_key key) (db.actions ++ b ∷ []) ≡ some z) row_same
              (find-append key db.actions b fresh ((text_eq_iff b.idempotency_key key).1 same))),
        sym flag ∙ rw fresh refl,
      )

module _ (env : Env) (event_id rule_id : ℕ) (action_type : Text) (config : Raw) (key : Text)
    (max_attempts : ℤ) where
  -- CreateOrGet adds no second row for a key, whether it succeeds or fails.
  pub create_or_get-KeysUnique :
      Keeps KeysUnique (create_or_get env event_id rule_id action_type config key max_attempts)
  unfolding create_or_get
  create_or_get-KeysUnique = record {
    keep = λ w h.
        get_on_conflict-KeysUnique env key
          (query env
            (insert_action event_id rule_id action_type (or_empty config) key
              (pos_part max_attempts))
            w).1
          (query-Inserted event_id rule_id action_type (or_empty config) key (pos_part max_attempts)
            env w)
          refl h;
  }

  -- If CreateOrGet returns a row, it is the row of the key in the table, and it is reported as new
  -- exactly if the table had no row with the key before.
  pub create_or_get_row :
      (w : World) (a : Action) (new : Bool) (w' : World)
      → create_or_get env event_id rule_id action_type config key max_attempts w ≡ (ok (a, new), w')
      → (find (has_key key) w'.db.actions ≡ some a) × (new ≡ not (any (has_key key) w.db.actions))
  unfolding create_or_get
  create_or_get_row w a new w' h =
      get_on_conflict_row env key
        (query env
          (insert_action event_id rule_id action_type (or_empty config) key (pos_part max_attempts))
          w).1
        (query-Inserted event_id rule_id action_type (or_empty config) key (pos_part max_attempts)
          env w)
        refl h
