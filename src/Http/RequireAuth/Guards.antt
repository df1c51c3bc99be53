-- ===== src/Http/RequireAuth/Guards.antt =====
-- Whom RequireAuth (backend/internal/http/middleware/auth.go) lets pass.
use gitactionflow.Base.{
  ℕ, ◌≡◌, refl, sym, subst, ap, Option, none, some, find, ◌==◌, is_empty, Bool-cases, inl, inr, ◌⊎◌,
  ◌∙◌,
}
use gitactionflow.Base.Text.{Text}
use gitactionflow.Errors.{Error, Result, ok, err, is, not_found}
use gitactionflow.Store.Rows.{Db, UserRow}
use gitactionflow.Store.Common.{found}
use gitactionflow.Store.Exec.{Env, World, query}
use gitactionflow.Store.Exec.Inversion.{query-eq-ok, query_keeps}
use gitactionflow.Store.Sessions.{Session, get_valid_by_token_hash}
use gitactionflow.Store.Users.{User, get_by_id, of_row, map_user}
use gitactionflow.Store.Logins.{get_valid_session}
use gitactionflow.Http.Reply.{Reply, Handling, unauthorized, internal}
use gitactionflow.Http.RequireAuth.{refused, with_account, with_session, require_auth}

-- The session cookie belongs to a session that is valid now, of a user in the table.
pub record Admitted (hash_token : Text → Text) (cookie : Option Text) (now : ℕ) (db : Db)
    : Type 0 where
  pub raw : Text
  pub session : Session
  pub row : UserRow
  pub presented : cookie ≡ some raw
  pub valid : get_valid_by_token_hash (hash_token raw) now db.sessions ≡ ok session
  pub account : find (λ r. r.id == session.user_id) db.users ≡ some row

-- The request is answered with 401 or 500.
abbrev pub Refused {ℓ} : {A : Type ℓ} → Reply A → Type ℓ
Refused r = (r ≡ unauthorized) ⊎ (r ≡ internal)

module _ {ℓ} {A : Type ℓ} (env : Env) (hash_token : Text → Text)
    (next : Option User → Handling A) where
  -- The middleware's result: it changes nothing, and then it either refuses or passes the request on
  -- with the user of the session.
  abbrev pub Guarded : Option Text → World → Reply A × World → Type ℓ
  Guarded cookie w result =
      (w' : World) × (w'.db ≡ w.db)
      × ((Refused result.0 × (result.1 ≡ w'))
          ⊎ ((a : Admitted hash_token cookie w.now w.db) × (result
                ≡ next (some (of_row a.row)) w')))

  Refused-refused : (e : Error) → Refused (refused env hash_token next e)
  Refused-refused e = elim (Bool-cases (is e not_found)) [
    | inl p ↦ inl (rw p refl)
    | inr p ↦ inr (rw p refl)
  ]

  account_found :
      (o : Option UserRow) {user : User}
      → found (map_user o) ≡ ok user
      → (r : UserRow) × (o ≡ some r) × (of_row r ≡ user)
  account_found none e = absurd (cc)
  account_found (some r) e = (r, refl, cc)

  with_account-Guarded :
      (raw : Text) (s : Session) (w0 w : World)
      → w.db ≡ w0.db
      → get_valid_by_token_hash (hash_token raw) w0.now w0.db.sessions ≡ ok s
      → (r : Result User) (w1 : World) → query env (get_by_id s.user_id) w ≡ (r, w1)
      → w1.db ≡ w.db
      → Guarded (some raw) w0 (with_account env hash_token next (r, w1))
  unfolding get_by_id
  with_account-Guarded raw s w0 w same valid (err e) w1 q kept =
      (w1, kept ∙ same, inl (Refused-refused e, refl))
  with_account-Guarded raw s w0 w same valid (ok user) w1 q kept =
      let (locked, now, ran) = query-eq-ok env (get_by_id s.user_id) w (ap (λ p. p.0) q) in
      let (row, hit, shown) = account_found _ (ap (λ p. p.0) ran) in
      let hit0 = subst (λ (d : Db). find (λ r. r.id == s.user_id) d.users ≡ some row) same hit in
      (
        w1,
        kept ∙ same,
        inr (
          record {
            raw = raw;
            session = s;
            row = row;
            presented = refl;
            valid = valid;
            account = hit0;
          },
          ap (λ x. next (some x) w1) (sym shown),
        ),
      )

  with_session-Guarded :
      (raw : Text) (w : World) (r : Result Session) (w1 : World)
      → query env (get_valid_session (hash_token raw) w.now) w ≡ (r, w1)
      → w1.db ≡ w.db
      → Guarded (some raw) w (with_session env hash_token next (r, w1))
  unfolding get_valid_session get_by_id
  with_session-Guarded raw w (err e) w1 q kept = (w1, kept, inl (Refused-refused e, refl))
  with_session-Guarded raw w (ok s) w1 q kept =
      let m = get_valid_session (hash_token raw) w.now in
      let (locked, now, ran) = query-eq-ok env m w (ap (λ p. p.0) q) in
      with_account-Guarded raw s w w1 kept (ap (λ p. p.0) ran) _ _ refl
        (query_keeps env (get_by_id s.user_id) (λ d. d ≡ w1.db) (λ l n d p. p) w1 refl)

  -- RequireAuth changes nothing by itself. It answers 401 or 500, or it passes the request on with
  -- the user of the valid session that the cookie names.
  pub require_auth-Guards :
      (cookie : Option Text) (w : World)
      → Guarded cookie w (require_auth env hash_token next cookie w)
  unfolding require_auth get_valid_session
  require_auth-Guards none w = (w, refl, inl (inl refl, refl))
  require_auth-Guards (some raw) w = elim (Bool-cases (is_empty raw)) [
    | inl blank ↦ rw blank (w, refl, inl (inl refl, refl))
    | inr given ↦ rw given (
        with_session-Guarded raw w _ _ refl (
          query_keeps env (get_valid_session (hash_token raw) w.now) (λ d. d ≡ w.db) (λ l n d p. p)
            w refl))
  ]
