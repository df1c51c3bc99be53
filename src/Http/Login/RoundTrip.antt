-- ===== src/Http/Login/RoundTrip.antt =====
-- A login (backend/internal/http/handlers/auth.go), and then a request with its cookie
-- (backend/internal/http/middleware/auth.go).
use gitactionflow.Base.{ℕ, ◌<◌, ◌≡◌, refl, sym, subst, ap, ◌∙◌, false, Option, none, some, is_empty}
use gitactionflow.Base.Text.{Text, Unicode}
use gitactionflow.Errors.{Result, ok, err}
use gitactionflow.Store.Rows.{Db, UserRow}
use gitactionflow.Store.Common.{found}
use gitactionflow.Store.Exec.{Env, World, query}
use gitactionflow.Store.Exec.Inversion.{query_keeps, query_unfaulted}
use gitactionflow.Store.Sessions.{Session, get_valid_by_token_hash}
use gitactionflow.Store.Users.{User, get_by_id, of_row, map_user}
use gitactionflow.Store.Users.Upsert.{UsersKeyed, row_of}
use gitactionflow.Store.Logins.{get_valid_session}
use gitactionflow.Http.Reply.{Reply, Handling}
use gitactionflow.Http.Cookie.{Cookie}
use gitactionflow.Http.RequireAuth.{require_auth, with_account, with_session}
use gitactionflow.Http.Login.{AuthHandler, Callback, callback_github, add_duration}
use gitactionflow.Http.Login.SignedIn.{SignedIn, callback-SignedIn}

module _ {ℓ} {A : Type ℓ} (env : Env) (hash_token : Text → Text)
    (next : Option User → Handling A) where
  -- The request is passed on with the user of this row.
  abbrev Passed : UserRow → Reply A × World → Type ℓ
  Passed row result = (w' : World) × (result ≡ next (some (of_row row)) w')

  with_account-Passed :
      (row : UserRow) (r : Result User) (w : World)
      → r ≡ ok (of_row row)
      → Passed row (with_account env hash_token next (r, w))
  with_account-Passed row (err e) w q = absurd (cc)
  with_account-Passed row (ok user) w q =
      let same : user ≡ of_row row = cc in (w, ap (λ u. next (some u) w) same)

  with_session-Passed :
      (s : Session) (row : UserRow) (r : Result Session) (w : World)
      → ((n : ℕ) → (env.beat n).fault ≡ none)
      → r ≡ ok s
      → row_of s.user_id w.db.users ≡ some row
      → Passed row (with_session env hash_token next (r, w))
  unfolding get_by_id
  with_session-Passed s row (err e) w calm q there = absurd (cc)
  with_session-Passed s row (ok s') w calm q there =
      let same : s' ≡ s = cc in
      let m = get_by_id s'.user_id in
      let (l, n, ran) = query_unfaulted env m w (calm w.statements) in
      let hit = subst (λ (x : Session). row_of x.user_id w.db.users ≡ some row) (sym same) there in
      with_account-Passed row _ (query env m w).1 (ran ∙ ap (λ o. found (map_user o)) hit)

  require_auth-Passed :
      (raw : Text) (s : Session) (row : UserRow) (w : World)
      → ((n : ℕ) → (env.beat n).fault ≡ none)
      → is_empty raw ≡ false
      → get_valid_by_token_hash (hash_token raw) w.now w.db.sessions ≡ ok s
      → row_of s.user_id w.db.users ≡ some row
      → Passed row (require_auth env hash_token next (some raw) w)
  unfolding require_auth get_valid_session
  require_auth-Passed raw s row w calm given valid there =
      let m = get_valid_session (hash_token raw) w.now in
      let (l, n, ran) = query_unfaulted env m w (calm w.statements) in
      let kept = query_keeps env m (λ d. d ≡ w.db) (λ l n d p. p) w refl in
      rw (require_auth, given)
        (with_session-Passed s row _ (query env m w).1 calm (ran ∙ valid)
          (subst (λ (d : Db). row_of s.user_id d.users ≡ some row) (sym kept) there))

-- The user of a login is the one that GitHub named for its code, and a request with the login's
-- cookie is passed on with that user: as long as the session lasts, the tables are as the login left
-- them, no statement fails, and the token is not empty.
pub callback-require_auth {ℓ} :
    {A : Type ℓ} ⦃u : Unicode⦄ (env env' : Env) (h : AuthHandler) (next : Option User → Handling A)
    (q : Callback) (w w' : World) {c : Cookie}
    → UsersKeyed w.db
    → (callback_github env h q w).0.cookie ≡ some c
    → is_empty c.value ≡ false
    → w'.db ≡ (callback_github env h q w).1.db
    → w'.now < add_duration w.now h.cookie.ttl
    → ((n : ℕ) → (env'.beat n).fault ≡ none)
    → (i : SignedIn h q.code w'.now c w'.db) × (w2 : World) × (require_auth env' h.hash_token next
          (some c.value)
          w'
        ≡ next (some (of_row i.row)) w2)
callback-require_auth env env' h next q w w' {c} keyed signed given same before calm =
    let i : SignedIn h q.code w'.now c w'.db =
      subst (SignedIn h q.code w'.now c) (sym same)
        (callback-SignedIn env h q w w'.now keyed before signed) in
    let (w2, e) =
      require_auth-Passed env' h.hash_token next c.value i.session i.row w' calm given i.valid
        i.account in
    (i, w2, e)
