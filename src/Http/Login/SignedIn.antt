-- ===== src/Http/Login/SignedIn.antt =====
-- Whom a login (backend/internal/http/handlers/auth.go) signs in.
use gitactionflow.Base.{
  ℕ, ◌<◌, ◌≤◌, ◌≡◌, refl, sym, subst, ap, ◌∙◌, Bool, ◌||◌, ◌==◌, not, if◌then◌else◌, Option, none,
  some, any, is_empty, Bool-cases, inl, inr, arith,
}
use gitactionflow.Base.Int.{ℤ, pos, negsuc}
use gitactionflow.Base.Text.{Text, Unicode}
use gitactionflow.Errors.{Result, ok, err}
use gitactionflow.Store.Rows.{Db, UserRow}
use gitactionflow.Store.Exec.{Env, World, query}
use gitactionflow.Store.Exec.Inversion.{query-eq-ok, query_keeps, now-query}
use gitactionflow.Store.Sessions.{Session, get_valid_by_token_hash, get_valid-create}
use gitactionflow.Store.Users.{User, upsert_from_github}
use gitactionflow.Store.Users.Upsert.{UsersKeyed, row_of, upsert-IsStored}
use gitactionflow.Store.Logins.{consume_state, create_session}
use gitactionflow.Http.Cookie.{Cookie, set_session_cookie}
use gitactionflow.Http.Login.{
  AuthHandler, Answer, Callback, GithubUser, callback_github, redirect_frontend, with_state,
  with_token, with_profile, store_user, with_account, open_session, signed_in, add_duration,
}

-- The cookie names a session, valid at the time, of the user that GitHub named when it was asked
-- with the token that the code was exchanged for.
pub record SignedIn (h : AuthHandler) (code : Text) (t : ℕ) (c : Cookie) (db : Db) : Type 0 where
  pub token : Text
  pub profile : GithubUser
  pub session : Session
  pub row : UserRow
  pub exchanged_at : ℕ
  pub fetched_at : ℕ
  pub exchanged : h.exchange_code exchanged_at code ≡ ok token
  pub fetched : h.fetch_user fetched_at token ≡ ok profile
  pub valid : get_valid_by_token_hash (h.hash_token c.value) t db.sessions ≡ ok session
  pub account : row_of session.user_id db.users ≡ some row
  pub is_user : row.github_user_id ≡ profile.id

add_duration_mono : (a b : ℕ) (d : ℤ) → a ≤ b → add_duration a d ≤ add_duration b d
add_duration_mono a b (pos n) le = omega arith
add_duration_mono a b (negsuc n) le = omega arith

UsersKeyed-consume_state :
    (hash : Text) (at : ℕ) (l : ℕ → Bool) (n : ℕ) (d : Db)
    → UsersKeyed d
    → UsersKeyed (consume_state hash at l n d).1
unfolding consume_state
UsersKeyed-consume_state hash at l n d k = record { distinct = k.distinct; below = k.below }

create_session-valid :
    (user : ℕ) (hash : Text) (expires at : ℕ) (l : ℕ → Bool) (n : ℕ) (d : Db) {s : Session}
    {d' : Db}
    → create_session user hash expires l n d ≡ (ok s, d')
    → at < expires
    → (get_valid_by_token_hash hash at d'.sessions ≡ ok s)
      × (s.user_id ≡ user)
      × (d'.users ≡ d.users)
unfolding create_session
create_session-valid user hash expires at l n d {s} {d'} e before =
    elim (Bool-cases (any (λ (u : UserRow). u.id == user) d.users)) [
      | inr missing ↦ absurd (let q = rw (create_session, missing) at e in cc)
      | inl there ↦
          let q = rw (create_session, there) at e in
          let (valid, own) =
            get_valid-create user hash expires d.next_id n at d.sessions (ap (λ p. p.0) q) before in
          (
            subst (λ (x : Db). get_valid_by_token_hash hash at x.sessions ≡ ok s) (ap (λ p. p.1) q)
                valid,
            own,
            sym (ap (λ p. p.1.users) q),
          )
    ]

-- A session of the user that is valid at the time, with the users as they were.
record Opened (h : AuthHandler) (at : ℕ) (c : Cookie) (user_id : ℕ) (old new : Db) : Type 0 where
  session : Session
  valid : get_valid_by_token_hash (h.hash_token c.value) at new.sessions ≡ ok session
  own : session.user_id ≡ user_id
  users : new.users ≡ old.users

module _ ⦃u : Unicode⦄ (env : Env) (h : AuthHandler) where
  abbrev HasCookie : Answer × World → Cookie → Type 0
  HasCookie result c = result.0.cookie ≡ some c

  signed_in-Opened :
      (user : User) (token : Text) (w : World) (expires at : ℕ) {c : Cookie} (r : Result Session)
      (w1 : World)
      → query env (create_session user.id (h.hash_token token) expires) w ≡ (r, w1)
      → at < expires
      → HasCookie (signed_in env h token (r, w1)) c
      → Opened h at c user.id w.db (signed_in env h token (r, w1)).1.db
  unfolding redirect_frontend set_session_cookie
  signed_in-Opened user token w expires at (err e) w1 q before p = absurd (cc)
  signed_in-Opened user token w expires at {c} (ok s) w1 q before p =
      let m = create_session user.id (h.hash_token token) expires in
      let (l, n, ran) = query-eq-ok env m w (ap (λ x. x.0) q) in
      let (valid, own, users) = create_session-valid user.id _ expires at l n w.db ran before in
      let same : set_session_cookie token h.cookie ≡ c = cc in
      let at_end = ap (λ x. x.1.db) q in
      record {
        session = s;
        valid =
            subst
              (λ (x : Cookie).
                get_valid_by_token_hash (h.hash_token x.value) at w1.db.sessions ≡ ok s)
              same
              (subst (λ (d : Db). get_valid_by_token_hash (h.hash_token token) at d.sessions ≡ ok s)
                at_end valid);
        own = own;
        users = ap (λ d. d.users) (sym at_end) ∙ users;
      }

  open_session-Opened :
      (user : User) (o : Option Text) (w : World) (at : ℕ) {c : Cookie}
      → at < add_duration w.now h.cookie.ttl
      → HasCookie (open_session env h user o w) c
      → Opened h at c user.id w.db (open_session env h user o w).1.db
  open_session-Opened user none w at before p = absurd (cc)
  open_session-Opened user (some token) w at before p =
      signed_in-Opened user token w (add_duration w.now h.cookie.ttl) at _ _ refl before p

  -- The session's user has GitHub's id.
  record Known (at : ℕ) (c : Cookie) (github_id : ℤ) (db : Db) : Type 0 where
    session : Session
    row : UserRow
    valid : get_valid_by_token_hash (h.hash_token c.value) at db.sessions ≡ ok session
    account : row_of session.user_id db.users ≡ some row
    is_user : row.github_user_id ≡ github_id

  with_account-Known :
      (g : ℤ) (login name avatar enc : Text) (w : World) (at : ℕ) {c : Cookie} (r : Result User)
      (w1 : World)
      → UsersKeyed w.db
      → query env (upsert_from_github g login name avatar enc) w ≡ (r, w1)
      → at < add_duration w1.now h.cookie.ttl
      → HasCookie (with_account env h (r, w1)) c
      → Known at c g (with_account env h (r, w1)).1.db
  with_account-Known g login name avatar enc w at (err e) w1 keyed q before p = absurd (cc)
  with_account-Known g login name avatar enc w at (ok user) w1 keyed q before p =
      let m = upsert_from_github g login name avatar enc in
      let (l, n, ran) = query-eq-ok env m w (ap (λ x. x.0) q) in
      let (row, stored) = upsert-IsStored g login name avatar enc l n w.db keyed ran in
      let o = open_session-Opened user (h.random_token w1.statements) w1 at before p in
      let users = o.users ∙ ap (λ x. x.1.db.users) (sym q) in
      record {
        session = o.session;
        row = row;
        valid = o.valid;
        account =
            subst (λ i. row_of i (with_account env h (ok user, w1)).1.db.users ≡ some row)
              (sym o.own) (subst (λ us. row_of user.id us ≡ some row) (sym users) stored.0);
        is_user = stored.2;
      }

  store_user-Known :
      (g : GithubUser) (o : Option Text) (w : World) (at : ℕ) {c : Cookie}
      → UsersKeyed w.db
      → at < add_duration w.now h.cookie.ttl
      → HasCookie (store_user env h g o w) c
      → Known at c g.id (store_user env h g o w).1.db
  store_user-Known g none w at keyed before p = absurd (cc)
  store_user-Known g (some enc) w at keyed before p =
      let name = if is_empty g.name then g.login else g.name in
      let m = upsert_from_github g.id g.login name g.avatar_url enc in
      let later = add_duration_mono w.now (query env m w).1.now h.cookie.ttl (now-query env m w) in
      with_account-Known g.id g.login name g.avatar_url enc w at _ _ keyed refl (omega arith) p

  with_profile-SignedIn :
      (code token : Text) (n k : ℕ) (r : Result GithubUser) (w : World) (at : ℕ) {c : Cookie}
      → h.exchange_code n code ≡ ok token
      → h.fetch_user k token ≡ r
      → UsersKeyed w.db
      → at < add_duration w.now h.cookie.ttl
      → HasCookie (with_profile env h token r w) c
      → SignedIn h code at c (with_profile env h token r w).1.db
  unfolding redirect_frontend
  with_profile-SignedIn code token n k (err e) w at ex fe keyed before p = absurd (cc)
  with_profile-SignedIn code token n k (ok g) w at ex fe keyed before p =
      let known = store_user-Known g (h.encrypt w.statements token) w at keyed before p in
      record {
        token = token;
        profile = g;
        session = known.session;
        row = known.row;
        exchanged_at = n;
        fetched_at = k;
        exchanged = ex;
        fetched = fe;
        valid = known.valid;
        account = known.account;
        is_user = known.is_user;
      }

  with_token-SignedIn :
      (code : Text) (n : ℕ) (r : Result Text) (w : World) (at : ℕ) {c : Cookie}
      → h.exchange_code n code ≡ r
      → UsersKeyed w.db
      → at < add_duration w.now h.cookie.ttl
      → HasCookie (with_token env h r w) c
      → SignedIn h code at c (with_token env h r w).1.db
  unfolding redirect_frontend
  with_token-SignedIn code n (err e) w at ex keyed before p = absurd (cc)
  with_token-SignedIn code n (ok token) w at ex keyed before p =
      with_profile-SignedIn code token n w.statements _ w at ex refl keyed before p

  with_state-SignedIn :
      (code : Text) (r : Result (Unit {0})) (w : World) (at : ℕ) {c : Cookie}
      → UsersKeyed w.db
      → at < add_duration w.now h.cookie.ttl
      → HasCookie (with_state env h code (r, w)) c
      → SignedIn h code at c (with_state env h code (r, w)).1.db
  unfolding redirect_frontend
  with_state-SignedIn code (err e) w at keyed before p = absurd (cc)
  with_state-SignedIn code (ok x) w at keyed before p =
      with_token-SignedIn code w.statements _ w at refl keyed before p

  -- A callback that answers with a cookie has signed in the user that GitHub named for its code. The
  -- cookie's session is valid from then on for as long as the configured time.
  pub callback-SignedIn :
      (q : Callback) (w : World) (at : ℕ) {c : Cookie}
      → UsersKeyed w.db
      → at < add_duration w.now h.cookie.ttl
      → (callback_github env h q w).0.cookie ≡ some c
      → SignedIn h q.code at c (callback_github env h q w).1.db
  unfolding callback_github redirect_frontend
  callback-SignedIn q w at keyed before p = elim (Bool-cases (not (is_empty q.error))) [
    | inl denied ↦ absurd (let e = rw denied at p in cc)
    | inr asked ↦ elim (Bool-cases (is_empty q.code || is_empty q.state)) [
      | inl bad ↦ absurd (let e = rw (asked, bad) at p in cc)
      | inr good ↦
          let m = consume_state (h.hash_token q.state) w.now in
          let later =
            add_duration_mono w.now (query env m w).1.now h.cookie.ttl (now-query env m w) in
          rw (asked, good)
            (with_state-SignedIn q.code _ _ at
              (query_keeps env m UsersKeyed (UsersKeyed-consume_state (h.hash_token q.state) w.now)
                w keyed)
              (omega arith) (rw (asked, good) at p))
    ]
  ]
