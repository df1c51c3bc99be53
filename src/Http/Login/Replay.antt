-- ===== src/Http/Login/Replay.antt =====
-- A callback of the OAuth login (backend/internal/http/handlers/auth.go) that is presented again.
use gitactionflow.Base.{
  ℕ, ◌≤◌, ◌≡◌, refl, sym, subst, ap, ◌∙◌, Bool, true, ◌||◌, not, Option, none, some, List, [], ◌∷◌,
  find, modify, is_empty, Bool-cases, Option-cases, inl, inr, arith, if◌then◌else◌,
}
use gitactionflow.Base.Int.{ℤ}
use gitactionflow.Base.Text.{Text, Unicode}
use gitactionflow.Errors.{Result, ok, err, is_ok}
use gitactionflow.Store.Rows.{Db}
use gitactionflow.Store.Common.{err_not_found}
use gitactionflow.Store.Exec.{Env, World, query}
use gitactionflow.Store.Exec.Inversion.{query-eq-ok, query_keeps}
use gitactionflow.Store.OauthStates.{State, is_usable, use_up, consume}
use gitactionflow.Store.Sessions.{Session}
use gitactionflow.Store.Users.{User, upsert_from_github}
use gitactionflow.Store.Logins.{consume_state, create_session}
use gitactionflow.Http.Cookie.{Cookie}
use gitactionflow.Http.Login.{
  AuthHandler, Answer, Callback, GithubUser, callback_github, redirect_frontend, with_state,
  with_token, with_profile, store_user, with_account, open_session, signed_in, add_duration,
}

-- No state with this hash can be consumed at the time.
abbrev pub IsSpent : Text → ℕ → Db → Type 0
IsSpent hash t db = find (is_usable hash t) db.oauth_states ≡ none

spent_states :
    (hash : Text) (t t' : ℕ)
    → t ≤ t'
    → (states : List State)
    → find (is_usable hash t') (modify (is_usable hash t) (use_up t) states) ≡ none
spent_states hash t t' le [] = refl
spent_states hash t t' le (s ∷ ss) = let rest = spent_states hash t t' le ss in ground arith

-- The statements after Consume leave the states alone.
states-create_session :
    (user : ℕ) (hash : Text) (t : ℕ) (l : ℕ → Bool) (n : ℕ) (d : Db)
    → (create_session user hash t l n d).1.oauth_states ≡ d.oauth_states
unfolding create_session
states-create_session user hash t l n d = ground arith

states-upsert :
    (g : ℤ) (login name avatar enc : Text) (l : ℕ → Bool) (n : ℕ) (d : Db)
    → (upsert_from_github g login name avatar enc l n d).1.oauth_states ≡ d.oauth_states
unfolding upsert_from_github
states-upsert g login name avatar enc l n d = ground arith

abbrev Same : World → Answer × World → Type 0
Same w result = result.1.db.oauth_states ≡ w.db.oauth_states

module _ ⦃u : Unicode⦄ (env : Env) (h : AuthHandler) where
  signed_in-Same : (token : Text) (r : Result Session × World) → Same r.1 (signed_in env h token r)
  signed_in-Same token (ok s, w) = refl
  signed_in-Same token (err e, w) = refl

  open_session-Same :
      (user : User) (o : Option Text) (w : World) → Same w (open_session env h user o w)
  open_session-Same user none w = refl
  open_session-Same user (some token) w =
      let m = create_session user.id (h.hash_token token) (add_duration w.now h.cookie.ttl) in
      signed_in-Same token (query env m w)
      ∙ query_keeps env m (λ d. d.oauth_states ≡ w.db.oauth_states)
          (λ l n d p. states-create_session _ _ _ l n d ∙ p) w refl

  with_account-Same : (r : Result User × World) → Same r.1 (with_account env h r)
  with_account-Same (ok user, w) = open_session-Same user (h.random_token w.statements) w
  with_account-Same (err e, w) = refl

  store_user-Same : (g : GithubUser) (o : Option Text) (w : World) → Same w (store_user env h g o w)
  store_user-Same g none w = refl
  store_user-Same g (some encrypted) w =
      let m =
        upsert_from_github g.id g.login (if is_empty g.name then g.login else g.name) g.avatar_url
          encrypted in
      with_account-Same (query env m w)
      ∙ query_keeps env m (λ d. d.oauth_states ≡ w.db.oauth_states)
          (λ l n d p. states-upsert _ _ _ _ _ l n d ∙ p) w refl

  with_profile-Same :
      (token : Text) (r : Result GithubUser) (w : World) → Same w (with_profile env h token r w)
  with_profile-Same token (ok g) w = store_user-Same g (h.encrypt w.statements token) w
  with_profile-Same token (err e) w = refl

  with_token-Same : (r : Result Text) (w : World) → Same w (with_token env h r w)
  with_token-Same (ok token) w = with_profile-Same token (h.fetch_user w.statements token) w
  with_token-Same (err e) w = refl

  -- What a statement that consumes a state says of it.
  consumed :
      (hash : Text) (t : ℕ) (states : List State)
      → is_ok (consume hash t states).0 ≡ true
      → (consume hash t states).1 ≡ modify (is_usable hash t) (use_up t) states
  unfolding consume
  consumed hash t states e = elim (Option-cases (find (is_usable hash t) states)) [
    | inl miss ↦ absurd (let q = rw (consume, miss) at e in cc)
    | inr (s, hit) ↦ rw (consume, hit) refl
  ]

  with_state-spends :
      (code hash : Text) (t' : ℕ) (w : World) {c : Cookie}
      → w.now ≤ t'
      → (r : Result (Unit {0})) (w1 : World) → query env (consume_state hash w.now) w ≡ (r, w1)
      → (with_state env h code (r, w1)).0.cookie ≡ some c
      → IsSpent hash t' (with_state env h code (r, w1)).1.db
  unfolding consume_state redirect_frontend
  with_state-spends code hash t' w le (err e) w1 q p = absurd (cc)
  with_state-spends code hash t' w le (ok x) w1 q p =
      let (l, n, ran) = query-eq-ok env (consume_state hash w.now) w (ap (λ x. x.0) q) in
      let after : w1.db.oauth_states
          ≡ modify (is_usable hash w.now) (use_up w.now) w.db.oauth_states =
        ap (λ x. x.1.db.oauth_states) (sym q)
        ∙ sym (ap (λ x. x.1.oauth_states) ran)
        ∙ consumed hash w.now w.db.oauth_states (ap (λ x. is_ok x.0) ran) in
      subst (λ states. find (is_usable hash t') states ≡ none)
        (sym (with_token-Same (h.exchange_code w1.statements code) w1 ∙ after))
        (spent_states hash w.now t' le w.db.oauth_states)

  -- A callback that answers with a session has spent its state.
  callback-spends :
      (q : Callback) (t' : ℕ) (w : World) {c : Cookie}
      → w.now ≤ t'
      → (callback_github env h q w).0.cookie ≡ some c
      → IsSpent (h.hash_token q.state) t' (callback_github env h q w).1.db
  unfolding callback_github redirect_frontend
  callback-spends q t' w le p = elim (Bool-cases (not (is_empty q.error))) [
    | inl denied ↦ absurd (let e = rw denied at p in cc)
    | inr asked ↦ elim (Bool-cases (is_empty q.code || is_empty q.state)) [
      | inl bad ↦ absurd (let e = rw (asked, bad) at p in cc)
      | inr good ↦
          rw (asked, good)
            (with_state-spends q.code (h.hash_token q.state) t' w le _ _ refl
              (rw (asked, good) at p))
    ]
  ]

  not_consumed :
      (hash : Text) (t : ℕ) (states : List State)
      → find (is_usable hash t) states ≡ none
      → consume hash t states ≡ (err err_not_found, states)
  unfolding consume
  not_consumed hash t states e = rw (consume, e) refl

  unconsumed :
      (hash : Text) (t : ℕ) (l : ℕ → Bool) (n : ℕ) (d : Db)
      → IsSpent hash t d
      → (consume_state hash t l n d).1 ≡ d
  unfolding consume_state
  unconsumed hash t l n d spent = rw (consume_state, not_consumed hash t d.oauth_states spent) refl

  -- The callback answers without a session, and the database is as it was.
  abbrev pub NoLogin : World → Answer × World → Type 0
  NoLogin w result = (result.0.cookie ≡ none) × (result.1.db ≡ w.db)

  with_state-NoLogin :
      (code hash : Text) (w : World) (r : Result (Unit {0})) (w1 : World)
      → IsSpent hash w.now w.db
      → query env (consume_state hash w.now) w ≡ (r, w1)
      → w1.db ≡ w.db
      → NoLogin w (with_state env h code (r, w1))
  unfolding redirect_frontend consume_state
  with_state-NoLogin code hash w (err e) w1 spent q kept = (refl, kept)
  with_state-NoLogin code hash w (ok x) w1 spent q kept =
      let (l, n, ran) = query-eq-ok env (consume_state hash w.now) w (ap (λ x. x.0) q) in
      absurd (
        let e = not_consumed hash w.now w.db.oauth_states spent in
        let f : (consume hash w.now w.db.oauth_states).0 ≡ ok x = ap (λ x. x.0) ran in cc)

  callback-NoLogin :
      (q : Callback) (w : World)
      → IsSpent (h.hash_token q.state) w.now w.db
      → NoLogin w (callback_github env h q w)
  unfolding callback_github redirect_frontend
  callback-NoLogin q w spent = elim (Bool-cases (not (is_empty q.error))) [
    | inl denied ↦ rw denied (refl, refl)
    | inr asked ↦ elim (Bool-cases (is_empty q.code || is_empty q.state)) [
      | inl bad ↦ rw (asked, bad) (refl, refl)
      | inr good ↦
          let m = consume_state (h.hash_token q.state) w.now in
          rw (asked, good)
            (with_state-NoLogin q.code (h.hash_token q.state) w _ _ spent refl (
              query_keeps env m (λ d. d ≡ w.db)
                (λ l n d e.
                  unconsumed _ _ l n d (subst (IsSpent (h.hash_token q.state) w.now) (sym e) spent)
                  ∙ e)
                w refl))
    ]
  ]

-- A callback whose state has already been used to log in answers without a session and leaves the
-- database as it is: at any later time, with any code, and in any process, as long as the table of
-- states is as the login left it.
pub callback-replay :
    ⦃u : Unicode⦄ (env env' : Env) (h : AuthHandler) (q q' : Callback) (w w' : World) {c : Cookie}
    → (callback_github env h q w).0.cookie ≡ some c
    → q'.state ≡ q.state
    → w'.db.oauth_states ≡ (callback_github env h q w).1.db.oauth_states
    → w.now ≤ w'.now
    → NoLogin env' h w' (callback_github env' h q' w')
callback-replay env env' h q q' w w' signed same states le =
    let spent = callback-spends env h q w'.now w le signed in
    callback-NoLogin env' h q' w' (
      subst (λ (s : Text). find (is_usable (h.hash_token s) w'.now) w'.db.oauth_states ≡ none)
        (sym same)
        (subst (λ states. find (is_usable (h.hash_token q.state) w'.now) states ≡ none) (sym states)
          spent))
