-- ===== src/Reposervice/Admin.antt =====
-- When Connect (backend/internal/reposervice/service.go) connects a repository.
use gitactionflow.Base.{
  find, sym, subst, ap, refl, Option, none, some, Option-cases, is_empty, ℕ, ◌≡◌, Bool, true, any,
  ◌==◌, Bool-cases, inl, inr,
}
use gitactionflow.Base.Int.{ℤ, is_le_zero}
use gitactionflow.Base.Text.{Text}
use gitactionflow.Errors.{Result, ok, err, is, not_found}
use gitactionflow.Store.Rows.{Db, Repository, UserRow}
use gitactionflow.Store.Exec.{Env, World, query, attempt, lift}
use gitactionflow.Store.Exec.Inversion.{>>=-eq-ok, query-eq-ok, query_keeps}
use gitactionflow.Store.Repositories
use gitactionflow.Store.Common.{found}
use gitactionflow.Store.Users.{not_empty, get_encrypted_access_token}
use gitactionflow.Reposervice.{
  token_result, GithubRepository, Service, access_token, or_mapped, saved, with_repository,
  when_free, connect,
}

-- The token is what the encrypted token of the user's row decrypts to.
abbrev pub IsTokenOf : Service → ℕ → Db → Text → Type 0
IsTokenOf x user_id db token =
    (row : UserRow) × (find (λ r. r.id == user_id) db.users ≡ some row)
    × (x.decrypt x.token_key row.encrypted_token ≡ some token)

-- GitHub has said of the repository, asked with the user's token, that the user may administer it.
pub record Administers (db : Db) (x : Service) (repo_id : ℤ) (r : Repository) (user_id : ℕ)
    : Type 0 where
  pub token : Text
  pub own : IsTokenOf x user_id db token
  pub answer : GithubRepository
  pub answered : x.get_repository token repo_id ≡ ok answer
  pub admin : answer.admin ≡ true
  pub id : r.github_repository_id ≡ answer.id
  pub user : r.user_id ≡ user_id

or_mapped-eq-ok {ℓ} : {A : Type ℓ} (r : Result A) {a : A} → or_mapped r ≡ ok a → r ≡ ok a
or_mapped-eq-ok (ok b) h = h
or_mapped-eq-ok (err e) h = absurd (cc)

saved-eq-ok :
    (env : Env) (x : Service) (r : Result Repository) (w : World) {a : Repository} {w' : World}
    → saved env x r w ≡ (ok a, w')
    → r ≡ ok a
saved-eq-ok env x (ok b) w h = cc
saved-eq-ok env x (err e) w h = absurd (cc)

-- The row that GetEncryptedAccessToken read.
encrypted-eq-ok :
    (o : Option UserRow) {enc : Text}
    → found (not_empty o) ≡ ok enc
    → (row : UserRow) × (o ≡ some row) × (row.encrypted_token ≡ enc)
encrypted-eq-ok none h = absurd (cc)
encrypted-eq-ok (some row) h = elim (Bool-cases (is_empty row.encrypted_token)) [
  | inl blank ↦ absurd (let q = rw blank at h in cc)
  | inr given ↦ (row, refl, cc (rw given at h))
]

token_result-eq-ok :
    (env : Env) (x : Service) (user_id : ℕ) (db : Db) (r : Result Text) {token : Text}
    → ((enc : Text)
        → r ≡ ok enc
        → (row : UserRow) × (find (λ u. u.id == user_id) db.users ≡ some row)
          × (row.encrypted_token ≡ enc))
    → token_result env x r ≡ ok token
    → IsTokenOf x user_id db token
token_result-eq-ok env x user_id db (err e) row h = absurd (cc)
token_result-eq-ok env x user_id db (ok enc) {token} row h =
    let (r, at, same) = row enc refl in
    elim (Option-cases (x.decrypt x.token_key enc)) [
      | inl garbled ↦ absurd (let q = rw (garbled, token_result) at h in cc)
      | inr (t, plain) ↦
          let t_is : t ≡ token = cc (rw (plain, token_result) at h) in
          (
            r,
            at,
            subst (λ e. x.decrypt x.token_key e ≡ some token) (sym same)
                (subst (λ z. x.decrypt x.token_key enc ≡ some z) t_is plain),
          )
    ]

insert-eq-ok :
    (user_id : ℕ) (github_id : ℤ) (name full_name owner_login default_branch html_url : Text)
    (is_private : Bool) (locked : ℕ → Bool) (now : ℕ) (db : Db) {r : Repository} {db' : Db}
    → Repositories.insert user_id github_id name full_name owner_login default_branch html_url
        is_private locked now db
      ≡ (ok r, db')
    → (r.github_repository_id ≡ github_id) × (r.user_id ≡ user_id)
unfolding Repositories.insert
insert-eq-ok user_id github_id name full_name owner_login default_branch html_url is_private locked
      now db h =
    elim (Bool-cases (any (λ (x : Repository). x.user_id == user_id) db.repositories)) [
      | inl taken ↦ absurd (let q = rw taken at h in cc)
      | inr free ↦ elim (Bool-cases (any (λ (u : UserRow). u.id == user_id) db.users)) [
        | inl user ↦ row (rw (free, user) at h)
        | inr no_user ↦ absurd (let q = rw (free, no_user) at h in cc)
      ]
    ]
  where
    row :
        {a b : Repository} {d e : Db}
        → ◌≡◌ {A = Result Repository × Db} (ok a, d) (ok b, e)
        → (b.github_repository_id ≡ a.github_repository_id) × (b.user_id ≡ a.user_id)
    row q = (cc, cc)

access_token-IsTokenOf :
    (env : Env) (x : Service) (user_id : ℕ) (w : World) {token : Text}
    → (access_token env x user_id w).0 ≡ ok token
    → IsTokenOf x user_id w.db token
unfolding access_token get_encrypted_access_token
access_token-IsTokenOf env x user_id w h =
    let m = get_encrypted_access_token user_id in
    token_result-eq-ok env x user_id w.db (query env m w).0
      (λ enc got.
        let (locked, now, q) = query-eq-ok env m w got in encrypted-eq-ok _ (ap (λ p. p.0) q))
      h

module _ (env : Env) (x : Service) (user_id : ℕ) (repo_id : ℤ) where
  with_repository-Administers :
      (db : Db) (token : Text) (g : GithubRepository) (w : World) {r : Repository} {w' : World}
      → IsTokenOf x user_id db token
      → x.get_repository token repo_id ≡ ok g
      → with_repository env x user_id g w ≡ (ok r, w')
      → Administers db x repo_id r user_id
  with_repository-Administers db token g w {r} t a h = elim (Bool-cases g.admin) [
    | inr other ↦ absurd (let q = rw other at h in cc)
    | inl own ↦
        let m =
          Repositories.insert user_id g.id g.name g.full_name g.owner_login g.default_branch
            g.html_url g.is_private in
        let (res, e0, f0) = >>=-eq-ok (attempt (query env m)) (saved env x) w (rw own at h) in
        let stored = saved-eq-ok env x res _ f0 in
        let inner : (query env m w).0 ≡ ok r = cc in
        let (locked, now, q) = query-eq-ok env m w inner in
        let (i, v) =
          insert-eq-ok user_id g.id g.name g.full_name g.owner_login g.default_branch g.html_url
            g.is_private locked now w.db q in
        record { token = token; own = t; answer = g; answered = a; admin = own; id = i; user = v }
  ]

  when_free-Administers :
      (res : Result Repository) (w : World) {r : Repository} {w' : World}
      → when_free env x user_id repo_id res w ≡ (ok r, w')
      → Administers w.db x repo_id r user_id
  when_free-Administers (ok b) w h = absurd (cc)
  when_free-Administers (err e) w h = elim (Bool-cases (is e not_found)) [
    | inr other ↦ absurd (let q = rw other at h in cc)
    | inl missing ↦
        let (token, e0, f0) = >>=-eq-ok (access_token env x user_id) _ w (rw missing at h) in
        let (g, e1, f1) =
          >>=-eq-ok (lift (or_mapped (x.get_repository token repo_id)))
            (with_repository env x user_id) _ f0 in
        with_repository-Administers w.db token g _ (access_token-IsTokenOf env x user_id w e0)
          (or_mapped-eq-ok _ e1) f1
  ]

  -- Connect connects a repository only if GitHub, asked with the user's token, has said that the user
  -- may administer it; the row is the user's, and names the repository that GitHub answered.
  pub connect-Administers :
      (w : World) (r : Repository) (w' : World)
      → connect env x user_id repo_id w ≡ (ok r, w')
      → Administers w.db x repo_id r user_id
  unfolding connect Repositories.get_by_user_id
  connect-Administers w r w' h = elim (Bool-cases (is_le_zero repo_id)) [
    | inl bad ↦ absurd (let q = rw bad at h in cc)
    | inr good ↦
        let (res, e0, f0) =
          >>=-eq-ok (attempt (query env (Repositories.get_by_user_id user_id)))
            (when_free env x user_id repo_id) w (rw good at h) in
        let m = Repositories.get_by_user_id user_id in
        let kept : (query env m w).1.db ≡ w.db =
          query_keeps env m (λ d. d ≡ w.db) (λ l n d p. p) w refl in
        subst (λ d. Administers d x repo_id r user_id) kept (when_free-Administers res _ f0)
  ]
