-- ===== src/Store/Users/Upsert.antt =====
-- What UpsertFromGitHub (backend/internal/store/users.go) leaves in the table of users.
use gitactionflow.Base.{
  ℕ, suc, ◌≡◌, refl, ap, subst, Bool, true, Option, some, List, [], ◌∷◌, ◌++◌, ◌==◌, ==_refl, find,
  modify, Option-cases, inl, inr, arith, find_holds,
}
use gitactionflow.Base.Int.{ℤ, int_eq_iff}
use gitactionflow.Base.Text.{Text}
use gitactionflow.Base.Table.{find-modify, Distinct, Below, find-Memᴰ, find_key}
use gitactionflow.Errors.{Result, ok}
use gitactionflow.Store.Rows.{Db, UserRow}
use gitactionflow.Store.Users.{
  User, new_user, of_row, has_github_id, set_profile, upsert_from_github,
}

abbrev pub user_id : UserRow → ℕ
user_id r = r.id

-- The ids of users are keys, and the next id is new.
pub record UsersKeyed (db : Db) : Type 0 where
  pub distinct : Distinct user_id db.users
  pub below : Below user_id db.next_id db.users

-- The row of an id in the table.
abbrev pub row_of : ℕ → List UserRow → Option UserRow
row_of id users = find (λ r. r.id == id) users

row_of-append :
    (r : UserRow) (users : List UserRow)
    → Below user_id r.id users
    → row_of r.id (users ++ r ∷ []) ≡ some r
row_of-append r [] b = rw (==_refl r.id) refl
row_of-append r (x ∷ xs) b = let rest = row_of-append r xs b.1 in ground arith

row_of-modify :
    (p : UserRow → Bool) (f : UserRow → UserRow) (id : ℕ)
    → ((x : UserRow) → (f x).id ≡ x.id)
    → (users : List UserRow) {r : UserRow} → row_of id users ≡ some r
    → p r ≡ true
    → row_of id (modify p f users) ≡ some (f r)
row_of-modify p f id same users {r} e h =
    let at = find-modify user_id id p f same users e in rw h at at

module _ (g : ℤ) (login name avatar enc : Text) where
  -- The user that is returned has this row.
  abbrev pub IsStored : User → Db → UserRow → Type 0
  IsStored u db r =
      (row_of u.id db.users ≡ some r)
      × (of_row r ≡ u)
      × (r.github_user_id ≡ g)
      × (r.encrypted_token ≡ enc)

  returned :
      (r : UserRow) (d : Db) {u : User} {db' : Db}
      → row_of r.id d.users ≡ some r
      → r.github_user_id ≡ g
      → r.encrypted_token ≡ enc
      → ◌≡◌ {A = Result User × Db} (ok (of_row r), d) (ok u, db')
      → (x : UserRow) × IsStored u db' x
  returned r d {u} {db'} at own token e =
      let user : of_row r ≡ u = cc in
      let same : d ≡ db' = ap (λ p. p.1) e in
      (
        r,
        (
          subst (λ (x : User). row_of x.id db'.users ≡ some r) user
              (subst (λ (x : Db). row_of r.id x.users ≡ some r) same at),
          user,
          own,
          token,
        ),
      )

  -- The row of the user that UpsertFromGitHub returns is in the table, and is GitHub's user.
  pub upsert-IsStored :
      (l : ℕ → Bool) (n : ℕ) (db : Db) {u : User} {db' : Db}
      → UsersKeyed db
      → upsert_from_github g login name avatar enc l n db ≡ (ok u, db')
      → (r : UserRow) × IsStored u db' r
  unfolding upsert_from_github
  upsert-IsStored l n db keyed e = elim (Option-cases (find (has_github_id g) db.users)) [
    | inl fresh ↦
        let r = new_user g login name avatar enc db.next_id n in
        returned r (record db { users = db.users ++ r ∷ []; next_id = suc db.next_id })
          (row_of-append r db.users keyed.below) refl refl (rw (upsert_from_github, fresh) at e)
    | inr (old, hit) ↦
        let set = set_profile login name avatar enc n in
        let mine = find_holds (has_github_id g) db.users hit in
        let there =
          find_key user_id old db.users keyed.distinct (find-Memᴰ (has_github_id g) db.users hit) in
        returned (set old) (record db { users = modify (has_github_id g) set db.users })
          (row_of-modify (has_github_id g) set old.id (λ x. refl) db.users there mine)
          ((int_eq_iff old.github_user_id g).0 mine) refl (rw (upsert_from_github, hit) at e)
  ]
