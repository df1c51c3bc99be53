-- ===== src/Store/Users.antt =====
-- backend/internal/store/users.go: the users, by the ids that GitHub gives them, and their encrypted
-- access tokens.
pub mod Upsert
use gitactionflow.Base.{
  ℕ, suc, Bool, Option, none, some, List, [], ◌∷◌, ◌++◌, ◌==◌, if◌then◌else◌, find, modify,
  is_empty,
}
use gitactionflow.Base.Int.{ℤ, int_eq}
use gitactionflow.Base.Text.{Text}
use gitactionflow.Errors.{ok}
use gitactionflow.Store.Rows.{Db, UserRow}
use gitactionflow.Store.Common.{found}
use gitactionflow.Store.Exec.{Statement}

-- auth.User: a row without its token.
pub record User : Type 0 where
  pub id : ℕ
  pub github_user_id : ℤ
  pub github_username : Text
  pub display_name : Text
  pub avatar_url : Text
  pub created_at : ℕ
  pub updated_at : ℕ

abbrev pub of_row : UserRow → User
of_row r = record {
  id = r.id;
  github_user_id = r.github_user_id;
  github_username = r.github_username;
  display_name = r.display_name;
  avatar_url = r.avatar_url;
  created_at = r.created_at;
  updated_at = r.updated_at;
}

abbrev pub has_github_id : ℤ → UserRow → Bool
has_github_id id r = int_eq r.github_user_id id

abbrev pub set_profile : Text → Text → Text → Text → ℕ → UserRow → UserRow
set_profile login name avatar_url encrypted now r = record r {
  github_username = login;
  display_name = name;
  avatar_url = avatar_url;
  encrypted_token = encrypted;
  updated_at = now;
}

abbrev pub new_user : ℤ → Text → Text → Text → Text → ℕ → ℕ → UserRow
new_user github_user_id login name avatar_url encrypted id now = record {
  id = id;
  github_user_id = github_user_id;
  github_username = login;
  display_name = name;
  avatar_url = avatar_url;
  encrypted_token = encrypted;
  created_at = now;
  updated_at = now;
}

-- UpsertFromGitHub. `github_user_id` is UNIQUE: a conflict updates the row.
unfoldable pub upsert_from_github : ℤ → (login name avatar_url encrypted : Text) → Statement User
upsert_from_github github_user_id login name avatar_url encrypted locked now db =
    let r = new_user github_user_id login name avatar_url encrypted db.next_id now in
    let set = set_profile login name avatar_url encrypted now in
    elim (find (has_github_id github_user_id) db.users) [
      | none ↦ (ok (of_row r), record db { users = db.users ++ r ∷ []; next_id = suc db.next_id })
      | some old ↦ (
        ok (of_row (set old)),
        record db { users = modify (has_github_id github_user_id) set db.users },
      )
    ]

abbrev pub map_user : Option UserRow → Option User
map_user none = none
map_user (some r) = some (of_row r)

-- GetByID
unfoldable pub get_by_id : ℕ → Statement User
get_by_id id locked now db = (found (map_user (find (λ r. r.id == id) db.users)), db)

abbrev pub not_empty : Option UserRow → Option Text
not_empty none = none
not_empty (some r) = if is_empty r.encrypted_token then none else some r.encrypted_token

-- GetEncryptedAccessToken
unfoldable pub get_encrypted_access_token : ℕ → Statement Text
get_encrypted_access_token id locked now db =
    (found (not_empty (find (λ r. r.id == id) db.users)), db)
