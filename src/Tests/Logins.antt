-- ===== src/Tests/Logins.antt =====
-- Runs of the login: its one-time states, and sessions.
use gitactionflow.Base.{◌≤◌, ◌≡◌, List, [], ◌∷◌, if◌then◌else◌}
use gitactionflow.Base.Text.{codes, text_eq}
use gitactionflow.Errors.{err}
use gitactionflow.Store.Common.{err_not_found}
use gitactionflow.Store.OauthStates.Once.{Op, begin, finish, uses, uses-le-one}
use gitactionflow.Store.Sessions.{
  Session, get_valid_by_token_hash, delete_by_token_hash, get_valid-delete_by_token_hash,
}

-- A state that is presented twice, and a third time after it was created again.
abbrev replayed : List Op
replayed =
    begin (codes "a") 9 1
    ∷ finish (codes "a") 2
    ∷ finish (codes "a") 3
    ∷ begin (codes "a") 9 4
    ∷ finish (codes "a") 5
    ∷ []

uses-le-one_example : uses (codes "a") replayed [] ≤ 1
uses-le-one_example = uses-le-one (codes "a") replayed

abbrev session : Session
session = record { id = 1; user_id = 2; token_hash = codes "t"; expires_at = 50; created_at = 0 }

get_valid-delete_by_token_hash_example :
    get_valid_by_token_hash (codes "t") 10 (delete_by_token_hash (codes "t") (session ∷ [])) ≡ (
      if text_eq (codes "t") (codes "t")
      then err err_not_found
      else get_valid_by_token_hash (codes "t") 10 (session ∷ []))
get_valid-delete_by_token_hash_example =
    get_valid-delete_by_token_hash (codes "t") (codes "t") 10 (session ∷ [])
