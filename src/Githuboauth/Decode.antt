-- ===== src/Githuboauth/Decode.antt =====
-- The answers that backend/internal/githuboauth/client.go decodes from JSON.
use gitactionflow.Base.{Option, some, []}
use gitactionflow.Base.Int.{ℤ, pos}
use gitactionflow.Base.Text.{Text, codes, Unicode}
use gitactionflow.Json.{Fields, Raw, decode_field, string_value, int_value, as_struct, ◌>>=◌}

pub record TokenResponse : Type 0 where
  pub access_token : Text
  pub token_type : Text
  pub scope : Text

pub record User : Type 0 where
  pub id : ℤ
  pub login : Text
  pub name : Text
  pub avatar_url : Text

module _ ⦃u : Unicode⦄ where
  token_fields : Fields → Option TokenResponse
  unfolding decode_field
  token_fields fs = do
    access_token ← decode_field (codes "access_token") string_value [] fs
    token_type ← decode_field (codes "token_type") string_value [] fs
    scope ← decode_field (codes "scope") string_value [] fs
    some (record { access_token = access_token; token_type = token_type; scope = scope })

  unfoldable pub decode_token : Raw → Option TokenResponse
  unfolding token_fields
  decode_token = as_struct token_fields

  user_fields : Fields → Option User
  unfolding decode_field
  user_fields fs = do
    id ← decode_field (codes "id") int_value (pos 0) fs
    login ← decode_field (codes "login") string_value [] fs
    name ← decode_field (codes "name") string_value [] fs
    avatar_url ← decode_field (codes "avatar_url") string_value [] fs
    some (record { id = id; login = login; name = name; avatar_url = avatar_url })

  unfoldable pub decode_user : Raw → Option User
  unfolding user_fields
  decode_user = as_struct user_fields
