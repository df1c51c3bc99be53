-- ===== src/Githubapi/Decode.antt =====
-- The repositories of backend/internal/githubapi/client.go, as they are decoded from JSON.
use gitactionflow.Base.{Bool, false, Option, none, some, List, [], ◌∷◌}
use gitactionflow.Base.Int.{ℤ, pos}
use gitactionflow.Base.Text.{Text, codes, Unicode}
use gitactionflow.Json.{
  null, arr, Items, nil, cons, Fields, Raw, value, decode_field, string_value, bool_value,
  int_value, struct_value, as_struct, ◌>>=◌,
}

pub record Permissions : Type 0 where
  pub admin : Bool
  pub push : Bool
  pub pull : Bool

-- Repository, with its owner's login.
pub record Repository : Type 0 where
  pub id : ℤ
  pub name : Text
  pub full_name : Text
  pub is_private : Bool
  pub default_branch : Text
  pub html_url : Text
  pub owner_login : Text
  pub permissions : Permissions

abbrev pub no_permissions : Permissions
no_permissions = record { admin = false; push = false; pull = false }

abbrev pub no_repository : Repository
no_repository = record {
  id = pos 0;
  name = [];
  full_name = [];
  is_private = false;
  default_branch = [];
  html_url = [];
  owner_login = [];
  permissions = no_permissions;
}

module _ ⦃u : Unicode⦄ where
  decode_owner : Text → Fields → Option Text
  unfolding decode_field
  decode_owner old fs = decode_field (codes "login") string_value old fs

  decode_permissions : Permissions → Fields → Option Permissions
  unfolding decode_field
  decode_permissions old fs = do
    admin ← decode_field (codes "admin") bool_value old.admin fs
    push ← decode_field (codes "push") bool_value old.push fs
    pull ← decode_field (codes "pull") bool_value old.pull fs
    some (record { admin = admin; push = push; pull = pull })

  decode_fields : Fields → Option Repository
  unfolding decode_field decode_owner decode_permissions
  decode_fields fs = do
    id ← decode_field (codes "id") int_value (pos 0) fs
    name ← decode_field (codes "name") string_value [] fs
    full_name ← decode_field (codes "full_name") string_value [] fs
    is_private ← decode_field (codes "private") bool_value false fs
    default_branch ← decode_field (codes "default_branch") string_value [] fs
    html_url ← decode_field (codes "html_url") string_value [] fs
    owner ← decode_field (codes "owner") (struct_value decode_owner) [] fs
    permissions ←
        decode_field (codes "permissions") (struct_value decode_permissions) no_permissions fs
    some (record {
      id = id;
      name = name;
      full_name = full_name;
      is_private = is_private;
      default_branch = default_branch;
      html_url = html_url;
      owner_login = owner;
      permissions = permissions;
    })

  -- json.Unmarshal into a Repository.
  unfoldable pub decode_repository : Raw → Option Repository
  unfolding decode_fields
  decode_repository = as_struct decode_fields

  -- json.Unmarshal into a []Repository.
  decode_items : Items → Option (List Repository)
  unfolding decode_repository
  decode_items nil = some []
  decode_items (cons j rest) = do
    r ← decode_repository (value j)
    rs ← decode_items rest
    some (r ∷ rs)

  unfoldable pub decode_repositories : Raw → Option (List Repository)
  unfolding decode_items
  decode_repositories (value null) = some []
  decode_repositories (value (arr items)) = decode_items items
  decode_repositories _ = none
