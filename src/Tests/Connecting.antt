-- ===== src/Tests/Connecting.antt =====
-- A run of the repository service: a user connects a repository.
use gitactionflow.Base.{◌≡◌, refl, true, false, some, [], ◌∷◌}
use gitactionflow.Base.Int.{pos}
use gitactionflow.Base.Text.{codes}
use gitactionflow.Errors.{ok, is}
use gitactionflow.Store.Rows.{Repository}
use gitactionflow.Store.Exec.{World, query}
use gitactionflow.Store.Repositories.{get_by_user_id, insert}
use gitactionflow.Store.Users.{get_encrypted_access_token}
use gitactionflow.Reposervice.{GithubRepository, Service, connect}
use gitactionflow.Reposervice.Admin.{Administers, connect-Administers}
use gitactionflow.Tests.Samples.{quiet, connected, world_of}

abbrev listed : GithubRepository
listed = record {
  id = pos 77;
  name = codes "r";
  full_name = codes "o/r";
  is_private = false;
  default_branch = codes "main";
  html_url = [];
  owner_login = codes "o";
  admin = true;
}

abbrev service : Service
service = record {
  list_repositories = λ token. ok (listed ∷ []);
  get_repository = λ token id. ok listed;
  token_key = [];
  decrypt = λ key enc. some enc;
}

abbrev start : World
start = world_of (record connected { repositories = [] })

abbrev row : Repository
row = record {
  id = 5;
  user_id = 2;
  github_repository_id = pos 77;
  name = codes "r";
  full_name = codes "o/r";
  owner_login = codes "o";
  default_branch = codes "main";
  html_url = [];
  is_private = false;
  created_at = 103;
  updated_at = 103;
}

connects :
    connect quiet service 2 (pos 77) start ≡ (ok row, (connect quiet service 2 (pos 77) start).1)
unfolding connect query get_by_user_id insert get_encrypted_access_token is
connects = refl

connect-Administers_example : Administers start.db service (pos 77) row 2
connect-Administers_example =
    connect-Administers quiet service 2 (pos 77) start row
      (connect quiet service 2 (pos 77) start).1 connects
