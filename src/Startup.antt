-- ===== src/Startup.antt =====
-- What the program decides when it starts: the driver's URL for the migrations
-- (backend/internal/database/migrate.go) and the level of the log (backend/internal/logging/logging.go).
use gitactionflow.Base.{◌++◌, if◌then◌else◌}
use gitactionflow.Base.Text.{
  Text, codes, text_eq, has_prefix, trim_prefix, trim_space, Unicode, to_lower,
}

-- rewriteMigrateURL
unfoldable pub rewrite_migrate_url : Text → Text
rewrite_migrate_url url =
    if has_prefix url (codes "postgres://")
    then codes "pgx5://" ++ trim_prefix url (codes "postgres://")
    else if has_prefix url (codes "postgresql://")
    then codes "pgx5://" ++ trim_prefix url (codes "postgresql://")
    else url

pub data Level : Type 0 where
  debug info warn error : Level

-- parseLevel
unfoldable pub parse_level : ⦃u : Unicode⦄ → Text → Level
parse_level level =
    let s = to_lower (trim_space level) in
    if text_eq s (codes "debug")
    then debug
    else if text_eq s (codes "warn")
    then warn
    else if text_eq s (codes "error")
    then error
    else info
