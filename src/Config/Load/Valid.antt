-- ===== src/Config/Load/Valid.antt =====
-- What Load (backend/internal/config/config.go) returns.
use gitactionflow.Base.Text.{Text}
use gitactionflow.Config.{Config}
