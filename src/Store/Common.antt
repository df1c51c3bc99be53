-- ===== src/Store/Common.antt =====
-- What the stores share: their errors, a row or `ErrNotFound`, and the tests that the WHERE clauses
-- of both queues have in common.
use gitactionflow.Base.{ℕ, Bool, true, Option, none, some, leb, ltb, if◌then◌else◌}
use gitactionflow.Base.Int.{ℤ, pos_part, is_le_zero}
use gitactionflow.Base.Text.{codes}
use gitactionflow.Errors.{Error, Result, ok, err, not_found, conflict, other}

-- The errors of the package: `ErrNotFound`, `ErrConflict`, and any other.
abbrev pub err_not_found : Error
err_not_found = record { kind = not_found; message = codes "not found" }

abbrev pub err_conflict : Error
err_conflict = record { kind = conflict; message = codes "conflict" }

abbrev pub err_other : Error
err_other = record { kind = other; message = codes "database error" }

-- pgx.ErrNoRows becomes ErrNotFound.
abbrev pub found {ℓ} : {A : Type ℓ} → Option A → Result A
found none = err err_not_found
found (some a) = ok a

-- `next_retry_at IS NULL OR next_retry_at <= NOW()`
abbrev pub is_due : Option ℕ → ℕ → Bool
is_due none now = true
is_due (some t) now = leb t now

-- The `limit` of a page: 20 if it is not positive, and at most 100.
abbrev pub clamp_limit : ℤ → ℕ
clamp_limit limit =
    if is_le_zero limit then 20 else if ltb 100 (pos_part limit) then 100 else pos_part limit
