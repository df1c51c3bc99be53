-- ===== src/Base/Numeral.antt =====
-- What the program uses of package strconv: Atoi and ParseInt in base 10, and ParseBool; and the
-- arithmetic of a 64-bit `int`.
use Prim.Native.Nat.{ℕ, ◌+◌, ◌-◌, ◌*◌, ◌^◌, ◌%◌}
use mathlib.Core.Bool.{Bool, true, false, ◌&&◌}
use mathlib.Core.List.{[], ◌∷◌}
use mathlib.Core.Option.{Option, none, some}
use gitactionflow.Base.Tests.{◌==◌, leb, ltb, if◌then◌else◌}
use gitactionflow.Base.Lists.{any}
use gitactionflow.Base.Int.{ℤ, pos, negsuc}
use gitactionflow.Base.Text.{Text, codes, text_eq}

unfoldable pub digits_value : ℕ → Text → Option ℕ
digits_value acc [] = some acc
digits_value acc (c ∷ s) =
    let rest = digits_value (acc * 10 + (c - 48)) s in if leb 48 c && leb c 57 then rest else none

abbrev in_int64 : Bool → ℕ → Option ℤ
in_int64 false n = if ltb n (2 ^ 63) then some (pos n) else none
in_int64 true n =
    if n == 0 then some (pos 0) else if leb n (2 ^ 63) then some (negsuc (n - 1)) else none

abbrev signed : Bool → Text → Option ℤ
signed negative [] = none
signed negative (c ∷ s) = elim (digits_value 0 (c ∷ s)) [
  | none ↦ none
  | some n ↦ in_int64 negative n
]

-- strconv.Atoi, and strconv.ParseInt(s, 10, 64): an optional sign, digits, and the range of int64.
unfoldable pub atoi : Text → Option ℤ
unfolding digits_value
atoi [] = none
atoi (c ∷ s) =
    if c == b'-' then signed true s else if c == b'+' then signed false s else signed false (c ∷ s)

-- strconv.ParseBool
unfoldable pub parse_bool : Text → Option Bool
parse_bool s =
    if any (text_eq s)
      (codes "1" ∷ codes "t" ∷ codes "T" ∷ codes "TRUE" ∷ codes "true" ∷ codes "True" ∷ [])
    then some true
    else if any (text_eq s)
        (codes "0" ∷ codes "f" ∷ codes "F" ∷ codes "FALSE" ∷ codes "false" ∷ codes "False" ∷ [])
    then some false
    else none

-- A number as a 64-bit `int`, which wraps around.
unfoldable pub wrap64 : ℕ → ℤ
wrap64 n = let m = n % 2 ^ 64 in if ltb m (2 ^ 63) then pos m else negsuc (2 ^ 64 - m - 1)
