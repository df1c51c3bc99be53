-- ===== src/Base/Text/Trim.antt =====
-- Trimming a text (strings.TrimSpace, and SQL's trim) twice, and in either order.
use mathlib.Core.Path.{◌≡◌, refl}
use mathlib.Core.Bool.{true, false}
use mathlib.Core.List.{[], ◌∷◌}
use native.Mathlib.Omega.{arith}
use gitactionflow.Base.Lists.{is_empty}
use gitactionflow.Base.Text.{
  Text, is_space, trim_left, trim_right, trim_space, trim_blanks_left, trim_blanks_right,
  trim_blanks,
}

trim_left_idem : (s : Text) → trim_left (trim_left s) ≡ trim_left s
unfolding trim_left
trim_left_idem [] = refl
trim_left_idem (c ∷ s) = ground (arith, trim_left_idem s)

trim_right_idem : (s : Text) → trim_right (trim_right s) ≡ trim_right s
unfolding trim_right
trim_right_idem [] = refl
trim_right_idem (c ∷ s) = ground (arith, trim_right_idem s)

-- `trim_right` uncovers no space at the left end.
trim_left-trim_right : (s : Text) → trim_left (trim_right (trim_left s)) ≡ trim_right (trim_left s)
unfolding trim_left trim_right
trim_left-trim_right [] = refl
trim_left-trim_right (c ∷ s) = ground (arith, trim_left-trim_right s)

pub trim_space_idem : (s : Text) → trim_space (trim_space s) ≡ trim_space s
unfolding trim_space
trim_space_idem s = rw trim_left-trim_right (trim_right_idem (trim_left s))

blank_right : (s : Text) → is_empty (trim_blanks_right s) ≡ true → is_empty (trim_right s) ≡ true
unfolding trim_blanks_right trim_right is_space
blank_right [] h = refl
blank_right (c ∷ s) h = let rest = blank_right s in ground arith

trim_left-trim_blanks_left : (s : Text) → trim_left (trim_blanks_left s) ≡ trim_left s
unfolding trim_blanks_left trim_left is_space
trim_left-trim_blanks_left [] = refl
trim_left-trim_blanks_left (c ∷ s) = let rest = trim_left-trim_blanks_left s in ground arith

blank_left :
    (s : Text) → is_empty (trim_right s) ≡ true → is_empty (trim_right (trim_left s)) ≡ true
unfolding trim_right trim_left
blank_left [] h = refl
blank_left (c ∷ s) h = let rest = blank_left s in ground arith

-- What is not blank for strings.TrimSpace is not blank for SQL's trim.
pub trim_blanks_visible :
    (s : Text) → is_empty (trim_space s) ≡ false → is_empty (trim_blanks s) ≡ false
unfolding trim_blanks trim_space
trim_blanks_visible s h =
    let b = blank_right (trim_blanks_left s) in
    let c = blank_left (trim_blanks_left s) in let d = trim_left-trim_blanks_left s in ground arith
