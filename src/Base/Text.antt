-- ===== src/Base/Text.antt =====
-- Go strings as lists of code points, and the functions of package strings that the program uses.
-- Every text of the program is taken to be valid UTF-8, so that ranging over runes and over bytes
-- find the same substrings.
pub mod Trim
pub mod Search
use Prim.Native.Char.{code}
use Prim.Native.Nat.{ℕ, zero, suc, ◌+◌, ◌-◌, ◌/◌, ◌%◌}
use Prim.Native.String.{String}
use mathlib.Core.Path.{◌≡◌, refl}
use mathlib.Core.Logic.{◌↔◌}
use mathlib.Core.Bool.{Bool, true, false, ◌&&◌, ◌||◌}
use mathlib.Core.List.{List, [], ◌∷◌, ◌++◌, map}
use mathlib.Core.Option.{Option, none, some}
use native.Mathlib.Omega.{arith}
use gitactionflow.Base.Tests.{◌==◌, leb, ltb, if◌then◌else◌}
use gitactionflow.Base.Lists.{is_empty, drop, length}

abbrev pub Text : Type 0
Text = List ℕ

-- The code points of a literal.
abbrev pub codes : String → Text
codes String.[] = []
codes (String.◌∷◌ c s) = code c ∷ codes s

unfoldable pub text_eq : Text → Text → Bool
text_eq [] [] = true
text_eq [] (d ∷ t) = false
text_eq (c ∷ s) [] = false
text_eq (c ∷ s) (d ∷ t) = (c == d) && text_eq s t

pub text_eq_iff : (s t : Text) → (text_eq s t ≡ true) ↔ (s ≡ t)
unfolding text_eq
text_eq_iff [] [] = ground arith
text_eq_iff [] (d ∷ t) = ground arith
text_eq_iff (c ∷ s) [] = ground arith
text_eq_iff (c ∷ s) (d ∷ t) = ground (arith, text_eq_iff s t)

pub text_eq_refl : (s : Text) → text_eq s s ≡ true
text_eq_refl s = (text_eq_iff s s).1 refl

-- unicode.IsSpace
unfoldable pub is_space : ℕ → Bool
is_space c =
    (leb 9 c && leb c 13)
    || c == 32
    || c == 0x85
    || c == 0xA0
    || c == 0x1680
    || (leb 0x2000 c && leb c 0x200A)
    || c == 0x2028
    || c == 0x2029
    || c == 0x202F
    || c == 0x205F
    || c == 0x3000

unfoldable pub trim_left : Text → Text
trim_left [] = []
trim_left (c ∷ s) = let rest = trim_left s in if is_space c then rest else c ∷ s

unfoldable pub trim_right : Text → Text
trim_right [] = []
trim_right (c ∷ s) = let rest = trim_right s in if is_space c && is_empty rest then [] else c ∷ rest

-- strings.TrimRight, with one character as its cutset.
unfoldable pub trim_right_of : ℕ → Text → Text
trim_right_of d [] = []
trim_right_of d (c ∷ s) =
    let rest = trim_right_of d s in if (c == d) && is_empty rest then [] else c ∷ rest

-- strings.TrimSpace
unfoldable pub trim_space : Text → Text
unfolding trim_left trim_right is_space
trim_space s = trim_right (trim_left s)

-- strings.HasPrefix
unfoldable pub has_prefix : Text → Text → Bool
has_prefix s [] = true
has_prefix [] (d ∷ p) = false
has_prefix (c ∷ s) (d ∷ p) = (c == d) && has_prefix s p

-- strings.TrimPrefix
unfoldable pub trim_prefix : Text → Text → Text
unfolding has_prefix
trim_prefix s p = if has_prefix s p then drop (length p) s else s

-- strings.Contains
unfoldable pub contains : Text → Text → Bool
unfolding has_prefix
contains [] p = has_prefix [] p
contains (c ∷ s) p = has_prefix (c ∷ s) p || contains s p

-- The tables of package unicode: unicode.ToLower, and whether two runes are equal under simple
-- case folding.
pub record Unicode : Type 0 where
  pub lower : ℕ → ℕ
  pub fold : ℕ → ℕ → Bool

-- strings.ToLower
abbrev pub to_lower : ⦃u : Unicode⦄ → Text → Text
to_lower ⦃u⦄ s = map u.lower s

-- strings.EqualFold
unfoldable pub equal_fold : ⦃u : Unicode⦄ → Text → Text → Bool
equal_fold [] [] = true
equal_fold [] (d ∷ t) = false
equal_fold (c ∷ s) [] = false
equal_fold ⦃u⦄ (c ∷ s) (d ∷ t) = u.fold c d && equal_fold s t

-- strings.ReplaceAll: `skip` counts the code points of a match that are still to be passed over.
replace_from : ℕ → Text → Text → Text → Text
replace_from skip old new [] = []
replace_from (suc skip) old new (c ∷ s) = replace_from skip old new s
replace_from zero old new (c ∷ s) =
    let match = new ++ replace_from (length old - 1) old new s in
    let rest = c ∷ replace_from zero old new s in if has_prefix (c ∷ s) old then match else rest

unfoldable pub replace_all : Text → Text → Text → Text
unfolding replace_from has_prefix
replace_all s old new = replace_from zero old new s

-- How many bytes a code point takes in UTF-8, and a text.
abbrev pub rune_len : ℕ → ℕ
rune_len c = if ltb c 0x80 then 1 else if ltb c 0x800 then 2 else if ltb c 0x10000 then 3 else 4

abbrev pub byte_len : Text → ℕ
byte_len [] = 0
byte_len (c ∷ s) = rune_len c + byte_len s

-- `s[:n]`, which counts bytes: `none` if the cut falls inside a code point, so that the result is
-- not valid UTF-8.
unfoldable pub cut_bytes : ℕ → Text → Option Text
cut_bytes n [] = some []
cut_bytes n (c ∷ s) = elim (cut_bytes (n - rune_len c) s) [
  | none ↦ if n == 0 then some [] else none
  | some t ↦ if n == 0 then some [] else if leb (rune_len c) n then some (c ∷ t) else none
]

-- `s[:n]` as it is read back: the bytes of a code point that the cut splits each become U+FFFD when
-- the text is next encoded.
abbrev replacements : ℕ → Text
replacements zero = []
replacements (suc n) = 0xFFFD ∷ replacements n

unfoldable pub cut_replace : ℕ → Text → Text
cut_replace n [] = []
cut_replace n (c ∷ s) =
    let rest = cut_replace (n - rune_len c) s in
    if leb (rune_len c) n then c ∷ rest else replacements n

digits_from : ℕ → ℕ → Text → Text
digits_from zero n acc = acc
digits_from (suc fuel) n acc =
    let more = digits_from fuel (n / 10) ((48 + n % 10) ∷ acc) in
    if ltb n 10 then (48 + n) ∷ acc else more

-- `%d`
unfoldable pub decimal : ℕ → Text
unfolding digits_from
decimal n = digits_from (suc n) n []

-- SQL's trim(), which strips blanks only.
unfoldable pub trim_blanks_left : Text → Text
trim_blanks_left [] = []
trim_blanks_left (c ∷ s) = let rest = trim_blanks_left s in if c == 32 then rest else c ∷ s

unfoldable pub trim_blanks_right : Text → Text
trim_blanks_right [] = []
trim_blanks_right (c ∷ s) =
    let rest = trim_blanks_right s in if (c == 32) && is_empty rest then [] else c ∷ rest

unfoldable pub trim_blanks : Text → Text
unfolding trim_blanks_left trim_blanks_right
trim_blanks s = trim_blanks_right (trim_blanks_left s)
