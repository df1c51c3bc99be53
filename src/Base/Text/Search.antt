-- ===== src/Base/Text/Search.antt =====
-- Where a text occurs (strings.Contains), and membership in a list of texts.
use mathlib.Core.List.{Memᴰ, List, [], ◌∷◌, ◌++◌}
use mathlib.Core.Path.{◌≡◌, refl, ap}
use mathlib.Core.Logic.{◌↔◌, inl, inr}
use mathlib.Core.Bool.{true}
use native.Mathlib.Omega.{arith}
use gitactionflow.Base.Tests.{Bool-cases}
use gitactionflow.Base.Lists.{any, is_empty}
use gitactionflow.Base.Text.{Text, text_eq, text_eq_iff, contains, has_prefix}

-- `p` is a contiguous part of `s`.
abbrev pub Occurs : Text → Text → Type 0
Occurs p s = (before : Text) × (after : Text) × (s ≡ before ++ (p ++ after))

pub has_prefix-eq-true : (s p : Text) → has_prefix s p ≡ true → (rest : Text) × (s ≡ p ++ rest)
unfolding has_prefix
has_prefix-eq-true s [] h = (s, refl)
has_prefix-eq-true [] (d ∷ p) h = absurd (cc)
has_prefix-eq-true (c ∷ s) (d ∷ p) h =
    let (rest, e) = has_prefix-eq-true s p (ground arith) in
    let same : c ≡ d = ground arith in (rest, rw (same, e) refl)

has_prefix-append : (p rest : Text) → has_prefix (p ++ rest) p ≡ true
unfolding has_prefix
has_prefix-append [] rest = refl
has_prefix-append (c ∷ p) rest = ground (arith, has_prefix-append p rest)

pub contains-eq-true : (s p : Text) → contains s p ≡ true → Occurs p s
unfolding contains
contains-eq-true [] p h = let (rest, e) = has_prefix-eq-true [] p h in ([], rest, e)
contains-eq-true (c ∷ s) p h = elim (Bool-cases (has_prefix (c ∷ s) p)) [
  | inl here ↦ let (rest, e) = has_prefix-eq-true (c ∷ s) p here in ([], rest, e)
  | inr later ↦
      let (before, after, e) = contains-eq-true s p (rw later at h) in
      (c ∷ before, after, ap (λ r. c ∷ r) e)
]

pub contains-append : (before p after : Text) → contains (before ++ (p ++ after)) p ≡ true
unfolding contains
contains-append [] [] [] = refl
contains-append [] [] (d ∷ after) = refl
contains-append [] (c ∷ p) after = rw (has_prefix-append (c ∷ p) after) refl
contains-append (c ∷ before) p after = let rest = contains-append before p after in ground arith

pub is_empty_iff : (s : Text) → (is_empty s ≡ true) ↔ (s ≡ [])
is_empty_iff [] = ground arith
is_empty_iff (c ∷ s) = ground arith

pub any-text_eq-Memᴰ : (k : Text) (have : List Text) → any (text_eq k) have ≡ true → Memᴰ k have
any-text_eq-Memᴰ k [] h = absurd (cc)
any-text_eq-Memᴰ k (x ∷ xs) h = elim (Bool-cases (text_eq k x)) [
  | inl same ↦ Memᴰ.head ((text_eq_iff k x).0 same)
  | inr other ↦ Memᴰ.tail (any-text_eq-Memᴰ k xs (rw other at h))
]

pub Memᴰ-any-text_eq : (k : Text) (have : List Text) → Memᴰ k have → any (text_eq k) have ≡ true
Memᴰ-any-text_eq k [] m = elim m [ ]
Memᴰ-any-text_eq k (x ∷ xs) (Memᴰ.head e) = let p = (text_eq_iff k x).1 e in ground arith
Memᴰ-any-text_eq k (x ∷ xs) (Memᴰ.tail m) = let p = Memᴰ-any-text_eq k xs m in ground arith
