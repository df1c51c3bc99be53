-- ===== src/Base/Lists.antt =====
-- Lists measured by native numbers, and rows searched and updated by a Boolean test.
pub mod Selected
use Prim.Native.Nat.{ℕ, zero, suc, ◌+◌}
use mathlib.Core.Path.{◌≡◌, refl, ap, subst}
use mathlib.Core.Logic.{inl, inr}
use mathlib.Core.Bool.{Bool, true, false, ◌&&◌, ◌||◌}
use mathlib.Core.Option.{Option, none, some}
use mathlib.Core.List.{List, [], ◌∷◌, ◌++◌}
use native.Mathlib.Omega.{arith}
use gitactionflow.Base.Tests.{if◌then◌else◌, Bool-cases}

module _ {ℓ} {A : Type ℓ} where
  abbrev pub length : List A → ℕ
  length [] = 0
  length (x ∷ xs) = suc (length xs)

  abbrev pub is_empty : List A → Bool
  is_empty [] = true
  is_empty (x ∷ xs) = false

  abbrev pub take : ℕ → List A → List A
  take zero xs = []
  take (suc n) [] = []
  take (suc n) (x ∷ xs) = x ∷ take n xs

  abbrev pub drop : ℕ → List A → List A
  drop zero xs = xs
  drop (suc n) [] = []
  drop (suc n) (x ∷ xs) = drop n xs

  pub length-append : (xs ys : List A) → length (xs ++ ys) ≡ length xs + length ys
  length-append [] ys = omega arith
  length-append (x ∷ xs) ys = omega (arith, length-append xs ys)

module _ {ℓ} {A : Type ℓ} where
  -- The first row that passes the test.
  abbrev pub find : (A → Bool) → List A → Option A
  find p [] = none
  find p (x ∷ xs) = if p x then some x else find p xs

  -- `WHERE p`
  abbrev pub filter : (A → Bool) → List A → List A
  filter p [] = []
  filter p (x ∷ xs) = let rest = filter p xs in if p x then x ∷ rest else rest

  -- `UPDATE ... SET f WHERE p`
  abbrev pub modify : (A → Bool) → (A → A) → List A → List A
  modify p f [] = []
  modify p f (x ∷ xs) = (if p x then f x else x) ∷ modify p f xs

  insert_by : (A → A → Bool) → A → List A → List A
  insert_by before x [] = x ∷ []
  insert_by before x (y ∷ ys) =
      let rest = insert_by before x ys in if before y x then y ∷ rest else x ∷ y ∷ ys

  -- `ORDER BY`: of two rows, the one that comes before the other stands first.
  unfoldable pub sort_by : (A → A → Bool) → List A → List A
  unfolding insert_by
  sort_by before [] = []
  sort_by before (x ∷ xs) = insert_by before x (sort_by before xs)

  abbrev pub any : (A → Bool) → List A → Bool
  any p [] = false
  any p (x ∷ xs) = p x || any p xs

  abbrev pub all : (A → Bool) → List A → Bool
  all p [] = true
  all p (x ∷ xs) = p x && all p xs

  abbrev pub count : (A → Bool) → List A → ℕ
  count p [] = 0
  count p (x ∷ xs) = (if p x then 1 else 0) + count p xs

  abbrev pub All {κ} : (A → Type κ) → List A → Type κ
  All P [] = Unit
  All P (x ∷ xs) = P x × All P xs

module _ {ℓ κ} {A : Type ℓ} (P : A → Type κ) where
  pub All-append : (xs ys : List A) → All P xs → All P ys → All P (xs ++ ys)
  All-append [] ys hx hy = hy
  All-append (x ∷ xs) ys hx hy = (hx.0, All-append xs ys hx.1 hy)

  pub All-find : (p : A → Bool) (xs : List A) {x : A} → All P xs → find p xs ≡ some x → P x
  All-find p [] h e = absurd (cc)
  All-find p (x ∷ xs) h e = elim (Bool-cases (p x)) [
    | inl hit ↦ subst P (cc (rw hit at e)) h.0
    | inr miss ↦ All-find p xs h.1 (rw miss at e)
  ]

  pub All-filter : (p : A → Bool) (xs : List A) → All P xs → All P (filter p xs)
  All-filter p [] h = tt
  All-filter p (x ∷ xs) h = elim (Bool-cases (p x)) [
    | inl hit ↦ rw hit (h.0, All-filter p xs h.1)
    | inr miss ↦ rw miss (All-filter p xs h.1)
  ]

  -- Rows that pass the test may use that they do.
  pub All-modify :
      (p : A → Bool) (f : A → A)
      → ((x : A) → p x ≡ true → P x → P (f x))
      → (xs : List A) → All P xs
      → All P (modify p f xs)
  All-modify p f keep [] h = tt
  All-modify p f keep (x ∷ xs) h = elim (Bool-cases (p x)) [
    | inl hit ↦ rw hit (keep x hit h.0, All-modify p f keep xs h.1)
    | inr miss ↦ rw miss (h.0, All-modify p f keep xs h.1)
  ]

module _ {ℓ} {A : Type ℓ} where
  pub find_holds : (p : A → Bool) (xs : List A) {x : A} → find p xs ≡ some x → p x ≡ true
  find_holds p [] e = cc
  find_holds p (x ∷ xs) e = elim (Bool-cases (p x)) [
    | inl hit ↦ subst (λ y. p y ≡ true) (cc (rw hit at e)) hit
    | inr miss ↦ find_holds p xs (rw miss at e)
  ]

  pub modify-none : (p : A → Bool) (f : A → A) (xs : List A) → find p xs ≡ none → modify p f xs ≡ xs
  modify-none p f [] e = refl
  modify-none p f (x ∷ xs) e = elim (Bool-cases (p x)) [
    | inl hit ↦ cc (rw hit at e)
    | inr miss ↦ rw miss (ap (λ r. x ∷ r) (modify-none p f xs (rw miss at e)))
  ]

module _ {ℓ κ μ} {A : Type ℓ} where
  pub All-map :
      (P : A → Type κ) (Q : A → Type μ)
      → ((x : A) → P x → Q x)
      → (xs : List A) → All P xs
      → All Q xs
  All-map P Q f [] h = tt
  All-map P Q f (x ∷ xs) h = (f x h.0, All-map P Q f xs h.1)

module _ {ℓ κ} {A : Type ℓ} (P : A → Type κ) where
  All-insert_of :
      (before : A → A → Bool) (x : A) (ys : List A) → All P (insert_by before x ys) → P x × All P ys
  unfolding insert_by
  All-insert_of before x [] h = h
  All-insert_of before x (y ∷ ys) h = elim (Bool-cases (before y x)) [
    | inl b ↦ let g = rw b at h in let (p, q) = All-insert_of before x ys g.1 in (p, (g.0, q))
    | inr b ↦ let g = rw b at h in g
  ]

  -- What holds of the sorted rows holds of the rows.
  pub All-sort_of : (before : A → A → Bool) (xs : List A) → All P (sort_by before xs) → All P xs
  unfolding sort_by
  All-sort_of before [] h = tt
  All-sort_of before (x ∷ xs) h =
      let (p, q) = All-insert_of before x (sort_by before xs) h in (p, All-sort_of before xs q)

  -- What holds of the rows that pass a test.
  pub All-filter_of :
      (p : A → Bool) (xs : List A) → All P (filter p xs) → All (λ x. p x ≡ true → P x) xs
  All-filter_of p [] h = tt
  All-filter_of p (x ∷ xs) h = elim (Bool-cases (p x)) [
    | inl hit ↦ let g = rw hit at h in (λ _. g.0, All-filter_of p xs g.1)
    | inr miss ↦ (λ q. cc, All-filter_of p xs (rw miss at h))
  ]
