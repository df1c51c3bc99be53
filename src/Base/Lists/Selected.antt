-- ===== src/Base/Lists/Selected.antt =====
-- The rows of a SELECT with WHERE, ORDER BY, OFFSET and LIMIT.
use Prim.Native.Nat.{ℕ, zero, suc, ◌≤◌}
use mathlib.Core.Path.{◌≡◌, refl}
use mathlib.Core.Logic.{inl, inr}
use mathlib.Core.Bool.{Bool, true}
use mathlib.Core.List.{List, [], ◌∷◌, map, Memᴰ}
use native.Mathlib.Omega.{arith}
use gitactionflow.Base.Tests.{Bool-cases}
use gitactionflow.Base.Lists.{any, All, filter, take, drop, length, insert_by, sort_by, All-map}

-- Every row is one of the rows.
pub All-self {ℓ} : {A : Type ℓ} (xs : List A) → All (λ x. Memᴰ x xs) xs
All-self [] = tt
All-self (x ∷ xs) =
    (Memᴰ.head refl, All-map _ (λ y. Memᴰ y (x ∷ xs)) (λ y m. Memᴰ.tail m) xs (All-self xs))

pub any-Memᴰ {ℓ} :
    {A : Type ℓ} (p : A → Bool) (xs : List A) → any p xs ≡ true → (x : A) × Memᴰ x xs × (p x ≡ true)
any-Memᴰ p [] h = absurd (cc)
any-Memᴰ p (x ∷ xs) h = elim (Bool-cases (p x)) [
  | inl hit ↦ (x, Memᴰ.head refl, hit)
  | inr miss ↦ let (y, m, hit) = any-Memᴰ p xs (rw miss at h) in (y, Memᴰ.tail m, hit)
]

module _ {ℓ κ} {A : Type ℓ} (P : A → Type κ) where
  pub All-where :
      (p : A → Bool) (xs : List A) → All P xs → All (λ x. P x × (p x ≡ true)) (filter p xs)
  All-where p [] h = tt
  All-where p (x ∷ xs) h = elim (Bool-cases (p x)) [
    | inl hit ↦ rw hit ((h.0, hit), All-where p xs h.1)
    | inr miss ↦ rw miss (All-where p xs h.1)
  ]

  All-insert_by :
      (before : A → A → Bool) (x : A) (ys : List A) → P x → All P ys → All P (insert_by before x ys)
  unfolding insert_by
  All-insert_by before x [] p h = (p, tt)
  All-insert_by before x (y ∷ ys) p h = elim (Bool-cases (before y x)) [
    | inl b ↦ rw b (h.0, All-insert_by before x ys p h.1)
    | inr b ↦ rw b (p, h)
  ]

  pub All-sort_by : (before : A → A → Bool) (xs : List A) → All P xs → All P (sort_by before xs)
  unfolding sort_by
  All-sort_by before [] h = tt
  All-sort_by before (x ∷ xs) h =
      All-insert_by before x (sort_by before xs) h.0 (All-sort_by before xs h.1)

  pub All-drop : (n : ℕ) (xs : List A) → All P xs → All P (drop n xs)
  All-drop zero xs h = h
  All-drop (suc n) [] h = tt
  All-drop (suc n) (x ∷ xs) h = All-drop n xs h.1

  pub All-take : (n : ℕ) (xs : List A) → All P xs → All P (take n xs)
  All-take zero xs h = tt
  All-take (suc n) [] h = tt
  All-take (suc n) (x ∷ xs) h = (h.0, All-take n xs h.1)

pub length-take-le {ℓ} : {A : Type ℓ} (n : ℕ) (xs : List A) → length (take n xs) ≤ n
length-take-le zero xs = omega arith
length-take-le (suc n) [] = omega arith
length-take-le (suc n) (x ∷ xs) = omega (arith, length-take-le n xs)

module _ {ℓ κ μ} {A : Type ℓ} {B : Type κ} (Q : B → Type μ) (f : A → B) where
  pub All-image : (xs : List A) → All (λ x. Q (f x)) xs → All Q (map f xs)
  All-image [] h = tt
  All-image (x ∷ xs) h = (h.0, All-image xs h.1)

pub length-image {ℓ κ} :
    {A : Type ℓ} {B : Type κ} (f : A → B) (xs : List A) → length (map f xs) ≡ length xs
length-image f [] = refl
length-image f (x ∷ xs) = omega (arith, length-image f xs)
