-- ===== src/Base/Table.antt =====
-- Rows with a key, as the rows of a table with their primary key.
use Prim.Native.Nat.{ℕ, suc, ◌<◌}
use mathlib.Core.Path.{refl, ◌≡◌, ap, subst, sym}
use mathlib.Core.Logic.{inl, inr}
use mathlib.Core.Bool.{Bool, true, false}
use mathlib.Core.Option.{some}
use mathlib.Core.List.{List, [], ◌∷◌, ◌++◌, Memᴰ}
use native.Mathlib.Omega.{arith}
use gitactionflow.Base.Tests.{if◌then◌else◌, ◌==◌, Bool-cases, ==_refl}
use gitactionflow.Base.Lists.{All, find, modify}

module _ {ℓ} {A : Type ℓ} (id : A → ℕ) where
  -- No two rows have one key.
  abbrev pub Distinct : List A → Type 0
  Distinct [] = Unit
  Distinct (x ∷ xs) = All (λ y. (id y == id x) ≡ false) xs × Distinct xs

  -- Every key is below `n`.
  abbrev pub Below : ℕ → List A → Type 0
  Below n xs = All (λ x. id x < n) xs

module _ {ℓ} {A : Type ℓ} where
  pub find-Memᴰ : (p : A → Bool) (xs : List A) {x : A} → find p xs ≡ some x → Memᴰ x xs
  find-Memᴰ p [] e = cc
  find-Memᴰ p (y ∷ xs) e = elim (Bool-cases (p y)) [
    | inl hit ↦ Memᴰ.head (sym (cc (rw hit at e)))
    | inr miss ↦ Memᴰ.tail (find-Memᴰ p xs (rw miss at e))
  ]

  pub All-Memᴰ {κ} : (P : A → Type κ) {x : A} {xs : List A} → All P xs → Memᴰ x xs → P x
  All-Memᴰ P h (Memᴰ.head e) = subst P (sym e) h.0
  All-Memᴰ P h (Memᴰ.tail m) = All-Memᴰ P h.1 m

module _ {ℓ} {A : Type ℓ} (id : A → ℕ) where
  modify_away {κ μ} :
      (P : A → Type κ) (Q : A → Type μ) (k : ℕ) (f : A → A)
      → ((x : A) → (id x == k) ≡ false → P x → Q x)
      → (xs : List A) → All (λ y. (id y == k) ≡ false) xs
      → All P xs
      → All Q (modify (λ x. id x == k) f xs)
  modify_away P Q k f keep [] a h = tt
  modify_away P Q k f keep (x ∷ xs) a h =
      rw a.0 (keep x a.0 h.0, modify_away P Q k f keep xs a.1 h.1)

  -- An update by key changes one row.
  pub All-modify_at {κ μ} :
      (P : A → Type κ) (Q : A → Type μ) (e : A) (f : A → A)
      → ((x : A) → (id x == id e) ≡ false → P x → Q x)
      → Q (f e)
      → (xs : List A) → Distinct id xs
      → Memᴰ e xs
      → All P xs
      → All Q (modify (λ x. id x == id e) f xs)
  All-modify_at P Q e f keep q [] d m h = elim m [ ]
  All-modify_at P Q e f keep q (x ∷ xs) d (Memᴰ.head p) h =
      let same : (id x == id e) ≡ true = subst (λ y. (id y == id e) ≡ true) p (==_refl (id e)) in
      let others : All (λ z. (id z == id e) ≡ false) xs =
        subst (λ y. All (λ z. (id z == id y) ≡ false) xs) (sym p) d.0 in
      rw same (subst (λ y. Q (f y)) p q, modify_away P Q (id e) f keep xs others h.1)
  All-modify_at P Q e f keep q (x ∷ xs) d (Memᴰ.tail m) h =
      let apart : (id e == id x) ≡ false = All-Memᴰ (λ z. (id z == id x) ≡ false) d.0 m in
      let other : (id x == id e) ≡ false = ground arith in
      rw other (keep x other h.0, All-modify_at P Q e f keep q xs d.1 m h.1)

  pub All-key :
      (P : ℕ → Type 0) (p : A → Bool) (f : A → A)
      → ((x : A) → id (f x) ≡ id x)
      → (xs : List A) → All (λ x. P (id x)) xs
      → All (λ x. P (id x)) (modify p f xs)
  All-key P p f same [] h = tt
  All-key P p f same (x ∷ xs) h = elim (Bool-cases (p x)) [
    | inl hit ↦ rw hit (rw (same x) h.0, All-key P p f same xs h.1)
    | inr miss ↦ rw miss (h.0, All-key P p f same xs h.1)
  ]

  pub modify-Distinct :
      (p : A → Bool) (f : A → A)
      → ((x : A) → id (f x) ≡ id x)
      → (xs : List A) → Distinct id xs
      → Distinct id (modify p f xs)
  modify-Distinct p f same [] d = tt
  modify-Distinct p f same (x ∷ xs) d = elim (Bool-cases (p x)) [
    | inl hit ↦ rw hit (
      rw (same x) (All-key (λ k. (k == id x) ≡ false) p f same xs d.0),
      modify-Distinct p f same xs d.1,
    )
    | inr miss ↦
        rw miss
          (All-key (λ k. (k == id x) ≡ false) p f same xs d.0, modify-Distinct p f same xs d.1)
  ]

  pub append-Below :
      (n : ℕ) (xs : List A) (e : A) → Below id n xs → id e ≡ n → Below id (suc n) (xs ++ e ∷ [])
  append-Below n [] e b p = (omega arith, tt)
  append-Below n (x ∷ xs) e b p = (omega arith, append-Below n xs e b.1 p)

  append_away :
      (k : ℕ) (xs : List A) (e : A)
      → (id e == k) ≡ false
      → All (λ y. (id y == k) ≡ false) xs
      → All (λ y. (id y == k) ≡ false) (xs ++ e ∷ [])
  append_away k [] e p a = (p, tt)
  append_away k (x ∷ xs) e p a = (a.0, append_away k xs e p a.1)

  pub append-Distinct :
      (n : ℕ) (xs : List A) (e : A)
      → Below id n xs
      → id e ≡ n
      → Distinct id xs
      → Distinct id (xs ++ e ∷ [])
  append-Distinct n [] e b p d = (tt, tt)
  append-Distinct n (x ∷ xs) e b p d =
      (append_away (id x) xs e (ground arith) d.0, append-Distinct n xs e b.1 p d.1)

  pub find_key :
      (e : A) (xs : List A) → Distinct id xs → Memᴰ e xs → find (λ x. id x == id e) xs ≡ some e
  find_key e [] d m = elim m [ ]
  find_key e (x ∷ xs) d (Memᴰ.head p) =
      let same : (id x == id e) ≡ true = subst (λ y. (id y == id e) ≡ true) p (==_refl (id e)) in
      rw same (ap some (sym p))
  find_key e (x ∷ xs) d (Memᴰ.tail m) =
      let apart : (id e == id x) ≡ false = All-Memᴰ (λ z. (id z == id x) ≡ false) d.0 m in
      let other : (id x == id e) ≡ false = ground arith in rw other (find_key e xs d.1 m)

  -- The row of a key after an update.
  pub find-modify :
      (k : ℕ) (p : A → Bool) (f : A → A)
      → ((x : A) → id (f x) ≡ id x)
      → (xs : List A) {a : A} → find (λ x. id x == k) xs ≡ some a
      → find (λ x. id x == k) (modify p f xs) ≡ some (if p a then f a else a)
  find-modify k p f same [] h = absurd (cc)
  find-modify k p f same (x ∷ xs) {a} h = elim (Bool-cases (id x == k)) [
    | inl hit ↦
        let me : x ≡ a = cc (rw hit at h) in
        let kept : (id (f x) == k) ≡ true = subst (λ n. (n == k) ≡ true) (sym (same x)) hit in
        subst (λ y. find (λ z. id z == k) (modify p f (x ∷ xs)) ≡ some (if p y then f y else y)) me
          (elim (Bool-cases (p x)) [ inl t ↦ rw (t, kept) refl | inr t ↦ rw (t, hit) refl ])
    | inr miss ↦
        let rest = find-modify k p f same xs (rw miss at h) in
        let kept : (id (f x) == k) ≡ false = subst (λ n. (n == k) ≡ false) (sym (same x)) miss in
        elim (Bool-cases (p x)) [ inl t ↦ rw (t, kept) rest | inr t ↦ rw (t, miss) rest ]
  ]

module _ {ℓ} {A : Type ℓ} where
  -- A narrower test finds the same row, if the row passes it.
  pub find-narrow :
      (p q : A → Bool)
      → ((x : A) → q x ≡ false → p x ≡ false)
      → (xs : List A) {a : A} → find q xs ≡ some a
      → p a ≡ true
      → find p xs ≡ some a
  find-narrow p q n [] h t = absurd (cc)
  find-narrow p q n (x ∷ xs) {a} h t = elim (Bool-cases (q x)) [
    | inl hit ↦
        let me : x ≡ a = cc (rw hit at h) in
        let own : p x ≡ true = subst (λ y. p y ≡ true) (sym me) t in rw own (ap some me)
    | inr miss ↦ rw (n x miss) (find-narrow p q n xs (rw miss at h) t)
  ]
