-- ===== src/Actions/Executor/Keys.antt =====
-- The idempotency key of an action (IdempotencyKey in backend/internal/actions/executor.go).
use gitactionflow.Base.{ℕ, ◌≡◌, refl, [], ◌∷◌, ◌++◌, arith, length}
use gitactionflow.Base.Text.{Text}
use gitactionflow.Actions.Executor.{idempotency_key}

-- Two equal texts that begin with parts of one length have equal parts.
append_cancel : (a b x y : Text) → length a ≡ length b → a ++ x ≡ b ++ y → (a ≡ b) × (x ≡ y)
append_cancel [] [] x y l e = (refl, e)
append_cancel [] (d ∷ b) x y l e = absurd (omega arith)
append_cancel (c ∷ a) [] x y l e = absurd (omega arith)
append_cancel (c ∷ a) (d ∷ b) x y l e =
    let (p, q) = append_cancel a b x y (omega arith) (cc) in (cc, q)

-- Actions with the same key are those of one event, one rule and one action type. An id is written
-- with a fixed number of characters (36), and different ids are written differently.
pub idempotency_key_injective :
    (uuid_text : ℕ → Text)
    → ((i : ℕ) → length (uuid_text i) ≡ 36)
    → ((i j : ℕ) → uuid_text i ≡ uuid_text j → i ≡ j)
    → (event1 event2 rule1 rule2 : ℕ) (type1 type2 : Text)
    → idempotency_key uuid_text event1 rule1 type1 ≡ idempotency_key uuid_text event2 rule2 type2
    → (event1 ≡ event2) × (rule1 ≡ rule2) × (type1 ≡ type2)
unfolding idempotency_key
idempotency_key_injective uuid_text len inj event1 event2 rule1 rule2 type1 type2 e =
    let (p, q) =
      append_cancel (uuid_text event1) (uuid_text event2) (58 ∷ (uuid_text rule1 ++ 58 ∷ type1))
        (58 ∷ (uuid_text rule2 ++ 58 ∷ type2)) (omega (arith, len event1, len event2)) e in
    let (p2, q2) =
      append_cancel (uuid_text rule1) (uuid_text rule2) (58 ∷ type1) (58 ∷ type2)
        (omega (arith, len rule1, len rule2)) (cc) in
    (inj event1 event2 p, inj rule1 rule2 p2, cc)
