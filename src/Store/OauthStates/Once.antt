-- ===== src/Store/OauthStates/Once.antt =====
-- A state of the OAuth login is used at most once (backend/internal/store/oauth_states.go).
use gitactionflow.Base.{
  ℕ, ◌+◌, ◌≤◌, ◌≡◌, refl, sym, subst, Bool, true, false, ◌&&◌, ◌||◌, not, none, some, List, [], ◌∷◌,
  ◌++◌, arith, any, count, find, modify, is_some, Bool-cases, Option-cases, inl, inr, if◌then◌else◌,
}
use gitactionflow.Base.Text.{Text, text_eq, text_eq_iff}
use gitactionflow.Errors.{Result, ok, err}
use gitactionflow.Store.OauthStates.{State, has_hash, is_usable, use_up, create, consume}

-- A statement of some request, with the time at which it runs.
pub data Op : Type 0 where
  begin : (hash : Text) (expires_at now : ℕ) → Op
  finish : (hash : Text) (now : ℕ) → Op

pub step : Op → List State → List State
step (begin hash expires_at now) t = (create hash expires_at now t).1
step (finish hash now) t = (consume hash now t).1

abbrev success : Result (Unit {0}) → ℕ
success (ok _) = 1
success (err e) = 0

-- 1 if the statement consumes the state, and 0 otherwise.
pub consumes : Text → Op → List State → ℕ
consumes h (begin hash expires_at now) t = 0
consumes h (finish hash now) t = if text_eq hash h then success (consume hash now t).0 else 0

-- How often the state is consumed.
pub uses : Text → List Op → List State → ℕ
uses h [] t = 0
uses h (o ∷ os) t = consumes h o t + uses h os (step o t)

abbrev is_unused : Text → State → Bool
is_unused h s = has_hash h s && not (is_some s.consumed_at)

-- How often the state can still be consumed.
abbrev potential : Text → List State → ℕ
potential h t = if any (has_hash h) t then count (is_unused h) t else 1

modify_own :
    (h : Text) (now : ℕ) (t : List State)
    → count (is_unused h) (modify (is_usable h now) (use_up now) t) + count (is_usable h now) t
      ≡ count (is_unused h) t
modify_own h now [] = omega arith
modify_own h now (s ∷ t) = let rest = modify_own h now t in ground arith

modify_other :
    (h k : Text) (now : ℕ)
    → text_eq k h ≡ false
    → (t : List State)
    → count (is_unused h) (modify (is_usable k now) (use_up now) t) ≡ count (is_unused h) t
modify_other h k now ne [] = refl
modify_other h k now ne (s ∷ t) = elim (Bool-cases (is_usable k now s)) [
  | inl hit ↦
      let same : s.state_hash ≡ k = (text_eq_iff s.state_hash k).0 (ground arith) in
      let apart : text_eq s.state_hash h ≡ false = subst (λ z. text_eq z h ≡ false) (sym same) ne in
      rw (hit, apart) (omega (arith, modify_other h k now ne t))
  | inr miss ↦ rw miss (omega (arith, modify_other h k now ne t))
]

known-modify :
    (h k : Text) (now : ℕ) (t : List State)
    → any (has_hash h) (modify (is_usable k now) (use_up now) t) ≡ any (has_hash h) t
known-modify h k now [] = refl
known-modify h k now (s ∷ t) = let rest = known-modify h k now t in ground arith

unknown_unused :
    (h : Text) (t : List State) → any (has_hash h) t ≡ false → count (is_unused h) t ≡ 0
unknown_unused h [] p = refl
unknown_unused h (s ∷ t) p = let rest = unknown_unused h t (ground arith) in ground arith

usable_found :
    (h : Text) (now : ℕ) (t : List State) {s : State}
    → find (is_usable h now) t ≡ some s
    → (1 ≤ count (is_usable h now) t) × (any (has_hash h) t ≡ true)
usable_found h now [] p = absurd (cc)
usable_found h now (x ∷ t) p = elim (Bool-cases (is_usable h now x)) [
  | inl hit ↦ (ground arith, ground arith)
  | inr miss ↦ let (a, b) = usable_found h now t (rw miss at p) in (ground arith, ground arith)
]

append_state :
    (h : Text) (t : List State) (s : State)
    → (count (is_unused h) (t ++ s ∷ []) ≡ count (is_unused h) t + (if is_unused h s then 1 else 0))
      × (any (has_hash h) (t ++ s ∷ []) ≡ (any (has_hash h) t || has_hash h s))
append_state h [] s = (omega arith, ground arith)
append_state h (x ∷ t) s = let (a, b) = append_state h t s in (omega arith, ground arith)

begin_potential :
    (h hash : Text) (t : List State) (s : State)
    → s.state_hash ≡ hash
    → s.consumed_at ≡ none
    → any (has_hash hash) t ≡ false
    → potential h (t ++ s ∷ []) ≤ potential h t
begin_potential h hash t s same fresh new =
    let (a, b) = append_state h t s in
    elim (Bool-cases (text_eq hash h)) [
      | inl own ↦
          let named : has_hash h s ≡ true = subst (λ z. text_eq z h ≡ true) (sym same) own in
          let absent : any (has_hash h) t ≡ false =
            subst (λ z. any (has_hash z) t ≡ false) ((text_eq_iff hash h).0 own) new in
          let none_left = unknown_unused h t absent in
          rw (b, absent, named)
            (omega (
              arith,
              subst
                  (λ z.
                    count (is_unused h) (t ++ s ∷ [])
                    ≡ count (is_unused h) t + (if z then 1 else 0))
                  (own_unused named) a,
            ))
      | inr other ↦
          let named : has_hash h s ≡ false = subst (λ z. text_eq z h ≡ false) (sym same) other in
          rw b (ground arith)
    ]
  where
    own_unused : has_hash h s ≡ true → is_unused h s ≡ true
    own_unused p = rw (p, fresh) refl

-- A step uses up what it consumes.
step-potential :
    (h : Text) (o : Op) (t : List State) → consumes h o t + potential h (step o t) ≤ potential h t
unfolding consumes step create consume
step-potential h (begin hash expires_at now) t = elim (Bool-cases (any (has_hash hash) t)) [
  | inl known ↦ rw (step, known) (omega arith)
  | inr new ↦ rw (step, new) (omega (arith, begin_potential h hash t _ refl refl new))
]
step-potential h (finish hash now) t = elim (Option-cases (find (is_usable hash now) t)) [
  | inl miss ↦ rw (step, consumes, consume, miss) (ground arith)
  | inr (s, hit) ↦ elim (Bool-cases (text_eq hash h)) [
    | inl own ↦
        let (some_usable, there) = own_found own hit in
        let left = own_left own in
        rw (step, consumes, consume, hit, own, known-modify h hash now t, there)
          (omega (arith, left, some_usable))
    | inr other ↦
        rw
          (
            step,
            consumes,
            consume,
            hit,
            other,
            known-modify h hash now t,
            modify_other h hash now other t,
          )
          (omega arith)
  ]
]
  where
    own_found :
        {s : State}
        → text_eq hash h ≡ true
        → find (is_usable hash now) t ≡ some s
        → (1 ≤ count (is_usable hash now) t) × (any (has_hash h) t ≡ true)
    own_found own hit =
        let (a, b) = usable_found hash now t hit in
        (a, subst (λ z. any (has_hash z) t ≡ true) ((text_eq_iff hash h).0 own) b)

    own_left :
        text_eq hash h ≡ true
        → count (is_unused h) (modify (is_usable hash now) (use_up now) t)
            + count (is_usable hash now) t
          ≡ count (is_unused h) t
    own_left own =
        subst
          (λ z.
            count (is_unused h) (modify (is_usable z now) (use_up now) t)
              + count (is_usable z now) t
            ≡ count (is_unused h) t)
          (sym ((text_eq_iff hash h).0 own)) (modify_own h now t)

uses-potential : (h : Text) (os : List Op) (t : List State) → uses h os t ≤ potential h t
unfolding uses
uses-potential h [] t = omega arith
uses-potential h (o ∷ os) t = omega (arith, step-potential h o t, uses-potential h os (step o t))

-- In whatever order logins begin and finish, starting from no states: a state is consumed at most
-- once, however often it is presented and even if it is created again.
pub uses-le-one : (h : Text) (os : List Op) → uses h os [] ≤ 1
uses-le-one h os = uses-potential h os []
