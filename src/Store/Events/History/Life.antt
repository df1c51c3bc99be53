-- ===== src/Store/Events/History/Life.antt =====
-- The life of one webhook event (backend/internal/store/webhook_events.go), without times, locks,
-- messages and payload: its status, the retries used and the retries allowed, and how they change.
use gitactionflow.Base.{
  ℕ, suc, ◌≤◌, ◌<◌, ◌≡◌, refl, sym, subst, Bool, false, Option, none, some, List, [], ◌∷◌, ◌++◌,
  ◌==◌, find, modify, Bool-cases, if◌then◌else◌, inl, inr,
}
use gitactionflow.Base.Table.{find-modify}
use gitactionflow.Store.Rows.{Db, WebhookEvent, WebhookStatus}

-- A status, the retries used and the retries allowed.
pub data Phase : Type 0 where
  phase : (s : WebhookStatus) (n m : ℕ) → Phase

-- What can happen to an event; there is none before its delivery arrives. A retry is possible in any
-- status, since ScheduleRetry has no test on it.
pub data Move : Option Phase → Option Phase → Type 0 where
  arrives : (m : ℕ) → Move none (some (phase WebhookStatus.pending 0 m))
  starts :
      (n m : ℕ)
      → Move (some (phase WebhookStatus.pending n m)) (some (phase WebhookStatus.processing n m))
  restarts :
      (n m : ℕ)
      → suc n < m
      → Move
          (some (phase WebhookStatus.processing n m))
          (some (phase WebhookStatus.processing (suc n) m))
  succeeds :
      (n m : ℕ)
      → Move (some (phase WebhookStatus.processing n m)) (some (phase WebhookStatus.processed n m))
  gives_up :
      (n m : ℕ)
      → Move (some (phase WebhookStatus.processing n m)) (some (phase WebhookStatus.failed n m))
  retries :
      (s : WebhookStatus) (n m : ℕ)
      → suc n < m
      → Move (some (phase s n m)) (some (phase WebhookStatus.pending (suc n) m))
  exhausts :
      (s : WebhookStatus) (n m : ℕ)
      → m ≤ suc n
      → Move (some (phase s n m)) (some (phase WebhookStatus.failed (suc n) m))

-- A sequence of moves.
pub data Moves (a : Option Phase) : Option Phase → Type 0 where
  here : Moves a a
  then_move : (b c : Option Phase) → Moves a b → Move b c → Moves a c

abbrev pub phase_of : WebhookEvent → Phase
phase_of e = phase e.status e.retry_count e.max_retries

abbrev pub phases : Option WebhookEvent → Option Phase
phases none = none
phases (some e) = some (phase_of e)

abbrev pub row_of : ℕ → List WebhookEvent → Option WebhookEvent
row_of k es = find (λ e. e.id == k) es

-- The phase of the event with the id.
abbrev pub phase_in : ℕ → Db → Option Phase
phase_in k db = phases (row_of k db.events)

pub row_of-modify-none :
    (k : ℕ) (p : WebhookEvent → Bool) (f : WebhookEvent → WebhookEvent)
    → ((x : WebhookEvent) → (f x).id ≡ x.id)
    → (es : List WebhookEvent) → row_of k es ≡ none
    → row_of k (modify p f es) ≡ none
row_of-modify-none k p f same [] e = refl
row_of-modify-none k p f same (x ∷ xs) e = elim (Bool-cases (x.id == k)) [
  | inl hit ↦ absurd (let g = rw hit at e in cc)
  | inr miss ↦
      let rest = row_of-modify-none k p f same xs (rw miss at e) in
      let kept : ((f x).id == k) ≡ false = subst (λ n. (n == k) ≡ false) (sym (same x)) miss in
      elim (Bool-cases (p x)) [ inl t ↦ rw (t, kept) rest | inr t ↦ rw (t, miss) rest ]
]

pub row_of-modify :
    (k : ℕ) (p : WebhookEvent → Bool) (f : WebhookEvent → WebhookEvent)
    → ((x : WebhookEvent) → (f x).id ≡ x.id)
    → (es : List WebhookEvent) {e : WebhookEvent} → row_of k es ≡ some e
    → row_of k (modify p f es) ≡ some (if p e then f e else e)
row_of-modify k p f same es h = find-modify (λ e. e.id) k p f same es h

pub row_of-append :
    (k : ℕ) (e : WebhookEvent) (es : List WebhookEvent) {x : WebhookEvent}
    → row_of k es ≡ some x
    → row_of k (es ++ e ∷ []) ≡ some x
row_of-append k e [] h = absurd (cc)
row_of-append k e (y ∷ ys) h = elim (Bool-cases (y.id == k)) [
  | inl hit ↦ rw hit (rw hit at h)
  | inr miss ↦ rw miss (row_of-append k e ys (rw miss at h))
]

pub row_of-append-none :
    (k : ℕ) (e : WebhookEvent) (es : List WebhookEvent)
    → row_of k es ≡ none
    → row_of k (es ++ e ∷ []) ≡ (if e.id == k then some e else none)
row_of-append-none k e [] h = refl
row_of-append-none k e (y ∷ ys) h = elim (Bool-cases (y.id == k)) [
  | inl hit ↦ absurd (let g = rw hit at h in cc)
  | inr miss ↦ rw miss (row_of-append-none k e ys (rw miss at h))
]
