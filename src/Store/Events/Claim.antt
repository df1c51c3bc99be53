-- ===== src/Store/Events/Claim.antt =====
-- What one claim of a webhook event can do (claimOne in backend/internal/store/webhook_events.go).
use mathlib.Core.List.{Memᴰ}
use gitactionflow.Base.{
  ◌⊎◌, ◌↔◌, refl, ◌+◌, ◌<◌, ℕ, suc, ◌≤◌, ◌≡◌, Bool, true, false, ◌&&◌, not, Option, none, some,
  List, [], ◌∷◌, arith, leb, ◌==◌, All, All-map, sym, subst, ◌∙◌, inl, inr, modify, Bool-cases,
  Option-cases,
}
use gitactionflow.Base.Table.{Distinct, find_key}
use gitactionflow.Errors.{Result, ok, err}
use gitactionflow.Store.Rows.{Db, WebhookEvent, WebhookStatus, is_pending, is_processing}
use gitactionflow.Store.Common.{err_not_found, is_due}
use gitactionflow.Store.Events.{
  is_stale, is_claimable, oldest, set_failed, set_claimed, claim_row, claim_one, stale_message,
  update,
}

-- The row that a claim selects is in the table and passes the test.
oldest-Memᴰ :
    (p : WebhookEvent → Bool) (es : List WebhookEvent) {e : WebhookEvent}
    → oldest p es ≡ some e
    → Memᴰ e es × (p e ≡ true)
unfolding oldest
oldest-Memᴰ p [] h = cc
oldest-Memᴰ p (x ∷ es) {e} h = elim (Bool-cases (p x)) [
  | inr miss ↦ let (m, q) = oldest-Memᴰ p es (rw miss at h) in (Memᴰ.tail m, q)
  | inl hit ↦ elim (Option-cases (oldest p es)) [
    | inl last ↦ first hit (cc (rw (hit, last) at h))
    | inr (y, more) ↦ elim (Bool-cases (leb x.created_at y.created_at)) [
      | inl before ↦ first hit (cc (rw (hit, more, before) at h))
      | inr after ↦
          let (m, q) = oldest-Memᴰ p es (more ∙ rw (hit, more, after) at h) in (Memᴰ.tail m, q)
    ]
  ]
]
  where
    first : p x ≡ true → x ≡ e → Memᴰ e (x ∷ es) × (p e ≡ true)
    first hit q = (Memᴰ.head (sym q), subst (λ z. p z ≡ true) q hit)

oldest-none :
    (p : WebhookEvent → Bool) (es : List WebhookEvent)
    → oldest p es ≡ none
    → All (λ x. p x ≡ false) es
unfolding oldest
oldest-none p [] h = tt
oldest-none p (x ∷ es) h = elim (Bool-cases (p x)) [
  | inr miss ↦ (miss, oldest-none p es (rw miss at h))
  | inl hit ↦ elim (Option-cases (oldest p es)) [
    | inl last ↦ cc (rw (hit, last) at h)
    | inr (y, more) ↦ absurd (ground arith)
  ]
]

-- Among the rows that pass the test, the selected one was created first.
abbrev pub IsFirst : (WebhookEvent → Bool) → List WebhookEvent → WebhookEvent → Type 0
IsFirst p es e = All (λ x. p x ≡ true → e.created_at ≤ x.created_at) es

oldest-IsFirst :
    (p : WebhookEvent → Bool) (es : List WebhookEvent) {e : WebhookEvent}
    → oldest p es ≡ some e
    → IsFirst p es e
unfolding oldest
oldest-IsFirst p [] h = tt
oldest-IsFirst p (x ∷ es) {e} h = elim (Bool-cases (p x)) [
  | inr miss ↦ (λ q. cc, oldest-IsFirst p es (rw miss at h))
  | inl hit ↦ elim (Option-cases (oldest p es)) [
    | inl last ↦
        let same : x ≡ e = cc (rw (hit, last) at h) in
        (λ q. rw same (omega arith), All-map _ _ (λ z f q. cc) es (oldest-none p es last))
    | inr (y, more) ↦ elim (Bool-cases (leb x.created_at y.created_at)) [
      | inl before ↦
          let same : x ≡ e = cc (rw (hit, more, before) at h) in
          (
            λ q. rw same (omega arith),
            All-map _ _ (λ z f q. let g = f q in ground arith) es (oldest-IsFirst p es more),
          )
      | inr after ↦
          let same : y ≡ e = cc (rw (hit, more, after) at h) in
          (λ q. ground arith, subst (IsFirst p es) same (oldest-IsFirst p es more))
    ]
  ]
]

abbrev set_at : WebhookEvent → (WebhookEvent → WebhookEvent) → Db → Db
set_at e f db = record db { events = modify (λ x. x.id == e.id) f db.events }

-- A claim finds nothing, fails a stale event that has used its retries, takes a pending event, or
-- takes over a stale one.
pub data Claimed (lease now : ℕ) (db : Db) : Result (Option WebhookEvent) × Db → Type 0 where
  idle : Claimed lease now db (err err_not_found, db)
  exhausted :
      (e : WebhookEvent)
      → Memᴰ e db.events
      → is_processing e.status ≡ true
      → e.max_retries ≤ suc e.retry_count
      → Claimed lease now db
          (ok none, set_at e (set_failed now (suc e.retry_count) stale_message) db)
  taken :
      (e : WebhookEvent)
      → Memᴰ e db.events
      → is_pending e.status ≡ true
      → Claimed lease now db (
        ok (some (set_claimed now e.retry_count e.last_error e)),
        set_at e (set_claimed now e.retry_count e.last_error) db,
      )
  reclaimed :
      (e : WebhookEvent)
      → Memᴰ e db.events
      → is_processing e.status ≡ true
      → leb e.max_retries (suc e.retry_count) ≡ false
      → Claimed lease now db (
        ok (some (set_claimed now (suc e.retry_count) (some stale_message) e)),
        set_at e (set_claimed now (suc e.retry_count) (some stale_message)) db,
      )

claim_row-Claimed :
    (e : WebhookEvent) (lease now : ℕ) (db : Db)
    → Distinct (λ x. x.id) db.events
    → Memᴰ e db.events
    → is_claimable lease now e ≡ true
    → Claimed lease now db (claim_row e now db)
unfolding claim_row is_claimable
claim_row-Claimed e lease now db d m c = elim (Bool-cases (is_processing e.status)) [
  | inl live ↦ elim (Bool-cases (leb e.max_retries (suc e.retry_count))) [
    | inl out ↦ rw (live, out) (exhausted e m live (ground arith))
    | inr left ↦
        rw (live, left, find_key (λ x. x.id) e db.events d m, update) (reclaimed e m live left)
  ]
  | inr rests ↦ rw (rests, find_key (λ x. x.id) e db.events d m, update) (taken e m (ground arith))
]

pub claim_one-Claimed :
    (lease : ℕ) (locked : ℕ → Bool) (now : ℕ) (db : Db)
    → Distinct (λ x. x.id) db.events
    → Claimed lease now db (claim_one lease locked now db)
unfolding claim_one
claim_one-Claimed lease locked now db d =
    elim (Option-cases (oldest (λ e. is_claimable lease now e && not (locked e.id)) db.events)) [
      | inl e ↦ rw (e, claim_one) idle
      | inr (e, p) ↦
          let found =
            oldest-Memᴰ (λ x. is_claimable lease now x && not (locked x.id)) db.events p in
          rw (p, claim_one) (claim_row-Claimed e lease now db d found.0 (ground arith))
    ]

-- The row waits and its time has come, or it is being processed and its lease has run out.
abbrev pub IsFree : ℕ → ℕ → WebhookEvent → Type 0
IsFree lease now e =
    ((e.status ≡ WebhookStatus.pending)
      × ((e.next_retry_at ≡ none) ⊎ ((t : ℕ) × (e.next_retry_at ≡ some t) × (t ≤ now))))
    ⊎ ((e.status ≡ WebhookStatus.processing)
        × ((t : ℕ) × (e.locked_at ≡ some t) × (t + lease < now)))

pending_iff : (s : WebhookStatus) → (is_pending s ≡ true) ↔ (s ≡ WebhookStatus.pending)
pending_iff WebhookStatus.pending = (λ h. refl, λ e. refl)
pending_iff WebhookStatus.processing = (λ h. absurd (cc), λ e. absurd (cc))
pending_iff WebhookStatus.processed = (λ h. absurd (cc), λ e. absurd (cc))
pending_iff WebhookStatus.failed = (λ h. absurd (cc), λ e. absurd (cc))

processing_iff : (s : WebhookStatus) → (is_processing s ≡ true) ↔ (s ≡ WebhookStatus.processing)
processing_iff WebhookStatus.processing = (λ h. refl, λ e. refl)
processing_iff WebhookStatus.pending = (λ h. absurd (cc), λ e. absurd (cc))
processing_iff WebhookStatus.processed = (λ h. absurd (cc), λ e. absurd (cc))
processing_iff WebhookStatus.failed = (λ h. absurd (cc), λ e. absurd (cc))

due_iff :
    (o : Option ℕ) (now : ℕ)
    → (is_due o now ≡ true) ↔ ((o ≡ none) ⊎ ((t : ℕ) × (o ≡ some t) × (t ≤ now)))
due_iff none now = (λ h. inl refl, λ e. refl)
due_iff (some t) now = (
  λ h. inr (t, refl, ground arith),
  λ e. elim e [ inl p ↦ absurd (cc) | inr (s, p, q) ↦ let same : t ≡ s = cc in ground arith ],
)

stale_iff :
    (o : Option ℕ) (lease now : ℕ)
    → (is_stale o lease now ≡ true) ↔ ((t : ℕ) × (o ≡ some t) × (t + lease < now))
stale_iff none lease now = (λ h. absurd (cc), λ (t, p, q). absurd (cc))
stale_iff (some t) lease now =
    (λ h. (t, refl, ground arith), λ (s, p, q). let same : t ≡ s = cc in ground arith)

-- The WHERE clause says the same.
is_claimable_iff :
    (lease now : ℕ) (e : WebhookEvent) → (is_claimable lease now e ≡ true) ↔ IsFree lease now e
unfolding is_claimable
is_claimable_iff lease now e =
    let (p, p') = pending_iff e.status in
    let (q, q') = processing_iff e.status in
    let (d, d') = due_iff e.next_retry_at now in
    let (s, s') = stale_iff e.locked_at lease now in
    (
      λ h. elim (Bool-cases (is_pending e.status && is_due e.next_retry_at now)) [
        | inl waits ↦ inl (p (ground arith), d (ground arith))
        | inr other ↦ inr (q (ground arith), s (ground arith))
      ],
      λ f. elim f [
        | inl (a, b) ↦ let x = p' a in let y = d' b in ground arith
        | inr (a, b) ↦ let x = q' a in let y = s' b in ground arith
      ],
    )

-- The event that is handed out, as it was before the claim.
abbrev pub IsClaimOf : WebhookEvent → WebhookEvent → Type 0
IsClaimOf d e =
    (d.id ≡ e.id) × (d.created_at ≡ e.created_at) × (e.status ≡ WebhookStatus.processing)

claim_row-IsClaimOf :
    (d : WebhookEvent) (now : ℕ) (db : Db) {e : WebhookEvent}
    → Distinct (λ x. x.id) db.events
    → Memᴰ d db.events
    → (claim_row d now db).0 ≡ ok (some e)
    → IsClaimOf d e
unfolding claim_row set_claimed
claim_row-IsClaimOf d now db {e} k m h = elim (Bool-cases (is_processing d.status)) [
  | inl live ↦ elim (Bool-cases (leb d.max_retries (suc d.retry_count))) [
    | inl out ↦ absurd (let g = rw (live, out) at h in cc)
    | inr left ↦ claimed (rw (live, left, find_key (λ x. x.id) d db.events k m, update) at h)
  ]
  | inr rests ↦ claimed (rw (rests, find_key (λ x. x.id) d db.events k m, update) at h)
]
  where
    claimed :
        {r : WebhookEvent}
        → ok (some r) ≡ ok (some e)
        → (r.id ≡ e.id) × (r.created_at ≡ e.created_at) × (e.status ≡ r.status)
    claimed q = (cc, cc, cc)

-- The event that a claim hands out is one that was free, that is pending and due or processing with
-- a lease that ran out, and not locked by another transaction; it was created no later than any other
-- such event, and is processing now.
pub claim_one_oldest :
    (lease : ℕ) (locked : ℕ → Bool) (now : ℕ) (db : Db) (e : WebhookEvent)
    → Distinct (λ x. x.id) db.events
    → (claim_one lease locked now db).0 ≡ ok (some e)
    → (d : WebhookEvent) × Memᴰ d db.events
      × IsClaimOf d e
      × IsFree lease now d
      × (locked d.id ≡ false)
      × All (λ x. IsFree lease now x → locked x.id ≡ false → e.created_at ≤ x.created_at) db.events
unfolding claim_one
claim_one_oldest lease locked now db e k h =
    let p : WebhookEvent → Bool = λ x. is_claimable lease now x && not (locked x.id) in
    elim (Option-cases (oldest p db.events)) [
      | inl miss ↦ absurd (let g = rw (miss, claim_one) at h in cc)
      | inr (d, picked) ↦
          let (there, free) = oldest-Memᴰ p db.events picked in
          let same = claim_row-IsClaimOf d now db k there (rw (picked, claim_one) at h) in
          (
            d,
            there,
            same,
            (is_claimable_iff lease now d).0 (ground arith),
            ground arith,
            All-map _ _
                (λ x f c l.
                  let able = (is_claimable_iff lease now x).1 c in
                  subst (λ t. t ≤ x.created_at) same.1 (f (ground arith)))
                db.events (oldest-IsFirst p db.events picked),
          )
    ]
