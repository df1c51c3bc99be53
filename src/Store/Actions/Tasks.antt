-- ===== src/Store/Actions/Tasks.antt =====
-- What an action is to do never changes (backend/internal/store/actions.go).
use mathlib.Core.List.{Memᴰ}
use gitactionflow.Base.{
  ℕ, suc, ◌+◌, ◌≡◌, refl, sym, subst, ap, ◌∙◌, Bool, ◌&&◌, Option, List, [], ◌∷◌, ◌==◌, ==_iff, leb,
  map, find, find_holds, modify, arith, Bool-cases, Option-cases, inl, inr,
}
use gitactionflow.Base.Int.{ℤ, pos_part}
use gitactionflow.Base.Text.{Text}
use gitactionflow.Base.Table.{find-Memᴰ}
use gitactionflow.Errors.{Result, ok}
use gitactionflow.Json.{Raw}
use gitactionflow.Store.Rows.{Db, Action, action_is_pending}
use gitactionflow.Store.Common.{is_due}
use gitactionflow.Store.Exec.{Env, World, Statement, query}
use gitactionflow.Store.Exec.Inversion.{query_keeps}
use gitactionflow.Store.Actions.{
  update, mark_processing, mark_completed, mark_failed_immediately, schedule_retry, set_processing,
  set_failed, set_pending,
}

-- What an action is to do.
pub record Task : Type 0 where
  pub id : ℕ
  pub rule_id : Option ℕ
  pub action_type : Text
  pub action_config : Raw

abbrev pub task_of : Action → Task
task_of a = record {
  id = a.id;
  rule_id = a.rule_id;
  action_type = a.action_type;
  action_config = a.action_config;
}

abbrev pub tasks : Db → List Task
tasks db = map task_of db.actions

Memᴰ-tasks : {a : Action} (as' : List Action) → Memᴰ a as' → Memᴰ (task_of a) (map task_of as')
Memᴰ-tasks [] m = elim m [ ]
Memᴰ-tasks (x ∷ xs) (Memᴰ.head e) = Memᴰ.head (ap task_of e)
Memᴰ-tasks (x ∷ xs) (Memᴰ.tail m) = Memᴰ.tail (Memᴰ-tasks xs m)

map-modify :
    (p : Action → Bool) (f : Action → Action)
    → ((x : Action) → task_of (f x) ≡ task_of x)
    → (as' : List Action) → map task_of (modify p f as') ≡ map task_of as'
map-modify p f same [] = refl
map-modify p f same (x ∷ xs) =
    let rest = map-modify p f same xs in
    elim (Bool-cases (p x)) [
      | inl hit ↦ rw (hit, same x, rest) refl
      | inr miss ↦ rw (miss, rest) refl
    ]

-- The statement changes no task, and adds and removes none.
abbrev pub KeepsTasks {ℓ} : {A : Type ℓ} → Statement A → Type 0
KeepsTasks s = (locked : ℕ → Bool) (now : ℕ) (db : Db) → tasks (s locked now db).1 ≡ tasks db

tasks-update :
    (p : Action → Bool) (f : Action → Action)
    → ((x : Action) → task_of (f x) ≡ task_of x)
    → (db : Db) → tasks (update p f db).1 ≡ tasks db
tasks-update p f same db = elim (Option-cases (find p db.actions)) [
  | inl miss ↦ rw (miss, update) refl
  | inr (x, hit) ↦ rw (hit, update) (map-modify p f same db.actions)
]

pub mark_processing-KeepsTasks : (id : ℕ) → KeepsTasks (mark_processing id)
unfolding mark_processing
mark_processing-KeepsTasks id locked now db = tasks-update _ _ (λ x. refl) db

pub mark_completed-KeepsTasks : (id : ℕ) → KeepsTasks (mark_completed id)
unfolding mark_completed
mark_completed-KeepsTasks id locked now db = tasks-update _ _ (λ x. refl) db

pub mark_failed_immediately-KeepsTasks :
    (id : ℕ) (msg : Text) → KeepsTasks (mark_failed_immediately id msg)
unfolding mark_failed_immediately
mark_failed_immediately-KeepsTasks id msg locked now db = tasks-update _ _ (λ x. refl) db

pub schedule_retry-KeepsTasks :
    (id : ℕ) (msg : Text) (backoff : ℤ) → KeepsTasks (schedule_retry id msg backoff)
unfolding schedule_retry set_failed set_pending
schedule_retry-KeepsTasks id msg backoff locked now db =
    elim (Option-cases (find (λ a. a.id == id) db.actions)) [
      | inl gone ↦ rw (gone, schedule_retry) refl
      | inr (a, at) ↦ elim (Bool-cases (leb a.max_attempts (suc a.attempt_count))) [
        | inl out ↦
            rw (at, schedule_retry, out)
              (tasks-update (λ x. x.id == id) (set_failed now (suc a.attempt_count) msg) (λ x. refl)
                db)
        | inr left ↦
            rw (at, schedule_retry, left)
              (tasks-update (λ x. x.id == id)
                (set_pending now (suc a.attempt_count) msg (now + pos_part backoff)) (λ x. refl) db)
      ]
    ]

pub query-KeepsTasks {ℓ} :
    {A : Type ℓ} (env : Env) (s : Statement A) (ts : List Task)
    → KeepsTasks s
    → (w : World) → tasks w.db ≡ ts
    → tasks (query env s w).1.db ≡ ts
query-KeepsTasks env s ts k w h =
    query_keeps env s (λ db. tasks db ≡ ts) (λ locked now db p. k locked now db ∙ p) w h

-- The row that a claim returns is the row of the id.
pub mark_processing-Memᴰ :
    (id : ℕ) (locked : ℕ → Bool) (now : ℕ) (db : Db) {a : Action} {db' : Db}
    → mark_processing id locked now db ≡ (ok a, db')
    → Memᴰ (task_of a) (tasks db) × (a.id ≡ id)
unfolding mark_processing set_processing
mark_processing-Memᴰ id locked now db {a} h =
    let p : Action → Bool =
      λ x. (x.id == id) && action_is_pending x.status && is_due x.next_retry_at now in
    elim (Option-cases (find p db.actions)) [
      | inl miss ↦ absurd (let q = rw (miss, update) at h in cc)
      | inr (x, hit) ↦
          let here = rw (hit, update) at h in
          let done : set_processing now x ≡ a = returned here in
          let passes = find_holds p db.actions hit in
          let own : x.id ≡ id = (==_iff x.id id).0 (ground arith) in
          let task : task_of x ≡ task_of a = ap task_of done in
          (
            subst (λ t. Memᴰ t (tasks db)) task
                (Memᴰ-tasks db.actions (find-Memᴰ p db.actions hit)),
            ap (λ t. t.id) (sym task) ∙ own,
          )
    ]
  where
    returned : {b : Action} {d d' : Db} → ◌≡◌ {A = Result Action × Db} (ok b, d) (ok a, d') → b ≡ a
    returned q = cc
