-- ===== src/Store/Exec/Inversion.antt =====
-- What a run that returned tells of its parts.
use gitactionflow.Base.{ℕ, ◌+◌, ◌≤◌, ◌≡◌, refl, Option, none, some, Bool, arith}
use gitactionflow.Base.Text.{Text}
use gitactionflow.Errors.{Result, ok, err}
use gitactionflow.Store.Rows.{Db}
use gitactionflow.Store.Exec.{
  Beat, Env, World, Exec, Statement, continue, run_statement, query, ◌>>=◌,
}

module _ {ℓ κ} {A : Type ℓ} {B : Type κ} where
  pub continue-eq-ok :
      (r : Result A) (f : A → Exec B) (w1 : World) {b : B} {w' : World}
      → continue r f w1 ≡ (ok b, w')
      → (a : A) × (r ≡ ok a) × (f a w1 ≡ (ok b, w'))
  continue-eq-ok (ok a) f w1 e = (a, refl, e)
  continue-eq-ok (err x) f w1 e = absurd (cc)

  pub >>=-eq-ok :
      (m : Exec A) (f : A → Exec B) (w : World) {b : B} {w' : World}
      → (m >>= f) w ≡ (ok b, w')
      → (a : A) × ((m w).0 ≡ ok a) × (f a (m w).1 ≡ (ok b, w'))
  >>=-eq-ok m f w e = let (r, w1) = m w in continue-eq-ok r f w1 e

module _ {ℓ} {A : Type ℓ} (s : Statement A) (b : Beat) where
  ran :
      (fault : Option Text) (w : World) {a : A}
      → (run_statement b fault s w).0 ≡ ok a
      → (locked : ℕ → Bool) × (now : ℕ) × (s locked now w.db
          ≡ (ok a, (run_statement b fault s w).1.db))
  ran none w e = (b.locked, w.now + b.elapsed, λ i. (e i, (s b.locked (w.now + b.elapsed) w.db).1))
  ran (some msg) w e = absurd (cc)

  ran_keeps {κ} :
      (P : Db → Type κ)
      → ((locked : ℕ → Bool) (now : ℕ) (db : Db) → P db → P (s locked now db).1)
      → (fault : Option Text) (w : World) → P w.db
      → P (run_statement b fault s w).1.db
  ran_keeps P keep none w h = keep b.locked (w.now + b.elapsed) w.db h
  ran_keeps P keep (some msg) w h = h

  ran_calls : (fault : Option Text) (w : World) → (run_statement b fault s w).1.calls ≡ w.calls
  ran_calls none w = refl
  ran_calls (some msg) w = refl

  ran_now : (fault : Option Text) (w : World) → w.now ≤ (run_statement b fault s w).1.now
  ran_now none w = omega arith
  ran_now (some msg) w = omega arith

  -- A statement that does not fault runs.
  pub run_unfaulted :
      (fault : Option Text) (w : World)
      → fault ≡ none
      → ((run_statement b fault s w).0 ≡ (s b.locked (w.now + b.elapsed) w.db).0)
        × ((run_statement b fault s w).1.db ≡ (s b.locked (w.now + b.elapsed) w.db).1)
  run_unfaulted none w e = (refl, refl)
  run_unfaulted (some msg) w e = absurd (cc)

module _ {ℓ} {A : Type ℓ} (env : Env) (s : Statement A) where
  -- Time does not go back.
  pub now-query : (w : World) → w.now ≤ (query env s w).1.now
  unfolding query
  now-query w = ran_now s (env.beat w.statements) (env.beat w.statements).fault w

  -- Without a fault the query returns what the statement returns at some time.
  pub query_unfaulted :
      (w : World)
      → (env.beat w.statements).fault ≡ none
      → (locked : ℕ → Bool) × (now : ℕ) × ((query env s w).0 ≡ (s locked now w.db).0)
  unfolding query
  query_unfaulted w e =
      let b = env.beat w.statements in
      (b.locked, w.now + b.elapsed, (run_unfaulted s b b.fault w e).0)

  -- Without a fault the database becomes what the statement makes of it.
  pub query_unfaulted-db :
      (w : World)
      → (env.beat w.statements).fault ≡ none
      → (locked : ℕ → Bool) × (now : ℕ) × ((query env s w).1.db ≡ (s locked now w.db).1)
  unfolding query
  query_unfaulted-db w e =
      let b = env.beat w.statements in
      (b.locked, w.now + b.elapsed, (run_unfaulted s b b.fault w e).1)

  -- A statement that returned ran, against the database as it was.
  pub query-eq-ok :
      (w : World) {a : A}
      → (query env s w).0 ≡ ok a
      → (locked : ℕ → Bool) × (now : ℕ) × (s locked now w.db ≡ (ok a, (query env s w).1.db))
  unfolding query
  query-eq-ok w e = ran s (env.beat w.statements) (env.beat w.statements).fault w e

  -- What the statement keeps, the query keeps, also when it fails.
  pub query_keeps {κ} :
      (P : Db → Type κ)
      → ((locked : ℕ → Bool) (now : ℕ) (db : Db) → P db → P (s locked now db).1)
      → (w : World) → P w.db
      → P (query env s w).1.db
  unfolding query
  query_keeps P keep w h =
      ran_keeps s (env.beat w.statements) P keep (env.beat w.statements).fault w h

  pub calls-query : (w : World) → (query env s w).1.calls ≡ w.calls
  unfolding query
  calls-query w = ran_calls s (env.beat w.statements) (env.beat w.statements).fault w

-- The run keeps what holds of the database, whether it succeeds or fails.
pub record Keeps {ℓ κ} {A : Type ℓ} (P : Db → Type κ) (m : Exec A) : Type κ where
  pub keep : (w : World) → P w.db → P (m w).1.db

continue-Keeps {ℓ κ μ} :
    {A : Type ℓ} {B : Type κ} (P : Db → Type μ) (f : A → Exec B)
    → ((a : A) → Keeps P (f a))
    → (r : Result A) (w : World) → P w.db
    → P (continue r f w).1.db
continue-Keeps P f k (ok a) w h = (k a).keep w h
continue-Keeps P f k (err e) w h = h

pub >>=-Keeps {ℓ κ μ} :
    {A : Type ℓ} {B : Type κ} (P : Db → Type μ) (m : Exec A) (f : A → Exec B)
    → Keeps P m
    → ((a : A) → Keeps P (f a))
    → Keeps P (m >>= f)
>>=-Keeps P m f km kf = record { keep = λ w h. continue-Keeps P f kf (m w).0 (m w).1 (km.keep w h) }
