-- ===== src/Store/Exec.antt =====
-- Go code that runs statements against the database and calls other services: a state and error
-- monad over the world that the process sees. The environment decides, before each statement, how
-- much time has passed, whether the statement fails (a lost connection, a cancelled context), and
-- which rows other transactions have locked; it answers each call to GitHub and Slack.
pub mod Inversion
pub mod Calls
use gitactionflow.Base.{ℕ, suc, ◌+◌, Bool, Option, none, some, List, [], ◌∷◌, ◌++◌}
use gitactionflow.Base.Text.{Text}
use gitactionflow.Base.Int.{ℤ}
use gitactionflow.Errors.{Error, Result, ok, err, other}
use gitactionflow.Store.Rows.{Db}

pub record Beat : Type 0 where
  pub elapsed : ℕ
  pub fault : Option Text
  pub locked : ℕ → Bool

-- A request to an external service.
pub data Call : Type 0 where
  add_issue_labels : (token owner repo : Text) → ℤ → List Text → Call
  create_issue_comment : (token owner repo : Text) → ℤ → Text → Call
  send_text : Text → Call

-- `beat n` comes before the n-th statement, and `reply n c` answers `c` as the n-th call.
pub record Env : Type 0 where
  pub beat : ℕ → Beat
  pub reply : ℕ → Call → Option Error

-- `calls` lists the calls made so far, the latest first.
pub record World : Type 0 where
  pub db : Db
  pub now : ℕ
  pub statements : ℕ
  pub call_count : ℕ
  pub calls : List Call

abbrev pub Exec {ℓ} : Type ℓ → Type ℓ
Exec A = World → Result A × World

abbrev pub pure {ℓ} : {A : Type ℓ} → A → Exec A
pure a w = (ok a, w)

abbrev pub raise {ℓ} : {A : Type ℓ} → Error → Exec A
raise e w = (err e, w)

abbrev pub continue {ℓ κ} :
    {A : Type ℓ} {B : Type κ} → Result A → (A → Exec B) → World → Result B × World
continue (ok a) f w = f a w
continue (err e) f w = (err e, w)

infixl 5 ◌>>=◌ ◌>>◌
abbrev pub ◌>>=◌ {ℓ κ} : {A : Type ℓ} {B : Type κ} → Exec A → (A → Exec B) → Exec B
◌>>=◌ m f w = let (r, w') = m w in continue r f w'

abbrev pub ◌>>◌ {ℓ κ} : {A : Type ℓ} {B : Type κ} → Exec A → Exec B → Exec B
m >> n = m >>= λ _. n

-- The result as a value, for code that looks at the error.
abbrev pub attempt {ℓ} : {A : Type ℓ} → Exec A → Exec (Result A)
attempt m w = let (r, w') = m w in (ok r, w')

abbrev pub lift {ℓ} : {A : Type ℓ} → Result A → Exec A
lift r w = (r, w)

-- One statement or transaction against the database, at a time and with rows locked by others.
abbrev pub Statement {ℓ} : Type ℓ → Type ℓ
Statement A = (ℕ → Bool) → ℕ → Db → Result A × Db

abbrev pub run_statement {ℓ} :
    {A : Type ℓ} → Beat → Option Text → Statement A → World → Result A × World
run_statement b (some msg) s w = (
  err (record { kind = other; message = msg }),
  record w { now = w.now + b.elapsed; statements = suc w.statements },
)
run_statement b none s w =
    let (r, db') = s b.locked (w.now + b.elapsed) w.db in
    (r, record w { db = db'; now = w.now + b.elapsed; statements = suc w.statements })

abbrev answered : Option Error → Result (Unit {0})
answered none = ok tt
answered (some e) = err e

module _ (env : Env) where
  unfoldable pub query {ℓ} : {A : Type ℓ} → Statement A → Exec A
  query s w = let b = env.beat w.statements in run_statement b b.fault s w

  unfoldable pub send : Call → Exec (Unit {0})
  send c w = (
    answered (env.reply w.call_count c),
    record w { call_count = suc w.call_count; calls = c ∷ w.calls },
  )
