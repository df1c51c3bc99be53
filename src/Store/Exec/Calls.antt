-- ===== src/Store/Exec/Calls.antt =====
-- Which calls to GitHub and Slack a run makes.
use gitactionflow.Base.{◌≡◌, refl, ap, ◌∙◌, ◌⊎◌, inl, inr, Bool, true, false, ◌∷◌, if◌then◌else◌}
use gitactionflow.Errors.{Result, ok, err}
use gitactionflow.Store.Exec.{Env, World, Exec, Statement, query, send, Call, continue, ◌>>=◌}
use gitactionflow.Store.Exec.Inversion.{calls-query}

-- The run makes no call, whether it succeeds or fails.
pub record Silent {ℓ} {A : Type ℓ} (m : Exec A) : Type 0 where
  pub same : (w : World) → (m w).1.calls ≡ w.calls

-- Nothing was called between the worlds, or one call was made.
abbrev pub HasOne : World → World → Type 0
HasOne w w' = (w'.calls ≡ w.calls) ⊎ ((c : Call) × (w'.calls ≡ c ∷ w.calls))

-- The run makes one call or none, whether it succeeds or fails.
pub record OneCall {ℓ} {A : Type ℓ} (m : Exec A) : Type 0 where
  pub made : (w : World) → HasOne w (m w).1

module _ {ℓ} {A : Type ℓ} where
  pub same-Silent : (r : Result A) → Silent (λ (w : World). (r, w))
  same-Silent r = record { same = λ w. refl }

  pub Silent-OneCall : (m : Exec A) → Silent m → OneCall m
  Silent-OneCall m k = record { made = λ w. inl (k.same w) }

  pub if-Silent :
      (b : Bool) (m1 m2 : Exec A) → Silent m1 → Silent m2 → Silent (if b then m1 else m2)
  if-Silent true m1 m2 k l = k
  if-Silent false m1 m2 k l = l

  pub if-OneCall :
      (b : Bool) (m1 m2 : Exec A) → OneCall m1 → OneCall m2 → OneCall (if b then m1 else m2)
  if-OneCall true m1 m2 k l = k
  if-OneCall false m1 m2 k l = l

  pub query-Silent : (env : Env) (s : Statement A) → Silent (query env s)
  query-Silent env s = record { same = calls-query env s }

pub send-OneCall : (env : Env) (c : Call) → OneCall (send env c)
unfolding send
send-OneCall env c = record { made = λ w. inr (c, refl) }

module _ {ℓ κ} {A : Type ℓ} {B : Type κ} where
  pub continue_calls :
      (f : A → Exec B)
      → ((x : A) → Silent (f x))
      → (r : Result A) (w : World) → (continue r f w).1.calls ≡ w.calls
  continue_calls f k (ok x) w = (k x).same w
  continue_calls f k (err e) w = refl

  pub >>=-Silent :
      (m : Exec A) (f : A → Exec B) → Silent m → ((x : A) → Silent (f x)) → Silent (m >>= f)
  >>=-Silent m f k l = record { same = λ w. continue_calls f l (m w).0 (m w).1 ∙ k.same w }

  continue_one :
      (f : A → Exec B)
      → ((x : A) → OneCall (f x))
      → (r : Result A) (w : World) → HasOne w (continue r f w).1
  continue_one f k (ok x) w = (k x).made w
  continue_one f k (err e) w = inl refl

  -- The call comes last.
  pub >>=-OneCall :
      (m : Exec A) (f : A → Exec B) → Silent m → ((x : A) → OneCall (f x)) → OneCall (m >>= f)
  >>=-OneCall m f k l = record {
    made = λ w. elim (continue_one f l (m w).0 (m w).1) [
      | inl none ↦ inl (none ∙ k.same w)
      | inr (c, one) ↦ inr (c, one ∙ ap (λ cs. c ∷ cs) (k.same w))
    ];
  }
