-- ===== src/Githubapi/Retries.antt =====
-- Which failures of GitHub's API (backend/internal/githubapi/client.go) the executor tries again
-- (isPermanent of backend/internal/actions/executor.go).
use gitactionflow.Base.{
  true, none, ◌≤◌, ◌<◌, ◌≡◌, refl, sym, subst, ◌↔◌, ◌⊎◌, inl, inr, false, any, ◌==◌, [], ◌∷◌, some,
  ◌++◌, Bool-cases, arith,
}
use gitactionflow.Base.Text.{Text, codes, text_eq_iff, Unicode}
use gitactionflow.Errors.{Error, err, is, err_injective}
use gitactionflow.Json.{Json}
use gitactionflow.Store.Rows.{Action, action_is_processing}
use gitactionflow.Store.Exec.{Env, World}
use gitactionflow.Actions.Executor.{record_failure}
use gitactionflow.Actions.Executor.Outcome.{row_of, IsSettled, record_failure-IsSettled}
use gitactionflow.Actions.Execute.{Executor, is_permanent, sanitize_err}
use gitactionflow.Transport.{
  json, post, Response, Attempt, unbuilt, no_answer, unreadable, answer, Transport,
}
use gitactionflow.Githubapi.{classify, do_json, post_json}

-- The request may succeed later: GitHub limits the rate, has an error of its own, or answers with
-- a status that is no error.
abbrev pub IsTransient : Response → Type 0
IsTransient r =
    (r.status ≡ 429)
    ⊎ (500 ≤ r.status)
    ⊎ (r.status < 400)
    ⊎ ((r.status ≡ 403) × (r.rate_remaining ≡ codes "0"))

-- What is not answered in full may succeed later, too.
abbrev pub MaySucceed : Attempt → Type 0
MaySucceed (unbuilt e) = Unit
MaySucceed (no_answer e) = Unit
MaySucceed (unreadable r e) = Unit
MaySucceed (answer r) = IsTransient r

classify-IsTransient : (r : Response) → is_permanent (classify r) ≡ false → IsTransient r
unfolding classify is_permanent is
classify-IsTransient r h = let (f, g) = text_eq_iff r.rate_remaining (codes "0") in ground arith

IsTransient-classify : (r : Response) → IsTransient r → is_permanent (classify r) ≡ false
unfolding classify is_permanent is
IsTransient-classify r t = let (f, g) = text_eq_iff r.rate_remaining (codes "0") in ground arith

attempt-Retried :
    (a : Attempt) {e : Error}
    → do_json (200 ∷ 201 ∷ []) (λ raw. some (tt {0})) a ≡ err e
    → (is_permanent e ≡ false) ↔ MaySucceed a
unfolding do_json is_permanent is
attempt-Retried (unbuilt m) {e} h =
    let own : is_permanent e ≡ false = subst (λ x. is_permanent x ≡ false) (err_injective h) refl in
    (λ _. tt, λ _. own)
attempt-Retried (no_answer m) {e} h =
    let own : is_permanent e ≡ false = subst (λ x. is_permanent x ≡ false) (err_injective h) refl in
    (λ _. tt, λ _. own)
attempt-Retried (unreadable r m) {e} h =
    let own : is_permanent e ≡ false = subst (λ x. is_permanent x ≡ false) (err_injective h) refl in
    (λ _. tt, λ _. own)
attempt-Retried (answer r) {e} h = elim (Bool-cases (any (λ c. r.status == c) (200 ∷ 201 ∷ []))) [
  | inl expected ↦ absurd (let q = rw expected at h in cc)
  | inr other ↦
      let same : classify r ≡ e = cc (rw other at h) in
      (
        λ p. classify-IsTransient r (subst (λ x. is_permanent x ≡ false) (sym same) p),
        λ t. subst (λ x. is_permanent x ≡ false) same (IsTransient-classify r t),
      )
]

-- What is_permanent says of the errors of a label or a comment.
post_json-Retried :
    ⦃u : Unicode⦄ (base_url : Text) (transport : Transport) (token path : Text) (body : Json)
    {e : Error}
    → post_json base_url transport token path body ≡ err e
    → (is_permanent e ≡ false)
      ↔ MaySucceed (
          transport (record {
            method = post;
            url = base_url ++ path;
            bearer = some token;
            body = json body;
          }))
unfolding post_json
post_json-Retried base_url transport token path body h = attempt-Retried _ h

-- When a label or a comment has failed, the attempt is counted; the action waits for another try if
-- GitHub did not answer in full, or answered with 429, with 5xx, with a status below 400, or with 403
-- and no rate left, and an attempt is left; otherwise it is failed for good. This is for an action that
-- is in the table as it was claimed, an error whose message can be stored, and a statement that does
-- not fail.
pub post_json-IsSettled :
    ⦃u : Unicode⦄ (base_url : Text) (transport : Transport) (token path : Text) (body : Json)
    (env : Env) (x : Executor) (a : Action) (e : Error) (msg : Text) (w : World)
    → post_json base_url transport token path body ≡ err e
    → (env.beat w.statements).fault ≡ none
    → sanitize_err e ≡ some msg
    → row_of a.id w.db ≡ some a
    → action_is_processing a.status ≡ true
    → IsSettled a (record_failure env x a e w).1.db (
        MaySucceed (
          transport (record {
            method = post;
            url = base_url ++ path;
            bearer = some token;
            body = json body;
          })))
post_json-IsSettled base_url transport token path body env x a e msg w h quiet cut at live =
    record_failure-IsSettled env x a e msg w quiet cut at live _
      (post_json-Retried base_url transport token path body h)
