-- ===== src/Actions/Execute/Footprint.antt =====
-- executeOne (backend/internal/actions/executor.go) writes nothing to the database.
use gitactionflow.Base.{ℕ, Bool, true, false, Option, none, some, is_empty, if◌then◌else◌}
use gitactionflow.Base.Int.{is_le_zero}
use gitactionflow.Base.Text.{Text, text_eq, trim_space, Unicode}
use gitactionflow.Errors.{Result}
use gitactionflow.Store.Rows.{Db, Action, WebhookEvent, Repository}
use gitactionflow.Store.Exec.{Env, World, Exec, send, Call}
use gitactionflow.Store.Exec.Inversion.{query_keeps, Keeps, >>=-Keeps}
use gitactionflow.Store.Users.{get_encrypted_access_token}
use gitactionflow.Rules.Engine.{EventContext}
use gitactionflow.Rules.Validate.{github_label, github_comment, slack_notification}
use gitactionflow.Ai.{Suggestion}
use gitactionflow.Actions.Execute.{
  Executor, Config, execute_one, exec_github_label, exec_github_comment, exec_slack, access_token,
  label_with, comment_with, slack_with, choose_label, choose_comment,
}

module _ {κ} (P : Db → Type κ) where
  -- Both branches of a conditional keep what is kept.
  pub if-Keeps {ℓ} :
      {A : Type ℓ} (b : Bool) (m n : Exec A) → Keeps P m → Keeps P n → Keeps P (if b then m else n)
  if-Keeps true m n k l = k
  if-Keeps false m n k l = l

  pub same-Keeps {ℓ} : {A : Type ℓ} (r : Result A) → Keeps P (λ (w : World). (r, w))
  same-Keeps r = record { keep = λ w h. h }

module _ {κ} ⦃u : Unicode⦄ (env : Env) (x : Executor) (P : Db → Type κ) where
  send-Keeps : (c : Call) → Keeps P (send env c)
  unfolding send
  send-Keeps c = record { keep = λ w h. h }

  access_token-Keeps : (user_id : ℕ) → Keeps P (access_token env x user_id)
  unfolding access_token get_encrypted_access_token
  access_token-Keeps user_id = record {
    keep = λ w h. query_keeps env (get_encrypted_access_token user_id) P (λ locked now db p. p) w h;
  }

  label_with-Keeps :
      (repo : Repository) (ctx : EventContext) (s : Option Suggestion) (c : Option Config)
      → Keeps P (label_with env x repo ctx s c)
  label_with-Keeps repo ctx s none = same-Keeps P _
  label_with-Keeps repo ctx s (some cfg) =
      if-Keeps P (is_empty (choose_label cfg s)) _ _ (same-Keeps P _) (
        >>=-Keeps P (access_token env x repo.user_id) _ (access_token-Keeps repo.user_id)
          (λ token. send-Keeps _))

  comment_with-Keeps :
      (repo : Repository) (ctx : EventContext) (s : Option Suggestion) (c : Option Config)
      → Keeps P (comment_with env x repo ctx s c)
  comment_with-Keeps repo ctx s none = same-Keeps P _
  comment_with-Keeps repo ctx s (some cfg) =
      if-Keeps P (is_empty (choose_comment cfg s)) _ _ (same-Keeps P _) (
        >>=-Keeps P (access_token env x repo.user_id) _ (access_token-Keeps repo.user_id)
          (λ token. send-Keeps _))

  slack_with-Keeps :
      (repo : Repository) (ev : WebhookEvent) (name : Text) (s : Option Suggestion)
      (c : Option Config)
      → Keeps P (slack_with env x repo ev name s c)
  slack_with-Keeps repo ev name s none = same-Keeps P _
  slack_with-Keeps repo ev name s (some cfg) =
      if-Keeps P (is_empty (trim_space cfg.text)) _ _ (same-Keeps P _) (send-Keeps _)

  -- Whatever it does, executing an action keeps the database.
  pub execute_one-Keeps :
      (repo : Repository) (ev : WebhookEvent) (ctx : EventContext) (a : Action) (name : Text)
      (s : Option Suggestion)
      → Keeps P (execute_one env x repo ev ctx a name s)
  unfolding execute_one exec_github_label exec_github_comment exec_slack
  execute_one-Keeps repo ev ctx a name s =
      if-Keeps P (text_eq a.action_type github_label) _ _
        (if-Keeps P (is_le_zero ctx.issue_number) _ _ (same-Keeps P _)
          (label_with-Keeps repo ctx s _))
        (if-Keeps P (text_eq a.action_type github_comment) _ _
          (if-Keeps P (is_le_zero ctx.issue_number) _ _ (same-Keeps P _)
            (comment_with-Keeps repo ctx s _))
          (if-Keeps P (text_eq a.action_type slack_notification) _ _
            (slack_with-Keeps repo ev name s _) (same-Keeps P _)))
