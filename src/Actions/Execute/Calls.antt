-- ===== src/Actions/Execute/Calls.antt =====
-- executeOne (backend/internal/actions/executor.go) makes at most one call.
use gitactionflow.Base.{ℕ, Option, none, some, is_empty}
use gitactionflow.Base.Int.{is_le_zero}
use gitactionflow.Base.Text.{Text, text_eq, trim_space, Unicode}
use gitactionflow.Store.Rows.{Action, WebhookEvent, Repository}
use gitactionflow.Store.Exec.{Env, Call, send, ◌>>=◌}
use gitactionflow.Store.Exec.Calls.{
  Silent, OneCall, same-Silent, Silent-OneCall, if-OneCall, query-Silent, send-OneCall, >>=-OneCall,
}
use gitactionflow.Store.Users.{get_encrypted_access_token}
use gitactionflow.Rules.Engine.{EventContext}
use gitactionflow.Rules.Validate.{github_label, github_comment, slack_notification}
use gitactionflow.Ai.{Suggestion}
use gitactionflow.Actions.Execute.{
  Executor, Config, execute_one, exec_github_label, exec_github_comment, exec_slack, access_token,
  label_with, comment_with, slack_with, choose_label, choose_comment,
}

module _ ⦃u : Unicode⦄ (env : Env) (x : Executor) where
  access_token-Silent : (user_id : ℕ) → Silent (access_token env x user_id)
  unfolding access_token
  access_token-Silent user_id = record {
    same = (query-Silent env (get_encrypted_access_token user_id)).same;
  }

  send_with_token :
      (user_id : ℕ) (c : Text → Call)
      → OneCall (access_token env x user_id >>= λ token. send env (c token))
  send_with_token user_id c =
      >>=-OneCall (access_token env x user_id) (λ token. send env (c token))
        (access_token-Silent user_id) (λ token. send-OneCall env (c token))

  label_with-OneCall :
      (repo : Repository) (ctx : EventContext) (s : Option Suggestion) (c : Option Config)
      → OneCall (label_with env x repo ctx s c)
  label_with-OneCall repo ctx s none = Silent-OneCall _ (same-Silent _)
  label_with-OneCall repo ctx s (some cfg) =
      if-OneCall (is_empty (choose_label cfg s)) _ _ (Silent-OneCall _ (same-Silent _))
        (send_with_token repo.user_id _)

  comment_with-OneCall :
      (repo : Repository) (ctx : EventContext) (s : Option Suggestion) (c : Option Config)
      → OneCall (comment_with env x repo ctx s c)
  comment_with-OneCall repo ctx s none = Silent-OneCall _ (same-Silent _)
  comment_with-OneCall repo ctx s (some cfg) =
      if-OneCall (is_empty (choose_comment cfg s)) _ _ (Silent-OneCall _ (same-Silent _))
        (send_with_token repo.user_id _)

  slack_with-OneCall :
      (repo : Repository) (ev : WebhookEvent) (name : Text) (s : Option Suggestion)
      (c : Option Config)
      → OneCall (slack_with env x repo ev name s c)
  slack_with-OneCall repo ev name s none = Silent-OneCall _ (same-Silent _)
  slack_with-OneCall repo ev name s (some cfg) =
      if-OneCall (is_empty (trim_space cfg.text)) _ _ (Silent-OneCall _ (same-Silent _))
        (send-OneCall env _)

  -- One call is made for an action, or none.
  pub execute_one-OneCall :
      (repo : Repository) (ev : WebhookEvent) (ctx : EventContext) (a : Action) (name : Text)
      (s : Option Suggestion)
      → OneCall (execute_one env x repo ev ctx a name s)
  unfolding execute_one exec_github_label exec_github_comment exec_slack
  execute_one-OneCall repo ev ctx a name s =
      if-OneCall (text_eq a.action_type github_label) _ _
        (if-OneCall (is_le_zero ctx.issue_number) _ _ (Silent-OneCall _ (same-Silent _))
          (label_with-OneCall repo ctx s _))
        (if-OneCall (text_eq a.action_type github_comment) _ _
          (if-OneCall (is_le_zero ctx.issue_number) _ _ (Silent-OneCall _ (same-Silent _))
            (comment_with-OneCall repo ctx s _))
          (if-OneCall (text_eq a.action_type slack_notification) _ _
            (slack_with-OneCall repo ev name s _) (Silent-OneCall _ (same-Silent _))))
