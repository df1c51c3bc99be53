-- ===== src/Rules/Service/Owned.antt =====
-- Which rule Get (backend/internal/rules/service.go) returns.
use gitactionflow.Base.{
  ℕ, ◌≡◌, ap, subst, some, find, find_holds, Bool-cases, inl, inr, ◌==◌, ==_iff,
}
use gitactionflow.Base.Text.{Unicode}
use gitactionflow.Errors.{ok}
use gitactionflow.Store.Rows.{Rule, Repository}
use gitactionflow.Store.Exec.{Env, World, query}
use gitactionflow.Store.Exec.Inversion.{>>=-eq-ok, query-eq-ok}
use gitactionflow.Store.Rules
use gitactionflow.Rules.Service.{mapping, err_rule_not_found, connected_repo, get}
use gitactionflow.Rules.Service.Scope.{replace_not_found-eq-ok, found-eq-ok, connected_repo-eq-ok}

module _ ⦃u : Unicode⦄ (env : Env) (user_id rule_id : ℕ) where
  loaded :
      (w : World) {r : Rule}
      → (mapping err_rule_not_found (query env (Rules.get_by_id rule_id)) w).0 ≡ ok r
      → r.id ≡ rule_id
  unfolding Rules.get_by_id
  loaded w {r} e =
      let (locked, now, q) =
        query-eq-ok env (Rules.get_by_id rule_id) w
          (replace_not_found-eq-ok err_rule_not_found _ e) in
      let hit = found-eq-ok _ (ap (λ p. p.0) q) in
      (==_iff r.id rule_id).0 (find_holds (λ (x : Rule). x.id == rule_id) w.db.rules hit)

  -- The rule that a user gets is the one asked for, and one of the repository that the user is
  -- connected to.
  pub get_owned :
      (w : World) (r : Rule) (w' : World)
      → get env user_id rule_id w ≡ (ok r, w')
      → (repo : Repository) × (find (λ (x : Repository). x.user_id == user_id) w.db.repositories
          ≡ some repo)
        × (r.repository_id ≡ repo.id)
        × (r.id ≡ rule_id)
  unfolding get
  get_owned w r w' h =
      let (repo, e0, f0) = >>=-eq-ok (connected_repo env user_id) _ w h in
      let (got, e1, f1) =
        >>=-eq-ok (mapping err_rule_not_found (query env (Rules.get_by_id rule_id))) _
          (connected_repo env user_id w).1 f0 in
      elim (Bool-cases (got.repository_id == repo.id)) [
        | inl own ↦
            let same : got ≡ r = cc (rw own at f1) in
            (
              repo,
              connected_repo-eq-ok env user_id w e0,
              subst (λ (x : Rule). x.repository_id ≡ repo.id) same
                  ((==_iff got.repository_id repo.id).0 own),
              subst (λ (x : Rule). x.id ≡ rule_id) same (loaded _ e1),
            )
        | inr other ↦ absurd (let g = rw other at f1 in cc)
      ]
