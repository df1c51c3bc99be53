-- ===== src/Rules/Service/Scope.antt =====
-- The rule service (backend/internal/rules/service.go) works on the caller's repository only.
use gitactionflow.Base.{
  ℕ, ◌≡◌, refl, ap, ◌∙◌, Bool, true, false, not, ◌&&◌, Option, none, some, List, [], ◌∷◌, ◌++◌,
  arith, All, All-find, find_holds, filter, modify, find, any, Bool-cases, Option-cases, inl, inr,
  ◌==◌,
}
use gitactionflow.Base.Text.{Unicode}
use gitactionflow.Errors.{Error, Result, ok, err}
use gitactionflow.Store.Rows.{Db, Rule, Repository}
use gitactionflow.Store.Common.{found}
use gitactionflow.Store.Exec.{Env, World, Exec, lift, ◌>>=◌, continue}
use gitactionflow.Store.Exec.Inversion.{query-eq-ok, query_keeps}
use gitactionflow.Store.Repositories
use gitactionflow.Store.Rules
use gitactionflow.Store.Rules.{owned, satisfies_checks, set_fields}
use gitactionflow.Rules.Validate.{Input, validate_normalize}
use gitactionflow.Rules.Service.{
  replace_not_found, err_no_repository, to_rule, connected_repo, create, update, delete,
}

-- The rules of one repository.
abbrev pub rules_of : ℕ → Db → List Rule
rules_of repository_id db = filter (λ r. r.repository_id == repository_id) db.rules

-- The user is not connected to the repository.
abbrev pub NotConnected : ℕ → ℕ → Db → Type 0
NotConnected user_id repository_id db =
    All (λ r. (r.user_id == user_id) ≡ true → (r.id == repository_id) ≡ false) db.repositories

module _ (other repo : ℕ) (apart : (repo == other) ≡ false) where
  filter-modify_owned :
      (id : ℕ) (f : Rule → Rule)
      → ((r : Rule) → (f r).repository_id ≡ r.repository_id)
      → (rs : List Rule)
      → filter
          (λ r. r.repository_id == other)
          (modify (λ (r : Rule). (r.id == id) && (r.repository_id == repo)) f rs)
        ≡ filter (λ r. r.repository_id == other) rs
  filter-modify_owned id f same [] = refl
  filter-modify_owned id f same (r ∷ rs) =
      elim (Bool-cases ((r.id == id) && (r.repository_id == repo))) [
        | inl hit ↦
            let foreign : (r.repository_id == other) ≡ false = ground arith in
            rw (hit, same r, foreign, filter-modify_owned id f same rs) refl
        | inr miss ↦ rw (miss, filter-modify_owned id f same rs) refl
      ]

  filter-filter_owned :
      (id : ℕ) (rs : List Rule)
      → filter
          (λ r. r.repository_id == other)
          (filter (λ (r : Rule). not ((r.id == id) && (r.repository_id == repo))) rs)
        ≡ filter (λ r. r.repository_id == other) rs
  filter-filter_owned id [] = refl
  filter-filter_owned id (r ∷ rs) = elim (Bool-cases ((r.id == id) && (r.repository_id == repo))) [
    | inl hit ↦
        let foreign : (r.repository_id == other) ≡ false = ground arith in
        rw (hit, foreign, filter-filter_owned id rs) refl
    | inr miss ↦ rw (miss, filter-filter_owned id rs) refl
  ]

  filter-append_foreign :
      (r : Rule)
      → r.repository_id ≡ repo
      → (rs : List Rule)
      → filter (λ r. r.repository_id == other) (rs ++ r ∷ [])
        ≡ filter (λ r. r.repository_id == other) rs
  filter-append_foreign r p [] = rw (p, apart) refl
  filter-append_foreign r p (x ∷ rs) = rw (filter-append_foreign r p rs) refl

  update-rules_of :
      (id : ℕ) (new : Rule) (locked : ℕ → Bool) (now : ℕ) (db : Db)
      → rules_of other (Rules.update repo id new locked now db).1 ≡ rules_of other db
  unfolding Rules.update set_fields
  update-rules_of id new locked now db = elim (Option-cases (find (owned repo id) db.rules)) [
    | inl none_found ↦ rw (none_found, Rules.update) refl
    | inr (r, one) ↦ elim (Bool-cases (satisfies_checks new)) [
      | inl good ↦
          rw (one, good, Rules.update)
            (filter-modify_owned id (set_fields now new) (λ x. refl) db.rules)
      | inr bad ↦ rw (one, bad, Rules.update) refl
    ]
  ]

  delete-rules_of :
      (id : ℕ) (locked : ℕ → Bool) (now : ℕ) (db : Db)
      → rules_of other (Rules.delete repo id locked now db).1 ≡ rules_of other db
  unfolding Rules.delete
  delete-rules_of id locked now db = elim (Option-cases (find (owned repo id) db.rules)) [
    | inl none_found ↦ rw (none_found, Rules.delete) refl
    | inr (r, one) ↦ rw (one, Rules.delete) (filter-filter_owned id db.rules)
  ]

  create-rules_of :
      (r : Rule)
      → r.repository_id ≡ repo
      → (locked : ℕ → Bool) (now : ℕ) (db : Db)
      → rules_of other (Rules.create r locked now db).1 ≡ rules_of other db
  unfolding Rules.create
  create-rules_of r p locked now db =
      elim (Bool-cases
        (satisfies_checks r && any (λ (x : Repository). x.id == r.repository_id) db.repositories)) [
          | inl good ↦ rw good (filter-append_foreign _ p db.rules)
          | inr bad ↦ rw bad refl
        ]

pub replace_not_found-eq-ok {ℓ} :
    {A : Type ℓ} (e : Error) (r : Result A) {a : A} → replace_not_found e r ≡ ok a → r ≡ ok a
replace_not_found-eq-ok e (ok b) h = h
replace_not_found-eq-ok e (err x) h = absurd (cc)

pub found-eq-ok {ℓ} : {A : Type ℓ} (o : Option A) {a : A} → found o ≡ ok a → o ≡ some a
found-eq-ok none h = absurd (cc)
found-eq-ok (some b) h = cc

module _ ⦃u : Unicode⦄ (env : Env) (user_id : ℕ) where
  -- The connected repository is one of the user's.
  pub connected_repo-eq-ok :
      (w : World) {repo : Repository}
      → (connected_repo env user_id w).0 ≡ ok repo
      → find (λ (r : Repository). r.user_id == user_id) w.db.repositories ≡ some repo
  unfolding connected_repo Repositories.get_by_user_id
  connected_repo-eq-ok w {repo} e =
      let (locked, now, q) =
        query-eq-ok env (Repositories.get_by_user_id user_id) w
          (replace_not_found-eq-ok err_no_repository _ e) in
      found-eq-ok _ (ap (λ p. p.0) q)

  connected_repo_keeps {κ} :
      (P : Db → Type κ) (w : World) → P w.db → P (connected_repo env user_id w).1.db
  unfolding connected_repo Repositories.get_by_user_id
  connected_repo_keeps P w h =
      query_keeps env (Repositories.get_by_user_id user_id) P (λ locked now db p. p) w h

  module _ (other : ℕ) (w : World) (nc : NotConnected user_id other w.db) where
    connected_apart :
        {repo : Repository}
        → (connected_repo env user_id w).0 ≡ ok repo
        → (repo.id == other) ≡ false
    connected_apart {repo} e =
        let hit = connected_repo-eq-ok w e in
        All-find (λ (r : Repository). (r.user_id == user_id) ≡ true → (r.id == other) ≡ false) _
          w.db.repositories nc hit
          (find_holds (λ (r : Repository). r.user_id == user_id) w.db.repositories hit)

    confined {ℓ} :
        {A : Type ℓ} (f : Repository → Exec A)
        → ((repo : Repository)
            → (repo.id == other) ≡ false
            → (w1 : World) → rules_of other w1.db ≡ rules_of other w.db
            → rules_of other (f repo w1).1.db ≡ rules_of other w.db)
        → rules_of other ((connected_repo env user_id >>= f) w).1.db ≡ rules_of other w.db
    confined {A = A} f k =
        go (connected_repo env user_id w).0 (connected_repo env user_id w).1
          (λ repo e. connected_apart e)
          (connected_repo_keeps (λ db. rules_of other db ≡ rules_of other w.db) w refl)
      where
        go :
            (r : Result Repository) (w1 : World)
            → ((repo : Repository) → r ≡ ok repo → (repo.id == other) ≡ false)
            → rules_of other w1.db ≡ rules_of other w.db
            → rules_of other (continue r f w1).1.db ≡ rules_of other w.db
        go (ok repo) w1 a p = k repo (a repo refl) w1 p
        go (err e) w1 a p = p

    lift_confined {ℓ κ} :
        {A : Type ℓ} {B : Type κ} (r : Result A) (f : A → Exec B)
        → ((a : A) → rules_of other (f a w).1.db ≡ rules_of other w.db)
        → rules_of other ((lift r >>= f) w).1.db ≡ rules_of other w.db
    lift_confined (ok a) f h = h a
    lift_confined (err e) f h = refl

-- What a user creates, updates or deletes leaves the rules of a repository that the user is not
-- connected to as they were, whatever rule the request names and whatever fails.
pub service_confined :
    ⦃u : Unicode⦄ (env : Env) (user_id other rule_id : ℕ) (input : Input) (w : World)
    → NotConnected user_id other w.db
    → (rules_of other (create env user_id input w).1.db ≡ rules_of other w.db)
      × (rules_of other (update env user_id rule_id input w).1.db ≡ rules_of other w.db)
      × (rules_of other (delete env user_id rule_id w).1.db ≡ rules_of other w.db)
unfolding create update delete
service_confined env user_id other rule_id input w nc = (
  lift_confined env user_id other w nc (validate_normalize input) _ (λ norm.
      confined env user_id other w nc _ (λ repo a w1 p.
        query_keeps env (Rules.create (to_rule repo.id norm))
          (λ db. rules_of other db ≡ rules_of other w.db)
          (λ locked now db q.
            create-rules_of other repo.id a (to_rule repo.id norm) refl locked now db ∙ q)
          w1 p)),
  lift_confined env user_id other w nc (validate_normalize input) _ (λ norm.
      confined env user_id other w nc _ (λ repo a w1 p.
        query_keeps env (Rules.update repo.id rule_id (to_rule repo.id norm))
          (λ db. rules_of other db ≡ rules_of other w.db)
          (λ locked now db q.
            update-rules_of other repo.id a rule_id (to_rule repo.id norm) locked now db ∙ q)
          w1 p)),
  confined env user_id other w nc _ (λ repo a w1 p.
      query_keeps env (Rules.delete repo.id rule_id) (λ db. rules_of other db ≡ rules_of other w.db)
        (λ locked now db q. delete-rules_of other repo.id a rule_id locked now db ∙ q) w1 p),
)
