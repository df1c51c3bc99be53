-- ===== src/Http/Activity/Confined.antt =====
-- Whose events and actions the dashboard shows (backend/internal/http/handlers/activity.go).
use mathlib.Core.List.{Memᴰ}
use gitactionflow.Base.{
  ◌⊎◌, [], ℕ, ◌≤◌, ◌≡◌, refl, subst, ap, ◌∙◌, ◌==◌, ==_iff, Option, none, some, List, map, find,
  take, drop, filter, sort_by, length, All, All-map, arith, inl, inr, Bool-cases,
}
use gitactionflow.Base.Int.{ℤ, pos_part}
use gitactionflow.Base.Lists.Selected.{
  All-self, All-where, All-sort_by, All-drop, All-take, All-image, length-take-le, length-image,
}
use gitactionflow.Base.Text.{Text}
use gitactionflow.Errors.{Result, ok, err, is, not_found}
use gitactionflow.Store.Rows.{Db, Repository, WebhookEvent, Action}
use gitactionflow.Store.Common.{clamp_limit, found}
use gitactionflow.Store.Exec.{Env, World, query}
use gitactionflow.Store.Exec.Inversion.{query-eq-ok, query_keeps}
use gitactionflow.Store.Users.{User}
use gitactionflow.Store.Repositories.{get_by_user_id}
use gitactionflow.Store.Events
use gitactionflow.Store.Events.{newer}
use gitactionflow.Store.Actions
use gitactionflow.Store.Actions.{name_of}
use gitactionflow.Http.Reply.{answered, json, Handling}
use gitactionflow.Http.Activity.{
  Query, Page, EventResponse, ActionResponse, to_event_response, to_action_response, with_found,
  failed_to, with_connected_repo, events_of, list_events, parse_page_limit,
}

clamp_limit_le : (n : ℤ) → clamp_limit n ≤ 100
clamp_limit_le n = ground arith

-- An entry of the answer shows an event of the repository.
abbrev pub ShowsEvent : Db → Repository → EventResponse → Type 0
ShowsEvent db repo r =
    (e : WebhookEvent) × Memᴰ e db.events × (e.repository_id ≡ repo.id) × (to_event_response e ≡ r)

-- The action was made for an event of the repository, of the type if it is not empty.
abbrev pub IsMadeFor : Db → Repository → Text → Action → Type 0
IsMadeFor db repo event_type a =
    (e : WebhookEvent) × Memᴰ e db.events
    × (e.id ≡ a.event_id)
    × (e.repository_id ≡ repo.id)
    × ((event_type ≡ []) ⊎ (e.event_type ≡ event_type))

-- An entry of the answer shows an action of an event of the repository, as the database names it.
abbrev pub ShowsAction : Db → Repository → Text → ActionResponse → Type 0
ShowsAction db repo event_type r =
    (a : Action) × Memᴰ a db.actions
    × IsMadeFor db repo event_type a
    × (to_action_response (record { action = a; rule_name = name_of a.rule_id db }) ≡ r)

-- The caller's connected repository.
abbrev pub IsConnected : ℕ → Db → Repository → Type 0
IsConnected user_id db repo = find (λ r. r.user_id == user_id) db.repositories ≡ some repo

found-eq-ok {ℓ} : {A : Type ℓ} (o : Option A) {a : A} → found o ≡ ok a → o ≡ some a
found-eq-ok none e = absurd (cc)
found-eq-ok (some b) e = cc

answered-json {ℓ κ} :
    {A : Type ℓ} {B : Type κ} (status : ℕ) (f : A → B) (message : Text) (r : Result A) {code : ℕ}
    {b : B}
    → answered status f (failed_to message) r ≡ json code b
    → (a : A) × (r ≡ ok a) × (f a ≡ b)
answered-json status f message (ok a) e = (a, refl, cc)
answered-json status f message (err x) e = absurd (cc)

rows_of {ℓ} :
    {A : Type ℓ} {a b : A} {d e : Db} → ◌≡◌ {A = Result A × Db} (ok a, d) (ok b, e) → a ≡ b
rows_of q = cc

module _ (env : Env) where
  -- A handler that answered had a connected repository, and ran on an unchanged database.
  with_found-answered {ℓ} :
      {A : Type ℓ} (h : Repository → Handling A) (r : Result Repository) (w : World) {code : ℕ}
      {a : A} {w' : World}
      → with_found env h r w ≡ (json code a, w')
      → (repo : Repository) × (r ≡ ok repo) × (h repo w ≡ (json code a, w'))
  with_found-answered h (ok repo) w e = (repo, refl, e)
  with_found-answered h (err x) w e = elim (Bool-cases (is x not_found)) [
    | inl p ↦ absurd (let q = rw p at e in cc)
    | inr p ↦ absurd (let q = rw p at e in cc)
  ]

  IsConnected-answered {ℓ} :
      {A : Type ℓ} (user_id : ℕ) (h : Repository → Handling A) (w : World) {code : ℕ} {a : A}
      {w' : World}
      → with_connected_repo env user_id h w ≡ (json code a, w')
      → (repo : Repository) × (w1 : World) × IsConnected user_id w.db repo
        × (w1.db ≡ w.db)
        × (h repo w1 ≡ (json code a, w'))
  unfolding with_connected_repo get_by_user_id
  IsConnected-answered user_id h w e =
      let m = get_by_user_id user_id in
      let (repo, got, ran) = with_found-answered h (query env m w).0 (query env m w).1 e in
      let (l, n, q) = query-eq-ok env m w got in
      (
        repo,
        (query env m w).1,
        found-eq-ok _ (ap (λ p. p.0) q),
        query_keeps env m (λ d. d ≡ w.db) (λ l n d p. p) w refl,
        ran,
      )

  shown_events :
      (q : Query) (repo : Repository) (w : World) {code : ℕ} {list : List EventResponse}
      {page : Page} {w' : World}
      → events_of env q repo w ≡ (json code (list, page), w')
      → All (ShowsEvent w.db repo) list × (length list ≤ 100)
  unfolding Events.list_recent_by_repository
  shown_events q repo w {code} {list} {page} e =
      let p = parse_page_limit q in
      let m = Events.list_recent_by_repository repo.id p.limit p.offset in
      let (rows, got, same) =
        answered-json 200 (λ list. (map to_event_response list, p)) _ (query env m w).0
          (ap (λ x. x.0) e) in
      let (l, n, ran) = query-eq-ok env m w got in
      let mine = filter (λ (e : WebhookEvent). e.repository_id == repo.id) w.db.events in
      let page_rows = take (clamp_limit p.limit) (drop (pos_part p.offset) (sort_by newer mine)) in
      let result : map to_event_response page_rows ≡ list =
        ap (map to_event_response) (rows_of ran) ∙ ap (λ x. x.0) same in
      (
        subst (All (ShowsEvent w.db repo)) result (
            All-image (ShowsEvent w.db repo) to_event_response page_rows (
              All-take _ _ _ (
                All-drop _ _ _ (
                  All-sort_by _ newer mine (
                    All-map _ (λ x. ShowsEvent w.db repo (to_event_response x))
                      (λ x h. (x, h.0, (==_iff x.repository_id repo.id).0 h.1, refl)) mine
                      (All-where (λ x. Memᴰ x w.db.events) _ _ (All-self w.db.events))))))),
        subst (λ (z : List EventResponse). length z ≤ 100) result
            (omega (
              arith,
              length-image to_event_response page_rows,
              length-take-le (clamp_limit p.limit) (drop (pos_part p.offset) (sort_by newer mine)),
              clamp_limit_le p.limit,
            )),
      )

  -- ListEvents shows at most 100 events, all of them of the caller's connected repository.
  pub list_events-Confined :
      (q : Query) (u : User) (w : World) {code : ℕ} {list : List EventResponse} {page : Page}
      {w' : World}
      → list_events env q (some u) w ≡ (json code (list, page), w')
      → (repo : Repository) × IsConnected u.id w.db repo
        × All (ShowsEvent w.db repo) list
        × (length list ≤ 100)
  unfolding list_events
  list_events-Confined q u w {code} {list} {page} e =
      let (repo, w1, connected, same, ran) = IsConnected-answered u.id (events_of env q) w e in
      let (shown, bound) = shown_events q repo w1 ran in
      (repo, connected, subst (λ (d : Db). All (ShowsEvent d repo) list) same shown, bound)
