-- ===== src/Store/Actions/Listing.antt =====
-- ListByEventID (backend/internal/store/actions.go) lists every action of the event.
use gitactionflow.Base.{
  ℕ, ◌≡◌, ap, subst, sym, List, ◌==◌, ==_iff, All, All-map, All-sort_of, All-filter_of, filter,
  sort_by,
}
use gitactionflow.Errors.{ok}
use gitactionflow.Store.Rows.{Db, Action}
use gitactionflow.Store.Exec.{Env, World, query}
use gitactionflow.Store.Exec.Inversion.{query-eq-ok}
use gitactionflow.Store.Actions.{earlier, list_by_event_id}

-- What holds of the actions that are listed holds of every action of the event.
pub All-list_by_event_id {κ} :
    (P : Action → Type κ) (env : Env) (event_id : ℕ) (w : World) {list : List Action}
    → (query env (list_by_event_id event_id) w).0 ≡ ok list
    → All P list
    → All (λ a. a.event_id ≡ event_id → P a) (query env (list_by_event_id event_id) w).1.db.actions
unfolding list_by_event_id
All-list_by_event_id P env event_id w {list} e h =
    let (locked, now, q) = query-eq-ok env (list_by_event_id event_id) w e in
    let same : sort_by earlier (filter (λ a. a.event_id == event_id) w.db.actions) ≡ list = cc q in
    let same_db : w.db ≡ (query env (list_by_event_id event_id) w).1.db = ap (λ p. p.1) q in
    subst (λ (d : Db). All (λ a. a.event_id ≡ event_id → P a) d.actions) same_db
      (All-map _ _ (λ a f p. f ((==_iff a.event_id event_id).1 p)) w.db.actions
        (All-filter_of P (λ a. a.event_id == event_id) w.db.actions
          (All-sort_of P earlier _ (subst (All P) (sym same) h))))
