-- ===== src/Store/Sessions.antt =====
-- backend/internal/store/sessions.go: the sessions of logged-in users, by the hashes of their tokens.
use gitactionflow.Base.{
  ℕ, ◌<◌, Bool, true, false, some, ◌≡◌, refl, ap, sym, ◌&&◌, not, none, List, [], ◌∷◌, ◌++◌, ltb,
  if◌then◌else◌, any, find, filter, arith, Bool-cases, inl, inr,
}
use gitactionflow.Base.Text.{Text, text_eq, text_eq_iff, text_eq_refl}
use gitactionflow.Errors.{Result, ok, err}
use gitactionflow.Store.Common.{err_not_found, err_other, found}

-- auth.Session
pub record Session : Type 0 where
  pub id : ℕ
  pub user_id : ℕ
  pub token_hash : Text
  pub expires_at : ℕ
  pub created_at : ℕ

abbrev pub has_token : Text → Session → Bool
has_token hash s = text_eq s.token_hash hash

abbrev new_session : ℕ → Text → ℕ → (id now : ℕ) → Session
new_session user_id hash expires_at id now = record {
  id = id;
  user_id = user_id;
  token_hash = hash;
  expires_at = expires_at;
  created_at = now;
}

-- Create, for a user that exists; `id` is what `gen_random_uuid()` returns. Token hashes are UNIQUE.
unfoldable pub create : ℕ → Text → ℕ → (id now : ℕ) → List Session → Result Session × List Session
create user_id hash expires_at id now sessions =
    let s = new_session user_id hash expires_at id now in
    if any (has_token hash) sessions then (err err_other, sessions) else (ok s, sessions ++ s ∷ [])

-- GetValidByTokenHash
unfoldable pub get_valid_by_token_hash : Text → ℕ → List Session → Result Session
get_valid_by_token_hash hash now sessions =
    found (find (λ s. has_token hash s && ltb now s.expires_at) sessions)

-- DeleteByTokenHash
unfoldable pub delete_by_token_hash : Text → List Session → List Session
delete_by_token_hash hash sessions = filter (λ s. not (has_token hash s)) sessions

find_deleted :
    (hash other : Text) (now : ℕ) (sessions : List Session)
    → find
        (λ s. has_token other s && ltb now s.expires_at)
        (filter (λ s. not (has_token hash s)) sessions)
      ≡ (if text_eq other hash
          then none
          else find (λ s. has_token other s && ltb now s.expires_at) sessions)
find_deleted hash other now [] = ground arith
find_deleted hash other now (s ∷ ss) =
    let rest = find_deleted hash other now ss in
    let (t1, f1) = text_eq_iff s.token_hash hash in
    let (t2, f2) = text_eq_iff s.token_hash other in
    let (t3, f3) = text_eq_iff other hash in ground arith

-- After a logout the token's session is no longer valid, at any time; every other token's session is
-- found as before.
pub get_valid-delete_by_token_hash :
    (hash other : Text) (now : ℕ) (sessions : List Session)
    → get_valid_by_token_hash other now (delete_by_token_hash hash sessions) ≡ (
        if text_eq other hash
        then err err_not_found
        else get_valid_by_token_hash other now sessions)
unfolding get_valid_by_token_hash delete_by_token_hash
get_valid-delete_by_token_hash hash other now sessions =
    rw (find_deleted hash other now sessions)
      (elim (Bool-cases (text_eq other hash)) [ inl p ↦ rw p refl | inr p ↦ rw p refl ])

find_new :
    (hash : Text) (now : ℕ) (sessions : List Session) (s : Session)
    → any (has_token hash) sessions ≡ false
    → has_token hash s ≡ true
    → ltb now s.expires_at ≡ true
    → find (λ s. has_token hash s && ltb now s.expires_at) (sessions ++ s ∷ []) ≡ some s
find_new hash now [] s e p q = rw (p, q) refl
find_new hash now (x ∷ xs) s e p q =
    let rest = find_new hash now xs s (ground arith) p q in ground arith

-- The session that Create returns is valid until it expires, and belongs to the user.
pub get_valid-create :
    (user_id : ℕ) (hash : Text) (expires_at id now at : ℕ) (sessions : List Session) {s : Session}
    → (create user_id hash expires_at id now sessions).0 ≡ ok s
    → at < expires_at
    → (get_valid_by_token_hash hash at (create user_id hash expires_at id now sessions).1 ≡ ok s)
      × (s.user_id ≡ user_id)
unfolding create get_valid_by_token_hash
get_valid-create user_id hash expires_at id now at sessions {s} e before =
    elim (Bool-cases (any (has_token hash) sessions)) [
      | inl taken ↦ absurd (let q = rw (create, taken) at e in cc)
      | inr free ↦
          let made = new_session user_id hash expires_at id now in
          let same : made ≡ s = cc (rw (create, free) at e) in
          let hit = find_new hash at sessions made free (text_eq_refl hash) (ground arith) in
          (
            rw (get_valid_by_token_hash, create, free, hit) (ap (λ x. ok x) same),
            ap (λ x. x.user_id) (sym same),
          )
    ]
