-- ===== src/Store/OauthStates.antt =====
-- backend/internal/store/oauth_states.go: the one-time states of the OAuth login, by their hashes.
pub mod Once
use gitactionflow.Base.{
  ℕ, Bool, true, false, ◌&&◌, not, Option, none, some, List, [], ◌∷◌, ◌++◌, ltb, if◌then◌else◌, any,
  find, modify, is_some,
}
use gitactionflow.Base.Text.{Text, text_eq}
use gitactionflow.Errors.{Result, ok, err}
use gitactionflow.Store.Common.{err_not_found, err_other}

-- A row of oauth_states.
pub record State : Type 0 where
  pub state_hash : Text
  pub expires_at : ℕ
  pub created_at : ℕ
  pub consumed_at : Option ℕ

abbrev pub has_hash : Text → State → Bool
has_hash hash s = text_eq s.state_hash hash

-- Create. `state_hash` is the primary key.
unfoldable pub create : Text → ℕ → ℕ → List State → Result (Unit {0}) × List State
create hash expires_at now states =
    if any (has_hash hash) states then (err err_other, states) else (
      ok tt,
      states
          ++ record {
            state_hash = hash;
            expires_at = expires_at;
            created_at = now;
            consumed_at = none;
          }
            ∷ [],
    )

-- The WHERE clause of Consume.
abbrev pub is_usable : Text → ℕ → State → Bool
is_usable hash now s = has_hash hash s && (not (is_some s.consumed_at) && ltb now s.expires_at)

abbrev pub use_up : ℕ → State → State
use_up now s = record s { consumed_at = some now }

-- Consume
unfoldable pub consume : Text → ℕ → List State → Result (Unit {0}) × List State
consume hash now states = elim (find (is_usable hash now) states) [
  | none ↦ (err err_not_found, states)
  | some s ↦ (ok tt, modify (is_usable hash now) (use_up now) states)
]
