-- ===== src/Web/Sessions.antt =====
-- The sessions of OIDC logins (sessionStore of internal/api/oidc.go). The store's mutex makes each
-- operation one step. Times are in nanoseconds; the operations take the present time.
pub mod Laws
mod Tests
use rpc_operator.Prelude.{
  ℕ, ◌-◌, ◌*◌, String, Bool, Option, none, some, List, [], ◌∷◌, ◌==◌, if◌then◌else◌, ltb,
}

-- oidcSession. The refresh token, which callbacks and refreshes overwrite in place, and the mutex are a
-- cell of memory.
pub record Session : Type 0 where
  pub state : String
  pub code_verifier : String
  pub nonce : String
  pub cell : ℕ
  pub created_at : ℕ

-- the map of a sessionStore
abbrev pub Sessions : Type 0
Sessions = List (String × Session)

-- `s.sessions[id]`
unfoldable pub find : String → Sessions → Option Session
find id [] = none
find id ((k, sess) ∷ store) = if k == id then some sess else find id store

-- `s.sessions[id] = sess`
unfoldable pub put : String → Session → Sessions → Sessions
put id sess [] = (id, sess) ∷ []
put id sess ((k, s) ∷ store) = if k == id then (id, sess) ∷ store else (k, s) ∷ put id sess store

-- `delete(s.sessions, id)`
unfoldable pub delete : String → Sessions → Sessions
delete id [] = []
delete id ((k, s) ∷ store) = let rest = delete id store in if k == id then rest else (k, s) ∷ rest

module _ (ttl : ℕ) where
  -- `time.Since(sess.createdAt) > s.ttl`
  abbrev pub is_expired : ℕ → Session → Bool
  is_expired now sess = ltb ttl (now - sess.created_at)

  -- what `get` returns, and what it leaves
  unfoldable pub get : ℕ → String → Sessions → Option Session × Sessions
  unfolding find delete
  get now id store = elim (find id store) [
    | none ↦ (none, store)
    | some sess ↦ if is_expired now sess then (none, delete id store) else (some sess, store)
  ]

  -- `gc`, where a session is old if it was made before `now - ttl`
  unfoldable pub gc : ℕ → Sessions → Sessions
  gc now [] = []
  gc now ((k, sess) ∷ store) =
      let rest = gc now store in if ltb sess.created_at (now - ttl) then rest else (k, sess) ∷ rest
