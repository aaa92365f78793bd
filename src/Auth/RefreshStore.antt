-- ===== src/Auth/RefreshStore.antt =====
-- `MemoryRefreshStore` of services/api/internal/auth/store_memory.go. The mutex makes each method
-- one step.
use learning_garden_server.Prelude.{
  ◌≡◌, true, Option, none, some, [], Text, text_eq, ◌==◌, text_beq_iff, if◌then◌else◌, arith, Exec,
  Result, ok, err, refresh_revoked, Option-cases, inl, inr,
}
use learning_garden_server.Prelude.Map.{Map, lookup, insert, lookup-insert}
use learning_garden_server.Auth.Types.{RefreshSession}

pub record MemoryRefreshStore : Type 0 where
  pub sessions : Map RefreshSession

abbrev pub new_memory_refresh_store : MemoryRefreshStore
new_memory_refresh_store = record { sessions = [] }

unfoldable pub save : RefreshSession → Exec MemoryRefreshStore (Unit {0})
save session s = (ok tt, record { sessions = insert session.token session s.sessions })

-- A session that is missing and one that is revoked are answered alike.
abbrev pub live : Option RefreshSession → Result RefreshSession
live none = err refresh_revoked
live (some session) = if session.revoked then err refresh_revoked else ok session

unfoldable pub find : Text → Exec MemoryRefreshStore RefreshSession
find token s = (live (lookup token s.sessions), s)

abbrev revoke_found : Text → Option RefreshSession → Exec MemoryRefreshStore (Unit {0})
revoke_found token none s = (err refresh_revoked, s)
revoke_found token (some session) s =
    (ok tt, record { sessions = insert token (record session { revoked = true }) s.sessions })

unfoldable pub revoke : Text → Exec MemoryRefreshStore (Unit {0})
revoke token s = revoke_found token (lookup token s.sessions) s

-- A session that is saved is found under its token, unless it is revoked; other tokens are
-- answered as before.
pub find-save :
    (session : RefreshSession) (token : Text) (s : MemoryRefreshStore)
    → (find token (save session s).1).0
      ≡ (if session.token == token then live (some session) else (find token s).0)
unfolding find save
find-save session token s = ground (arith, lookup-insert session.token token session s.sessions)

-- After a revocation the token is refused, whether it was known or not; other tokens are answered
-- as before.
pub find-revoke :
    (revoked token : Text) (s : MemoryRefreshStore)
    → (find token (revoke revoked s).1).0
      ≡ (if revoked == token then err refresh_revoked else (find token s).0)
unfolding find revoke
find-revoke revoked token s = elim (Option-cases (lookup revoked s.sessions)) [
  | inl missing ↦ ground (arith, missing, text_beq_iff revoked token)
  | inr (session, there) ↦
      ground
        (arith, there, lookup-insert revoked token (record session { revoked = true }) s.sessions)
]
