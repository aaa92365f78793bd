-- ===== src/AuthRepo.antt =====
-- `RedisRefreshStore` of services/api/internal/authrepo/redis_refresh.go, over Redis as an interface.
pub mod Client
pub mod Laws
pub mod PostgresUsers
mod Tests
use learning_garden_server.Prelude.{
  ℕ, ◌+◌, ◌-◌, ◌≡◌, Bool, true, false, Option, none, some, [], ◌++◌, Text, codes, text_eq, ◌==◌,
  if◌then◌else◌, leb, Error, Result, ok, err, Exec, lift, pure, refuse, ◌>>=◌, ◌>>◌,
  refresh_revoked, failure,
}
use learning_garden_server.Auth.Types.{Time, RefreshSession}
use learning_garden_server.AuthRepo.Client.{Redis}

abbrev pub refresh_key : Text → Text
refresh_key token = codes "refresh:" ++ token

module _ (redis : Redis) where
  open redis use {State}

  abbrev pub answer_set : Bool × State → Result (Unit {0}) × State
  answer_set (true, s) = (ok tt, s)
  answer_set (false, s) = (err failure, s)

  -- `client.Set(…, ttl).Err()`
  abbrev pub set_session : Text → Text → (ttl now : ℕ) → Exec State (Unit {0})
  set_session key payload ttl now s = answer_set (redis.set key payload ttl now s)

  -- `time.Until(expiresAt)`, where it is positive, and the command. `until_now` is the clock's time
  -- then, `now` that of Redis.
  abbrev save_payload :
      Option Text → RefreshSession → (until_now now : Time) → Exec State (Unit {0})
  save_payload none session until_now now s = (err failure, s)
  save_payload (some payload) session until_now now s =
      if leb session.expires_at until_now
      then (err refresh_revoked, s)
      else set_session (refresh_key session.token) payload (session.expires_at - until_now) now s

  unfoldable pub save : RefreshSession → (until_now now : Time) → Exec State (Unit {0})
  save session until_now now = save_payload (redis.marshal session) session until_now now

  abbrev live_session : Option RefreshSession → Result RefreshSession
  live_session none = err failure
  live_session (some session) = if session.revoked then err refresh_revoked else ok session

  abbrev found_payload : Result (Option Text) → Result RefreshSession
  found_payload (err e) = err failure
  found_payload (ok none) = err refresh_revoked
  found_payload (ok (some payload)) = live_session (redis.unmarshal payload)

  unfoldable pub find : Text → (now : Time) → Exec State RefreshSession
  find token now s = (found_payload (redis.get (refresh_key token) now s), s)

  -- The key is that of the token that was asked for.
  abbrev revoke_payload :
      Text → Option Text → RefreshSession → (until_now now : Time) → Exec State (Unit {0})
  revoke_payload token none session until_now now s = (err failure, s)
  revoke_payload token (some payload) session until_now now s =
      if leb session.expires_at until_now
      then (err refresh_revoked, s)
      else set_session (refresh_key token) payload (session.expires_at - until_now) now s

  unfoldable pub revoke : Text → (found_at until_now now : Time) → Exec State (Unit {0})
  unfolding find
  revoke token found_at until_now now = do
    session ← find token found_at
    let revoked = record session { revoked = true }
    revoke_payload token (redis.marshal revoked) revoked until_now now
