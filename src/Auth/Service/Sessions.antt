-- ===== src/Auth/Service/Sessions.antt =====
-- The life of a session, over the in-memory stores.
use learning_garden_server.Prelude.{
  ◌+◌, ◌*◌, ◌^◌, ◌<◌, ◌≡◌, refl, false, some, Text, text_eq, text_beq_iff, ltb, if◌then◌else◌,
  Result, ok, err, Exec, lift, pure, ◌>>=◌, refresh_revoked, unauthorized, Bool-cases, inl, inr,
}
use learning_garden_server.Prelude.Actions.{bind-eq-ok}
use learning_garden_server.Prelude.Map.{lookup}
use learning_garden_server.Strings.{Unicode}
use learning_garden_server.Auth.Types.{Time, second, Config, User, Session, RefreshSession}
use learning_garden_server.Auth.Crypto.{Crypto}
use learning_garden_server.Auth.Token.{unix, sign_access_token, new_refresh_token}
use learning_garden_server.Auth.Token.RoundTrip.{parse-sign}
use learning_garden_server.Auth.UserStore.{MemoryUserStore, find_by_id}
use learning_garden_server.Auth.RefreshStore.{MemoryRefreshStore, save, find-save, find-revoke}
use learning_garden_server.Auth.Store.{memory_users, memory_refresh}
use learning_garden_server.Auth.Service.{
  Draws, new_session, refresh, logout, authenticate_access_token,
}

abbrev pub Stores : Type 0
Stores = MemoryUserStore × MemoryRefreshStore

module _ (u : Unicode) (c : Crypto) (config : Config) where
  -- The refresh session that `newSession` saves.
  abbrev pub saved : User → Draws → Text → RefreshSession
  saved user d token = record {
    token = token;
    user_id = user.id;
    expires_at = d.saved_at + config.refresh_token_ttl;
    revoked = false;
  }

  abbrev pub opens : User → Draws → Exec Stores Session
  opens user d = new_session c (memory_users u) memory_refresh config user d

  -- The session with the new access token.
  abbrev pub renewed : User → Text → Result Text → Result Session
  renewed user token (ok access) =
      ok (record { access_token = access; refresh_token = token; user = user })
  renewed user token (err e) = err e

  -- What `newSession` answers and saves.
  pub new_session-eq-ok :
      (user : User) (d : Draws) (s : Stores) (session : Session)
      → (opens user d s).0 ≡ ok session
      → (sign_access_token c config.jwt_secret user d.signed_at config.access_token_ttl
          ≡ ok session.access_token)
        × (session.user ≡ user)
        × (opens user d s ≡ (ok session, (s.0, (save (saved user d session.refresh_token) s.1).1)))
  unfolding new_session save
  new_session-eq-ok user d s session h =
      let (access, signed, h1) =
        bind-eq-ok
          (lift (sign_access_token c config.jwt_secret user d.signed_at config.access_token_ttl)) _
          s session h in
      let (token, tokened, h2) =
        bind-eq-ok (lift (new_refresh_token c d.raw_token)) _ s session h1 in
      let answer : Session = record { access_token = access; refresh_token = token; user = user } in
      let made : answer ≡ session = cc in rw (← made) (signed, refl, rw (signed, tokened))

  -- A token that was logged out is refused from then on, whether it was known or not.
  pub refresh-logout :
      (token : Text) (s : Stores) (now signed_at : Time)
      → (refresh c
          (memory_users u)
          memory_refresh
          config
          token
          now
          signed_at
          (logout c (memory_users u) memory_refresh config token s).1).0
        ≡ err refresh_revoked
  unfolding refresh logout
  refresh-logout token (us, rs) now signed_at =
      rw (find-revoke token token rs, (text_beq_iff token token).1 refl)

  answer_renewed :
      (user : User) (token : Text) (r : Result Text) (s : Stores)
      → ((lift r >>= λ access.
            pure (record { access_token = access; refresh_token = token; user = user }))
          s).0
        ≡ renewed user token r
  answer_renewed user token (ok access) s = refl
  answer_renewed user token (err e) s = refl

  -- Where a session was opened for a user whom the store has, a refresh with its refresh token
  -- answers the user with a newly signed access token before the refresh token expires, and is
  -- refused from then on.
  pub refresh-new_session :
      (user : User) (d : Draws) (s : Stores) (session : Session) (now signed_at : Time)
      → (opens user d s).0 ≡ ok session
      → lookup user.id s.0.users ≡ some user
      → (refresh c
          (memory_users u)
          memory_refresh
          config
          session.refresh_token
          now
          signed_at
          (opens user d s).1).0
        ≡ (if ltb now (d.saved_at + config.refresh_token_ttl)
            then renewed user session.refresh_token
                (sign_access_token c config.jwt_secret user signed_at config.access_token_ttl)
            else err refresh_revoked)
  unfolding refresh find_by_id
  refresh-new_session user d (us, rs) session now signed_at h there =
      let (signed, one, same) = new_session-eq-ok user d (us, rs) session h in
      let token = session.refresh_token in
      elim (Bool-cases (ltb now (d.saved_at + config.refresh_token_ttl))) [
        | inl early ↦
            rw
              (
                same,
                find-save (saved user d token) token rs,
                (text_beq_iff token token).1 refl,
                early,
                there,
              )
              (answer_renewed user token _ _)
        | inr late ↦
            rw (
              same,
              find-save (saved user d token) token rs,
              (text_beq_iff token token).1 refl,
              late,
            )
      ]

  -- Where a session was opened for a user whom the store has, and the access token's expiry is
  -- below 2 ^ 53 seconds, the access token is accepted as the user's before the second in which it
  -- expires, and refused from then on.
  pub authenticate-new_session :
      (user : User) (d : Draws) (s : Stores) (session : Session) (now : Time)
      → unix (d.signed_at + config.access_token_ttl) < 2 ^ 53
      → (opens user d s).0 ≡ ok session
      → lookup user.id s.0.users ≡ some user
      → (authenticate_access_token c
          (memory_users u)
          memory_refresh
          config
          session.access_token
          now
          (opens user d s).1).0
        ≡ (if ltb now (unix (d.signed_at + config.access_token_ttl) * second)
            then ok user
            else err unauthorized)
  unfolding authenticate_access_token find_by_id
  authenticate-new_session user d (us, rs) session now small h there =
      let (signed, one, same) = new_session-eq-ok user d (us, rs) session h in
      let parsed =
        parse-sign c config.jwt_secret user d.signed_at config.access_token_ttl now
          session.access_token small signed in
      elim (Bool-cases (ltb now (unix (d.signed_at + config.access_token_ttl) * second))) [
        | inl early ↦ rw (same, parsed, early, there)
        | inr late ↦ rw (same, parsed, late)
      ]
