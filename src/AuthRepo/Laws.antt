-- ===== src/AuthRepo/Laws.antt =====
-- What the Redis store answers after a save and after a revocation.
use learning_garden_server.Prelude.{
  ◌+◌, ◌-◌, ◌≡◌, refl, ◌∙◌, ◌⊎◌, inl, inr, Bool, true, false, Option, none, some, Text, text_eq,
  text_beq_iff, if◌then◌else◌, leb, ltb, arith, Error, Result, ok, err, refresh_revoked, failure,
  Bool-cases, Result-cases,
}
use learning_garden_server.Prelude.Actions.{bind-eq-ok}
use learning_garden_server.Auth.Types.{Time, RefreshSession}
use learning_garden_server.AuthRepo.Client.{Redis}
use learning_garden_server.AuthRepo.{
  refresh_key, answer_set, set_session, save_payload, revoke_payload, save, find, revoke,
}

if_same {ℓ} : {A : Type ℓ} (b : Bool) (a : A) → (if b then a else a) ≡ a
if_same true a = refl
if_same false a = refl

module _ (redis : Redis) where
  module _ (key payload : Text) (ttl now later : Time) (s : redis.State) where
    abbrev written : redis.State
    written = (redis.set key payload ttl now s).1

    -- A read of a key that was written: an error, or the payload until its time is over.
    get_written :
        (redis.set key payload ttl now s).0 ≡ true
        → ((e : Error) × (redis.get key later written ≡ err e))
          ⊎ (redis.get key later written
              ≡ ok (if ltb later (now + redis.kept ttl) then some payload else none))
    get_written h = elim (Result-cases (redis.get key later written)) [
      | inr (e, failed) ↦ inl (e, failed)
      | inl (o, there) ↦ inr (
          ground (
            arith,
            there,
            redis.get-set key key payload ttl now later s o h there,
            text_beq_iff key key,
          ))
    ]

  set_session-eq-ok :
      (key payload : Text) (ttl now : Time) (s : redis.State)
      → (set_session redis key payload ttl now s).0 ≡ ok tt
      → ((redis.set key payload ttl now s).0 ≡ true)
        × ((set_session redis key payload ttl now s).1 ≡ (redis.set key payload ttl now s).1)
  set_session-eq-ok key payload ttl now s h = answered (redis.set key payload ttl now s) h
    where
      answered :
          (r : Bool × redis.State)
          → (answer_set redis r).0 ≡ ok tt
          → (r.0 ≡ true) × ((answer_set redis r).1 ≡ r.1)
      answered (true, s) h = (refl, refl)
      answered (false, s) h = cc

  save_payload-eq-ok :
      (o : Option Text) (session : RefreshSession) (until_now now : Time) (s : redis.State)
      → (save_payload redis o session until_now now s).0 ≡ ok tt
      → (t : Text) × (o ≡ some t)
        × ((redis.set (refresh_key session.token) t (session.expires_at - until_now) now s).0
            ≡ true)
        × ((save_payload redis o session until_now now s).1
            ≡ (redis.set (refresh_key session.token) t (session.expires_at - until_now) now s).1)
  save_payload-eq-ok none session until_now now s h = cc
  save_payload-eq-ok (some t) session until_now now s h =
      elim (Bool-cases (leb session.expires_at until_now)) [
        | inl over ↦ cc (rw over at h)
        | inr ahead ↦
            let (set, same) =
              set_session-eq-ok (refresh_key session.token) t (session.expires_at - until_now) now s
                (rw ahead at h) in
            (t, refl, set, rw ahead same)
      ]

  -- What a read answers of a stored text of the session.
  abbrev pub answer_of : RefreshSession → Result RefreshSession
  answer_of session = if session.revoked then err refresh_revoked else ok session

  -- Redis answers an error to the read, and so does `Find`.
  abbrev pub Unreachable : Text → (later : Time) → redis.State → Type 0
  Unreachable token later s =
      ((e : Error) × (redis.get (refresh_key token) later s ≡ err e))
      × ((find redis token later s).0 ≡ err failure)

  found_written :
      (session : RefreshSession) (payload : Text) (ttl now later : Time) (s : redis.State)
      (token : Text)
      → redis.marshal session ≡ some payload
      → (redis.set (refresh_key token) payload ttl now s).0 ≡ true
      → Unreachable token later (redis.set (refresh_key token) payload ttl now s).1
        ⊎ ((find redis token later (redis.set (refresh_key token) payload ttl now s).1).0
            ≡ (if ltb later (now + redis.kept ttl) then answer_of session else err refresh_revoked))
  unfolding find
  found_written session payload ttl now later s token made set =
      elim (get_written (refresh_key token) payload ttl now later s set) [
        | inl (e, failed) ↦ inl ((e, failed), rw failed)
        | inr there ↦ inr (
            rw there (elim (Bool-cases (ltb later (now + redis.kept ttl))) [
              | inl early ↦ rw (early, redis.unmarshal-marshal session payload made)
              | inr late ↦ rw late
            ]))
      ]

  -- After a save that succeeded, the session is found under its token until the time to live that
  -- Redis keeps is over, unless it is revoked, and the token is refused from then on; only where
  -- Redis answers an error to the read is there another answer, a failure.
  pub find-save_redis :
      (session : RefreshSession) (until_now now later : Time) (s : redis.State)
      → (save redis session until_now now s).0 ≡ ok tt
      → Unreachable session.token later (save redis session until_now now s).1
        ⊎ ((find redis session.token later (save redis session until_now now s).1).0 ≡ (
            if ltb later (now + redis.kept (session.expires_at - until_now))
            then answer_of session
            else err refresh_revoked))
  unfolding save
  find-save_redis session until_now now later s h =
      let (t, made, set, same) =
        save_payload-eq-ok (redis.marshal session) session until_now now s h in
      rw same (
        found_written session t (session.expires_at - until_now) now later s session.token made set)

  revoke_payload-eq-ok :
      (token : Text) (o : Option Text) (session : RefreshSession) (until_now now : Time)
      (s : redis.State)
      → (revoke_payload redis token o session until_now now s).0 ≡ ok tt
      → (t : Text) × (o ≡ some t)
        × ((redis.set (refresh_key token) t (session.expires_at - until_now) now s).0 ≡ true)
        × ((revoke_payload redis token o session until_now now s).1
            ≡ (redis.set (refresh_key token) t (session.expires_at - until_now) now s).1)
  revoke_payload-eq-ok token none session until_now now s h = cc
  revoke_payload-eq-ok token (some t) session until_now now s h =
      elim (Bool-cases (leb session.expires_at until_now)) [
        | inl over ↦ cc (rw over at h)
        | inr ahead ↦
            let (set, same) =
              set_session-eq-ok (refresh_key token) t (session.expires_at - until_now) now s
                (rw ahead at h) in
            (t, refl, set, rw ahead same)
      ]

  -- After a revocation that succeeded the token is refused at any time; only where Redis answers an
  -- error to the read is there another answer, a failure.
  pub find-revoke_redis :
      (token : Text) (found_at until_now now later : Time) (s : redis.State)
      → (revoke redis token found_at until_now now s).0 ≡ ok tt
      → Unreachable token later (revoke redis token found_at until_now now s).1
        ⊎ ((find redis token later (revoke redis token found_at until_now now s).1).0
            ≡ err refresh_revoked)
  unfolding revoke
  find-revoke_redis token found_at until_now now later s h =
      let (session, there, h1) = bind-eq-ok (find redis token found_at) _ s tt h in
      let revoked : RefreshSession = record session { revoked = true } in
      let (t, made, set, same) =
        revoke_payload-eq-ok token (redis.marshal revoked) revoked until_now now s h1 in
      rw (there, same)
        (elim (found_written revoked t (revoked.expires_at - until_now) now later s token made
          set) [
            | inl failed ↦ inl failed
            | inr refused ↦ inr (refused ∙ if_same _ (err refresh_revoked))
          ])
