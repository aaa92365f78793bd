-- ===== src/AuthRepo/Tests.antt =====
-- The theorems of the Redis store, at a key-value store that evaluates.
use learning_garden_server.Prelude.{
  ℕ, ◌+◌, ◌-◌, ◌≡◌, refl, ap, ◌∙◌, ◌⊎◌, inl, inr, Bool, true, false, Option, none, some, [], ◌∷◌,
  Text, codes, text_eq, ◌==◌, text_beq, ltb, if◌then◌else◌, arith, ok, err, refresh_revoked,
  Bool-cases,
}
use learning_garden_server.Prelude.Int.{pos}
use learning_garden_server.Prelude.Json.{Json, str, num}
use learning_garden_server.Prelude.Map.{Map}
use learning_garden_server.Auth.Types.{Time, RefreshSession}
use learning_garden_server.AuthRepo.Client.{Redis}
use learning_garden_server.AuthRepo.{save, find, revoke}
use learning_garden_server.AuthRepo.Laws.{
  answer_of, Unreachable, find-save_redis, find-revoke_redis,
}
use learning_garden_server.Samples.Codec.{encode, decode, finish, decode-encode}

abbrev bit : Bool → ℕ
bit true = 1
bit false = 0

abbrev members : RefreshSession → Map Json
members s =
    (codes "Token", str s.token)
    ∷ (codes "UserID", str s.user_id)
    ∷ (codes "ExpiresAt", num (pos s.expires_at))
    ∷ (codes "Revoked", num (pos (bit s.revoked)))
    ∷ []

abbrev session_of : Map Json → Option RefreshSession
session_of
      ((_, str token)
        ∷ (_, str user_id)
        ∷ (_, num (pos expires_at))
        ∷ (_, num (pos revoked))
        ∷ []) =
    some (record {
      token = token;
      user_id = user_id;
      expires_at = expires_at;
      revoked = ltb 0 revoked;
    })
session_of _ = none

session_of-members :
    (s : RefreshSession) (b : Bool) → s.revoked ≡ b → session_of (members s) ≡ some s
session_of-members s true h = ground arith
session_of-members s false h = ground arith

abbrev Store : Type 0
Store = Text → Time → Option Text

abbrev timed : Redis
timed = record {
  State = Store;
  kept = λ ttl. ttl;
  set = λ key payload ttl now s. (
    true,
    λ k later.
        if key == k then (if ltb later (now + ttl) then some payload else none) else s k later,
  );
  get = λ key now s. ok (s key now);
  get-set = λ key k payload ttl now later s o h e. elim (Bool-cases (key == k)) [
    | inl same ↦ rw same (rw same at e)
    | inr other ↦ rw other (rw other at e)
  ];
  marshal = λ s. encode (members s);
  unmarshal = λ t. session_of (finish (decode t));
  unmarshal-marshal =
      λ s t e. ap session_of (decode-encode (members s) t e) ∙ session_of-members s s.revoked refl;
}

abbrev empty : Store
empty k later = none

abbrev session : RefreshSession
session = record { token = codes "t"; user_id = codes "u"; expires_at = 9; revoked = false }

find-save_redis_example :
    Unreachable timed (codes "t") 5 (save timed session 2 3 empty).1
    ⊎ ((find timed (codes "t") 5 (save timed session 2 3 empty).1).0
        ≡ (if ltb 5 (3 + (9 - 2)) then answer_of timed session else err refresh_revoked))
unfolding save encode
find-save_redis_example = find-save_redis timed session 2 3 5 empty refl

abbrev saved : Store
saved = (save timed session 2 3 empty).1

find-revoke_redis_example :
    Unreachable timed (codes "t") 6 (revoke timed (codes "t") 4 4 5 saved).1
    ⊎ ((find timed (codes "t") 6 (revoke timed (codes "t") 4 4 5 saved).1).0 ≡ err refresh_revoked)
unfolding revoke save find encode decode text_beq
find-revoke_redis_example = find-revoke_redis timed (codes "t") 4 4 5 6 saved refl
