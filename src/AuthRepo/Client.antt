-- ===== src/AuthRepo/Client.antt =====
-- What the program uses of the libraries go-redis and encoding/json: keys with a time to live, and
-- the JSON text of a session.
use learning_garden_server.Prelude.{
  ◌+◌, ◌≡◌, Bool, true, Option, none, some, Text, text_eq, ◌==◌, ltb, if◌then◌else◌, Result, ok,
}
use learning_garden_server.Auth.Types.{Time, RefreshSession}

pub record Redis : Type 1 where
  pub State : Type 0
  -- The time to live that Redis keeps of the one that is asked for: go-redis sends whole units.
  pub kept : (ttl : Time) → Time
  -- `SET key payload PX ttl`, or an error of the connection, after which nothing is known.
  pub set : (key payload : Text) (ttl now : Time) → State → Bool × State
  -- `GET key`: none for a missing or expired key, or an error of the connection.
  pub get : (key : Text) (now : Time) → State → Result (Option Text)
  -- Where a read succeeds after a write that did, it answers the payload until the time to live is
  -- over; other keys answer as before.
  pub get-set :
      (key k payload : Text) (ttl now later : Time) (s : State) (o : Option Text)
      → (set key payload ttl now s).0 ≡ true
      → get k later (set key payload ttl now s).1 ≡ ok o
      → (if key == k
          then ok (if ltb later (now + kept ttl) then some payload else none)
          else get k later s)
        ≡ ok o
  -- `json.Marshal` and `json.Unmarshal` of a session
  pub marshal : RefreshSession → Option Text
  pub unmarshal : Text → Option RefreshSession
  pub unmarshal-marshal :
      (session : RefreshSession) (t : Text) → marshal session ≡ some t → unmarshal t ≡ some session
