-- ===== src/Auth/Service/Accounts.antt =====
-- Registration and login, over the in-memory stores.
use learning_garden_server.Prelude.{
  ◌≡◌, refl, ap, true, Option, some, Text, codes, text_eq, ◌==◌, text_beq_iff, if◌then◌else◌, ok,
  err, Exec, lift, invalid_credentials, Bool-cases, inl, inr,
}
use learning_garden_server.Prelude.Actions.{bind-eq-ok}
use learning_garden_server.Strings.{Unicode}
use learning_garden_server.Auth.Types.{
  Config, RegisterInput, LoginInput, User, Session, CreateUserInput, normalize_email,
}
use learning_garden_server.Auth.Crypto.{Crypto}
use learning_garden_server.Auth.Password.{
  hash_password, verify_password, verify-hash, argon_time, argon_memory, argon_threads,
  argon_key_len,
}
use learning_garden_server.Auth.UserStore.{create_user, new_user, find_by_email}
use learning_garden_server.Auth.UserStore.Invariant.{find-create_user, create_user-eq-ok}
use learning_garden_server.Auth.Store.{memory_users, memory_refresh}
use learning_garden_server.Auth.Service.{Draws, on_users, register, login}
use learning_garden_server.Auth.Service.Sessions.{Stores, opens, new_session-eq-ok}

module _ (u : Unicode) (c : Crypto) (config : Config) where
  abbrev pub registers : RegisterInput → Draws → Exec Stores Session
  registers input d = register c (memory_users u) memory_refresh config input d

  abbrev pub logs_in : LoginInput → Draws → Exec Stores Session
  logs_in input d = login c (memory_users u) memory_refresh config input d

  -- What the registration asks the user store to create.
  abbrev new_account : RegisterInput → Draws → Text → CreateUserInput
  new_account input d hash = record {
    id = d.id;
    email = input.email;
    handle = input.handle;
    display_name = input.display_name;
    password_hash = hash;
  }

  -- The key of a password under a salt.
  abbrev pub key_of : (password salt : Text) → Text
  key_of password salt = c.id_key password salt argon_time argon_memory argon_threads argon_key_len

  register-eq-ok :
      (input : RegisterInput) (d : Draws) (s : Stores) (session : Session)
      → (registers input d s).0 ≡ ok session
      → (hash : Text) × (user : User) × (hash_password c input.password d.salt ≡ ok hash)
        × ((create_user u (new_account input d hash) d.store_id d.store_now s.0).0 ≡ ok user)
        × (session.user ≡ user)
        × ((registers input d s).1.0
            ≡ (create_user u (new_account input d hash) d.store_id d.store_now s.0).1)
  unfolding register
  register-eq-ok input d s session h =
      let (hash, hashed, h1) =
        bind-eq-ok (lift (hash_password c input.password d.salt)) _ s session h in
      let (user, created, h2) =
        bind-eq-ok (on_users (create_user u (new_account input d hash) d.store_id d.store_now)) _ s
          session h1 in
      let (signed, same_user, same) = new_session-eq-ok u c config user d _ session h2 in
      (hash, user, hashed, created, same_user, rw (hashed, created) (ap (λ r. r.1.0) same))

  hashed_salt :
      (password hash salt : Text) (o : Option Text)
      → o ≡ some salt
      → hash_password c password o ≡ ok hash
      → hash_password c password (some salt) ≡ ok hash
  hashed_salt password hash salt o e h = rw (← e) h

  -- After a registration that drew its salt and succeeded, a login with an email that normalises
  -- alike opens a session of the new user if the password has the same key as the registered one,
  -- and is refused otherwise.
  pub login-register :
      (input : RegisterInput) (d : Draws) (s : Stores) (session : Session) (salt : Text)
      (attempt : LoginInput) (d' : Draws)
      → d.salt ≡ some salt
      → (registers input d s).0 ≡ ok session
      → normalize_email u attempt.email ≡ normalize_email u input.email
      → logs_in attempt d' (registers input d s).1 ≡ (
          if key_of attempt.password salt == key_of input.password salt
          then opens u c config session.user d' (registers input d s).1
          else (err invalid_credentials, (registers input d s).1))
  unfolding login find_by_email new_user
  login-register input d s session salt attempt d' drawn h spelled =
      let (hash, user, hashed, created, same_user, users) = register-eq-ok input d s session h in
      let account = new_account input d hash in
      let (one, stored) = create_user-eq-ok u account d.store_id d.store_now s.0 user created in
      let (by_email, by_handle, by_id) =
        find-create_user u account d.store_id d.store_now s.0 user attempt.email input.handle
          created spelled refl in
      let found : (find_by_email u attempt.email (registers input d s).1.0).0 ≡ ok user =
        rw users by_email in
      let verified : verify_password c attempt.password user.password_hash
          ≡ (key_of attempt.password salt == key_of input.password salt) =
        rw one (
          verify-hash c input.password attempt.password salt hash
            (hashed_salt input.password hash salt d.salt drawn hashed)) in
      let active : user.status == codes "active" ≡ true = rw one ((text_beq_iff _ _).1 refl) in
      elim (Bool-cases (key_of attempt.password salt == key_of input.password salt)) [
        | inl right ↦ rw (found, active, verified, right, same_user)
        | inr wrong ↦ rw (found, active, verified, wrong)
      ]
