-- ===== src/Auth/SessionTests.antt =====
-- The theorems on sessions and logins, at accounts in the in-memory stores.
use learning_garden_server.Prelude.{
  ◌+◌, ◌*◌, ◌≡◌, refl, some, [], arith, codes, text_eq, ◌==◌, text_beq, ltb, if◌then◌else◌, Result,
  ok, err, unauthorized, refresh_revoked, invalid_credentials,
}
use learning_garden_server.Prelude.Map.{lookup, insert}
use learning_garden_server.Strings.{trim_space}
use learning_garden_server.Auth.Types.{
  second, zero_user, Session, RegisterInput, normalize_email, normalize_handle,
}
use learning_garden_server.Auth.Token.{unix, sign_access_token, new_refresh_token}
use learning_garden_server.Auth.Password.{hash_password}
use learning_garden_server.Auth.UserStore.{new_user, create_user}
use learning_garden_server.Auth.RefreshStore.{new_memory_refresh_store, save}
use learning_garden_server.Auth.Store.{memory_users, memory_refresh}
use learning_garden_server.Auth.Service.{
  Draws, new_session, register, refresh, logout, authenticate_access_token,
}
use learning_garden_server.Auth.Service.Sessions.{
  Stores, opens, renewed, refresh-logout, refresh-new_session, authenticate-new_session,
}
use learning_garden_server.Auth.Service.Accounts.{registers, logs_in, key_of, login-register}
use learning_garden_server.Auth.Tests.{config, alice, one_user}
use learning_garden_server.Samples.{ascii}
use learning_garden_server.Samples.Codec.{toy_crypto, encode}

abbrev pub stores : Stores
stores = (one_user, new_memory_refresh_store)

abbrev pub draws : Draws
draws = record {
  salt = some (codes "salt");
  id = codes "u2";
  store_id = codes "u3";
  store_now = 7;
  raw_token = some (codes "random");
  signed_at = 0;
  saved_at = 0;
}

abbrev pub session_in : Result Session → Session
session_in (ok s) = s
session_in (err e) = record { access_token = []; refresh_token = []; user = zero_user }

abbrev opened : Session
opened = session_in (opens ascii toy_crypto config alice draws stores).0

refresh-logout_example :
    (refresh toy_crypto
      (memory_users ascii)
      memory_refresh
      config
      (codes "t")
      5
      6
      (logout toy_crypto (memory_users ascii) memory_refresh config (codes "t") stores).1).0
    ≡ err refresh_revoked
refresh-logout_example = refresh-logout ascii toy_crypto config (codes "t") stores 5 6

refresh-new_session_example :
    (refresh toy_crypto
      (memory_users ascii)
      memory_refresh
      config
      opened.refresh_token
      5
      6
      (opens ascii toy_crypto config alice draws stores).1).0
    ≡ (if ltb 5 (0 + 3600 * second)
        then renewed ascii toy_crypto config alice opened.refresh_token
            (sign_access_token toy_crypto (codes "s") alice 6 (60 * second))
        else err refresh_revoked)
unfolding new_session sign_access_token new_refresh_token encode create_user new_user lookup insert
    text_beq save trim_space normalize_email normalize_handle
refresh-new_session_example =
    refresh-new_session ascii toy_crypto config alice draws stores opened 5 6 refl refl

authenticate-new_session_example :
    (authenticate_access_token toy_crypto
      (memory_users ascii)
      memory_refresh
      config
      opened.access_token
      5
      (opens ascii toy_crypto config alice draws stores).1).0
    ≡ (if ltb 5 (unix (0 + 60 * second) * second) then ok alice else err unauthorized)
unfolding new_session sign_access_token new_refresh_token encode create_user new_user lookup insert
    text_beq save trim_space normalize_email normalize_handle
authenticate-new_session_example =
    authenticate-new_session ascii toy_crypto config alice draws stores opened 5 (omega arith) refl
      refl

abbrev pub bob_input : RegisterInput
bob_input = record {
  invite_code = [];
  email = codes "bob@x.org";
  handle = codes "bob";
  display_name = codes "Bob";
  password = codes "pw";
}

abbrev bob_session : Session
bob_session = session_in (registers ascii toy_crypto config bob_input draws stores).0

login-register_example :
    logs_in ascii toy_crypto config
      (record { email = codes "BOB@x.org"; password = codes "pw" })
      draws
      (registers ascii toy_crypto config bob_input draws stores).1
    ≡ (if key_of ascii toy_crypto config (codes "pw") (codes "salt")
          == key_of ascii toy_crypto config (codes "pw") (codes "salt")
        then opens ascii toy_crypto config bob_session.user draws
            (registers ascii toy_crypto config bob_input draws stores).1
        else (
          err invalid_credentials,
          (registers ascii toy_crypto config bob_input draws stores).1,
        ))
unfolding register hash_password new_session sign_access_token new_refresh_token encode create_user
    new_user lookup insert text_beq save trim_space normalize_email normalize_handle
login-register_example =
    login-register ascii toy_crypto config bob_input draws stores bob_session (codes "salt")
      (record { email = codes "BOB@x.org"; password = codes "pw" }) draws refl refl refl
