-- ===== src/Data/Tests/Sessions.antt =====
-- A registration, logins, a logout and validations over tables with room for one row.
use data_middleware.Prelude.{
  ℕ, ◌+◌, ◌/◌, ◌≡◌, ◌≢◌, refl, sym, false, List, [], ◌∷◌, Option, none, some, list_beq,
  list_beq_iff, arith,
}
use data_middleware.Business.Players.{Player}
use data_middleware.Data.Players.{
  Account, PlayerSession, player_key, player_conflict, session_key, session_conflict, create_player,
  get_player_by_id, get_player_by_username, update_player, create_session, invalidate_session,
}
use data_middleware.Data.Tests.OneRow.{one_row, rows_of, one_row-IsTable}
use data_middleware.Business.Sessions.{
  Libraries, ok, LoginResult, LoginRequest, Readings, Registration, new_player, logged_in,
  convert_to_api_types, generate_token, session_id_of, user_id_of, session_lifetime, second,
}
use data_middleware.Business.Sessions.Register.{register_player}
use data_middleware.Business.Sessions.Login.{
  login_player, login_from, login_player_by_username, logout_player, validate_session,
}
use data_middleware.Business.Sessions.Calls.{Call, login, logout, update, cleanup, run}
use data_middleware.Business.Sessions.Lasting.{IsAccepted, login_player-IsAccepted}
use data_middleware.Business.Sessions.Ended.{logout_player-validate_session}
use data_middleware.Business.Sessions.Credentials.{IsLoggedIn, IsWrong, HashesMatch}
use data_middleware.Business.Sessions.Registered.{register_player-login_player_by_username}

-- A hash that shows the password.
abbrev pub lib : Libraries
lib = record {
  generate_from_password = λ salt password. some password;
  compare_hash_and_password = list_beq;
  encode_to_string = λ bytes. bytes;
}

abbrev bob : Registration
bob = record { game_id = 1 ∷ []; username = 2 ∷ []; password = 3 ∷ []; email = []; phone = [] }

abbrev bob_row : Player Account
bob_row = new_player (user_id_of lib (7 ∷ [])) (3 ∷ []) bob

abbrev tables : Option (Player Account) × Option PlayerSession
tables = (some bob_row, none)

abbrev request : LoginRequest
request = record { game_id = 1 ∷ []; device_id = []; platform = []; version = [] }

abbrev pub clock : Readings
clock = record { now = 10; login_at = 11; issued = 12 }

abbrev logged : LoginResult
logged = record {
  user = convert_to_api_types (logged_in 10 request bob_row);
  session_id = session_id_of lib (8 ∷ []);
  token = generate_token (session_id_of lib (8 ∷ []));
  expires_at = (12 + session_lifetime) / second;
}

abbrev calls : List Call
calls =
    login clock (user_id_of lib (7 ∷ [])) request (some (9 ∷ []))
    ∷ update (user_id_of lib (7 ∷ [])) (some (5 ∷ [])) none
    ∷ cleanup 500
    ∷ logout [] (4 ∷ [])
    ∷ []

login_player-IsAccepted_example :
    (logged.expires_at ≡ (12 + session_lifetime) / second)
    × IsAccepted (user_id_of lib (7 ∷ [])) (
        validate_session
          (one_row player_key)
          (one_row session_key)
          1000
          (session_id_of lib (8 ∷ []))
          (run lib
            (one_row player_key)
            (one_row session_key)
            calls
            (login_player lib
              (one_row player_key)
              (one_row session_key)
              clock
              (user_id_of lib (7 ∷ []))
              request
              (some (8 ∷ []))
              tables).0))
unfolding login_from get_player_by_id update_player create_session
login_player-IsAccepted_example =
    login_player-IsAccepted lib (one_row player_key) (one_row session_key) rows_of
      (one_row-IsTable player_key player_conflict) rows_of
      (one_row-IsTable session_key session_conflict) clock (user_id_of lib (7 ∷ [])) request
      (some (8 ∷ [])) tables logged calls 1000 refl (tt, (tt, (omega arith, (refl, tt))))
      (omega arith)

logout_player-validate_session_example :
    validate_session (one_row player_key) (one_row session_key) 20 (session_id_of lib (8 ∷ [])) (
      run lib
        (one_row player_key)
        (one_row session_key)
        calls
        (logout_player
          (one_row session_key)
          []
          (session_id_of lib (8 ∷ []))
          (login_player lib
            (one_row player_key)
            (one_row session_key)
            clock
            (user_id_of lib (7 ∷ []))
            request
            (some (8 ∷ []))
            tables).0).0)
    ≢ ok (convert_to_api_types bob_row)
unfolding login_from get_player_by_id update_player create_session logout_player invalidate_session
logout_player-validate_session_example =
    logout_player-validate_session lib (one_row player_key) (one_row session_key) rows_of
      (one_row-IsTable player_key player_conflict) rows_of
      (one_row-IsTable session_key session_conflict) [] (session_id_of lib (8 ∷ []))
      (login_player lib (one_row player_key) (one_row session_key) clock (user_id_of lib (7 ∷ []))
        request (some (8 ∷ [])) tables).0
      calls 20 (convert_to_api_types bob_row) refl (refl, tt)

matches : HashesMatch lib
matches salt password hashed e =
    let same : password ≡ hashed = cc in (list_beq_iff hashed password).1 (sym same)

differs :
    (hashed : List ℕ)
    → lib.generate_from_password [] (3 ∷ []) ≡ some hashed
    → lib.compare_hash_and_password hashed (4 ∷ []) ≡ false
differs hashed e = let same : ◌≡◌ {A = List ℕ} (3 ∷ []) hashed = cc in rw (← same) refl

register_player-login_player_by_username_example :
    let s2 = (register_player lib (one_row player_key) [] (some (7 ∷ [])) bob (none, none)).0 in
    IsLoggedIn
      (user_id_of lib (7 ∷ []))
      (login_player_by_username lib
        (one_row player_key)
        (one_row session_key)
        clock
        (2 ∷ [])
        (3 ∷ [])
        request
        (some (8 ∷ []))
        s2).1
    × IsWrong
        (login_player_by_username lib
          (one_row player_key)
          (one_row session_key)
          clock
          (2 ∷ [])
          (4 ∷ [])
          request
          (some (8 ∷ []))
          s2).1
    × ((login_player_by_username lib
          (one_row player_key)
          (one_row session_key)
          clock
          (2 ∷ [])
          (4 ∷ [])
          request
          (some (8 ∷ []))
          s2).0
        ≡ s2)
unfolding register_player create_player get_player_by_username
register_player-login_player_by_username_example =
    register_player-login_player_by_username lib (one_row player_key) (one_row session_key) rows_of
      (one_row-IsTable player_key player_conflict) [] (4 ∷ []) (some (7 ∷ [])) (some (8 ∷ [])) bob
      (convert_to_api_types bob_row) clock request (none, none) matches differs refl
