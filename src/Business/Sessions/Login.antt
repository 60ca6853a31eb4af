-- ===== src/Business/Sessions/Login.antt =====
-- player_service.go: logins, logouts and the validation of sessions of PlayerService.
use data_middleware.Prelude.{ℕ, ◌/◌, List, Option, none, some, ltb, list_beq, if◌then◌else◌}
use data_middleware.Business.Dao.{Queried, answer, unavailable, Written, done, refused}
use data_middleware.Business.Players.{Player}
use data_middleware.Data.Table.{Table}
use data_middleware.Data.Players.{
  Account, PlayerSession, get_player_by_id, get_player_by_username, update_player, create_session,
  get_session_by_id, invalidate_session, cleanup_expired_sessions,
}
use data_middleware.Business.Sessions.{
  Libraries, ServiceError, database, no_such_username, wrong_password, player_not_found,
  no_session_id, session_not_found, session_inactive, session_expired, bad_status, Result, ok,
  failed, ApiPlayer, convert_to_api_types, LoginResult, active, second, LoginRequest, Readings,
  logged_in, new_session, session_id_of,
}
use data_middleware.Business.Sessions.Register.{get_player}

module _ {P Q : Type 0} where
  -- The end of LoginPlayer.
  abbrev pub session_created :
      P → Player Account → PlayerSession → Q × Written → (P × Q) × Result LoginResult
  session_created s p x (sessions, refused) = ((s, sessions), failed database)
  session_created s p x (sessions, done) = (
    (s, sessions),
    ok record {
      user = convert_to_api_types p;
      session_id = x.session_id;
      token = x.token;
      expires_at = x.expire_at / second;
    },
  )

module _ (lib : Libraries) {P Q : Type 0} (u : Table PlayerSession Q) where
  -- LoginPlayer, from the identifier of the session on.
  abbrev pub open_session :
      Readings
      → List ℕ
      → LoginRequest
      → Player Account
      → P × Q
      → Option (List ℕ)
      → (P × Q) × Result LoginResult
  open_session clock user_id r p s none = (s, failed no_session_id)
  open_session clock user_id r p (s, sessions) (some bytes) =
      let x = new_session clock user_id r (session_id_of lib bytes) in
      session_created s p x (create_session u x sessions)

module _ (lib : Libraries) {P Q : Type 0} (t : Table (Player Account) P)
    (u : Table PlayerSession Q) where
  -- LoginPlayer, after the player is saved.
  abbrev pub login_saved :
      Readings
      → List ℕ
      → LoginRequest
      → Option (List ℕ)
      → Player Account
      → Q
      → P × Written
      → (P × Q) × Result LoginResult
  login_saved clock user_id r random p sessions (s, refused) = ((s, sessions), failed database)
  login_saved clock user_id r random p sessions (s, done) =
      open_session lib u clock user_id r p (s, sessions) random

  -- LoginPlayer, from what the query gives.
  unfoldable pub login_from :
      Readings
      → List ℕ
      → LoginRequest
      → Option (List ℕ)
      → P × Q
      → Queried (Option (Player Account))
      → (P × Q) × Result LoginResult
  login_from clock user_id r random s unavailable = (s, failed database)
  login_from clock user_id r random s (answer none) = (s, failed player_not_found)
  login_from clock user_id r random (s, sessions) (answer (some p)) =
      let q = logged_in clock.now r p in
      if list_beq p.others.status active
      then login_saved clock user_id r random q sessions (update_player t q s)
      else ((s, sessions), failed (bad_status p.others.status))

  abbrev pub login_player :
      Readings → List ℕ → LoginRequest → Option (List ℕ) → P × Q → (P × Q) × Result LoginResult
  login_player clock user_id r random s =
      login_from clock user_id r random s (get_player_by_id t user_id s.0)

  -- LoginPlayerByUsername, from what the query gives.
  unfoldable pub login_by_username_from :
      Readings
      → List ℕ
      → LoginRequest
      → Option (List ℕ)
      → P × Q
      → Queried (Option (Player Account))
      → (P × Q) × Result LoginResult
  login_by_username_from clock password r random s unavailable = (s, failed database)
  login_by_username_from clock password r random s (answer none) = (s, failed no_such_username)
  login_by_username_from clock password r random s (answer (some p)) =
      if lib.compare_hash_and_password p.others.password password
      then (if list_beq p.others.status active
          then login_player clock p.others.user_id r random s
          else (s, failed (bad_status p.others.status)))
      else (s, failed wrong_password)

  abbrev pub login_player_by_username :
      Readings
      → List ℕ
      → List ℕ
      → LoginRequest
      → Option (List ℕ)
      → P × Q
      → (P × Q) × Result LoginResult
  login_player_by_username clock username password r random s =
      login_by_username_from clock password r random s (get_player_by_username t username s.0)
  -- `none` is success.

module _ {P Q : Type 0} (u : Table PlayerSession Q) where
  unfoldable pub logout_player : List ℕ → List ℕ → P × Q → (P × Q) × Option ServiceError
  logout_player user_id session_id s =
      let r = invalidate_session u session_id s.1 in
      ((s.0, r.0), elim r.1 [ done ↦ none | refused ↦ some database ])

  unfoldable pub cleanup_sessions : ℕ → P × Q → (P × Q) × Option ServiceError
  cleanup_sessions now s =
      let r = cleanup_expired_sessions u now s.1 in
      ((s.0, r.0), elim r.1 [ done ↦ none | refused ↦ some database ])

module _ {P Q : Type 0} (t : Table (Player Account) P) (u : Table PlayerSession Q) where
  -- ValidateSession, from the row of the session.
  unfoldable pub validate_from : ℕ → P × Q → Queried (Option PlayerSession) → Result ApiPlayer
  validate_from now s unavailable = failed database
  validate_from now s (answer none) = failed session_not_found
  validate_from now s (answer (some x)) =
      if x.is_active
      then (if ltb x.expire_at now then failed session_expired else get_player t x.user_id s)
      else failed session_inactive

  abbrev pub validate_session : ℕ → List ℕ → P × Q → Result ApiPlayer
  validate_session now session_id s = validate_from now s (get_session_by_id u session_id s.1)
