-- ===== src/Business/Sessions/Calls.antt =====
-- player_service.go: histories of calls of PlayerService.
use data_middleware.Prelude.{ℕ, List, [], ◌∷◌, Option, ℤ}
use data_middleware.Business.Players.{Player, update_player_stats}
use data_middleware.Data.Table.{Table}
use data_middleware.Data.Players.{Account, PlayerSession, player_dao}
use data_middleware.Business.Sessions.{Libraries, LoginRequest, Readings, Registration}
use data_middleware.Business.Sessions.Register.{register_player, update_player_info}
use data_middleware.Business.Sessions.Login.{
  login_player, login_player_by_username, logout_player, cleanup_sessions,
}

-- A call of a method that changes a table, with what it draws and the readings of the clock.
pub data Call : Type 0 where
  register : List ℕ → Option (List ℕ) → Registration → Call
  login : Readings → List ℕ → LoginRequest → Option (List ℕ) → Call
  login_by_username : Readings → List ℕ → List ℕ → LoginRequest → Option (List ℕ) → Call
  logout : List ℕ → List ℕ → Call
  update : List ℕ → Option (List ℕ) → Option (List ℕ) → Call
  update_stats : List ℕ → ℤ → ℤ → ℤ → Call
  cleanup : ℕ → Call

module _ (lib : Libraries) {P Q : Type 0} (t : Table (Player Account) P)
    (u : Table PlayerSession Q) where
  unfoldable pub apply : Call → P × Q → P × Q
  apply (register salt random r) s = (register_player lib t salt random r s).0
  apply (login clock user r random) s = (login_player lib t u clock user r random s).0
  apply (login_by_username clock name password r random) s =
      (login_player_by_username lib t u clock name password r random s).0
  apply (logout user id) s = (logout_player u user id s).0
  apply (update user nickname avatar) s = (update_player_info t user nickname avatar s).0
  apply (update_stats user experience coins diamonds) s =
      ((update_player_stats (player_dao t) user experience coins diamonds s.0).0, s.1)
  apply (cleanup now) s = (cleanup_sessions u now s).0

  abbrev pub run : List Call → P × Q → P × Q
  run [] s = s
  run (c ∷ cs) s = run cs (apply c s)
