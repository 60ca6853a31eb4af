-- ===== src/Data/Players.antt =====
-- internal/data/dao/dao.go: the player and session methods of daoImpl, and the models of
-- internal/data/dao/models.go that they store. What gorm fills in itself (ID, CreatedAt, UpdatedAt)
-- and the extra data are left out.
use data_middleware.Prelude.{ℕ, Bool, false, ◌&&◌, ◌||◌, not, List, Option, ltb, list_beq}
use data_middleware.Business.Dao.{Queried, Written}
use data_middleware.Business.Players.{Player, PlayerDao}
use data_middleware.Data.Rows.{has}
use data_middleware.Data.Table.{Table, completed, ending}

-- The columns of a player beside the level, the experience and the balances.
pub record Account : Type 0 where
  pub user_id : List ℕ
  pub game_id : List ℕ
  pub username : List ℕ
  pub password : List ℕ
  pub email : List ℕ
  pub phone : List ℕ
  pub nickname : List ℕ
  pub avatar : List ℕ
  pub status : List ℕ
  pub last_login_at : Option ℕ
  pub last_login_ip : List ℕ
  pub device_id : List ℕ
  pub platform : List ℕ
  pub version : List ℕ

pub record PlayerSession : Type 0 where
  pub session_id : List ℕ
  pub user_id : List ℕ
  pub game_id : List ℕ
  pub token : List ℕ
  pub ip_address : List ℕ
  pub user_agent : List ℕ
  pub login_at : ℕ
  pub expire_at : ℕ
  pub is_active : Bool
  pub device_id : List ℕ

abbrev pub player_key : Player Account → List ℕ
player_key p = p.others.user_id

abbrev pub username_of : Player Account → List ℕ
username_of p = p.others.username

-- Both indices are unique.
abbrev pub player_conflict : Player Account → Player Account → Bool
player_conflict p q = has player_key (player_key p) q || has username_of (username_of p) q

abbrev pub session_key : PlayerSession → List ℕ
session_key x = x.session_id

abbrev pub session_conflict : PlayerSession → PlayerSession → Bool
session_conflict x = has session_key x.session_id

module _ {P : Type 0} (t : Table (Player Account) P) where
  unfoldable pub create_player : Player Account → P → P × Written
  create_player p s = t.create p s

  unfoldable pub get_player_by_id : List ℕ → P → Queried (Option (Player Account))
  get_player_by_id id s = t.first (has player_key id) s

  unfoldable pub get_player_by_username : List ℕ → P → Queried (Option (Player Account))
  get_player_by_username name s = t.first (has username_of name) s

  unfoldable pub update_player : Player Account → P → P × Written
  update_player p s = t.save p s

  abbrev pub player_dao : PlayerDao Account P
  player_dao = record { get_player_by_id = get_player_by_id; update_player = update_player }

abbrev pub deactivated : PlayerSession → PlayerSession
deactivated x = record x { is_active = false }

-- `expire_at < ? OR is_active = ?`
abbrev pub is_stale : ℕ → PlayerSession → Bool
is_stale now x = ltb x.expire_at now || not x.is_active

module _ {Q : Type 0} (t : Table PlayerSession Q) where
  unfoldable pub create_session : PlayerSession → Q → Q × Written
  create_session x s = t.create x s

  unfoldable pub get_session_by_id : List ℕ → Q → Queried (Option PlayerSession)
  get_session_by_id id s = t.first (has session_key id) s

  unfoldable pub get_active_sessions : List ℕ → Q → Queried (List PlayerSession)
  get_active_sessions user s = t.find (λ x. list_beq x.user_id user && x.is_active) s

  unfoldable pub invalidate_session : List ℕ → Q → Q × Written
  invalidate_session id s = ending completed (t.updates (has session_key id) deactivated s)

  unfoldable pub cleanup_expired_sessions : ℕ → Q → Q × Written
  cleanup_expired_sessions now s = ending completed (t.delete (is_stale now) s)
