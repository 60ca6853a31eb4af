-- ===== src/Business/Sessions.antt =====
-- internal/business/common/player_service.go: registration, login and sessions of PlayerService,
-- over the data access object. bcrypt, crypto/rand and hex.EncodeToString are parameters: a call
-- is given the salt and the bytes that it draws, `none` where the source of randomness fails. The
-- clock is in nanoseconds, and each reading of it is an argument.
pub mod Register
pub mod Login
pub mod Calls
pub mod Steps
pub mod Moves
pub mod Open
pub mod Lasting
pub mod Ended
pub mod Credentials
pub mod Registered
use data_middleware.Prelude.{
  ℕ, ◌+◌, ◌*◌, ◌/◌, Bool, true, false, List, [], ◌∷◌, ◌++◌, Option, none, some, ℤ, pos, ltb,
  list_beq, if◌then◌else◌,
}
use data_middleware.Business.Dao.{Queried, answer, unavailable, Written, done, refused}
use data_middleware.Business.Players.{Player}
use data_middleware.Data.Table.{Table}
use data_middleware.Data.Players.{
  Account, PlayerSession, create_player, get_player_by_id, get_player_by_username, update_player,
  create_session, get_session_by_id, invalidate_session, cleanup_expired_sessions,
}

pub record Libraries : Type 0 where
  pub generate_from_password : List ℕ → List ℕ → Option (List ℕ)
  pub compare_hash_and_password : List ℕ → List ℕ → Bool
  pub encode_to_string : List ℕ → List ℕ

pub data ServiceError : Type 0 where
  database username_taken no_user_id no_hash no_such_username wrong_password : ServiceError
  player_not_found no_session_id session_not_found session_inactive session_expired : ServiceError
  bad_status : List ℕ → ServiceError

pub data Result (A : Type 0) : Type 0 where
  ok : A → Result A
  failed : ServiceError → Result A

-- `types.Player`, which has no password.
pub record ApiPlayer : Type 0 where
  pub user_id : List ℕ
  pub game_id : List ℕ
  pub username : List ℕ
  pub email : List ℕ
  pub phone : List ℕ
  pub nickname : List ℕ
  pub avatar : List ℕ
  pub level : ℕ
  pub experience : ℤ
  pub coins : ℤ
  pub diamonds : ℤ
  pub status : List ℕ
  pub last_login_at : Option ℕ

abbrev pub convert_to_api_types : Player Account → ApiPlayer
convert_to_api_types p = record {
  user_id = p.others.user_id;
  game_id = p.others.game_id;
  username = p.others.username;
  email = p.others.email;
  phone = p.others.phone;
  nickname = p.others.nickname;
  avatar = p.others.avatar;
  level = p.level;
  experience = p.experience;
  coins = p.coins;
  diamonds = p.diamonds;
  status = p.others.status;
  last_login_at = p.others.last_login_at;
}

pub record LoginResult : Type 0 where
  pub user : ApiPlayer
  pub session_id : List ℕ
  pub token : List ℕ
  pub expires_at : ℕ

-- `active`
abbrev pub active : List ℕ
active = 97 ∷ 99 ∷ 116 ∷ 105 ∷ 118 ∷ 101 ∷ []

-- `user_`
abbrev pub user_prefix : List ℕ
user_prefix = 117 ∷ 115 ∷ 101 ∷ 114 ∷ 95 ∷ []

-- `sess_`
abbrev pub sess_prefix : List ℕ
sess_prefix = 115 ∷ 101 ∷ 115 ∷ 115 ∷ 95 ∷ []

-- `token_`
abbrev pub token_prefix : List ℕ
token_prefix = 116 ∷ 111 ∷ 107 ∷ 101 ∷ 110 ∷ 95 ∷ []

unfoldable pub generate_token : List ℕ → List ℕ
generate_token session_id = token_prefix ++ session_id

-- `time.Second`
abbrev pub second : ℕ
second = 1000000000

-- `24 * time.Hour`
abbrev pub session_lifetime : ℕ
session_lifetime = 86400 * second

-- What a client sends to log in.
pub record LoginRequest : Type 0 where
  pub game_id : List ℕ
  pub device_id : List ℕ
  pub platform : List ℕ
  pub version : List ℕ

-- The readings of the clock in one login.
pub record Readings : Type 0 where
  pub now : ℕ
  pub login_at : ℕ
  pub issued : ℕ

-- What a new player sends.
pub record Registration : Type 0 where
  pub game_id : List ℕ
  pub username : List ℕ
  pub password : List ℕ
  pub email : List ℕ
  pub phone : List ℕ

-- The player that RegisterPlayer creates.
abbrev pub new_player : List ℕ → List ℕ → Registration → Player Account
new_player user_id hashed_password r = record {
  level = 1;
  experience = pos 0;
  coins = pos 1000;
  diamonds = pos 100;
  others = record {
    user_id = user_id;
    game_id = r.game_id;
    username = r.username;
    password = hashed_password;
    email = r.email;
    phone = r.phone;
    nickname = r.username;
    avatar = [];
    status = active;
    last_login_at = none;
    last_login_ip = [];
    device_id = [];
    platform = [];
    version = [];
  };
}

-- The player as LoginPlayer saves it.
abbrev pub logged_in : ℕ → LoginRequest → Player Account → Player Account
logged_in now r p = record p {
  others = record p.others {
    last_login_at = some now;
    last_login_ip = [];
    device_id = r.device_id;
    platform = r.platform;
    version = r.version;
  };
}

-- The session that LoginPlayer creates.
abbrev pub new_session : Readings → List ℕ → LoginRequest → List ℕ → PlayerSession
new_session clock user_id r session_id = record {
  session_id = session_id;
  user_id = user_id;
  game_id = r.game_id;
  token = generate_token session_id;
  ip_address = [];
  user_agent = [];
  login_at = clock.login_at;
  expire_at = clock.issued + session_lifetime;
  is_active = true;
  device_id = r.device_id;
}

-- The keys `nickname` and `avatar` of the updates, where they hold texts.
abbrev pub with_text : Option (List ℕ) → List ℕ → List ℕ
with_text none old = old
with_text (some text) old = text

abbrev pub with_updates : Option (List ℕ) → Option (List ℕ) → Player Account → Player Account
with_updates nickname avatar p = record p {
  others = record p.others {
    nickname = with_text nickname p.others.nickname;
    avatar = with_text avatar p.others.avatar;
  };
}

module _ {P Q : Type 0} where
  -- The end of a call that saves a player.
  abbrev pub saved : Q → Player Account → P × Written → (P × Q) × Result ApiPlayer
  saved sessions p (s, done) = ((s, sessions), ok (convert_to_api_types p))
  saved sessions p (s, refused) = ((s, sessions), failed database)

module _ (lib : Libraries) where
  abbrev pub session_id_of : List ℕ → List ℕ
  session_id_of bytes = sess_prefix ++ lib.encode_to_string bytes

  abbrev pub user_id_of : List ℕ → List ℕ
  user_id_of bytes = user_prefix ++ lib.encode_to_string bytes
