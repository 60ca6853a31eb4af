-- ===== src/Protocol/Types.antt =====
-- internal/common/types/protocol.go: message headers, connection states, configuration.
-- A string is the list of its bytes. An int64 time stamp stands as its two's complement pattern,
-- so that Go's conversions between int64 and uint64 are the identity.
use data_middleware.Prelude.{ℕ, ◌<◌, Bool, List}

abbrev pub protocol_version : ℕ
protocol_version = 1

abbrev pub message_type_heartbeat : ℕ
message_type_heartbeat = 0x0001

abbrev pub message_type_handshake : ℕ
message_type_handshake = 0x0002

abbrev pub message_type_player_login : ℕ
message_type_player_login = 0x1001

abbrev pub message_type_player_logout : ℕ
message_type_player_logout = 0x1002

abbrev pub message_type_item_operation : ℕ
message_type_item_operation = 0x1004

abbrev pub message_type_order_operation : ℕ
message_type_order_operation = 0x1005

abbrev pub message_type_error : ℕ
message_type_error = 0x2001

abbrev pub flag_none : ℕ
flag_none = 0

pub record MessageHeader : Type 0 where
  pub version : ℕ
  pub type : ℕ
  pub flags : ℕ
  pub sequence_id : ℕ
  pub game_id : List ℕ
  pub user_id : List ℕ
  pub timestamp : ℕ
  pub body_length : ℕ
  pub checksum : ℕ

pub record Message : Type 0 where
  pub header : MessageHeader
  pub body : List ℕ

-- The values that the header's machine types hold.
pub record IsHeader (h : MessageHeader) : Type 0 where
  pub version_fits : h.version < 256
  pub type_fits : h.type < 65536
  pub flags_fits : h.flags < 256
  pub sequence_id_fits : h.sequence_id < 4294967296
  pub timestamp_fits : h.timestamp < 18446744073709551616

pub data ConnectionState : Type 0 where
  connecting connected authenticated closing closed : ConnectionState

pub record HeartbeatConfig : Type 0 where
  pub enabled : Bool
  pub interval : ℕ
  pub timeout : ℕ
  pub max_missed : ℕ

pub record ConnectionConfig : Type 0 where
  pub max_connections : ℕ
  pub read_timeout : ℕ
  pub write_timeout : ℕ
  pub buffer_size : ℕ
  pub heartbeat : HeartbeatConfig
  pub idle_timeout : ℕ
  pub cleanup_interval : ℕ

pub record ConnectionInfo : Type 0 where
  pub state : ConnectionState
  pub connected_at : ℕ
  pub last_activity : ℕ
  pub game_id : List ℕ
  pub user_id : List ℕ
  pub bytes_received : ℕ
  pub bytes_sent : ℕ
  pub messages_received : ℕ
  pub messages_sent : ℕ
