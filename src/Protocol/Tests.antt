-- ===== src/Protocol/Tests.antt =====
-- The protocol on concrete inputs.
use data_middleware.Prelude.{◌≡◌, ◌≢◌, refl, true, [], ◌∷◌, ◌++◌, length, take, arith, map}
use mathlib.Core.List.{flatten}
use data_middleware.Prelude.Bytes.{crc32}
use data_middleware.Protocol.Types.{Message, IsHeader, ConnectionConfig}
use data_middleware.Protocol.Binary.{encode, decode, decoded, checksum_mismatch}
use data_middleware.Protocol.Binary.Frame.{covered}
use data_middleware.Protocol.Binary.RoundTrip.{Fits, received, decode-encode}
use data_middleware.Protocol.Binary.Prefix.{Wants, decode-take-Wants}
use data_middleware.Protocol.Connection.{
  Connection, new_connection, start, bytes, read_error, read_message, receive, undecodable,
}
use data_middleware.Protocol.Connection.Heartbeat
use data_middleware.Protocol.Connection.Heartbeat.{
  heartbeat_closures, check_heartbeat-closes_iff, heartbeat_closures-new_connection,
}
use data_middleware.Protocol.Connection.Reading.{
  Delivers, read_message-Delivers, read_message_together,
}
use data_middleware.Protocol.Manager.{
  ConnectionManager, new_connection_manager, get_connections_by_game, get_connections_by_user,
  get_stats,
}
use data_middleware.Protocol.Manager.Capacity
use data_middleware.Protocol.Manager.Capacity.{run-new_connection_manager-IsValid}
use data_middleware.Protocol.Manager.Cleanup.{count_of, count_of-get_stats}

abbrev login : Message
login = record {
  header = record {
    version = 1;
    type = 0x1001;
    flags = 0;
    sequence_id = 5;
    game_id = 103 ∷ [];
    user_id = 117 ∷ [];
    timestamp = 9;
    body_length = 0;
    checksum = 0;
  };
  body = 1 ∷ 2 ∷ [];
}

login-IsHeader : IsHeader login.header
login-IsHeader = record {
  version_fits = omega arith;
  type_fits = omega arith;
  flags_fits = omega arith;
  sequence_id_fits = omega arith;
  timestamp_fits = omega arith;
}

login-Fits : Fits login
login-Fits = record {
  header_fits = login-IsHeader;
  game_id_fits = omega arith;
  user_id_fits = omega arith;
  body_fits = omega arith;
}

decode-encode_example : decode (encode login).0 ≡ decoded (received login) (length (encode login).0)
decode-encode_example = decode-encode login login-Fits

length-encode-login : length (encode login).0 ≡ 32
unfolding encode
length-encode-login = refl

decode-take-Wants_example : Wants (decode (take 30 (encode login).0))
decode-take-Wants_example =
    decode-take-Wants login 30 login-IsHeader (omega (arith, length-encode-login))

abbrev config : ConnectionConfig
config = record {
  max_connections = 2;
  read_timeout = 30;
  write_timeout = 30;
  buffer_size = 4096;
  heartbeat = record { enabled = true; interval = 30; timeout = 90; max_missed = 3 };
  idle_timeout = 300;
  cleanup_interval = 60;
}

abbrev client : Connection
client = start (new_connection (99 ∷ []) 1 config)

heartbeat_closures-new_connection_example :
    heartbeat_closures (new_connection (99 ∷ []) 1 config) (
      Heartbeat.starts
      ∷ Heartbeat.heartbeat_checked 1000
      ∷ Heartbeat.heartbeat_checked 2000
      ∷ Heartbeat.heartbeat_checked 3000
      ∷ [])
    ≡ 0
heartbeat_closures-new_connection_example =
    heartbeat_closures-new_connection (99 ∷ []) 1 config
      (Heartbeat.starts
        ∷ Heartbeat.heartbeat_checked 1000
        ∷ Heartbeat.heartbeat_checked 2000
        ∷ Heartbeat.heartbeat_checked 3000
        ∷ [])
      (omega arith)

read_message-Delivers_example :
    Delivers
      (received login)
      (read_message 7 client (map bytes (take 29 (encode login).0 ∷ (117 ∷ 1 ∷ 2 ∷ []) ∷ [])))
unfolding start new_connection encode flatten
read_message-Delivers_example =
    read_message-Delivers login 7 client (take 29 (encode login).0 ∷ (117 ∷ 1 ∷ 2 ∷ []) ∷ [])
      login-Fits refl refl refl

checksum_notices : crc32 (covered login ++ (0 ∷ [])) ≢ crc32 (covered login)
unfolding crc32
checksum_notices = λ e. omega (arith, e)

read_message_together_example :
    read_message 7 client (bytes ((encode login).0 ++ (0 ∷ [])) ∷ read_error ∷ [])
    ≡ (receive client ((encode login).0 ++ (0 ∷ [])), undecodable checksum_mismatch)
unfolding start new_connection
read_message_together_example =
    read_message_together login (0 ∷ []) 7 client (read_error ∷ []) login-IsHeader checksum_notices
      refl refl

run-new_connection_manager-IsValid_example : Capacity.IsValid config (
    Capacity.run
      (new_connection_manager config)
      (Capacity.adds (1 ∷ []) 1 ∷ Capacity.adds (2 ∷ []) 2 ∷ Capacity.adds (3 ∷ []) 3 ∷ []))
run-new_connection_manager-IsValid_example =
    run-new_connection_manager-IsValid config
      (Capacity.adds (1 ∷ []) 1 ∷ Capacity.adds (2 ∷ []) 2 ∷ Capacity.adds (3 ∷ []) 3 ∷ [])

abbrev manager : ConnectionManager
manager = record { config = config; connections = ((99 ∷ []), client) ∷ [] }

count_of-get_stats_example :
    (count_of (103 ∷ []) (get_stats manager).0
      ≡ length (get_connections_by_game (103 ∷ []) manager))
    × (count_of (103 ∷ []) (get_stats manager).1
        ≡ length (get_connections_by_user (103 ∷ []) manager))
count_of-get_stats_example = count_of-get_stats (103 ∷ []) manager refl
