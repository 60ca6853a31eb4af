-- ===== src/Server/Tests.antt =====
-- The server's session on concrete inputs.
use mathlib.Core.List.{flatten}
use data_middleware.Prelude.{
  ℕ, ◌≡◌, ◌<◌, refl, true, List, [], ◌∷◌, length, none, arith, take, drop,
}
use data_middleware.Protocol.Types.{Message, ConnectionConfig}
use data_middleware.Protocol.Binary.{encode, decode, decoded}
use data_middleware.Protocol.Binary.RoundTrip.{Fits, received}
use data_middleware.Protocol.Connection.{new_connection, start}
use data_middleware.Server.{Marshal, create_handshake_message, handle_connection_loop}
use data_middleware.Server.Session.{
  respond, greet, Delivery, AllDelivered, rounds_of, answers, handle_connection_loop-answers,
}
use data_middleware.Server.Reply.{IsCompact, decode-respond}

abbrev json : Marshal
json = record {
  handshake_body = λ game user. 123 ∷ 125 ∷ [];
  error_body = λ code text. 123 ∷ 125 ∷ [];
}

json-IsCompact : IsCompact json
json-IsCompact = record {
  handshake_fits = λ g u p q. omega arith;
  error_fits = λ code text l. omega arith;
}

abbrev config : ConnectionConfig
config = record {
  max_connections = 2;
  read_timeout = 30;
  write_timeout = 30;
  buffer_size = 4096;
  heartbeat = record { enabled = true; interval = 30; timeout = 90; max_missed = 3 };
  idle_timeout = 300;
  cleanup_interval = 60;
}

-- A message of a type, from the user 117 of the game 103.
abbrev message_of : ℕ → Message
message_of type_ = record {
  header = record {
    version = 1;
    type = type_;
    flags = 0;
    sequence_id = 5;
    game_id = 103 ∷ [];
    user_id = 117 ∷ [];
    timestamp = 9;
    body_length = 0;
    checksum = 0;
  };
  body = [];
}

message_of-Fits : (type_ : ℕ) → type_ < 65536 → Fits (message_of type_)
message_of-Fits type_ l = record {
  header_fits = record {
    version_fits = omega arith;
    type_fits = l;
    flags_fits = omega arith;
    sequence_id_fits = omega arith;
    timestamp_fits = omega arith;
  };
  game_id_fits = omega arith;
  user_id_fits = omega arith;
  body_fits = omega arith;
}

-- A login that comes too early, a handshake in two pieces, and a login.
abbrev whole : ℕ → Delivery
whole type_ = record {
  at_time = 4000000000;
  sent_message = message_of type_;
  pieces = (encode (message_of type_)).0 ∷ [];
}

abbrev in_pieces : Delivery
in_pieces = record {
  at_time = 5000000000;
  sent_message = message_of 2;
  pieces = take 29 (encode (message_of 2)).0 ∷ drop 29 (encode (message_of 2)).0 ∷ [];
}

abbrev deliveries : List Delivery
deliveries = whole 0x1001 ∷ in_pieces ∷ whole 0x1001 ∷ []

all_delivered : AllDelivered deliveries
unfolding flatten encode
all_delivered = (
  record { fits = message_of-Fits 0x1001 (omega arith); complete = refl },
  (
    record { fits = message_of-Fits 2 (omega arith); complete = refl },
    (record { fits = message_of-Fits 0x1001 (omega arith); complete = refl }, tt),
  ),
)

handle_connection_loop-answers_example :
    (handle_connection_loop json
      (λ b. (length b, true))
      (rounds_of deliveries)
      (start (new_connection (99 ∷ []) 1 config))).1
    ≡ answers json none deliveries
handle_connection_loop-answers_example =
    handle_connection_loop-answers json (λ b. (length b, true)) (99 ∷ []) 1 config deliveries
      all_delivered

abbrev welcome : Message
welcome = create_handshake_message json 5000000000 (103 ∷ []) (117 ∷ []) 5

decode-respond_example :
    (decode (encode welcome).0 ≡ decoded (received welcome) (length (encode welcome).0))
    × (welcome.header.sequence_id ≡ 5)
unfolding respond greet
decode-respond_example =
    decode-respond json 5000000000 none (message_of 2) welcome json-IsCompact
      (message_of-Fits 2 (omega arith)) (omega arith) refl
