-- ===== src/Server.antt =====
-- internal/api/handlers/tcp_server.go: what the server does with the messages of a connection, and
-- the message builders of internal/protocol/codec.go. json.Marshal of a body is a parameter, and so
-- is what the network writes; what is logged is left out. Times are nanoseconds.
pub mod Session
pub mod Reply
mod Tests
use data_middleware.Prelude.{
  ℕ, ◌/◌, ◌%◌, Bool, true, false, not, ◌||◌, List, [], ◌∷◌, Option, none, some, ◌==◌, if◌then◌else◌,
  list_beq, length,
}
use data_middleware.Protocol.Types.{
  Message, MessageHeader, protocol_version, flag_none, message_type_heartbeat,
  message_type_handshake, message_type_player_login, message_type_player_logout, message_type_error,
}
use data_middleware.Protocol.Connection.{
  Connection, Read, ReadResult, message, waiting, not_open, undecodable, network_error,
  read_message, send_message, close, authenticate, is_authenticated, update_heartbeat,
}

-- `缺少游戏ID或用户ID`
abbrev pub missing_identity : List ℕ
missing_identity =
    231 ∷ 188 ∷ 186 ∷ 229 ∷ 176 ∷ 145 ∷ 230 ∷ 184 ∷ 184 ∷ 230 ∷ 136 ∷ 143 ∷ 73 ∷ 68 ∷ 230 ∷ 136
    ∷ 150 ∷ 231 ∷ 148 ∷ 168 ∷ 230 ∷ 136 ∷ 183 ∷ 73 ∷ 68 ∷ []

-- `连接未认证`
abbrev pub not_authenticated : List ℕ
not_authenticated =
    232 ∷ 191 ∷ 158 ∷ 230 ∷ 142 ∷ 165 ∷ 230 ∷ 156 ∷ 170 ∷ 232 ∷ 174 ∷ 164 ∷ 232 ∷ 175 ∷ 129 ∷ []

-- `未知消息类型`
abbrev pub unknown_message_type : List ℕ
unknown_message_type =
    230 ∷ 156 ∷ 170 ∷ 231 ∷ 159 ∷ 165 ∷ 230 ∷ 182 ∷ 136 ∷ 230 ∷ 129 ∷ 175 ∷ 231 ∷ 177 ∷ 187 ∷ 229
    ∷ 158 ∷ 139 ∷ []

-- The bodies that json.Marshal makes of a game and a user, and of a code and a text.
pub record Marshal : Type 0 where
  pub handshake_body : List ℕ → List ℕ → List ℕ
  pub error_body : ℕ → List ℕ → List ℕ

-- `time.Now().Unix()`
abbrev pub unix : ℕ → ℕ
unix now = now / 1000000000

unfoldable pub create_heartbeat_message : ℕ → ℕ → Message
create_heartbeat_message now sequence_id = record {
  header = record {
    version = protocol_version;
    type = message_type_heartbeat;
    flags = flag_none;
    sequence_id = sequence_id;
    game_id = [];
    user_id = [];
    timestamp = unix now;
    body_length = 0;
    checksum = 0;
  };
  body = [];
}

module _ (json : Marshal) where
  unfoldable pub create_handshake_message : ℕ → List ℕ → List ℕ → ℕ → Message
  create_handshake_message now game_id user_id sequence_id =
      let body = json.handshake_body game_id user_id in
      record {
        header = record {
          version = protocol_version;
          type = message_type_handshake;
          flags = flag_none;
          sequence_id = sequence_id;
          game_id = game_id;
          user_id = user_id;
          timestamp = unix now;
          body_length = length body % 4294967296;
          checksum = 0;
        };
        body = body;
      }

  unfoldable pub create_error_message : ℕ → ℕ → List ℕ → ℕ → Message
  create_error_message now code text sequence_id =
      let body = json.error_body code text in
      record {
        header = record {
          version = protocol_version;
          type = message_type_error;
          flags = flag_none;
          sequence_id = sequence_id;
          game_id = [];
          user_id = [];
          timestamp = unix now;
          body_length = length body % 4294967296;
          checksum = 0;
        };
        body = body;
      }

  module _ (write : List ℕ → ℕ × Bool) where
    -- A call of SendMessage whose error is dropped, and the message that it is given.
    abbrev pub send : ℕ → Connection → Message → Connection × Option Message
    send now c r = ((send_message now write c r).0, some r)

    unfoldable pub handle_heartbeat : ℕ → Connection → Message → Connection × Option Message
    handle_heartbeat now c m =
        send now (update_heartbeat now c) (create_heartbeat_message now m.header.sequence_id)

    unfoldable pub handle_handshake : ℕ → Connection → Message → Connection × Option Message
    handle_handshake now c m =
        let game_id = m.header.game_id in
        let user_id = m.header.user_id in
        let sequence_id = m.header.sequence_id in
        if list_beq game_id [] || list_beq user_id []
        then send now c (create_error_message now 4001 missing_identity sequence_id)
        else send now (authenticate game_id user_id c)
            (create_handshake_message now game_id user_id sequence_id)

    unfoldable pub handle_player_login : ℕ → Connection → Message → Connection × Option Message
    handle_player_login now c m =
        if not (is_authenticated c)
        then send now c (create_error_message now 4002 not_authenticated m.header.sequence_id)
        else (c, none)

    unfoldable pub handle_player_logout : ℕ → Connection → Message → Connection × Option Message
    handle_player_logout now c m =
        if not (is_authenticated c)
        then send now c (create_error_message now 4002 not_authenticated m.header.sequence_id)
        else (c, none)

    unfoldable pub handle_unknown_message : ℕ → Connection → Message → Connection × Option Message
    handle_unknown_message now c m =
        send now c (create_error_message now 4003 unknown_message_type m.header.sequence_id)

    unfoldable pub handle_message : ℕ → Connection → Message → Connection × Option Message
    handle_message now c m =
        let type_ = m.header.type in
        if type_ == message_type_heartbeat
        then handle_heartbeat now c m
        else if type_ == message_type_handshake
        then handle_handshake now c m
        else if type_ == message_type_player_login
        then handle_player_login now c m
        else if type_ == message_type_player_logout
        then handle_player_logout now c m
        else handle_unknown_message now c m

-- A round of the loop: the server stops, or ReadMessage is called, with what the network then
-- delivers.
pub data Round : Type 0 where
  stops : Round
  reads_at : ℕ → List Read → Round

module _ (json : Marshal) (write : List ℕ → ℕ × Bool) where
  -- The loop of handleConnectionLoop, and the answers to its messages; at its end the connection is
  -- closed. It waits where ReadMessage does.
  unfoldable pub handle_connection_loop :
      List Round → Connection → Connection × List (Option Message)
  handle_connection_loop [] c = (c, [])
  handle_connection_loop (stops ∷ rounds) c = (close c, [])
  handle_connection_loop (reads_at now reads ∷ rounds) c =
      let (d, r) = read_message now c reads in
      elim r [
        | message m ↦
            let (next, answer) = handle_message json write now d m in
            let (end, answers) = handle_connection_loop rounds next in (end, answer ∷ answers)
        | waiting ↦ (d, [])
        | not_open ↦ (close d, [])
        | undecodable e ↦ (close d, [])
        | network_error ↦ (close d, [])
      ]
