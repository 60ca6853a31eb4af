-- ===== src/Server/Reply.antt =====
-- tcp_server.go and codec.go: the answers to messages on the wire.
use data_middleware.Prelude.{
  ℕ, ◌<◌, ◌≡◌, refl, Bool, true, false, ◌||◌, List, [], Option, none, some, ◌==◌, if◌then◌else◌,
  list_beq, length, arith,
}
use data_middleware.Protocol.Types.{
  Message, IsHeader, protocol_version, flag_none, message_type_heartbeat, message_type_handshake,
  message_type_player_login, message_type_player_logout,
}
use data_middleware.Protocol.Binary.{encode, decode, decoded}
use data_middleware.Protocol.Binary.RoundTrip.{Fits, received, decode-encode}
use data_middleware.Server.{
  Marshal, unix, missing_identity, not_authenticated, unknown_message_type,
  create_heartbeat_message, create_handshake_message, create_error_message,
}
use data_middleware.Server.Session.{Session, greet, admit, respond}

-- The marshalled bodies of names that fit fit the format too.
pub record IsCompact (json : Marshal) : Type 0 where
  pub handshake_fits :
      (game_id user_id : List ℕ)
      → length game_id < 65536
      → length user_id < 65536
      → length (json.handshake_body game_id user_id) < 4294967296
  pub error_fits :
      (code : ℕ) (text : List ℕ)
      → length text < 65536
      → length (json.error_body code text) < 4294967296

-- An answer, if there is one, fits the format and has the sequence number.
Answers : ℕ → Option Message → Type 0
Answers sequence_id none = Unit
Answers sequence_id (some r) = Fits r × (r.header.sequence_id ≡ sequence_id)

if_Answers :
    {A : Type 0} (sequence_id : ℕ) (b : Bool) (x y : A × Option Message)
    → Answers sequence_id x.1
    → Answers sequence_id y.1
    → Answers sequence_id (if b then x else y).1
if_Answers n true x y p q = p
if_Answers n false x y p q = q

unix_fits : (now : ℕ) → now < 18446744073709551616 → unix now < 18446744073709551616
unix_fits now h = omega arith

module _ (json : Marshal) (compact : IsCompact json) (now : ℕ) (soon : now < 18446744073709551616)
    (m : Message) (f : Fits m) where
  -- The headers that the server makes.
  own-IsHeader :
      (type_ : ℕ)
      → type_ < 65536
      → (game_id user_id : List ℕ) (body_length : ℕ)
      → IsHeader (record {
        version = protocol_version;
        type = type_;
        flags = flag_none;
        sequence_id = m.header.sequence_id;
        game_id = game_id;
        user_id = user_id;
        timestamp = unix now;
        body_length = body_length;
        checksum = 0;
      })
  own-IsHeader type_ l game_id user_id body_length = record {
    version_fits = omega arith;
    type_fits = l;
    flags_fits = omega arith;
    sequence_id_fits = f.header_fits.sequence_id_fits;
    timestamp_fits = unix_fits now soon;
  }

  error-Answers :
      (code : ℕ) (text : List ℕ)
      → length text < 65536
      → Answers m.header.sequence_id
          (some (create_error_message json now code text m.header.sequence_id))
  unfolding create_error_message Answers
  error-Answers code text l = (
    record {
      header_fits = own-IsHeader _ (omega arith) _ _ _;
      game_id_fits = omega arith;
      user_id_fits = omega arith;
      body_fits = compact.error_fits code text l;
    },
    refl,
  )

  heartbeat-Answers :
      Answers m.header.sequence_id (some (create_heartbeat_message now m.header.sequence_id))
  unfolding create_heartbeat_message Answers
  heartbeat-Answers = (
    record {
      header_fits = own-IsHeader _ (omega arith) _ _ _;
      game_id_fits = omega arith;
      user_id_fits = omega arith;
      body_fits = omega arith;
    },
    refl,
  )

  handshake-Answers : Answers m.header.sequence_id (
      some
        (create_handshake_message json now m.header.game_id m.header.user_id m.header.sequence_id))
  unfolding create_handshake_message Answers
  handshake-Answers = (
    record {
      header_fits = own-IsHeader _ (omega arith) _ _ _;
      game_id_fits = f.game_id_fits;
      user_id_fits = f.user_id_fits;
      body_fits =
          compact.handshake_fits m.header.game_id m.header.user_id f.game_id_fits f.user_id_fits;
    },
    refl,
  )

  admit-Answers : (s : Session) → Answers m.header.sequence_id (admit json now s m).1
  unfolding admit Answers
  admit-Answers none = error-Answers 4002 not_authenticated (omega arith)
  admit-Answers (some who) = tt

  respond-Answers : (s : Session) → Answers m.header.sequence_id (respond json now s m).1
  unfolding respond greet
  respond-Answers s =
      let n = m.header.sequence_id in
      let type_ = m.header.type in
      if_Answers n (type_ == message_type_heartbeat) _ _ heartbeat-Answers (
        if_Answers n (type_ == message_type_handshake) _ _
          (if_Answers n (list_beq m.header.game_id [] || list_beq m.header.user_id []) _ _
            (error-Answers 4001 missing_identity (omega arith)) handshake-Answers)
          (if_Answers n (type_ == message_type_player_login || type_ == message_type_player_logout)
            _ _ (admit-Answers s) (error-Answers 4003 unknown_message_type (omega arith))))

-- Before the year 2554, a client decodes the answer to a message that fits, if there is one, as it
-- was sent, and its sequence number is that of the message. The bodies that are marshalled of names
-- and texts below 65536 bytes have to be below 2 ^ 32 bytes.
pub decode-respond :
    (json : Marshal) (now : ℕ) (s : Session) (m r : Message)
    → IsCompact json
    → Fits m
    → now < 18446744073709551616
    → (respond json now s m).1 ≡ some r
    → (decode (encode r).0 ≡ decoded (received r) (length (encode r).0))
      × (r.header.sequence_id ≡ m.header.sequence_id)
unfolding Answers
decode-respond json now s m r compact f soon e =
    let (g, n) : Answers m.header.sequence_id (some r) =
      rw e at (respond-Answers json compact now soon m f s) in
    (decode-encode r g, n)
