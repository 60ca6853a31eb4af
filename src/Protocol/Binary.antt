-- ===== src/Protocol/Binary.antt =====
-- internal/protocol/codec.go: BinaryCodec. A buffer is the list of its bytes; `Encode` fills the
-- buffer from left to right, so the buffer is the concatenation of what it writes.

pub mod Frame
pub mod RoundTrip
pub mod Prefix
pub mod Accepts
use data_middleware.Prelude.{
  ℕ, ◌+◌, ◌-◌, ◌%◌, ◌≤◌, ◌<◌, ◌≡◌, refl, Bool, true, false, List, [], ◌∷◌, ◌++◌, arith, ltb, ◌==◌,
  if◌then◌else◌, length, take, drop, get_or,
}
use data_middleware.Prelude.Bytes.{slice, put_uint16, put_uint32, put_uint64, uint, crc32}
use data_middleware.Protocol.Types.{Message, MessageHeader}

-- The errors of `Decode`, by their messages.
pub data DecodeError : Type 0 where
  short_message short_game_id short_user_id short_body checksum_mismatch : DecodeError

-- `isInsufficientDataError`: the messages of the first four say that data is missing.
unfoldable pub is_insufficient_data_error : DecodeError → Bool
is_insufficient_data_error short_message = true
is_insufficient_data_error short_game_id = true
is_insufficient_data_error short_user_id = true
is_insufficient_data_error short_body = true
is_insufficient_data_error checksum_mismatch = false

-- `(msg, consumed, nil)` or `(nil, consumed, err)`.
pub data Outcome : Type 0 where
  decoded : Message → ℕ → Outcome
  failed : ℕ → DecodeError → Outcome

-- The 20 bytes before the checksum.
abbrev pub fixed_part : Message → List ℕ
fixed_part m =
    m.header.version
    ∷ (put_uint16 m.header.type
        ++ (m.header.flags
            ∷ (put_uint32 m.header.sequence_id
                ++ (put_uint64 m.header.timestamp ++ put_uint32 (length m.body % 4294967296)))))

-- The bytes behind the checksum; lengths are cut to their field, and `copy` to the length.
abbrev pub variable_part : Message → List ℕ
variable_part m =
    let game_id_len = length m.header.game_id % 65536 in
    let user_id_len = length m.header.user_id % 65536 in
    let body_len = length m.body % 4294967296 in
    put_uint16 game_id_len
    ++ (put_uint16 user_id_len
        ++ (take game_id_len m.header.game_id
            ++ (take user_id_len m.header.user_id ++ take body_len m.body)))

-- All of the buffer but the checksum's four bytes.
abbrev pub checksum_data : List ℕ → List ℕ
checksum_data buffer = take 20 buffer ++ drop 24 buffer

-- The buffer, and the message with its checksum set.
unfoldable pub encode : Message → List ℕ × Message
encode m =
    let blank = fixed_part m ++ (put_uint32 0 ++ variable_part m) in
    let checksum = crc32 (checksum_data blank) in
    (
      take 20 blank ++ (put_uint32 checksum ++ drop 24 blank),
      record m { header = record (m.header) { checksum = checksum } },
    )

-- The header and the body at the offsets that the two lengths decide.
abbrev pub parse : List ℕ → ℕ → ℕ → ℕ → Message
parse d game_id_len user_id_len body_len = record {
  header = record {
    version = get_or d 0 0;
    type = uint (slice d 1 3);
    flags = get_or d 3 0;
    sequence_id = uint (slice d 4 8);
    game_id = slice d 28 (28 + game_id_len);
    user_id = slice d (28 + game_id_len) (28 + game_id_len + user_id_len);
    timestamp = uint (slice d 8 16);
    body_length = body_len;
    checksum = uint (slice d 20 24);
  };
  body = slice d (28 + game_id_len + user_id_len) (28 + game_id_len + user_id_len + body_len);
}

-- The checksum is taken of all the data at hand, not only of this message's bytes.
verify : List ℕ → ℕ → ℕ → ℕ → Outcome
verify d game_id_len user_id_len body_len =
    let total = 28 + game_id_len + user_id_len + body_len in
    if crc32 (checksum_data d) == uint (slice d 20 24)
    then decoded (parse d game_id_len user_id_len body_len) total
    else failed total checksum_mismatch

decode_lengths : List ℕ → ℕ → ℕ → ℕ → Outcome
unfolding verify
decode_lengths d game_id_len user_id_len body_len =
    if ltb (length d) (28 + game_id_len)
    then failed 28 short_game_id
    else if ltb (length d) (28 + game_id_len + user_id_len)
    then failed (28 + game_id_len) short_user_id
    else if ltb (length d) (28 + game_id_len + user_id_len + body_len)
    then failed (28 + game_id_len + user_id_len) short_body
    else verify d game_id_len user_id_len body_len

unfoldable pub decode : List ℕ → Outcome
unfolding decode_lengths
decode d =
    if ltb (length d) 28
    then failed 0 short_message
    else decode_lengths d (uint (slice d 24 26)) (uint (slice d 26 28)) (uint (slice d 16 20))
