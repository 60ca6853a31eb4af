-- ===== src/Protocol/Binary/RoundTrip.antt =====
-- What BinaryCodec's Decode makes of Encode's bytes, alone and with more bytes behind them.
use mathlib.Core.List.{append_assoc, append-nil}
use native.Mathlib.Nat.{mod-eq_of_lt}
use data_middleware.Prelude.{
  ℕ, ◌+◌, ◌<◌, ◌≡◌, refl, sym, ap, List, [], ◌++◌, arith, ◌==◌, if◌then◌else◌, length, take,
  length-append, length-take_mod, take_mod, ◌∙◌, ==_refl, ◌≢◌,
}
use data_middleware.Prelude.Bytes.{slice, put_uint16, put_uint32, uint, crc32, crc32-lt, uint64-put}
use data_middleware.Protocol.Types.{Message, IsHeader}
use data_middleware.Protocol.Binary.Frame.{
  head_bytes, cut, covered, encode-append, frame, frame_message, decode-frame,
}
use data_middleware.Protocol.Binary.{
  decoded, failed, checksum_mismatch, checksum_data, encode, decode,
}

-- The frame that `encode` makes.
module _ (m : Message) (rest : List ℕ) (h : IsHeader m.header) where
  abbrev gid : List ℕ
  gid = (cut m 0).header.game_id

  abbrev uid : List ℕ
  uid = (cut m 0).header.user_id

  abbrev body : List ℕ
  body = (cut m 0).body

  abbrev sum : ℕ
  sum = crc32 (covered m)

  gid_announced : uint (slice (head_bytes m sum) 24 26) ≡ length gid
  gid_announced = omega (arith, length-take_mod m.header.game_id 65536)

  uid_announced : uint (slice (head_bytes m sum) 26 28) ≡ length uid
  uid_announced = omega (arith, length-take_mod m.header.user_id 65536)

  body_announced : uint (slice (head_bytes m sum) 16 20) ≡ length body
  body_announced = omega (arith, length-take_mod m.body 4294967296)

  sum_announced : uint (slice (head_bytes m sum) 20 24) ≡ sum
  sum_announced = omega (arith, crc32-lt (covered m))

  length-encode : 28 + length gid + length uid + length body ≡ length (encode m).0
  unfolding encode
  length-encode = omega (arith, length-append gid (uid ++ body), length-append uid body)

  pub encode_announces :
      28
        + uint (slice (encode m).0 24 26)
        + uint (slice (encode m).0 26 28)
        + uint (slice (encode m).0 16 20)
      ≡ length (encode m).0
  unfolding encode
  encode_announces = omega (arith, length-encode, gid_announced, uid_announced, body_announced)

  covers :
      checksum_data
        (frame (head_bytes m sum) gid uid body rest refl gid_announced uid_announced body_announced)
      ≡ covered m ++ rest
  covers =
      ap (◌++◌ (take 24 (covered m)))
        (sym (append_assoc gid (uid ++ body) rest ∙ ap (◌++◌ gid) (append_assoc uid body rest)))

  message_lem :
      frame_message
        (head_bytes m sum)
        gid
        uid
        body
        rest
        refl
        gid_announced
        uid_announced
        body_announced
      ≡ cut m sum
  message_lem = λ i. record {
    header = record {
      version = m.header.version;
      type = word16 i;
      flags = m.header.flags;
      sequence_id = word32 i;
      game_id = gid;
      user_id = uid;
      timestamp = uint64-put m.header.timestamp h.timestamp_fits i;
      body_length = length-take_mod m.body 4294967296 i;
      checksum = sum_announced i;
    };
    body = body;
  }
    where
      word16 : uint (put_uint16 m.header.type) ≡ m.header.type
      word16 = omega arith

      word32 : uint (put_uint32 m.header.sequence_id) ≡ m.header.sequence_id
      word32 = omega arith

  -- With a header of machine values, an encoded message and whatever follows it in the buffer are
  -- decoded to the message, as its fields are cut to the lengths of the format, exactly if the
  -- checksum does not notice what follows; if it does, they are refused for the checksum.
  pub decode-encode_append : decode ((encode m).0 ++ rest) ≡ (
      if crc32 (covered m ++ rest) == crc32 (covered m)
      then decoded (cut m (crc32 (covered m))) (length (encode m).0)
      else failed (length (encode m).0) checksum_mismatch)
  decode-encode_append =
      ap decode (encode-append m rest)
      ∙ (decode-frame (head_bytes m sum) gid uid body rest refl gid_announced uid_announced
            body_announced
          ∙ (λ i.
              if crc32 (covers i) == sum_announced i
              then decoded (message_lem i) (length-encode i)
              else failed (length-encode i) checksum_mismatch))

-- The lengths that the message's fields have room for.
pub record Fits (m : Message) : Type 0 where
  pub header_fits : IsHeader m.header
  pub game_id_fits : length m.header.game_id < 65536
  pub user_id_fits : length m.header.user_id < 65536
  pub body_fits : length m.body < 4294967296

-- The message as a receiver gets it: with the body's length, which `encode` leaves as it was.
abbrev pub received : Message → Message
received m = record m {
  header = record (m.header) { body_length = length m.body; checksum = crc32 (covered m) };
}

cut-received : (m : Message) → Fits m → cut m (crc32 (covered m)) ≡ received m
cut-received m f = λ i. record {
  header = record (m.header) {
    game_id = take_mod m.header.game_id 65536 f.game_id_fits i;
    user_id = take_mod m.header.user_id 65536 f.user_id_fits i;
    body_length = mod-eq_of_lt f.body_fits i;
    checksum = crc32 (covered m);
  };
  body = take_mod m.body 4294967296 f.body_fits i;
}

-- A message whose header holds machine values and whose fields fit is decoded as it was sent,
-- with the length of its body and its checksum filled in, from all of its bytes.
pub decode-encode :
    (m : Message) → Fits m → decode (encode m).0 ≡ decoded (received m) (length (encode m).0)
decode-encode m f =
    ap decode (sym (append-nil (encode m).0))
    ∙ (decode-encode_append m [] f.header_fits
        ∙ (ap
              (λ xs.
                if crc32 xs == crc32 (covered m)
                then decoded (cut m (crc32 (covered m))) (length (encode m).0)
                else failed (length (encode m).0) checksum_mismatch)
              (append-nil (covered m))
            ∙ rw (==_refl (crc32 (covered m)))
                (ap (λ r. decoded r (length (encode m).0)) (cut-received m f))))

-- A message is refused as soon as bytes stand behind it that change the checksum.
pub decode-encode_followed :
    (m : Message) (rest : List ℕ)
    → IsHeader m.header
    → crc32 (covered m ++ rest) ≢ crc32 (covered m)
    → decode ((encode m).0 ++ rest) ≡ failed (length (encode m).0) checksum_mismatch
decode-encode_followed m rest h differs = decode-encode_append m rest h ∙ ground arith
