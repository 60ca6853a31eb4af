-- ===== src/Protocol/Binary/Frame.antt =====
-- codec.go: a frame is 28 bytes that announce three lengths, three fields, and more bytes.
use mathlib.Core.List.{append_assoc}
use data_middleware.Prelude.{
  ℕ, ◌+◌, ◌%◌, ◌≤◌, ◌≡◌, ap, List, ◌++◌, arith, ◌==◌, if◌then◌else◌, length, take, get_or,
  get_or-append, length-append, ◌∙◌, le→ltb,
}
use data_middleware.Prelude.Bytes.{
  slice, slice-append, slice-append_left, put_uint16, put_uint32, uint, crc32,
}
use data_middleware.Protocol.Types.{Message}
use data_middleware.Protocol.Binary.{
  Outcome, decoded, failed, checksum_mismatch, fixed_part, variable_part, checksum_data, encode,
  parse, verify, decode_lengths, decode,
}

-- The 28 bytes before the variable fields.
abbrev pub head_bytes : Message → ℕ → List ℕ
head_bytes m c =
    fixed_part m
    ++ (put_uint32 c
        ++ (put_uint16 (length m.header.game_id % 65536)
            ++ put_uint16 (length m.header.user_id % 65536)))

-- The message that the receiver sees: each length cut to its field.
abbrev pub cut : Message → ℕ → Message
cut m c = record m {
  header = record (m.header) {
    game_id = take (length m.header.game_id % 65536) m.header.game_id;
    user_id = take (length m.header.user_id % 65536) m.header.user_id;
    body_length = length m.body % 4294967296;
    checksum = c;
  };
  body = take (length m.body % 4294967296) m.body;
}

-- The checksum that `encode` writes, and the bytes that it covers.
abbrev pub covered : Message → List ℕ
covered m = fixed_part m ++ variable_part m

pub encode-append :
    (m : Message) (rest : List ℕ)
    → (encode m).0 ++ rest
      ≡ head_bytes m (crc32 (covered m))
        ++ ((cut m 0).header.game_id ++ ((cut m 0).header.user_id ++ ((cut m 0).body ++ rest)))
unfolding encode
encode-append m rest = ap (◌++◌ (head_bytes m (crc32 (covered m)))) (
    append_assoc (cut m 0).header.game_id _ rest
    ∙ ap (◌++◌ (cut m 0).header.game_id) (append_assoc (cut m 0).header.user_id _ rest))

-- A frame: 28 bytes that announce the lengths of three fields, the fields, and more bytes.
module _ (pre gid uid body rest : List ℕ) (fixed : length pre ≡ 28)
    (gid_len : uint (slice pre 24 26) ≡ length gid) (uid_len : uint (slice pre 26 28) ≡ length uid)
    (body_len : uint (slice pre 16 20) ≡ length body) where
  abbrev pub frame : List ℕ
  frame = pre ++ (gid ++ (uid ++ (body ++ rest)))

  abbrev pub frame_message : Message
  frame_message = record {
    header = record {
      version = get_or pre 0 0;
      type = uint (slice pre 1 3);
      flags = get_or pre 3 0;
      sequence_id = uint (slice pre 4 8);
      game_id = gid;
      user_id = uid;
      timestamp = uint (slice pre 8 16);
      body_length = length body;
      checksum = uint (slice pre 20 24);
    };
    body = body;
  }

  abbrev pub total : ℕ
  total = 28 + length gid + length uid + length body

  pub length-frame : length frame ≡ total + length rest
  length-frame = omega (
    arith,
    length-append pre (gid ++ (uid ++ (body ++ rest))),
    length-append gid (uid ++ (body ++ rest)),
    length-append uid (body ++ rest),
    length-append body rest,
  )

  head_slice : (lo hi : ℕ) → lo ≤ hi → hi ≤ 28 → slice frame lo hi ≡ slice pre lo hi
  head_slice lo hi p q = slice-append_left pre _ lo hi p (omega arith)

  gid-slice : slice frame 28 (28 + length gid) ≡ gid
  gid-slice = slice-append pre gid _ (omega arith) (omega arith)

  uid-slice : slice frame (28 + length gid) (28 + length gid + length uid) ≡ uid
  uid-slice = rw (← append_assoc pre gid (uid ++ (body ++ rest))) (
      slice-append (pre ++ gid) uid _ (omega (arith, length-append pre gid))
        (omega (arith, length-append pre gid)))

  body_slice :
      slice frame (28 + length gid + length uid) (28 + length gid + length uid + length body) ≡ body
  body_slice =
      rw
        (
          ← append_assoc pre gid (uid ++ (body ++ rest)),
          ← append_assoc (pre ++ gid) uid (body ++ rest),
        )
        (slice-append ((pre ++ gid) ++ uid) body rest
          (omega (arith, length-append pre gid, length-append (pre ++ gid) uid))
          (omega (arith, length-append pre gid, length-append (pre ++ gid) uid)))

  parse-frame : parse frame (length gid) (length uid) (length body) ≡ frame_message
  parse-frame = λ i. record {
    header = record {
      version = get_or-append pre (gid ++ (uid ++ (body ++ rest))) 0 0 (omega arith) i;
      type = uint (head_slice 1 3 (omega arith) (omega arith) i);
      flags = get_or-append pre (gid ++ (uid ++ (body ++ rest))) 3 0 (omega arith) i;
      sequence_id = uint (head_slice 4 8 (omega arith) (omega arith) i);
      game_id = gid-slice i;
      user_id = uid-slice i;
      timestamp = uint (head_slice 8 16 (omega arith) (omega arith) i);
      body_length = length body;
      checksum = uint (head_slice 20 24 (omega arith) (omega arith) i);
    };
    body = body_slice i;
  }

  abbrev pub verdict : Outcome
  verdict =
      if crc32 (checksum_data frame) == uint (slice pre 20 24)
      then decoded frame_message total
      else failed total checksum_mismatch

  verify-frame : verify frame (length gid) (length uid) (length body) ≡ verdict
  unfolding verify
  verify-frame = λ i.
      if crc32 (checksum_data frame) == uint (head_slice 20 24 (omega arith) (omega arith) i)
      then decoded (parse-frame i) total
      else failed total checksum_mismatch

  decode_lengths-frame : decode_lengths frame (length gid) (length uid) (length body) ≡ verdict
  unfolding decode_lengths
  decode_lengths-frame =
      rw
        (
          le→ltb (length frame) (28 + length gid) (omega (arith, length-frame)),
          le→ltb (length frame) (28 + length gid + length uid) (omega (arith, length-frame)),
          le→ltb (length frame) total (omega (arith, length-frame)),
        )
        verify-frame

  pub decode-frame : decode frame ≡ verdict
  unfolding decode
  decode-frame = rw (le→ltb (length frame) 28 (omega (arith, length-frame))) (
      (λ i.
        decode_lengths frame (announced 24 26 gid_len (omega arith) (omega arith) i)
          (announced 26 28 uid_len (omega arith) (omega arith) i)
          (announced 16 20 body_len (omega arith) (omega arith) i))
      ∙ decode_lengths-frame)
    where
      announced :
          (lo hi : ℕ) {n : ℕ}
          → uint (slice pre lo hi) ≡ n
          → lo ≤ hi
          → hi ≤ 28
          → uint (slice frame lo hi) ≡ n
      announced lo hi e p q = ap uint (head_slice lo hi p q) ∙ e
