-- ===== src/Protocol/Binary/Accepts.antt =====
-- codec.go: what is known of the bytes that BinaryCodec's Decode accepts.
use mathlib.Core.Path.{subst₂}
use data_middleware.Prelude.{
  ℕ, ◌+◌, ◌≤◌, ◌≡◌, sym, ap, List, arith, ltb, length, Bool-cases, inl, inr, ◌==◌, ==_iff,
}
use data_middleware.Prelude.Bytes.{slice, length-slice, uint, crc32}
use data_middleware.Protocol.Types.{Message}
use data_middleware.Protocol.Binary.{
  Outcome, decoded, failed, short_game_id, short_user_id, short_body, checksum_mismatch, decode,
  decode_lengths, checksum_data, parse, verify,
}

pub record Accepted (d : List ℕ) (m : Message) (consumed : ℕ) : Type 0 where
  pub within : consumed ≤ length d
  pub consumes : consumed ≡ 28 + length m.header.game_id + length m.header.user_id + length m.body
  pub body_counted : m.header.body_length ≡ length m.body
  pub sealed : m.header.checksum ≡ crc32 (checksum_data d)

message_of : Outcome → Message → Message
message_of (decoded m k) m' = m
message_of (failed k e) m' = m'

consumed_of : Outcome → ℕ
consumed_of (decoded m k) = k
consumed_of (failed k e) = k

-- The one way in which `verify` accepts.
verify_inv :
    (d : List ℕ) (gl ul bl : ℕ) (m : Message) (k : ℕ)
    → verify d gl ul bl ≡ decoded m k
    → (parse d gl ul bl ≡ m)
      × (28 + gl + ul + bl ≡ k)
      × (uint (slice d 20 24) ≡ crc32 (checksum_data d))
unfolding verify message_of consumed_of
verify_inv d gl ul bl m k e = elim (Bool-cases (crc32 (checksum_data d) == uint (slice d 20 24))) [
  | inl p ↦
      let f : decoded (parse d gl ul bl) (28 + gl + ul + bl) ≡ decoded m k = rw (← e, p) in
      (ap (λ r. message_of r m) f, ap consumed_of f, sym ((==_iff _ _).0 p))
  | inr p ↦ let f : failed (28 + gl + ul + bl) checksum_mismatch ≡ decoded m k = rw (← e, p) in cc
]

parse-Accepted :
    (d : List ℕ) (gl ul bl : ℕ)
    → 28 + gl + ul + bl ≤ length d
    → uint (slice d 20 24) ≡ crc32 (checksum_data d)
    → Accepted d (parse d gl ul bl) (28 + gl + ul + bl)
parse-Accepted d gl ul bl fits ok = record {
  within = fits;
  consumes = omega (
    arith,
    length-slice d 28 (28 + gl) (omega arith),
    length-slice d (28 + gl) (28 + gl + ul) (omega arith),
    length-slice d (28 + gl + ul) (28 + gl + ul + bl) (omega arith),
  );
  body_counted = omega (arith, length-slice d (28 + gl + ul) (28 + gl + ul + bl) fits);
  sealed = ok;
}

decode_lengths-Accepted :
    (d : List ℕ) (gl ul bl : ℕ) (m : Message) (k : ℕ)
    → decode_lengths d gl ul bl ≡ decoded m k
    → Accepted d m k
unfolding decode_lengths
decode_lengths-Accepted d gl ul bl m k e = elim (Bool-cases (ltb (length d) (28 + gl))) [
  | inl p ↦ let f : failed 28 short_game_id ≡ decoded m k = rw (← e, p) in cc
  | inr p ↦ elim (Bool-cases (ltb (length d) (28 + gl + ul))) [
    | inl q ↦ let f : failed (28 + gl) short_user_id ≡ decoded m k = rw (← e, p, q) in cc
    | inr q ↦ elim (Bool-cases (ltb (length d) (28 + gl + ul + bl))) [
      | inl r ↦ let f : failed (28 + gl + ul) short_body ≡ decoded m k = rw (← e, p, q, r) in cc
      | inr r ↦
          let (same, total, sealed) = verify_inv d gl ul bl m k (rw (p, q, r) at e) in
          subst₂ (Accepted d) same total (parse-Accepted d gl ul bl (ground arith) sealed)
    ]
  ]
]

-- What is accepted lies within the data, its lengths are the announced ones, and its checksum
-- is that of the data.
pub decode-Accepted : (d : List ℕ) (m : Message) (k : ℕ) → decode d ≡ decoded m k → Accepted d m k
unfolding decode
decode-Accepted d m k e = elim (Bool-cases (ltb (length d) 28)) [
  | inl short ↦ cc (rw short at e)
  | inr long ↦ decode_lengths-Accepted d _ _ _ m k (rw long at e)
]
