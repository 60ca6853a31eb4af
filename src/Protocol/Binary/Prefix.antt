-- ===== src/Protocol/Binary/Prefix.antt =====
-- codec.go: what BinaryCodec's Decode makes of the first bytes of a message.
use data_middleware.Prelude.{
  ℕ, ◌+◌, ◌≤◌, ◌<◌, ◌≡◌, refl, ap, true, List, [], arith, ltb, length, take, length-take, lt→ltb,
  Bool-cases, inl, inr,
}
use data_middleware.Prelude.Bytes.{slice, slice-take, uint}
use data_middleware.Protocol.Types.{Message, IsHeader}
use data_middleware.Protocol.Binary.RoundTrip.{encode_announces}
use data_middleware.Protocol.Binary.{
  Outcome, DecodeError, failed, short_message, short_game_id, short_user_id, short_body, encode,
  decode, decode_lengths, is_insufficient_data_error,
}

-- The decoder asks for more data.
abbrev pub Wants : Outcome → Type 0
Wants r = (k : ℕ) × (e : DecodeError) × (r ≡ failed k e) × (is_insufficient_data_error e ≡ true)

decode_lengths-Wants :
    (d : List ℕ) (gl ul bl : ℕ) → length d < 28 + gl + ul + bl → Wants (decode_lengths d gl ul bl)
unfolding decode_lengths is_insufficient_data_error
decode_lengths-Wants d gl ul bl h = elim (Bool-cases (ltb (length d) (28 + gl))) [
  | inl e ↦ (28, short_game_id, rw e, refl)
  | inr e ↦ elim (Bool-cases (ltb (length d) (28 + gl + ul))) [
    | inl f ↦ (28 + gl, short_user_id, rw (e, f), refl)
    | inr f ↦ (28 + gl + ul, short_body, rw (e, f, lt→ltb _ _ h), refl)
  ]
]

decode-Wants :
    (d : List ℕ)
    → ((28 ≤ length d)
        → length d < 28 + uint (slice d 24 26) + uint (slice d 26 28) + uint (slice d 16 20))
    → Wants (decode d)
unfolding decode is_insufficient_data_error
decode-Wants d h = elim (Bool-cases (ltb (length d) 28)) [
  | inl e ↦ (0, short_message, rw e, refl)
  | inr e ↦ rw e (decode_lengths-Wants d _ _ _ (h (ground arith)))
]

-- Of a message with a header of machine values that has not arrived in full, the decoder wants
-- more, wherever it is cut.
pub decode-take-Wants :
    (m : Message) (n : ℕ)
    → IsHeader m.header
    → n < length (encode m).0
    → Wants (decode (take n (encode m).0))
decode-take-Wants m n h short = decode-Wants (take n all) λ long.
    let n_long : 28 ≤ n = omega (arith, length-take n all) in
    omega (
      arith,
      length-take n all,
      encode_announces m [] h,
      ap uint (slice-take n all 24 26 (omega arith) (omega arith)),
      ap uint (slice-take n all 26 28 (omega arith) (omega arith)),
      ap uint (slice-take n all 16 20 (omega arith) (omega arith)),
    )
  where
    all : List ℕ
    all = (encode m).0
