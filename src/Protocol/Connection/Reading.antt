-- ===== src/Protocol/Connection/Reading.antt =====
-- connection.go: `ReadMessage` over the pieces in which the network delivers messages.
use mathlib.Core.List.{append_assoc, append-nil, flatten}
use data_middleware.Prelude.{
  ℕ, ◌≤◌, ◌<◌, ◌≡◌, refl, sym, true, false, List, [], ◌∷◌, ◌++◌, ltb, leb, arith, ◌∙◌, map, length,
  Bool-cases, inl, inr, take, length-append, le→leb, le→ltb, lt→ltb, ap, suc, take-append, ◌≢◌,
}
use data_middleware.Prelude.Bytes.{crc32}
use data_middleware.Protocol.Types.{Message, IsHeader}
use data_middleware.Protocol.Binary.{
  DecodeError, Outcome, checksum_mismatch, encode, decode, is_insufficient_data_error,
}
use data_middleware.Protocol.Binary.RoundTrip.{
  Fits, received, decode-encode, decode-encode_followed, encode_announces,
}
use data_middleware.Protocol.Binary.Frame.{covered}
use data_middleware.Protocol.Binary.Prefix.{Wants, decode-take-Wants}
use data_middleware.Protocol.Connection.{
  Connection, broken, more, attempt, after_decode, round, Read, ReadResult, bytes, message,
  undecodable, receive, read_error, read_loop, read_message, is_active,
}

empty_of_length : (xs : List ℕ) → ltb 0 (length xs) ≡ false → xs ≡ []
empty_of_length [] h = refl
empty_of_length (x ∷ xs) h = cc (lt→ltb 0 (suc (length xs)) (omega arith))

-- The message that a reading returned, with nothing left in the buffer.
pub record Delivers (m : Message) (r : Connection × ReadResult) : Type 0 where
  pub returned : r.1 ≡ message m
  pub emptied : r.0.read_buffer ≡ []

attempt_full :
    (now : ℕ) (c : Connection)
    → 28 ≤ length c.read_buffer
    → attempt now c ≡ after_decode now c (decode c.read_buffer)
unfolding attempt
attempt_full now c h = rw (le→leb 28 (length c.read_buffer) h)

read_loop_broken :
    (now : ℕ) (c : Connection) (reads : List Read) (e : DecodeError)
    → attempt now c ≡ broken e
    → read_loop now c reads ≡ (c, undecodable e)
unfolding read_loop
read_loop_broken now c [] e h = rw (h, round)
read_loop_broken now c (bytes chunk ∷ reads) e h = rw (h, round)
read_loop_broken now c (read_error ∷ reads) e h = rw (h, round)

attempt_empty : (now : ℕ) (c : Connection) → c.read_buffer ≡ [] → attempt now c ≡ more
unfolding attempt
attempt_empty now c empty = rw empty

attempt_followed :
    (m : Message) (rest : List ℕ) (now : ℕ) (c : Connection)
    → IsHeader m.header
    → crc32 (covered m ++ rest) ≢ crc32 (covered m)
    → c.read_buffer ≡ (encode m).0 ++ rest
    → attempt now c ≡ broken checksum_mismatch
unfolding after_decode is_insufficient_data_error
attempt_followed m rest now c h differs e =
    rw
      (attempt_full now c long, ap decode e ∙ decode-encode_followed m rest h differs, after_decode)
  where
    long : 28 ≤ length c.read_buffer
    long = omega (arith, ap length e, length-append (encode m).0 rest, encode_announces m [] h)

module _ (m : Message) (f : Fits m) (now : ℕ) where
  abbrev all : List ℕ
  all = (encode m).0

  all_long : 28 ≤ length all
  all_long = omega (arith, encode_announces m [] f.header_fits)

  after_decode-Wants : (c : Connection) (r : Outcome) → Wants r → after_decode now c r ≡ more
  unfolding after_decode
  after_decode-Wants c r (k, e, same, insufficient) = rw (same, insufficient)

  attempt_more :
      (c : Connection) (rest : List ℕ)
      → c.read_buffer ++ rest ≡ all
      → 0 < length rest
      → attempt now c ≡ more
  unfolding attempt
  attempt_more c rest e h = elim (Bool-cases (leb 28 (length c.read_buffer))) [
    | inl y ↦
        rw y (ap (λ b. after_decode now c (decode b)) (sym begun) ∙ after_decode-Wants c _ wants)
    | inr n ↦ rw n
  ]
    where
      begun : take (length c.read_buffer) all ≡ c.read_buffer
      begun = ap (take (length c.read_buffer)) (sym e) ∙ take-append c.read_buffer rest refl

      wants : Wants (decode (take (length c.read_buffer) all))
      wants =
          decode-take-Wants m (length c.read_buffer) f.header_fits
            (omega (arith, ap length e, length-append c.read_buffer rest))

  round-all :
      (c : Connection) (next : Connection × ReadResult)
      → c.read_buffer ≡ all
      → Delivers (received m) (round c (attempt now c) next)
  unfolding round after_decode
  round-all c next e =
      rw
        (
          attempt_full now c (omega (arith, ap length e, all_long)),
          ap decode e ∙ decode-encode m f,
          round,
          after_decode,
        )
        (record {
          returned = refl;
          emptied = rw (le→ltb (length all) (length c.read_buffer) (omega (arith, ap length e)));
        })

  -- The buffer and the pieces still to come make up the message.
  read_loop-Delivers :
      (c : Connection) (chunks : List (List ℕ))
      → c.read_buffer ++ flatten chunks ≡ all
      → Delivers (received m) (read_loop now c (map bytes chunks))
  unfolding read_loop flatten
  read_loop-Delivers c [] e = round-all c _ (sym (append-nil c.read_buffer) ∙ e)
  read_loop-Delivers c (chunk ∷ chunks) e =
      elim (Bool-cases (ltb 0 (length (flatten (chunk ∷ chunks))))) [
        | inl some_left ↦
            rw (attempt_more c (flatten (chunk ∷ chunks)) e (ground arith), round)
              (read_loop-Delivers (receive c chunk) chunks
                (append_assoc c.read_buffer chunk (flatten chunks) ∙ e))
        | inr none_left ↦ round-all c _ (
            sym (append-nil c.read_buffer)
            ∙ (ap (◌++◌ c.read_buffer) (sym (empty_of_length _ none_left)) ∙ e))
      ]

-- On an active connection with an empty buffer, a message that fits and arrives in pieces, cut
-- anywhere, is returned from the reads that bring it, and the buffer is empty again.
pub read_message-Delivers :
    (m : Message) (now : ℕ) (c : Connection) (chunks : List (List ℕ))
    → Fits m
    → is_active c.state ≡ true
    → c.read_buffer ≡ []
    → flatten chunks ≡ (encode m).0
    → Delivers (received m) (read_message now c (map bytes chunks))
unfolding read_message
read_message-Delivers m now c chunks f active empty e =
    rw active (read_loop-Delivers m f now c chunks (ap (λ b. b ++ flatten chunks) empty ∙ e))

-- On an active connection with an empty buffer, a message with a header of machine values that
-- arrives in one read with other bytes behind it, which change the checksum, gives a checksum
-- error, and all of the bytes stay in the buffer.
pub read_message_together :
    (m : Message) (rest : List ℕ) (now : ℕ) (c : Connection) (reads : List Read)
    → IsHeader m.header
    → crc32 (covered m ++ rest) ≢ crc32 (covered m)
    → is_active c.state ≡ true
    → c.read_buffer ≡ []
    → read_message now c (bytes ((encode m).0 ++ rest) ∷ reads)
      ≡ (receive c ((encode m).0 ++ rest), undecodable checksum_mismatch)
unfolding read_message read_loop
read_message_together m rest now c reads h differs active empty =
    rw (active, attempt_short, round) (read_loop_broken now (receive c sent) reads _ refused)
  where
    sent : List ℕ
    sent = (encode m).0 ++ rest

    attempt_short : attempt now c ≡ more
    attempt_short = attempt_empty now c empty

    refused : attempt now (receive c sent) ≡ broken checksum_mismatch
    refused = attempt_followed m rest now (receive c sent) h differs (ap (λ b. b ++ sent) empty)
