-- ===== src/Prelude/Bytes.antt =====
-- Bytes and words: encoding/binary's big-endian order, hash/crc32 with the IEEE polynomial.
use Prim.Native.Nat.{bit_xor}
use mathlib.Core.List.{foldl}
use data_middleware.Prelude.Tests.{◌==◌, if◌then◌else◌}
use Prim.Native.Nat.{ℕ, zero, suc, ◌+◌, ◌-◌, ◌*◌, ◌/◌, ◌%◌, ◌≤◌, ◌^◌, ◌<◌}
use mathlib.Core.Path.{◌≡◌, refl}
use mathlib.Core.List.{List, [], ◌∷◌, ◌++◌}
use native.Mathlib.Omega.{arith}
use data_middleware.Prelude.Lists.{
  length-take, drop-take, take-take, drop-append_le, length-drop, take-append_le, take, drop,
  length, take-append, drop-append,
}

-- `data[lo:hi]`
abbrev pub slice : List ℕ → ℕ → ℕ → List ℕ
slice data' lo hi = take (hi - lo) (drop lo data')

pub slice-append :
    (pre xs post : List ℕ) {lo hi : ℕ}
    → lo ≡ length pre
    → hi ≡ length pre + length xs
    → slice (pre ++ (xs ++ post)) lo hi ≡ xs
slice-append pre xs post p q =
    rw (drop-append pre (xs ++ post) p) (take-append xs post (omega arith))

pub slice-append_left :
    (xs ys : List ℕ) (lo hi : ℕ)
    → lo ≤ hi
    → hi ≤ length xs
    → slice (xs ++ ys) lo hi ≡ slice xs lo hi
slice-append_left xs ys lo hi p q =
    rw (drop-append_le lo xs ys (omega arith))
      (take-append_le (hi - lo) (drop lo xs) ys (omega (arith, length-drop lo xs)))

pub slice-take :
    (n : ℕ) (xs : List ℕ) (lo hi : ℕ) → lo ≤ hi → hi ≤ n → slice (take n xs) lo hi ≡ slice xs lo hi
slice-take n xs lo hi p q =
    rw (drop-take n lo xs) (take-take (n - lo) (hi - lo) (drop lo xs) (omega arith))

pub length-slice : (xs : List ℕ) (lo hi : ℕ) → hi ≤ length xs → length (slice xs lo hi) ≡ hi - lo
length-slice xs lo hi h = omega (arith, length-take (hi - lo) (drop lo xs), length-drop lo xs)

-- `binary.BigEndian.PutUint16`, `PutUint32`, `PutUint64`
abbrev pub put_uint16 : ℕ → List ℕ
put_uint16 v = (v / 256 % 256) ∷ (v % 256) ∷ []

abbrev pub put_uint32 : ℕ → List ℕ
put_uint32 v = (v / 16777216 % 256) ∷ (v / 65536 % 256) ∷ (v / 256 % 256) ∷ (v % 256) ∷ []

abbrev pub put_uint64 : ℕ → List ℕ
put_uint64 v = put_uint32 (v / 4294967296) ++ put_uint32 (v % 4294967296)

-- `binary.BigEndian.Uint16`, `Uint32`, `Uint64`
abbrev pub uint : List ℕ → ℕ
uint bytes = foldl (λ acc b. acc * 256 + b) 0 bytes

pub uint16-put : (v : ℕ) → uint (put_uint16 v) ≡ v % 65536
uint16-put v = omega arith

pub uint32-put : (v : ℕ) → uint (put_uint32 v) ≡ v % 4294967296
uint32-put v = omega arith

pub uint64-put : (v : ℕ) → v < 18446744073709551616 → uint (put_uint64 v) ≡ v
uint64-put v h = omega arith

-- One bit of the reflected shift register.
crc_bit : ℕ → ℕ
crc_bit c = if c % 2 == 1 then bit_xor (c / 2) 0xedb88320 else c / 2

crc_bits : ℕ → ℕ → ℕ
crc_bits zero c = c
crc_bits (suc n) c = crc_bits n (crc_bit c)

crc_loop : ℕ → List ℕ → ℕ
crc_loop c [] = c
crc_loop c (b ∷ bs) = crc_loop (crc_bits 8 (bit_xor c b)) bs

-- `crc32.Update(crc, crc32.IEEETable, data)`; a uint32.
unfoldable pub crc32_update : ℕ → List ℕ → ℕ
unfolding crc_loop crc_bits crc_bit
crc32_update crc bytes = bit_xor (crc_loop (bit_xor crc 0xffffffff) bytes) 0xffffffff % 2 ^ 32

-- `crc32.ChecksumIEEE(data)`
unfoldable pub crc32 : List ℕ → ℕ
unfolding crc32_update
crc32 bytes = crc32_update 0 bytes

pub crc32-lt : (bytes : List ℕ) → crc32 bytes < 4294967296
unfolding crc32 crc32_update
crc32-lt bytes = omega arith

-- The checksum of "123456789".
crc32_check : crc32 (49 ∷ 50 ∷ 51 ∷ 52 ∷ 53 ∷ 54 ∷ 55 ∷ 56 ∷ 57 ∷ []) ≡ 0xcbf43926
unfolding crc32
crc32_check = refl
