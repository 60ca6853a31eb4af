-- ===== src/Utils/RingBuffer.antt =====
-- internal/common/memory.go: RingBuffer. `int` does not overflow.
pub mod Positions
pub mod Fifo
use data_middleware.Prelude.{
  ℕ, ◌+◌, ◌-◌, ◌%◌, List, [], ◌++◌, length, take, drop, replicate, leb, ltb, ◌==◌, if◌then◌else◌,
  min,
}

pub record RingBuffer : Type 0 where
  pub buffer : List ℕ
  pub size : ℕ
  pub read_pos : ℕ
  pub write_pos : ℕ

unfoldable pub new_ring_buffer : ℕ → RingBuffer
new_ring_buffer size = record {
  buffer = replicate size 0;
  size = size;
  read_pos = 0;
  write_pos = 0;
}

unfoldable pub available_data : RingBuffer → ℕ
available_data rb =
    if leb rb.read_pos rb.write_pos
    then rb.write_pos - rb.read_pos
    else rb.size - rb.read_pos + rb.write_pos

-- Go's number can be negative only for a buffer of no size.
unfoldable pub available_space : RingBuffer → ℕ
available_space rb = rb.size - available_data rb - 1

-- `copy(buffer[at:], data)` where the data fits.
abbrev pub copy_at : ℕ → List ℕ → List ℕ → List ℕ
copy_at i data_ buffer = take i buffer ++ (data_ ++ drop (i + length data_) buffer)

-- The copies of `Write`, of `n` bytes.
unfoldable pub store : RingBuffer → ℕ → List ℕ → List ℕ
store rb n data_ =
    if leb (rb.write_pos + n) rb.size
    then copy_at rb.write_pos (take n data_) rb.buffer
    else (let first = rb.size - rb.write_pos in
        copy_at 0 (drop first (take n data_)) (copy_at rb.write_pos (take first data_) rb.buffer))

-- `Write`, and the number that it returns; it has no errors.
unfoldable pub write : List ℕ → RingBuffer → RingBuffer × ℕ
write data_ rb =
    let n = min (length data_) (available_space rb) in
    if n == 0
    then (rb, 0)
    else (record rb { buffer = store rb n data_; write_pos = (rb.write_pos + n) % rb.size }, n)

-- The copies of `Read`, of `n` bytes.
unfoldable pub load : RingBuffer → ℕ → List ℕ
load rb n =
    if leb (rb.read_pos + n) rb.size
    then take n (drop rb.read_pos rb.buffer)
    else drop rb.read_pos rb.buffer ++ take (rb.read_pos + n - rb.size) rb.buffer

-- `Read` into a slice of length `wanted`, and the bytes that it puts there.
unfoldable pub read : ℕ → RingBuffer → RingBuffer × List ℕ
read wanted rb =
    let n = min wanted (available_data rb) in
    if n == 0 then (rb, []) else (record rb { read_pos = (rb.read_pos + n) % rb.size }, load rb n)
