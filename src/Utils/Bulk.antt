-- ===== src/Utils/Bulk.antt =====
-- internal/common/memory.go: BulkAllocator. A buffer is the number of its `make`, and each is of
-- `size` bytes; a caller gets it with length 0. `int` does not overflow, and the count is no
-- negative number.
pub mod Numbers
use data_middleware.Prelude.{
  ℕ, zero, suc, ◌+◌, Bool, List, [], ◌∷◌, ◌++◌, Option, none, some, get_elem?, leb, if◌then◌else◌,
}

pub record BulkAllocator : Type 0 where
  pub buffers : List ℕ
  pub size : ℕ
  pub count : ℕ
  pub index : ℕ
  pub made : ℕ

pub record BulkStats : Type 0 where
  pub total_buffers : ℕ
  pub used_buffers : ℕ
  pub buffer_size : ℕ

-- `n` calls of `make`, the first of which is number `first`.
unfoldable pub make_buffers : ℕ → ℕ → List ℕ
make_buffers zero first = []
make_buffers (suc n) first = first ∷ make_buffers n (first + 1)

unfoldable pub new_bulk_allocator : ℕ → ℕ → BulkAllocator
new_bulk_allocator buffer_size count = record {
  buffers = make_buffers count 0;
  size = buffer_size;
  count = count;
  index = 0;
  made = count;
}

-- The doubling of `Allocate`.
unfoldable pub grow : BulkAllocator → BulkAllocator
grow ba = record ba {
  buffers = ba.buffers ++ make_buffers ba.count ba.made;
  count = ba.count + ba.count;
  made = ba.made + ba.count;
}

-- `none` is the panic of an index out of range.
unfoldable pub allocate : BulkAllocator → BulkAllocator × Option ℕ
allocate ba =
    let grown = if leb ba.count ba.index then grow ba else ba in
    elim (get_elem? grown.buffers ba.index) [
      | none ↦ (grown, none)
      | some buf ↦ (record grown { index = ba.index + 1 }, some buf)
    ]

unfoldable pub reset : BulkAllocator → BulkAllocator
reset ba = record ba { index = 0 }

unfoldable pub stats : BulkAllocator → BulkStats
stats ba = record { total_buffers = ba.count; used_buffers = ba.index; buffer_size = ba.size }
