-- ===== src/Utils/Bulk/Numbers.antt =====
-- memory.go: the buffers that a BulkAllocator gives.
use data_middleware.Prelude.{
  ℕ, zero, suc, ◌+◌, ◌<◌, ◌≤◌, ◌≡◌, refl, ap, ◌∙◌, List, [], ◌∷◌, ◌++◌, Option, none, some,
  get_elem?, leb, if◌then◌else◌, arith, Bool-cases, inl, inr,
}
use data_middleware.Utils.Bulk.{
  BulkAllocator, make_buffers, new_bulk_allocator, grow, allocate, reset,
}

pub data BulkCall : Type 0 where
  call_allocate call_reset : BulkCall

-- What the calls of Allocate give.
unfoldable pub run : List BulkCall → BulkAllocator → List (Option ℕ)
run [] ba = []
run (call_allocate ∷ cs) ba = let (next, r) = allocate ba in r ∷ run cs next
run (call_reset ∷ cs) ba = run cs (reset ba)

-- The numbers from `i` on, which a Reset puts back to 0.
unfoldable pub numbers : List BulkCall → ℕ → List (Option ℕ)
numbers [] i = []
numbers (call_allocate ∷ cs) i = some i ∷ numbers cs (i + 1)
numbers (call_reset ∷ cs) i = numbers cs 0

-- The buffers are those of the calls of `make`, in order.
record IsBulk (ba : BulkAllocator) : Type 0 where
  in_order : ba.buffers ≡ make_buffers ba.count 0
  all_made : ba.made ≡ ba.count
  some_room : 0 < ba.count
  in_bounds : ba.index ≤ ba.count

make_buffers-append :
    (m n k i j : ℕ)
    → k ≡ i + m
    → j ≡ m + n
    → make_buffers m i ++ make_buffers n k ≡ make_buffers j i
unfolding make_buffers
make_buffers-append zero n k i j e f =
    let start : k ≡ i = omega arith in let size : j ≡ n = omega arith in rw (start, size) refl
make_buffers-append (suc m) n k i j e f =
    let size : suc (m + n) ≡ j = omega arith in
    ap (◌∷◌ i) (make_buffers-append m n k (i + 1) (m + n) (omega arith) refl)
    ∙ ap (λ l. make_buffers l i) size

get_elem-make_buffers :
    (n i first : ℕ) → i < n → get_elem? (make_buffers n first) i ≡ some (first + i)
unfolding make_buffers
get_elem-make_buffers zero i first h = absurd (omega arith)
get_elem-make_buffers (suc n) zero first h = ap some (omega arith)
get_elem-make_buffers (suc n) (suc i) first h =
    get_elem-make_buffers n i (first + 1) (omega arith) ∙ ap some (omega arith)

grow-IsBulk : (ba : BulkAllocator) → IsBulk ba → IsBulk (grow ba)
unfolding grow
grow-IsBulk ba h = record {
  in_order =
      rw (h.in_order)
        (make_buffers-append ba.count ba.count ba.made 0 _ (omega (arith, h.all_made)) refl);
  all_made = ap (λ n. n + ba.count) h.all_made;
  some_room = omega (arith, h.some_room);
  in_bounds = omega (arith, h.in_bounds);
}

-- There is room before `Allocate` takes the buffer.
grown : BulkAllocator → BulkAllocator
grown ba = if leb ba.count ba.index then grow ba else ba

room_grown : (ba : BulkAllocator) → IsBulk ba → ba.index < (grow ba).count
unfolding grow
room_grown ba h = omega (arith, h.some_room, h.in_bounds)

same_index : (ba : BulkAllocator) → (grow ba).index ≡ ba.index
unfolding grow
same_index ba = refl

grown-IsBulk :
    (ba : BulkAllocator)
    → IsBulk ba
    → IsBulk (grown ba) × (ba.index < (grown ba).count) × ((grown ba).index ≡ ba.index)
unfolding grown
grown-IsBulk ba h = elim (Bool-cases (leb ba.count ba.index)) [
  | inl y ↦ rw y (grow-IsBulk ba h, room_grown ba h, same_index ba)
  | inr n ↦ rw n (h, ground arith, refl)
]

allocate_found :
    (ba : BulkAllocator) (b : ℕ)
    → get_elem? (grown ba).buffers ba.index ≡ some b
    → allocate ba ≡ (record (grown ba) { index = ba.index + 1 }, some b)
unfolding allocate grown
allocate_found ba b h =
    ap
      (λ o. elim o as (λ _. BulkAllocator × Option ℕ) [
        | none ↦ (grown ba, none)
        | some buf ↦ (record (grown ba) { index = ba.index + 1 }, some buf)
      ])
      h

-- Allocate gives the buffer whose number is that of the allocations since the last reset.
allocate_next :
    (ba : BulkAllocator)
    → IsBulk ba
    → (allocate ba ≡ (record (grown ba) { index = ba.index + 1 }, some ba.index))
      × IsBulk (record (grown ba) { index = ba.index + 1 })
allocate_next ba h =
    let (g, l, e) = grown-IsBulk ba h in
    let here : get_elem? (grown ba).buffers ba.index ≡ some ba.index =
      rw (g.in_order)
        (get_elem-make_buffers (grown ba).count ba.index 0 l ∙ ap some (omega arith)) in
    (
      allocate_found ba ba.index here,
      record {
        in_order = g.in_order;
        all_made = g.all_made;
        some_room = g.some_room;
        in_bounds = omega arith;
      },
    )

run-numbers_from :
    (cs : List BulkCall) (ba : BulkAllocator) → IsBulk ba → run cs ba ≡ numbers cs ba.index
unfolding run numbers reset
run-numbers_from [] ba h = refl
run-numbers_from (call_allocate ∷ cs) ba h =
    let (e, g) = allocate_next ba h in
    rw e (
      ap (◌∷◌ (some ba.index)) (run-numbers_from cs (record (grown ba) { index = ba.index + 1 }) g))
run-numbers_from (call_reset ∷ cs) ba h =
    run-numbers_from cs (record ba { index = 0 })
      (record {
        in_order = h.in_order;
        all_made = h.all_made;
        some_room = h.some_room;
        in_bounds = omega arith;
      })

-- A new allocator with a count above 0 never reads out of the range of its buffers, whatever calls
-- of Allocate and Reset are made of it: Allocate gives the buffer whose number is that of the
-- allocations since the last Reset, and so no buffer twice without a Reset.
pub run-numbers :
    (buffer_size count : ℕ) (cs : List BulkCall)
    → 0 < count
    → run cs (new_bulk_allocator buffer_size count) ≡ numbers cs 0
unfolding new_bulk_allocator
run-numbers buffer_size count cs l =
    run-numbers_from cs (new_bulk_allocator buffer_size count)
      (record { in_order = refl; all_made = refl; some_room = l; in_bounds = omega arith })
