-- ===== src/Utils/RingBuffer/Fifo.antt =====
-- memory.go: a RingBuffer is a queue of bytes that holds one less than its size.
use data_middleware.Prelude.{
  zero, suc, ℕ, ◌+◌, ◌-◌, ◌%◌, ◌≤◌, ◌<◌, ◌≡◌, refl, sym, ◌∙◌, ap, false, List, [], ◌∷◌, ◌++◌,
  length, take, drop, replicate, leb, ltb, ◌==◌, min, arith, Bool-cases, inl, inr, length-append,
  length-take, length-drop, length-replicate, drop-append, drop_all, take_all, ltb→lt, le→leb,
  take-append_le, drop-append_le,
}
use native.Mathlib.Nat.{mod-eq_of_lt, mod_self}
use mathlib.Core.List.{append_assoc}
use data_middleware.Utils.RingBuffer.{
  RingBuffer, new_ring_buffer, available_data, available_space, write, load, read,
}
use data_middleware.Utils.RingBuffer.Positions.{
  Holds, linear, wrapped, Holds-available_data, mod_wrap, split_at, write-Holds,
}

-- The buffer after a read.
abbrev loaded : RingBuffer → ℕ → RingBuffer
loaded rb n = record rb { read_pos = (rb.read_pos + n) % rb.size }

take-append_ge :
    (n : ℕ) (xs ys : List ℕ) → length xs ≤ n → take n (xs ++ ys) ≡ xs ++ take (n - length xs) ys
take-append_ge n [] ys h = ap (λ k. take k ys) (omega arith)
take-append_ge zero (x ∷ xs) ys h = absurd (omega arith)
take-append_ge (suc n) (x ∷ xs) ys h =
    let e : n - length xs ≡ suc n - suc (length xs) = omega arith in
    ap (◌∷◌ x) (take-append_ge n xs ys (omega arith) ∙ ap (λ k. xs ++ take k ys) e)

drop-append_ge :
    (n : ℕ) (xs ys : List ℕ) → length xs ≤ n → drop n (xs ++ ys) ≡ drop (n - length xs) ys
drop-append_ge n [] ys h = ap (λ k. drop k ys) (omega arith)
drop-append_ge zero (x ∷ xs) ys h = absurd (omega arith)
drop-append_ge (suc n) (x ∷ xs) ys h =
    let e : n - length xs ≡ suc n - suc (length xs) = omega arith in
    drop-append_ge n xs ys (omega arith) ∙ ap (λ k. drop k ys) e

loaded-wrapped :
    (rb : RingBuffer) (n : ℕ) (b q a : List ℕ)
    → rb.buffer ≡ b ++ (q ++ a)
    → rb.size ≡ length b + (length q + length a)
    → rb.read_pos ≡ length b + length q
    → rb.write_pos ≡ length b
    → 0 < length q
    → 0 < length a
    → n ≤ length a
    → Holds (loaded rb n) (drop n a ++ b)
loaded-wrapped rb n b q a e s r w h k within = elim (Bool-cases (n == length a)) [
  | inl y ↦
      let same : n ≡ length a = ground arith in
      let z : rb.read_pos + n ≡ rb.size = omega (arith, s, r, same) in
      rw (drop_all n a (omega (arith, same))) (
        linear [] b (q ++ a) e (omega (arith, s, length-append q a)) (rw z (mod_self rb.size))
          (omega (arith, w)) (omega (arith, length-append q a)))
  | inr d ↦
      let less : n < length a = ground arith in
      wrapped b (q ++ take n a) (drop n a)
        (e ∙ ap (◌++◌ b) (ap (◌++◌ q) (split_at n a) ∙ sym (append_assoc q (take n a) (drop n a))))
        (omega (arith, s, length-append q (take n a), length-take n a, length-drop n a))
        (mod-eq_of_lt (omega (arith, s, r))
          ∙ omega (arith, r, length-append q (take n a), length-take n a))
        w (omega (arith, length-append q (take n a))) (omega (arith, length-drop n a))
]

-- The oldest bytes are given, and the others stay.
loaded-Holds :
    (rb : RingBuffer) (n : ℕ) (xs : List ℕ)
    → Holds rb xs
    → 0 < n
    → n ≤ length xs
    → (load rb n ≡ take n xs) × Holds (loaded rb n) (drop n xs)
unfolding load
loaded-Holds rb n _ (linear p c q e s r w h) some_ enough =
    let fits : rb.read_pos + n ≤ rb.size = omega (arith, s, r) in
    (
      rw (le→leb _ _ fits, e)
          (ap (take n) (drop-append p (c ++ q) r) ∙ take-append_le n c q enough),
      linear (p ++ take n c) (drop n c) q
          (e
            ∙ (ap (λ l. p ++ (l ++ q)) (split_at n c)
                ∙ (ap (◌++◌ p) (append_assoc (take n c) (drop n c) q)
                    ∙ sym (append_assoc p (take n c) (drop n c ++ q)))))
          (omega (arith, s, length-append p (take n c), length-take n c, length-drop n c))
          (mod-eq_of_lt (omega (arith, s, r))
            ∙ omega (arith, r, length-append p (take n c), length-take n c))
          (omega (arith, w, length-append p (take n c), length-take n c, length-drop n c)) h,
    )
loaded-Holds rb n _ (wrapped b q a e s r w h k) some_ enough =
    let behind : drop rb.read_pos rb.buffer ≡ a =
      rw (e ∙ sym (append_assoc b q a))
        (drop-append (b ++ q) a (omega (arith, r, length-append b q))) in
    elim (Bool-cases (ltb (length a) n)) [
      | inl y ↦
          let over : length a < n = ltb→lt (length a) n y in
          let total : n ≤ length a + length b = omega (arith, length-append a b) in
          let over_end : leb (rb.read_pos + n) rb.size ≡ false = ground (arith, s, r) in
          let left : rb.read_pos + n - rb.size ≡ n - length a = omega (arith, s, r) in
          let front : take (n - length a) rb.buffer ≡ take (n - length a) b =
            rw e (take-append_le (n - length a) b (q ++ a) (omega arith)) in
          (
            rw (over_end, behind, left, front) (sym (take-append_ge n a b (omega arith))),
            rw (drop-append_ge n a b (omega arith)) (
                linear (take (n - length a) b) (drop (n - length a) b) (q ++ a)
                  (e
                    ∙ (ap (λ l. l ++ (q ++ a)) (split_at (n - length a) b)
                        ∙ append_assoc (take (n - length a) b) (drop (n - length a) b) (q ++ a)))
                  (omega (
                    arith,
                    s,
                    length-append q a,
                    length-take (n - length a) b,
                    length-drop (n - length a) b,
                  ))
                  (mod_wrap (rb.read_pos + n) rb.size (omega (arith, s, r)) (omega (arith, s, r))
                    ∙ omega (arith, s, r, length-take (n - length a) b))
                  (omega (arith, w, length-take (n - length a) b, length-drop (n - length a) b))
                  (omega (arith, length-append q a))),
          )
      | inr d ↦
          let within : n ≤ length a = ground arith in
          let fits : rb.read_pos + n ≤ rb.size = omega (arith, s, r) in
          (
            rw (le→leb _ _ fits, behind) (sym (take-append_le n a b within)),
            rw (drop-append_le n a b within) (loaded-wrapped rb n b q a e s r w h k within),
          )
    ]

take-min : (n : ℕ) (xs : List ℕ) → take n xs ≡ take (min n (length xs)) xs
take-min n xs = elim (Bool-cases (leb n (length xs))) [
  | inl y ↦ let e : n ≡ min n (length xs) = ground arith in ap (λ k. take k xs) e
  | inr d ↦
      let l : length xs ≤ n = ground arith in
      take_all n xs l ∙ sym (take_all (min n (length xs)) xs (omega arith))
]

drop-min : (n : ℕ) (xs : List ℕ) → drop n xs ≡ drop (min n (length xs)) xs
drop-min n xs = elim (Bool-cases (leb n (length xs))) [
  | inl y ↦ let e : n ≡ min n (length xs) = ground arith in ap (λ k. drop k xs) e
  | inr d ↦
      let l : length xs ≤ n = ground arith in
      drop_all n xs l ∙ sym (drop_all (min n (length xs)) xs (omega arith))
]

-- A read of any length gives the oldest bytes, as many as there are, and keeps the others.
read-Holds :
    (wanted : ℕ) (xs : List ℕ) (rb : RingBuffer)
    → Holds rb xs
    → ((read wanted rb).1 ≡ take wanted xs) × Holds (read wanted rb).0 (drop wanted xs)
unfolding read
read-Holds wanted xs rb h =
    rw (Holds-available_data rb xs h, take-min wanted xs, drop-min wanted xs)
      (elim (Bool-cases (min wanted (length xs) == 0)) [
        | inl z ↦ let z0 : min wanted (length xs) ≡ 0 = ground arith in rw (z, z0) (refl, h)
        | inr d ↦
            let some_ : 0 < min wanted (length xs) = ground arith in
            rw d (loaded-Holds rb (min wanted (length xs)) xs h some_ (omega arith))
      ])

-- The calls, and what they return.
pub data Call : Type 0 where
  writes : List ℕ → Call
  reads : ℕ → Call

pub data Reply : Type 0 where
  wrote : ℕ → Reply
  gave : List ℕ → Reply

pub run : RingBuffer → List Call → List Reply
run rb [] = []
run rb (writes data_ ∷ calls) = let r = write data_ rb in wrote r.1 ∷ run r.0 calls
run rb (reads wanted ∷ calls) = let r = read wanted rb in gave r.1 ∷ run r.0 calls

-- The same calls on a queue that holds at most `capacity` bytes.
unfoldable pub run_queue : ℕ → List ℕ → List Call → List Reply
run_queue capacity xs [] = []
run_queue capacity xs (writes data_ ∷ calls) =
    let n = min (length data_) (capacity - length xs) in
    wrote n ∷ run_queue capacity (xs ++ take n data_) calls
run_queue capacity xs (reads wanted ∷ calls) =
    gave (take wanted xs) ∷ run_queue capacity (drop wanted xs) calls

write-size : (data_ : List ℕ) (rb : RingBuffer) → (write data_ rb).0.size ≡ rb.size
unfolding write
write-size data_ rb = elim (Bool-cases (min (length data_) (available_space rb) == 0)) [
  | inl z ↦ rw z refl
  | inr d ↦ rw d refl
]

read-size : (wanted : ℕ) (rb : RingBuffer) → (read wanted rb).0.size ≡ rb.size
unfolding read
read-size wanted rb = elim (Bool-cases (min wanted (available_data rb) == 0)) [
  | inl z ↦ rw z refl
  | inr d ↦ rw d refl
]

run-Holds :
    (calls : List Call) (size : ℕ) (xs : List ℕ) (rb : RingBuffer)
    → rb.size ≡ size
    → Holds rb xs
    → run rb calls ≡ run_queue (size - 1) xs calls
unfolding run run_queue
run-Holds [] size xs rb z h = refl
run-Holds (writes data_ ∷ calls) size xs rb z h =
    let w = write-Holds data_ xs rb h in
    let n : (write data_ rb).1 ≡ min (length data_) (size - 1 - length xs) =
      omega (arith, w.0, z) in
    let next : Holds (write data_ rb).0
        (xs ++ take (min (length data_) (size - 1 - length xs)) data_) =
      rw n at w.1 in
    let rest = run-Holds calls size _ (write data_ rb).0 (write-size data_ rb ∙ z) next in
    λ i. wrote (n i) ∷ rest i
run-Holds (reads wanted ∷ calls) size xs rb z h =
    let r = read-Holds wanted xs rb h in
    let rest =
      run-Holds calls size (drop wanted xs) (read wanted rb).0 (read-size wanted rb ∙ z) r.1 in
    λ i. gave (r.0 i) ∷ rest i

-- A new ring buffer of positive size answers every sequence of writes and reads as a queue of
-- bytes does that holds at most one byte less than the size, takes as much of each write as fits,
-- and gives the oldest bytes to each read.
pub run-run_queue :
    (size : ℕ) (calls : List Call)
    → 0 < size
    → run (new_ring_buffer size) calls ≡ run_queue (size - 1) [] calls
unfolding new_ring_buffer
run-run_queue size calls h =
    let zeros : List ℕ = replicate size 0 in
    let l : length zeros ≡ size = length-replicate size _ in
    run-Holds calls size [] (new_ring_buffer size) refl
      (linear [] [] zeros refl (omega (arith, l)) refl (omega arith) (omega (arith, l)))
