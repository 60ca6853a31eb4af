-- ===== src/Utils/RingBuffer/Positions.antt =====
-- memory.go: where the bytes of a RingBuffer stand, and what a write does to them.
use data_middleware.Prelude.{
  ℕ, ◌+◌, ◌-◌, ◌%◌, ◌≤◌, ◌<◌, ◌≡◌, refl, sym, ◌∙◌, ap, false, List, [], ◌++◌, length, take, drop,
  leb, ltb, ◌==◌, min, arith, Bool-cases, inl, inr, length-append, length-take, length-drop,
  take-append, drop-append, take-append-drop, take-take, drop_all, ltb→lt, le→leb, drop-append_le,
}
use native.Mathlib.Nat.{mod-eq_of_lt, mod_self, mod-eq-sub-mod}
use mathlib.Core.List.{append-nil, append_assoc}
use data_middleware.Utils.RingBuffer.{
  RingBuffer, available_data, available_space, copy_at, store, write,
}

-- The bytes that a buffer holds: they stand in one piece before the position of the next write, or
-- around the end of the buffer.
pub data Holds (rb : RingBuffer) : List ℕ → Type 0 where
  linear :
      (p c q : List ℕ)
      → rb.buffer ≡ p ++ (c ++ q)
      → rb.size ≡ length p + (length c + length q)
      → rb.read_pos ≡ length p
      → rb.write_pos ≡ length p + length c
      → 0 < length q
      → Holds rb c
  wrapped :
      (b q a : List ℕ)
      → rb.buffer ≡ b ++ (q ++ a)
      → rb.size ≡ length b + (length q + length a)
      → rb.read_pos ≡ length b + length q
      → rb.write_pos ≡ length b
      → 0 < length q
      → 0 < length a
      → Holds rb (a ++ b)

pub Holds-available_data :
    (rb : RingBuffer) (xs : List ℕ) → Holds rb xs → available_data rb ≡ length xs
unfolding available_data
Holds-available_data rb _ (linear p c q e s r w h) = rw (r, w) (ground (arith))
Holds-available_data rb _ (wrapped b q a e s r w h k) =
    rw (r, w, s) (ground (arith, length-append a b))

pub Holds-bounded : (rb : RingBuffer) (xs : List ℕ) → Holds rb xs → length xs < rb.size
Holds-bounded rb _ (linear p c q e s r w h) = omega (arith, s)
Holds-bounded rb _ (wrapped b q a e s r w h k) = omega (arith, s, length-append a b)

pub mod_wrap : (n size : ℕ) → size ≤ n → n < size + size → n % size ≡ n - size
mod_wrap n size h k = mod-eq-sub-mod h ∙ mod-eq_of_lt (omega arith)

copy_at-append :
    (x y z d : List ℕ) {i : ℕ}
    → i ≡ length x
    → length d ≡ length y
    → copy_at i d (x ++ (y ++ z)) ≡ x ++ (d ++ z)
copy_at-append x y z d {i = i} e f = rw (take-append x (y ++ z) e) (
    ap (λ r. x ++ (d ++ r))
      (ap (drop (i + length d)) (sym (append_assoc x y z))
        ∙ drop-append (x ++ y) z (omega (arith, length-append x y))))

-- The bytes at the two ends of a list.
pub split_at : (n : ℕ) (xs : List ℕ) → xs ≡ take n xs ++ drop n xs
split_at n xs = sym (take-append-drop n xs)

-- The buffer after a write.
abbrev stored : RingBuffer → ℕ → List ℕ → RingBuffer
stored rb n data_ = record rb {
  buffer = store rb n data_;
  write_pos = (rb.write_pos + n) % rb.size;
}

store_fits :
    (rb : RingBuffer) (n : ℕ) (data_ x y : List ℕ)
    → n ≤ length data_
    → rb.write_pos + n ≤ rb.size
    → rb.buffer ≡ x ++ y
    → rb.write_pos ≡ length x
    → n ≤ length y
    → store rb n data_ ≡ x ++ (take n data_ ++ drop n y)
unfolding store
store_fits rb n data_ x y enough fits e w room =
    rw (le→leb _ _ fits, e, ap (λ y. x ++ y) (split_at n y))
      (copy_at-append x (take n y) (drop n y) (take n data_) w
        (omega (arith, length-take n data_, length-take n y)))

write-linear_inside :
    (rb : RingBuffer) (n : ℕ) (data_ p c q : List ℕ)
    → rb.buffer ≡ p ++ (c ++ q)
    → rb.size ≡ length p + (length c + length q)
    → rb.read_pos ≡ length p
    → rb.write_pos ≡ length p + length c
    → n < length q
    → n ≤ length data_
    → Holds (stored rb n data_) (c ++ take n data_)
write-linear_inside rb n data_ p c q e s r w room enough =
    linear p (c ++ take n data_) (drop n q)
      (store_fits rb n data_ (p ++ c) q enough (omega (arith, s, w)) (e ∙ sym (append_assoc p c q))
          (omega (arith, w, length-append p c)) (omega arith)
        ∙ (append_assoc p c (take n data_ ++ drop n q)
            ∙ ap (◌++◌ p) (sym (append_assoc c (take n data_) (drop n q)))))
      (omega (arith, s, length-append c (take n data_), length-take n data_, length-drop n q)) r
      (mod-eq_of_lt (omega (arith, s, w))
        ∙ omega (arith, w, length-append c (take n data_), length-take n data_))
      (omega (arith, length-drop n q))

write-linear_end :
    (rb : RingBuffer) (n : ℕ) (data_ p c q : List ℕ)
    → rb.buffer ≡ p ++ (c ++ q)
    → rb.size ≡ length p + (length c + length q)
    → rb.read_pos ≡ length p
    → rb.write_pos ≡ length p + length c
    → n ≡ length q
    → 0 < n
    → 0 < length p
    → n ≤ length data_
    → Holds (stored rb n data_) (c ++ take n data_)
write-linear_end rb n data_ p c q e s r w room some_ before enough =
    let z : rb.write_pos + n ≡ rb.size = omega (arith, s, w, room) in
    let none_left : drop n q ≡ [] = drop_all n q (omega (arith, room)) in
    let h : Holds (stored rb n data_) ((c ++ take n data_) ++ []) =
      wrapped [] p (c ++ take n data_)
        (store_fits rb n data_ (p ++ c) q enough (omega (arith, z)) (e ∙ sym (append_assoc p c q))
            (omega (arith, w, length-append p c)) (omega (arith, room))
          ∙ (append_assoc p c (take n data_ ++ drop n q)
              ∙ ap (λ l. p ++ (c ++ l))
                  (ap (◌++◌ (take n data_)) none_left ∙ append-nil (take n data_))))
        (omega (arith, s, room, length-append c (take n data_), length-take n data_))
        (omega (arith, r)) (rw z (mod_self rb.size)) before
        (omega (arith, length-append c (take n data_), length-take n data_)) in
    rw append-nil at h

store_around :
    (rb : RingBuffer) (n : ℕ) (data_ p c q : List ℕ)
    → rb.buffer ≡ p ++ (c ++ q)
    → rb.size ≡ length p + (length c + length q)
    → rb.write_pos ≡ length p + length c
    → length q < n
    → n < length p + length q
    → n ≤ length data_
    → store rb n data_
      ≡ drop (length q) (take n data_)
        ++ (drop (length (drop (length q) (take n data_))) p ++ (c ++ take (length q) data_))
unfolding store
store_around rb n data_ p c q e s w over room enough =
    let first : rb.size - rb.write_pos ≡ length q = omega (arith, s, w) in
    let over_end : leb (rb.write_pos + n) rb.size ≡ false = ground (arith, s, w) in
    let d1 : List ℕ = take (length q) data_ in
    let d2 : List ℕ = drop (length q) (take n data_) in
    let l1 : length d1 ≡ length q = omega (arith, length-take (length q) data_) in
    let l2 : length d2 ≡ n - length q =
      omega (arith, length-take n data_, length-drop (length q) (take n data_)) in
    let inner : copy_at rb.write_pos d1 rb.buffer ≡ p ++ (c ++ d1) =
      rw (e ∙ sym (append_assoc p c q) ∙ ap (λ l. (p ++ c) ++ l) (sym (append-nil q))) (
        copy_at-append (p ++ c) q [] d1 (omega (arith, w, length-append p c)) l1
        ∙ (ap (λ l. (p ++ c) ++ l) (append-nil d1) ∙ append_assoc p c d1)) in
    let outer : copy_at 0 d2 (p ++ (c ++ d1)) ≡ d2 ++ (drop (length d2) p ++ (c ++ d1)) =
      ap (λ l. copy_at 0 d2 (l ++ (c ++ d1))) (split_at (length d2) p)
      ∙ (ap (copy_at 0 d2) (append_assoc (take (length d2) p) (drop (length d2) p) (c ++ d1))
          ∙ copy_at-append [] (take (length d2) p) (drop (length d2) p ++ (c ++ d1)) d2 refl
              (omega (arith, length-take (length d2) p, l2))) in
    rw (over_end, first) (ap (copy_at 0 d2) inner ∙ outer)

write-linear_around :
    (rb : RingBuffer) (n : ℕ) (data_ p c q : List ℕ)
    → rb.buffer ≡ p ++ (c ++ q)
    → rb.size ≡ length p + (length c + length q)
    → rb.read_pos ≡ length p
    → rb.write_pos ≡ length p + length c
    → length q < n
    → 0 < length q
    → n < length p + length q
    → n ≤ length data_
    → Holds (stored rb n data_) (c ++ take n data_)
write-linear_around rb n data_ p c q e s r w over some_ room enough =
    let d1 : List ℕ = take (length q) data_ in
    let d2 : List ℕ = drop (length q) (take n data_) in
    let l1 : length d1 ≡ length q = omega (arith, length-take (length q) data_) in
    let l2 : length d2 ≡ n - length q =
      omega (arith, length-take n data_, length-drop (length q) (take n data_)) in
    let h : Holds (stored rb n data_) ((c ++ d1) ++ d2) =
      wrapped d2 (drop (length d2) p) (c ++ d1)
        (store_around rb n data_ p c q e s w over room enough)
        (omega (arith, s, l1, l2, length-append c d1, length-drop (length d2) p))
        (omega (arith, r, l2, length-drop (length d2) p))
        (mod_wrap (rb.write_pos + n) rb.size (omega (arith, s, w)) (omega (arith, s, w))
          ∙ omega (arith, s, w, l2))
        (omega (arith, l2, length-drop (length d2) p)) (omega (arith, l1, length-append c d1)) in
    let joined : d1 ++ d2 ≡ take n data_ =
      ap (λ l. l ++ d2) (sym (take-take n (length q) data_ (omega arith)))
      ∙ take-append-drop (length q) (take n data_) in
    rw (append_assoc c d1 d2 ∙ ap (◌++◌ c) joined) at h

write-wrapped :
    (rb : RingBuffer) (n : ℕ) (data_ b q a : List ℕ)
    → rb.buffer ≡ b ++ (q ++ a)
    → rb.size ≡ length b + (length q + length a)
    → rb.read_pos ≡ length b + length q
    → rb.write_pos ≡ length b
    → 0 < length a
    → n < length q
    → n ≤ length data_
    → Holds (stored rb n data_) ((a ++ b) ++ take n data_)
write-wrapped rb n data_ b q a e s r w some_ room enough =
    let split : drop n (q ++ a) ≡ drop n q ++ a = drop-append_le n q a (omega arith) in
    let h : Holds (stored rb n data_) (a ++ (b ++ take n data_)) =
      wrapped (b ++ take n data_) (drop n q) a
        (store_fits rb n data_ b (q ++ a) enough (omega (arith, s, w)) e w
            (omega (arith, length-append q a))
          ∙ (ap (λ l. b ++ (take n data_ ++ l)) split
              ∙ sym (append_assoc b (take n data_) (drop n q ++ a))))
        (omega (arith, s, length-append b (take n data_), length-take n data_, length-drop n q))
        (omega (arith, r, length-append b (take n data_), length-take n data_, length-drop n q))
        (mod-eq_of_lt (omega (arith, s, w))
          ∙ omega (arith, w, length-append b (take n data_), length-take n data_))
        (omega (arith, length-drop n q)) some_ in
    rw (append_assoc a b (take n data_)) h

stored-Holds :
    (rb : RingBuffer) (n : ℕ) (data_ xs : List ℕ)
    → Holds rb xs
    → 0 < n
    → n ≤ length data_
    → n ≤ rb.size - length xs - 1
    → Holds (stored rb n data_) (xs ++ take n data_)
stored-Holds rb n data_ _ (linear p c q e s r w h) some_ enough room =
    elim (Bool-cases (ltb n (length q))) [
      | inl y ↦ write-linear_inside rb n data_ p c q e s r w (ltb→lt n (length q) y) enough
      | inr d ↦ elim (Bool-cases (n == length q)) [
        | inl y ↦
            let same : n ≡ length q = ground arith in
            write-linear_end rb n data_ p c q e s r w same some_ (omega (arith, s, same)) enough
        | inr f ↦
            let over : length q < n = ground arith in
            write-linear_around rb n data_ p c q e s r w over h (omega (arith, s, over)) enough
      ]
    ]
stored-Holds rb n data_ _ (wrapped b q a e s r w h k) some_ enough room =
    write-wrapped rb n data_ b q a e s r w k (omega (arith, s, length-append a b)) enough

-- What fits is put at the end of the queue.
pub write-Holds :
    (data_ xs : List ℕ) (rb : RingBuffer)
    → Holds rb xs
    → ((write data_ rb).1 ≡ min (length data_) (rb.size - length xs - 1))
      × Holds (write data_ rb).0 (xs ++ take (write data_ rb).1 data_)
unfolding write available_space
write-Holds data_ xs rb h =
    let e : min (length data_) (rb.size - available_data rb - 1)
        ≡ min (length data_) (rb.size - length xs - 1) =
      omega (arith, Holds-available_data rb xs h) in
    let n : ℕ = min (length data_) (rb.size - available_data rb - 1) in
    elim (Bool-cases (n == 0)) [
      | inl z ↦ let z0 : n ≡ 0 = ground arith in rw z (omega (arith, e, z0), rw append-nil h)
      | inr d ↦
          let some_ : 0 < n = ground arith in
          rw d (e, stored-Holds rb n data_ xs h some_ (omega arith) (omega (arith, e)))
    ]
