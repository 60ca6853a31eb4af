-- ===== src/Utils/Lru/Memory.antt =====
-- datastruct.go: doubly linked lists in the memory of an LRUCache.
use data_middleware.Prelude.{
  ℕ, ◌≡◌, ◌⊎◌, inl, inr, refl, ◌∙◌, Bool, true, false, ◌||◌, List, [], ◌∷◌, ◌++◌, none, some, ◌==◌,
  arith, Bool-cases, ==_refl,
}
use data_middleware.Utils.Lru.{Pointer, same, LruItem, Memory, modify, set_next, set_prev}

-- What a list stands for: the address, the key and the value of each node, in order.
abbrev pub Cells : (K V : Type 0) → Type 0
Cells K V = List (ℕ × K × V)

eq_flip : (a b : ℕ) → (a == b) ≡ false → (b == a) ≡ false
eq_flip a b e = ground arith

module _ {K V : Type 0} where
  abbrev pub node : K → V → Pointer → Pointer → LruItem K V
  node k v p q = record { key = k; value = v; prev = p; next = q }

  abbrev pub has : ℕ → Cells K V → Bool
  has a [] = false
  has a ((b, k, v) ∷ xs) = a == b || has a xs

  abbrev pub Distinct : Cells K V → Type 0
  Distinct [] = Unit
  Distinct ((a, k, v) ∷ xs) = (has a xs ≡ false) × Distinct xs

  -- The first address, and the one behind the list where it is empty.
  abbrev pub first : Cells K V → Pointer → Pointer
  first [] after = after
  first ((a, k, v) ∷ xs) after = some a

  -- The last address, and the one before the list where it is empty.
  abbrev pub last : Pointer → Cells K V → Pointer
  last before [] = before
  last before ((a, k, v) ∷ xs) = last (some a) xs

  -- The nodes of the list are linked both ways, from `before` to `after`.
  abbrev pub Seg : Memory K V → Pointer → Cells K V → Pointer → Type 0
  Seg m before [] after = Unit
  Seg m before ((a, k, v) ∷ xs) after =
      (m a ≡ some (node k v before (first xs after))) × Seg m (some a) xs after

  pub has-append : (a : ℕ) (xs ys : Cells K V) → has a (xs ++ ys) ≡ (has a xs || has a ys)
  has-append a [] ys = refl
  has-append a (x ∷ xs) ys = ground (arith, has-append a xs ys)

  pub Distinct-append :
      (xs ys : Cells K V)
      → Distinct (xs ++ ys)
      → Distinct xs × Distinct ys × ((a : ℕ) → has a xs ≡ true → has a ys ≡ false)
  Distinct-append [] ys d = (tt, d, λ a h. cc)
  Distinct-append ((b, k, v) ∷ xs) ys (out, d) =
      let (p, q, r) = Distinct-append xs ys d in
      ((ground (arith, has-append b xs ys), p), q, λ a h. ground (arith, has-append b xs ys, r a))

  pub first-append :
      (xs ys : Cells K V) (after : Pointer) → first (xs ++ ys) after ≡ first xs (first ys after)
  first-append [] ys after = refl
  first-append (x ∷ xs) ys after = refl

  pub last-append :
      (before : Pointer) (xs ys : Cells K V) → last before (xs ++ ys) ≡ last (last before xs) ys
  last-append before [] ys = refl
  last-append before ((a, k, v) ∷ xs) ys = last-append (some a) xs ys

  pub Seg-append :
      (m : Memory K V) (before after : Pointer) (xs ys : Cells K V)
      → Seg m before (xs ++ ys) after
      → Seg m before xs (first ys after) × Seg m (last before xs) ys after
  Seg-append m before after [] ys s = (tt, s)
  Seg-append m before after ((a, k, v) ∷ xs) ys (e, s) =
      let (p, q) = Seg-append m (some a) after xs ys s in ((rw first-append at e, p), q)

  pub append-Seg :
      (m : Memory K V) (before after : Pointer) (xs ys : Cells K V)
      → Seg m before xs (first ys after)
      → Seg m (last before xs) ys after
      → Seg m before (xs ++ ys) after
  append-Seg m before after [] ys s t = t
  append-Seg m before after ((a, k, v) ∷ xs) ys (e, s) t =
      (rw first-append e, append-Seg m (some a) after xs ys s t)

  -- A list survives any change that spares its addresses.
  pub Seg-frame :
      (m n : Memory K V) (before after : Pointer) (xs : Cells K V)
      → Seg m before xs after
      → ((a : ℕ) → has a xs ≡ true → n a ≡ m a)
      → Seg n before xs after
  Seg-frame m n before after [] s same = tt
  Seg-frame m n before after ((a, k, v) ∷ xs) (e, s) same =
      (same a (ground arith) ∙ e, Seg-frame m n (some a) after xs s (λ b h. same b (ground arith)))

  pub modify-other :
      (a b : ℕ) (f : LruItem K V → LruItem K V) (m : Memory K V)
      → (a == b) ≡ false
      → modify a f m b ≡ m b
  unfolding modify
  modify-other a b f m n = rw n refl

  pub modify-at :
      (a : ℕ) (f : LruItem K V → LruItem K V) (m : Memory K V) (n : LruItem K V)
      → m a ≡ some n
      → modify a f m a ≡ some (f n)
  unfolding modify
  modify-at a f m n e = rw (e, ==_refl a) refl

  -- The pointer is nil, or points to none of the nodes.
  abbrev pub Away : Pointer → Cells K V → Type 0
  Away none xs = Unit
  Away (some a) xs = has a xs ≡ false

  pub ne_of_has : (a b : ℕ) (xs : Cells K V) → has a xs ≡ false → has b xs ≡ true → (a == b) ≡ false
  ne_of_has a b xs p q = elim (Bool-cases (a == b)) [
    | inl y ↦ let e : a ≡ b = ground arith in let z : has b xs ≡ false = rw e at p in absurd (cc)
    | inr n ↦ n
  ]

  pub ne_of_has_flip :
      (a b : ℕ) (xs : Cells K V) → has a xs ≡ false → has b xs ≡ true → (b == a) ≡ false
  ne_of_has_flip a b xs p q = eq_flip a b (ne_of_has a b xs p q)

  pub set_next-other :
      (p q : Pointer) (m : Memory K V) (b : ℕ) → same p (some b) ≡ false → set_next p q m b ≡ m b
  unfolding set_next
  set_next-other none q m b n = refl
  set_next-other (some a) q m b n = modify-other a b _ m n

  pub set_prev-other :
      (p q : Pointer) (m : Memory K V) (b : ℕ) → same p (some b) ≡ false → set_prev p q m b ≡ m b
  unfolding set_prev
  set_prev-other none q m b n = refl
  set_prev-other (some a) q m b n = modify-other a b _ m n

  Away-same :
      (p : Pointer) (xs : Cells K V) (b : ℕ) → Away p xs → has b xs ≡ true → same p (some b) ≡ false
  Away-same none xs b w h = refl
  Away-same (some a) xs b w h = ne_of_has a b xs w h

  pub set_next-Seg-Away :
      (p q before after : Pointer) (m : Memory K V) (xs : Cells K V)
      → Away p xs
      → Seg m before xs after
      → Seg (set_next p q m) before xs after
  set_next-Seg-Away p q before after m xs w s =
      Seg-frame m (set_next p q m) before after xs s
        (λ a h. set_next-other p q m a (Away-same p xs a w h))

  pub set_prev-Seg-Away :
      (p q before after : Pointer) (m : Memory K V) (xs : Cells K V)
      → Away p xs
      → Seg m before xs after
      → Seg (set_prev p q m) before xs after
  set_prev-Seg-Away p q before after m xs w s =
      Seg-frame m (set_prev p q m) before after xs s
        (λ a h. set_prev-other p q m a (Away-same p xs a w h))

  -- The last node of a list is one of its nodes.
  last-has :
      (a : ℕ) (xs : Cells K V)
      → (b : ℕ) × (last (some a) xs ≡ some b) × ((b ≡ a) ⊎ (has b xs ≡ true))
  last-has a [] = (a, refl, inl refl)
  last-has a ((b, k, v) ∷ xs) =
      let (c, e, w) = last-has b xs in
      (c, e, inr (elim w [ inl same_ ↦ ground arith | inr there ↦ ground arith ]))

  -- A write to the `next` of the last node, of a list that starts with a node that is apart.
  set_next-last :
      (m : Memory K V) (a : ℕ) (k : K) (v : V) (before after q : Pointer) (xs : Cells K V)
      → m a ≡ some (node k v before (first xs after))
      → has a xs ≡ false
      → Distinct xs
      → Seg m (some a) xs after
      → (set_next (last (some a) xs) q m a ≡ some (node k v before (first xs q)))
        × Seg (set_next (last (some a) xs) q m) (some a) xs q
  unfolding set_next
  set_next-last m a k v before after q [] e out d s = (modify-at a _ m _ e, tt)
  set_next-last m a k v before after q ((b, l, w) ∷ xs) e out (apart, d) (f, s) =
      let (c, g, where_) = last-has b xs in
      let there : has c ((b, l, w) ∷ xs) ≡ true = elim where_ [
        | inl y ↦ ground arith
        | inr y ↦ ground arith
      ] in
      let apart_ : (c == a) ≡ false = ne_of_has_flip a c ((b, l, w) ∷ xs) out there in
      let kept : set_next (last (some b) xs) q m a ≡ m a =
        set_next-other (last (some b) xs) q m a (rw g apart_) in
      let rest = set_next-last m b l w (some a) after q xs f apart d s in (kept ∙ e, rest)

  pub set_next-Seg :
      (m : Memory K V) (after q : Pointer) (xs : Cells K V)
      → Distinct xs
      → Seg m none xs after
      → Seg (set_next (last none xs) q m) none xs q
  set_next-Seg m after q [] d s = tt
  set_next-Seg m after q ((a, k, v) ∷ xs) (out, d) (e, s) =
      set_next-last m a k v none after q xs e out d s

  pub set_prev-Seg :
      (m : Memory K V) (before p : Pointer) (xs : Cells K V)
      → Distinct xs
      → Seg m before xs none
      → Seg (set_prev (first xs none) p m) p xs none
  unfolding set_prev
  set_prev-Seg m before p [] d s = tt
  set_prev-Seg m before p ((a, k, v) ∷ xs) (out, d) (e, s) = (
    modify-at a _ m _ e,
    Seg-frame m _ (some a) none xs s (λ b h. modify-other a b _ m (ne_of_has a b xs out h)),
  )

  -- The last node of one list is none of another's that is apart from it; nor is the first.
  pub last-Away :
      (xs ys : Cells K V) → ((a : ℕ) → has a xs ≡ true → has a ys ≡ false) → Away (last none xs) ys
  last-Away [] ys apart = tt
  last-Away ((a, k, v) ∷ xs) ys apart =
      let (c, g, w) = last-has a xs in
      rw g (apart c (elim w [ inl y ↦ ground arith | inr y ↦ ground arith ]))

  pub last-same : (xs : Cells K V) (a : ℕ) → has a xs ≡ false → same (last none xs) (some a) ≡ false
  last-same [] a out = refl
  last-same ((b, k, v) ∷ xs) a out =
      let (c, g, w) = last-has b xs in
      let there : has c ((b, k, v) ∷ xs) ≡ true = elim w [
        | inl y ↦ ground arith
        | inr y ↦ ground arith
      ] in
      rw g (ne_of_has_flip a c ((b, k, v) ∷ xs) out there)

  pub same-last : (xs : Cells K V) (a : ℕ) → has a xs ≡ false → same (some a) (last none xs) ≡ false
  same-last [] a out = refl
  same-last ((b, k, v) ∷ xs) a out =
      let (c, g, w) = last-has b xs in
      let there : has c ((b, k, v) ∷ xs) ≡ true = elim w [
        | inl y ↦ ground arith
        | inr y ↦ ground arith
      ] in
      rw g (ne_of_has a c ((b, k, v) ∷ xs) out there)

  pub first-Away :
      (xs ys : Cells K V) → ((a : ℕ) → has a ys ≡ true → has a xs ≡ false) → Away (first xs none) ys
  first-Away [] ys apart = tt
  first-Away ((a, k, v) ∷ xs) ys apart = elim (Bool-cases (has a ys)) [
    | inl y ↦ let z : has a ((a, k, v) ∷ xs) ≡ false = apart a y in absurd (ground arith)
    | inr n ↦ n
  ]

  pub first-same :
      (xs : Cells K V) (a : ℕ) → has a xs ≡ false → same (first xs none) (some a) ≡ false
  first-same [] a out = refl
  first-same ((b, k, v) ∷ xs) a out = ground arith
