-- ===== src/Utils/Lru/Links.antt =====
-- datastruct.go: a node taken out of a well-linked list.
use data_middleware.Prelude.{
  ℕ, ◌≡◌, refl, ◌∙◌, ap, true, false, [], ◌∷◌, ◌++◌, none, some, arith, Bool-cases, inl, inr,
}
use data_middleware.Utils.Lru.{
  Pointer, LruItem, Memory, LruCache, set_next, set_prev, next_of, prev_of, unlink,
}
use data_middleware.Utils.Lru.Memory.{
  Cells, node, has, Distinct, first, last, Seg, has-append, Distinct-append, Seg-append, append-Seg,
  modify-at, set_next-other, set_prev-other, set_next-Seg-Away, set_prev-Seg-Away, set_next-Seg,
  set_prev-Seg, last-Away, last-same, first-Away, first-same,
}

module _ {K V : Type 0} where
  -- The list of a cache, from its head to its tail.
  pub record IsChain (c : LruCache K V) (xs : Cells K V) : Type 0 where
    pub chain : Seg c.memory none xs none
    pub head_is : c.head ≡ first xs none
    pub tail_is : c.tail ≡ last none xs
    pub distinct : Distinct xs

  -- A node within a list, and the lists around it.
  pub record IsAround (ys : Cells K V) (a : ℕ) (k : K) (v : V) (zs : Cells K V) : Type 0 where
    pub before_distinct : Distinct ys
    pub after_distinct : Distinct zs
    pub before_out : has a ys ≡ false
    pub after_out : has a zs ≡ false
    pub apart : (b : ℕ) → has b ys ≡ true → has b zs ≡ false
    pub rest_distinct : Distinct (ys ++ zs)

  append-Distinct :
      (xs ys : Cells K V)
      → Distinct xs
      → Distinct ys
      → ((a : ℕ) → has a xs ≡ true → has a ys ≡ false)
      → Distinct (xs ++ ys)
  append-Distinct [] ys p q r = q
  append-Distinct ((a, k, v) ∷ xs) ys (out, p) q r = (
    rw (has-append a xs ys, out) (r a (ground arith)),
    append-Distinct xs ys p q (λ b h. r b (ground arith)),
  )

  pub around :
      (ys : Cells K V) (a : ℕ) (k : K) (v : V) (zs : Cells K V)
      → Distinct (ys ++ ((a, k, v) ∷ zs))
      → IsAround ys a k v zs
  around ys a k v zs d =
      let (p, (out, q), r) = Distinct-append ys ((a, k, v) ∷ zs) d in
      let apart_ : (b : ℕ) → has b ys ≡ true → has b zs ≡ false = λ b h. ground (arith, r b) in
      record {
        before_distinct = p;
        after_distinct = q;
        before_out = elim (Bool-cases (has a ys)) [
          | inl y ↦ let z : has a ((a, k, v) ∷ zs) ≡ false = r a y in absurd (ground arith)
          | inr n ↦ n
        ];
        after_out = out;
        apart = apart_;
        rest_distinct = append-Distinct ys zs p q apart_;
      }

  pub next_of_lem : (m : Memory K V) (a : ℕ) (n : LruItem K V) → m a ≡ some n → next_of m a ≡ n.next
  next_of_lem m a n e = ap (λ o. elim o [ none ↦ none | some i ↦ i.next ]) e

  pub prev_of_lem : (m : Memory K V) (a : ℕ) (n : LruItem K V) → m a ≡ some n → prev_of m a ≡ n.prev
  prev_of_lem m a n e = ap (λ o. elim o [ none ↦ none | some i ↦ i.prev ]) e

  unlink_lem :
      (m : Memory K V) (a : ℕ) (k : K) (v : V) (p q : Pointer)
      → m a ≡ some (node k v p q)
      → set_next p q m a ≡ some (node k v p q)
      → unlink a m ≡ set_prev q p (set_next p q m)
  unfolding unlink
  unlink_lem m a k v p q e f =
      let next_e = next_of_lem m a _ e in
      let prev_e = prev_of_lem m a _ e in
      let next_f = next_of_lem (set_next p q m) a _ f in
      let prev_f = prev_of_lem (set_next p q m) a _ f in rw (next_e, prev_e, next_f, prev_f) refl

  pub set_next-at :
      (a : ℕ) (q : Pointer) (m : Memory K V) (n : LruItem K V)
      → m a ≡ some n
      → set_next (some a) q m a ≡ some (record n { next = q })
  unfolding set_next
  set_next-at a q m n e = modify-at a _ m n e

  pub set_prev-at :
      (a : ℕ) (q : Pointer) (m : Memory K V) (n : LruItem K V)
      → m a ≡ some n
      → set_prev (some a) q m a ≡ some (record n { prev = q })
  unfolding set_prev
  set_prev-at a q m n e = modify-at a _ m n e

  -- After the writes to its neighbours, an item is left out of the list, and itself unchanged.
  pub unlink-Seg :
      (m : Memory K V) (ys : Cells K V) (a : ℕ) (k : K) (v : V) (zs : Cells K V)
      → IsAround ys a k v zs
      → Seg m none (ys ++ ((a, k, v) ∷ zs)) none
      → Seg (unlink a m) none (ys ++ zs) none
        × (unlink a m a ≡ some (node k v (last none ys) (first zs none)))
  unlink-Seg m ys a k v zs h s =
      let (front, (at_a, back)) = Seg-append m none none ys ((a, k, v) ∷ zs) s in
      let p : Pointer = last none ys in
      let q : Pointer = first zs none in
      let m1 : Memory K V = set_next p q m in
      let kept1 : m1 a ≡ some (node k v p q) =
        set_next-other p q m a (last-same ys a h.before_out) ∙ at_a in
      let m2 : Memory K V = set_prev q p m1 in
      let kept2 : m2 a ≡ some (node k v p q) =
        set_prev-other q p m1 a (first-same zs a h.after_out) ∙ kept1 in
      let front1 : Seg m1 none ys q = set_next-Seg m (some a) q ys h.before_distinct front in
      let back1 : Seg m1 (some a) zs none =
        set_next-Seg-Away p q (some a) none m zs (last-Away ys zs h.apart) back in
      let front2 : Seg m2 none ys q =
        set_prev-Seg-Away q p none q m1 ys (first-Away zs ys h.apart) front1 in
      let back2 : Seg m2 p zs none = set_prev-Seg m1 (some a) p zs h.after_distinct back1 in
      rw (unlink_lem m a k v p q at_a kept1) (append-Seg m2 none none ys zs front2 back2, kept2)
