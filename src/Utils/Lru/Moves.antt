-- ===== src/Utils/Lru/Moves.antt =====
-- datastruct.go: addToHead, removeItem and moveToHead on a well-linked list.
use data_middleware.Prelude.{
  ℕ, ◌≡◌, refl, ◌∙◌, true, false, [], ◌∷◌, ◌++◌, none, some, if◌then◌else◌, arith, Bool-cases, inl,
  inr, ==_refl,
}
use data_middleware.Utils.Lru.{
  Pointer, same, Memory, LruCache, set_next, set_prev, add_to_head, unlink, remove_item,
  move_to_head,
}
use data_middleware.Utils.Lru.Memory.{
  Cells, node, has, first, last, has-append, last-append, set_prev-other, set_next-Seg-Away,
  set_prev-Seg-Away, set_prev-Seg, same-last, first-same,
}
use data_middleware.Utils.Lru.Links.{
  IsChain, around, next_of_lem, prev_of_lem, set_next-at, set_prev-at, unlink-Seg,
}

module _ {K V : Type 0} where
  head_after :
      (a : ℕ) (k : K) (v : V) (ys zs : Cells K V)
      → has a ys ≡ false
      → (if same (some a) (first (ys ++ ((a, k, v) ∷ zs)) none)
          then first zs none
          else first (ys ++ ((a, k, v) ∷ zs)) none)
        ≡ first (ys ++ zs) none
  head_after a k v [] zs out = rw (==_refl a) refl
  head_after a k v ((b, l, w) ∷ ys) zs out = ground arith

  tail_after :
      (a : ℕ) (k : K) (v : V) (ys zs : Cells K V)
      → has a zs ≡ false
      → (if same (some a) (last none (ys ++ ((a, k, v) ∷ zs)))
          then last none ys
          else last none (ys ++ ((a, k, v) ∷ zs)))
        ≡ last none (ys ++ zs)
  tail_after a k v ys [] out =
      rw (last-append none ys ((a, k, v) ∷ []), last-append none ys [], ==_refl a) refl
  tail_after a k v ys ((b, l, w) ∷ zs) out =
      rw
        (
          last-append none ys ((a, k, v) ∷ (b, l, w) ∷ zs),
          last-append none ys ((b, l, w) ∷ zs),
          same-last ((b, l, w) ∷ zs) a out,
        )
        refl

  pub remove_item-IsChain :
      (c : LruCache K V) (ys : Cells K V) (a : ℕ) (k : K) (v : V) (zs : Cells K V)
      → IsChain c (ys ++ ((a, k, v) ∷ zs))
      → IsChain (remove_item a c) (ys ++ zs)
        × ((remove_item a c).memory a ≡ some (node k v none none))
  unfolding remove_item
  remove_item-IsChain c ys a k v zs h =
      let r = around ys a k v zs h.distinct in
      let m2 : Memory K V = unlink a c.memory in
      let (s, at_a) = unlink-Seg c.memory ys a k v zs r h.chain in
      let out : has a (ys ++ zs) ≡ false = rw (has-append a ys zs, r.before_out) r.after_out in
      let at_a1 = set_prev-at a none m2 _ at_a in
      let at_a2 = set_next-at a none (set_prev (some a) none m2) _ at_a1 in
      let s1 = set_prev-Seg-Away (some a) none none none m2 (ys ++ zs) out s in
      let s2 =
        set_next-Seg-Away (some a) none none none (set_prev (some a) none m2) (ys ++ zs) out s1 in
      (
        record {
          chain = s2;
          head_is = rw (next_of_lem m2 a _ at_a, h.head_is) (head_after a k v ys zs r.before_out);
          tail_is = rw (prev_of_lem m2 a _ at_a, h.tail_is) (tail_after a k v ys zs r.after_out);
          distinct = r.rest_distinct;
        },
        at_a2,
      )

  add_to_head_empty :
      (a : ℕ) (c : LruCache K V)
      → c.head ≡ none
      → add_to_head a c ≡ record c { head = some a; tail = some a }
  unfolding add_to_head
  add_to_head_empty a c e = rw e refl

  add_to_head_more :
      (a h : ℕ) (c : LruCache K V)
      → c.head ≡ some h
      → add_to_head a c ≡ record c {
        memory = set_prev (some h) (some a) (set_next (some a) (some h) c.memory);
        head = some a;
      }
  unfolding add_to_head
  add_to_head_more a h c e = rw e refl

  pub add_to_head-IsChain :
      (c : LruCache K V) (xs : Cells K V) (a : ℕ) (k : K) (v : V)
      → IsChain c xs
      → has a xs ≡ false
      → c.memory a ≡ some (node k v none none)
      → IsChain (add_to_head a c) ((a, k, v) ∷ xs)
  add_to_head-IsChain c [] a k v h out e =
      rw (add_to_head_empty a c h.head_is)
        (record { chain = (e, tt); head_is = refl; tail_is = refl; distinct = (refl, tt) })
  add_to_head-IsChain c ((b, l, w) ∷ xs) a k v h out e =
      let m1 : Memory K V = set_next (some a) (some b) c.memory in
      let s1 =
        set_next-Seg-Away (some a) (some b) none none c.memory ((b, l, w) ∷ xs) out h.chain in
      let s2 = set_prev-Seg m1 none (some a) ((b, l, w) ∷ xs) h.distinct s1 in
      let at_a1 = set_next-at a (some b) c.memory _ e in
      let at_a2 =
        set_prev-other (some b) (some a) m1 a (first-same ((b, l, w) ∷ xs) a out) ∙ at_a1 in
      rw (add_to_head_more a b c h.head_is) (record {
        chain = (at_a2, s2);
        head_is = refl;
        tail_is = h.tail_is;
        distinct = (out, h.distinct);
      })

  -- What the moves of items leave alone.
  pub record IsBeside (c d : LruCache K V) : Type 0 where
    pub capacity_kept : d.capacity ≡ c.capacity
    pub cache_kept : d.cache ≡ c.cache
    pub next_address_kept : d.next_address ≡ c.next_address

  pub remove_item-IsBeside : (a : ℕ) (c : LruCache K V) → IsBeside c (remove_item a c)
  unfolding remove_item
  remove_item-IsBeside a c = record {
    capacity_kept = refl;
    cache_kept = refl;
    next_address_kept = refl;
  }

  add_to_head-IsBeside_of :
      (a : ℕ) (c : LruCache K V) (p : Pointer) → c.head ≡ p → IsBeside c (add_to_head a c)
  add_to_head-IsBeside_of a c none e =
      rw (add_to_head_empty a c e)
        (record { capacity_kept = refl; cache_kept = refl; next_address_kept = refl })
  add_to_head-IsBeside_of a c (some h) e =
      rw (add_to_head_more a h c e)
        (record { capacity_kept = refl; cache_kept = refl; next_address_kept = refl })

  pub add_to_head-IsBeside : (a : ℕ) (c : LruCache K V) → IsBeside c (add_to_head a c)
  add_to_head-IsBeside a c = add_to_head-IsBeside_of a c c.head refl

  move_to_head_first :
      (a : ℕ) (c : LruCache K V) → same (some a) c.head ≡ true → move_to_head a c ≡ c
  unfolding move_to_head
  move_to_head_first a c e = rw e refl

  move_to_head_later :
      (a : ℕ) (c : LruCache K V)
      → same (some a) c.head ≡ false
      → move_to_head a c ≡ add_to_head a (remove_item a c)
  unfolding move_to_head
  move_to_head_later a c e = rw e refl

  pub move_to_head-IsBeside : (a : ℕ) (c : LruCache K V) → IsBeside c (move_to_head a c)
  move_to_head-IsBeside a c = elim (Bool-cases (same (some a) c.head)) [
    | inl y ↦
        rw (move_to_head_first a c y)
          (record { capacity_kept = refl; cache_kept = refl; next_address_kept = refl })
    | inr n ↦
        let p = add_to_head-IsBeside a (remove_item a c) in
        let q = remove_item-IsBeside a c in
        rw (move_to_head_later a c n) (record {
          capacity_kept = p.capacity_kept ∙ q.capacity_kept;
          cache_kept = p.cache_kept ∙ q.cache_kept;
          next_address_kept = p.next_address_kept ∙ q.next_address_kept;
        })
  ]

  pub move_to_head-IsChain :
      (c : LruCache K V) (ys : Cells K V) (a : ℕ) (k : K) (v : V) (zs : Cells K V)
      → IsChain c (ys ++ ((a, k, v) ∷ zs))
      → IsChain (move_to_head a c) ((a, k, v) ∷ (ys ++ zs))
  move_to_head-IsChain c [] a k v zs h = rw (move_to_head_first a c (rw (h.head_is) (==_refl a))) h
  move_to_head-IsChain c ((b, l, w) ∷ ys) a k v zs h =
      let r = around ((b, l, w) ∷ ys) a k v zs h.distinct in
      let out : has a (((b, l, w) ∷ ys) ++ zs) ≡ false =
        rw (has-append a ((b, l, w) ∷ ys) zs, r.before_out) r.after_out in
      let later : same (some a) c.head ≡ false = rw (h.head_is) (ground (arith, r.before_out)) in
      let (p, e) = remove_item-IsChain c ((b, l, w) ∷ ys) a k v zs h in
      rw (move_to_head_later a c later)
        (add_to_head-IsChain (remove_item a c) (((b, l, w) ∷ ys) ++ zs) a k v p out e)
