-- ===== src/Utils/Lru/Invariant.antt =====
-- datastruct.go: the map, the list and the memory of an LRUCache agree.
use data_middleware.Prelude.{
  ℕ, suc, ◌+◌, ◌<◌, ◌≡◌, refl, sym, ◌∙◌, ap, true, false, [], ◌∷◌, ◌++◌, none, some, ◌==◌,
  if◌then◌else◌, arith, Bool-cases, ==_refl, ==_iff, inl, inr, Eq, length, take, length-append,
}
use data_middleware.Prelude.Assoc.{
  lookup, insert, delete, IsMap, lookup-insert, lookup-delete, insert-IsMap, delete-IsMap,
  length-insert, length-delete,
}
use data_middleware.Utils.Lru.{
  LruItem, Memory, LruCache, modify, add_to_head, remove_item, move_to_head, remove_tail,
}
use data_middleware.Utils.Lru.Memory.{
  Cells, has, Seg, Seg-append, append-Seg, Seg-frame, modify-at, modify-other, ne_of_has,
  first-append, last-append,
}
use data_middleware.Utils.Lru.Links.{IsChain, around}
use data_middleware.Utils.Lru.Moves.{
  remove_item-IsChain, add_to_head-IsChain, add_to_head-IsBeside, move_to_head-IsChain,
  move_to_head-IsBeside,
}
use data_middleware.Utils.Lru.Index.{
  entries, index, split_last, take-entries, split, split-IsMap, lookup_without, lookup_in_front,
  without-IsMap, in_front-IsMap, length_around, has_around, index_revalued, has_revalued,
  Distinct-revalued, lookup-index,
}

module _ {K V : Type 0} ⦃e : Eq K⦄ where
  -- The list, the map and the memory agree.
  pub record IsLru (c : LruCache K V) (xs : Cells K V) : Type 0 where
    pub is_chain : IsChain c xs
    pub agrees : (k : K) → lookup k c.cache ≡ lookup k (index xs)
    pub is_map : IsMap c.cache
    pub is_index : IsMap (index xs)
    pub sized : length c.cache ≡ length xs
    pub old : (a : ℕ) → has a xs ≡ true → a < c.next_address

  -- The cell that a key of the cache leads to.
  pub reaches :
      (c : LruCache K V) (xs : Cells K V) (k : K) (a : ℕ)
      → IsLru c xs
      → lookup k c.cache ≡ some a
      → (ys : Cells K V) × (v : V) × (zs : Cells K V) × (xs ≡ ys ++ ((a, k, v) ∷ zs))
        × (lookup k (index ys) ≡ none)
  reaches c xs k a h l = split k xs a (sym (h.agrees k) ∙ l)

  -- A node taken from within the list, put in front or left out, or given another value.
  module _ (c : LruCache K V) (ys : Cells K V) (a : ℕ) (k : K) (v : V) (zs : Cells K V)
      (h : IsLru c (ys ++ ((a, k, v) ∷ zs))) where
    pub move_to_head-IsLru : IsLru (move_to_head a c) ((a, k, v) ∷ (ys ++ zs))
    move_to_head-IsLru =
        let b = move_to_head-IsBeside a c in
        record {
          is_chain = move_to_head-IsChain c ys a k v zs h.is_chain;
          agrees = λ j. rw (b.cache_kept) (h.agrees j ∙ lookup_in_front a k v zs ys h.is_index j);
          is_map = rw (b.cache_kept) (h.is_map);
          is_index = in_front-IsMap a k v zs ys h.is_index;
          sized = rw (b.cache_kept) (h.sized ∙ length_around a k v ys zs);
          old = λ d i. rw (b.next_address_kept) (h.old d (has_around a k v ys zs d ∙ i));
        }

    pub remove_item-IsLru : IsLru (record (remove_item a c) { cache = delete k c.cache }) (ys ++ zs)
    unfolding remove_item
    remove_item-IsLru =
        let (p, q) = split-IsMap a k v zs ys h.is_index in
        let here : lookup k c.cache ≡ some a = h.agrees k ∙ lookup-index a k v zs ys p in
        let (g, m) = remove_item-IsChain c ys a k v zs h.is_chain in
        record {
          is_chain = record {
            chain = g.chain;
            head_is = g.head_is;
            tail_is = g.tail_is;
            distinct = g.distinct;
          };
          agrees = λ j.
              lookup-delete k j c.cache
              ∙ (rw (h.agrees j) (sym (lookup_without a k v zs ys h.is_index j)));
          is_map = delete-IsMap k c.cache h.is_map;
          is_index = without-IsMap a k v zs ys h.is_index;
          sized =
              ground (
                arith,
                length-delete k a c.cache h.is_map here,
                length_around a k v ys zs,
                h.sized,
              );
          old = λ d i. h.old d (has_around a k v ys zs d ∙ rw i (ground arith));
        }

    -- The write of another value.
    pub write_value-IsLru :
        (w : V)
        → IsLru
            (record c { memory = modify a (λ n. record n { value = w }) c.memory })
            (ys ++ ((a, k, w) ∷ zs))
    write_value-IsLru w =
        let r = around ys a k v zs h.is_chain.distinct in
        let (front, (at_a, back)) =
          Seg-append c.memory none none ys ((a, k, v) ∷ zs) h.is_chain.chain in
        let m : Memory K V = modify a (λ n. record n { value = w }) c.memory in
        let front1 : Seg m none ys (some a) =
          Seg-frame c.memory m none (some a) ys front
            (λ b i. modify-other a b _ c.memory (ne_of_has a b ys r.before_out i)) in
        let back1 : Seg m (some a) zs none =
          Seg-frame c.memory m (some a) none zs back
            (λ b i. modify-other a b _ c.memory (ne_of_has a b zs r.after_out i)) in
        record {
          is_chain = record {
            chain =
                append-Seg m none none ys ((a, k, w) ∷ zs) front1
                  (modify-at a _ c.memory _ at_a, back1);
            head_is =
                h.is_chain.head_is
                ∙ first-append ys ((a, k, v) ∷ zs) none
                ∙ sym (first-append ys ((a, k, w) ∷ zs) none);
            tail_is =
                h.is_chain.tail_is
                ∙ last-append none ys ((a, k, v) ∷ zs)
                ∙ sym (last-append none ys ((a, k, w) ∷ zs));
            distinct = Distinct-revalued a k v w ys zs h.is_chain.distinct;
          };
          agrees = λ j. h.agrees j ∙ ap (lookup j) (index_revalued a k v w ys zs);
          is_map = h.is_map;
          is_index = rw (index_revalued a k v w ys zs) at (h.is_index);
          sized = h.sized ∙ length_around a k v ys zs ∙ sym (length_around a k w ys zs);
          old = λ d i. h.old d (has_revalued a k v w d ys zs ∙ i);
        }

  is_fresh : (c : LruCache K V) (xs : Cells K V) → IsLru c xs → has c.next_address xs ≡ false
  is_fresh c xs h = elim (Bool-cases (has c.next_address xs)) [
    | inl y ↦
        let l : c.next_address < c.next_address = h.old c.next_address y in absurd (omega arith)
    | inr n ↦ n
  ]

  is_newer :
      (c : LruCache K V) (xs : Cells K V) (d : ℕ) (k : K) (v : V)
      → IsLru c xs
      → has d ((c.next_address, k, v) ∷ xs) ≡ true
      → d < c.next_address + 1
  is_newer c xs d k v h i = elim (Bool-cases (d == c.next_address)) [
    | inl y ↦ let f : d ≡ c.next_address = (==_iff d c.next_address).0 y in omega arith
    | inr n ↦ let l : d < c.next_address = h.old d (rw n at i) in omega arith
  ]

  -- The writes of `Set` for a new key.
  abbrev pub with_item : K → V → LruCache K V → LruCache K V
  with_item k v c =
      let a = c.next_address in
      let item : LruItem K V = record { key = k; value = v; prev = none; next = none } in
      record c {
        cache = insert k a c.cache;
        memory = λ b. if a == b then some item else c.memory b;
        next_address = a + 1;
      }

  -- A new node in front, at an address that no node has.
  module _ (c : LruCache K V) (xs : Cells K V) (k : K) (v : V) where
    pub add_to_head-IsLru :
        IsLru c xs
        → lookup k c.cache ≡ none
        → IsLru (add_to_head c.next_address (with_item k v c)) ((c.next_address, k, v) ∷ xs)
    add_to_head-IsLru h new =
        let a = c.next_address in
        let b = add_to_head-IsBeside a (with_item k v c) in
        let out : has a xs ≡ false = is_fresh c xs h in
        let chain_ : Seg (with_item k v c).memory none xs none =
          Seg-frame c.memory (with_item k v c).memory none none xs h.is_chain.chain
            (λ d i. rw (ne_of_has a d xs out i) refl) in
        let g : IsChain (with_item k v c) xs = record {
          chain = chain_;
          head_is = h.is_chain.head_is;
          tail_is = h.is_chain.tail_is;
          distinct = h.is_chain.distinct;
        } in
        record {
          is_chain = add_to_head-IsChain (with_item k v c) xs a k v g out (rw (==_refl a) refl);
          agrees = λ j. rw (b.cache_kept, lookup-insert k j a c.cache, h.agrees j) refl;
          is_map = rw (b.cache_kept) (insert-IsMap k a c.cache h.is_map);
          is_index = (sym (h.agrees k) ∙ new, h.is_index);
          sized = rw (b.cache_kept, length-insert k a c.cache, new) (ap suc h.sized);
          old = λ d i. rw (b.next_address_kept) (is_newer c xs d k v h i);
        }

  without_end : (ys : Cells K V) → ys ++ [] ≡ ys
  without_end [] = refl
  without_end (y ∷ ys) = ap (◌∷◌ y) (without_end ys)

  remove_tail-remove_item :
      (c : LruCache K V) (t : ℕ) (n : LruItem K V)
      → c.tail ≡ some t
      → c.memory t ≡ some n
      → remove_tail c ≡ record (remove_item t c) { cache = delete n.key c.cache }
  unfolding remove_tail remove_item
  remove_tail-remove_item c t n f g = rw (f, g) refl

  remove_tail_end :
      (c : LruCache K V) (ys : Cells K V) (a : ℕ) (k : K) (v : V)
      → IsLru c (ys ++ ((a, k, v) ∷ []))
      → IsLru (remove_tail c) (ys ++ []) × ((remove_tail c).capacity ≡ c.capacity)
  unfolding remove_item
  remove_tail_end c ys a k v h =
      let (front, (at_a, back)) =
        Seg-append c.memory none none ys ((a, k, v) ∷ []) h.is_chain.chain in
      let t : c.tail ≡ some a = h.is_chain.tail_is ∙ last-append none ys ((a, k, v) ∷ []) in
      rw (remove_tail-remove_item c a _ t at_a) (remove_item-IsLru c ys a k v [] h, refl)

  -- The last node left out.
  pub remove_tail-IsLru :
      (c : LruCache K V) (a : ℕ) (k : K) (v : V) (xs : Cells K V)
      → IsLru c ((a, k, v) ∷ xs)
      → (ys : Cells K V) × IsLru (remove_tail c) ys
        × (entries ys ≡ take (length xs) (entries ((a, k, v) ∷ xs)))
        × (length ys ≡ length xs)
        × ((remove_tail c).capacity ≡ c.capacity)
  remove_tail-IsLru c a k v xs h =
      let (ys, b, j, w, f) = split_last (a, k, v) xs in
      let sizes : suc (length xs) ≡ length ys + 1 =
        ap length f ∙ length-append ys ((b, j, w) ∷ []) in
      let g : IsLru c (ys ++ ((b, j, w) ∷ [])) = rw f at h in
      let seen : take (length xs) (entries ((a, k, v) ∷ xs)) ≡ entries ys =
        ap (λ l. take (length xs) (entries l)) f
        ∙ take-entries (length xs) ys (b, j, w) (omega arith) in
      let (m, kept) = remove_tail_end c ys b j w g in
      (ys, rw (without_end ys) at m, sym seen, omega arith, kept)
