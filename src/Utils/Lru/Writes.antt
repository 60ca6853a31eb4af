-- ===== src/Utils/Lru/Writes.antt =====
-- datastruct.go: LRUCache.Set and LRUCache.Delete against the list of entries.
use data_middleware.Prelude.{
  ℕ, suc, ◌≤◌, ◌≡◌, refl, sym, ◌∙◌, ap, true, false, List, ◌∷◌, ◌++◌, none, some, ltb,
  if◌then◌else◌, arith, Bool-cases, Option-cases, inl, inr, Eq, length, take, take_all,
}
use data_middleware.Prelude.Assoc.{lookup, delete, delete_absent}
use data_middleware.Utils.Lru.{
  LruCache, add_to_head, remove_item, move_to_head, remove_tail, modify, set, remove,
}
use data_middleware.Utils.Lru.Memory.{Cells}
use data_middleware.Utils.Lru.Moves.{add_to_head-IsBeside, move_to_head-IsBeside}
use data_middleware.Utils.Lru.Index.{entries, length-entries, lookup_absent, length_around}
use data_middleware.Utils.Lru.Invariant.{
  IsLru, reaches, move_to_head-IsLru, remove_item-IsLru, write_value-IsLru, with_item,
  add_to_head-IsLru, remove_tail-IsLru,
}
use data_middleware.Utils.Lru.Calls.{list_set}
use data_middleware.Utils.Lru.Reads.{Stands, InStep, here_entry, without_entry}

is_full : {a b m n : ℕ} → ltb a b ≡ true → a ≡ m → b ≡ suc n → n ≤ m → n ≡ m
is_full t p q l = ground arith

has_room : {a b m n : ℕ} → ltb a b ≡ false → a ≡ m → b ≡ suc n → suc n ≤ m
has_room t p q = ground arith

module _ {K V : Type 0} ⦃e : Eq K⦄ where
  set_present :
      (k : K) (v : V) (a : ℕ) (c : LruCache K V)
      → lookup k c.cache ≡ some a
      → set k v c
        ≡ move_to_head a (record c { memory = modify a (λ n. record n { value = v }) c.memory })
  unfolding set
  set_present k v a c h = rw (h, set) refl

  set_absent :
      (k : K) (v : V) (c : LruCache K V)
      → lookup k c.cache ≡ none
      → set k v c ≡ (
          let d = add_to_head c.next_address (with_item k v c) in
          if ltb d.capacity (length d.cache) then remove_tail d else d)
  unfolding set
  set_absent k v c h = rw (h, set) refl

  list_set_present :
      (capacity : ℕ) (k : K) (v w : V) (xs : List (K × V))
      → lookup k xs ≡ some w
      → list_set capacity k v xs ≡ (k, v) ∷ delete k xs
  unfolding list_set
  list_set_present capacity k v w xs h = rw (h, list_set) refl

  list_set_absent :
      (capacity : ℕ) (k : K) (v : V) (xs : List (K × V))
      → lookup k xs ≡ none
      → list_set capacity k v xs ≡ take capacity ((k, v) ∷ xs)
  unfolding list_set
  list_set_absent capacity k v xs h = rw (h, list_set) refl

  set_here :
      (capacity a : ℕ) (k : K) (v w : V) (ys zs : Cells K V) (c : LruCache K V)
      → IsLru c (ys ++ ((a, k, w) ∷ zs))
      → c.capacity ≡ capacity
      → length (ys ++ ((a, k, w) ∷ zs)) ≤ capacity
      → lookup k c.cache ≡ some a
      → Stands capacity
          (set k v c)
          ((a, k, v) ∷ (ys ++ zs))
          (list_set capacity k v (entries (ys ++ ((a, k, w) ∷ zs))))
  set_here capacity a k v w ys zs c h f b here =
      let l = entries (ys ++ ((a, k, w) ∷ zs)) in
      let left : delete k l ≡ entries (ys ++ zs) = without_entry a k w ys zs h.is_index in
      let c1 = record c { memory = modify a (λ n. record n { value = v }) c.memory } in
      let kept = move_to_head-IsBeside a c1 in
      let st : Stands capacity (move_to_head a c1) ((a, k, v) ∷ (ys ++ zs)) ((k, v) ∷ delete k l) =
        record {
          is_lru = move_to_head-IsLru c1 ys a k v zs (write_value-IsLru c ys a k w zs h v);
          is_entries = rw left refl;
          has_capacity = kept.capacity_kept ∙ f;
          bounded = ground (arith, length_around a k w ys zs);
        } in
      rw
        (
          set_present k v a c here,
          list_set_present capacity k v w l (here_entry a k w ys zs h.is_index),
        )
        st

  set_new :
      (capacity : ℕ) (k : K) (v : V) (c : LruCache K V) (xs : Cells K V)
      → IsLru c xs
      → c.capacity ≡ capacity
      → length xs ≤ capacity
      → lookup k c.cache ≡ none
      → (ys : Cells K V) × Stands capacity (set k v c) ys (take capacity ((k, v) ∷ entries xs))
  set_new capacity k v c xs h f b gone =
      let a = c.next_address in
      let d = add_to_head a (with_item k v c) in
      let g : IsLru d ((a, k, v) ∷ xs) = add_to_head-IsLru c xs k v h gone in
      let kept : d.capacity ≡ capacity =
        (add_to_head-IsBeside a (with_item k v c)).capacity_kept ∙ f in
      elim (Bool-cases (ltb d.capacity (length d.cache))) [
        | inl over ↦
            let (ys, m, seen, n, kept_) = remove_tail-IsLru d a k v xs g in
            let full : length xs ≡ capacity = is_full over kept g.sized b in
            (
              ys,
              rw (set_absent k v c gone, over)
                  (record {
                    is_lru = m;
                    is_entries = rw (sym full) seen;
                    has_capacity = kept_ ∙ kept;
                    bounded = omega arith;
                  }),
            )
        | inr fits ↦
            let room : suc (length xs) ≤ capacity = has_room fits kept g.sized in
            (
              (a, k, v) ∷ xs,
              rw (set_absent k v c gone, fits)
                  (record {
                    is_lru = g;
                    is_entries =
                        sym (take_all capacity ((k, v) ∷ entries xs) (rw (length-entries xs) room));
                    has_capacity = kept;
                    bounded = room;
                  }),
            )
      ]

  pub set-InStep :
      (capacity : ℕ) (k : K) (v : V) (c : LruCache K V) (xs : Cells K V) (l : List (K × V))
      → Stands capacity c xs l
      → InStep capacity (set k v c) (list_set capacity k v l)
  unfolding InStep
  set-InStep capacity k v c xs l h = elim (Option-cases (lookup k c.cache)) [
    | inl gone ↦
        let out : lookup k l ≡ none =
          rw (h.is_entries) at (lookup_absent k xs (sym (h.is_lru.agrees k) ∙ gone)) in
        let st = set_new capacity k v c xs h.is_lru h.has_capacity h.bounded gone in
        rw (list_set_absent capacity k v l out) (rw (h.is_entries) at st)
    | inr (a, here) ↦
        let (ys, w, zs, f, p) = reaches c xs k a h.is_lru here in
        let g : IsLru c (ys ++ ((a, k, w) ∷ zs)) = rw f at (h.is_lru) in
        let b : length (ys ++ ((a, k, w) ∷ zs)) ≤ capacity = rw f at (h.bounded) in
        let l_is : entries (ys ++ ((a, k, w) ∷ zs)) ≡ l = rw f at (h.is_entries) in
        (
          (a, k, v) ∷ (ys ++ zs),
          rw l_is at (set_here capacity a k v w ys zs c g h.has_capacity b here),
        )
  ]

  remove_absent : (k : K) (c : LruCache K V) → lookup k c.cache ≡ none → remove k c ≡ c
  unfolding remove
  remove_absent k c h = rw (h, remove) refl

  remove_present :
      (k : K) (a : ℕ) (c : LruCache K V)
      → lookup k c.cache ≡ some a
      → remove k c ≡ record (remove_item a c) { cache = delete k c.cache }
  unfolding remove remove_item
  remove_present k a c h = rw (h, remove) refl

  pub remove-InStep :
      (capacity : ℕ) (k : K) (c : LruCache K V) (xs : Cells K V) (l : List (K × V))
      → Stands capacity c xs l
      → InStep capacity (remove k c) (delete k l)
  unfolding InStep remove_item
  remove-InStep capacity k c xs l h = elim (Option-cases (lookup k c.cache)) [
    | inl gone ↦
        let out : lookup k l ≡ none =
          rw (h.is_entries) at (lookup_absent k xs (sym (h.is_lru.agrees k) ∙ gone)) in
        rw (remove_absent k c gone, delete_absent k l out) (xs, h)
    | inr (a, here) ↦
        let (ys, v, zs, f, p) = reaches c xs k a h.is_lru here in
        let g : IsLru c (ys ++ ((a, k, v) ∷ zs)) = rw f at (h.is_lru) in
        let b : length (ys ++ ((a, k, v) ∷ zs)) ≤ capacity = rw f at (h.bounded) in
        let l_is : entries (ys ++ ((a, k, v) ∷ zs)) ≡ l = rw f at (h.is_entries) in
        let left = without_entry a k v ys zs g.is_index in
        (
          ys ++ zs,
          rw (remove_present k a c here) (record {
            is_lru = remove_item-IsLru c ys a k v zs g;
            is_entries = sym left ∙ ap (delete k) l_is;
            has_capacity = h.has_capacity;
            bounded = ground (arith, length_around a k v ys zs);
          }),
        )
  ]
