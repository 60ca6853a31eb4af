-- ===== src/Utils/Lru/Reads.antt =====
-- datastruct.go: LRUCache.Get against the list of entries.
use data_middleware.Prelude.{
  ℕ, ◌≤◌, ◌≡◌, refl, sym, ◌∙◌, List, ◌∷◌, ◌++◌, none, some, arith, Option-cases, inl, inr, Eq,
  length,
}
use data_middleware.Prelude.Assoc.{lookup, delete, IsMap}
use data_middleware.Utils.Lru.{Pointer, LruCache, move_to_head, get}
use data_middleware.Utils.Lru.Memory.{Cells, node}
use data_middleware.Utils.Lru.Moves.{move_to_head-IsBeside}
use data_middleware.Utils.Lru.Index.{
  entries, index, lookup_absent, split-IsMap, delete-entries, lookup-entries, length_around,
}
use data_middleware.Utils.Lru.Invariant.{IsLru, reaches, move_to_head-IsLru}
use data_middleware.Utils.Lru.Calls.{list_get}

module _ {K V : Type 0} ⦃e : Eq K⦄ where
  -- A cache that stands for a list.
  pub record Stands (capacity : ℕ) (c : LruCache K V) (xs : Cells K V) (l : List (K × V))
      : Type 0 where
    pub is_lru : IsLru c xs
    pub is_entries : entries xs ≡ l
    pub has_capacity : c.capacity ≡ capacity
    pub bounded : length xs ≤ capacity

  get_absent : (k : K) (c : LruCache K V) → lookup k c.cache ≡ none → get k c ≡ (c, none)
  unfolding get
  get_absent k c h = rw (h, get) refl

  get_present :
      (k : K) (a : ℕ) (v : V) (p q : Pointer) (c : LruCache K V)
      → lookup k c.cache ≡ some a
      → (move_to_head a c).memory a ≡ some (node k v p q)
      → get k c ≡ (move_to_head a c, some v)
  unfolding get
  get_present k a v p q c h m = rw (h, get) (rw m refl)

  list_get_absent : (k : K) (xs : List (K × V)) → lookup k xs ≡ none → list_get k xs ≡ xs
  unfolding list_get
  list_get_absent k xs h = rw (h, list_get) refl

  list_get_present :
      (k : K) (v : V) (xs : List (K × V))
      → lookup k xs ≡ some v
      → list_get k xs ≡ (k, v) ∷ delete k xs
  unfolding list_get
  list_get_present k v xs h = rw (h, list_get) refl

  -- A list that has a key, taken apart there.
  module _ (a : ℕ) (k : K) (v : V) (ys zs : Cells K V)
      (h : IsMap (index (ys ++ ((a, k, v) ∷ zs)))) where
    pub here_entry : lookup k (entries (ys ++ ((a, k, v) ∷ zs))) ≡ some v
    here_entry = lookup-entries a k v zs ys (split-IsMap a k v zs ys h).0

    pub without_entry : delete k (entries (ys ++ ((a, k, v) ∷ zs))) ≡ entries (ys ++ zs)
    without_entry = let (p, q) = split-IsMap a k v zs ys h in delete-entries a k v zs ys p q

  -- A cache is in step with a list if some nodes stand for it.
  unfoldable pub InStep : ℕ → LruCache K V → List (K × V) → Type 0
  InStep capacity c l = (xs : Cells K V) × Stands capacity c xs l

  get_here :
      (capacity a : ℕ) (k : K) (v : V) (ys zs : Cells K V) (c : LruCache K V)
      → IsLru c (ys ++ ((a, k, v) ∷ zs))
      → c.capacity ≡ capacity
      → length (ys ++ ((a, k, v) ∷ zs)) ≤ capacity
      → lookup k c.cache ≡ some a
      → Stands capacity
          (get k c).0
          ((a, k, v) ∷ (ys ++ zs))
          (list_get k (entries (ys ++ ((a, k, v) ∷ zs))))
        × ((get k c).1 ≡ lookup k (entries (ys ++ ((a, k, v) ∷ zs))))
  get_here capacity a k v ys zs c h f b here =
      let l = entries (ys ++ ((a, k, v) ∷ zs)) in
      let seen : lookup k l ≡ some v = here_entry a k v ys zs h.is_index in
      let left : delete k l ≡ entries (ys ++ zs) = without_entry a k v ys zs h.is_index in
      let g = move_to_head-IsLru c ys a k v zs h in
      let (at_a, _) = g.is_chain.chain in
      let kept = move_to_head-IsBeside a c in
      let st : Stands capacity (move_to_head a c) ((a, k, v) ∷ (ys ++ zs)) ((k, v) ∷ delete k l) =
        record {
          is_lru = g;
          is_entries = rw left refl;
          has_capacity = kept.capacity_kept ∙ f;
          bounded = ground (arith, length_around a k v ys zs);
        } in
      rw (get_present k a v _ _ c here at_a, list_get_present k v l seen, seen) (st, refl)

  pub get-InStep :
      (capacity : ℕ) (k : K) (c : LruCache K V) (xs : Cells K V) (l : List (K × V))
      → Stands capacity c xs l
      → InStep capacity (get k c).0 (list_get k l) × ((get k c).1 ≡ lookup k l)
  unfolding InStep
  get-InStep capacity k c xs l h = elim (Option-cases (lookup k c.cache)) [
    | inl gone ↦
        let out : lookup k l ≡ none =
          rw (h.is_entries) at (lookup_absent k xs (sym (h.is_lru.agrees k) ∙ gone)) in
        rw (get_absent k c gone, list_get_absent k l out, out) ((xs, h), refl)
    | inr (a, here) ↦
        let (ys, v, zs, f, p) = reaches c xs k a h.is_lru here in
        let g : IsLru c (ys ++ ((a, k, v) ∷ zs)) = rw f at (h.is_lru) in
        let b : length (ys ++ ((a, k, v) ∷ zs)) ≤ capacity = rw f at (h.bounded) in
        let l_is : entries (ys ++ ((a, k, v) ∷ zs)) ≡ l = rw f at (h.is_entries) in
        let (st, same_) = get_here capacity a k v ys zs c g h.has_capacity b here in
        ((((a, k, v) ∷ (ys ++ zs)), rw l_is at st), rw l_is at same_)
  ]
