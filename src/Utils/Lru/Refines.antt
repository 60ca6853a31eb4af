-- ===== src/Utils/Lru/Refines.antt =====
-- datastruct.go: the calls of an LRUCache against the list of its entries.
use data_middleware.Prelude.{
  ℕ, ◌≡◌, refl, sym, ◌∙◌, ap, List, [], ◌∷◌, none, ltb, if◌then◌else◌, arith, Eq, length,
}
use data_middleware.Utils.Lru.{LruCache, new_lru_cache, clear}
use data_middleware.Utils.Lru.Memory.{Cells}
use data_middleware.Utils.Lru.Index.{length-entries}
use data_middleware.Utils.Lru.Calls.{
  LruCall, call_set, call_get, call_delete, call_len, call_clear, found, counted, call, run,
  call_list, run_list,
}
use data_middleware.Utils.Lru.Reads.{Stands, InStep, get-InStep}
use data_middleware.Utils.Lru.Writes.{set-InStep, remove-InStep}

module _ {K V : Type 0} ⦃e : Eq K⦄ where
  -- No nodes, no entries, whatever is left in the memory.
  empty-InStep :
      (capacity : ℕ) (c : LruCache K V)
      → c.cache ≡ []
      → c.head ≡ none
      → c.tail ≡ none
      → c.capacity ≡ capacity
      → InStep capacity c []
  unfolding InStep
  empty-InStep capacity c m h t n = (
    [],
    record {
      is_lru = record {
        is_chain = record { chain = tt; head_is = h; tail_is = t; distinct = tt };
        agrees = λ k. rw m refl;
        is_map = rw m tt;
        is_index = tt;
        sized = rw m refl;
        old = λ a i. cc;
      };
      is_entries = refl;
      has_capacity = n;
      bounded = omega arith;
    },
  )

  clear-InStep :
      (capacity : ℕ) (c : LruCache K V) → c.capacity ≡ capacity → InStep capacity (clear c) []
  unfolding clear
  clear-InStep capacity c n = empty-InStep capacity (clear c) refl refl refl n

  call-InStep :
      (i : LruCall K V) (capacity : ℕ) (c : LruCache K V) (xs : Cells K V) (l : List (K × V))
      → Stands capacity c xs l
      → InStep capacity (call i c).0 (call_list capacity i l).0
        × ((call i c).1 ≡ (call_list capacity i l).1)
  unfolding call call_list InStep
  call-InStep (call_set k v) capacity c xs l h = (set-InStep capacity k v c xs l h, refl)
  call-InStep (call_get k) capacity c xs l h =
      let (st, same_) = get-InStep capacity k c xs l h in (st, ap found same_)
  call-InStep (call_delete k) capacity c xs l h = (remove-InStep capacity k c xs l h, refl)
  call-InStep call_len capacity c xs l h =
      ((xs, h), ap counted (h.is_lru.sized ∙ sym (length-entries xs) ∙ ap length h.is_entries))
  call-InStep call_clear capacity c xs l h = (clear-InStep capacity c h.has_capacity, refl)

  run-InStep :
      (is : List (LruCall K V)) (capacity : ℕ) (c : LruCache K V) (l : List (K × V))
      → InStep capacity c l
      → run is c ≡ run_list capacity is l
  unfolding run run_list InStep
  run-InStep [] capacity c l s = refl
  run-InStep (i ∷ is) capacity c l (xs, h) =
      let (st, same_) = call-InStep i capacity c xs l h in
      let rest = run-InStep is capacity (call i c).0 (call_list capacity i l).0 st in
      rw (same_, rest) refl

  -- Whatever calls of Set, Get, Delete, Len and Clear are made of a new cache, each answers as it
  -- does of a list of at most `capacity` entries (10 where the capacity given is 0): Set and Get
  -- put the entry of a key they find in front, Set of another key puts it in front and drops the
  -- last entry of a list that was full, Get gives the value last set, and Len the length.
  pub run-run_list :
      (capacity : ℕ) (calls : List (LruCall K V))
      → run calls (new_lru_cache capacity)
        ≡ run_list (if ltb 0 capacity then capacity else 10) calls []
  unfolding new_lru_cache
  run-run_list capacity calls =
      run-InStep calls (if ltb 0 capacity then capacity else 10) (new_lru_cache capacity) [] (
        empty-InStep (if ltb 0 capacity then capacity else 10) (new_lru_cache capacity) refl refl
          refl refl)
