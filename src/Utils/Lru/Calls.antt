-- ===== src/Utils/Lru/Calls.antt =====
-- datastruct.go: runs of the calls of an LRUCache, and of a list of entries, the most recently used first.
use data_middleware.Prelude.{ℕ, List, [], ◌∷◌, Option, none, some, Eq, length, take}
use data_middleware.Prelude.Assoc.{lookup, delete}
use data_middleware.Utils.Lru.{LruCache, set, get, remove, len, clear}

-- The calls of a cache, and what they answer.
pub data LruCall (K V : Type 0) : Type 0 where
  call_set : K → V → LruCall K V
  call_get : K → LruCall K V
  call_delete : K → LruCall K V
  call_len : LruCall K V
  call_clear : LruCall K V

pub data LruAnswer (V : Type 0) : Type 0 where
  done : LruAnswer V
  found : Option V → LruAnswer V
  counted : ℕ → LruAnswer V

module _ {K V : Type 0} ⦃e : Eq K⦄ where
  unfoldable pub call : LruCall K V → LruCache K V → LruCache K V × LruAnswer V
  call (call_set k v) c = (set k v c, done)
  call (call_get k) c = let (d, v) = get k c in (d, found v)
  call (call_delete k) c = (remove k c, done)
  call call_len c = (c, counted (len c))
  call call_clear c = (clear c, done)

  unfoldable pub run : List (LruCall K V) → LruCache K V → List (LruAnswer V)
  run [] c = []
  run (i ∷ is) c = let (d, r) = call i c in r ∷ run is d

  -- The same of a list, of at most `capacity` entries.
  unfoldable pub list_set : ℕ → K → V → List (K × V) → List (K × V)
  list_set capacity k v xs = elim (lookup k xs) [
    | none ↦ take capacity ((k, v) ∷ xs)
    | some w ↦ (k, v) ∷ delete k xs
  ]

  unfoldable pub list_get : K → List (K × V) → List (K × V)
  list_get k xs = elim (lookup k xs) [ none ↦ xs | some v ↦ (k, v) ∷ delete k xs ]

  unfoldable pub call_list : ℕ → LruCall K V → List (K × V) → List (K × V) × LruAnswer V
  call_list capacity (call_set k v) xs = (list_set capacity k v xs, done)
  call_list capacity (call_get k) xs = (list_get k xs, found (lookup k xs))
  call_list capacity (call_delete k) xs = (delete k xs, done)
  call_list capacity call_len xs = (xs, counted (length xs))
  call_list capacity call_clear xs = ([], done)

  unfoldable pub run_list : ℕ → List (LruCall K V) → List (K × V) → List (LruAnswer V)
  run_list capacity [] xs = []
  run_list capacity (i ∷ is) xs =
      let (ys, r) = call_list capacity i xs in r ∷ run_list capacity is ys
