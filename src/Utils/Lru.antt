-- ===== src/Utils/Lru.antt =====
-- internal/common/datastruct.go: LRUCache, a map to the nodes of a doubly linked list. A pointer
-- is an address or nil, and the memory gives the node at an address. Go's memory is safe, so an
-- address that is not nil has a node: what is said of one without is not reached. Each method
-- holds the lock and is one step. `int` does not overflow, and a capacity below 0 acts as 0.
pub mod Memory
pub mod Links
pub mod Moves
pub mod Index
pub mod Invariant
pub mod Calls
pub mod Reads
pub mod Writes
pub mod Refines
use data_middleware.Prelude.{
  ℕ, ◌+◌, Bool, true, false, List, [], Option, none, some, ltb, ◌==◌, if◌then◌else◌, length, Eq,
}
use data_middleware.Prelude.Assoc.{lookup, insert, delete}

abbrev pub Pointer : Type 0
Pointer = Option ℕ

-- `p == q`
abbrev pub same : Pointer → Pointer → Bool
same none none = true
same none (some b) = false
same (some a) none = false
same (some a) (some b) = a == b

pub record LruItem (K V : Type 0) : Type 0 where
  pub key : K
  pub value : V
  pub prev : Pointer
  pub next : Pointer

abbrev pub Memory : (K V : Type 0) → Type 0
Memory K V = ℕ → Option (LruItem K V)

pub record LruCache (K V : Type 0) : Type 0 where
  pub capacity : ℕ
  pub cache : List (K × ℕ)
  pub head : Pointer
  pub tail : Pointer
  pub memory : Memory K V
  pub next_address : ℕ

module _ {K V : Type 0} where
  -- A write to the node at `a`.
  unfoldable pub modify : ℕ → (LruItem K V → LruItem K V) → Memory K V → Memory K V
  modify a f m b = if a == b then elim (m b) [ none ↦ none | some n ↦ some (f n) ] else m b

  -- `if p != nil { p.next = q }` and `if p != nil { p.prev = q }`
  unfoldable pub set_next : Pointer → Pointer → Memory K V → Memory K V
  set_next none q m = m
  set_next (some a) q m = modify a (λ n. record n { next = q }) m

  unfoldable pub set_prev : Pointer → Pointer → Memory K V → Memory K V
  set_prev none q m = m
  set_prev (some a) q m = modify a (λ n. record n { prev = q }) m

  abbrev pub next_of : Memory K V → ℕ → Pointer
  next_of m a = elim (m a) [ none ↦ none | some n ↦ n.next ]

  abbrev pub prev_of : Memory K V → ℕ → Pointer
  prev_of m a = elim (m a) [ none ↦ none | some n ↦ n.prev ]

  unfoldable pub new_lru_cache : ℕ → LruCache K V
  new_lru_cache capacity = record {
    capacity = if ltb 0 capacity then capacity else 10;
    cache = [];
    head = none;
    tail = none;
    memory = λ a. none;
    next_address = 0;
  }

  unfoldable pub add_to_head : ℕ → LruCache K V → LruCache K V
  add_to_head a c = elim (c.head) [
    | none ↦ record c { head = some a; tail = some a }
    | some h ↦ record c {
      memory = set_prev (some h) (some a) (set_next (some a) (some h) c.memory);
      head = some a;
    }
  ]

  -- The writes of `removeItem` to the neighbours, and then to the item.
  unfoldable pub unlink : ℕ → Memory K V → Memory K V
  unlink a m =
      let m1 = set_next (prev_of m a) (next_of m a) m in set_prev (next_of m1 a) (prev_of m1 a) m1

  unfoldable pub remove_item : ℕ → LruCache K V → LruCache K V
  remove_item a c =
      let m = unlink a c.memory in
      record c {
        memory = set_next (some a) none (set_prev (some a) none m);
        head = if same (some a) c.head then next_of m a else c.head;
        tail = if same (some a) c.tail then prev_of m a else c.tail;
      }

  unfoldable pub move_to_head : ℕ → LruCache K V → LruCache K V
  move_to_head a c = if same (some a) c.head then c else add_to_head a (remove_item a c)

module _ {K V : Type 0} ⦃e : Eq K⦄ where
  -- `delete(c.cache, c.tail.key)` and the removal.
  unfoldable pub remove_tail : LruCache K V → LruCache K V
  remove_tail c = elim (c.tail) [
    | none ↦ c
    | some t ↦ elim (c.memory t) [
      | none ↦ c
      | some n ↦ remove_item t (record c { cache = delete n.key c.cache })
    ]
  ]

  unfoldable pub set : K → V → LruCache K V → LruCache K V
  set key value c = elim (lookup key c.cache) [
    | some a ↦
        move_to_head a (record c { memory = modify a (λ n. record n { value = value }) c.memory })
    | none ↦
        let a = c.next_address in
        let item : LruItem K V = record { key = key; value = value; prev = none; next = none } in
        let d = add_to_head a (record c {
          cache = insert key a c.cache;
          memory = λ b. if a == b then some item else c.memory b;
          next_address = a + 1;
        }) in
        if ltb d.capacity (length d.cache) then remove_tail d else d
  ]

  unfoldable pub get : K → LruCache K V → LruCache K V × Option V
  get key c = elim (lookup key c.cache) [
    | none ↦ (c, none)
    | some a ↦
        let d = move_to_head a c in (d, elim (d.memory a) [ none ↦ none | some n ↦ some n.value ])
  ]

  unfoldable pub remove : K → LruCache K V → LruCache K V
  remove key c = elim (lookup key c.cache) [
    | none ↦ c
    | some a ↦ let d = remove_item a c in record d { cache = delete key d.cache }
  ]

  abbrev pub len : LruCache K V → ℕ
  len c = length c.cache

  unfoldable pub clear : LruCache K V → LruCache K V
  clear c = record c { cache = []; head = none; tail = none }
