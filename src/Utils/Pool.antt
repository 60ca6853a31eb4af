-- ===== src/Utils/Pool.antt =====
-- internal/common/pool.go: ObjectPool over a factory. The factory is an interface: its methods are
-- parameters that read and change a state of their own, `S`. A method that waits for the pool's
-- lock for ever answers with `blocked`; sync.RWMutex is not reentrant. Times are numbers of
-- nanoseconds, and what is logged is left out. `any(a) == any(b)` is the equality of the type of
-- objects; the panic on a type without one is not modelled.
pub mod Items
pub mod Outcome
pub mod Counts
pub mod Accounts
use data_middleware.Prelude.{
  ℕ, zero, suc, ◌+◌, ◌-◌, Bool, true, false, not, ◌&&◌, ◌||◌, List, [], ◌∷◌, ◌++◌, Option, none,
  some, ltb, ◌==◌, if◌then◌else◌, Eq, length,
}

pub record PoolConfig : Type 0 where
  pub max_size : ℕ
  pub init_size : ℕ
  pub max_idle_time : ℕ

-- `none` is an error.
pub record ObjectFactory (T S : Type 0) : Type 0 where
  pub create : S → S × Option T
  pub destroy : T → S → S × Bool
  pub reset : T → S → S × Bool

pub record PoolItem (T : Type 0) : Type 0 where
  pub object : T
  pub created_at : ℕ
  pub last_used : ℕ
  pub in_use : Bool

pub record ObjectPool (T : Type 0) : Type 0 where
  pub config : PoolConfig
  pub items : List (PoolItem T)
  pub created : ℕ
  pub used : ℕ
  pub stopped : Bool
  pub locked : Bool

-- What `Get` comes to.
pub data Got (T : Type 0) : Type 0 where
  gave : T → Got T
  create_failed : Got T
  pool_exhausted : Got T
  get_blocked : Got T

-- What a method with an error comes to: the error is there or not, or the method never returns.
pub data Returned : Type 0 where
  returned : Bool → Returned
  blocked : Returned

pub record PoolStats : Type 0 where
  pub stats_created : ℕ
  pub stats_in_use : ℕ
  pub stats_available : ℕ
  pub stats_max_size : ℕ

-- `err == nil`, of a call that has returned.
unfoldable pub goes_on : Returned → Bool
goes_on (returned failed) = not failed
goes_on blocked = false

module _ {T : Type 0} where
  -- The loop of `Get`: the first object that is not in use, and the items after the writes to it.
  unfoldable pub take_idle : ℕ → List (PoolItem T) → Option (T × List (PoolItem T))
  take_idle now [] = none
  take_idle now (i ∷ is) =
      let rest = take_idle now is in
      if i.in_use
      then elim rest [ none ↦ none | some (t, js) ↦ some (t, i ∷ js) ]
      else some (i.object, record i { in_use = true; last_used = now } ∷ is)

  -- The last of the items, put in use.
  unfoldable pub take_last : ℕ → List (PoolItem T) → Option (T × List (PoolItem T))
  take_last now [] = none
  take_last now (i ∷ []) = some (i.object, record i { in_use = true; last_used = now } ∷ [])
  take_last now (i ∷ j ∷ is) = elim (take_last now (j ∷ is)) [
    | none ↦ none
    | some (t, js) ↦ some (t, i ∷ js)
  ]

  -- `cleanup` leaves what is in use.
  unfoldable pub is_expired : ℕ → ℕ → PoolItem T → Bool
  is_expired max_idle_time now i = not i.in_use && ltb (i.last_used + max_idle_time) now

  unfoldable pub has_room : ObjectPool T → Bool
  has_room p = p.config.max_size == 0 || ltb p.created p.config.max_size

  unfoldable pub stats : ObjectPool T → PoolStats
  stats p = record {
    stats_created = p.created;
    stats_in_use = p.used;
    stats_available = length p.items - p.used;
    stats_max_size = p.config.max_size;
  }

module _ {T S : Type 0} where
  -- `createItem` after `Create`: the lock is waited for here.
  unfoldable pub append_item : ℕ → ObjectPool T → S → Option T → ObjectPool T × S × Returned
  append_item now p s none = (p, s, returned true)
  append_item now p s (some t) =
      let item : PoolItem T = record {
        object = t;
        created_at = now;
        last_used = now;
        in_use = false;
      } in
      if p.locked
      then (p, s, blocked)
      else (record p { items = p.items ++ (item ∷ []); created = p.created + 1 }, s, returned false)

  -- `Get` after its call of `createItem`.
  unfoldable pub after_create : ℕ → ObjectPool T → S → Returned → ObjectPool T × S × Got T
  after_create now q s blocked = (q, s, get_blocked)
  after_create now q s (returned true) = (record q { locked = false }, s, create_failed)
  after_create now q s (returned false) = elim (take_last now q.items) [
    | none ↦ (q, s, get_blocked)
    | some (t, is) ↦ (record q { items = is; used = q.used + 1; locked = false }, s, gave t)
  ]

module _ {T S : Type 0} (f : ObjectFactory T S) where
  unfoldable pub create_item : ℕ → ObjectPool T → S → ObjectPool T × S × Returned
  create_item now p s = let (s1, o) = f.create s in append_item now p s1 o

  -- The loop of `initPool`, of `n` rounds, which an error ends.
  unfoldable pub init_pool : ℕ → ℕ → ObjectPool T → S → ObjectPool T × S
  init_pool zero now p s = (p, s)
  init_pool (suc n) now p s =
      let (p1, s1, r) = create_item now p s in
      let rest = init_pool n now p1 s1 in if goes_on r then rest else (p1, s1)

  unfoldable pub new_object_pool : PoolConfig → ℕ → S → ObjectPool T × S
  new_object_pool config now s =
      let p : ObjectPool T = record {
        config = config;
        items = [];
        created = 0;
        used = 0;
        stopped = false;
        locked = false;
      } in
      init_pool config.init_size now p s

  -- `Get` without an idle object calls `createItem` with the lock held.
  unfoldable pub get_new : ℕ → ObjectPool T → S → Bool → ObjectPool T × S × Got T
  get_new now p s true =
      let (q, s1, r) = create_item now (record p { locked = true }) s in after_create now q s1 r
  get_new now p s false = (p, s, pool_exhausted)

  -- `Get` after its loop.
  unfoldable pub get_idle :
      ℕ → ObjectPool T → S → Option (T × List (PoolItem T)) → ObjectPool T × S × Got T
  get_idle now p s (some (t, is)) = (record p { items = is; used = p.used + 1 }, s, gave t)
  get_idle now p s none = get_new now p s (has_room p)

  unfoldable pub get : ℕ → ObjectPool T → S → ObjectPool T × S × Got T
  get now p s = if p.locked then (p, s, get_blocked) else get_idle now p s (take_idle now p.items)

  -- The loop of `cleanup`: the items that stay, the number of those destroyed, and the factory.
  unfoldable pub clean : ℕ → ℕ → List (PoolItem T) → S → List (PoolItem T) × ℕ × S
  clean max_idle_time now [] s = ([], 0, s)
  clean max_idle_time now (i ∷ is) s =
      let gone = is_expired max_idle_time now i in
      let rest = clean max_idle_time now is (if gone then (f.destroy i.object s).0 else s) in
      if gone then (rest.0, rest.1 + 1, rest.2) else (i ∷ rest.0, rest.1, rest.2)

  -- It answers whether the method returns.
  unfoldable pub cleanup : ℕ → ObjectPool T → S → ObjectPool T × S × Bool
  cleanup now p s =
      if p.locked
      then (p, s, false)
      else (let (is, n, s1) = clean p.config.max_idle_time now p.items s in
          (record p { items = is; created = p.created - n }, s1, true))

  unfoldable pub destroy_all : List (PoolItem T) → S → S
  destroy_all [] s = s
  destroy_all (i ∷ is) s = destroy_all is (f.destroy i.object s).0

  -- `Close` has no errors.
  unfoldable pub close : ObjectPool T → S → ObjectPool T × S × Returned
  close p s = if p.locked then (p, s, blocked) else if p.stopped then (p, s, returned false) else (
    record p { stopped = true; items = []; created = 0; used = 0 },
    destroy_all p.items s,
    returned false,
  )

module _ {T : Type 0} ⦃e : Eq T⦄ where
  -- The loop of `Put`: the first object in use that is equal, and the items after the writes to it.
  unfoldable pub give_back : ℕ → T → List (PoolItem T) → Option (T × List (PoolItem T))
  give_back now t [] = none
  give_back now t (i ∷ is) =
      let rest = give_back now t is in
      if i.in_use && e.beq i.object t
      then some (i.object, record i { in_use = false; last_used = now } ∷ is)
      else elim rest [ none ↦ none | some (o, js) ↦ some (o, i ∷ js) ]

module _ {T S : Type 0} ⦃e : Eq T⦄ (f : ObjectFactory T S) where
  -- `Put` after its loop.
  unfoldable pub put_found :
      T → ObjectPool T → S → Option (T × List (PoolItem T)) → ObjectPool T × S × Returned
  put_found t p s (some (o, is)) =
      let (s1, failed) = f.reset o s in
      (record p { items = is; used = p.used - 1 }, s1, returned failed)
  put_found t p s none = let (s1, failed) = f.destroy t s in (p, s1, returned failed)

  unfoldable pub put : ℕ → T → ObjectPool T → S → ObjectPool T × S × Returned
  put now t p s = if p.locked then (p, s, blocked) else put_found t p s (give_back now t p.items)
