-- ===== src/Utils/Pool/Outcome.antt =====
-- pool.go: what ObjectPool.Get comes to.
use data_middleware.Prelude.{
  ℕ, ◌+◌, ◌≤◌, ◌<◌, ◌≡◌, ◌⊎◌, refl, ap, ◌∙◌, true, false, List, [], ◌∷◌, none, some, ◌==◌,
  if◌then◌else◌, arith, Bool-cases, Option-cases, inl, inr,
}
use data_middleware.Utils.Pool.{
  ObjectFactory, PoolItem, ObjectPool, Got, gave, create_failed, pool_exhausted, get_blocked,
  create_item, take_idle, get, get_new, get_idle, after_create, append_item, has_room,
}
use data_middleware.Utils.Pool.Items.{AllInUse, Taken, take_idle-cases}

module _ {T S : Type 0} (f : ObjectFactory T S) where
  abbrev pub Room : ObjectPool T → Type 0
  Room p = (p.config.max_size ≡ 0) ⊎ (p.created < p.config.max_size)

  -- The next pool and state of the factory, and what `Get` comes to.
  pub data GetOutcome (now : ℕ) (p : ObjectPool T) (s : S) : ObjectPool T × S × Got T → Type 0 where
    given :
        (t : T) (js : List (PoolItem T))
        → Taken now p.items js t
        → GetOutcome now p s (record p { items = js; used = p.used + 1 }, s, gave t)
    exhausted :
        AllInUse p.items
        → 0 < p.config.max_size
        → p.config.max_size ≤ p.created
        → GetOutcome now p s (p, s, pool_exhausted)
    failed :
        AllInUse p.items
        → Room p
        → (f.create s).1 ≡ none
        → GetOutcome now p s (record p { locked = false }, (f.create s).0, create_failed)
    waits :
        (t : T)
        → AllInUse p.items
        → Room p
        → (f.create s).1 ≡ some t
        → GetOutcome now p s (record p { locked = true }, (f.create s).0, get_blocked)

  get_free :
      (now : ℕ) (p : ObjectPool T) (s : S)
      → p.locked ≡ false
      → get f now p s ≡ get_idle f now p s (take_idle now p.items)
  unfolding get
  get_free now p s free =
      ap (λ b. if b then (p, s, get_blocked) else get_idle f now p s (take_idle now p.items)) free

  get_new_error :
      (now : ℕ) (p : ObjectPool T) (s : S)
      → (f.create s).1 ≡ none
      → get_new f now p s true ≡ (record p { locked = false }, (f.create s).0, create_failed)
  unfolding get_new create_item append_item after_create
  get_new_error now p s h =
      ap
        (λ o.
          let (q, s1, r) = append_item now (record p { locked = true }) (f.create s).0 o in
          after_create now q s1 r)
        h

  get_new_waits :
      (now : ℕ) (t : T) (p : ObjectPool T) (s : S)
      → (f.create s).1 ≡ some t
      → get_new f now p s true ≡ (record p { locked = true }, (f.create s).0, get_blocked)
  unfolding get_new create_item append_item after_create
  get_new_waits now t p s h =
      ap
        (λ o.
          let (q, s1, r) = append_item now (record p { locked = true }) (f.create s).0 o in
          after_create now q s1 r)
        h

  has_room-Room : (p : ObjectPool T) → has_room p ≡ true → Room p
  unfolding has_room
  has_room-Room p y = elim (Bool-cases (p.config.max_size == 0)) [
    | inl z ↦ inl (ground arith)
    | inr n ↦ inr (ground arith)
  ]

  no_room :
      (p : ObjectPool T)
      → has_room p ≡ false
      → (0 < p.config.max_size) × (p.config.max_size ≤ p.created)
  unfolding has_room
  no_room p n = (ground arith, ground arith)

  pub get_idle-GetOutcome :
      (now : ℕ) (p : ObjectPool T) (s : S)
      → GetOutcome now p s (get_idle f now p s (take_idle now p.items))
  unfolding get_idle get_new
  get_idle-GetOutcome now p s = elim (take_idle-cases now p.items) [
    | inr (t, js, h, k) ↦ rw h (given t js k)
    | inl (h, all) ↦ rw h (elim (Bool-cases (has_room p)) [
      | inr n ↦ let (q, r) = no_room p n in rw n (exhausted all q r)
      | inl y ↦ rw y (elim (Option-cases (f.create s).1) [
        | inl c ↦ rw (get_new_error now p s c) (failed all (has_room-Room p y) c)
        | inr (t, c) ↦ rw (get_new_waits now t p s c) (waits t all (has_room-Room p y) c)
      ])
    ])
  ]

  -- Get of a pool whose lock is free gives the first object that is not in use and marks it; if
  -- all are in use, it fails where the pool is full, or where the factory cannot create an object;
  -- and where there is room and the factory creates one, Get waits for the lock that it holds.
  pub get-GetOutcome :
      (now : ℕ) (p : ObjectPool T) (s : S) → p.locked ≡ false → GetOutcome now p s (get f now p s)
  get-GetOutcome now p s free = rw (get_free now p s free) (get_idle-GetOutcome now p s)

  none_idle : (now : ℕ) (is : List (PoolItem T)) → AllInUse is → take_idle now is ≡ none
  unfolding take_idle AllInUse
  none_idle now [] h = refl
  none_idle now (i ∷ is) (y, h) = rw (y, none_idle now is h) refl

  Room-has_room : (p : ObjectPool T) → Room p → has_room p ≡ true
  unfolding has_room
  Room-has_room p h = elim h [ inl z ↦ ground arith | inr l ↦ ground arith ]

  -- Where `Get` waits for its own lock, the pool is left locked.
  pub get-waits :
      (now : ℕ) (t : T) (p : ObjectPool T) (s : S)
      → p.locked ≡ false
      → AllInUse p.items
      → Room p
      → (f.create s).1 ≡ some t
      → get f now p s ≡ (record p { locked = true }, (f.create s).0, get_blocked)
  unfolding get_idle
  get-waits now t p s free all room c =
      get_free now p s free
      ∙ ap (get_idle f now p s) (none_idle now p.items all)
      ∙ ap (get_new f now p s) (Room-has_room p room)
      ∙ get_new_waits now t p s c
