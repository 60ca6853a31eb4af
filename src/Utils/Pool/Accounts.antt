-- ===== src/Utils/Pool/Accounts.antt =====
-- pool.go: what an ObjectPool counts, over every history of its calls.
use data_middleware.Prelude.{
  ℕ, zero, suc, ◌+◌, ◌-◌, ◌≤◌, ◌≡◌, refl, sym, ◌∙◌, Bool, true, false, List, [], ◌∷◌, some,
  if◌then◌else◌, Eq, arith, Bool-cases, inl, inr,
}
use data_middleware.Utils.Pool.{
  PoolConfig, ObjectFactory, ObjectPool, Got, get_blocked, Returned, returned, blocked, create_item,
  append_item, init_pool, new_object_pool, take_idle, get, clean, cleanup, destroy_all, close,
  give_back, put, put_found, get_idle, goes_on,
}
use data_middleware.Utils.Pool.Items.{in_use_count, AllInUse, give_back-cases}
use data_middleware.Utils.Pool.Outcome.{
  GetOutcome, given, exhausted, failed, waits, get_idle-GetOutcome, Room, get-waits,
}
use data_middleware.Utils.Pool.Counts.{
  IsPool, Taken-IsPool, Returns-IsPool, append_item-IsPool, clean-count,
}

pub data PoolCall (T : Type 0) : Type 0 where
  call_get : ℕ → PoolCall T
  call_put : ℕ → T → PoolCall T
  call_cleanup : ℕ → PoolCall T
  call_close : PoolCall T

module _ {T S : Type 0} ⦃e : Eq T⦄ (f : ObjectFactory T S) where
  unfoldable pub call : PoolCall T → ObjectPool T → S → ObjectPool T × S
  call (call_get now) p s = let (q, s1, r) = get f now p s in (q, s1)
  call (call_put now t) p s = let (q, s1, r) = put f now t p s in (q, s1)
  call (call_cleanup now) p s = let (q, s1, r) = cleanup f now p s in (q, s1)
  call call_close p s = let (q, s1, r) = close f p s in (q, s1)

  unfoldable pub run : List (PoolCall T) → ObjectPool T → S → ObjectPool T × S
  run [] p s = (p, s)
  run (c ∷ cs) p s = let (q, s1) = call c p s in run cs q s1

  init_pool-IsPool :
      (n now : ℕ) (p : ObjectPool T) (s : S)
      → IsPool p
      → p.created + n ≤ p.config.init_size
      → IsPool (init_pool f n now p s).0
  unfolding init_pool create_item
  init_pool-IsPool zero now p s h l = h
  init_pool-IsPool (suc n) now p s h l =
      let (g, k, c) = append_item-IsPool now p (f.create s).0 (f.create s).1 h (omega arith) in
      let r = append_item now p (f.create s).0 (f.create s).1 in
      let rest = init_pool-IsPool n now r.0 r.1 g (rw c (omega arith)) in
      elim (Bool-cases (goes_on r.2)) [ inl y ↦ rw y rest | inr n ↦ rw n g ]

  GetOutcome-IsPool :
      (now : ℕ) (p : ObjectPool T) (s : S) (r : ObjectPool T × S × Got T)
      → IsPool p
      → GetOutcome f now p s r
      → IsPool r.0
  GetOutcome-IsPool now p s _ h (given t js k) = Taken-IsPool now p js t h k
  GetOutcome-IsPool now p s _ h (exhausted a b c) = h
  GetOutcome-IsPool now p s _ h (failed a b c) = record {
    all_counted = h.all_counted;
    in_use_counted = h.in_use_counted;
    never_grown = h.never_grown;
  }
  GetOutcome-IsPool now p s _ h (waits t a b c) = record {
    all_counted = h.all_counted;
    in_use_counted = h.in_use_counted;
    never_grown = h.never_grown;
  }

  -- The cases of a method that takes the lock.
  if_free :
      {A : Type 0} (g : A → ObjectPool T) (b : Bool) (x y : A)
      → IsPool (g x)
      → IsPool (g y)
      → IsPool (g (if b then x else y))
  if_free g true x y h k = h
  if_free g false x y h k = k

  put_found-IsPool :
      (now : ℕ) (t : T) (p : ObjectPool T) (s : S)
      → IsPool p
      → IsPool (put_found f t p s (give_back now t p.items)).0
  unfolding put_found
  put_found-IsPool now t p s h = elim (give_back-cases now t p.items) [
    | inl n ↦ rw n h
    | inr (o, js, g, k) ↦ rw g (Returns-IsPool now p js o h k)
  ]

  call-IsPool : (c : PoolCall T) (p : ObjectPool T) (s : S) → IsPool p → IsPool (call c p s).0
  unfolding call get put cleanup close in_use_count
  call-IsPool (call_get now) p s h =
      if_free {A = ObjectPool T × S × Got T} (λ u. u.0) p.locked (p, s, get_blocked)
        (get_idle f now p s (take_idle now p.items)) h
        (GetOutcome-IsPool now p s _ h (get_idle-GetOutcome f now p s))
  call-IsPool (call_put now t) p s h =
      if_free {A = ObjectPool T × S × Returned} (λ u. u.0) p.locked (p, s, blocked)
        (put_found f t p s (give_back now t p.items)) h (put_found-IsPool now t p s h)
  call-IsPool (call_cleanup now) p s h =
      let (q, r) = clean-count f p.config.max_idle_time now p.items s in
      let (is, n, s1) = clean f p.config.max_idle_time now p.items s in
      if_free {A = ObjectPool T × S × Bool} (λ u. u.0) p.locked (p, s, false)
        (record p { items = is; created = p.created - n }, s1, true) h
        (record {
          all_counted = omega (arith, h.all_counted);
          in_use_counted = h.in_use_counted ∙ sym r;
          never_grown = omega (arith, h.never_grown);
        })
  call-IsPool call_close p s h =
      let u : ObjectPool T × S × Returned = (
        record p { stopped = true; items = []; created = 0; used = 0 },
        destroy_all f p.items s,
        returned false,
      ) in
      if_free {A = ObjectPool T × S × Returned} (λ u. u.0) p.locked (p, s, blocked)
        (if p.stopped then (p, s, returned false) else u) h
        (if_free {A = ObjectPool T × S × Returned} (λ u. u.0) p.stopped (p, s, returned false) u h
          (record { all_counted = refl; in_use_counted = refl; never_grown = omega arith }))

  run-IsPool :
      (cs : List (PoolCall T)) (p : ObjectPool T) (s : S) → IsPool p → IsPool (run cs p s).0
  unfolding run
  run-IsPool [] p s h = h
  run-IsPool (c ∷ cs) p s h = run-IsPool cs (call c p s).0 (call c p s).1 (call-IsPool c p s h)

  -- After any history of Get, Put, cleanup and Close, of a new pool, `created` is the number of the
  -- items, `inUse` that of the items in use, and there are no more items than InitSize: no Get adds
  -- one.
  pub run-new_object_pool :
      (config : PoolConfig) (now : ℕ) (s : S) (cs : List (PoolCall T))
      → let (p, s1) = new_object_pool f config now s in IsPool (run cs p s1).0
  unfolding new_object_pool in_use_count
  run-new_object_pool config now s cs =
      let (p, s1) = new_object_pool f config now s in
      run-IsPool cs p s1 (
        init_pool-IsPool config.init_size now _ s
          (record { all_counted = refl; in_use_counted = refl; never_grown = omega arith })
          (omega arith))

  call_locked :
      (c : PoolCall T) (p : ObjectPool T) (s : S)
      → call c (record p { locked = true }) s ≡ (record p { locked = true }, s)
  unfolding call get put cleanup close
  call_locked (call_get now) p s = refl
  call_locked (call_put now t) p s = refl
  call_locked (call_cleanup now) p s = refl
  call_locked call_close p s = refl

  run_locked :
      (cs : List (PoolCall T)) (p : ObjectPool T) (s : S)
      → run cs (record p { locked = true }) s ≡ (record p { locked = true }, s)
  unfolding run
  run_locked [] p s = refl
  run_locked (c ∷ cs) p s = rw (call_locked c p s) (run_locked cs p s)

  -- Where the lock is free, all objects are in use, the pool has room, and the factory creates an
  -- object, Get keeps the lock for ever: the object is not added, and no later call of Get, Put,
  -- cleanup or Close changes the pool or reaches the factory.
  pub run_stuck :
      (now : ℕ) (t : T) (p : ObjectPool T) (s : S) (cs : List (PoolCall T))
      → p.locked ≡ false
      → AllInUse p.items
      → Room f p
      → (f.create s).1 ≡ some t
      → run (call_get now ∷ cs) p s ≡ (record p { locked = true }, (f.create s).0)
  unfolding run call
  run_stuck now t p s cs free all room c =
      rw (get-waits f now t p s free all room c) (run_locked cs p (f.create s).0)
