-- ===== src/Utils/Goroutines/PreAllocated.antt =====
-- goroutine_pool.go: the ticks of the monitor where the ants pool allocated its workers before.
use data_middleware.Prelude.{
  ℕ, ◌*◌, ◌/◌, ◌≡◌, ◌≤◌, ◌<◌, refl, ap, ◌∙◌, Bool, true, false, ◌&&◌, zero, suc, inl, inr,
  Bool-cases, if◌then◌else◌, ltb, ◌==◌, arith,
}
use data_middleware.Utils.Goroutines.{
  Ants, IsAnts, GoroutinePool, get_stats, tune_capacity, tick, auto_tune, grow, shrink,
  tune_unless_same, at_most, at_least,
}
use data_middleware.Utils.Goroutines.Tuning.{Rounds, start, moves, ticks}

module _ {P : Type 0} (ants : Ants P) (pre_allocated : P → Bool)
    (h : IsAnts ants pre_allocated) where
  noneffective-cap :
      (c n : ℕ) (gp : GoroutinePool P)
      → pre_allocated gp.pool ≡ true
      → (tune_unless_same ants c n gp).pool ≡ gp.pool
  unfolding tune_capacity
  noneffective-cap c zero gp fixed = elim (Bool-cases (zero == c)) [
    | inl y ↦ rw y refl
    | inr w ↦ rw w refl
  ]
  noneffective-cap c (suc n) gp fixed = elim (Bool-cases (suc n == c)) [
    | inl y ↦ rw y refl
    | inr w ↦ rw w (h.tune_noneffective (suc n) gp.pool fixed)
  ]

  if-pool :
      (b : Bool) (x y : GoroutinePool P) (p : P)
      → x.pool ≡ p
      → y.pool ≡ p
      → (if b then x else y).pool ≡ p
  if-pool true x y p e f = e
  if-pool false x y p e f = f

  tick_noneffective :
      (gp : GoroutinePool P) → pre_allocated gp.pool ≡ true → (tick ants gp).pool ≡ gp.pool
  unfolding tick auto_tune grow shrink
  tick_noneffective gp fixed =
      let stats = get_stats ants gp in
      let grown = grow ants stats gp in
      let same : grown.pool ≡ gp.pool =
        if-pool _
          (tune_unless_same ants stats.capacity (at_most ants 1000 (stats.capacity * 12 / 10)) gp)
          gp gp.pool
          (noneffective-cap stats.capacity (at_most ants 1000 (stats.capacity * 12 / 10)) gp fixed)
          refl in
      if-pool _
        (tune_unless_same ants stats.capacity (at_least ants 10 (stats.capacity * 8 / 10)) grown)
        grown gp.pool
        (noneffective-cap stats.capacity (at_least ants 10 (stats.capacity * 8 / 10)) grown
            (ap pre_allocated same ∙ fixed)
          ∙ same)
        same

  rounds_fixed :
      (gp a : GoroutinePool P)
      → Rounds ants pre_allocated h gp a
      → pre_allocated gp.pool ≡ true
      → (ants.cap a.pool ≡ ants.cap gp.pool) × (pre_allocated a.pool ≡ true)
  rounds_fixed gp a start fixed = (refl, fixed)
  rounds_fixed gp a (moves {a = b} p before same_cap same_kind) fixed =
      let (same, fixed_b) = rounds_fixed gp b before fixed in (same_cap ∙ same, same_kind ∙ fixed_b)
  rounds_fixed gp a (ticks {a = b} before) fixed =
      let (same, fixed_b) = rounds_fixed gp b before fixed in
      let kept = tick_noneffective b fixed_b in
      (ap ants.cap kept ∙ same, ap pre_allocated kept ∙ fixed_b)

  unless_same-total_workers :
      (c n : ℕ) (gp : GoroutinePool P) → c < n → c < (tune_unless_same ants c n gp).total_workers
  unfolding tune_capacity
  unless_same-total_workers c zero gp less = absurd (omega arith)
  unless_same-total_workers c (suc n) gp less = elim (Bool-cases (suc n == c)) [
    | inl y ↦ absurd (let same : suc n ≡ c = ground arith in omega (arith, same))
    | inr w ↦ rw w less
  ]

  busy-total_workers :
      (gp : GoroutinePool P)
      → 4 * ants.cap gp.pool < 5 * ants.running gp.pool
      → 5 ≤ ants.cap gp.pool
      → ants.cap gp.pool < 1000
      → ants.cap gp.pool < (tick ants gp).total_workers
  unfolding tick auto_tune grow shrink get_stats
  busy-total_workers gp busy some_room room =
      let c = ants.cap gp.pool in
      let r = ants.running gp.pool in
      let yes_grow : (ltb (4 * c) (5 * r) && ltb c 1000) ≡ true = ground arith in
      let no_shrink : (ltb (5 * r) c && ltb 10 c) ≡ false = ground arith in
      rw (yes_grow, no_shrink)
        (unless_same-total_workers c (at_most ants 1000 (c * 12 / 10)) gp (ground arith))

  -- Over an ants pool that behaves as documented, and any ticks of the monitor: the capacity of a pool
  -- that allocated its workers before, as the default configuration asks, is what it was; where
  -- more than four of five workers run then, at a capacity from 5 to 999, the next tick leaves the
  -- capacity as it is too, and makes the statistics report more workers than that.
  pub tick-pre_allocated :
      (gp a : GoroutinePool P)
      → pre_allocated gp.pool ≡ true
      → Rounds ants pre_allocated h gp a
      → 4 * ants.cap a.pool < 5 * ants.running a.pool
      → 5 ≤ ants.cap a.pool
      → ants.cap a.pool < 1000
      → (ants.cap a.pool ≡ ants.cap gp.pool)
        × ((get_stats ants (tick ants a)).capacity ≡ ants.cap gp.pool)
        × ((get_stats ants (tick ants a)).capacity < (get_stats ants (tick ants a)).total_workers)
  unfolding get_stats
  tick-pre_allocated gp a fixed r busy some_room room =
      let (same, fixed_a) = rounds_fixed gp a r fixed in
      let kept = ap ants.cap (tick_noneffective a fixed_a) in
      (same, kept ∙ same, rw kept (busy-total_workers a busy some_room room))
