-- ===== src/Utils/Goroutines/Tuning.antt =====
-- goroutine_pool.go: the capacity of a GoroutinePool under the ticks of its monitor.
use data_middleware.Prelude.{
  ℕ, ◌*◌, ◌/◌, ◌≡◌, ◌≤◌, refl, sym, ◌∙◌, Bool, false, ◌&&◌, zero, suc, inl, inr, Bool-cases,
  if◌then◌else◌, ltb, ◌==◌, arith,
}
use data_middleware.Utils.Goroutines.{
  Ants, IsAnts, GoroutinePool, with_pool, get_stats, tune_capacity, tick, auto_tune, grow, shrink,
  tune_unless_same, at_most, at_least,
}

module _ {P : Type 0} (ants : Ants P) (pre_allocated : P → Bool)
    (h : IsAnts ants pre_allocated) where
  -- The capacity that autoTune wants, of a number of running workers and a capacity.
  abbrev pub wanted : ℕ → ℕ → ℕ
  wanted r c =
      if ltb (4 * c) (5 * r) && ltb c 1000
      then at_most ants 1000 (c * 12 / 10)
      else if ltb (5 * r) c && ltb 10 c
      then at_least ants 10 (c * 8 / 10)
      else c

  capacity_of : GoroutinePool P → ℕ
  capacity_of gp = ants.cap gp.pool

  -- Where the pool can be tuned, and the new capacity is positive.
  unless_same-cap :
      (c n : ℕ) (gp : GoroutinePool P)
      → pre_allocated gp.pool ≡ false
      → ants.cap gp.pool ≡ c
      → 1 ≤ n
      → (ants.cap (tune_unless_same ants c n gp).pool ≡ n)
        × (pre_allocated (tune_unless_same ants c n gp).pool ≡ false)
  unfolding tune_capacity
  unless_same-cap c zero gp free e pos = absurd (omega arith)
  unless_same-cap c (suc n) gp free e pos = elim (Bool-cases (suc n == c)) [
    | inl y ↦ rw y (let same : suc n ≡ c = ground arith in e ∙ sym same, free)
    | inr w ↦ rw w (h.tune_changes n gp.pool free, h.tune_keeps (suc n) gp.pool ∙ free)
  ]

  -- A tick sets the capacity that autoTune wants.
  tick-cap :
      (gp : GoroutinePool P)
      → pre_allocated gp.pool ≡ false
      → 1 ≤ ants.cap gp.pool
      → (ants.cap (tick ants gp).pool ≡ wanted (ants.running gp.pool) (ants.cap gp.pool))
        × (pre_allocated (tick ants gp).pool ≡ false)
  unfolding tick auto_tune grow shrink get_stats
  tick-cap gp free pos =
      let c = ants.cap gp.pool in
      let r = ants.running gp.pool in
      elim (Bool-cases (ltb (4 * c) (5 * r) && ltb c 1000)) [
        | inl busy ↦
            let not_idle : (ltb (5 * r) c && ltb 10 c) ≡ false = ground arith in
            rw (busy, not_idle)
              (unless_same-cap c (at_most ants 1000 (c * 12 / 10)) gp free refl (ground arith))
        | inr calm ↦ elim (Bool-cases (ltb (5 * r) c && ltb 10 c)) [
          | inl idle ↦
              rw (calm, idle)
                (unless_same-cap c (at_least ants 10 (c * 8 / 10)) gp free refl (ground arith))
          | inr fair ↦ rw (calm, fair) (refl, free)
        ]
      ]

  -- Ticks of the monitor, between which the ants pool runs tasks as it likes.
  pub data Rounds (gp : GoroutinePool P) : GoroutinePool P → Type 0 where
    start : Rounds gp gp
    moves :
        {a : GoroutinePool P} (p : P)
        → Rounds gp a
        → ants.cap p ≡ ants.cap a.pool
        → pre_allocated p ≡ pre_allocated a.pool
        → Rounds gp (with_pool p a)
    ticks : {a : GoroutinePool P} → Rounds gp a → Rounds gp (tick ants a)

  -- The bounds of the capacity, of that at the start.
  abbrev pub lowest : ℕ → ℕ
  lowest c = if ltb c 10 then c else 10

  abbrev pub highest : ℕ → ℕ
  highest c = if ltb c 5 then c else if ltb c 1000 then 1000 else c

  wanted-between :
      (r c d : ℕ)
      → 1 ≤ c
      → lowest c ≤ d
      → d ≤ highest c
      → (lowest c ≤ wanted r d) × (wanted r d ≤ highest c)
  wanted-between r c d pos l h = elim (Bool-cases (ltb (4 * d) (5 * r) && ltb d 1000)) [
    | inl busy ↦ rw busy (ground arith, ground arith)
    | inr calm ↦ elim (Bool-cases (ltb (5 * r) d && ltb 10 d)) [
      | inl idle ↦ rw (calm, idle) (ground arith, ground arith)
      | inr fair ↦ rw (calm, fair) (l, h)
    ]
  ]

  lowest-pos : (c : ℕ) → 1 ≤ c → 1 ≤ lowest c
  lowest-pos c pos = ground arith

  -- Over an ants pool that behaves as documented, for a pool that did not allocate its workers before,
  -- and any ticks of the monitor, with whatever numbers of running workers between them: a capacity
  -- that starts from 10 to 1000 stays there; one above 1000 stays at most what it was and at least
  -- 10; one from 5 to 9 is never below what it was at the start, and stays at most 1000; and one
  -- below 5 never changes.
  pub cap-rounds :
      (gp a : GoroutinePool P)
      → Rounds gp a
      → pre_allocated gp.pool ≡ false
      → 1 ≤ ants.cap gp.pool
      → (lowest (ants.cap gp.pool) ≤ ants.cap a.pool)
        × (ants.cap a.pool ≤ highest (ants.cap gp.pool))
        × (pre_allocated a.pool ≡ false)
  cap-rounds gp a start free pos = (ground arith, ground arith, free)
  cap-rounds gp a (moves {a = b} p before same_cap same_kind) free pos =
      let (l, h, free_b) = cap-rounds gp b before free pos in
      (rw same_cap l, rw same_cap h, same_kind ∙ free_b)
  cap-rounds gp a (ticks {a = b} before) free pos =
      let (l, h, free_b) = cap-rounds gp b before free pos in
      let some_worker = lowest-pos (ants.cap gp.pool) pos in
      let (tuned, free_a) = tick-cap b free_b (omega (arith, l, some_worker)) in
      let (lower, upper) =
        wanted-between (ants.running b.pool) (ants.cap gp.pool) (ants.cap b.pool) pos l h in
      (rw tuned lower, rw tuned upper, free_a)
