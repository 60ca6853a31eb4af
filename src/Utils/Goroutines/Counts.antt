-- ===== src/Utils/Goroutines/Counts.antt =====
-- goroutine_pool.go: what each step does to the counters of a GoroutinePool.
use data_middleware.Prelude.{
  ℕ, ◌+◌, ◌≡◌, refl, sym, ap, ◌∙◌, Bool, true, false, Option, none, some, zero, suc, inl, inr,
  Bool-cases, if◌then◌else◌, ◌==◌, ◌*◌, ◌/◌, arith,
}
use data_middleware.Utils.Goroutines.{
  Ants, GoroutinePool, submit_begins, submit_fails, task_completes, task_fails, with_pool, answered,
  get_stats, tune_capacity, close, tick, auto_tune, grow, shrink, tune_unless_same, at_most,
  at_least,
}
use data_middleware.Utils.Goroutines.Events.{
  System, Event, begins, answers, fails, closes, ticks, completes, tunes, moves, settled,
  answers_of, completes_of, fails_of, step,
}

-- What the counters are, for a number of ends and of panics.
pub record IsCounted {P : Type 0} (ends panics : ℕ) (s : System P) : Type 0 where
  pub submitted : s.gp.submitted_tasks ≡ s.gp.completed_tasks + s.held + s.calling
  pub done_count : s.gp.completed_tasks ≡ ends
  pub failed_count : s.gp.failed_tasks + s.recovering ≡ panics

module _ {P : Type 0} where
  -- The events that an event adds to the number of ends and of panics.
  abbrev pub ends_after : Event P → ℕ → ℕ
  ends_after (completes panicked) n = suc n
  ends_after _ n = n

  abbrev pub panics_after : Event P → ℕ → ℕ
  panics_after (completes true) n = suc n
  panics_after _ n = n

  -- Counts that any state after an event has.
  abbrev pub Counts : ℕ → ℕ → Option (System P) → Type 0
  Counts ends panics none = Unit
  Counts ends panics (some r) = IsCounted ends panics r

-- The three counters of a pool are those of another.
abbrev SameCounts : {P : Type 0} → GoroutinePool P → GoroutinePool P → Type 0
SameCounts a b =
    (a.submitted_tasks ≡ b.submitted_tasks)
    × (a.completed_tasks ≡ b.completed_tasks)
    × (a.failed_tasks ≡ b.failed_tasks)

module _ {P : Type 0} (ants : Ants P) where
  tune-SameCounts : (n : ℕ) (gp : GoroutinePool P) → SameCounts (tune_capacity ants n gp).0 gp
  unfolding tune_capacity
  tune-SameCounts zero gp = (refl, refl, refl)
  tune-SameCounts (suc n) gp = (refl, refl, refl)

  close-SameCounts : (gp : GoroutinePool P) → SameCounts (close ants gp) gp
  unfolding close
  close-SameCounts gp = by_stopped gp.stopped
    where
      by_stopped :
          (b : Bool)
          → SameCounts
              (if b then gp else record gp {
                stopped = true;
                monitor_stopped = if gp.monitor_enabled then true else gp.monitor_stopped;
                pool = ants.release gp.pool;
              })
              gp
      by_stopped true = (refl, refl, refl)
      by_stopped false = (refl, refl, refl)

  unless_same-SameCounts :
      (c n : ℕ) (gp : GoroutinePool P) → SameCounts (tune_unless_same ants c n gp) gp
  unless_same-SameCounts c n gp = elim (Bool-cases (n == c)) [
    | inl y ↦ rw y (refl, refl, refl)
    | inr w ↦ rw w (tune-SameCounts n gp)
  ]

  if-SameCounts :
      (b : Bool) (a gp c : GoroutinePool P)
      → SameCounts a c
      → SameCounts gp c
      → SameCounts (if b then a else gp) c
  if-SameCounts true a gp c h k = h
  if-SameCounts false a gp c h k = k

  SameCounts-trans : (a b c : GoroutinePool P) → SameCounts a b → SameCounts b c → SameCounts a c
  SameCounts-trans a b c (x, y, z) (u, v, w) = (x ∙ u, y ∙ v, z ∙ w)

  tick-SameCounts : (gp : GoroutinePool P) → SameCounts (tick ants gp) gp
  unfolding tick auto_tune grow shrink
  tick-SameCounts gp =
      let stats = get_stats ants gp in
      let grown = grow ants stats gp in
      let growth =
        if-SameCounts _
          (tune_unless_same ants stats.capacity (at_most ants 1000 (stats.capacity * 12 / 10)) gp)
          gp gp
          (unless_same-SameCounts stats.capacity (at_most ants 1000 (stats.capacity * 12 / 10)) gp)
          (refl, refl, refl) in
      SameCounts-trans (shrink ants stats grown) grown gp
        (if-SameCounts _
          (tune_unless_same ants stats.capacity (at_least ants 10 (stats.capacity * 8 / 10)) grown)
          grown grown
          (unless_same-SameCounts stats.capacity (at_least ants 10 (stats.capacity * 8 / 10)) grown)
          (refl, refl, refl))
        growth

  same-IsCounted :
      (ends panics : ℕ) (s : System P) (gp : GoroutinePool P)
      → SameCounts gp s.gp
      → IsCounted ends panics s
      → IsCounted ends panics (record s { gp = gp })
  same-IsCounted ends panics s gp (a, b, c) h = record {
    submitted = a ∙ h.submitted ∙ ap (λ (n : ℕ). n + s.held + s.calling) (sym b);
    done_count = b ∙ h.done_count;
    failed_count = ap (λ (n : ℕ). n + s.recovering) c ∙ h.failed_count;
  }

  settled-IsCounted :
      (ends panics n : ℕ) (s : System P) (r : P × Bool)
      → s.calling ≡ suc n
      → IsCounted ends panics s
      → IsCounted ends panics (settled n s (answered s.gp r))
  unfolding submit_fails
  settled-IsCounted ends panics n s (p, true) e h = record {
    submitted = let k = h.submitted in omega (arith, e, k);
    done_count = h.done_count;
    failed_count = h.failed_count;
  }
  settled-IsCounted ends panics n s (p, false) e h = record {
    submitted = let k = h.submitted in omega (arith, e, k);
    done_count = h.done_count;
    failed_count = h.failed_count;
  }

  answers-IsCounted :
      (ends panics n : ℕ) (s : System P)
      → s.calling ≡ n
      → IsCounted ends panics s
      → Counts ends panics (answers_of ants n s)
  answers-IsCounted ends panics zero s e h = tt
  answers-IsCounted ends panics (suc n) s e h =
      settled-IsCounted ends panics n s (ants.submit s.gp.pool) e h

  completes-IsCounted :
      (ends panics n : ℕ) (panicked : Bool) (s : System P)
      → s.held ≡ n
      → IsCounted ends panics s
      → Counts
          (suc ends)
          (panics_after {P = P} (completes panicked) panics)
          (completes_of ants panicked n s)
  unfolding task_completes
  completes-IsCounted ends panics zero panicked s e h = tt
  completes-IsCounted ends panics (suc n) true s e h = record {
    submitted = let k = h.submitted in omega (arith, e, k);
    done_count = let k = h.done_count in omega (arith, k);
    failed_count = let k = h.failed_count in omega (arith, k);
  }
  completes-IsCounted ends panics (suc n) false s e h = record {
    submitted = let k = h.submitted in omega (arith, e, k);
    done_count = let k = h.done_count in omega (arith, k);
    failed_count = h.failed_count;
  }

  fails-IsCounted :
      (ends panics n : ℕ) (s : System P)
      → s.recovering ≡ n
      → IsCounted ends panics s
      → Counts ends panics (fails_of ants n s)
  unfolding task_fails
  fails-IsCounted ends panics zero s e h = tt
  fails-IsCounted ends panics (suc n) s e h = record {
    submitted = h.submitted;
    done_count = h.done_count;
    failed_count = let k = h.failed_count in omega (arith, e, k);
  }

  pub step-IsCounted :
      (e : Event P) (ends panics : ℕ) (s : System P)
      → IsCounted ends panics s
      → Counts (ends_after e ends) (panics_after e panics) (step ants e s)
  unfolding submit_begins
  step-IsCounted begins ends panics s h = record {
    submitted = let k = h.submitted in omega (arith, k);
    done_count = h.done_count;
    failed_count = h.failed_count;
  }
  step-IsCounted answers ends panics s h = answers-IsCounted ends panics s.calling s refl h
  step-IsCounted (completes true) ends panics s h =
      completes-IsCounted ends panics s.held true s refl h
  step-IsCounted (completes false) ends panics s h =
      completes-IsCounted ends panics s.held false s refl h
  step-IsCounted fails ends panics s h = fails-IsCounted ends panics s.recovering s refl h
  step-IsCounted (tunes n) ends panics s h =
      same-IsCounted ends panics s (tune_capacity ants n s.gp).0 (tune-SameCounts n s.gp) h
  step-IsCounted closes ends panics s h =
      same-IsCounted ends panics s (close ants s.gp) (close-SameCounts s.gp) h
  step-IsCounted ticks ends panics s h =
      same-IsCounted ends panics s (tick ants s.gp) (tick-SameCounts s.gp) h
  step-IsCounted (moves p) ends panics s h =
      same-IsCounted ends panics s (with_pool p s.gp) (refl, refl, refl) h
