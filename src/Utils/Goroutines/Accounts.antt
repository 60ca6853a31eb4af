-- ===== src/Utils/Goroutines/Accounts.antt =====
-- goroutine_pool.go: the statistics of a GoroutinePool after any sequence of steps.
use data_middleware.Prelude.{
  ℕ, ◌+◌, ◌≡◌, refl, sym, ap, true, false, List, [], ◌∷◌, Option, none, some, arith,
}
use data_middleware.Utils.Goroutines.{
  Ants, GoroutinePool, GoroutinePoolConfig, new_goroutine_pool, started, read_stats,
}
use data_middleware.Utils.Goroutines.Events.{
  System, Event, begins, answers, fails, closes, ticks, completes, tunes, moves, step, run, fresh,
  ended, panicked_in, and_then,
}
use data_middleware.Utils.Goroutines.Counts.{
  IsCounted, Counts, ends_after, panics_after, step-IsCounted,
}

module _ {P : Type 0} (ants : Ants P) where
  -- Numbers of ends and panics behind which a history still comes.
  ended_after :
      (e : Event P) (es : List (Event P)) (n : ℕ)
      → ends_after e n + ended ants es ≡ n + ended ants (e ∷ es)
  ended_after begins es n = refl
  ended_after answers es n = refl
  ended_after fails es n = refl
  ended_after closes es n = refl
  ended_after ticks es n = refl
  ended_after (completes panicked) es n = omega arith
  ended_after (tunes k) es n = refl
  ended_after (moves p) es n = refl

  panicked_after :
      (e : Event P) (es : List (Event P)) (n : ℕ)
      → panics_after e n + panicked_in ants es ≡ n + panicked_in ants (e ∷ es)
  panicked_after begins es n = refl
  panicked_after answers es n = refl
  panicked_after fails es n = refl
  panicked_after closes es n = refl
  panicked_after ticks es n = refl
  panicked_after (completes true) es n = omega arith
  panicked_after (completes false) es n = refl
  panicked_after (tunes k) es n = refl
  panicked_after (moves p) es n = refl

  and_then-Counts :
      (ends panics : ℕ) (f : System P → Option (System P)) (o : Option (System P))
      → ((r : System P) → o ≡ some r → Counts ends panics (f r))
      → Counts ends panics (and_then f o)
  and_then-Counts ends panics f none every = tt
  and_then-Counts ends panics f (some r) every = every r refl

  run-IsCounted :
      (es : List (Event P)) (ends panics : ℕ) (s : System P)
      → IsCounted ends panics s
      → Counts (ends + ended ants es) (panics + panicked_in ants es) (run ants es s)
  run-IsCounted [] ends panics s h = record {
    submitted = h.submitted;
    done_count = let k = h.done_count in omega (arith, k);
    failed_count = let k = h.failed_count in omega (arith, k);
  }
  run-IsCounted (c ∷ es) ends panics s h =
      and_then-Counts _ _ (run ants es) (step ants c s) λ r next.
        let now : IsCounted (ends_after c ends) (panics_after c panics) r =
          rw next at (step-IsCounted ants c ends panics s h) in
        rw (ended_after c es ends, panicked_after c es panics) at
          (run-IsCounted es (ends_after c ends) (panics_after c panics) r now)

  fresh-IsCounted :
      (config : GoroutinePoolConfig) (gp : GoroutinePool P) (o : Option P)
      → started ants config o ≡ some gp
      → IsCounted 0 0 (fresh ants gp)
  fresh-IsCounted config gp none e = absurd (cc)
  fresh-IsCounted config gp (some p) e = record {
    submitted =
        zeros (ap (count_of (λ g. g.submitted_tasks)) e) (ap (count_of (λ g. g.completed_tasks)) e);
    done_count = sym (ap (count_of (λ g. g.completed_tasks)) e);
    failed_count = let k = ap (count_of (λ g. g.failed_tasks)) e in omega (arith, k);
  }
    where
      count_of : (GoroutinePool P → ℕ) → Option (GoroutinePool P) → ℕ
      count_of f none = 0
      count_of f (some g) = f g

      zeros : {a b : ℕ} → 0 ≡ a → 0 ≡ b → a ≡ b + 0 + 0
      zeros e f = omega (arith, e, f)

  -- In every order of the atomic steps of goroutines and workers, with tunings, ticks of the monitor
  -- and closes between them, GetStats on a new pool reports, of each counter, what it is at its own
  -- read, with other steps between the three reads: the tasks submitted are those that had come to
  -- an end at the first read, those that the ants pool held then and those whose Submit was not
  -- answered; the tasks completed are those that had come to an end at the second read, with the
  -- panicked ones; and the tasks failed, with those about to be counted, are those that had panicked
  -- at the third.
  pub get_stats-run :
      (config : GoroutinePoolConfig) (gp at_running at_free at_total at_cap : GoroutinePool P)
      (before between1 between2 : List (Event P)) (first second third : System P)
      → new_goroutine_pool ants config ≡ some gp
      → run ants before (fresh ants gp) ≡ some first
      → run ants between1 first ≡ some second
      → run ants between2 second ≡ some third
      → let stats =
          read_stats ants at_running at_free first.gp second.gp third.gp at_total at_cap in
        (stats.submitted_tasks ≡ ended ants before + first.held + first.calling)
        × (stats.completed_tasks ≡ ended ants before + ended ants between1)
        × (stats.failed_tasks + third.recovering
            ≡ panicked_in ants before + panicked_in ants between1 + panicked_in ants between2)
  unfolding new_goroutine_pool
  get_stats-run config gp at_running at_free at_total at_cap before between1 between2 first second
        third e r1 r2 r3 =
      let counted1 : IsCounted (0 + ended ants before) (0 + panicked_in ants before) first =
        rw r1 at (
          run-IsCounted before 0 0 (fresh ants gp)
            (fresh-IsCounted config gp (ants.new_pool config) e)) in
      let counted2 = rw r2 at (run-IsCounted between1 _ _ first counted1) in
      let counted3 = rw r3 at (run-IsCounted between2 _ _ second counted2) in
      let a = counted1.submitted in
      let b = counted1.done_count in
      let c = counted2.done_count in
      let d = counted3.failed_count in (omega (arith, a, b), omega (arith, c), omega (arith, d))
