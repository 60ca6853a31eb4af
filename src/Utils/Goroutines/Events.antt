-- ===== src/Utils/Goroutines/Events.antt =====
-- goroutine_pool.go: a GoroutinePool while goroutines submit tasks and workers run them, as a sequence
-- of their atomic steps.
use data_middleware.Prelude.{
  ℕ, ◌+◌, Bool, true, false, List, [], ◌∷◌, Option, none, some, zero, suc,
}
use data_middleware.Utils.Goroutines.{
  Ants, GoroutinePool, submit_begins, task_completes, task_fails, with_pool, answered,
  tune_capacity, close, tick,
}

-- The pool, with the calls of Submit that the ants pool has not answered, the tasks that it holds,
-- and the tasks that panicked and are not counted yet.
pub record System (P : Type 0) : Type 0 where
  pub gp : GoroutinePool P
  pub calling : ℕ
  pub held : ℕ
  pub recovering : ℕ

-- What happens next; `completes true` is the end of a task that panicked, and `moves` a step of the
-- ants pool itself.
pub data Event (P : Type 0) : Type 0 where
  begins answers fails closes ticks : Event P
  completes : Bool → Event P
  tunes : ℕ → Event P
  moves : P → Event P

module _ {P : Type 0} where
  abbrev pub settled : ℕ → System P → GoroutinePool P × Bool → System P
  settled n s (gp, true) = record s { gp = gp; calling = n; held = s.held + 1 }
  settled n s (gp, false) = record s { gp = gp; calling = n }

  abbrev pub completed : Bool → ℕ → System P → System P
  completed true n s = record s {
    gp = task_completes s.gp;
    held = n;
    recovering = s.recovering + 1;
  }
  completed false n s = record s { gp = task_completes s.gp; held = n }

  abbrev pub and_then : (System P → Option (System P)) → Option (System P) → Option (System P)
  and_then f none = none
  and_then f (some r) = f r

module _ {P : Type 0} (ants : Ants P) where
  abbrev pub answers_of : ℕ → System P → Option (System P)
  answers_of zero s = none
  answers_of (suc n) s = some (settled n s (answered s.gp (ants.submit s.gp.pool)))

  abbrev pub completes_of : Bool → ℕ → System P → Option (System P)
  completes_of panicked zero s = none
  completes_of panicked (suc n) s = some (completed panicked n s)

  abbrev pub fails_of : ℕ → System P → Option (System P)
  fails_of zero s = none
  fails_of (suc n) s = some (record s { gp = task_fails s.gp; recovering = n })

  -- `none` where the event cannot happen.
  abbrev pub step : Event P → System P → Option (System P)
  step begins s = some (record s { gp = submit_begins s.gp; calling = s.calling + 1 })
  step answers s = answers_of s.calling s
  step (completes panicked) s = completes_of panicked s.held s
  step fails s = fails_of s.recovering s
  step (tunes n) s = some (record s { gp = (tune_capacity ants n s.gp).0 })
  step closes s = some (record s { gp = close ants s.gp })
  step ticks s = some (record s { gp = tick ants s.gp })
  step (moves p) s = some (record s { gp = with_pool p s.gp })

  abbrev pub run : List (Event P) → System P → Option (System P)
  run [] s = some s
  run (e ∷ es) s = and_then (run es) (step e s)

  abbrev pub fresh : GoroutinePool P → System P
  fresh gp = record { gp = gp; calling = 0; held = 0; recovering = 0 }

  -- The tasks that came to an end, and those that panicked.
  abbrev pub ended : List (Event P) → ℕ
  ended [] = 0
  ended (completes panicked ∷ es) = suc (ended es)
  ended (_ ∷ es) = ended es

  abbrev pub panicked_in : List (Event P) → ℕ
  panicked_in [] = 0
  panicked_in (completes true ∷ es) = suc (panicked_in es)
  panicked_in (_ ∷ es) = panicked_in es
