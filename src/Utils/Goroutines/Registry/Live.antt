-- ===== src/Utils/Goroutines/Registry/Live.antt =====
-- goroutine_pool.go: which pools an AdaptiveGoroutinePool has after a history of calls.
use data_middleware.Prelude.{
  ℕ, ◌≡◌, Bool, true, false, List, [], ◌∷◌, Option, none, some, string_eq, list_beq, list_beq_iff,
  if◌then◌else◌, Bool-cases, inl, inr, ltb, zero, suc,
}
use data_middleware.Prelude.Assoc.{lookup, insert, lookup-insert}
use data_middleware.Utils.Goroutines.{
  Ants, GoroutinePool, GoroutinePoolConfig, submit, answered, submit_begins, submit_fails,
  tune_capacity,
}
use data_middleware.Utils.Goroutines.Registry.{
  AdaptiveGoroutinePool, register_pool, submit_to_pool, tune_pool_capacity, close_pool, close_all,
}

pub data Call : Type 0 where
  register : List ℕ → GoroutinePoolConfig → Call
  submit_to : List ℕ → Call
  tune : List ℕ → ℕ → Call
  close_one : List ℕ → Call
  close_every : Call

module _ {P : Type 0} (ants : Ants P) where
  unfoldable pub apply : Call → AdaptiveGoroutinePool P → AdaptiveGoroutinePool P
  apply (register name config) a = (register_pool ants name config a).0
  apply (submit_to name) a = (submit_to_pool ants name a).0
  apply (tune name size) a = (tune_pool_capacity ants name size a).0
  apply (close_one name) a = (close_pool ants name a).0
  apply close_every a = (close_all ants a).0

  abbrev pub run : List Call → AdaptiveGoroutinePool P → AdaptiveGoroutinePool P
  run [] a = a
  run (c ∷ cs) a = run cs (apply c a)

  abbrev pub created : GoroutinePoolConfig → Option P → Option GoroutinePoolConfig
  created config none = none
  created config (some p) = some config

  abbrev pub or_created :
      GoroutinePoolConfig → Option GoroutinePoolConfig → Option GoroutinePoolConfig
  or_created config (some old) = some old
  or_created config none = created config (ants.new_pool config)

  -- The configuration that a name is registered with after a call, of that before.
  abbrev pub after : List ℕ → Call → Option GoroutinePoolConfig → Option GoroutinePoolConfig
  after name (register other config) o = if list_beq other name then or_created config o else o
  after name (submit_to other) o = o
  after name (tune other size) o = o
  after name (close_one other) o = if list_beq other name then none else o
  after name close_every o = none

  abbrev pub live : List ℕ → List Call → Option GoroutinePoolConfig → Option GoroutinePoolConfig
  live name [] o = o
  live name (c ∷ cs) o = live name cs (after name c o)

  -- A pool, where there is one, is open and has the monitor of its configuration.
  abbrev pub Fits : Option (GoroutinePool P) → Option GoroutinePoolConfig → Type 0
  Fits none none = Unit
  Fits (some gp) (some config) =
      (gp.stopped ≡ false) × (gp.monitor_enabled ≡ ltb 0 config.monitor_interval)
  Fits _ _ = ⊥

  -- What the maps have at every name.
  abbrev pub IsLike : (List ℕ → Option GoroutinePoolConfig) → AdaptiveGoroutinePool P → Type 0
  IsLike spec a =
      (name : List ℕ) → (lookup name a.configs ≡ spec name) × Fits (lookup name a.pools) (spec name)

  if-Fits :
      (b : Bool) (gp : GoroutinePool P) (o : Option (GoroutinePool P))
      (config : GoroutinePoolConfig) (spec : Option GoroutinePoolConfig)
      → Fits (some gp) (some config)
      → Fits o spec
      → Fits (if b then some gp else o) (if b then some config else spec)
  if-Fits true gp o config spec f g = f
  if-Fits false gp o config spec f g = g

  answered-Fits :
      (gp : GoroutinePool P) (r : P × Bool) (config : Option GoroutinePoolConfig)
      → Fits (some gp) config
      → Fits (some (answered gp r).0) config
  unfolding submit_fails
  answered-Fits gp (p, true) (some config) f = f
  answered-Fits gp (p, false) (some config) f = f
  answered-Fits gp (p, true) none f = f
  answered-Fits gp (p, false) none f = f

  pub submit-Fits :
      (gp : GoroutinePool P) (config : Option GoroutinePoolConfig)
      → Fits (some gp) config
      → Fits (some (submit ants gp).0) config
  unfolding submit submit_begins
  submit-Fits gp none f = f
  submit-Fits gp (some config) f =
      let begun = submit_begins gp in answered-Fits begun (ants.submit begun.pool) (some config) f

  pub tune-Fits :
      (size : ℕ) (gp : GoroutinePool P) (config : Option GoroutinePoolConfig)
      → Fits (some gp) config
      → Fits (some (tune_capacity ants size gp).0) config
  unfolding tune_capacity
  tune-Fits zero gp config f = f
  tune-Fits (suc n) gp none f = f
  tune-Fits (suc n) gp (some config) f = f

  -- A pool at one name is replaced by one that fits as well.
  pub replaced-Fits :
      (name j : List ℕ) (gp new : GoroutinePool P) (a : AdaptiveGoroutinePool P)
      (spec : Option GoroutinePoolConfig)
      → lookup name a.pools ≡ some gp
      → ((config : Option GoroutinePoolConfig) → Fits (some gp) config → Fits (some new) config)
      → Fits (lookup j a.pools) spec
      → Fits (lookup j (insert name new a.pools)) spec
  replaced-Fits name j gp new a spec there better f =
      rw (lookup-insert name j new a.pools) (elim (Bool-cases (list_beq name j)) [
        | inl hit ↦
            let keys : name ≡ j = (list_beq_iff name j).0 hit in
            let here : lookup j a.pools ≡ some gp = rw keys at there in
            rw hit (better spec (rw here at f))
        | inr miss ↦ rw miss f
      ])
