-- ===== src/Utils/Goroutines/Registry/Steps.antt =====
-- goroutine_pool.go: what each call does to the pools of an AdaptiveGoroutinePool.
use data_middleware.Prelude.{
  ℕ, ◌≡◌, refl, sym, ◌∙◌, List, [], ◌∷◌, Option, none, some, string_eq, list_beq, list_beq_iff,
  Bool-cases, inl, inr,
}
use data_middleware.Prelude.Assoc.{lookup, lookup-insert, lookup-delete}
use data_middleware.Utils.Goroutines.{
  Ants, GoroutinePool, GoroutinePoolConfig, new_goroutine_pool, started, submit, tune_capacity,
}
use data_middleware.Utils.Goroutines.Registry.{
  AdaptiveGoroutinePool, registered, register_absent, register_pool, submit_found, submit_to_pool,
  tune_found, tune_pool_capacity, close_found, close_pool, close_all,
}
use data_middleware.Utils.Goroutines.Registry.Live.{
  Call, register, submit_to, tune, close_one, close_every, apply, run, or_created, after, live,
  Fits, IsLike, replaced-Fits, submit-Fits, tune-Fits,
}

module _ {P : Type 0} (ants : Ants P) where
  -- The specification where a registration leaves the maps alone.
  spec_kept :
      (name j : List ℕ) (config : GoroutinePoolConfig) (spec : List ℕ → Option GoroutinePoolConfig)
      → or_created ants config (spec name) ≡ spec name
      → after ants j (register name config) (spec j) ≡ spec j
  spec_kept name j config spec e = elim (Bool-cases (list_beq name j)) [
    | inl hit ↦ let keys : name ≡ j = (list_beq_iff name j).0 hit in rw hit (rw keys at e)
    | inr miss ↦ rw miss refl
  ]

  unchanged :
      (name : List ℕ) (config : GoroutinePoolConfig) (spec : List ℕ → Option GoroutinePoolConfig)
      (a : AdaptiveGoroutinePool P)
      → or_created ants config (spec name) ≡ spec name
      → IsLike ants spec a
      → IsLike ants (λ j. after ants j (register name config) (spec j)) a
  unchanged name config spec a e like j =
      let same = spec_kept name j config spec e in ((like j).0 ∙ sym same, rw same ((like j).1))

  kept_some :
      (config : GoroutinePoolConfig) (gp : GoroutinePool P) (o : Option GoroutinePoolConfig)
      → Fits ants (some gp) o
      → or_created ants config o ≡ o
  kept_some config gp none f = absurd f
  kept_some config gp (some old) f = refl

  pub absent : (o : Option GoroutinePoolConfig) → Fits ants none o → o ≡ none
  absent none f = refl
  absent (some config) f = absurd f

  register-IsLike :
      (name : List ℕ) (config : GoroutinePoolConfig) (spec : List ℕ → Option GoroutinePoolConfig)
      (a : AdaptiveGoroutinePool P) (o : Option (GoroutinePool P))
      → lookup name a.pools ≡ o
      → IsLike ants spec a
      → IsLike ants
          (λ j. after ants j (register name config) (spec j))
          (register_absent ants name config a o).0
  unfolding new_goroutine_pool
  register-IsLike name config spec a (some gp) e like =
      unchanged name config spec a (kept_some config gp (spec name) (rw e at ((like name).1))) like
  register-IsLike name config spec a none e like = by_new (ants.new_pool config) refl
    where
      gone : spec name ≡ none
      gone = absent (spec name) (rw e at ((like name).1))

      by_new :
          (n : Option P)
          → ants.new_pool config ≡ n
          → IsLike ants
              (λ j. after ants j (register name config) (spec j))
              (registered name config a (started ants config n)).0
      by_new none no_pool = unchanged name config spec a (rw (gone, no_pool) refl) like
      by_new (some p) made = λ j. elim (Bool-cases (list_beq name j)) [
        | inl hit ↦
            let keys : name ≡ j = (list_beq_iff name j).0 hit in
            let gone_j : spec j ≡ none = rw keys at gone in
            (
              lookup-insert name j config a.configs ∙ rw (hit, gone_j, made) refl,
              rw (lookup-insert name j _ a.pools) (rw (hit, gone_j, made) (refl, refl)),
            )
        | inr miss ↦ (
          lookup-insert name j config a.configs ∙ rw miss ((like j).0),
          rw (lookup-insert name j _ a.pools) (rw miss ((like j).1)),
        )
      ]

  submit-IsLike :
      (name : List ℕ) (spec : List ℕ → Option GoroutinePoolConfig) (a : AdaptiveGoroutinePool P)
      (o : Option (GoroutinePool P))
      → lookup name a.pools ≡ o
      → IsLike ants spec a
      → IsLike ants spec (submit_found ants name a o).0
  submit-IsLike name spec a none e like j = like j
  submit-IsLike name spec a (some gp) e like j = (
    (like j).0,
    replaced-Fits ants name j gp (submit ants gp).0 a (spec j) e (submit-Fits ants gp) (like j).1,
  )

  tune-IsLike :
      (name : List ℕ) (size : ℕ) (spec : List ℕ → Option GoroutinePoolConfig)
      (a : AdaptiveGoroutinePool P) (o : Option (GoroutinePool P))
      → lookup name a.pools ≡ o
      → IsLike ants spec a
      → IsLike ants spec (tune_found ants name size a o).0
  tune-IsLike name size spec a none e like j = like j
  tune-IsLike name size spec a (some gp) e like j = (
    (like j).0,
    replaced-Fits ants name j gp (tune_capacity ants size gp).0 a (spec j) e
        (tune-Fits ants size gp) (like j).1,
  )

  close-IsLike :
      (name : List ℕ) (spec : List ℕ → Option GoroutinePoolConfig) (a : AdaptiveGoroutinePool P)
      (o : Option (GoroutinePool P))
      → lookup name a.pools ≡ o
      → IsLike ants spec a
      → IsLike ants (λ j. after ants j (close_one name) (spec j)) (close_found ants name a o).0
  close-IsLike name spec a none e like j = elim (Bool-cases (list_beq name j)) [
    | inl hit ↦
        let keys : name ≡ j = (list_beq_iff name j).0 hit in
        let here : lookup j a.pools ≡ none = rw keys at e in
        let gone : spec j ≡ none = absent (spec j) (rw here at (like j).1) in
        rw (hit, here) ((like j).0 ∙ gone, tt)
    | inr miss ↦ rw miss (like j)
  ]
  close-IsLike name spec a (some gp) e like j = elim (Bool-cases (list_beq name j)) [
    | inl hit ↦ (
      lookup-delete name j a.configs ∙ rw hit refl,
      rw (lookup-delete name j a.pools) (rw hit tt),
    )
    | inr miss ↦ (
      lookup-delete name j a.configs ∙ rw miss (like j).0,
      rw (lookup-delete name j a.pools) (rw miss (like j).1),
    )
  ]

  apply-IsLike :
      (c : Call) (spec : List ℕ → Option GoroutinePoolConfig) (a : AdaptiveGoroutinePool P)
      → IsLike ants spec a
      → IsLike ants (λ j. after ants j c (spec j)) (apply ants c a)
  unfolding apply register_pool submit_to_pool tune_pool_capacity close_pool close_all
  apply-IsLike (register name config) spec a like =
      register-IsLike name config spec a (lookup name a.pools) refl like
  apply-IsLike (submit_to name) spec a like =
      submit-IsLike name spec a (lookup name a.pools) refl like
  apply-IsLike (tune name size) spec a like =
      tune-IsLike name size spec a (lookup name a.pools) refl like
  apply-IsLike (close_one name) spec a like =
      close-IsLike name spec a (lookup name a.pools) refl like
  apply-IsLike close_every spec a like = λ j. (refl, tt)

  pub run-IsLike :
      (calls : List Call) (spec : List ℕ → Option GoroutinePoolConfig) (a : AdaptiveGoroutinePool P)
      → IsLike ants spec a
      → IsLike ants (λ j. live ants j calls (spec j)) (run ants calls a)
  run-IsLike [] spec a like = like
  run-IsLike (c ∷ calls) spec a like =
      run-IsLike calls (λ j. after ants j c (spec j)) (apply ants c a) (apply-IsLike c spec a like)
