-- ===== src/Utils/Errors/Stats.antt =====
-- errors.go: what an ErrorHandler counts.
use data_middleware.Prelude.{
  ℕ, zero, suc, ◌+◌, ◌≡◌, refl, sym, ap, ◌∙◌, true, List, [], ◌∷◌, Option, none, some, ◌==◌,
  if◌then◌else◌, arith, nat_eq, Bool-cases, inl, inr, ==_iff,
}
use data_middleware.Prelude.Assoc.{lookup, lookup-insert}
use data_middleware.Utils.Errors.{
  Error, wrap, ErrorHandler, init, next_count, record_error, get_error_stats, reset_error_stats,
  handle, handle_with_code, new_with_cause,
}

pub data ErrorCall (D E : Type 0) : Type 0 where
  handles : List ℕ → Option (Error D E) → ErrorCall D E
  handles_with : Option (Error D E) → ℕ → List ℕ → ErrorCall D E
  resets : ErrorCall D E

unfoldable pub occurrences : ℕ → List ℕ → ℕ
occurrences c [] = 0
occurrences c (d ∷ codes) = if d == c then occurrences c codes + 1 else occurrences c codes

-- A counter is there from the first error on.
abbrev pub counter : ℕ → Option ℕ
counter zero = none
counter (suc n) = some (suc n)

module _ {D E : Type 0} where
  unfoldable pub after : ErrorCall D E → ErrorHandler → ErrorHandler
  after (handles internal e) h = (handle internal e h).0
  after (handles_with e code message) h = (handle_with_code e code message h).0
  after resets h = reset_error_stats h

  unfoldable pub run : List (ErrorCall D E) → ErrorHandler → ErrorHandler
  run [] h = h
  run (call ∷ calls) h = run calls (after call h)

  -- The codes of the errors of a history since its last reset, those of before being `codes`: that
  -- of a business error is its own, and that of any other the one it is given, or 1001.
  unfoldable pub codes_since : List (ErrorCall D E) → List ℕ → List ℕ
  codes_since [] codes = codes
  codes_since (handles internal none ∷ calls) codes = codes_since calls codes
  codes_since (handles internal (some (Error.business e)) ∷ calls) codes =
      codes_since calls (e.code ∷ codes)
  codes_since (handles internal (some (Error.foreign e)) ∷ calls) codes =
      codes_since calls (1001 ∷ codes)
  codes_since (handles_with none code message ∷ calls) codes = codes_since calls codes
  codes_since (handles_with (some (Error.business e)) code message ∷ calls) codes =
      codes_since calls (e.code ∷ codes)
  codes_since (handles_with (some (Error.foreign e)) code message ∷ calls) codes =
      codes_since calls (code ∷ codes)
  codes_since (resets ∷ calls) codes = codes_since calls []

record Tallies (h : ErrorHandler) (codes : List ℕ) : Type 0 where
  counting : h.enable_stats ≡ true
  counted : (c : ℕ) → lookup c h.error_stats ≡ counter (occurrences c codes)

next_count-counter : (n : ℕ) → next_count (counter n) ≡ n + 1
next_count-counter zero = omega arith
next_count-counter (suc n) = refl

counter_next : (n : ℕ) → counter (n + 1) ≡ some (n + 1)
counter_next n = let e : suc n ≡ n + 1 = omega arith in rw (← e) refl

record_error-Tallies :
    (code : ℕ) (codes : List ℕ) (h : ErrorHandler)
    → Tallies h codes
    → Tallies (record_error code h) (code ∷ codes)
unfolding record_error occurrences
record_error-Tallies code codes h t = rw (t.counting) (record {
  counting = refl;
  counted = λ c.
      let next = next_count (lookup code h.error_stats) in
      lookup-insert code c next h.error_stats ∙ elim (Bool-cases (code == c)) [
        | inl y ↦
            let same : code ≡ c = (==_iff code c).0 y in
            let counts : next ≡ occurrences code codes + 1 =
              ap next_count (t.counted code) ∙ next_count-counter (occurrences code codes) in
            rw y (
              ap some counts
              ∙ sym (counter_next (occurrences code codes))
              ∙ ap (λ d. counter (occurrences d codes + 1)) same)
        | inr n ↦ rw n (t.counted c)
      ];
})

module _ {D E : Type 0} where
  run-Tallies :
      (calls : List (ErrorCall D E)) (codes : List ℕ) (h : ErrorHandler)
      → Tallies h codes
      → Tallies (run calls h) (codes_since calls codes)
  unfolding run after codes_since handle handle_with_code wrap new_with_cause reset_error_stats
      occurrences
  run-Tallies [] codes h t = t
  run-Tallies (handles internal none ∷ calls) codes h t = run-Tallies calls codes h t
  run-Tallies (handles internal (some (Error.business e)) ∷ calls) codes h t =
      run-Tallies calls (e.code ∷ codes) (record_error e.code h)
        (record_error-Tallies e.code codes h t)
  run-Tallies (handles internal (some (Error.foreign e)) ∷ calls) codes h t =
      run-Tallies calls (1001 ∷ codes) (record_error 1001 h) (record_error-Tallies 1001 codes h t)
  run-Tallies (handles_with none code message ∷ calls) codes h t = run-Tallies calls codes h t
  run-Tallies (handles_with (some (Error.business e)) code message ∷ calls) codes h t =
      run-Tallies calls (e.code ∷ codes) (record_error e.code h)
        (record_error-Tallies e.code codes h t)
  run-Tallies (handles_with (some (Error.foreign e)) code message ∷ calls) codes h t =
      run-Tallies calls (code ∷ codes) (record_error code h) (record_error-Tallies code codes h t)
  run-Tallies (resets ∷ calls) codes h t =
      run-Tallies calls [] (reset_error_stats h)
        (record { counting = t.counting; counted = λ c. refl })

  -- After any history of Handle, HandleWithCode and ResetErrorStats on a new handler, the statistics
  -- have for each code the number of the errors since the last reset that had it, and nothing where
  -- there were none. The code of a business error is its own, whatever code it is handled with; any
  -- other error has the code it is handled with, or 1001, and an error that is nil has none.
  pub get_error_stats-run :
      (calls : List (ErrorCall D E)) (c : ℕ)
      → lookup c (get_error_stats (run calls init)) ≡ counter (occurrences c (codes_since calls []))
  unfolding occurrences
  get_error_stats-run calls c =
      (run-Tallies calls [] init (record { counting = refl; counted = λ d. refl })).counted c
