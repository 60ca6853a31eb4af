-- ===== src/Cache/Protection/Breaker.antt =====
-- protection.go: when the breaker of AvalancheProtection opens.
use data_middleware.Prelude.{
  ℕ, ◌+◌, ◌*◌, ◌≡◌, ◌≢◌, refl, true, false, List, [], ◌∷◌, ltb, Option, none, some, if◌then◌else◌,
  arith, Bool-cases, inl, inr, length, suc,
}
use data_middleware.Cache.Tier.{Cache, Found, found, missed, cache_miss, cache_disabled, other}
use data_middleware.Cache.Manager.{Manager}
use data_middleware.Cache.Manager
use data_middleware.Cache.Protection.{
  AvalancheProtection, new_avalanche_protection, is_within, should_block, record_success,
  record_failure, is_blocked_key, Protection, new_protection, broken, after_get,
  get_with_protection, set_with_protection,
}

-- The results that a breaker is told of.
pub data Outcome : Type 0 where
  succeeds : Outcome
  fails : ℕ → Outcome

pub after : AvalancheProtection → List Outcome → AvalancheProtection
after p [] = p
after p (succeeds ∷ outcomes) = after (record_success p) outcomes
after p (fails now ∷ outcomes) = after (record_failure now p) outcomes

-- The failures since the last success, and the time of the last of them.
unfoldable pub tally : ℕ → Option ℕ → List Outcome → ℕ × Option ℕ
tally n t [] = (n, t)
tally n t (succeeds ∷ outcomes) = tally 0 none outcomes
tally n t (fails now ∷ outcomes) = tally (n + 1) (some now) outcomes

-- A breaker with `total` requests that has seen `n` failures since the last success.
record Told (total n : ℕ) (t : Option ℕ) (p : AvalancheProtection) : Type 0 where
  total_is : p.total_requests ≡ total
  failed_is : p.failed_requests ≡ n
  last_is : p.last_failure_time ≡ t
  reset : n ≡ 0 → t ≡ none
  minimum_is : p.min_requests ≡ 10
  duration_is : p.block_duration ≡ 60000000000

record_success-Told :
    (total n : ℕ) (t : Option ℕ) (p : AvalancheProtection)
    → Told total n t p
    → Told (total + 1) 0 none (record_success p)
unfolding record_success
record_success-Told total n t p h = elim (Bool-cases (ltb 0 p.failed_requests)) [
  | inl some_failed ↦ rw some_failed (record {
    total_is = omega (arith, h.total_is);
    failed_is = refl;
    last_is = refl;
    reset = λ e. refl;
    minimum_is = h.minimum_is;
    duration_is = h.duration_is;
  })
  | inr none_failed ↦
      let z : p.failed_requests ≡ 0 = ground arith in
      let e : n ≡ 0 = omega (arith, h.failed_is, z) in
      let l : p.last_failure_time ≡ none = let q = h.reset e in let w = h.last_is in cc in
      rw none_failed (record {
        total_is = omega (arith, h.total_is);
        failed_is = z;
        last_is = l;
        reset = λ e. refl;
        minimum_is = h.minimum_is;
        duration_is = h.duration_is;
      })
]

record_failure-Told :
    (total n now : ℕ) (t : Option ℕ) (p : AvalancheProtection)
    → Told total n t p
    → Told (total + 1) (n + 1) (some now) (record_failure now p)
unfolding record_failure
record_failure-Told total n now t p h = record {
  total_is = omega (arith, h.total_is);
  failed_is = omega (arith, h.failed_is);
  last_is = refl;
  reset = λ e. absurd (omega (arith, e));
  minimum_is = h.minimum_is;
  duration_is = h.duration_is;
}

after-Told :
    (outcomes : List Outcome) (total n : ℕ) (t : Option ℕ) (p : AvalancheProtection)
    → Told total n t p
    → Told
        (total + length outcomes)
        (tally n t outcomes).0
        (tally n t outcomes).1
        (after p outcomes)
unfolding after tally
after-Told [] total n t p h = record {
  total_is = omega (arith, h.total_is);
  failed_is = h.failed_is;
  last_is = h.last_is;
  reset = h.reset;
  minimum_is = h.minimum_is;
  duration_is = h.duration_is;
}
after-Told (succeeds ∷ outcomes) total n t p h =
    let e : total + 1 + length outcomes ≡ total + suc (length outcomes) = omega arith in
    rw (← e) (
      after-Told outcomes (total + 1) 0 none (record_success p) (record_success-Told total n t p h))
after-Told (fails now ∷ outcomes) total n t p h =
    let e : total + 1 + length outcomes ≡ total + suc (length outcomes) = omega arith in
    rw (← e) (
      after-Told outcomes (total + 1) (n + 1) (some now) (record_failure now p)
        (record_failure-Told total n now t p h))

new_avalanche_protection-Told : Told 0 0 none new_avalanche_protection
unfolding new_avalanche_protection
new_avalanche_protection-Told = record {
  total_is = refl;
  failed_is = refl;
  last_is = refl;
  reset = λ e. refl;
  minimum_is = refl;
  duration_is = refl;
}

-- A new breaker that was told of `outcomes` is open at `now` exactly when the last of them is a
-- failure of less than a minute before, or when there were at least ten and more than half as
-- many failures after the last success as there were outcomes altogether. So one failure opens
-- it, whatever the failure rate and the least number of requests are.
pub should_block-after :
    (outcomes : List Outcome) (now : ℕ)
    → should_block now (after new_avalanche_protection outcomes) ≡ (
        if is_within now 60000000000 (tally 0 none outcomes).1
        then true
        else if ltb (length outcomes) 10
        then false
        else ltb (length outcomes) (2 * (tally 0 none outcomes).0))
unfolding should_block
should_block-after outcomes now =
    let h = after-Told outcomes 0 0 none new_avalanche_protection new_avalanche_protection-Told in
    let e : (after new_avalanche_protection outcomes).total_requests ≡ length outcomes =
      omega (arith, h.total_is) in
    rw (e, h.failed_is, h.last_is, h.minimum_is, h.duration_is) refl

-- The calls on a Protection, each with its time and its duration.
pub data Call : Type 0 where
  gets : ℕ → ℕ → List ℕ → Call
  sets : ℕ → ℕ → List ℕ → List ℕ → Call

IsQuiet : AvalancheProtection → Type 0
IsQuiet p = (p.failed_requests ≡ 0) × (p.last_failure_time ≡ none)

should_block-IsQuiet : (now : ℕ) (p : AvalancheProtection) → IsQuiet p → should_block now p ≡ false
unfolding should_block IsQuiet
should_block-IsQuiet now p (f, l) = rw (f, l) (ground arith)

record_success-IsQuiet : (p : AvalancheProtection) → IsQuiet p → IsQuiet (record_success p)
unfolding record_success IsQuiet
record_success-IsQuiet p (f, l) = rw f (refl, l)

module _ {S T : Type 0} (c : Cache S) (d : Cache T) where
  pub run : Protection S T → List Call → Protection S T
  run p [] = p
  run p (gets now duration key ∷ calls) = run (get_with_protection c d now duration key p).0 calls
  run p (sets now duration key v ∷ calls) =
      run (set_with_protection c d now duration key v p).0 calls

  after_get-IsQuiet :
      (now : ℕ) (key : List ℕ) (p : Protection S T) (r : Manager S T × Found)
      → IsQuiet p.avalanche
      → IsQuiet (after_get c d now key p r).0.avalanche × ((after_get c d now key p r).1 ≢ broken)
  after_get-IsQuiet now key p (m, found v) q = (record_success-IsQuiet p.avalanche q, λ e. cc)
  after_get-IsQuiet now key p (m, missed cache_miss) q = (q, λ e. cc)
  after_get-IsQuiet now key p (m, missed cache_disabled) q = (q, λ e. cc)
  after_get-IsQuiet now key p (m, missed other) q = (q, λ e. cc)

  get_with_protection-IsQuiet :
      (now duration : ℕ) (key : List ℕ) (p : Protection S T)
      → IsQuiet p.avalanche
      → IsQuiet (get_with_protection c d now duration key p).0.avalanche
        × ((get_with_protection c d now duration key p).1 ≢ broken)
  unfolding get_with_protection
  get_with_protection-IsQuiet now duration key p q =
      elim (Bool-cases (is_blocked_key now key p.penetration).1) [
        | inl y ↦ rw y (q, λ e. cc)
        | inr n ↦
            rw (n, should_block-IsQuiet now p.avalanche q)
              (after_get-IsQuiet now key
                (record p { penetration = (is_blocked_key now key p.penetration).0 })
                (Manager.get c d key p.manager) q)
      ]

  run-IsQuiet :
      (calls : List Call) (p : Protection S T)
      → IsQuiet p.avalanche
      → IsQuiet (run p calls).avalanche
  unfolding run set_with_protection
  run-IsQuiet [] p q = q
  run-IsQuiet (gets now duration key ∷ calls) p q =
      run-IsQuiet calls _ (get_with_protection-IsQuiet now duration key p q).0
  run-IsQuiet (sets now duration key v ∷ calls) p q = run-IsQuiet calls _ q

  -- After any history of GetWithProtection and SetWithProtection on a new Protection, over any
  -- two tiers, however often they fail, GetWithProtection never returns the error of the open
  -- breaker: no call tells the breaker of a failure.
  pub get_with_protection_never_broken :
      (m : Manager S T) (calls : List Call) (now duration : ℕ) (key : List ℕ)
      → (get_with_protection c d now duration key (run (new_protection m) calls)).1 ≢ broken
  unfolding IsQuiet new_avalanche_protection
  get_with_protection_never_broken m calls now duration key =
      (get_with_protection-IsQuiet now duration key _
        (run-IsQuiet calls (new_protection m) (refl, refl))).1
