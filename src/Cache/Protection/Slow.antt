-- ===== src/Cache/Protection/Slow.antt =====
-- protection.go: the slow queries that CacheMonitor keeps.
use data_middleware.Prelude.{
  ℕ, ◌+◌, ◌-◌, ◌≤◌, ◌≡◌, refl, List, [], ◌∷◌, ◌++◌, length, drop, ltb, suc, zero, ap, if◌then◌else◌,
  arith, Bool-cases, inl, inr, length-append, drop-append_le, length-drop, ltb→lt, ◌∙◌, sym,
  drop_all,
}
use mathlib.Core.List.{append-nil, append_assoc}
use data_middleware.Cache.Protection.{
  CacheMonitor, new_cache_monitor, Operation, gets, sets, SlowQuery, record_slow_query, record_get,
  record_set,
}

-- A call of RecordGet or RecordSet: the key, the duration and the time.
pub record Call : Type 0 where
  pub operation : Operation
  pub key : List ℕ
  pub duration : ℕ
  pub time : ℕ

abbrev record_call : CacheMonitor → Operation → List ℕ → ℕ → ℕ → CacheMonitor
record_call m gets key duration time = record_get key duration time m
record_call m sets key duration time = record_set key duration time m

pub run : CacheMonitor → List Call → CacheMonitor
run m [] = m
run m (c ∷ calls) = run (record_call m c.operation c.key c.duration c.time) calls

abbrev limit : Operation → ℕ
limit gets = 100000000
limit sets = 50000000

-- The queries of a history that are over the limit of their operation.
unfoldable pub slow : List Call → List SlowQuery
slow [] = []
slow (c ∷ calls) =
    if ltb (limit c.operation) c.duration
    then record { key = c.key; operation = c.operation; duration = c.duration; time = c.time }
      ∷ slow calls
    else slow calls

-- The last hundred entries.
abbrev pub last_hundred : List SlowQuery → List SlowQuery
last_hundred qs = drop (length qs - 100) qs

drop-drop {ℓ} : {A : Type ℓ} → (n k : ℕ) (xs : List A) → drop n (drop k xs) ≡ drop (k + n) xs
drop-drop n zero xs = ap (λ k. drop k xs) (omega arith)
drop-drop zero (suc k) [] = sym (drop_all (suc k + zero) [] (omega arith))
drop-drop (suc n) (suc k) [] = sym (drop_all (suc k + suc n) [] (omega arith))
drop-drop n (suc k) (x ∷ xs) =
    let e : suc (k + n) ≡ suc k + n = omega arith in drop-drop n k xs ∙ ap (λ k. drop k (x ∷ xs)) e

-- To keep the last hundred at each step is to keep the last hundred in the end.
last_hundred-append :
    (qs : List SlowQuery) (q : SlowQuery)
    → (if ltb 100 (length (last_hundred qs ++ (q ∷ [])))
        then drop 1 (last_hundred qs ++ (q ∷ []))
        else last_hundred qs ++ (q ∷ []))
      ≡ last_hundred (qs ++ (q ∷ []))
last_hundred-append qs q =
    let e : drop (length qs - 100) (qs ++ (q ∷ [])) ≡ last_hundred qs ++ (q ∷ []) =
      drop-append_le (length qs - 100) qs (q ∷ []) (omega arith) in
    let l : length (last_hundred qs ++ (q ∷ [])) ≡ length qs - (length qs - 100) + 1 =
      omega (arith, length-append (last_hundred qs) (q ∷ []), length-drop (length qs - 100) qs) in
    elim (Bool-cases (ltb 100 (length (last_hundred qs ++ (q ∷ []))))) [
      | inl y ↦
          let k : length qs - 100 + 1 ≡ length (qs ++ (q ∷ [])) - 100 = omega (
            arith,
            length-append qs (q ∷ []),
            l,
            ltb→lt 100 (length (last_hundred qs ++ (q ∷ []))) y,
          ) in
          rw (y, ← e)
            (drop-drop 1 (length qs - 100) (qs ++ (q ∷ [])) ∙ ap (λ k. drop k (qs ++ (q ∷ []))) k)
      | inr n ↦
          let g : length (last_hundred qs ++ (q ∷ [])) ≤ 100 = ground arith in
          let k : length qs - 100 ≡ length (qs ++ (q ∷ [])) - 100 =
            omega (arith, length-append qs (q ∷ []), l, g) in
          rw (n, ← e) (ap (λ k. drop k (qs ++ (q ∷ []))) k)
    ]

record_call-slow :
    (seen : List SlowQuery) (m : CacheMonitor) (op : Operation) (key : List ℕ) (duration time : ℕ)
    → m.slow_queries ≡ last_hundred seen
    → (record_call m op key duration time).slow_queries ≡ (
        if ltb (limit op) duration
        then last_hundred
            (seen ++ (record { key = key; operation = op; duration = duration; time = time } ∷ []))
        else last_hundred seen)
unfolding record_get record_set record_slow_query
record_call-slow seen m gets key duration time h = elim (Bool-cases (ltb 100000000 duration)) [
  | inl y ↦ rw (y, h) (last_hundred-append seen _)
  | inr n ↦ rw n h
]
record_call-slow seen m sets key duration time h = elim (Bool-cases (ltb 50000000 duration)) [
  | inl y ↦ rw (y, h) (last_hundred-append seen _)
  | inr n ↦ rw n h
]

run-slow :
    (calls : List Call) (seen : List SlowQuery) (m : CacheMonitor)
    → m.slow_queries ≡ last_hundred seen
    → (run m calls).slow_queries ≡ last_hundred (seen ++ slow calls)
unfolding run slow
run-slow [] seen m h = rw (append-nil seen) h
run-slow (c ∷ calls) seen m h =
    let r = record_call-slow seen m c.operation c.key c.duration c.time h in
    elim (Bool-cases (ltb (limit c.operation) c.duration)) [
      | inl y ↦
          let query : SlowQuery = record {
            key = c.key;
            operation = c.operation;
            duration = c.duration;
            time = c.time;
          } in
          rw (y, ← append_assoc seen (query ∷ []) (slow calls))
            (run-slow calls (seen ++ (query ∷ [])) _ (rw y at r))
      | inr n ↦ rw n (run-slow calls seen _ (rw n at r))
    ]

-- After any history of RecordGet and RecordSet, a new CacheMonitor has the last hundred of the
-- calls that were over the limit, in their order.
pub slow_queries-run :
    (calls : List Call) → (run new_cache_monitor calls).slow_queries ≡ last_hundred (slow calls)
unfolding new_cache_monitor
slow_queries-run calls = run-slow calls [] new_cache_monitor refl
