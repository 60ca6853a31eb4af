-- ===== src/Cache/Tests.antt =====
-- The cache on concrete inputs, with an association list for each tier.
use data_middleware.Prelude.{
  ℕ, ◌≡◌, ◌≢◌, ◌⊎◌, refl, sym, ◌∙◌, true, false, List, [], ◌∷◌, list_beq, list_beq_iff,
  if◌then◌else◌, Option, none, some, arith, Bool-cases, inl, inr, string_eq,
}
use data_middleware.Prelude.Assoc.{lookup, insert, delete, lookup-insert, lookup-delete}
use data_middleware.Cache.Tier.{
  Cache, IsCache, Found, found, missed, cache_miss, tier_get, tier_set, tier_delete,
}
use data_middleware.Cache.Manager
use data_middleware.Cache.Manager.{Manager}
use data_middleware.Cache.Manager.Coherence
use data_middleware.Cache.Manager.Coherence.{get-written}
use data_middleware.Cache.Protection
use data_middleware.Cache.Protection.{
  Protection, new_protection, new_penetration_protection, new_avalanche_protection,
  new_cache_monitor, value, miss, broken, is_within, should_block, get_with_protection,
  set_with_protection, record_success, SlowQuery,
}
use data_middleware.Cache.Protection.Breaker
use data_middleware.Cache.Protection.Breaker.{should_block-after, get_with_protection_never_broken}
use data_middleware.Cache.Protection.Slow
use data_middleware.Cache.Protection.Slow.{slow_queries-run}
use data_middleware.Cache.Protection.Window.{AllMiss, NoneAfter, get_with_protection_blocks}

abbrev Entries : Type 0
Entries = List (List ℕ × List ℕ)

abbrev answer_of : Option (List ℕ) → Found
answer_of none = missed cache_miss
answer_of (some v) = found v

abbrev entries_cache : Cache Entries
entries_cache = record {
  get = λ k s. (s, answer_of (lookup k s));
  set = λ k v s. (insert k v s, none);
  set_with_ttl = λ k v ttl s. (insert k v s, none);
  delete = λ k s. (delete k s, none);
  exists_key = λ k s. elim (lookup k s) [ none ↦ false | some v ↦ true ];
  clear = λ s. ([], none);
}

answer_of-found : (o : Option (List ℕ)) (v : List ℕ) → answer_of o ≡ found v → o ≡ some v
answer_of-found none v e = absurd (cc)
answer_of-found (some w) v e = cc

set_read :
    (k v j w : List ℕ) (s : Entries)
    → lookup j (insert k v s) ≡ some w
    → ((k ≡ j) × (w ≡ v)) ⊎ (lookup j s ≡ some w)
set_read k v j w s e =
    let r = lookup-insert k j v s in
    elim (Bool-cases (list_beq k j)) [
      | inl y ↦
          let q : (if list_beq k j then some v else lookup j s) ≡ some w = sym r ∙ e in
          let z : some v ≡ some w = rw y at q in inl ((list_beq_iff k j).0 y, cc)
      | inr n ↦
          let q : (if list_beq k j then some v else lookup j s) ≡ some w = sym r ∙ e in
          inr (rw n at q)
    ]

delete_others :
    (k j w : List ℕ) (s : Entries) → lookup j (delete k s) ≡ some w → lookup j s ≡ some w
delete_others k j w s e =
    let r = lookup-delete k j s in
    let q : (if list_beq k j then none else lookup j s) ≡ some w = sym r ∙ e in
    elim (Bool-cases (list_beq k j)) [
      | inl y ↦ let z : none ≡ some w = rw y at q in absurd (cc)
      | inr n ↦ rw n at q
    ]

entries_cache-IsCache : IsCache entries_cache (λ s k. lookup k s)
entries_cache-IsCache = record {
  get_found = λ k v s e. answer_of-found (lookup k s) v e;
  get_others = λ k j v s e. e;
  set_stored = λ k v w s ok e.
      let r : lookup k (insert k v s) ≡ some v =
        lookup-insert k k v s ∙ rw ((list_beq_iff k k).1 refl) refl in
      cc;
  set_read = set_read;
  delete_removed = λ k s ok. lookup-delete k k s ∙ rw ((list_beq_iff k k).1 refl) refl;
  delete_others = delete_others;
  cleared = λ k s ok. refl;
}

-- The libraries, each with an association list.
abbrev two_tiers : Manager Entries Entries
two_tiers = record { l1 = some []; l2 = some [] }

abbrev calls : List Coherence.Call
calls =
    Coherence.sets (1 ∷ []) (5 ∷ [])
    ∷ Coherence.sets (1 ∷ []) (6 ∷ [])
    ∷ Coherence.deletes (2 ∷ [])
    ∷ Coherence.gets (1 ∷ [])
    ∷ []

get-written_example : Coherence.written (λ k. none) calls (1 ∷ []) ≡ some (6 ∷ [])
unfolding Coherence.written Coherence.run Coherence.after Coherence.AllSucceed Coherence.Succeeds
    Coherence.IsCoherent Manager.get Manager.set Manager.delete tier_get tier_set tier_delete
get-written_example =
    get-written entries_cache entries_cache (λ s k. lookup k s) (λ s k. lookup k s)
      entries_cache-IsCache entries_cache-IsCache (λ k. none) calls two_tiers (1 ∷ []) (6 ∷ [])
      ((λ k v e. e), (λ k v e. e)) ((refl, refl), ((refl, refl), ((refl, refl), (tt, tt)))) refl

get_with_protection_never_broken_example :
    (get_with_protection entries_cache entries_cache 9 1 (2 ∷ []) (
      Breaker.run entries_cache entries_cache
        (new_protection two_tiers)
        (Breaker.gets 1 1 (2 ∷ []) ∷ Breaker.sets 3 1 (2 ∷ []) (4 ∷ []) ∷ []))).1
    ≢ broken
get_with_protection_never_broken_example =
    get_with_protection_never_broken entries_cache entries_cache two_tiers
      (Breaker.gets 1 1 (2 ∷ []) ∷ Breaker.sets 3 1 (2 ∷ []) (4 ∷ []) ∷ []) 9 1 (2 ∷ [])

abbrev slow_calls : List Slow.Call
slow_calls =
    record { operation = Protection.gets; key = 1 ∷ []; duration = 100000001; time = 7 }
    ∷ record { operation = Protection.sets; key = 2 ∷ []; duration = 50000000; time = 8 }
    ∷ []

abbrev filled : Manager Entries Entries
filled = record { l1 = some (((2 ∷ []), (4 ∷ [])) ∷ []); l2 = none }

abbrev later_calls : List (ℕ × ℕ × Manager Entries Entries)
later_calls = (9, 1, filled) ∷ (13, 2, filled) ∷ []

get_with_protection_blocks_example :
    let q =
      get_with_protection entries_cache entries_cache 3 1 (2 ∷ []) (new_protection two_tiers) in
    (q.1 ≡ miss) × AllMiss entries_cache entries_cache (2 ∷ []) q.0 later_calls
unfolding should_block new_avalanche_protection new_penetration_protection Manager.get tier_get
    NoneAfter
get_with_protection_blocks_example =
    get_with_protection_blocks entries_cache entries_cache 3 1 (2 ∷ []) (new_protection two_tiers)
      later_calls refl refl (omega arith) refl (omega arith, (omega arith, tt))
