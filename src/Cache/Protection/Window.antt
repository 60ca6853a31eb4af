-- ===== src/Cache/Protection/Window.antt =====
-- protection.go: the keys that PenetrationProtection blocks, and how long.
use data_middleware.Prelude.{
  ◌∙◌, ℕ, ◌+◌, ◌-◌, ◌≤◌, ◌<◌, ◌≡◌, refl, true, false, List, [], ◌∷◌, length, ltb, leb, none, some,
  arith, Bool-cases, inl, inr, string_eq, Option-cases, list_beq_iff,
}
use data_middleware.Prelude.Assoc.{
  lookup, insert, delete, lookup-insert, lookup-delete, length-insert-le, length-delete-le,
}
use data_middleware.Cache.Tier.{Cache, Found, found, missed, cache_miss, cache_disabled, other}
use data_middleware.Cache.Manager
use data_middleware.Cache.Manager.{Manager, get_l1, get_l2, get}
use data_middleware.Cache.Protection.{
  PenetrationProtection, is_blocked_key, record_miss, clear_blocked_key, valid_keys,
  penetration_stats, should_block, Protection, value, miss, after_get, get_with_protection,
  set_with_protection,
}

-- The calls on a PenetrationProtection, with their times.
pub data Call : Type 0 where
  asks misses : ℕ → List ℕ → Call
  clears : List ℕ → Call
  reports : ℕ → Call

pub after : PenetrationProtection → Call → PenetrationProtection
after p (asks now key) = (is_blocked_key now key p).0
after p (misses now key) = record_miss now key p
after p (clears key) = clear_blocked_key key p
after p (reports now) = (penetration_stats now p).0

pub run : PenetrationProtection → List Call → PenetrationProtection
run p [] = p
run p (call ∷ calls) = run (after p call) calls

-- The configuration is that of `config`, and no more keys are blocked than it allows.
pub record IsValid (config p : PenetrationProtection) : Type 0 where
  pub duration_is : p.block_duration ≡ config.block_duration
  pub maximum_is : p.max_blocked_keys ≡ config.max_blocked_keys
  pub bounded : length p.blocked_keys ≤ config.max_blocked_keys

length-valid_keys :
    (now duration : ℕ) (m : List (List ℕ × ℕ)) → length (valid_keys now duration m) ≤ length m
unfolding valid_keys
length-valid_keys now duration [] = omega arith
length-valid_keys now duration ((k, t) ∷ m) = ground (arith, length-valid_keys now duration m)

is_blocked_key_absent :
    (now : ℕ) (key : List ℕ) (p : PenetrationProtection)
    → lookup key p.blocked_keys ≡ none
    → is_blocked_key now key p ≡ (p, false)
unfolding is_blocked_key
is_blocked_key_absent now key p absent = rw (absent, is_blocked_key) refl

is_blocked_key_expired :
    (now t : ℕ) (key : List ℕ) (p : PenetrationProtection)
    → lookup key p.blocked_keys ≡ some t
    → ltb p.block_duration (now - t) ≡ true
    → is_blocked_key now key p ≡ (record p { blocked_keys = delete key p.blocked_keys }, false)
unfolding is_blocked_key
is_blocked_key_expired now t key p present expired = rw (present, expired, is_blocked_key) refl

is_blocked_key_valid :
    (now t : ℕ) (key : List ℕ) (p : PenetrationProtection)
    → lookup key p.blocked_keys ≡ some t
    → ltb p.block_duration (now - t) ≡ false
    → is_blocked_key now key p ≡ (p, true)
unfolding is_blocked_key
is_blocked_key_valid now t key p present valid = rw (present, valid, is_blocked_key) refl

is_blocked_key-IsValid :
    (config p : PenetrationProtection) (now : ℕ) (key : List ℕ)
    → IsValid config p
    → IsValid config (is_blocked_key now key p).0
is_blocked_key-IsValid config p now key v = elim (Option-cases (lookup key p.blocked_keys)) [
  | inl absent ↦ rw (is_blocked_key_absent now key p absent) v
  | inr (t, present) ↦ elim (Bool-cases (ltb p.block_duration (now - t))) [
    | inl expired ↦ rw (is_blocked_key_expired now t key p present expired) (record {
      duration_is = v.duration_is;
      maximum_is = v.maximum_is;
      bounded = omega (arith, length-delete-le {0, 0} key p.blocked_keys, v.bounded);
    })
    | inr valid ↦ rw (is_blocked_key_valid now t key p present valid) v
  ]
]

record_miss-IsValid :
    (config p : PenetrationProtection) (now : ℕ) (key : List ℕ)
    → IsValid config p
    → IsValid config (record_miss now key p)
unfolding record_miss
record_miss-IsValid config p now key v =
    elim (Bool-cases (leb p.max_blocked_keys (length p.blocked_keys))) [
      | inl full ↦ rw full v
      | inr room ↦
          let r : length p.blocked_keys < p.max_blocked_keys = ground arith in
          rw room (record {
            duration_is = v.duration_is;
            maximum_is = v.maximum_is;
            bounded =
                omega (arith, length-insert-le {0, 0} key now p.blocked_keys, v.maximum_is, r);
          })
    ]

after-IsValid :
    (config p : PenetrationProtection) (call : Call)
    → IsValid config p
    → IsValid config (after p call)
unfolding after clear_blocked_key penetration_stats
after-IsValid config p (asks now key) v = is_blocked_key-IsValid config p now key v
after-IsValid config p (misses now key) v = record_miss-IsValid config p now key v
after-IsValid config p (clears key) v = record {
  duration_is = v.duration_is;
  maximum_is = v.maximum_is;
  bounded = omega (arith, length-delete-le {0, 0} key p.blocked_keys, v.bounded);
}
after-IsValid config p (reports now) v = record {
  duration_is = v.duration_is;
  maximum_is = v.maximum_is;
  bounded = omega (arith, length-valid_keys now p.block_duration p.blocked_keys, v.bounded);
}

-- Any history of calls on a PenetrationProtection within its limit keeps its configuration, and
-- never leaves more keys blocked than the limit allows.
pub run-IsValid :
    (config : PenetrationProtection) (calls : List Call) (p : PenetrationProtection)
    → IsValid config p
    → IsValid config (run p calls)
unfolding run
run-IsValid config [] p v = v
run-IsValid config (call ∷ calls) p v =
    run-IsValid config calls (after p call) (after-IsValid config p call v)

lookup-delete_same : (key : List ℕ) (m : List (List ℕ × ℕ)) → lookup key (delete key m) ≡ none
lookup-delete_same key m = rw (lookup-delete key key m, (list_beq_iff key key).1 refl) refl

lookup-insert_same :
    (key : List ℕ) (now : ℕ) (m : List (List ℕ × ℕ)) → lookup key (insert key now m) ≡ some now
lookup-insert_same key now m = rw (lookup-insert key key now m, (list_beq_iff key key).1 refl) refl

module _ {S T : Type 0} (c : Cache S) (d : Cache T) where
  after_get_found :
      (now : ℕ) (key w : List ℕ) (p : Protection S T) (r : Manager S T × Found)
      → r.1 ≡ found w
      → (after_get c d now key p r).1 ≡ value w
  after_get_found now key w p (m, found v) e = cc
  after_get_found now key w p (m, missed x) e = absurd (cc)

  after_get_missed :
      (now : ℕ) (key : List ℕ) (p : Protection S T) (r : Manager S T × Found)
      → r.1 ≡ missed cache_miss
      → ((after_get c d now key p r).1 ≡ miss)
        × ((after_get c d now key p r).0.penetration ≡ record_miss now key p.penetration)
  after_get_missed now key p (m, found v) e = absurd (cc)
  after_get_missed now key p (m, missed cache_miss) e = (refl, refl)
  after_get_missed now key p (m, missed cache_disabled) e = absurd (cc)
  after_get_missed now key p (m, missed other) e = absurd (cc)

  -- A call for a key that is blocked asks neither tier.
  get_with_protection_blocked :
      (now duration : ℕ) (key : List ℕ) (p : Protection S T)
      → is_blocked_key now key p.penetration ≡ (p.penetration, true)
      → ((get_with_protection c d now duration key p).1 ≡ miss)
        × ((get_with_protection c d now duration key p).0.manager ≡ p.manager)
  unfolding get_with_protection
  get_with_protection_blocked now duration key p blocked =
      rw (blocked, get_with_protection) (refl, refl)

  -- A call with the breaker closed, for a key that is not blocked, is decided by the manager.
  get_with_protection_open :
      (now duration : ℕ) (key : List ℕ) (p : Protection S T) (r : Manager S T × Found)
      → lookup key p.penetration.blocked_keys ≡ none
      → should_block now p.avalanche ≡ false
      → get c d key p.manager ≡ r
      → ((get_with_protection c d now duration key p).1 ≡ (after_get c d now key p r).1)
        × ((get_with_protection c d now duration key p).0.penetration
            ≡ (after_get c d now key p r).0.penetration)
  unfolding get_with_protection
  get_with_protection_open now duration key p r absent closed finds =
      rw (is_blocked_key_absent now key p.penetration absent, closed, finds, get_with_protection)
        (refl, refl)

  -- Where the breaker is closed, a Get that follows a Set of the same key by SetWithProtection
  -- returns the value that the manager finds then, whether or not the key was blocked before.
  pub get_with_protection-set_with_protection :
      (now duration later takes : ℕ) (key v w : List ℕ) (p : Protection S T)
      → should_block later p.avalanche ≡ false
      → (get c d key (Manager.set c d key v p.manager).0).1 ≡ found w
      → (get_with_protection c d later takes key (set_with_protection c d now duration key v p).0).1
        ≡ value w
  unfolding set_with_protection clear_blocked_key
  get_with_protection-set_with_protection now duration later takes key v w p closed finds =
      (get_with_protection_open later takes key (set_with_protection c d now duration key v p).0 _
        (lookup-delete_same key p.penetration.blocked_keys) closed refl).0
      ∙ after_get_found later key w (set_with_protection c d now duration key v p).0 _ finds

  -- Each of the calls for the key, at its time and with the manager as it has become by then, misses
  -- and asks neither tier.
  pub AllMiss : List ℕ → Protection S T → List (ℕ × ℕ × Manager S T) → Type 0
  AllMiss key p [] = Unit
  AllMiss key p ((later, takes, m) ∷ calls) =
      ((get_with_protection c d later takes key (record p { manager = m })).1 ≡ miss)
      × ((get_with_protection c d later takes key (record p { manager = m })).0.manager ≡ m)
      × AllMiss key (get_with_protection c d later takes key (record p { manager = m })).0 calls

  -- The calls are made at `last` at the latest.
  unfoldable pub NoneAfter : ℕ → List (ℕ × ℕ × Manager S T) → Type 0
  NoneAfter last [] = Unit
  NoneAfter last ((later, takes, m) ∷ calls) = (later ≤ last) × NoneAfter last calls

  get_with_protection_keeps :
      (now duration : ℕ) (key : List ℕ) (p : Protection S T)
      → is_blocked_key now key p.penetration ≡ (p.penetration, true)
      → (get_with_protection c d now duration key p).0.penetration ≡ p.penetration
  unfolding get_with_protection
  get_with_protection_keeps now duration key p blocked = rw (blocked, get_with_protection) refl

  blocked-AllMiss :
      (now : ℕ) (key : List ℕ) (b : PenetrationProtection) (calls : List (ℕ × ℕ × Manager S T))
      (p : Protection S T)
      → lookup key b.blocked_keys ≡ some now
      → p.penetration ≡ b
      → NoneAfter (now + b.block_duration) calls
      → AllMiss key p calls
  unfolding AllMiss NoneAfter
  blocked-AllMiss now key b [] p there same soon = tt
  blocked-AllMiss now key b ((later, takes, m) ∷ calls) p there same (l, soon) =
      let q : Protection S T = record p { manager = m } in
      let t : ltb b.block_duration (later - now) ≡ false = ground arith in
      let blocked : is_blocked_key later key q.penetration ≡ (q.penetration, true) =
        rw same (is_blocked_key_valid later now key b there t) in
      let g = get_with_protection_blocked later takes key q blocked in
      (
        g.0,
        g.1,
        blocked-AllMiss now key b calls _ there
            (get_with_protection_keeps later takes key q blocked ∙ same) soon,
      )

  -- Where the breaker is closed, the key is not blocked, there is room for it, and the manager
  -- misses it, GetWithProtection misses. From then on each of the calls of GetWithProtection for the
  -- key up to the end of the block's duration misses and asks neither tier, whatever the manager has
  -- come to hold, if no other call on the protection comes between them.
  pub get_with_protection_blocks :
      (now duration : ℕ) (key : List ℕ) (p : Protection S T) (calls : List (ℕ × ℕ × Manager S T))
      → should_block now p.avalanche ≡ false
      → lookup key p.penetration.blocked_keys ≡ none
      → length p.penetration.blocked_keys < p.penetration.max_blocked_keys
      → (get c d key p.manager).1 ≡ missed cache_miss
      → NoneAfter (now + p.penetration.block_duration) calls
      → ((get_with_protection c d now duration key p).1 ≡ miss)
        × AllMiss key (get_with_protection c d now duration key p).0 calls
  unfolding record_miss
  get_with_protection_blocks now duration key p calls closed absent room misses_ soon =
      let r : leb p.penetration.max_blocked_keys (length p.penetration.blocked_keys) ≡ false =
        ground arith in
      let o =
        get_with_protection_open now duration key p (get c d key p.manager) absent closed refl in
      let a = after_get_missed now key p (get c d key p.manager) misses_ in
      let b : PenetrationProtection = record p.penetration {
        blocked_keys = insert key now p.penetration.blocked_keys;
      } in
      let e : (get_with_protection c d now duration key p).0.penetration ≡ b =
        o.1 ∙ a.1 ∙ rw r refl in
      (
        o.0 ∙ a.0,
        blocked-AllMiss now key b calls (get_with_protection c d now duration key p).0
            (lookup-insert_same key now p.penetration.blocked_keys) e soon,
      )
