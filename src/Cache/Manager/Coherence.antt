-- ===== src/Cache/Manager/Coherence.antt =====
-- manager.go: what a reader of the two-level cache may see, over any history of calls.
use data_middleware.Prelude.{
  ℕ, ◌≡◌, refl, true, List, [], ◌∷◌, list_beq, list_beq_iff, if◌then◌else◌, Option, none, some,
  Bool-cases, inl, inr, string_eq,
}
use data_middleware.Cache.Tier.{
  Cache, IsCache, Found, found, missed, tier_get, tier_set, tier_delete, tier_clear,
}
use data_middleware.Cache.Manager.{Manager, get, set, delete, clear, get_l1, get_l2}

pub data Call : Type 0 where
  gets deletes : List ℕ → Call
  sets : List ℕ → List ℕ → Call
  clears : Call

-- What the last call that wrote `k` left there, with `old` before the history.
unfoldable pub written : (List ℕ → Option (List ℕ)) → List Call → List ℕ → Option (List ℕ)
written old [] = old
written old (gets j ∷ calls) = written old calls
written old (sets j v ∷ calls) = written (λ k. if list_beq j k then some v else old k) calls
written old (deletes j ∷ calls) = written (λ k. if list_beq j k then none else old k) calls
written old (clears ∷ calls) = written (λ k. none) calls

module _ {S T : Type 0} (c : Cache S) (d : Cache T) where
  unfoldable pub after : Manager S T → Call → Manager S T
  after m (gets k) = (get c d k m).0
  after m (deletes k) = (delete c d k m).0
  after m (sets k v) = (set c d k v m).0
  after m clears = (clear c d m).0

  unfoldable pub run : Manager S T → List Call → Manager S T
  run m [] = m
  run m (call ∷ calls) = run (after m call) calls

  -- Neither tier fails to write. A failure while reading is allowed.
  unfoldable pub Succeeds : Manager S T → Call → Type 0
  Succeeds m (gets k) = Unit
  Succeeds m (deletes k) = ((tier_delete c k m.l1).1 ≡ none) × ((tier_delete d k m.l2).1 ≡ none)
  Succeeds m (sets k v) = ((tier_set c k v m.l1).1 ≡ none) × ((tier_set d k v m.l2).1 ≡ none)
  Succeeds m clears = ((tier_clear c m.l1).1 ≡ none) × ((tier_clear d m.l2).1 ≡ none)

  unfoldable pub AllSucceed : Manager S T → List Call → Type 0
  AllSucceed m [] = Unit
  AllSucceed m (call ∷ calls) = Succeeds m call × AllSucceed (after m call) calls

-- Every value that a tier has is the written one.
abbrev Agrees :
    {S : Type 0} → (S → List ℕ → Option (List ℕ)) → (List ℕ → Option (List ℕ)) → Option S → Type 0
Agrees cached ref none = Unit
Agrees cached ref (some s) = (k v : List ℕ) → cached s k ≡ some v → ref k ≡ some v

module _ {S : Type 0} (c : Cache S) (cached : S → List ℕ → Option (List ℕ))
    (h : IsCache c cached) where
  tier_get-Agrees :
      (ref : List ℕ → Option (List ℕ)) (k : List ℕ) (l : Option S)
      → Agrees cached ref l
      → Agrees cached ref (tier_get c k l).0
  unfolding tier_get
  tier_get-Agrees ref k none a = tt
  tier_get-Agrees ref k (some s) a = λ j v e. a j v (h.get_others k j v s e)

  tier_get-found :
      (ref : List ℕ → Option (List ℕ)) (k v : List ℕ) (l : Option S)
      → Agrees cached ref l
      → (tier_get c k l).1 ≡ found v
      → ref k ≡ some v
  unfolding tier_get
  tier_get-found ref k v none a f = cc
  tier_get-found ref k v (some s) a f = a k v (h.get_found k v s f)

  -- A copy of the written value keeps the agreement, whether or not the call fails.
  tier_set-Agrees_same :
      (ref : List ℕ → Option (List ℕ)) (k v : List ℕ) (l : Option S)
      → Agrees cached ref l
      → ref k ≡ some v
      → Agrees cached ref (tier_set c k v l).0
  unfolding tier_set
  tier_set-Agrees_same ref k v none a r = tt
  tier_set-Agrees_same ref k v (some s) a r =
      λ j w e. elim (h.set_read k v j w s e) [ inl (q, f) ↦ cc | inr g ↦ a j w g ]

  tier_set-Agrees :
      (ref : List ℕ → Option (List ℕ)) (k v : List ℕ) (l : Option S)
      → Agrees cached ref l
      → (tier_set c k v l).1 ≡ none
      → Agrees cached (λ j. if list_beq k j then some v else ref j) (tier_set c k v l).0
  unfolding tier_set
  tier_set-Agrees ref k v none a ok = tt
  tier_set-Agrees ref k v (some s) a ok = λ j w e. elim (Bool-cases (list_beq k j)) [
    | inl y ↦
        let q : k ≡ j = (list_beq_iff k j).0 y in
        let f : w ≡ v = h.set_stored k v w s ok (rw (← q) at e) in rw y cc
    | inr n ↦ rw n (elim (h.set_read k v j w s e) [
      | inl (q, f) ↦ let y : list_beq k j ≡ true = (list_beq_iff k j).1 q in absurd (cc)
      | inr g ↦ a j w g
    ])
  ]

  tier_delete-Agrees :
      (ref : List ℕ → Option (List ℕ)) (k : List ℕ) (l : Option S)
      → Agrees cached ref l
      → (tier_delete c k l).1 ≡ none
      → Agrees cached (λ j. if list_beq k j then none else ref j) (tier_delete c k l).0
  unfolding tier_delete
  tier_delete-Agrees ref k none a ok = tt
  tier_delete-Agrees ref k (some s) a ok = λ j w e. elim (Bool-cases (list_beq k j)) [
    | inl y ↦
        let q : k ≡ j = (list_beq_iff k j).0 y in
        let f : cached (c.delete k s).0 j ≡ none = rw (← q) (h.delete_removed k s ok) in absurd (cc)
    | inr n ↦ rw n (a j w (h.delete_others k j w s e))
  ]

  tier_clear-Agrees :
      (ref : List ℕ → Option (List ℕ)) (l : Option S)
      → (tier_clear c l).1 ≡ none
      → Agrees cached (λ j. none) (tier_clear c l).0
  unfolding tier_clear
  tier_clear-Agrees ref none ok = tt
  tier_clear-Agrees ref (some s) ok =
      λ j w e. let f : cached (c.clear s).0 j ≡ none = h.cleared j s ok in absurd (cc)

module _ {S T : Type 0} (c : Cache S) (d : Cache T) (in_l1 : S → List ℕ → Option (List ℕ))
    (in_l2 : T → List ℕ → Option (List ℕ)) (h1 : IsCache c in_l1) (h2 : IsCache d in_l2) where
  -- Every value that the manager has, in either tier, is the written one.
  unfoldable pub IsCoherent : (List ℕ → Option (List ℕ)) → Manager S T → Type 0
  IsCoherent ref m = Agrees in_l1 ref m.l1 × Agrees in_l2 ref m.l2

  get_l2-IsCoherent :
      (ref : List ℕ → Option (List ℕ)) (k : List ℕ) (l1 : Option S) (l2 : Option T) (r : Found)
      → Agrees in_l1 ref l1
      → Agrees in_l2 ref l2
      → ((v : List ℕ) → r ≡ found v → ref k ≡ some v)
      → IsCoherent ref (get_l2 c d k l1 (l2, r)).0
        × ((v : List ℕ) → (get_l2 c d k l1 (l2, r)).1 ≡ found v → ref k ≡ some v)
  unfolding IsCoherent
  get_l2-IsCoherent ref k l1 l2 (found v) a b f =
      ((tier_set-Agrees_same c in_l1 h1 ref k v l1 a (f v refl), b), f)
  get_l2-IsCoherent ref k l1 l2 (missed e) a b f = ((a, b), λ v g. cc)

  get_l1-IsCoherent :
      (ref : List ℕ → Option (List ℕ)) (k : List ℕ) (l1 : Option S) (l2 : Option T) (r : Found)
      → Agrees in_l1 ref l1
      → Agrees in_l2 ref l2
      → ((v : List ℕ) → r ≡ found v → ref k ≡ some v)
      → IsCoherent ref (get_l1 c d k l2 (l1, r)).0
        × ((v : List ℕ) → (get_l1 c d k l2 (l1, r)).1 ≡ found v → ref k ≡ some v)
  unfolding IsCoherent
  get_l1-IsCoherent ref k l1 l2 (found v) a b f = ((a, b), f)
  get_l1-IsCoherent ref k l1 l2 (missed e) a b f =
      get_l2-IsCoherent ref k l1 (tier_get d k l2).0 (tier_get d k l2).1 a
        (tier_get-Agrees d in_l2 h2 ref k l2 b) (λ v. tier_get-found d in_l2 h2 ref k v l2 b)

  get-IsCoherent :
      (ref : List ℕ → Option (List ℕ)) (k : List ℕ) (m : Manager S T)
      → IsCoherent ref m
      → IsCoherent ref (get c d k m).0 × ((v : List ℕ) → (get c d k m).1 ≡ found v → ref k ≡ some v)
  unfolding get IsCoherent
  get-IsCoherent ref k m (a, b) =
      get_l1-IsCoherent ref k (tier_get c k m.l1).0 m.l2 (tier_get c k m.l1).1
        (tier_get-Agrees c in_l1 h1 ref k m.l1 a) b (λ v. tier_get-found c in_l1 h1 ref k v m.l1 a)

  run-IsCoherent :
      (calls : List Call) (ref : List ℕ → Option (List ℕ)) (m : Manager S T)
      → IsCoherent ref m
      → AllSucceed c d m calls
      → IsCoherent (written ref calls) (run c d m calls)
  unfolding run after written AllSucceed Succeeds set delete clear IsCoherent
  run-IsCoherent [] ref m a ok = a
  run-IsCoherent (gets k ∷ calls) ref m a (s, ok) =
      run-IsCoherent calls ref _ (get-IsCoherent ref k m a).0 ok
  run-IsCoherent (deletes k ∷ calls) ref m (a, b) ((p, q), ok) =
      run-IsCoherent calls _ _
        (tier_delete-Agrees c in_l1 h1 ref k m.l1 a p, tier_delete-Agrees d in_l2 h2 ref k m.l2 b q)
        ok
  run-IsCoherent (sets k v ∷ calls) ref m (a, b) ((p, q), ok) =
      run-IsCoherent calls _ _
        (tier_set-Agrees c in_l1 h1 ref k v m.l1 a p, tier_set-Agrees d in_l2 h2 ref k v m.l2 b q)
        ok
  run-IsCoherent (clears ∷ calls) ref m (a, b) ((p, q), ok) =
      run-IsCoherent calls _ _
        (tier_clear-Agrees c in_l1 h1 ref m.l1 p, tier_clear-Agrees d in_l2 h2 ref m.l2 q) ok

  -- Over two tiers that meet `IsCache`, take a manager whose entries are those of `old`, and any
  -- history of Get, Set, Delete and Clear in which no tier fails to write. Whatever a Get then
  -- finds for a key is what the last call that wrote the key left there.
  pub get-written :
      (old : List ℕ → Option (List ℕ)) (calls : List Call) (m : Manager S T) (k v : List ℕ)
      → IsCoherent old m
      → AllSucceed c d m calls
      → (get c d k (run c d m calls)).1 ≡ found v
      → written old calls k ≡ some v
  get-written old calls m k v a ok f =
      (get-IsCoherent (written old calls) k (run c d m calls) (run-IsCoherent calls old m a ok)).1 v
        f
