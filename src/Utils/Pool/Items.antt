-- ===== src/Utils/Pool/Items.antt =====
-- pool.go: the loops of Get and Put over the items.
use data_middleware.Prelude.{
  ℕ, ◌+◌, ◌≡◌, ◌⊎◌, refl, sym, ap, ◌∙◌, true, false, ◌&&◌, List, [], ◌∷◌, ◌++◌, none, some,
  if◌then◌else◌, Eq, length, length-append, arith, Bool-cases, inl, inr,
}
use data_middleware.Utils.Pool.{PoolItem, take_idle, give_back}

module _ {T : Type 0} where
  unfoldable pub in_use_count : List (PoolItem T) → ℕ
  in_use_count [] = 0
  in_use_count (i ∷ is) = if i.in_use then in_use_count is + 1 else in_use_count is

  unfoldable pub AllInUse : List (PoolItem T) → Type 0
  AllInUse [] = Unit
  AllInUse (i ∷ is) = (i.in_use ≡ true) × AllInUse is

  -- The item that `Get` takes, and the items around it: those before it are in use.
  pub record Taken (now : ℕ) (is js : List (PoolItem T)) (t : T) : Type 0 where
    pub before : List (PoolItem T)
    pub item : PoolItem T
    pub after : List (PoolItem T)
    pub items_are : is ≡ before ++ (item ∷ after)
    pub before_in_use : AllInUse before
    pub idle : item.in_use ≡ false
    pub object_is : t ≡ item.object
    pub items_become : js ≡ before ++ (record item { in_use = true; last_used = now } ∷ after)

  take_idle_here :
      (now : ℕ) (i : PoolItem T) (is : List (PoolItem T))
      → i.in_use ≡ false
      → take_idle now (i ∷ is) ≡ some (i.object, record i { in_use = true; last_used = now } ∷ is)
  unfolding take_idle
  take_idle_here now i is n = rw n refl

  take_idle_there :
      (now : ℕ) (i : PoolItem T) (is : List (PoolItem T))
      → i.in_use ≡ true
      → take_idle now (i ∷ is)
        ≡ elim (take_idle now is) [ none ↦ none | some (t, js) ↦ some (t, i ∷ js) ]
  unfolding take_idle
  take_idle_there now i is y = rw y refl

  pub take_idle-cases :
      (now : ℕ) (is : List (PoolItem T))
      → ((take_idle now is ≡ none) × AllInUse is)
        ⊎ ((t : T) × (js : List (PoolItem T)) × (take_idle now is ≡ some (t, js))
            × Taken now is js t)
  unfolding AllInUse take_idle
  take_idle-cases now [] = inl (refl, tt)
  take_idle-cases now (i ∷ is) = elim (Bool-cases i.in_use) [
    | inl y ↦ elim (take_idle-cases now is) [
      | inl (e, all) ↦ inl (take_idle_there now i is y ∙ rw e refl, (y, all))
      | inr (t, js, e, k) ↦ inr (
        t,
        i ∷ js,
        take_idle_there now i is y ∙ rw e refl,
        record {
          before = i ∷ k.before;
          item = k.item;
          after = k.after;
          items_are = ap (◌∷◌ i) k.items_are;
          before_in_use = (y, k.before_in_use);
          idle = k.idle;
          object_is = k.object_is;
          items_become = ap (◌∷◌ i) k.items_become;
        },
      )
    ]
    | inr n ↦ inr (
      i.object,
      record i { in_use = true; last_used = now } ∷ is,
      take_idle_here now i is n,
      record {
        before = [];
        item = i;
        after = is;
        items_are = refl;
        before_in_use = tt;
        idle = n;
        object_is = refl;
        items_become = refl;
      },
    )
  ]

  in_use_count-append :
      (xs ys : List (PoolItem T)) → in_use_count (xs ++ ys) ≡ in_use_count xs + in_use_count ys
  unfolding in_use_count
  in_use_count-append [] ys = omega arith
  in_use_count-append (x ∷ xs) ys = ground (arith, in_use_count-append xs ys)

  in_use_count_head :
      (ys : List (PoolItem T)) (i j : PoolItem T)
      → i.in_use ≡ false
      → j.in_use ≡ true
      → (xs : List (PoolItem T))
      → in_use_count xs + in_use_count (j ∷ ys) ≡ in_use_count xs + in_use_count (i ∷ ys) + 1
  unfolding in_use_count
  in_use_count_head ys i j n y xs = rw (n, y) (omega arith)

  -- One of the items with another state.
  pub length_at :
      (xs ys : List (PoolItem T)) (i j : PoolItem T)
      → length (xs ++ (i ∷ ys)) ≡ length (xs ++ (j ∷ ys))
  length_at xs ys i j = length-append xs (i ∷ ys) ∙ sym (length-append xs (j ∷ ys))

  pub in_use_count_at :
      (xs ys : List (PoolItem T)) (i j : PoolItem T)
      → i.in_use ≡ false
      → j.in_use ≡ true
      → in_use_count (xs ++ (j ∷ ys)) ≡ in_use_count (xs ++ (i ∷ ys)) + 1
  in_use_count_at xs ys i j n y =
      rw (in_use_count-append xs (j ∷ ys), in_use_count-append xs (i ∷ ys))
        (in_use_count_head ys i j n y xs)

  give_back_here :
      ⦃e : Eq T⦄ (now : ℕ) (t : T) (i : PoolItem T) (is : List (PoolItem T))
      → (i.in_use && e.beq i.object t) ≡ true
      → give_back now t (i ∷ is)
        ≡ some (i.object, record i { in_use = false; last_used = now } ∷ is)
  unfolding give_back
  give_back_here now t i is y = rw y refl

  give_back_there :
      ⦃e : Eq T⦄ (now : ℕ) (t : T) (i : PoolItem T) (is : List (PoolItem T))
      → (i.in_use && e.beq i.object t) ≡ false
      → give_back now t (i ∷ is)
        ≡ elim (give_back now t is) [ none ↦ none | some (o, js) ↦ some (o, i ∷ js) ]
  unfolding give_back
  give_back_there now t i is n = rw n refl

  -- An item in use that is given back.
  pub record Returns (now : ℕ) (is js : List (PoolItem T)) (o : T) : Type 0 where
    pub before_it : List (PoolItem T)
    pub item_used : PoolItem T
    pub after_it : List (PoolItem T)
    pub items_were : is ≡ before_it ++ (item_used ∷ after_it)
    pub busy : item_used.in_use ≡ true
    pub object_was : o ≡ item_used.object
    pub items_left :
        js ≡ before_it ++ (record item_used { in_use = false; last_used = now } ∷ after_it)

  pub give_back-cases :
      ⦃e : Eq T⦄ (now : ℕ) (t : T) (is : List (PoolItem T))
      → (give_back now t is ≡ none)
        ⊎ ((o : T) × (js : List (PoolItem T)) × (give_back now t is ≡ some (o, js))
            × Returns now is js o)
  unfolding give_back
  give_back-cases now t [] = inl refl
  give_back-cases ⦃e = e⦄ now t (i ∷ is) = elim (Bool-cases (i.in_use && e.beq i.object t)) [
    | inl y ↦ inr (
      i.object,
      record i { in_use = false; last_used = now } ∷ is,
      give_back_here now t i is y,
      record {
        before_it = [];
        item_used = i;
        after_it = is;
        items_were = refl;
        busy = ground arith;
        object_was = refl;
        items_left = refl;
      },
    )
    | inr n ↦ elim (give_back-cases now t is) [
      | inl e ↦ inl (give_back_there now t i is n ∙ rw e refl)
      | inr (o, js, e, k) ↦ inr (
        o,
        i ∷ js,
        give_back_there now t i is n ∙ rw e refl,
        record {
          before_it = i ∷ k.before_it;
          item_used = k.item_used;
          after_it = k.after_it;
          items_were = ap (◌∷◌ i) k.items_were;
          busy = k.busy;
          object_was = k.object_was;
          items_left = ap (◌∷◌ i) k.items_left;
        },
      )
    ]
  ]
