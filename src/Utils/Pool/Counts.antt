-- ===== src/Utils/Pool/Counts.antt =====
-- pool.go: the counters of an ObjectPool after each of its loops.
use data_middleware.Prelude.{
  ℕ, ◌+◌, ◌-◌, ◌≤◌, ◌≡◌, refl, sym, ap, ◌∙◌, true, false, List, [], ◌∷◌, ◌++◌, Option, none, some,
  if◌then◌else◌, length, arith, Bool-cases, inl, inr,
}
use data_middleware.Utils.Pool.{
  ObjectFactory, PoolItem, ObjectPool, Returned, returned, blocked, append_item, clean, is_expired,
}
use data_middleware.Utils.Pool.Items.{in_use_count, Taken, Returns, length_at, in_use_count_at}

module _ {T : Type 0} where
  -- The counters count the items, of which there are no more than at the start.
  pub record IsPool (p : ObjectPool T) : Type 0 where
    pub all_counted : p.created ≡ length p.items
    pub in_use_counted : p.used ≡ in_use_count p.items
    pub never_grown : p.created ≤ p.config.init_size

  in_use_count_last :
      (is : List (PoolItem T)) (i : PoolItem T)
      → i.in_use ≡ false
      → (length (is ++ (i ∷ [])) ≡ length is + 1)
        × (in_use_count (is ++ (i ∷ [])) ≡ in_use_count is)
  unfolding in_use_count
  in_use_count_last [] i n = ground arith
  in_use_count_last (j ∷ is) i n = ground (arith, in_use_count_last is i n)

  not_in_use : (m now : ℕ) (i : PoolItem T) → is_expired m now i ≡ true → i.in_use ≡ false
  unfolding is_expired
  not_in_use m now i h = ground arith

  -- An item that is put in use, or back.
  pub Taken-IsPool :
      (now : ℕ) (p : ObjectPool T) (js : List (PoolItem T)) (t : T)
      → IsPool p
      → Taken now p.items js t
      → IsPool (record p { items = js; used = p.used + 1 })
  Taken-IsPool now p js t h k =
      let i = record k.item { in_use = true; last_used = now } in
      let lengths : length js ≡ length p.items =
        ap length k.items_become
        ∙ length_at k.before k.after i k.item
        ∙ ap length (sym k.items_are) in
      let counts : in_use_count js ≡ in_use_count p.items + 1 =
        ap in_use_count k.items_become
        ∙ in_use_count_at k.before k.after k.item i k.idle refl
        ∙ ap (λ is. in_use_count is + 1) (sym k.items_are) in
      record {
        all_counted = h.all_counted ∙ sym lengths;
        in_use_counted = ap (λ n. n + 1) h.in_use_counted ∙ sym counts;
        never_grown = h.never_grown;
      }

  pub Returns-IsPool :
      (now : ℕ) (p : ObjectPool T) (js : List (PoolItem T)) (t : T)
      → IsPool p
      → Returns now p.items js t
      → IsPool (record p { items = js; used = p.used - 1 })
  Returns-IsPool now p js t h k =
      let i = record k.item_used { in_use = false; last_used = now } in
      let lengths : length js ≡ length p.items =
        ap length k.items_left
        ∙ length_at k.before_it k.after_it i k.item_used
        ∙ ap length (sym k.items_were) in
      let counts : in_use_count p.items ≡ in_use_count js + 1 =
        ap in_use_count k.items_were
        ∙ in_use_count_at k.before_it k.after_it i k.item_used refl k.busy
        ∙ ap (λ is. in_use_count is + 1) (sym k.items_left) in
      record {
        all_counted = h.all_counted ∙ sym lengths;
        in_use_counted = omega (arith, h.in_use_counted);
        never_grown = h.never_grown;
      }

module _ {T S : Type 0} where
  pub append_item-IsPool :
      (now : ℕ) (p : ObjectPool T) (s : S) (o : Option T)
      → IsPool p
      → p.created + 1 ≤ p.config.init_size
      → IsPool (append_item now p s o).0
        × ((append_item now p s o).0.created ≤ p.created + 1)
        × ((append_item now p s o).0.config ≡ p.config)
  unfolding append_item
  append_item-IsPool now p s none h l = (h, omega arith, refl)
  append_item-IsPool now p s (some t) h l =
      elim p.locked
        as (λ b.
          let item : PoolItem T = record {
            object = t;
            created_at = now;
            last_used = now;
            in_use = false;
          } in
          let r : ObjectPool T × S × Returned = if b then (p, s, blocked) else (
            record p { items = p.items ++ (item ∷ []); created = p.created + 1 },
            s,
            returned false,
          ) in
          IsPool r.0 × (r.0.created ≤ p.created + 1) × (r.0.config ≡ p.config)) [
            | true ↦ (h, omega arith, refl)
            | false ↦
                let item : PoolItem T = record {
                  object = t;
                  created_at = now;
                  last_used = now;
                  in_use = false;
                } in
                let (q, r) = in_use_count_last p.items item refl in
                (
                  record {
                    all_counted = omega (arith, h.all_counted);
                    in_use_counted = h.in_use_counted ∙ sym r;
                    never_grown = l;
                  },
                  omega arith,
                  refl,
                )
          ]

  pub clean-count :
      (f : ObjectFactory T S) (m now : ℕ) (is : List (PoolItem T)) (s : S)
      → (length is ≡ length (clean f m now is s).0 + (clean f m now is s).1)
        × (in_use_count (clean f m now is s).0 ≡ in_use_count is)
  unfolding clean in_use_count
  clean-count f m now [] s = (omega arith, refl)
  clean-count f m now (i ∷ is) s = elim (Bool-cases (is_expired m now i)) [
    | inl y ↦
        let (p, q) = clean-count f m now is (f.destroy i.object s).0 in
        rw (y, not_in_use m now i y) (omega arith, q)
    | inr n ↦
        let (p, q) = clean-count f m now is s in
        rw n (omega arith, ap (λ k. if i.in_use then k + 1 else k) q)
  ]
