-- ===== src/Utils/Lru/Index.antt =====
-- datastruct.go: the map of an LRUCache beside its list.
use data_middleware.Prelude.{
  ℕ, zero, suc, ◌≡◌, ◌≢◌, refl, sym, ◌∙◌, ap, ◌||◌, List, [], ◌∷◌, ◌++◌, none, some, ◌==◌,
  if◌then◌else◌, arith, Bool-cases, inl, inr, Eq, length, take, length-append,
}
use data_middleware.Prelude.Assoc.{
  lookup, delete, IsMap, delete_absent, lookup-delete, delete-IsMap,
}
use data_middleware.Utils.Lru.Memory.{Cells, has, Distinct, has-append}

module _ {K V : Type 0} where
  -- What a user sees of the nodes, and what the map holds of them.
  abbrev pub entries : Cells K V → List (K × V)
  entries [] = []
  entries ((a, k, v) ∷ xs) = (k, v) ∷ entries xs

  abbrev pub index : Cells K V → List (K × ℕ)
  index [] = []
  index ((a, k, v) ∷ xs) = (k, a) ∷ index xs

  pub length-entries : (xs : Cells K V) → length (entries xs) ≡ length xs
  length-entries [] = refl
  length-entries (x ∷ xs) = ap suc (length-entries xs)

  pub length-index : (xs : Cells K V) → length (index xs) ≡ length xs
  length-index [] = refl
  length-index (x ∷ xs) = ap suc (length-index xs)

  -- A list that is not empty, split before its last node.
  pub split_last :
      (x : ℕ × K × V) (xs : Cells K V)
      → (ys : Cells K V) × (a : ℕ) × (k : K) × (v : V) × ((x ∷ xs) ≡ ys ++ ((a, k, v) ∷ []))
  split_last (a, k, v) [] = ([], a, k, v, refl)
  split_last x (y ∷ xs) = let (ys, a, k, v, e) = split_last y xs in (x ∷ ys, a, k, v, ap (◌∷◌ x) e)

  pub take-entries :
      (n : ℕ) (ys : Cells K V) (x : ℕ × K × V)
      → n ≡ length ys
      → take n (entries (ys ++ (x ∷ []))) ≡ entries ys
  take-entries zero [] x e = refl
  take-entries (suc n) [] x e = absurd (omega arith)
  take-entries zero (y ∷ ys) x e = absurd (omega arith)
  take-entries (suc n) ((a, k, v) ∷ ys) x e = ap (◌∷◌ (k, v)) (take-entries n ys x (omega arith))

module _ {K V : Type 0} ⦃e : Eq K⦄ where
  -- The node that a key leads to, and the nodes around it.
  pub split :
      (k : K) (xs : Cells K V) (a : ℕ)
      → lookup k (index xs) ≡ some a
      → (ys : Cells K V) × (v : V) × (zs : Cells K V) × (xs ≡ ys ++ ((a, k, v) ∷ zs))
        × (lookup k (index ys) ≡ none)
  split k [] a h = cc
  split k ((b, j, w) ∷ xs) a h = elim (Bool-cases (e.beq j k)) [
    | inl y ↦
        let j_is : j ≡ k = (e.beq_iff j k).0 y in
        let b_is : b ≡ a = ground arith in ([], w, xs, rw (j_is, b_is) refl, refl)
    | inr n ↦
        let (ys, v, zs, f, g) = split k xs a (ground arith) in
        ((b, j, w) ∷ ys, v, zs, ap (◌∷◌ (b, j, w)) f, ground arith)
  ]

  -- A key is in the index exactly when it is among the entries.
  pub lookup_absent :
      (k : K) (xs : Cells K V) → lookup k (index xs) ≡ none → lookup k (entries xs) ≡ none
  lookup_absent k [] h = refl
  lookup_absent k ((b, j, w) ∷ xs) h = ground (arith, lookup_absent k xs)

  module _ (a : ℕ) (k : K) (v : V) (zs : Cells K V) where
    lookup_between :
        (ys : Cells K V) (j : K) → j ≡ k → lookup j (index (ys ++ ((a, k, v) ∷ zs))) ≢ none
    lookup_between [] j f h = ground (arith, e.beq_iff k j)
    lookup_between ((b, i, w) ∷ ys) j f h = ground (arith, lookup_between ys j f)

    -- With one entry for a key, its node is not in the lists around it.
    pub split-IsMap :
        (ys : Cells K V)
        → IsMap (index (ys ++ ((a, k, v) ∷ zs)))
        → (lookup k (index ys) ≡ none) × (lookup k (index zs) ≡ none)
    split-IsMap [] h = (refl, h.0)
    split-IsMap ((b, j, w) ∷ ys) (out, h) =
        let (p, q) = split-IsMap ys h in
        elim (Bool-cases (e.beq j k)) [
          | inl y ↦ absurd (lookup_between ys j ((e.beq_iff j k).0 y) out)
          | inr n ↦ (ground arith, q)
        ]

    pub delete-index :
        (ys : Cells K V)
        → lookup k (index ys) ≡ none
        → lookup k (index zs) ≡ none
        → delete k (index (ys ++ ((a, k, v) ∷ zs))) ≡ index (ys ++ zs)
    delete-index [] p q = ground (arith, e.beq_iff k k, delete_absent k (index zs) q)
    delete-index ((b, i, w) ∷ ys) p q = ground (arith, delete-index ys)

    pub delete-entries :
        (ys : Cells K V)
        → lookup k (index ys) ≡ none
        → lookup k (index zs) ≡ none
        → delete k (entries (ys ++ ((a, k, v) ∷ zs))) ≡ entries (ys ++ zs)
    delete-entries [] p q =
        ground (arith, e.beq_iff k k, delete_absent k (entries zs) (lookup_absent k zs q))
    delete-entries ((b, i, w) ∷ ys) p q = ground (arith, delete-entries ys)

    pub lookup-entries :
        (ys : Cells K V)
        → lookup k (index ys) ≡ none
        → lookup k (entries (ys ++ ((a, k, v) ∷ zs))) ≡ some v
    lookup-entries [] p = ground (arith, e.beq_iff k k)
    lookup-entries ((b, i, w) ∷ ys) p = ground (arith, lookup-entries ys)

    pub lookup-index :
        (ys : Cells K V)
        → lookup k (index ys) ≡ none
        → lookup k (index (ys ++ ((a, k, v) ∷ zs))) ≡ some a
    lookup-index [] p = ground (arith, e.beq_iff k k)
    lookup-index ((b, i, w) ∷ ys) p = ground (arith, lookup-index ys)

    module _ (ys : Cells K V) (h : IsMap (index (ys ++ ((a, k, v) ∷ zs)))) where
      -- The index without the node, and with it in front.
      pub lookup_without :
          (j : K)
          → lookup j (index (ys ++ zs))
            ≡ (if e.beq k j then none else lookup j (index (ys ++ ((a, k, v) ∷ zs))))
      lookup_without j =
          let (p, q) = split-IsMap ys h in
          rw (sym (delete-index ys p q)) (lookup-delete k j (index (ys ++ ((a, k, v) ∷ zs))))

      pub lookup_in_front :
          (j : K)
          → lookup j (index (ys ++ ((a, k, v) ∷ zs))) ≡ lookup j (index ((a, k, v) ∷ (ys ++ zs)))
      lookup_in_front j =
          let (p, q) = split-IsMap ys h in
          elim (Bool-cases (e.beq k j)) [
            | inl y ↦
                let k_is : k ≡ j = (e.beq_iff k j).0 y in
                let here : lookup j (index (ys ++ ((a, k, v) ∷ zs))) ≡ some a =
                  ap (λ i. lookup i (index (ys ++ ((a, k, v) ∷ zs)))) (sym k_is)
                  ∙ lookup-index ys p in
                rw (here, y) refl
            | inr n ↦ let there = lookup_without j in rw n (sym (rw n at there))
          ]

      pub without-IsMap : IsMap (index (ys ++ zs))
      without-IsMap =
          let (p, q) = split-IsMap ys h in
          rw (delete-index ys p q) at (delete-IsMap k (index (ys ++ ((a, k, v) ∷ zs))) h)

      pub in_front-IsMap : IsMap (index ((a, k, v) ∷ (ys ++ zs)))
      in_front-IsMap = (rw (lookup_without k) (rw ((e.beq_iff k k).1 refl) refl), without-IsMap)

module _ {K V : Type 0} (a : ℕ) (k : K) (v : V) (ys zs : Cells K V) where
  pub length_around : length (ys ++ ((a, k, v) ∷ zs)) ≡ suc (length (ys ++ zs))
  length_around = rw (length-append ys ((a, k, v) ∷ zs), length-append ys zs) (omega arith)

  pub has_around : (b : ℕ) → has b (ys ++ ((a, k, v) ∷ zs)) ≡ (b == a || has b (ys ++ zs))
  has_around b = rw (has-append b ys ((a, k, v) ∷ zs), has-append b ys zs) (ground arith)

-- A node with another value.
module _ {K V : Type 0} (a : ℕ) (k : K) (v w : V) where
  pub index_revalued :
      (ys zs : Cells K V) → index (ys ++ ((a, k, v) ∷ zs)) ≡ index (ys ++ ((a, k, w) ∷ zs))
  index_revalued [] zs = refl
  index_revalued ((b, j, u) ∷ ys) zs = ap (◌∷◌ (j, b)) (index_revalued ys zs)

  pub has_revalued :
      (b : ℕ) (ys zs : Cells K V) → has b (ys ++ ((a, k, v) ∷ zs)) ≡ has b (ys ++ ((a, k, w) ∷ zs))
  has_revalued b ys zs = has_around a k v ys zs b ∙ sym (has_around a k w ys zs b)

  pub Distinct-revalued :
      (ys zs : Cells K V) → Distinct (ys ++ ((a, k, v) ∷ zs)) → Distinct (ys ++ ((a, k, w) ∷ zs))
  Distinct-revalued [] zs d = d
  Distinct-revalued ((b, j, u) ∷ ys) zs (out, d) =
      (sym (has_revalued b ys zs) ∙ out, Distinct-revalued ys zs d)
