-- ===== src/Prelude/IntLaws.antt =====
-- Laws of the integers over the native numbers, by their parts.
use data_middleware.Prelude.{
  ℕ, ◌+◌, ◌≡◌, ap, true, ℤ, pos, negsuc, ◌+ℤ◌, pos_part, neg_part, minus, AtLeast, at_least, arith,
}

parts_add :
    (x y : ℤ)
    → pos_part (x +ℤ y) + neg_part x + neg_part y ≡ neg_part (x +ℤ y) + pos_part x + pos_part y
parts_add (pos m) (pos n) = omega arith
parts_add (pos m) (negsuc n) = ground arith
parts_add (negsuc m) (pos n) = ground arith
parts_add (negsuc m) (negsuc n) = omega arith

parts_minus :
    (x : ℤ) (n : ℕ) → pos_part (minus x n) + neg_part x + n ≡ neg_part (minus x n) + pos_part x
parts_minus (pos m) n = ground arith
parts_minus (negsuc m) n = omega arith

eq_of_parts : (x y : ℤ) → pos_part x + neg_part y ≡ pos_part y + neg_part x → x ≡ y
eq_of_parts (pos m) (pos n) e = ap pos (omega (arith, e))
eq_of_parts (pos m) (negsuc n) e = absurd (omega (arith, e))
eq_of_parts (negsuc m) (pos n) e = absurd (omega (arith, e))
eq_of_parts (negsuc m) (negsuc n) e = ap negsuc (omega (arith, e))

-- What is taken away and added again.
pub minus-add : (x : ℤ) (n : ℕ) → minus x n +ℤ pos n ≡ x
minus-add x n =
    let a = parts_minus x n in
    let b = parts_add (minus x n) (pos n) in eq_of_parts _ _ (omega (arith, a, b))

-- What is taken away from one number and added to another.
pub minus-exchange : (x y : ℤ) (n : ℕ) → minus x n +ℤ (y +ℤ pos n) ≡ x +ℤ y
minus-exchange x y n =
    let a = parts_minus x n in
    let b = parts_add y (pos n) in
    let c = parts_add (minus x n) (y +ℤ pos n) in
    let d = parts_add x y in eq_of_parts _ _ (omega (arith, a, b, c, d))

pub at_least-AtLeast : (n : ℕ) (x : ℤ) → at_least n x ≡ true → AtLeast n x
at_least-AtLeast n (pos m) e = ground arith
at_least-AtLeast n (negsuc m) e = absurd (cc)
