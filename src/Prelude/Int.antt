-- ===== src/Prelude/Int.antt =====
-- The integers over the native numbers, under the library's names.
use Prim.Native.Nat.{ℕ, suc, ◌+◌, ◌-◌, ◌≤◌}
use mathlib.Core.Bool.{Bool, true, false}
use data_middleware.Prelude.Tests.{ltb, if◌then◌else◌}

pub data ℤ : Type 0 where
  pos negsuc : ℕ → ℤ

-- `x > y`
abbrev pub gtb : ℤ → ℤ → Bool
gtb (pos m) (pos n) = ltb n m
gtb (pos m) (negsuc n) = true
gtb (negsuc m) (pos n) = false
gtb (negsuc m) (negsuc n) = ltb m n

-- `m - n - 1`
abbrev sub : ℕ → ℕ → ℤ
sub m n = if ltb n m then pos (m - n - 1) else negsuc (n - m)

infixl 60 ◌+ℤ◌
abbrev pub ◌+ℤ◌ : ℤ → ℤ → ℤ
pos m +ℤ pos n = pos (m + n)
pos m +ℤ negsuc n = sub m n
negsuc m +ℤ pos n = sub n m
negsuc m +ℤ negsuc n = negsuc (m + n + 1)

abbrev pub pos_part : ℤ → ℕ
pos_part (pos n) = n
pos_part (negsuc n) = 0

abbrev pub neg_part : ℤ → ℕ
neg_part (pos n) = 0
neg_part (negsuc n) = suc n

-- `x - n`
abbrev pub minus : ℤ → ℕ → ℤ
minus (pos m) n = if ltb m n then negsuc (n - m - 1) else pos (m - n)
minus (negsuc m) n = negsuc (m + n)

-- `n <= x`, also as a test.
abbrev pub AtLeast : ℕ → ℤ → Type 0
AtLeast n x = n + neg_part x ≤ pos_part x

abbrev pub at_least : ℕ → ℤ → Bool
at_least n (pos m) = if ltb m n then false else true
at_least n (negsuc m) = false
