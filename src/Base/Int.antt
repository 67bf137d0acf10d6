-- ===== src/Base/Int.antt =====
-- The C type `int`, as the integers that the program's values stay in.
use Prim.Native.Nat.{ℕ, suc, ◌-◌, ◌%◌}
use mathlib.Core.Bool.{Bool, true, false, not}
use docker.Base.Tests.{◌==◌, ltb}

-- `negsuc n` is -(n + 1).
pub data ℤ : Type 0 where
  pos : ℕ → ℤ
  negsuc : ℕ → ℤ

-- -1, by which most of the functions report a failure.
abbrev pub minus_one : ℤ
minus_one = negsuc 0

-- x < 0
abbrev pub is_neg : ℤ → Bool
is_neg (pos n) = false
is_neg (negsuc n) = true

infix 50 ◌==ℤ◌
abbrev pub ◌==ℤ◌ : ℤ → ℤ → Bool
pos m ==ℤ pos n = m == n
pos m ==ℤ negsuc n = false
negsuc m ==ℤ pos n = false
negsuc m ==ℤ negsuc n = m == n

-- The test `if (x)` of an int, and `if (!x)`.
abbrev pub nonzero : ℤ → Bool
nonzero x = not (x ==ℤ pos 0)

-- x > 0
abbrev pub is_pos : ℤ → Bool
is_pos (pos n) = ltb 0 n
is_pos (negsuc n) = false

-- The value of an int that is known not to be negative.
abbrev pub to_ℕ : ℤ → ℕ
to_ℕ (pos n) = n
to_ℕ (negsuc n) = 0

-- The conversion to an unsigned type of `m` values.
abbrev pub wrap : ℕ → ℤ → ℕ
wrap m (pos n) = n % m
wrap m (negsuc n) = m - suc (n % m)
