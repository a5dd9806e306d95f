-- ===== src/Prelude/Int.antt =====
-- Signed integers over the native numbers, for the `int64` fields of the messages, with the
-- arithmetic of Go's `int64` on them.
use Prim.Native.Nat.{ℕ, zero, suc, ◌+◌, ◌-◌, ◌*◌, ◌^◌, ◌/◌, ◌%◌}
use mathlib.Core.Bool.{Bool, true, false}
use synclog.Prelude.Tests.{ltb, if◌then◌else◌}

-- `negsuc n` is -(n + 1).
pub data ℤ : Type 0 where
  pos negsuc : ℕ → ℤ

abbrev pub neg : ℕ → ℤ
neg zero = pos 0
neg (suc n) = negsuc n

abbrev pub negate : ℤ → ℤ
negate (pos n) = neg n
negate (negsuc n) = pos (suc n)

-- The product with a number that is not negative.
abbrev pub scaled : ℕ → ℤ → ℤ
scaled k (pos n) = pos (k * n)
scaled k (negsuc n) = neg (k * suc n)

-- `m - n` for numbers that are not negative.
abbrev pub minus : ℕ → ℕ → ℤ
minus m n = if ltb m n then neg (n - m) else pos (m - n)

infixl 60 ◌+ℤ◌
abbrev pub ◌+ℤ◌ : ℤ → ℤ → ℤ
pos m +ℤ pos n = pos (m + n)
pos m +ℤ negsuc n = minus m (suc n)
negsuc m +ℤ pos n = minus n (suc m)
negsuc m +ℤ negsuc n = negsuc (suc (m + n))

abbrev pub ltz : ℤ → ℤ → Bool
ltz (pos m) (pos n) = ltb m n
ltz (pos m) (negsuc n) = false
ltz (negsuc m) (pos n) = true
ltz (negsuc m) (negsuc n) = ltb n m

-- The value of an `int64` with these low 64 bits.
abbrev pub int64 : ℤ → ℤ
int64 (pos n) = let low = n % 2 ^ 64 in if ltb low (2 ^ 63) then pos low else neg (2 ^ 64 - low)
int64 (negsuc n) =
    let low = n % 2 ^ 64 in if ltb low (2 ^ 63) then negsuc low else pos (2 ^ 64 - suc low)

-- Go's `/` by a positive number rounds towards zero.
abbrev pub quot : ℤ → ℕ → ℤ
quot (pos n) d = pos (n / d)
quot (negsuc n) d = neg (suc n / d)
