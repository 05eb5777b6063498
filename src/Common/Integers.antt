-- ===== src/Common/Integers.antt =====
-- Signed integers over the native numbers, under the library's names, and the wrap of a checked `i128`.
use Prim.Native.Nat.{ℕ, zero, suc, ◌+◌, ◌-◌, ◌*◌, ◌^◌}
use mathlib.Core.Bool.{Bool, true, false}
use mathlib.Core.Option.{Option, none, some}
use datacrate.Common.Tests.{leb, if◌then◌else◌}

pub data ℤ : Type 0 where
  pos negsuc : ℕ → ℤ

-- A magnitude with a sign, which is true for a minus.
unfoldable pub signed : Bool → ℕ → ℤ
signed false n = pos n
signed true zero = pos zero
signed true (suc n) = negsuc n

unfoldable pub leb_int : ℤ → ℤ → Bool
leb_int (pos a) (pos b) = leb a b
leb_int (pos a) (negsuc b) = false
leb_int (negsuc a) (pos b) = true
leb_int (negsuc a) (negsuc b) = leb b a

unfoldable pub min_int : ℤ → ℤ → ℤ
unfolding leb_int
min_int a b = if leb_int a b then a else b

unfoldable pub max_int : ℤ → ℤ → ℤ
unfolding leb_int
max_int a b = if leb_int a b then b else a

-- `a - b` of two numbers.
unfoldable pub difference : ℕ → ℕ → ℤ
difference a b = if leb b a then pos (a - b) else negsuc (b - a - 1)

infixl 20 ◌+ℤ◌ ◌-ℤ◌
unfoldable pub ◌+ℤ◌ : ℤ → ℤ → ℤ
unfolding difference
pos a +ℤ pos b = pos (a + b)
pos a +ℤ negsuc b = difference a (b + 1)
negsuc a +ℤ pos b = difference b (a + 1)
negsuc a +ℤ negsuc b = negsuc (a + b + 1)

unfoldable pub ◌-ℤ◌ : ℤ → ℤ → ℤ
unfolding difference
pos a -ℤ pos b = difference a b
pos a -ℤ negsuc b = pos (a + b + 1)
negsuc a -ℤ pos b = negsuc (a + b)
negsuc a -ℤ negsuc b = difference b a

unfoldable pub times : ℕ → ℤ → ℤ
unfolding signed
times k (pos n) = pos (k * n)
times k (negsuc n) = signed true (k * (n + 1))

-- The range of `i128`, for the checked operations.
unfoldable pub checked_i128 : ℤ → Option ℤ
checked_i128 (pos n) = if leb n (2 ^ 127 - 1) then some (pos n) else none
checked_i128 (negsuc n) = if leb n (2 ^ 127 - 1) then some (negsuc n) else none
