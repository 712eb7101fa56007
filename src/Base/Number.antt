-- ===== src/Base/Number.antt =====
-- JavaScript numbers. A finite double is `m / 2 ^ k` for integers `m` and `k`; every such fraction
-- is a value here, so no rounding is modelled.
use Prim.Native.Nat.{ℕ, suc, ◌*◌, ◌/◌, ◌%◌, ◌^◌}
use mathlib.Core.Path.{◌≡◌}
use mathlib.Core.Bool.{Bool, true, false}
use mathlib.Core.Option.{Option, none, some}
use native.Mathlib.Omega.{arith}
use workspace_os.Base.Tests.{ltb, eqb, if◌then◌else◌}
use workspace_os.Base.Int.{ℤ, pos, negsuc, sub_ℕ, scale, ◌+ℤ◌}

pub data Number : Type 0 where
  finite : ℤ → ℕ → Number
  nan pos_inf neg_inf : Number

abbrev pub of_ℤ : ℤ → Number
of_ℤ z = finite z 0

abbrev pub of_ℕ : ℕ → Number
of_ℕ n = finite (pos n) 0

-- `Number.isInteger(x)`, with the integer that `x` is
unfoldable pub as_integer : Number → Option ℤ
as_integer (finite (pos m) k) = if eqb (m % 2 ^ k) 0 then some (pos (m / 2 ^ k)) else none
as_integer (finite (negsuc m) k) =
    if eqb (suc m % 2 ^ k) 0 then some (sub_ℕ 0 (suc m / 2 ^ k)) else none
as_integer _ = none

-- `x < n`
unfoldable pub num_lt : Number → ℕ → Bool
num_lt (finite (pos m) k) n = ltb m (n * 2 ^ k)
num_lt (finite (negsuc m) k) n = true
num_lt neg_inf n = true
num_lt _ n = false

-- `x > n`
unfoldable pub num_gt : Number → ℕ → Bool
num_gt (finite (pos m) k) n = ltb (n * 2 ^ k) m
num_gt pos_inf n = true
num_gt _ n = false

-- `z + x`
unfoldable pub add_int : ℤ → Number → Number
add_int z (finite m k) = finite (scale z (2 ^ k) +ℤ m) k
add_int z x = x

-- rounding towards zero; `none` for NaN and the infinities
unfoldable pub truncate : Number → Option ℤ
truncate (finite (pos m) k) = some (pos (m / 2 ^ k))
truncate (finite (negsuc m) k) = some (sub_ℕ 0 (suc m / 2 ^ k))
truncate _ = none

pub as_integer-of_ℤ : (z : ℤ) → as_integer (of_ℤ z) ≡ some z
unfolding as_integer
as_integer-of_ℤ (pos n) = ground arith
as_integer-of_ℤ (negsuc n) = ground arith
