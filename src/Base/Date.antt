-- ===== src/Base/Date.antt =====
-- JavaScript dates: the milliseconds since the epoch, or an invalid date, whose time is NaN.
use Prim.Native.Nat.{ℕ}
use mathlib.Core.Bool.{Bool, false, ◌||◌}
use mathlib.Core.Option.{Option, none, some}
use workspace_os.Base.Tests.{ltb, if◌then◌else◌}
use workspace_os.Base.Int.{ℤ, pos_part, neg_part, leb_ℤ, ◌-ℤ◌}
use workspace_os.Base.Number.{Number, nan, add_int, truncate}

pub data Date : Type 0 where
  at : ℤ → Date
  invalid : Date

abbrev pub max_time : ℕ
max_time = 8640000000000000

time_clip : Option ℤ → Date
time_clip none = invalid
time_clip (some z) =
    if ltb max_time (pos_part z) || ltb max_time (neg_part z) then invalid else at z

-- `date.getTime() + x`
unfoldable pub time_plus : Date → Number → Number
unfolding add_int
time_plus (at z) x = add_int z x
time_plus invalid x = nan

-- `new Date(x)`
unfoldable pub new_date : Number → Date
unfolding time_clip truncate
new_date x = time_clip (truncate x)

-- `a.getTime() - b.getTime()`; `none` is NaN
unfoldable pub time_minus : Date → Date → Option ℤ
time_minus (at a) (at b) = some (a -ℤ b)
time_minus _ _ = none

-- `a.getTime() >= b.getTime()`
unfoldable pub time_ge : Date → Date → Bool
time_ge (at a) (at b) = leb_ℤ b a
time_ge _ _ = false
