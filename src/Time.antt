-- ===== src/Time.antt =====
-- What the code uses of package time: a time is its distance in nanoseconds from Go's zero time (the
-- start of the year 1), a duration a signed number of nanoseconds.
use stream_flow.Prelude.{ℕ, ◌-◌, ◌^◌, ◌%◌, Bool, false, ◌==◌}
use stream_flow.Prelude.Int.{ℤ, pos, negsuc, ◌-ℤ◌, ltb_ℤ}

abbrev pub Time : Type 0
Time = ℤ

abbrev pub Duration : Type 0
Duration = ℤ

-- `t.IsZero()`
abbrev pub is_zero : Time → Bool
is_zero (pos n) = n == 0
is_zero (negsuc n) = false

-- `t.After(u)` and `t.Before(u)`
abbrev pub is_after : Time → Time → Bool
is_after t u = ltb_ℤ u t

abbrev pub is_before : Time → Time → Bool
is_before t u = ltb_ℤ t u

-- The start of 1970, and `t.UnixNano()` as an int64.
abbrev pub unix_epoch : Time
unix_epoch = pos 62_135_596_800_000_000_000

abbrev pub int64_of : ℤ → ℕ
int64_of (pos n) = n % 2 ^ 64
int64_of (negsuc n) = 2 ^ 64 - 1 - n % 2 ^ 64

abbrev pub unix_nano : Time → ℕ
unix_nano t = int64_of (t -ℤ unix_epoch)
