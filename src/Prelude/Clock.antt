-- ===== src/Prelude/Clock.antt =====
-- `time.Time` and `time.Duration` as nanoseconds; a time counts from Go's zero time, so the zero
-- value of `time.Time` is 0.
use Prim.Native.Nat.{ℕ, ◌+◌, ◌*◌}
use mathlib.Core.Bool.{Bool}
use gridlink.Prelude.Tests.{ltb}

abbrev pub Time : Type 0
Time = ℕ

abbrev pub Duration : Type 0
Duration = ℕ

abbrev pub second : Duration
second = 1_000_000_000

abbrev pub minute : Duration
minute = 60 * second

-- `now.Sub(t) > d`
abbrev pub older_than : Time → Time → Duration → Bool
older_than now t d = ltb (t + d) now
