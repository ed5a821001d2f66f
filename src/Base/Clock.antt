-- ===== src/Base/Clock.antt =====
-- Times. `datetime.now(UTC)` is an argument of the calls that read it, in microseconds since the
-- epoch; a date is the number of its day.
use mathlib.Core.Bool.{Bool, false}
use mathlib.Core.Option.{Option, none, some}
use Prim.Native.Nat.{ℕ, ◌/◌}
use keryx_talos.Base.Tests.{◌==◌}

abbrev pub microseconds_per_second : ℕ
microseconds_per_second = 1_000_000

abbrev pub microseconds_per_minute : ℕ
microseconds_per_minute = 60_000_000

abbrev pub microseconds_per_day : ℕ
microseconds_per_day = 86_400_000_000

-- `datetime.now(UTC).strftime("%Y-%m-%d")`
abbrev pub date_of : ℕ → ℕ
date_of now = now / microseconds_per_day

-- A stored date, `none` before the first, is the date of today.
abbrev pub same_date : Option ℕ → ℕ → Bool
same_date none today = false
same_date (some d) today = d == today
