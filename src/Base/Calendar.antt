-- ===== src/Base/Calendar.antt =====
-- Python's `datetime`: the calendar, and the order of moments.
use Prim.Native.Nat.{ℕ, zero, suc, ◌+◌, ◌-◌, ◌*◌, ◌/◌, ◌%◌, ◌≤◌, ◌<◌}
use mathlib.Core.Path.{◌≡◌, refl, ap, ◌∙◌}
use mathlib.Core.Bool.{Bool, not, ◌&&◌, ◌||◌}
use native.Mathlib.Omega.{arith}
use mathlib.Core.Logic.{inl, inr}
use keryx_talos.Base.Tests.{Bool-cases, if◌then◌else◌, ltb, ◌==◌}
use keryx_talos.Base.Clock.{microseconds_per_day}

pub record Date : Type 0 where
  pub year : ℕ
  pub month : ℕ
  pub day : ℕ

-- `clock` counts the microseconds of the day.
pub record DateTime : Type 0 where
  pub date : Date
  pub clock : ℕ

abbrev pub is_leap : ℕ → Bool
is_leap year = year % 4 == 0 && (not (year % 100 == 0) || year % 400 == 0)

-- `calendar.monthrange(year, month)[1]`
abbrev pub days_in_month : ℕ → ℕ → ℕ
days_in_month year month =
    if month == 2
    then (if is_leap year then 29 else 28)
    else if month == 4 || month == 6 || month == 9 || month == 11
    then 30
    else 31

-- The days of a year before a month.
abbrev pub days_before_month : ℕ → ℕ → ℕ
days_before_month year zero = 0
days_before_month year (suc zero) = 0
days_before_month year (suc (suc m)) = days_before_month year (suc m) + days_in_month year (suc m)

-- The days before a year, from year 1.
abbrev pub days_before_year : ℕ → ℕ
days_before_year year = let y = year - 1 in y * 365 + y / 4 - y / 100 + y / 400

-- `date.toordinal`
abbrev pub to_ordinal : Date → ℕ
to_ordinal d = days_before_year d.year + days_before_month d.year d.month + d.day

-- `date.weekday`: 0 is Monday.
abbrev pub weekday : Date → ℕ
weekday d = (to_ordinal d + 6) % 7

-- A date plus `timedelta(days=1)`.
abbrev pub next_day : Date → Date
next_day d =
    if ltb d.day (days_in_month d.year d.month)
    then record { year = d.year; month = d.month; day = d.day + 1 }
    else if d.month == 12
    then record { year = d.year + 1; month = 1; day = 1 }
    else record { year = d.year; month = d.month + 1; day = 1 }

abbrev pub add_days : ℕ → Date → Date
add_days zero d = d
add_days (suc n) d = add_days n (next_day d)

-- The moments in the order of time.
abbrev pub instant : DateTime → ℕ
instant t = to_ordinal t.date * microseconds_per_day + t.clock

abbrev pub IsDate : Date → Type 0
IsDate d =
    (1 ≤ d.year)
    × (1 ≤ d.month)
    × (d.month ≤ 12)
    × (1 ≤ d.day)
    × (d.day ≤ days_in_month d.year d.month)

abbrev pub IsMoment : DateTime → Type 0
IsMoment t = IsDate t.date × (t.clock < microseconds_per_day)

pub days_before_year-suc :
    (y : ℕ)
    → 1 ≤ y
    → days_before_year (suc y) ≡ days_before_year y + (if is_leap y then 366 else 365)
days_before_year-suc y h = ground arith

pub year_days : (y : ℕ) → days_before_month y 12 + 31 ≡ (if is_leap y then 366 else 365)
year_days y = ground arith

pub days_before_month-next :
    (y m : ℕ) → 1 ≤ m → days_before_month y (m + 1) ≡ days_before_month y m + days_in_month y m
days_before_month-next y zero h = absurd (omega arith)
days_before_month-next y (suc m) h = let e : suc m + 1 ≡ suc (suc m) = omega arith in rw e refl

pub month_end :
    (y m : ℕ)
    → 1 ≤ m
    → m ≤ 11
    → to_ordinal (record { year = y; month = m + 1; day = 1 })
      ≡ to_ordinal (record { year = y; month = m; day = days_in_month y m }) + 1
month_end y m h k = rw (days_before_month-next y m h) (omega arith)

pub year_end :
    (y : ℕ)
    → 1 ≤ y
    → to_ordinal (record { year = y + 1; month = 1; day = 1 })
      ≡ to_ordinal (record { year = y; month = 12; day = 31 }) + 1
year_end y h =
    let e : y + 1 ≡ suc y = omega arith in
    rw (e, days_before_year-suc y h) (omega (arith, year_days y))

pub to_ordinal-next_day : (d : Date) → IsDate d → to_ordinal (next_day d) ≡ to_ordinal d + 1
to_ordinal-next_day d h = elim (Bool-cases (ltb d.day (days_in_month d.year d.month))) [
  | inl more ↦ rw more (omega arith)
  | inr last ↦
      let e : d.day ≡ days_in_month d.year d.month = ground arith in
      rw last (elim (Bool-cases (d.month == 12)) [
        | inl dec ↦ rw dec (
            let m : d.month ≡ 12 = ground arith in
            let q : days_before_month d.year d.month ≡ days_before_month d.year 12 =
              ap (days_before_month d.year) m in
            let k : d.day ≡ 31 = e ∙ ap (days_in_month d.year) m in
            omega (arith, year_end d.year h.0))
        | inr other ↦
            rw other
              (let k : d.month ≤ 11 = ground arith in omega (arith, month_end d.year d.month h.1 k))
      ])
]

pub next_day-IsDate : (d : Date) → IsDate d → IsDate (next_day d)
next_day-IsDate d h = ground arith

pub add_days-IsDate : (n : ℕ) (d : Date) → IsDate d → IsDate (add_days n d)
add_days-IsDate zero d h = h
add_days-IsDate (suc n) d h = add_days-IsDate n (next_day d) (next_day-IsDate d h)

pub to_ordinal-add_days :
    (n : ℕ) (d : Date) → IsDate d → to_ordinal (add_days n d) ≡ to_ordinal d + n
to_ordinal-add_days zero d h = omega arith
to_ordinal-add_days (suc n) d h =
    omega (arith, to_ordinal-add_days n (next_day d) (next_day-IsDate d h), to_ordinal-next_day d h)
