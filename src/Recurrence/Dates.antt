-- ===== src/Recurrence/Dates.antt =====
-- `addInterval`, and what it uses of the JavaScript `Date`: the Gregorian calendar, and the carry of
-- a day beyond the end of a month. A date `YYYY-MM-DD` is its three numbers; two such texts compare
-- as the numbers `YYYYMMDD` do. Years have four digits and are 100 or later.
use elderflow.Shared.{
  ℕ, zero, suc, ◌+◌, ◌-◌, ◌*◌, ◌/◌, ◌%◌, ◌≤◌, Bool, not, ◌&&◌, ◌||◌, ltb, leb, ◌==◌, if◌then◌else◌,
}

pub record Date : Type 0 where
  pub year : ℕ
  pub month : ℕ
  pub day : ℕ

pub data RecurrenceUnit : Type 0 where
  weeks months : RecurrenceUnit

abbrev pub key : Date → ℕ
key d = d.year * 10000 + d.month * 100 + d.day

-- `left < right` on the texts.
abbrev pub before : Date → Date → Bool
before left right = ltb (key left) (key right)

unfoldable pub is_leap : ℕ → Bool
is_leap year = year % 4 == 0 && (not (year % 100 == 0) || year % 400 == 0)

-- `new Date(Date.UTC(year, month, 0)).getUTCDate()`, for a month counted from 1.
unfoldable pub final_day : ℕ → ℕ → ℕ
unfolding is_leap
final_day year month =
    if month == 2
    then (if is_leap year then 29 else 28)
    else if month == 4 || month == 6 || month == 9 || month == 11
    then 30
    else 31

unfoldable pub next_day : Date → Date
unfolding final_day
next_day d =
    if ltb d.day (final_day d.year d.month)
    then record d { day = d.day + 1 }
    else if ltb d.month 12
    then record { year = d.year; month = d.month + 1; day = 1 }
    else record { year = d.year + 1; month = 1; day = 1 }

-- `Date.UTC(year, month - 1, day + n)`: the day is carried over the ends of the months.
unfoldable pub add_days : ℕ → Date → Date
unfolding next_day
add_days zero d = d
add_days (suc n) d = add_days n (next_day d)

abbrev pub least : ℕ → ℕ → ℕ
least a b = if leb a b then a else b

-- The month after `interval` months, counted from 0, and its year.
abbrev pub target_month : Date → ℕ → ℕ
target_month d interval = d.month - 1 + interval

unfoldable pub add_months : ℕ → Date → Date
unfolding final_day
add_months interval d =
    let year = d.year + target_month d interval / 12 in
    let month = target_month d interval % 12 + 1 in
    record { year = year; month = month; day = least d.day (final_day year month) }

unfoldable pub add_interval : Date → ℕ → RecurrenceUnit → Date
unfolding add_days add_months
add_interval d interval RecurrenceUnit.weeks = add_days (interval * 7) d
add_interval d interval RecurrenceUnit.months = add_months interval d

-- A date of the calendar.
pub record IsDate (d : Date) : Type 0 where
  pub first_month : 1 ≤ d.month
  pub last_month : d.month ≤ 12
  pub first_day : 1 ≤ d.day
  pub last_day : d.day ≤ final_day d.year d.month
