-- ===== src/Recurrence/Intervals.antt =====
-- Adding an interval: the result is a date, it is later, and the intervals add up.
use elderflow.Shared.{
  ℕ, zero, suc, ◌+◌, ◌-◌, ◌*◌, ◌/◌, ◌%◌, ◌≤◌, ◌<◌, ◌≡◌, refl, sym, ap, ◌∙◌, true, arith, lt→ltb,
}
use elderflow.Recurrence.Dates.{
  Date, RecurrenceUnit, key, before, final_day, next_day, add_days, least, target_month, add_months,
  add_interval, IsDate,
}

final_day_bounds : (year month : ℕ) → (28 ≤ final_day year month) × (final_day year month ≤ 31)
unfolding final_day
final_day_bounds year month = ground arith

final_day_first : (year : ℕ) → final_day year 1 ≡ 31
unfolding final_day
final_day_first year = refl

next_day-IsDate : (d : Date) → IsDate d → IsDate (next_day d)
unfolding next_day
next_day-IsDate d v =
    ground (arith, final_day_bounds d.year (d.month + 1), final_day_bounds (d.year + 1) 1)

next_day_later : (d : Date) → IsDate d → key d < key (next_day d)
unfolding next_day
next_day_later d v = ground (arith, final_day_bounds d.year d.month)

pub add_days-IsDate : (n : ℕ) (d : Date) → IsDate d → IsDate (add_days n d)
unfolding add_days
add_days-IsDate zero d v = v
add_days-IsDate (suc n) d v = add_days-IsDate n (next_day d) (next_day-IsDate d v)

pub add_days_later : (n : ℕ) (d : Date) → IsDate d → key d + n ≤ key (add_days n d)
unfolding add_days
add_days_later zero d v = omega arith
add_days_later (suc n) d v =
    omega (arith, next_day_later d v, add_days_later n (next_day d) (next_day-IsDate d v))

pub add_days-add : (m n : ℕ) (d : Date) → add_days n (add_days m d) ≡ add_days (m + n) d
unfolding add_days
add_days-add zero n d = let e : n ≡ 0 + n = omega arith in ap (λ k. add_days k d) e
add_days-add (suc m) n d =
    let e : suc (m + n) ≡ suc m + n = omega arith in
    add_days-add m n (next_day d) ∙ ap (λ k. add_days k d) e

add_months-IsDate : (interval : ℕ) (d : Date) → IsDate d → IsDate (add_months interval d)
unfolding add_months
add_months-IsDate interval d v = ground (
  arith,
  final_day_bounds (d.year + target_month d interval / 12) (target_month d interval % 12 + 1),
)

least_bounds : (a b : ℕ) → 1 ≤ a → 1 ≤ b → 1 ≤ least a b
least_bounds a b h k = ground arith

months_later :
    (year month day interval q r first : ℕ)
    → 1 ≤ month
    → month ≤ 12
    → day ≤ 31
    → month - 1 + interval ≡ 12 * q + r
    → 0 < interval
    → 1 ≤ first
    → year * 10000 + month * 100 + day < (year + q) * 10000 + (r + 1) * 100 + first
months_later year month day interval zero r first m m' d e h f = omega arith
months_later year month day interval (suc q) r first m m' d e h f = omega arith

add_months_later :
    (interval : ℕ) (d : Date) → IsDate d → 0 < interval → key d < key (add_months interval d)
unfolding add_months
add_months_later interval d v h =
    let t = target_month d interval in
    let final = final_day (d.year + t / 12) (t % 12 + 1) in
    let here = final_day_bounds d.year d.month in
    let there = final_day_bounds (d.year + t / 12) (t % 12 + 1) in
    months_later d.year d.month d.day interval (t / 12) (t % 12) (least d.day final) v.first_month
      v.last_month (omega (arith, v.last_day, here.1)) (omega arith) h
      (least_bounds d.day final v.first_day (omega (arith, there.0)))

-- The next due date is a date of the calendar and is later than the appearance it follows.
pub add_interval_later :
    (d : Date) (interval : ℕ) (unit : RecurrenceUnit)
    → IsDate d
    → 0 < interval
    → IsDate (add_interval d interval unit) × (before d (add_interval d interval unit) ≡ true)
unfolding add_interval
add_interval_later d interval RecurrenceUnit.weeks v h = (
  add_days-IsDate (interval * 7) d v,
  lt→ltb _ _ (omega (arith, add_days_later (interval * 7) d v)),
)
add_interval_later d interval RecurrenceUnit.months v h =
    (add_months-IsDate interval d v, lt→ltb _ _ (add_months_later interval d v h))

date_path :
    {y y' m m' : ℕ} (d : ℕ)
    → y ≡ y'
    → m ≡ m'
    → ◌≡◌ {A = Date}
        (record { year = y; month = m; day = d })
        (record { year = y'; month = m'; day = d })
date_path d p q = λ i. record { year = p i; month = q i; day = d }

-- On a day that every month has, nothing is cut.
add_months_of_short :
    (interval : ℕ) (d : Date)
    → d.day ≤ 28
    → add_months interval d ≡ record {
      year = d.year + target_month d interval / 12;
      month = target_month d interval % 12 + 1;
      day = d.day;
    }
unfolding add_months
add_months_of_short interval d h =
    let there =
      final_day_bounds (d.year + target_month d interval / 12) (target_month d interval % 12 + 1) in
    ground arith

-- On a day that every month has, adding months twice adds their sum; weeks always add up.
pub add_interval-add :
    (m n : ℕ) (unit : RecurrenceUnit) (d : Date)
    → IsDate d
    → d.day ≤ 28
    → add_interval (add_interval d m unit) n unit ≡ add_interval d (m + n) unit
unfolding add_interval
add_interval-add m n RecurrenceUnit.weeks d v h =
    let e : m * 7 + n * 7 ≡ (m + n) * 7 = omega arith in
    add_days-add (m * 7) (n * 7) d ∙ ap (λ k. add_days k d) e
add_interval-add m n RecurrenceUnit.months d v h =
    let t = target_month d m in
    let first : Date = record { year = d.year + t / 12; month = t % 12 + 1; day = d.day } in
    let year : d.year + t / 12 + target_month first n / 12 ≡ d.year + target_month d (m + n) / 12 =
      omega arith in
    let month : target_month first n % 12 + 1 ≡ target_month d (m + n) % 12 + 1 = omega arith in
    ap (add_months n) (add_months_of_short m d h)
    ∙ add_months_of_short n first h
    ∙ date_path d.day year month
    ∙ sym (add_months_of_short (m + n) d h)
