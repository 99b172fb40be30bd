-- ===== src/Recurrence/Tests.antt =====
-- Dates and plans that can be followed in the source, and the theorems at concrete inputs.
use mathlib.Core.List.{Mem, Perm}
use elderflow.Shared.{
  ℕ, ◌≤◌, ◌≡◌, refl, true, false, none, some, List, [], ◌∷◌, ◌++◌, arith, find, filter, any, map,
  All, ◌≢◌,
}
use elderflow.Shared.Sets
use elderflow.Shared.Errors.{ok}
use elderflow.Recurrence.Dates.{
  Date, RecurrenceUnit, key, before, is_leap, final_day, next_day, add_days, add_months,
  add_interval, IsDate,
}
use elderflow.Recurrence.Intervals.{add_interval_later, add_interval-add}
use elderflow.Recurrence.Plan.{
  MeetingStatus, TopicStatus, AgendaAppearanceSource, AppearanceStatus, Meeting, MeetingTopic,
  Topic, Snapshot, RecurrenceReconciliationPlan, appearances_of, insert, sort_by, movable_of,
  last_with, desired_from, fixed_at, is_skipped,
}
use elderflow.Recurrence.Build.{
  target_on, take_first, take_source, relocate, place, build_plan, plan, last_of, next_due_date,
  source_of, desired_of,
}
use elderflow.Recurrence.Schedule.{Spaced, IsFree, desired_from-IsFree}
use elderflow.Recurrence.Conservation.{sources, kept, place_conserves}
use elderflow.Recurrence.Touched.{IsTaken, touched, plan-IsTaken}
use elderflow.Recurrence.Planning.{desired_of-Spaced, next_due_date_lem}

planner : Unit {0}
unfolding find filter any Sets.contains is_leap final_day next_day add_days add_months add_interval
    appearances_of insert sort_by movable_of last_with desired_from target_on take_first take_source
    relocate place build_plan plan last_of next_due_date
planner = tt

abbrev on_day : ℕ → ℕ → ℕ → Date
on_day year month day = record { year = year; month = month; day = day }

abbrev january : Date
january = on_day 2027 1 31

intervals :
    (add_interval january 1 RecurrenceUnit.months ≡ on_day 2027 2 28)
    × (add_interval (on_day 2028 1 31) 13 RecurrenceUnit.months ≡ on_day 2029 2 28)
    × (add_interval (on_day 2028 2 22) 1 RecurrenceUnit.weeks ≡ on_day 2028 2 29)
    × (add_interval (on_day 2026 12 28) 2 RecurrenceUnit.weeks ≡ on_day 2027 1 11)
unfolding planner
intervals = (refl, refl, refl, refl)

january-IsDate : IsDate january
unfolding planner
january-IsDate = omega arith

add_interval_later_example :
    IsDate (add_interval january 1 RecurrenceUnit.months)
    × (before january (add_interval january 1 RecurrenceUnit.months) ≡ true)
add_interval_later_example =
    add_interval_later january 1 RecurrenceUnit.months january-IsDate (omega arith)

abbrev early : Date
early = on_day 2027 11 5

early-IsDate : IsDate early
unfolding planner
early-IsDate = omega arith

add_interval-add_example :
    add_interval (add_interval early 2 RecurrenceUnit.months) 3 RecurrenceUnit.months
    ≡ add_interval early 5 RecurrenceUnit.months
add_interval-add_example =
    add_interval-add 2 3 RecurrenceUnit.months early early-IsDate (omega arith)

abbrev meeting_on : ℕ → Date → Meeting
meeting_on id date = record { id = id; date = date; status = MeetingStatus.planned }

-- The topic 4 appears on the agenda of 1 by recurrence, where it is due, and on that of 2 a week
-- later, where it is not; it is due again on 3.
abbrev appearance : ℕ → ℕ → MeetingTopic
appearance id meeting = record {
  id = id;
  meeting_id = meeting;
  topic_id = 4;
  section_id = 6;
  position = 1;
  source = AgendaAppearanceSource.recurrence;
  planned_duration = none;
  status = AppearanceStatus.planned;
  content_edited = false;
}

abbrev monthly : Topic
monthly = record {
  id = 4;
  is_recurring = true;
  status = TopicStatus.active;
  recurrence_first_due_date = on_day 2027 1 5;
  recurrence_interval = 1;
  recurrence_unit = RecurrenceUnit.months;
  default_section_id = some 6;
  default_position = none;
}

abbrev winter : Snapshot
winter = record {
  meetings =
      meeting_on 1 (on_day 2027 1 5)
      ∷ meeting_on 2 (on_day 2027 1 12)
      ∷ meeting_on 3 (on_day 2027 2 9)
      ∷ [];
  meeting_topics = appearance 21 1 ∷ appearance 22 2 ∷ [];
  skipped = [];
  sections = 6 ∷ [];
  topics = monthly ∷ [];
}

abbrev wanted : List Meeting
wanted = meeting_on 1 (on_day 2027 1 5) ∷ meeting_on 3 (on_day 2027 2 9) ∷ []

abbrev winter_plan : RecurrenceReconciliationPlan
winter_plan = record {
  moves =
      record {
        meeting_id = 3;
        section_id = 6;
        position = 1;
        source_appearance = some (record { id = 22; meeting_id = 2 });
      }
      ∷ [];
  removals = [];
}

planned : (plan winter 4 ≡ ok winter_plan) × (desired_of winter monthly ≡ ok wanted)
unfolding planner
planned = (refl, refl)

plan-IsTaken_example : All (IsTaken winter 4) (touched winter_plan)
plan-IsTaken_example = plan-IsTaken winter 4 winter_plan planned.0

winter_dates : All (λ (m : Meeting). IsDate m.date) winter.meetings
unfolding planner
winter_dates = omega arith

desired_of-Spaced_example : Spaced (λ d. add_interval d 1 RecurrenceUnit.months) 0 wanted
desired_of-Spaced_example =
    desired_of-Spaced winter monthly wanted winter_dates (omega arith) (omega arith) planned.1

desired_from-IsFree_example :
    All
      (IsFree
        (fixed_at winter.meetings (appearances_of winter monthly))
        (is_skipped winter monthly)
        (λ d. add_interval d 1 RecurrenceUnit.months))
      wanted
desired_from-IsFree_example =
    desired_from-IsFree (fixed_at winter.meetings (appearances_of winter monthly))
      (is_skipped winter monthly) (λ d. add_interval d 1 RecurrenceUnit.months) winter.meetings
      (on_day 2027 1 5) wanted planned.1

place_conserves_example : Perm (map source_of (movable_of winter monthly)) (
    map source_of (kept winter monthly (movable_of winter monthly) 6 wanted)
    ++ (sources (place winter monthly (movable_of winter monthly) 6 wanted).moves
        ++ (place winter monthly (movable_of winter monthly) 6 wanted).removals))
place_conserves_example = place_conserves winter monthly (movable_of winter monthly) 6 wanted

abbrev appeared : List Date
appeared = on_day 2027 3 2 ∷ on_day 2027 4 6 ∷ on_day 2027 1 5 ∷ []

appeared_some : appeared ≢ []
appeared_some = cc

next_due_date_lem_example :
    (latest : Date) × Mem latest appeared
    × ((d : Date) → Mem d appeared → key d ≤ key latest)
    × (next_due_date
          (record {
            recurrence_first_due_date = some january;
            recurrence_interval = 2;
            recurrence_unit = some RecurrenceUnit.weeks;
          })
          appeared
        ≡ ok (add_interval latest 2 RecurrenceUnit.weeks))
next_due_date_lem_example =
    next_due_date_lem january 2 RecurrenceUnit.weeks appeared (omega arith) appeared_some
