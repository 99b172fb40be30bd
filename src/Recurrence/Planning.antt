-- ===== src/Recurrence/Planning.antt =====
-- What `buildPlan` and `nextDueDate` promise: how far apart the desired
-- appearances are, and which appearance the next due date follows.
use mathlib.Core.List.{Mem, mem-cons_self, mem-cons_of_mem, mem-cons, not-mem-nil}
use mathlib.Core.Logic.Or
use native.Mathlib.Bridge.{le_prop}
use mathlib.Core.List.Perm
use elderflow.Shared.{
  ℕ, ◌≤◌, ◌<◌, ◌≡◌, refl, ap, ◌∙◌, ◌≢◌, Bool, true, not, Option, some, List, [], ◌∷◌, arith, ◌==◌,
  leb, leb→le, All, inl, inr, Bool-cases, All-map, ltb→lt,
}
use elderflow.Shared.Errors.{ok}
use elderflow.Recurrence.Dates.{Date, RecurrenceUnit, key, add_interval, IsDate}
use elderflow.Recurrence.Intervals.{add_interval_later}
use elderflow.Recurrence.Plan.{Meeting, MeetingTopic, Topic, Snapshot, insert, sort_by, is_skipped}
use elderflow.Recurrence.Build.{
  desired_of, last_of, next_after, RecurrenceConfiguration, next_due_date,
}
use elderflow.Recurrence.Conservation.{sort_by-perm}
use elderflow.Recurrence.Schedule.{Spaced, InOrder, FixedFrom, desired_from-Spaced}

FixedFrom-zero :
    (fixed : ℕ → Option MeetingTopic) (skipped : ℕ → Bool) (advance : Date → Date)
    (ms : List Meeting)
    → FixedFrom fixed skipped advance 0 ms
FixedFrom-zero fixed skipped advance [] = tt
FixedFrom-zero fixed skipped advance (m ∷ ms) =
    ((λ _. omega arith), FixedFrom-zero fixed skipped advance ms)

-- Two agendas on which a plan wants a topic are at least one interval apart, though appearances that
-- must stay, skipped and completed meetings stand between them.
pub desired_of-Spaced :
    (db : Snapshot) (topic : Topic) (picked : List Meeting)
    → All (λ m. IsDate m.date) db.meetings
    → InOrder 0 db.meetings
    → 0 < topic.recurrence_interval
    → desired_of db topic ≡ ok picked
    → Spaced (λ d. add_interval d topic.recurrence_interval topic.recurrence_unit) 0 picked
desired_of-Spaced db topic picked dates o h e =
    desired_from-Spaced _ (is_skipped db topic) _ db.meetings topic.recurrence_first_due_date picked
      0 0 (All-map _ _ db.meetings grows dates) o
      (FixedFrom-zero _ (is_skipped db topic)
        (λ d. add_interval d topic.recurrence_interval topic.recurrence_unit) db.meetings)
      (omega arith) e
  where
    grows :
        (m : Meeting)
        → IsDate m.date
        → key m.date ≤ key (add_interval m.date topic.recurrence_interval topic.recurrence_unit)
    grows m v =
        let later = add_interval_later m.date topic.recurrence_interval topic.recurrence_unit v h in
        omega (
          arith,
          ltb→lt (key m.date)
              (key (add_interval m.date topic.recurrence_interval topic.recurrence_unit)) later.1,
        )

-- In order of key.
abbrev Ascending : ℕ → List Date → Type 0
Ascending from [] = Unit
Ascending from (d ∷ ds) = (from ≤ key d) × Ascending (key d) ds

insert-Ascending :
    (from : ℕ) (d : Date) (ds : List Date)
    → from ≤ key d
    → Ascending from ds
    → Ascending from (insert key d ds)
unfolding insert
insert-Ascending from d [] h o = (h, tt)
insert-Ascending from d (c ∷ ds) h o = elim (Bool-cases (leb (key d) (key c))) [
  | inl e ↦ rw e (h, (leb→le (key d) (key c) e, o.1))
  | inr e ↦ rw e (o.0, insert-Ascending (key c) d ds (ground arith) o.1)
]

sort_by-Ascending : (ds : List Date) → Ascending 0 (sort_by key ds)
unfolding sort_by
sort_by-Ascending [] = tt
sort_by-Ascending (d ∷ ds) =
    insert-Ascending 0 d (sort_by key ds) (omega arith) (sort_by-Ascending ds)

-- The last date of an ascending list, and that none is later.
abbrev IsLast : ℕ → List Date → Date → Type 0
IsLast from ds latest =
    (last_of ds ≡ some latest)
    × Mem latest ds
    × All (λ d. key d ≤ key latest) ds
    × (from ≤ key latest)

IsLast-of-Ascending :
    (from : ℕ) (d : Date) (ds : List Date)
    → Ascending from (d ∷ ds)
    → (latest : Date) × IsLast from (d ∷ ds) latest
unfolding last_of
IsLast-of-Ascending from d [] o = (d, (refl, mem-cons_self, (omega arith, tt), o.0))
IsLast-of-Ascending from d (c ∷ ds) o =
    let (latest, ih) = IsLast-of-Ascending (key d) c ds o.1 in
    (
      latest,
      (rw (ih.0, last_of) refl, mem-cons_of_mem d ih.1, (ih.3, ih.2), omega (arith, o.0, ih.3)),
    )

IsLast-of-sorted :
    (sorted : List Date)
    → Ascending 0 sorted
    → sorted ≢ []
    → (latest : Date) × IsLast 0 sorted latest
IsLast-of-sorted [] o h = absurd (h refl)
IsLast-of-sorted (d ∷ ds) o h = IsLast-of-Ascending 0 d ds o

le_of_All : (n : ℕ) (d : Date) (ds : List Date) → All (λ c. key c ≤ n) ds → Mem d ds → key d ≤ n
le_of_All n d [] h m = absurd (not-mem-nil m)
le_of_All n d (c ∷ ds) h m = Or.elim le_prop (mem-cons.0 m) (λ e. rw e h.0) (le_of_All n d ds h.1)

abbrev complete : Date → ℕ → RecurrenceUnit → RecurrenceConfiguration
complete first interval unit = record {
  recurrence_first_due_date = some first;
  recurrence_interval = interval;
  recurrence_unit = some unit;
}

next_due_date-complete :
    (first : Date) (interval : ℕ) (unit : RecurrenceUnit) (dates : List Date)
    → 0 < interval
    → next_due_date (complete first interval unit) dates
      ≡ ok (next_after interval unit first (last_of (sort_by key dates)))
unfolding next_due_date
next_due_date-complete first interval unit dates h =
    let positive : not (interval == 0) ≡ true = ground arith in rw positive refl

sort_by_empty : (ds : List Date) → sort_by key ds ≡ [] → ds ≡ []
sort_by_empty [] e = refl
sort_by_empty (d ∷ ds) e =
    absurd (not-mem-nil ((Perm.mem_iff (rw e at (sort_by-perm key (d ∷ ds)))).0 mem-cons_self))

-- A complete configuration without an appearance is due on its first date.
next_due_date_first :
    (first : Date) (interval : ℕ) (unit : RecurrenceUnit)
    → 0 < interval
    → next_due_date (complete first interval unit) [] ≡ ok first
unfolding last_of sort_by
next_due_date_first first interval unit h = next_due_date-complete first interval unit [] h

-- A complete configuration with an appearance is next due one interval after its latest appearance,
-- in whatever order the appearances are given.
pub next_due_date_lem :
    (first : Date) (interval : ℕ) (unit : RecurrenceUnit) (dates : List Date)
    → 0 < interval
    → dates ≢ []
    → (latest : Date) × Mem latest dates
      × ((d : Date) → Mem d dates → key d ≤ key latest)
      × (next_due_date (complete first interval unit) dates
          ≡ ok (add_interval latest interval unit))
next_due_date_lem first interval unit dates h some_date =
    let sorted = sort_by key dates in
    let (latest, last) =
      IsLast-of-sorted sorted (sort_by-Ascending dates) (λ e. some_date (sort_by_empty dates e)) in
    (
      latest,
      (Perm.mem_iff (sort_by-perm key dates)).1 last.1,
      (λ d m. le_of_All (key latest) d sorted last.2 ((Perm.mem_iff (sort_by-perm key dates)).0 m)),
      next_due_date-complete first interval unit dates h
          ∙ ap (λ o. ok (next_after interval unit first o)) last.0,
    )
