-- ===== src/Recurrence/Plan.antt =====
-- `nextDueDate` and `buildPlan`. The database is read into a `Snapshot`: the meetings in the order of
-- the query (date, begin time, id), and every agenda appearance and skipped recurrence. Identifiers
-- are only compared, so they are numbers; of `contentEditedAt` it only matters that it is set.
use elderflow.Shared.{
  ℕ, Bool, true, false, not, ◌&&◌, ◌||◌, Option, none, some, List, [], ◌∷◌, leb, ◌==◌,
  if◌then◌else◌, find, filter, any,
}
use elderflow.Shared.Errors.{
  Result, ok, err, conflict, recurrence_edited_appearance_conflict, ◌>>=◌,
}
use elderflow.Recurrence.Dates.{Date, RecurrenceUnit, key, before}

pub data MeetingStatus : Type 0 where
  planned in_progress completed : MeetingStatus

-- `active` is the status "open".
pub data TopicStatus : Type 0 where
  active deferred done : TopicStatus

pub data AgendaAppearanceSource : Type 0 where
  manual recurrence : AgendaAppearanceSource

pub record Meeting : Type 0 where
  pub id : ℕ
  pub date : Date
  pub status : MeetingStatus

pub data AppearanceStatus : Type 0 where
  planned discussed skipped moved done : AppearanceStatus

pub record MeetingTopic : Type 0 where
  pub id : ℕ
  pub meeting_id : ℕ
  pub topic_id : ℕ
  pub section_id : ℕ
  pub position : ℕ
  pub source : AgendaAppearanceSource
  pub planned_duration : Option ℕ
  pub status : AppearanceStatus
  pub content_edited : Bool

pub record Topic : Type 0 where
  pub id : ℕ
  pub is_recurring : Bool
  pub status : TopicStatus
  pub recurrence_first_due_date : Date
  pub recurrence_interval : ℕ
  pub recurrence_unit : RecurrenceUnit
  pub default_section_id : Option ℕ
  pub default_position : Option ℕ

pub record SkippedRecurrence : Type 0 where
  pub topic_id : ℕ
  pub meeting_id : ℕ

pub record Snapshot : Type 0 where
  pub meetings : List Meeting
  pub meeting_topics : List MeetingTopic
  pub skipped : List SkippedRecurrence
  pub sections : List ℕ
  pub topics : List Topic

pub record SourceAppearance : Type 0 where
  pub id : ℕ
  pub meeting_id : ℕ

pub record Move : Type 0 where
  pub meeting_id : ℕ
  pub section_id : ℕ
  pub position : ℕ
  pub source_appearance : Option SourceAppearance

pub record RecurrenceReconciliationPlan : Type 0 where
  pub moves : List Move
  pub removals : List SourceAppearance

abbrev pub is_planned : Meeting → Bool
is_planned m = elim m.status [ MeetingStatus.planned ↦ true | _ ↦ false ]

abbrev pub from_recurrence : MeetingTopic → Bool
from_recurrence item = elim item.source [
  | AgendaAppearanceSource.recurrence ↦ true
  | AgendaAppearanceSource.manual ↦ false
]

abbrev pub meeting_with : ℕ → List Meeting → Option Meeting
meeting_with id = find λ m. m.id == id

-- `item.meeting?.status === 'planned'`.
abbrev pub on_planned : Option Meeting → Bool
on_planned none = false
on_planned (some m) = is_planned m

abbrev pub is_movable : List Meeting → MeetingTopic → Bool
is_movable meetings item =
    from_recurrence item
    && not item.content_edited
    && on_planned (meeting_with item.meeting_id meetings)

-- The appearances of the topic on these meetings.
abbrev pub appears : List Meeting → Topic → MeetingTopic → Bool
appears meetings topic item =
    item.topic_id == topic.id && any (λ m. m.id == item.meeting_id) meetings

unfoldable pub appearances_of : Snapshot → Topic → List MeetingTopic
appearances_of db topic = filter (appears db.meetings topic) db.meeting_topics

abbrev pub date_key : List Meeting → MeetingTopic → ℕ
date_key meetings item = elim (meeting_with item.meeting_id meetings) [
  | none ↦ 0
  | some m ↦ key m.date
]

-- `Array.prototype.sort` by a key: stable.
module _ {ℓ} {A : Type ℓ} (rank : A → ℕ) where
  unfoldable pub insert : A → List A → List A
  insert x [] = x ∷ []
  insert x (y ∷ ys) = if leb (rank x) (rank y) then x ∷ y ∷ ys else y ∷ insert x ys

  unfoldable pub sort_by : List A → List A
  unfolding insert
  sort_by [] = []
  sort_by (x ∷ xs) = insert x (sort_by xs)

unfoldable pub movable_of : Snapshot → Topic → List MeetingTopic
unfolding appearances_of
movable_of db topic =
    sort_by (date_key db.meetings) (filter (is_movable db.meetings) (appearances_of db topic))

unfoldable pub last_with {ℓ} : {A : Type ℓ} → (A → Bool) → List A → Option A
last_with test [] = none
last_with test (x ∷ xs) = elim (last_with test xs) [
  | none ↦ if test x then some x else none
  | some y ↦ some y
]

-- `fixedByMeeting.get`: the last of the appearances that are not movable there.
abbrev pub fixed_at : List Meeting → List MeetingTopic → ℕ → Option MeetingTopic
fixed_at meetings appearances meeting_id =
    last_with (λ item. not (is_movable meetings item) && item.meeting_id == meeting_id) appearances

abbrev pub is_skipped : Snapshot → Topic → ℕ → Bool
is_skipped db topic meeting_id =
    any (λ s. s.topic_id == topic.id && s.meeting_id == meeting_id) db.skipped

abbrev pub some_test {ℓ} : {A : Type ℓ} → Option A → Bool
some_test none = false
some_test (some x) = true

abbrev pub edited_conflict {ℓ} : {A : Type ℓ} → Result A
edited_conflict = err conflict recurrence_edited_appearance_conflict

abbrev pub date_before : Option Meeting → Date → Bool
date_before none due = false
date_before (some m) due = before m.date due

-- What the loop over the meetings reads: the fixed appearances, the skips and the interval.
module _ (fixed : ℕ → Option MeetingTopic) (skipped : ℕ → Bool) (advance : Date → Date) where
  -- `meetings.slice(index + 1).find((later) => fixedByMeeting.has(later.id))`.
  abbrev pub next_preserved : List Meeting → Option Meeting
  next_preserved = find λ m. some_test (fixed m.id)

  abbrev pub passes_over : Meeting → Date → Bool
  passes_over m due = not (is_planned m) || before m.date due || skipped m.id

  abbrev pub conflicts : MeetingTopic → Meeting → Date → Bool
  conflicts item m due = from_recurrence item && is_planned m && before m.date due

  -- The meetings on which the topic should appear, from a due date on.
  unfoldable pub desired_from : List Meeting → Date → Result (List Meeting)
  desired_from [] due = ok []
  desired_from (m ∷ later) due = elim (fixed m.id) [
    | some item ↦ elim (conflicts item m due) [
      | true ↦ edited_conflict
      | false ↦ desired_from later (advance m.date)
    ]
    | none ↦ elim (passes_over m due) [
      | true ↦ desired_from later due
      | false ↦ elim (date_before (next_preserved later) (advance m.date)) [
        | true ↦ edited_conflict
        | false ↦ desired_from later (advance m.date) >>= λ rest. ok (m ∷ rest)
      ]
    ]
  ]
