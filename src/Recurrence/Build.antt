-- ===== src/Recurrence/Build.antt =====
-- The second half of `buildPlan`: the position on each desired agenda, and which movable appearance
-- is kept, moved there or removed. `validate`, `plan` and `nextDueDate`.
use elderflow.Shared.{
  ℕ, ◌+◌, Bool, true, false, not, ◌&&◌, Option, none, some, List, [], ◌∷◌, ◌==◌, if◌then◌else◌,
  length, find, filter, map,
}
use elderflow.Shared.Errors.{
  Result, ok, err, bad_request, not_found, recurrence_configuration_invalid, topic_not_found, ◌>>=◌,
  ◌>>◌, require, or_throw,
}
use elderflow.Shared.Sets.{contains}
use elderflow.Recurrence.Dates.{Date, RecurrenceUnit, key, add_interval, least}
use elderflow.Recurrence.Plan.{
  TopicStatus, Meeting, MeetingTopic, Topic, Snapshot, SourceAppearance, Move,
  RecurrenceReconciliationPlan, appearances_of, movable_of, fixed_at, is_skipped, desired_from,
  sort_by,
}

pub record Target : Type 0 where
  pub meeting : Meeting
  pub position : ℕ
  pub stable : Bool

abbrev pub source_of : MeetingTopic → SourceAppearance
source_of item = record { id = item.id; meeting_id = item.meeting_id }

abbrev pub is_exact : ℕ → Option MeetingTopic → Bool
is_exact id none = false
is_exact id (some exact) = id == exact.id

abbrev pub section_items : Snapshot → ℕ → ℕ → Option MeetingTopic → List MeetingTopic
section_items db meeting_id section_id exact =
    filter
      (λ item.
        item.meeting_id == meeting_id
        && item.section_id == section_id
        && not (is_exact item.id exact))
      db.meeting_topics

-- `Math.min(topic.defaultPosition ?? count + 1, count + 1)`.
abbrev pub position_among : Option ℕ → ℕ → ℕ
position_among none count = least (count + 1) (count + 1)
position_among (some position) count = least position (count + 1)

abbrev pub is_stable : ℕ → ℕ → Option MeetingTopic → Bool
is_stable section_id position none = false
is_stable section_id position (some exact) =
    exact.section_id == section_id && exact.position == position

unfoldable pub target_on : Snapshot → Topic → List MeetingTopic → ℕ → Meeting → Target
target_on db topic movable section_id m =
    let exact = find (λ (item : MeetingTopic). item.meeting_id == m.id) movable in
    let position =
      position_among topic.default_position (length (section_items db m.id section_id exact)) in
    record { meeting = m; position = position; stable = is_stable section_id position exact }

abbrev pub stable_meeting_ids : List Target → List ℕ
stable_meeting_ids targets = map (λ t. t.meeting.id) (filter (λ t. t.stable) targets)

-- The first element with a property, and the list without it.
unfoldable pub take_first {ℓ} : {A : Type ℓ} → (A → Bool) → List A → Option (A × List A)
take_first test [] = none
take_first test (x ∷ xs) = elim (test x) [
  | true ↦ some (x, xs)
  | false ↦ elim (take_first test xs) [ none ↦ none | some (y, ys) ↦ some (y, x ∷ ys) ]
]

abbrev pub take_any {ℓ} : {A : Type ℓ} → List A → Option (A × List A)
take_any [] = none
take_any (x ∷ xs) = some (x, xs)

-- `reusable.splice(exactIndex >= 0 ? exactIndex : 0, 1)[0] ?? null`.
unfoldable pub take_source : ℕ → List MeetingTopic → Option (MeetingTopic × List MeetingTopic)
unfolding take_first
take_source meeting_id reusable =
    elim (take_first (λ (item : MeetingTopic). item.meeting_id == meeting_id) reusable) [
      | none ↦ take_any reusable
      | some taken ↦ some taken
    ]

abbrev pub move_to : ℕ → Target → Option SourceAppearance → Move
move_to section_id t source = record {
  meeting_id = t.meeting.id;
  section_id = section_id;
  position = t.position;
  source_appearance = source;
}

-- The moves, and the appearances that no target takes.
unfoldable pub relocate : ℕ → List Target → List MeetingTopic → List Move × List MeetingTopic
unfolding take_source
relocate section_id [] reusable = ([], reusable)
relocate section_id (t ∷ targets) reusable = elim t.stable [
  | true ↦ relocate section_id targets reusable
  | false ↦ elim (take_source t.meeting.id reusable) [
    | none ↦
        let (moves, rest) = relocate section_id targets reusable in
        (move_to section_id t none ∷ moves, rest)
    | some (item, others) ↦
        let (moves, rest) = relocate section_id targets others in
        (move_to section_id t (some (source_of item)) ∷ moves, rest)
  ]
]

unfoldable pub place :
    Snapshot → Topic → List MeetingTopic → ℕ → List Meeting → RecurrenceReconciliationPlan
unfolding relocate target_on
place db topic movable section_id desired =
    let targets = map (target_on db topic movable section_id) desired in
    let stable = stable_meeting_ids targets in
    let reusable =
      filter (λ (item : MeetingTopic). not (contains item.meeting_id stable)) movable in
    let (moves, rest) = relocate section_id targets reusable in
    record { moves = moves; removals = map source_of rest }

abbrev pub is_open : Topic → Bool
is_open topic = elim topic.status [ TopicStatus.active ↦ true | _ ↦ false ]

abbrev pub section_exists : Snapshot → Option ℕ → Bool
section_exists db none = false
section_exists db (some section_id) = contains section_id db.sections

-- Without a desired meeting no section is needed, and no target names one.
abbrev pub place_in :
    Snapshot → Topic → List MeetingTopic → List Meeting → Result RecurrenceReconciliationPlan
place_in db topic movable [] = ok (record { moves = []; removals = map source_of movable })
place_in db topic movable (m ∷ desired) = elim topic.default_section_id [
  | none ↦ err bad_request recurrence_configuration_invalid
  | some section_id ↦
      if contains section_id db.sections
      then ok (place db topic movable section_id (m ∷ desired))
      else err bad_request recurrence_configuration_invalid
]

abbrev pub desired_of : Snapshot → Topic → Result (List Meeting)
desired_of db topic =
    desired_from (fixed_at db.meetings (appearances_of db topic)) (is_skipped db topic)
      (λ d. add_interval d topic.recurrence_interval topic.recurrence_unit) db.meetings
      topic.recurrence_first_due_date

unfoldable pub build_plan : Snapshot → Topic → Result RecurrenceReconciliationPlan
unfolding movable_of
build_plan db topic = elim db.meetings [
  | [] ↦ ok (record { moves = []; removals = [] })
  | m ∷ later ↦
      if is_open topic
      then desired_of db topic >>= place_in db topic (movable_of db topic)
      else ok (record { moves = []; removals = map source_of (movable_of db topic) })
]

unfoldable pub plan : Snapshot → ℕ → Result RecurrenceReconciliationPlan
unfolding build_plan
plan db topic_id = do
  topic ← or_throw (find (λ (t : Topic). t.id == topic_id) db.topics) not_found topic_not_found
  require topic.is_recurring bad_request recurrence_configuration_invalid
  build_plan db topic

-- The part of a topic that `nextDueDate` reads; 0 stands for an interval that is missing.
pub record RecurrenceConfiguration : Type 0 where
  pub recurrence_first_due_date : Option Date
  pub recurrence_interval : ℕ
  pub recurrence_unit : Option RecurrenceUnit

unfoldable pub last_of {ℓ} : {A : Type ℓ} → List A → Option A
last_of [] = none
last_of (x ∷ xs) = elim (last_of xs) [ none ↦ some x | some y ↦ some y ]

abbrev pub next_after : ℕ → RecurrenceUnit → Date → Option Date → Date
next_after interval unit first none = first
next_after interval unit first (some latest) = add_interval latest interval unit

unfoldable pub next_due_date : RecurrenceConfiguration → List Date → Result Date
unfolding last_of sort_by
next_due_date c dates = do
  first ← or_throw c.recurrence_first_due_date bad_request recurrence_configuration_invalid
  require (not (c.recurrence_interval == 0)) bad_request recurrence_configuration_invalid
  unit ← or_throw c.recurrence_unit bad_request recurrence_configuration_invalid
  ok (next_after c.recurrence_interval unit first (last_of (sort_by key dates)))
