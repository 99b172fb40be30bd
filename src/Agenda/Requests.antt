-- ===== src/Agenda/Requests.antt =====
-- What the requests that change an agenda share: their input, the store, `lockedMutableMeeting`
-- (meeting-mutation-boundary.ts), and the reads and writes of single rows. A body that throws rolls its
-- transaction back, so its result is an error without a store. The meeting documents are an
-- interface. A missing field of an input is `none`, and so is an explicit null, except for the position.
use elderflow.Shared.{
  ℕ, Bool, true, false, not, ◌&&◌, Option, none, some, List, [], ◌∷◌, ◌++◌, ◌==◌, if◌then◌else◌,
  find, filter, any, map,
}
use elderflow.Shared.Errors.{
  Result, ok, err, not_found, conflict, ◌>>=◌, ◌>>◌, require, or_throw, meeting_not_found,
  meeting_completed_immutable, recurrence_reconciliation_changed,
}
use elderflow.Recurrence.Plan.{
  MeetingStatus, TopicStatus, AgendaAppearanceSource, Meeting, MeetingTopic, Topic, Snapshot,
  SourceAppearance, meeting_with,
}
use elderflow.Agenda.Positions.{normalize_section_positions}

-- What the agenda asks of the meeting documents: `assertContentUser`, `appendUpdate` with the
-- identifier of the update, and `storedUpdateMatches`, which may throw on a malformed envelope.
pub record Documents (Envelope D : Type 0) : Type 0 where
  pub is_content_user : ℕ → Bool
  pub append_update : ℕ → ℕ → Envelope → D → Result (D × ℕ)
  pub stored_update_matches : ℕ → Envelope → D → Result Bool

-- `position` of a request: left out, null (which `@IsOptional` lets pass), or a number.
pub data PositionInput : Type 0 where
  left_out null_position : PositionInput
  stated : ℕ → PositionInput

-- What stands before `??`.
abbrev pub position_of : PositionInput → Option ℕ
position_of (stated n) = some n
position_of _ = none

-- `input.position === undefined || position === input.position`.
abbrev pub admits_position : PositionInput → ℕ → Bool
admits_position left_out position = true
admits_position null_position position = false
admits_position (stated n) position = position == n

pub record MeetingTopicInput (Envelope : Type 0) : Type 0 where
  pub id : ℕ
  pub mutation_id : ℕ
  pub topic_id : ℕ
  pub section_id : ℕ
  pub initial_update_envelope : Envelope
  pub source_appearance_id : Option ℕ
  pub source : Option AgendaAppearanceSource
  pub position : PositionInput
  pub planned_duration : Option ℕ

pub record MeetingDocumentMutation : Type 0 where
  pub id : ℕ
  pub meeting_id : ℕ
  pub appearance_id : ℕ
  pub source_appearance_id : Option ℕ
  pub update_id : Option ℕ
  pub request_fingerprint : ℕ

pub record AgendaStore (D : Type 0) : Type 0 where
  pub snapshot : Snapshot
  pub mutations : List MeetingDocumentMutation
  pub documents : D

abbrev pub is_completed : Meeting → Bool
is_completed m = elim m.status [ MeetingStatus.completed ↦ true | _ ↦ false ]

unfoldable pub locked_mutable_meeting : Snapshot → ℕ → Result Meeting
locked_mutable_meeting db id = do
  meeting ← or_throw (meeting_with id db.meetings) not_found meeting_not_found
  require (not (is_completed meeting)) conflict meeting_completed_immutable
  ok meeting

abbrev pub row_with : ℕ → ℕ → List MeetingTopic → Option MeetingTopic
row_with id meeting_id =
    find λ (item : MeetingTopic). item.id == id && item.meeting_id == meeting_id

-- An update keeps the columns that the saved entity does not name.
abbrev pub overwrite : MeetingTopic → MeetingTopic → MeetingTopic
overwrite row item = record row {
  planned_duration = elim row.planned_duration [
    | none ↦ item.planned_duration
    | some duration ↦ some duration
  ];
  content_edited = item.content_edited;
}

-- `manager.save` of one row: an update where the identifier is taken, else an insertion.
abbrev pub save_row : MeetingTopic → List MeetingTopic → List MeetingTopic
save_row row rows =
    if any (λ (item : MeetingTopic). item.id == row.id) rows
    then map (λ (item : MeetingTopic). if item.id == row.id then overwrite row item else item) rows
    else rows ++ row ∷ []

-- `manager.remove`, and the renumbering that follows it everywhere.
unfoldable pub remove_row : MeetingTopic → List MeetingTopic → List MeetingTopic
unfolding normalize_section_positions
remove_row row rows =
    normalize_section_positions row.meeting_id row.section_id
      (filter (λ (item : MeetingTopic). not (item.id == row.id)) rows)

abbrev pub same_option : Option ℕ → Option ℕ → Bool
same_option none none = true
same_option (some a) (some b) = a == b
same_option _ _ = false

abbrev pub reopened : Topic → Topic
reopened topic = elim topic.status [
  | TopicStatus.deferred ↦ record topic { status = TopicStatus.active }
  | _ ↦ topic
]

-- `topic.status = "open"` for a deferred topic.
abbrev pub reopen : ℕ → Snapshot → Snapshot
reopen topic_id db = record db {
  topics = map (λ (t : Topic). if t.id == topic_id then reopened t else t) db.topics;
}

abbrev pub or_manual : Option AgendaAppearanceSource → AgendaAppearanceSource
or_manual none = AgendaAppearanceSource.manual
or_manual (some source) = source

abbrev pub is_recurrence : AgendaAppearanceSource → Bool
is_recurrence AgendaAppearanceSource.manual = false
is_recurrence AgendaAppearanceSource.recurrence = true

abbrev pub reconciliation_changed {ℓ} : {A : Type ℓ} → Result A
reconciliation_changed = err conflict recurrence_reconciliation_changed

abbrev pub appearance_id_of : Option SourceAppearance → Option ℕ
appearance_id_of none = none
appearance_id_of (some a) = some a.id

abbrev pub row_id : Option MeetingTopic → Option ℕ
row_id none = none
row_id (some item) = some item.id

abbrev pub or_else : Option ℕ → ℕ → ℕ
or_else none default = default
or_else (some n) default = n
