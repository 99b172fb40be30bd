-- ===== src/Agenda/Tests.antt =====
-- Runs of the agenda's requests on one planned meeting, and the instances of its theorems.
use elderflow.Shared.{
  ℕ, ◌≡◌, refl, false, none, some, List, [], ◌∷◌, arith, ◌==◌, find, filter, any,
}
use elderflow.Shared.Sets
use elderflow.Shared.Errors.{ok}
use elderflow.Recurrence.Dates.{Date, RecurrenceUnit}
use elderflow.Recurrence.Plan.{
  MeetingStatus, TopicStatus, AgendaAppearanceSource, AppearanceStatus, MeetingTopic, Topic,
  Snapshot, sort_by,
}
use elderflow.Compaction.State.{Coordinator, initial}
use elderflow.Agenda.Positions.{
  section_rows, is_numbered, make_room, count_at, size_of, normalize_section_positions, number,
  IsConsecutive, IsAgenda, IsKeyed,
}
use elderflow.Agenda.Consecutive.{normalize-IsConsecutive}
use elderflow.Agenda.Requests.{
  stated, Documents, MeetingTopicInput, AgendaStore, locked_mutable_meeting, remove_row,
}
use elderflow.Agenda.Adding.{add_topic_within_transaction}
use elderflow.Agenda.Admission.{add_topic, add_topics}
use elderflow.Agenda.Brackets.{add_topics-writers}
use elderflow.Agenda.Removing.{remove_topic, record_skip}
use elderflow.Agenda.Removal.{remove_topic-IsAgenda}
use elderflow.Agenda.Mutations.{add_topic-IsAgenda}

abbrev spring : Date
spring = record { year = 2027; month = 3; day = 2 }

abbrev item : ℕ → ℕ → ℕ → AgendaAppearanceSource → MeetingTopic
item id topic position source = record {
  id = id;
  meeting_id = 1;
  topic_id = topic;
  section_id = 6;
  position = position;
  source = source;
  planned_duration = none;
  status = AppearanceStatus.planned;
  content_edited = false;
}

abbrev topic : ℕ → Topic
topic id = record {
  id = id;
  is_recurring = false;
  status = TopicStatus.deferred;
  recurrence_first_due_date = spring;
  recurrence_interval = 1;
  recurrence_unit = RecurrenceUnit.months;
  default_section_id = none;
  default_position = none;
}

abbrev rows : List MeetingTopic
rows =
    item 21 4 1 AgendaAppearanceSource.recurrence ∷ item 22 5 2 AgendaAppearanceSource.manual ∷ []

abbrev db : Snapshot
db = record {
  meetings = record { id = 1; date = spring; status = MeetingStatus.planned } ∷ [];
  meeting_topics = rows;
  skipped = [];
  sections = 6 ∷ [];
  topics = topic 4 ∷ topic 5 ∷ topic 9 ∷ [];
}

abbrev store : AgendaStore (List ℕ)
store = record { snapshot = db; mutations = []; documents = [] }

-- A documents service that numbers an update by its envelope.
abbrev service : Documents ℕ (List ℕ)
service = record {
  is_content_user = λ user. user == 7;
  append_update = λ user meeting envelope stored. ok (envelope ∷ stored, envelope);
  stored_update_matches = λ id envelope stored. ok (id == envelope);
}

abbrev fingerprint : MeetingTopicInput ℕ → ℕ
fingerprint input = input.mutation_id

abbrev input : MeetingTopicInput ℕ
input = record {
  id = 30;
  mutation_id = 40;
  topic_id = 9;
  section_id = 6;
  initial_update_envelope = 8;
  source_appearance_id = none;
  source = none;
  position = stated 2;
  planned_duration = some 15;
}

abbrev row : MeetingTopic
row = record (item 30 9 2 AgendaAppearanceSource.manual) { planned_duration = some 15 }

abbrev after : AgendaStore (List ℕ)
after = record {
  snapshot = record db {
    meeting_topics =
        item 21 4 1 AgendaAppearanceSource.recurrence
        ∷ item 22 5 3 AgendaAppearanceSource.manual
        ∷ row
        ∷ [];
    topics = topic 4 ∷ topic 5 ∷ record (topic 9) { status = TopicStatus.active } ∷ [];
  };
  mutations =
      record {
        id = 40;
        meeting_id = 1;
        appearance_id = 30;
        source_appearance_id = none;
        update_id = some 8;
        request_fingerprint = 40;
      }
      ∷ [];
  documents = 8 ∷ [];
}

added_run :
    add_topic_within_transaction service fingerprint 1 input 7 none store
    ≡ ok (after, (row, some 8))
unfolding add_topic_within_transaction locked_mutable_meeting find Sets.contains is_numbered
    section_rows sort_by filter any make_room
added_run = refl

rows-IsAgenda : IsAgenda rows
unfolding count_at size_of
rows-IsAgenda m s p = ground arith

rows-IsKeyed : IsKeyed rows
unfolding Sets.distinct
rows-IsKeyed = refl

add_topic-IsAgenda_example : IsAgenda after.snapshot.meeting_topics
add_topic-IsAgenda_example =
    add_topic-IsAgenda service fingerprint 1 input 7 none store after row (some 8) added_run
      (omega arith) (λ _. (refl, (refl, tt))) rows-IsKeyed rows-IsAgenda

abbrev removed : Snapshot
removed = record db {
  meeting_topics = item 22 5 1 AgendaAppearanceSource.manual ∷ [];
  skipped = record { topic_id = 4; meeting_id = 1 } ∷ [];
}

removed_run : remove_topic 1 21 db ≡ ok removed
unfolding remove_topic locked_mutable_meeting find any filter sort_by remove_row record_skip
    normalize_section_positions number
removed_run = refl

remove_topic-IsAgenda_example : IsAgenda removed.meeting_topics
remove_topic-IsAgenda_example =
    remove_topic-IsAgenda 1 21 db removed removed_run rows-IsKeyed rows-IsAgenda

normalize-IsConsecutive_example :
    IsConsecutive 1 6
      (normalize_section_positions 1 6 (item 23 8 7 AgendaAppearanceSource.manual ∷ rows))
normalize-IsConsecutive_example =
    normalize-IsConsecutive 1 6 (item 23 8 7 AgendaAppearanceSource.manual ∷ rows)

abbrev idle : Coordinator → Coordinator
idle s = s

add_topics-writers_example :
    ((add_topic service fingerprint idle 1 input 7 store initial).0.external_writers 1 ≡ 0)
    × ((add_topics service fingerprint idle 1 8 (input ∷ []) 7 store initial).0.external_writers 1
        ≡ 0)
add_topics-writers_example =
    add_topics-writers service fingerprint idle 1 7 store initial 8 input (input ∷ []) (λ s. refl)
