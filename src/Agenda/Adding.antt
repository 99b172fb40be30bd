-- ===== src/Agenda/Adding.antt =====
-- `addTopicWithinTransaction` (meetings.service.ts): the addition of a topic to an agenda, and the
-- replay of one. `fingerprint` is the SHA-256 digest of a request.
use elderflow.Shared.{
  ℕ, ◌+◌, Bool, true, false, not, ◌&&◌, Option, none, some, List, ◌∷◌, ltb, ◌==◌, if◌then◌else◌,
  length, find,
}
use elderflow.Shared.Sets.{contains}
use elderflow.Shared.Errors.{
  Result, ok, err, bad_request, not_found, conflict, ◌>>=◌, ◌>>◌, require, or_throw,
  meeting_mutation_retry_mismatch, agenda_section_not_found, agenda_topic_conflict,
  agenda_positions_invalid, agenda_position_invalid, topic_not_found,
  recurrence_reconciliation_changed,
}
use elderflow.Recurrence.Plan.{
  AppearanceStatus, Meeting, MeetingTopic, Topic, Snapshot, Move, is_planned, from_recurrence,
}
use elderflow.Recurrence.Build.{plan}
use elderflow.Agenda.Positions.{section_rows, is_numbered, make_room}
use elderflow.Agenda.Requests.{
  Documents, MeetingTopicInput, MeetingDocumentMutation, AgendaStore, locked_mutable_meeting,
  row_with, save_row, remove_row, same_option, reopen, or_manual, is_recurrence,
  reconciliation_changed, appearance_id_of, row_id, or_else, position_of, admits_position,
}

abbrev pub without_source : Option MeetingTopic → List MeetingTopic → List MeetingTopic
without_source none rows = rows
without_source (some source) rows = remove_row source rows

abbrev pub mutation_with : ℕ → List MeetingDocumentMutation → Option MeetingDocumentMutation
mutation_with id = find λ (mutation : MeetingDocumentMutation). mutation.id == id

module _ {Envelope : Type 0} where
  abbrev pub matches_move : ℕ → MeetingTopicInput Envelope → Move → Bool
  matches_move meeting_id input move =
      move.meeting_id == meeting_id
      && move.section_id == input.section_id
      && admits_position input.position move.position
      && same_option (appearance_id_of move.source_appearance) input.source_appearance_id

  abbrev pub requested_source : Snapshot → MeetingTopicInput Envelope → Option MeetingTopic
  requested_source db input = elim input.source_appearance_id [
    | none ↦ none
    | some id ↦ find (λ (item : MeetingTopic). item.id == id) db.meeting_topics
  ]

  abbrev pub is_movable_source : MeetingTopicInput Envelope → MeetingTopic → Meeting → Bool
  is_movable_source input source meeting =
      source.topic_id == input.topic_id
      && from_recurrence source
      && not source.content_edited
      && is_planned meeting

  -- The meeting of a source is locked first; a source that is asked for has to be movable.
  abbrev pub check_source :
      Snapshot → MeetingTopicInput Envelope → Option MeetingTopic → Result (Unit {0})
  check_source db input none = elim input.source_appearance_id [
    | none ↦ ok tt
    | some id ↦ reconciliation_changed
  ]
  check_source db input (some source) = do
    meeting ← locked_mutable_meeting db source.meeting_id
    require (is_movable_source input source meeting) conflict recurrence_reconciliation_changed

  abbrev pub check_existing :
      ℕ → Snapshot → MeetingTopicInput Envelope → Option MeetingTopic → Result (Unit {0})
  check_existing meeting_id db input source =
      elim (find
        (λ (item : MeetingTopic). item.meeting_id == meeting_id && item.topic_id == input.topic_id)
        db.meeting_topics) [
          | none ↦ ok tt
          | some existing ↦
              require (same_option (row_id source) (some existing.id)) conflict
                agenda_topic_conflict
        ]

  -- The position that the recurrence plan gives, for an addition from it.
  unfoldable pub recurrence_position : ℕ → Snapshot → MeetingTopicInput Envelope → Result (Option ℕ)
  recurrence_position meeting_id db input =
      if is_recurrence (or_manual input.source)
      then (plan db input.topic_id >>= λ planned.
          or_throw (find (matches_move meeting_id input) planned.moves) conflict
            recurrence_reconciliation_changed
          >>= λ move. ok (some move.position))
      else ok none

  abbrev pub created : ℕ → MeetingTopicInput Envelope → ℕ → MeetingTopic
  created meeting_id input position = record {
    id = input.id;
    meeting_id = meeting_id;
    topic_id = input.topic_id;
    section_id = input.section_id;
    position = position;
    source = or_manual input.source;
    planned_duration = input.planned_duration;
    status = AppearanceStatus.planned;
    content_edited = false;
  }

  -- The rows after the insertion, and the new row; `planned` is the position of the plan, if any.
  unfoldable pub insert_appearance :
      ℕ
      → MeetingTopicInput Envelope
      → Option ℕ
      → List MeetingTopic
      → Result (List MeetingTopic × MeetingTopic)
  unfolding make_room
  insert_appearance meeting_id input planned rows = do
    let items = section_rows meeting_id input.section_id rows
    let position = or_else (position_of input.position) (or_else planned (length items + 1))
    require (is_numbered 1 items) conflict agenda_positions_invalid
    require (not (ltb (length items + 1) position)) bad_request agenda_position_invalid
    let row = created meeting_id input position
    ok (save_row row (make_room meeting_id input.section_id position rows), row)

module _ {Envelope D : Type 0} (service : Documents Envelope D)
    (fingerprint : MeetingTopicInput Envelope → ℕ) where
  abbrev pub update_matches : Option ℕ → Envelope → D → Result Bool
  update_matches none envelope documents = ok true
  update_matches (some id) envelope documents = service.stored_update_matches id envelope documents

  abbrev pub retry_mismatch {ℓ} : {A : Type ℓ} → Result A
  retry_mismatch = err conflict meeting_mutation_retry_mismatch

  abbrev pub is_retry : ℕ → MeetingTopicInput Envelope → MeetingDocumentMutation → Bool
  is_retry meeting_id input replay =
      replay.meeting_id == meeting_id
      && replay.appearance_id == input.id
      && same_option replay.source_appearance_id input.source_appearance_id
      && replay.request_fingerprint == fingerprint input

  -- A mutation that is stored already: its appearance, when the request is the same.
  unfoldable pub retried :
      ℕ → MeetingTopicInput Envelope → AgendaStore D → MeetingDocumentMutation → Result MeetingTopic
  retried meeting_id input store replay = do
    matching ← update_matches replay.update_id input.initial_update_envelope store.documents
    appearance ←
        or_throw (row_with replay.appearance_id meeting_id store.snapshot.meeting_topics) conflict
          meeting_mutation_retry_mismatch
    require (is_retry meeting_id input replay && matching) conflict meeting_mutation_retry_mismatch
    ok appearance

  -- `sharedDocumentUpdate ?? await this.documents.appendUpdate(…)`.
  abbrev pub shared_or_appended : Option ℕ → ℕ → ℕ → MeetingTopicInput Envelope → D → Result (D × ℕ)
  shared_or_appended (some update) user meeting_id input documents = ok (documents, update)
  shared_or_appended none user meeting_id input documents =
      service.append_update user meeting_id input.initial_update_envelope documents

  abbrev pub recorded : ℕ → MeetingTopicInput Envelope → ℕ → MeetingDocumentMutation
  recorded meeting_id input update = record {
    id = input.mutation_id;
    meeting_id = meeting_id;
    appearance_id = input.id;
    source_appearance_id = input.source_appearance_id;
    update_id = some update;
    request_fingerprint = fingerprint input;
  }

  -- A mutation that is not stored yet.
  unfoldable pub added :
      ℕ
      → MeetingTopicInput Envelope
      → ℕ
      → Option ℕ
      → AgendaStore D
      → Result (AgendaStore D × (MeetingTopic × Option ℕ))
  unfolding recurrence_position insert_appearance
  added meeting_id input user shared store = do
    topic ←
        or_throw (find (λ (t : Topic). t.id == input.topic_id) store.snapshot.topics) not_found
          topic_not_found
    require (contains input.section_id store.snapshot.sections) not_found agenda_section_not_found
    let db = reopen input.topic_id store.snapshot
    let source = requested_source db input
    check_existing meeting_id db input source
    check_source db input source
    planned ← recurrence_position meeting_id db input
    (rows, row) ←
        insert_appearance meeting_id input planned (without_source source db.meeting_topics)
    (documents, update) ← shared_or_appended shared user meeting_id input store.documents
    ok (
      record {
        snapshot = record db { meeting_topics = rows };
        mutations = recorded meeting_id input update ∷ store.mutations;
        documents = documents;
      },
      (row, some update),
    )

  unfoldable pub add_topic_within_transaction :
      ℕ
      → MeetingTopicInput Envelope
      → ℕ
      → Option ℕ
      → AgendaStore D
      → Result (AgendaStore D × (MeetingTopic × Option ℕ))
  unfolding added retried
  add_topic_within_transaction meeting_id input user shared store = do
    meeting ← locked_mutable_meeting store.snapshot meeting_id
    elim (mutation_with input.mutation_id store.mutations) [
      | none ↦ added meeting_id input user shared store
      | some replay ↦
          retried meeting_id input store replay >>= λ appearance. ok (store, (appearance, shared))
    ]
