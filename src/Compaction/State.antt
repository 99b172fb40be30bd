-- ===== src/Compaction/State.antt =====
-- The coordinator's state: a map of barriers by document, the connections of each document, and
-- the number of writers of each meeting. Identifiers are only compared, so they are numbers; an
-- absent entry of a map of sets or counts is an empty set or 0, as every read of it takes it.
use elderflow.Shared.{
  ℕ, Bool, true, false, not, Option, none, some, List, [], ◌∷◌, String, str_eq, ◌==◌, if◌then◌else◌,
  find, filter,
}

pub data BarrierPhase : Type 0 where
  draining confirming ready finalizing committing : BarrierPhase

pub data Intention : Type 0 where
  compaction completion : Intention

pub data Outcome : Type 0 where
  compacted completed aborted : Outcome

-- The callback of an armed `setTimeout`: `abort` after 5 s, or `fail` after 30 s.
pub data Timer : Type 0 where
  abort_timer fail_timer : Timer

abbrev pub phase_is : BarrierPhase → BarrierPhase → Bool
phase_is BarrierPhase.draining BarrierPhase.draining = true
phase_is BarrierPhase.confirming BarrierPhase.confirming = true
phase_is BarrierPhase.ready BarrierPhase.ready = true
phase_is BarrierPhase.finalizing BarrierPhase.finalizing = true
phase_is BarrierPhase.committing BarrierPhase.committing = true
phase_is _ _ = false

abbrev pub is_completion : Intention → Bool
is_completion Intention.compaction = false
is_completion Intention.completion = true

-- The part of `completion` that is data; resolving and rejecting its promise are events.
pub record Completion : Type 0 where
  pub confirmed : List ℕ

pub record CompactionBarrier : Type 0 where
  pub intention : Intention
  pub cancelled : Bool
  pub completion : Option Completion
  pub id : ℕ
  pub meeting_id : ℕ
  pub document_id : ℕ
  pub compactor_connection_id : Option ℕ
  pub compactor_user_id : ℕ
  pub participants : List ℕ
  pub drained : List ℕ
  pub phase : BarrierPhase
  pub server_sequence : Option String
  pub timeout : Option Timer

pub record OpenCompactionBarrier : Type 0 where
  pub intention : Intention
  pub barrier_id : ℕ
  pub participant_ids : List ℕ

pub record ReadyCompactionBarrier : Type 0 where
  pub barrier_id : ℕ
  pub compactor_connection_id : Option ℕ
  pub server_sequence : String

-- What the coordinator tells others: the emitted events, and how a completion's promise settles.
pub data Event : Type 0 where
  completion_barrier : (document_id barrier_id : ℕ) → Event
  completion_sequence : (document_id barrier_id : ℕ) (server_sequence : String) → Event
  compaction_released :
      (intention : Intention) (meeting_id document_id barrier_id : ℕ) (participant_ids : List ℕ)
      (outcome : Outcome)
      → Event
  completion_resolved : (barrier_id : ℕ) (server_sequence : String) → Event
  completion_rejected : (barrier_id : ℕ) → Event

-- A call of `readSequence` that has not returned, for the barrier that waits on it.
pub record PendingRead : Type 0 where
  pub document_id : ℕ
  pub barrier_id : ℕ

-- The newest event first.
pub record Coordinator : Type 0 where
  pub barriers : List CompactionBarrier
  pub connections : ℕ → List ℕ
  pub collaboration_writers : ℕ → ℕ
  pub external_writers : ℕ → ℕ
  pub reads : List PendingRead
  pub events : List Event

abbrev pub initial : Coordinator
initial = record {
  barriers = [];
  connections = λ _. [];
  collaboration_writers = λ _. 0;
  external_writers = λ _. 0;
  reads = [];
  events = [];
}

abbrev pub update {ℓ} : {A : Type ℓ} → ℕ → A → (ℕ → A) → ℕ → A
update k v f j = if j == k then v else f j

-- `barriers.get`, and the searches of `barriers.values()`.
abbrev pub at_document : ℕ → List CompactionBarrier → Option CompactionBarrier
at_document document_id = find λ b. b.document_id == document_id

abbrev pub with_id : ℕ → List CompactionBarrier → Option CompactionBarrier
with_id id = find λ b. b.id == id

abbrev pub of_meeting : ℕ → List CompactionBarrier → Option CompactionBarrier
of_meeting meeting_id = find λ b. b.meeting_id == meeting_id

-- `barriers.set(b.documentId, b)`, and what a change of the stored object does.
unfoldable pub put : CompactionBarrier → List CompactionBarrier → List CompactionBarrier
put b [] = b ∷ []
put b (c ∷ bs) = if c.document_id == b.document_id then b ∷ bs else c ∷ put b bs

-- `barriers.delete(documentId)`.
abbrev pub drop : ℕ → List CompactionBarrier → List CompactionBarrier
drop document_id = filter λ b. not (b.document_id == document_id)

abbrev pub store : CompactionBarrier → Coordinator → Coordinator
store b s = record s { barriers = put b s.barriers }

abbrev pub emit : Event → Coordinator → Coordinator
emit e s = record s { events = e ∷ s.events }

-- A sequence is set when the field is neither `null` nor the empty text.
abbrev pub is_set : Option String → Bool
is_set none = false
is_set (some sequence) = not (str_eq sequence "")

abbrev pub sequence_is : Option String → String → Bool
sequence_is none sequence = false
sequence_is (some current) sequence = str_eq current sequence

abbrev pub opened : CompactionBarrier → List ℕ → OpenCompactionBarrier
opened b participant_ids = record {
  intention = b.intention;
  barrier_id = b.id;
  participant_ids = participant_ids;
}
