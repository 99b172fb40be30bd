-- ===== src/Compaction/Barriers.antt =====
-- The life of a compaction barrier: `open`, `join`, `acknowledge`, `ready`, `claim`,
-- `assertClaim`, `complete`, `fail`, `abort`, `abortMeeting`, `disconnected`, `current`, `release`.
-- A method returns the new state and its result; `randomUUID()` is an argument.
use elderflow.Shared.{
  ℕ, Bool, true, false, not, ◌&&◌, ◌||◌, Option, none, some, List, [], ◌∷◌, String, ltb, ◌==◌,
  if◌then◌else◌, length,
}
use elderflow.Shared.Sets
use elderflow.Shared.Errors.{Result, ok, err, conflict, e2ee_compaction_barrier_invalid}
use mathlib.Core.Option
use elderflow.Compaction.State.{
  BarrierPhase, Intention, Outcome, Timer, phase_is, is_completion, Completion, CompactionBarrier,
  OpenCompactionBarrier, ReadyCompactionBarrier, Event, Coordinator, update, at_document, with_id,
  of_meeting, drop, store, emit, is_set, opened,
}

abbrev pub reject_of : CompactionBarrier → Outcome → Coordinator → Coordinator
reject_of b Outcome.aborted s = elim b.completion [
  | none ↦ s
  | some c ↦ emit (Event.completion_rejected b.id) s
]
reject_of b _ s = s

unfoldable pub release : CompactionBarrier → Outcome → Coordinator → Coordinator
release b outcome s =
    emit
      (Event.compaction_released b.intention b.meeting_id b.document_id b.id b.participants outcome)
      (reject_of b outcome (record s { barriers = drop b.document_id s.barriers }))

abbrev pub fresh_barrier : (id meeting document : ℕ) → Option ℕ → ℕ → List ℕ → CompactionBarrier
fresh_barrier id meeting document connection user participant_ids = record {
  intention = Intention.compaction;
  cancelled = false;
  completion = none;
  id = id;
  meeting_id = meeting;
  document_id = document;
  compactor_connection_id = connection;
  compactor_user_id = user;
  participants = Sets.of_list participant_ids;
  drained = [];
  phase = BarrierPhase.draining;
  server_sequence = none;
  timeout = some Timer.abort_timer;
}

unfoldable pub open_barrier :
    (id meeting document : ℕ)
    → Option ℕ
    → ℕ
    → List ℕ
    → Coordinator
    → Coordinator × Option OpenCompactionBarrier
open_barrier id meeting document connection user participant_ids s =
    if ltb 0 (s.external_writers meeting)
    then (s, none)
    else elim (at_document document s.barriers) [
      | none ↦ (store fresh s, some (opened fresh fresh.participants))
      | some existing ↦ (s, some (opened existing existing.participants))
    ]
  where
    fresh : CompactionBarrier
    fresh = fresh_barrier id meeting document connection user participant_ids

-- A completion whose claim is settled keeps its round: a client that joins then is not waited for.
abbrev pub is_settled : CompactionBarrier → Bool
is_settled b = phase_is b.phase BarrierPhase.committing || phase_is b.phase BarrierPhase.finalizing

abbrev pub clear_confirmed : Option Completion → Option Completion
clear_confirmed = Option.map {A = Completion} λ c. record c { confirmed = [] }

abbrev pub join_round : ℕ → CompactionBarrier → CompactionBarrier
join_round participant b =
    if phase_is b.phase BarrierPhase.committing
    then record b {
      participants = Sets.add participant b.participants;
      completion = clear_confirmed b.completion;
    }
    else record b {
      participants = Sets.add participant b.participants;
      completion = clear_confirmed b.completion;
      phase = BarrierPhase.draining;
      server_sequence = none;
    }

abbrev pub connect : ℕ → ℕ → Coordinator → Coordinator
connect document participant s = record s {
  connections = update document (Sets.add participant (s.connections document)) s.connections;
}

unfoldable pub join : ℕ → ℕ → Coordinator → Coordinator × Option OpenCompactionBarrier
join document participant s = elim (at_document document s.barriers) [
  | none ↦ (connect document participant s, none)
  | some b ↦
      if is_completion b.intention && is_settled b
      then (connect document participant s, some (opened b (participant ∷ [])))
      else (
        store (join_round participant b) (connect document participant s),
        some (opened b (participant ∷ [])),
      )
]

abbrev pub all_drained : CompactionBarrier → Bool
all_drained b = length b.drained == length b.participants

abbrev pub may_drain : ℕ → ℕ → CompactionBarrier → Bool
may_drain id participant b =
    b.id == id && Sets.contains participant b.participants && phase_is b.phase BarrierPhase.draining

abbrev pub drain : ℕ → CompactionBarrier → CompactionBarrier
drain participant b = record b { drained = Sets.add participant b.drained }

unfoldable pub acknowledge : ℕ → ℕ → ℕ → Coordinator → Coordinator × Bool
acknowledge document id participant s = elim (at_document document s.barriers) [
  | none ↦ (s, false)
  | some b ↦
      if may_drain id participant b
      then (store (drain participant b) s, all_drained (drain participant b))
      else (s, false)
]

-- The method `ready`.
unfoldable pub make_ready :
    ℕ → ℕ → String → Coordinator → Coordinator × Option ReadyCompactionBarrier
make_ready document id sequence s = elim (at_document document s.barriers) [
  | none ↦ (s, none)
  | some b ↦
      if b.id == id && phase_is b.phase BarrierPhase.draining && all_drained b
      then (
        store (record b { phase = BarrierPhase.ready; server_sequence = some sequence }) s,
        some (record {
          barrier_id = id;
          compactor_connection_id = b.compactor_connection_id;
          server_sequence = sequence;
        }),
      )
      else (s, none)
]

abbrev pub may_claim : ℕ → ℕ → CompactionBarrier → Bool
may_claim meeting user b =
    b.meeting_id == meeting
    && b.compactor_user_id == user
    && not (is_completion b.intention)
    && phase_is b.phase BarrierPhase.ready
    && is_set b.server_sequence

abbrev pub claim_invalid {ℓ} : {A : Type ℓ} → Result A
claim_invalid = err conflict e2ee_compaction_barrier_invalid

abbrev pub sequence_or_invalid : Option String → Result String
sequence_or_invalid none = claim_invalid
sequence_or_invalid (some sequence) = ok sequence

unfoldable pub claim : ℕ → ℕ → ℕ → Coordinator → Coordinator × Result String
claim meeting id user s = elim (with_id id s.barriers) [
  | none ↦ (s, claim_invalid)
  | some b ↦
      if may_claim meeting user b
      then (
        store (record b { phase = BarrierPhase.committing; timeout = none }) s,
        sequence_or_invalid b.server_sequence,
      )
      else (s, claim_invalid)
]

unfoldable pub assert_claim : ℕ → ℕ → Coordinator → Result (Unit {0})
assert_claim meeting id s = elim (with_id id s.barriers) [
  | none ↦ claim_invalid
  | some b ↦
      if b.meeting_id == meeting && phase_is b.phase BarrierPhase.committing && not b.cancelled
      then ok tt
      else claim_invalid
]

abbrev pub settled_outcome : Intention → Outcome
settled_outcome Intention.completion = Outcome.completed
settled_outcome Intention.compaction = Outcome.compacted

unfoldable pub complete : ℕ → ℕ → Coordinator → Coordinator
unfolding release
complete meeting id s = elim (with_id id s.barriers) [
  | none ↦ s
  | some b ↦ if b.meeting_id == meeting then release b (settled_outcome b.intention) s else s
]

unfoldable pub fail : ℕ → ℕ → Coordinator → Coordinator
unfolding release
fail meeting id s = elim (with_id id s.barriers) [
  | none ↦ s
  | some b ↦ if b.meeting_id == meeting then release b Outcome.aborted s else s
]

unfoldable pub abort_of : CompactionBarrier → Coordinator → Coordinator
unfolding release
abort_of b s =
    if phase_is b.phase BarrierPhase.committing
    then (if is_completion b.intention then store (record b { cancelled = true }) s else s)
    else release b Outcome.aborted s

abbrev pub id_matches : Option ℕ → CompactionBarrier → Bool
id_matches none b = true
id_matches (some id) b = b.id == id

unfoldable pub abort : ℕ → Option ℕ → Coordinator → Coordinator
unfolding release abort_of
abort document id s = elim (at_document document s.barriers) [
  | none ↦ s
  | some b ↦ if id_matches id b then abort_of b s else s
]

unfoldable pub abort_meeting : ℕ → Coordinator → Coordinator
unfolding release
abort_meeting meeting s = elim (of_meeting meeting s.barriers) [
  | none ↦ s
  | some b ↦ if phase_is b.phase BarrierPhase.committing then s else release b Outcome.aborted s
]

abbrev pub disconnect : ℕ → ℕ → Coordinator → Coordinator
disconnect document participant s = record s {
  connections = update document (Sets.delete participant (s.connections document)) s.connections;
}

unfoldable pub disconnected : ℕ → ℕ → Coordinator → Coordinator
unfolding abort
disconnected document participant s = elim (at_document document s.barriers) [
  | none ↦ disconnect document participant s
  | some b ↦
      if Sets.contains participant b.participants
      then abort document (some b.id) (disconnect document participant s)
      else disconnect document participant s
]

unfoldable pub current : ℕ → Coordinator → Option OpenCompactionBarrier
current document s = Option.map (λ b. opened b b.participants) (at_document document s.barriers)
