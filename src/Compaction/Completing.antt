-- ===== src/Compaction/Completing.antt =====
-- Completion: `beginCompletion`, `completionDrained`, `captureCompletionSequence`,
-- `confirmCompletion`, `claimCompletion`, `claimCompletionSubmission`, `cancelCompletion`, and the
-- timers. `captureCompletionSequence` is cut at its `await`: the first part leaves a pending read,
-- and `sequence_read` runs the rest when the read returns a sequence, or `none` if it throws.
use elderflow.Shared.{
  ℕ, Bool, true, false, not, ◌&&◌, ◌||◌, Option, none, some, [], ◌∷◌, String, ltb, ◌==◌,
  if◌then◌else◌, length,
}
use elderflow.Shared.Sets
use elderflow.Shared.Errors.{Result, ok, err, conflict, meeting_completion_retry}
use elderflow.Compaction.State.{
  BarrierPhase, Intention, Timer, phase_is, is_completion, Completion, CompactionBarrier, Event,
  PendingRead, Coordinator, at_document, with_id, store, emit, sequence_is,
}
use elderflow.Compaction.Barriers.{open_barrier, all_drained, acknowledge, fail, abort}

abbrev pub completion_aborted {ℓ} : {A : Type ℓ} → Result A
completion_aborted = err conflict meeting_completion_retry

abbrev pub confirmed_count : Option Completion → ℕ
confirmed_count none = 0
confirmed_count (some c) = length c.confirmed

abbrev pub has_completion : CompactionBarrier → Bool
has_completion b = elim b.completion [ none ↦ false | some c ↦ true ]

abbrev pub finalized : CompactionBarrier → CompactionBarrier
finalized b = record b { phase = BarrierPhase.finalizing; timeout = some Timer.fail_timer }

unfoldable pub claim_completion : CompactionBarrier → Coordinator → Coordinator
claim_completion b s = elim b.server_sequence [
  | none ↦ s
  | some sequence ↦
      if has_completion b
        && phase_is b.phase BarrierPhase.confirming
        && confirmed_count b.completion == length b.participants
      then emit (Event.completion_resolved b.id sequence) (store (finalized b) s)
      else s
]

-- Up to the `await`.
unfoldable pub capture_completion_sequence : CompactionBarrier → Coordinator → Coordinator
capture_completion_sequence b s =
    if has_completion b && phase_is b.phase BarrierPhase.draining && all_drained b
    then record (store (record b { phase = BarrierPhase.confirming }) s) {
      reads = record { document_id = b.document_id; barrier_id = b.id } ∷ s.reads;
    }
    else s

abbrev pub sequenced : String → CompactionBarrier → CompactionBarrier
sequenced sequence b = record b { server_sequence = some sequence }

-- After the `await`, with the sequence that was read.
unfoldable pub sequence_captured : PendingRead → String → Coordinator → Coordinator
unfolding claim_completion abort
sequence_captured r sequence s = elim (at_document r.document_id s.barriers) [
  | none ↦ s
  | some b ↦
      if not (b.id == r.barrier_id) || not (phase_is b.phase BarrierPhase.confirming)
      then s
      else if ltb 0 (s.collaboration_writers b.meeting_id)
      then abort b.document_id (some b.id) s
      else claim_completion (sequenced sequence b) (
          emit (Event.completion_sequence b.document_id b.id sequence)
            (store (sequenced sequence b) s))
]

unfoldable pub sequence_read : PendingRead → Option String → Coordinator → Coordinator
unfolding sequence_captured abort
sequence_read r none s = abort r.document_id (some r.barrier_id) s
sequence_read r (some sequence) s = sequence_captured r sequence s

abbrev pub completing : CompactionBarrier → CompactionBarrier
completing b = record b {
  intention = Intention.completion;
  completion = some (record { confirmed = [] });
}

unfoldable pub start_completion : CompactionBarrier → Coordinator → Coordinator
unfolding capture_completion_sequence
start_completion b s =
    capture_completion_sequence b (emit (Event.completion_barrier b.document_id b.id) (store b s))

-- The rest of `beginCompletion`, once `open` has stored the barrier.
unfoldable pub complete_opened : ℕ → Coordinator → Coordinator × Result (Unit {0})
complete_opened document s = elim (at_document document s.barriers) [
  | none ↦ (s, completion_aborted)
  | some b ↦ (start_completion (completing b) s, ok tt)
]

unfoldable pub begin_completion :
    (id meeting document user : ℕ) → Coordinator → Coordinator × Result (Unit {0})
begin_completion id meeting document user s = elim (at_document document s.barriers) [
  | some b ↦ (s, completion_aborted)
  | none ↦
      if ltb 0 (s.external_writers meeting)
      then (s, completion_aborted)
      else complete_opened document
          (open_barrier id meeting document none user (s.connections document) s).0
]

unfoldable pub completion_drained : (document id participant : ℕ) → Coordinator → Coordinator
unfolding acknowledge capture_completion_sequence
completion_drained document id participant s = elim (at_document document s.barriers) [
  | none ↦ s
  | some b ↦
      if is_completion b.intention
      then (let (s', drained) = acknowledge document id participant s in
          if drained
          then elim (at_document document s'.barriers) [
            | none ↦ s'
            | some b' ↦ capture_completion_sequence b' s'
          ]
          else s')
      else s
]

abbrev pub may_confirm : ℕ → ℕ → String → CompactionBarrier → Bool
may_confirm id participant sequence b =
    b.id == id
    && phase_is b.phase BarrierPhase.confirming
    && sequence_is b.server_sequence sequence
    && Sets.contains participant b.participants

abbrev pub confirm : ℕ → Completion → CompactionBarrier → CompactionBarrier
confirm participant c b = record b {
  completion = some (record c { confirmed = Sets.add participant c.confirmed });
}

unfoldable pub confirm_of :
    ℕ → ℕ → String → CompactionBarrier → Completion → Coordinator → Coordinator
unfolding claim_completion
confirm_of id participant sequence b c s =
    if may_confirm id participant sequence b
    then claim_completion (confirm participant c b) (store (confirm participant c b) s)
    else s

unfoldable pub confirm_completion :
    (document id participant : ℕ) → String → Coordinator → Coordinator
unfolding confirm_of
confirm_completion document id participant sequence s = elim (at_document document s.barriers) [
  | none ↦ s
  | some b ↦ elim b.completion [ none ↦ s | some c ↦ confirm_of id participant sequence b c s ]
]

abbrev pub may_submit : ℕ → ℕ → String → CompactionBarrier → Bool
may_submit meeting user sequence b =
    is_completion b.intention
    && phase_is b.phase BarrierPhase.finalizing
    && b.meeting_id == meeting
    && b.compactor_user_id == user
    && sequence_is b.server_sequence sequence

unfoldable pub claim_completion_submission :
    (meeting id user : ℕ) → String → Coordinator → Coordinator × Result ℕ
claim_completion_submission meeting id user sequence s = elim (with_id id s.barriers) [
  | none ↦ (s, completion_aborted)
  | some b ↦
      if may_submit meeting user sequence b
      then (store (record b { phase = BarrierPhase.committing }) s, ok b.document_id)
      else (s, completion_aborted)
]

unfoldable pub cancel_completion : (meeting id user : ℕ) → Coordinator → Coordinator
unfolding abort
cancel_completion meeting id user s = elim (with_id id s.barriers) [
  | none ↦ s
  | some b ↦
      if is_completion b.intention && b.meeting_id == meeting && b.compactor_user_id == user
      then abort b.document_id (some b.id) s
      else s
]

-- The timer of a document's barrier runs out; the field keeps the handle, as in the source.
unfoldable pub timer_fires : ℕ → Coordinator → Coordinator
unfolding abort fail
timer_fires document s = elim (at_document document s.barriers) [
  | none ↦ s
  | some b ↦ elim b.timeout [
    | none ↦ s
    | some t ↦ elim t [
      | Timer.abort_timer ↦ abort document (some b.id) s
      | Timer.fail_timer ↦ fail b.meeting_id b.id s
    ]
  ]
]
