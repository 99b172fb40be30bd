-- ===== src/Compaction/Run.antt =====
-- A history of the coordinator: any sequence of its calls, of reads that return and of timers that
-- run out. JavaScript runs each to its end (or to its `await`) before the next one starts.
use elderflow.Shared.{
  ℕ, ◌≡◌, true, false, ◌&&◌, Option, none, some, List, [], ◌∷◌, String, ◌==◌, All, inl, inr,
  Option-cases,
}
use elderflow.Compaction.State.{PendingRead, Coordinator, initial}
use elderflow.Compaction.Barriers.{
  open_barrier, join, acknowledge, make_ready, claim, complete, fail, abort, abort_meeting,
  disconnected,
}
use elderflow.Compaction.Writers.{
  prepare_update, begin_external_update, end_external_update, begin_collaboration_update,
  end_collaboration_update,
}
use elderflow.Compaction.Completing.{
  sequence_read, begin_completion, completion_drained, confirm_completion,
  claim_completion_submission, cancel_completion, timer_fires,
}
use elderflow.Compaction.Invariant.{IsSound}
use elderflow.Compaction.Preservation.{
  open_barrier-IsSound, join-IsSound, acknowledge-IsSound, make_ready-IsSound, claim-IsSound,
  complete-IsSound, fail-IsSound, abort-IsSound, abort_meeting-IsSound, disconnected-IsSound,
}
use elderflow.Compaction.Settling.{
  prepare_update-IsSound, begin_external_update-IsSound, end_external_update-IsSound,
  begin_collaboration_update-IsSound,
}
use elderflow.Compaction.Finishing.{
  sequence_read-IsSound, begin_completion-IsSound, completion_drained-IsSound,
  confirm_completion-IsSound, submission-IsSound, cancel_completion-IsSound, timer_fires-IsSound,
}

pub data Call : Type 0 where
  opens :
      (id meeting document : ℕ) (connection : Option ℕ) (user : ℕ) (participants : List ℕ) → Call
  begins_completion : (id meeting document user : ℕ) → Call
  joins disconnects prepares : (document participant : ℕ) → Call
  acknowledges drains_completion : (document id participant : ℕ) → Call
  readies : (document id : ℕ) (sequence : String) → Call
  claims cancels : (meeting id user : ℕ) → Call
  completes fails : (meeting id : ℕ) → Call
  aborts : (document : ℕ) (id : Option ℕ) → Call
  aborts_meeting begins_external ends_external : (meeting : ℕ) → Call
  begins_collaboration ends_collaboration : (meeting : ℕ) → Call
  confirms : (document id participant : ℕ) (sequence : String) → Call
  submits : (meeting id user : ℕ) (sequence : String) → Call
  read_returns : (read : PendingRead) (result : Option String) → Call
  runs_out : (document : ℕ) → Call

-- The other pending reads, if this one is pending.
unfoldable pub take_read : PendingRead → List PendingRead → Option (List PendingRead)
take_read r [] = none
take_read r (q ∷ reads) = elim (q.document_id == r.document_id && q.barrier_id == r.barrier_id) [
  | true ↦ some reads
  | false ↦ elim (take_read r reads) [ none ↦ none | some rest ↦ some (q ∷ rest) ]
]

unfoldable pub read_settles : PendingRead → Option String → Coordinator → Coordinator
unfolding take_read sequence_read
read_settles r result s = elim (take_read r s.reads) [
  | none ↦ s
  | some rest ↦ sequence_read r result (record s { reads = rest })
]

unfoldable pub step : Call → Coordinator → Coordinator
unfolding read_settles
step (opens id meeting document connection user participants) s =
    (open_barrier id meeting document connection user participants s).0
step (begins_completion id meeting document user) s =
    (begin_completion id meeting document user s).0
step (joins document participant) s = (join document participant s).0
step (disconnects document participant) s = disconnected document participant s
step (prepares document participant) s = (prepare_update document participant s).0
step (acknowledges document id participant) s = (acknowledge document id participant s).0
step (drains_completion document id participant) s = completion_drained document id participant s
step (readies document id sequence) s = (make_ready document id sequence s).0
step (claims meeting id user) s = (claim meeting id user s).0
step (cancels meeting id user) s = cancel_completion meeting id user s
step (completes meeting id) s = complete meeting id s
step (fails meeting id) s = fail meeting id s
step (aborts document id) s = abort document id s
step (aborts_meeting meeting) s = abort_meeting meeting s
step (begins_external meeting) s = (begin_external_update meeting s).0
step (ends_external meeting) s = end_external_update meeting s
step (begins_collaboration meeting) s = (begin_collaboration_update meeting s).0
step (ends_collaboration meeting) s = end_collaboration_update meeting s
step (confirms document id participant sequence) s =
    confirm_completion document id participant sequence s
step (submits meeting id user sequence) s =
    (claim_completion_submission meeting id user sequence s).0
step (read_returns r result) s = read_settles r result s
step (runs_out document) s = timer_fires document s

unfoldable pub run : List Call → Coordinator → Coordinator
unfolding step
run [] s = s
run (c ∷ cs) s = run cs (step c s)

module _ (document_of : ℕ → ℕ) where
  -- A barrier is opened for the document of its meeting.
  abbrev pub IsPlaced : Call → Type 0
  IsPlaced (opens id meeting document connection user participants) = document ≡ document_of meeting
  IsPlaced (begins_completion id meeting document user) = document ≡ document_of meeting
  IsPlaced _ = Unit {0}

  read_settles-IsSound :
      (r : PendingRead) (result : Option String) (s : Coordinator)
      → IsSound document_of s
      → IsSound document_of (read_settles r result s)
  unfolding read_settles
  read_settles-IsSound r result s v = elim (Option-cases (take_read r s.reads)) [
    | inl e ↦ rw (e, read_settles) v
    | inr (rest, e) ↦
        rw (e, read_settles)
          (sequence_read-IsSound document_of r result (record s { reads = rest }) v)
  ]

  step-IsSound :
      (c : Call) (s : Coordinator)
      → IsPlaced c
      → IsSound document_of s
      → IsSound document_of (step c s)
  unfolding step end_collaboration_update
  step-IsSound (opens id m d connection u ps) s p v =
      open_barrier-IsSound document_of id m d connection u ps s p v
  step-IsSound (begins_completion id m d u) s p v =
      begin_completion-IsSound document_of id m d u s p v
  step-IsSound (joins d p) s _ v = join-IsSound document_of d p s v
  step-IsSound (disconnects d p) s _ v = disconnected-IsSound document_of d p s v
  step-IsSound (prepares d p) s _ v = prepare_update-IsSound document_of d p s v
  step-IsSound (acknowledges d id p) s _ v = acknowledge-IsSound document_of d id p s v
  step-IsSound (drains_completion d id p) s _ v = completion_drained-IsSound document_of d id p s v
  step-IsSound (readies d id q) s _ v = make_ready-IsSound document_of d id q s v
  step-IsSound (claims m id u) s _ v = claim-IsSound document_of m id u s v
  step-IsSound (cancels m id u) s _ v = cancel_completion-IsSound document_of m id u s v
  step-IsSound (completes m id) s _ v = complete-IsSound document_of m id s v
  step-IsSound (fails m id) s _ v = fail-IsSound document_of m id s v
  step-IsSound (aborts d id) s _ v = abort-IsSound document_of d id s v
  step-IsSound (aborts_meeting m) s _ v = abort_meeting-IsSound document_of m s v
  step-IsSound (begins_external m) s _ v = begin_external_update-IsSound document_of m s v
  step-IsSound (ends_external m) s _ v = end_external_update-IsSound document_of m s v
  step-IsSound (begins_collaboration m) s _ v = begin_collaboration_update-IsSound document_of m s v
  step-IsSound (ends_collaboration m) s _ v = v
  step-IsSound (confirms d id p q) s _ v = confirm_completion-IsSound document_of d id p q s v
  step-IsSound (submits m id u q) s _ v = submission-IsSound document_of m id u q s v
  step-IsSound (read_returns r result) s _ v = read_settles-IsSound r result s v
  step-IsSound (runs_out d) s _ v = timer_fires-IsSound document_of d s v

  pub run_from-IsSound :
      (cs : List Call) (s : Coordinator)
      → All IsPlaced cs
      → IsSound document_of s
      → IsSound document_of (run cs s)
  unfolding run
  run_from-IsSound [] s p v = v
  run_from-IsSound (c ∷ cs) s p v = run_from-IsSound cs (step c s) p.1 (step-IsSound c s p.0 v)

  -- After any history, every stored barrier is sound: its sets hold no repetitions, whoever drained
  -- or confirmed takes part, the phase has its timer and its answers, the barrier stands at its
  -- meeting's document, and its meeting has no external writer.
  pub run-IsSound : (cs : List Call) → All IsPlaced cs → IsSound document_of (run cs initial)
  run-IsSound cs p = run_from-IsSound cs initial p tt
