-- ===== src/Compaction/Finishing.antt =====
-- The methods of a completion keep the coordinator sound.
use elderflow.Shared.{
  ℕ, ◌≡◌, refl, ◌∙◌, false, ◌&&◌, not, ◌||◌, Option, none, some, List, arith, ◌==◌, ==_refl, inl,
  inr, Option-cases, Bool-cases, ltb, String, length,
}
use elderflow.Compaction.State.{
  BarrierPhase, Timer, is_completion, phase_is, Completion, CompactionBarrier, PendingRead,
  Coordinator, at_document, put, store, emit, Event,
}
use elderflow.Shared.Errors.{ok}
use elderflow.Compaction.Barriers.{
  fresh_barrier, open_barrier, acknowledge, abort, fail, all_drained,
}
use elderflow.Compaction.Completing.{
  claim_completion, capture_completion_sequence, sequenced, sequence_captured, sequence_read,
  completing, start_completion, complete_opened, begin_completion, completion_drained, may_confirm,
  confirm, confirm_of, confirm_completion, may_submit, claim_completion_submission,
  cancel_completion, timer_fires, has_completion, confirmed_count, finalized,
}
use elderflow.Compaction.Store.{at_document-put}
use elderflow.Compaction.Rounds.{
  completing-IsSoundBarrier, captured-IsSoundBarrier, confirm-IsSoundBarrier,
  finalized-IsSoundBarrier, submitted-IsSoundBarrier, sequenced-IsSoundBarrier,
  fresh_barrier-IsSoundBarrier,
}
use elderflow.Compaction.Invariant.{IsSoundBarrier, IsStored, IsSound, store-IsSound}
use elderflow.Compaction.Preservation.{
  find_rule, Keeps, IsStored-again, acknowledge-IsSound, abort-IsSound, fail-IsSound,
}

-- What `beginCompletion` starts with: a barrier that is new and for a completion.
abbrev pub completion_of : (id meeting document user : ℕ) → Coordinator → CompactionBarrier
completion_of id meeting document user s =
    completing (fresh_barrier id meeting document none user (s.connections document))

pub open_barrier_opens :
    (id meeting document : ℕ) (connection : Option ℕ) (user : ℕ) (participants : List ℕ)
    (s : Coordinator)
    → at_document document s.barriers ≡ none
    → ltb 0 (s.external_writers meeting) ≡ false
    → (open_barrier id meeting document connection user participants s).0
      ≡ store (fresh_barrier id meeting document connection user participants) s
unfolding open_barrier
open_barrier_opens id meeting document connection user participants s none_yet idle =
    rw (idle, open_barrier) (rw (none_yet, open_barrier) refl)

at_document-put_self :
    (b : CompactionBarrier) (bs : List CompactionBarrier)
    → at_document b.document_id (put b bs) ≡ some b
at_document-put_self b bs =
    at_document-put b.document_id b bs ∙ ground (arith, ==_refl b.document_id)

-- With no barrier and no external writer, the new barrier is stored and captured at once.
pub begin_completion_opens :
    (id meeting document user : ℕ) (s : Coordinator)
    → at_document document s.barriers ≡ none
    → ltb 0 (s.external_writers meeting) ≡ false
    → begin_completion id meeting document user s ≡ (
      start_completion
          (completion_of id meeting document user s)
          (store (fresh_barrier id meeting document none user (s.connections document)) s),
      ok tt,
    )
unfolding begin_completion complete_opened
begin_completion_opens id meeting document user s none_yet idle =
    let new = fresh_barrier id meeting document none user (s.connections document) in
    rw (none_yet, begin_completion)
      (rw idle (
        rw
          (open_barrier_opens id meeting document none user (s.connections document) s none_yet
            idle)
          (rw (at_document-put_self new s.barriers, complete_opened) refl)))

module _ (document_of : ℕ → ℕ) where
  pub claim_completion-IsSound :
      (b : CompactionBarrier) (s : Coordinator)
      → IsStored document_of s.external_writers b
      → IsSound document_of s
      → IsSound document_of (claim_completion b s)
  unfolding claim_completion
  claim_completion-IsSound b s stored v = elim (Option-cases b.server_sequence) [
    | inl e ↦ rw (e, claim_completion) v
    | inr (q, e) ↦
        elim (Bool-cases (
          has_completion b
          && phase_is b.phase BarrierPhase.confirming
          && confirmed_count b.completion == length b.participants)) [
            | inl may ↦
                rw (e, claim_completion)
                  (rw may (
                    store-IsSound document_of (finalized b) s
                      (IsStored-again document_of (finalized b) stored refl refl
                        (finalized-IsSoundBarrier b may stored.sound))
                      v))
            | inr not_yet ↦ rw (e, claim_completion) (rw not_yet v)
          ]
  ]

  pub capture-IsSound :
      (b : CompactionBarrier) (s : Coordinator)
      → IsStored document_of s.external_writers b
      → IsSound document_of s
      → IsSound document_of (capture_completion_sequence b s)
  unfolding capture_completion_sequence
  capture-IsSound b s stored v =
      elim (Bool-cases
        (has_completion b && phase_is b.phase BarrierPhase.draining && all_drained b)) [
          | inl may ↦ rw may (
              store-IsSound document_of _ s
                (IsStored-again document_of (record b { phase = BarrierPhase.confirming }) stored
                  refl refl (captured-IsSoundBarrier b may stored.sound))
                v)
          | inr not_yet ↦ rw not_yet v
        ]

  pub sequence_captured-IsSound :
      (r : PendingRead) (sequence : String) (s : Coordinator)
      → IsSound document_of s
      → IsSound document_of (sequence_captured r sequence s)
  unfolding sequence_captured
  sequence_captured-IsSound r sequence s v =
      find_rule document_of (IsSound document_of) _ s _ _ v v λ b _ stored _.
        elim (Bool-cases
          (not (b.id == r.barrier_id) || not (phase_is b.phase BarrierPhase.confirming))) [
            | inl e ↦ rw e v
            | inr e ↦ elim (Bool-cases (ltb 0 (s.collaboration_writers b.meeting_id))) [
              | inl f ↦ rw (e, f) (abort-IsSound document_of b.document_id (some b.id) s v)
              | inr f ↦
                  let again =
                    IsStored-again document_of (sequenced sequence b) stored refl refl
                      (sequenced-IsSoundBarrier sequence b stored.sound) in
                  rw (e, f)
                    (claim_completion-IsSound (sequenced sequence b)
                      (emit (Event.completion_sequence b.document_id b.id sequence)
                        (store (sequenced sequence b) s))
                      again (store-IsSound document_of (sequenced sequence b) s again v))
            ]
          ]

  pub sequence_read-IsSound :
      (r : PendingRead) (result : Option String) (s : Coordinator)
      → IsSound document_of s
      → IsSound document_of (sequence_read r result s)
  unfolding sequence_read
  sequence_read-IsSound r none s v = abort-IsSound document_of r.document_id (some r.barrier_id) s v
  sequence_read-IsSound r (some sequence) s v = sequence_captured-IsSound r sequence s v

  start_completion-IsSound :
      (b : CompactionBarrier) (s : Coordinator)
      → IsStored document_of s.external_writers b
      → IsSound document_of s
      → IsSound document_of (start_completion b s)
  unfolding start_completion
  start_completion-IsSound b s stored v =
      capture-IsSound b (emit (Event.completion_barrier b.document_id b.id) (store b s)) stored
        (store-IsSound document_of b s stored v)

  pub begin_completion-IsSound :
      (id meeting document user : ℕ) (s : Coordinator)
      → document ≡ document_of meeting
      → IsSound document_of s
      → IsSound document_of (begin_completion id meeting document user s).0
  unfolding begin_completion
  begin_completion-IsSound id meeting document user s placed v =
      elim (Option-cases (at_document document s.barriers)) [
        | inr (b, e) ↦ rw (e, begin_completion) v
        | inl e ↦ elim (Bool-cases (ltb 0 (s.external_writers meeting))) [
          | inl busy ↦ rw (e, begin_completion) (rw busy v)
          | inr idle ↦
              let new = fresh_barrier id meeting document none user (s.connections document) in
              let sound : IsSoundBarrier new =
                fresh_barrier-IsSoundBarrier id meeting document none user
                  (s.connections document) in
              let stored : IsStored document_of s.external_writers new = record {
                sound = sound;
                placed = placed;
                unwritten = ground arith;
              } in
              rw (begin_completion_opens id meeting document user s e idle) (
                start_completion-IsSound (completing new) (store new s)
                  (IsStored-again document_of (completing new) stored refl refl
                    (completing-IsSoundBarrier new refl sound))
                  (store-IsSound document_of new s stored v))
        ]
      ]

  pub completion_drained-IsSound :
      (document id participant : ℕ) (s : Coordinator)
      → IsSound document_of s
      → IsSound document_of (completion_drained document id participant s)
  unfolding completion_drained
  completion_drained-IsSound document id participant s v =
      find_rule document_of (IsSound document_of) _ s _ _ v v λ b _ _ _.
        let after = acknowledge-IsSound document_of document id participant s v in
        let s' = (acknowledge document id participant s).0 in
        elim (Bool-cases (is_completion b.intention)) [
          | inr e ↦ rw e v
          | inl e ↦ elim (Bool-cases (acknowledge document id participant s).1) [
            | inr f ↦ rw (e, f) after
            | inl f ↦
                rw (e, f)
                  (find_rule document_of (IsSound document_of) _ s' _ _ after after
                    λ c _ stored _. capture-IsSound c s' stored after)
          ]
        ]

  confirm_of-IsSound :
      (id participant : ℕ) (sequence : String) (b : CompactionBarrier) (c : Completion)
      (s : Coordinator)
      → b.completion ≡ some c
      → IsStored document_of s.external_writers b
      → IsSound document_of s
      → IsSound document_of (confirm_of id participant sequence b c s)
  unfolding confirm_of
  confirm_of-IsSound id participant sequence b c s e stored v =
      elim (Bool-cases (may_confirm id participant sequence b)) [
        | inr f ↦ rw f v
        | inl f ↦
            let again =
              IsStored-again document_of (confirm participant c b) stored refl refl
                (confirm-IsSoundBarrier id participant sequence b c e f stored.sound) in
            rw f (
              claim_completion-IsSound (confirm participant c b) (store (confirm participant c b) s)
                again (store-IsSound document_of (confirm participant c b) s again v))
      ]

  pub confirm_completion-IsSound :
      (document id participant : ℕ) (sequence : String) (s : Coordinator)
      → IsSound document_of s
      → IsSound document_of (confirm_completion document id participant sequence s)
  unfolding confirm_completion
  confirm_completion-IsSound document id participant sequence s v =
      find_rule document_of (IsSound document_of) _ s _ _ v v λ b _ stored _.
        elim (Option-cases b.completion) [
          | inl e ↦ rw e v
          | inr (c, e) ↦ rw e (confirm_of-IsSound id participant sequence b c s e stored v)
        ]

  pub submission-IsSound :
      (meeting id user : ℕ) (sequence : String) (s : Coordinator)
      → IsSound document_of s
      → IsSound document_of (claim_completion_submission meeting id user sequence s).0
  unfolding claim_completion_submission
  submission-IsSound meeting id user sequence s v =
      find_rule document_of (Keeps document_of) _ s _ _ v v λ b _ stored _.
        elim (Bool-cases (may_submit meeting user sequence b)) [
          | inr e ↦ rw e v
          | inl e ↦ rw e (
              store-IsSound document_of _ s
                (IsStored-again document_of (record b { phase = BarrierPhase.committing }) stored
                  refl refl (submitted-IsSoundBarrier meeting user sequence b e stored.sound))
                v)
        ]

  pub cancel_completion-IsSound :
      (meeting id user : ℕ) (s : Coordinator)
      → IsSound document_of s
      → IsSound document_of (cancel_completion meeting id user s)
  unfolding cancel_completion
  cancel_completion-IsSound meeting id user s v =
      find_rule document_of (IsSound document_of) _ s _ _ v v λ b _ _ _.
        elim (Bool-cases
          (is_completion b.intention && b.meeting_id == meeting && b.compactor_user_id == user)) [
            | inl e ↦ rw e (abort-IsSound document_of b.document_id (some b.id) s v)
            | inr e ↦ rw e v
          ]

  pub timer_fires-IsSound :
      (document : ℕ) (s : Coordinator)
      → IsSound document_of s
      → IsSound document_of (timer_fires document s)
  unfolding timer_fires
  timer_fires-IsSound document s v =
      find_rule document_of (IsSound document_of) _ s _ _ v v λ b _ _ _.
        elim (Option-cases b.timeout) [
          | inl e ↦ rw e v
          | inr (t, e) ↦ rw e (fired t b.id b.meeting_id)
        ]
    where
      fired :
          (t : Timer) (id meeting : ℕ)
          → IsSound document_of (elim t [
            | Timer.abort_timer ↦ abort document (some id) s
            | Timer.fail_timer ↦ fail meeting id s
          ])
      fired Timer.abort_timer id meeting = abort-IsSound document_of document (some id) s v
      fired Timer.fail_timer id meeting = fail-IsSound document_of meeting id s v
