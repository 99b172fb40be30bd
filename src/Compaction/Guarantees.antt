-- ===== src/Compaction/Guarantees.antt =====
-- What a claim and a submission can rely on, in a sound state
-- (backend/src/meetings/meeting-compaction-coordinator.ts).
use elderflow.Shared.{
  ℕ, ◌≡◌, refl, ap, ◌∙◌, sym, Bool, true, Option, none, some, arith, inl, inr, Option-cases, String,
  find, eq_iff,
}
use elderflow.Shared.Sets
use elderflow.Shared.Sets.{
  subset_of_length, contains_of_subset, contains-add, distinct-add, subset-add_right,
}
use elderflow.Shared.Errors.{ok}
use elderflow.Compaction.State.{Timer, CompactionBarrier, Coordinator, with_id, sequence_is}
use elderflow.Compaction.Barriers.{may_claim, claim}
use elderflow.Compaction.Completing.{may_submit, claim_completion_submission}
use elderflow.Compaction.Store.{All-find}
use elderflow.Compaction.Invariant.{IsStored, IsSound, is_agreed, waits_fail}

sequence_is-true :
    (current : Option String) (sequence : String)
    → sequence_is current sequence ≡ true
    → current ≡ some sequence
sequence_is-true none sequence h = cc
sequence_is-true (some current) sequence h = ap some ((eq_iff current sequence).0 h)

waits_fail-true : (t : Option Timer) → waits_fail t ≡ true → t ≡ some Timer.fail_timer
waits_fail-true none h = cc
waits_fail-true (some Timer.abort_timer) h = cc
waits_fail-true (some Timer.fail_timer) h = refl

module _ (document_of : ℕ → ℕ) where
  find-IsStored :
      (test : CompactionBarrier → Bool) (s : Coordinator) (b : CompactionBarrier)
      → find test s.barriers ≡ some b
      → IsSound document_of s
      → IsStored document_of s.external_writers b × (test b ≡ true)
  find-IsStored test s b e v =
      All-find (IsStored document_of s.external_writers) test s.barriers b e v

  -- What a claim proves of the barrier that it names.
  pub record IsClaimed (meeting id user : ℕ) (sequence : String) (s : Coordinator) : Type 0 where
    pub barrier : CompactionBarrier
    pub found : with_id id s.barriers ≡ some barrier
    pub of_meeting : barrier.meeting_id ≡ meeting
    pub of_user : barrier.compactor_user_id ≡ user
    pub sequenced : barrier.server_sequence ≡ some sequence
    pub drained : Sets.subset barrier.participants barrier.drained ≡ true
    pub unwritten : s.external_writers meeting ≡ 0

  -- A claim for a compaction succeeds only for the user who asked for it, when every participant has
  -- drained and no external writer of the meeting is at work.
  pub claim-IsClaimed :
      (meeting id user : ℕ) (s : Coordinator) (sequence : String)
      → IsSound document_of s
      → (claim meeting id user s).1 ≡ ok sequence
      → IsClaimed meeting id user sequence s
  unfolding claim
  claim-IsClaimed meeting id user s sequence v e = elim (Option-cases (with_id id s.barriers)) [
    | inl f ↦ absurd (ground arith)
    | inr (b, f) ↦
        let (stored, hit) = find-IsStored _ s b f v in
        let may : may_claim meeting user b ≡ true = ground arith in
        let same : b.meeting_id ≡ meeting = ground arith in
        record {
          barrier = b;
          found = f;
          of_meeting = same;
          of_user = ground arith;
          sequenced = ground arith;
          drained = ground (arith, stored.sound);
          unwritten = rw (← same) stored.unwritten;
        }
  ]

  -- What the submission of a completion proves of its barrier.
  pub record IsSubmitted (meeting id user : ℕ) (sequence : String) (document : ℕ) (s : Coordinator)
      : Type 0 where
    pub barrier : CompactionBarrier
    pub found : with_id id s.barriers ≡ some barrier
    pub of_meeting : barrier.meeting_id ≡ meeting
    pub of_user : barrier.compactor_user_id ≡ user
    pub sequenced : barrier.server_sequence ≡ some sequence
    pub agreed : is_agreed barrier ≡ true
    pub deadline : barrier.timeout ≡ some Timer.fail_timer
    pub unwritten : s.external_writers meeting ≡ 0
    pub placed : document ≡ document_of meeting

  -- A completion is submitted only by the user who began it, with the captured sequence, when every
  -- participant has drained and confirmed, no external writer is at work, and a deadline runs.
  pub submission-IsSubmitted :
      (meeting id user : ℕ) (sequence : String) (s : Coordinator) (document : ℕ)
      → IsSound document_of s
      → (claim_completion_submission meeting id user sequence s).1 ≡ ok document
      → IsSubmitted meeting id user sequence document s
  unfolding claim_completion_submission
  submission-IsSubmitted meeting id user sequence s document v e =
      elim (Option-cases (with_id id s.barriers)) [
        | inl f ↦ absurd (ground arith)
        | inr (b, f) ↦
            let (stored, hit) = find-IsStored _ s b f v in
            let may : may_submit meeting user sequence b ≡ true = ground arith in
            let opened_at : b.document_id ≡ document = ground arith in
            let same : b.meeting_id ≡ meeting = ground arith in
            record {
              barrier = b;
              found = f;
              of_meeting = same;
              of_user = ground arith;
              sequenced = sequence_is-true b.server_sequence sequence (ground arith);
              agreed = ground (arith, stored.sound);
              deadline = waits_fail-true b.timeout (ground (arith, stored.sound));
              unwritten = rw (← same) stored.unwritten;
              placed = sym opened_at ∙ stored.placed ∙ ap document_of same;
            }
      ]
