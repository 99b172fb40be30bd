-- ===== src/Compaction/Settling.antt =====
-- The methods that admit or stop writers, and those of a completion, keep the coordinator sound.
use elderflow.Shared.{
  ℕ, ◌≡◌, refl, ◌∙◌, sym, ap, true, false, not, Option, none, some, List, arith, ◌==◌, All, inl,
  inr, Bool-cases, All-map,
}
use elderflow.Shared.Sets
use elderflow.Compaction.State.{Outcome, CompactionBarrier, Coordinator, of_meeting, update, drop}
use elderflow.Compaction.Barriers.{release, is_settled}
use elderflow.Compaction.Writers.{
  prepare_update, count_down, admit_external, begin_external_update, end_external_update,
  begin_collaboration_update,
}
use elderflow.Compaction.Store.{All-filter, All-find, All-find-none, All-and}
use elderflow.Compaction.Invariant.{
  IsStored, IsSound, release-IsSound, barriers-release, external_writers-release, drop-IsSound,
}
use elderflow.Compaction.Preservation.{if_rule, find_rule, Keeps}

module _ (document_of : ℕ → ℕ) where
  pub prepare_update-IsSound :
      (document participant : ℕ) (s : Coordinator)
      → IsSound document_of s
      → IsSound document_of (prepare_update document participant s).0
  unfolding prepare_update
  prepare_update-IsSound document participant s v =
      find_rule document_of (Keeps document_of) _ s _ _ v v λ b _ _ _.
        elim (Bool-cases (is_settled b)) [
          | inl e ↦ rw e v
          | inr e ↦ elim (Bool-cases (Sets.contains participant b.drained)) [
            | inl f ↦ rw (e, f) (release-IsSound document_of b Outcome.aborted s v)
            | inr f ↦ rw (e, f) v
          ]
        ]

  -- Another meeting's writers do not matter to a barrier.
  elsewhere :
      (writers : ℕ → ℕ) (meeting n : ℕ) (b : CompactionBarrier)
      → IsStored document_of writers b
      → (b.meeting_id == meeting) ≡ false
      → IsStored document_of (update meeting n writers) b
  elsewhere writers meeting n b h other = record {
    sound = h.sound;
    placed = h.placed;
    unwritten = rw other h.unwritten;
  }

  admit-All :
      (writers : ℕ → ℕ) (meeting n : ℕ) (bs : List CompactionBarrier)
      → All (IsStored document_of writers) bs
      → All (λ b. (b.meeting_id == meeting) ≡ false) bs
      → All (IsStored document_of (update meeting n writers)) bs
  admit-All writers meeting n bs h other =
      All-map _ _ bs (λ b k. elsewhere writers meeting n b k.0 k.1) (All-and _ _ bs h other)

  -- A barrier at another document stands for another meeting.
  other_meeting :
      (writers : ℕ → ℕ) (meeting : ℕ) (b c : CompactionBarrier)
      → IsStored document_of writers b
      → (b.meeting_id == meeting) ≡ true
      → IsStored document_of writers c
      → not (c.document_id == b.document_id) ≡ true
      → (c.meeting_id == meeting) ≡ false
  other_meeting writers meeting b c hb hit hc apart = elim (Bool-cases (c.meeting_id == meeting)) [
    | inl e ↦
        let m : c.meeting_id ≡ b.meeting_id = ground arith in
        let d : c.document_id ≡ b.document_id = hc.placed ∙ ap document_of m ∙ sym hb.placed in
        absurd (ground arith)
    | inr e ↦ e
  ]

  others_of_drop :
      (writers : ℕ → ℕ) (meeting : ℕ) (b : CompactionBarrier) (bs : List CompactionBarrier)
      → IsStored document_of writers b
      → (b.meeting_id == meeting) ≡ true
      → All (IsStored document_of writers) bs
      → All (λ c. (c.meeting_id == meeting) ≡ false) (drop b.document_id bs)
  others_of_drop writers meeting b bs stored hit h =
      All-map _ _ _ (λ c k. other_meeting writers meeting b c stored hit k.0 k.1)
        (All-filter (IsStored document_of writers) _ bs h)

  admit_after_release :
      (meeting : ℕ) (b : CompactionBarrier) (s : Coordinator)
      → IsStored document_of s.external_writers b
      → (b.meeting_id == meeting) ≡ true
      → IsSound document_of s
      → IsSound document_of (admit_external meeting (release b Outcome.aborted s))
  admit_after_release meeting b s stored hit v =
      rw (barriers-release b Outcome.aborted s, external_writers-release b Outcome.aborted s)
        (admit-All s.external_writers meeting _ (drop b.document_id s.barriers)
          (drop-IsSound document_of b.document_id s v)
          (others_of_drop s.external_writers meeting b s.barriers stored hit v))

  pub begin_external_update-IsSound :
      (meeting : ℕ) (s : Coordinator)
      → IsSound document_of s
      → IsSound document_of (begin_external_update meeting s).0
  unfolding begin_external_update
  begin_external_update-IsSound meeting s v = find_cases (of_meeting meeting s.barriers) refl
    where
      find_cases :
          (o : Option CompactionBarrier)
          → of_meeting meeting s.barriers ≡ o
          → IsSound document_of (begin_external_update meeting s).0
      find_cases none e =
          rw (e, begin_external_update)
            (admit-All s.external_writers meeting _ s.barriers v (All-find-none _ s.barriers e))
      find_cases (some b) e =
          let (stored, hit) =
            All-find (IsStored document_of s.external_writers) _ s.barriers b e v in
          rw (e, begin_external_update)
            (if_rule (Keeps document_of) (is_settled b) (s, false)
              (admit_external meeting (release b Outcome.aborted s), true) (λ _. v)
              (λ _. admit_after_release meeting b s stored hit v))

  release_writer :
      (writers : ℕ → ℕ) (meeting : ℕ) (b : CompactionBarrier)
      → IsStored document_of writers b
      → IsStored document_of (count_down meeting writers) b
  release_writer writers meeting b h = record {
    sound = h.sound;
    placed = h.placed;
    unwritten = let z = h.unwritten in ground arith;
  }

  pub end_external_update-IsSound :
      (meeting : ℕ) (s : Coordinator)
      → IsSound document_of s
      → IsSound document_of (end_external_update meeting s)
  unfolding end_external_update
  end_external_update-IsSound meeting s v =
      All-map _ _ s.barriers (release_writer s.external_writers meeting) v

  pub begin_collaboration_update-IsSound :
      (meeting : ℕ) (s : Coordinator)
      → IsSound document_of s
      → IsSound document_of (begin_collaboration_update meeting s).0
  unfolding begin_collaboration_update
  begin_collaboration_update-IsSound meeting s v =
      find_rule document_of (Keeps document_of) _ s _ _ v v
        λ b _ _ _. elim (Bool-cases (is_settled b)) [ inl e ↦ rw e v | inr e ↦ rw e v ]
