-- ===== src/Compaction/Rejoining.antt =====
-- Clients that come late, and timers (backend/src/meetings/meeting-compaction-coordinator.ts).
use elderflow.Shared.{
  ℕ, ◌≡◌, refl, ap, ◌∙◌, true, false, ◌&&◌, not, Option, none, some, List, arith, ◌==◌,
  if◌then◌else◌, inl, inr, Bool-cases, String, length, ==_refl,
}
use elderflow.Shared.Sets
use elderflow.Shared.Sets.{
  subset_of_length, contains_of_subset, contains-add, distinct-add, subset-add_right,
}
use elderflow.Compaction.State.{
  BarrierPhase, Outcome, Timer, is_completion, phase_is, CompactionBarrier, Coordinator,
  at_document, with_id, store,
}
use elderflow.Compaction.Barriers.{
  release, is_settled, join_round, connect, join, all_drained, make_ready, abort_of, abort, fail,
}
use elderflow.Compaction.Completing.{timer_fires}
use elderflow.Compaction.Store.{All-find, at_document-put, at_document-drop}
use elderflow.Compaction.Rounds.{join_round-IsSoundBarrier}
use elderflow.Compaction.Invariant.{IsStored, IsSound, barriers-release, phase_sound}

-- A set that misses a known member is smaller.
missing_member :
    (a : ℕ) (xs ys : List ℕ)
    → Sets.distinct xs ≡ true
    → Sets.subset xs ys ≡ true
    → Sets.contains a ys ≡ true
    → Sets.contains a xs ≡ false
    → (length xs == length ys) ≡ false
missing_member a xs ys d s known missing = elim (Bool-cases (length xs == length ys)) [
  | inr e ↦ e
  | inl e ↦ absurd (
      let all = subset_of_length xs ys d s e in
      ground (arith, contains_of_subset a ys xs all known))
]

at_document-release :
    (document : ℕ) (b : CompactionBarrier) (outcome : Outcome) (s : Coordinator)
    → at_document document (release b outcome s).barriers
      ≡ (if b.document_id == document then none else at_document document s.barriers)
at_document-release document b outcome s =
    ap (at_document document) (barriers-release b outcome s)
    ∙ at_document-drop document b.document_id s.barriers

make_ready_refused :
    (document id : ℕ) (sequence : String) (s : Coordinator) (b : CompactionBarrier)
    → at_document document s.barriers ≡ some b
    → all_drained b ≡ false
    → make_ready document id sequence s ≡ (s, none)
unfolding make_ready
make_ready_refused document id sequence s b e waiting =
    let no : (b.id == id && phase_is b.phase BarrierPhase.draining && all_drained b) ≡ false =
      ground arith in
    rw (e, make_ready) (rw no refl)

join_opens_round :
    (document participant : ℕ) (s : Coordinator) (b : CompactionBarrier)
    → at_document document s.barriers ≡ some b
    → (is_completion b.intention && is_settled b) ≡ false
    → (join document participant s).0
      ≡ store (join_round participant b) (connect document participant s)
unfolding join
join_opens_round document participant s b e open_round = rw (e, join) (rw open_round refl)

module _ (document_of : ℕ → ℕ) (s : Coordinator) (v : IsSound document_of s) where
  at_document-join :
      (document participant : ℕ) (b : CompactionBarrier)
      → at_document document s.barriers ≡ some b
      → (is_completion b.intention && is_settled b) ≡ false
      → at_document document (join document participant s).0.barriers
        ≡ some (join_round participant b)
  at_document-join document participant b e open_round =
      let hit = (All-find (IsStored document_of s.external_writers) _ s.barriers b e v).1 in
      let c = join_round participant b in
      ap (λ t. at_document document (Coordinator.barriers t))
        (join_opens_round document participant s b e open_round)
      ∙ at_document-put document c s.barriers
      ∙ ground arith

  -- A client that joins an open round and has not drained must drain before the barrier can be
  -- ready: until then `ready` returns nothing and changes nothing.
  pub make_ready-join :
      (document id participant : ℕ) (sequence : String) (b : CompactionBarrier)
      → at_document document s.barriers ≡ some b
      → (is_completion b.intention && is_settled b) ≡ false
      → Sets.contains participant b.drained ≡ false
      → make_ready document id sequence (join document participant s).0
        ≡ ((join document participant s).0, none)
  make_ready-join document id participant sequence b e open_round missing =
      let stored = (All-find (IsStored document_of s.external_writers) _ s.barriers b e v).0 in
      let c = join_round participant b in
      let sound = join_round-IsSoundBarrier participant b open_round stored.sound in
      make_ready_refused document id sequence (join document participant s).0 c
        (at_document-join document participant b e open_round)
        (missing_member participant c.drained c.participants sound.drained_distinct
          sound.drained_known (ground (arith, contains-add participant participant b.participants))
          (ground arith))

  abort_ends :
      (document : ℕ) (b : CompactionBarrier)
      → at_document document s.barriers ≡ some b
      → phase_is b.phase BarrierPhase.committing ≡ false
      → at_document document (abort document (some b.id) s).barriers ≡ none
  unfolding abort abort_of
  abort_ends document b e uncommitted =
      let hit = (All-find (IsStored document_of s.external_writers) _ s.barriers b e v).1 in
      rw (e, abort)
        (rw (==_refl b.id) (
          rw (uncommitted, abort_of)
            (at_document-release document b Outcome.aborted s ∙ ground arith)))

  fail_ends :
      (document : ℕ) (b : CompactionBarrier)
      → at_document document s.barriers ≡ some b
      → with_id b.id s.barriers ≡ some b
      → at_document document (fail b.meeting_id b.id s).barriers ≡ none
  unfolding fail
  fail_ends document b e named =
      let hit = (All-find (IsStored document_of s.external_writers) _ s.barriers b e v).1 in
      rw (named, fail)
        (rw (==_refl b.meeting_id)
          (at_document-release document b Outcome.aborted s ∙ ground arith))

  -- No barrier outlives its timer, but for a compaction that commits: when the timer runs out the
  -- barrier is gone, provided that its identifier names it.
  pub timer_ends_barrier :
      (document : ℕ) (b : CompactionBarrier)
      → at_document document s.barriers ≡ some b
      → with_id b.id s.barriers ≡ some b
      → (phase_is b.phase BarrierPhase.committing && not (is_completion b.intention)) ≡ false
      → at_document document (timer_fires document s).barriers ≡ none
  unfolding timer_fires
  timer_ends_barrier document b e named timed = fired b.timeout refl
    where
      timed_phase : phase_sound b.phase b ≡ true
      timed_phase =
          (All-find (IsStored document_of s.external_writers) _ s.barriers b e v).0.sound.timed

      fired :
          (t : Option Timer)
          → b.timeout ≡ t
          → at_document document (timer_fires document s).barriers ≡ none
      fired none h = absurd (ground (arith, timed_phase))
      fired (some Timer.abort_timer) h =
          rw (e, timer_fires) (rw h (abort_ends document b e (ground (arith, timed_phase))))
      fired (some Timer.fail_timer) h = rw (e, timer_fires) (rw h (fail_ends document b e named))
