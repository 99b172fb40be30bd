-- ===== src/Compaction/Tests.antt =====
-- Runs of the coordinator, and its theorems at concrete histories.
use elderflow.Shared.{ℕ, ◌≡◌, refl, false, none, some, List, [], ◌∷◌, find, filter}
use elderflow.Shared.Sets
use elderflow.Shared.Errors.{ok, err, conflict, e2ee_compaction_barrier_invalid}
use elderflow.Compaction.State.{
  BarrierPhase, Intention, Timer, CompactionBarrier, initial, put, at_document,
}
use elderflow.Compaction.Barriers.{
  release, open_barrier, join, acknowledge, make_ready, claim, assert_claim, complete, fail,
  abort_of, abort, abort_meeting, disconnected,
}
use elderflow.Compaction.Writers.{
  prepare_update, begin_external_update, end_external_update, begin_collaboration_update,
  end_collaboration_update,
}
use elderflow.Compaction.Completing.{
  claim_completion, capture_completion_sequence, sequence_captured, sequence_read, start_completion,
  complete_opened, begin_completion, completion_drained, confirm_of, confirm_completion,
  claim_completion_submission, cancel_completion, timer_fires,
}
use elderflow.Compaction.Invariant.{IsSound}
use elderflow.Compaction.Run.{
  Call, opens, joins, acknowledges, readies, begins_completion, drains_completion, confirms,
  read_returns, begins_external, take_read, read_settles, step, run, run-IsSound,
}
use elderflow.Compaction.Guarantees.{
  IsClaimed, claim-IsClaimed, IsSubmitted, submission-IsSubmitted,
}
use elderflow.Compaction.Rejoining.{make_ready-join, timer_ends_barrier}

machine : Unit {0}
unfolding find filter Sets.contains Sets.add Sets.delete Sets.of_list_onto Sets.of_list put release
    open_barrier join acknowledge make_ready claim assert_claim complete fail abort_of abort
    abort_meeting disconnected prepare_update begin_external_update end_external_update
    begin_collaboration_update end_collaboration_update claim_completion capture_completion_sequence
    sequence_captured sequence_read start_completion complete_opened begin_completion
    completion_drained confirm_of confirm_completion claim_completion_submission cancel_completion
    timer_fires take_read read_settles step run
machine = tt

-- Meeting m has the document m.
abbrev document_of : ℕ → ℕ
document_of m = m

-- Clients 5 and 6 drain the barrier 7 of meeting 1, which user 9 asked for.
abbrev readying : List Call
readying =
    opens 7 1 1 (some 5) 9 (5 ∷ 6 ∷ [])
    ∷ acknowledges 1 7 5
    ∷ acknowledges 1 7 6
    ∷ readies 1 7 "12"
    ∷ []

abbrev draining : List Call
draining = opens 7 1 1 (some 5) 9 (5 ∷ 6 ∷ []) ∷ acknowledges 1 7 5 ∷ []

-- Client 5 is connected when user 9 begins to complete meeting 1; it drains and confirms.
abbrev completing_calls : List Call
completing_calls =
    joins 1 5
    ∷ begins_completion 7 1 1 9
    ∷ drains_completion 1 7 5
    ∷ read_returns (record { document_id = 1; barrier_id = 7 }) (some "12")
    ∷ confirms 1 7 5 "12"
    ∷ []

claimed_twice :
    ((claim 1 7 9 (run readying initial)).1 ≡ ok "12")
    × ((claim 1 7 8 (run readying initial)).1 ≡ err conflict e2ee_compaction_barrier_invalid)
unfolding machine
claimed_twice = (refl, refl)

run-IsSound_example : IsSound document_of (run completing_calls initial)
run-IsSound_example = run-IsSound document_of completing_calls (tt, (refl, (tt, (tt, (tt, tt)))))

readying-IsSound : IsSound document_of (run readying initial)
readying-IsSound = run-IsSound document_of readying (refl, (tt, (tt, (tt, tt))))

draining-IsSound : IsSound document_of (run draining initial)
draining-IsSound = run-IsSound document_of draining (refl, (tt, tt))

claim-IsClaimed_example : IsClaimed document_of 1 7 9 "12" (run readying initial)
unfolding machine
claim-IsClaimed_example =
    claim-IsClaimed document_of 1 7 9 (run readying initial) "12" readying-IsSound refl

submission-IsSubmitted_example : IsSubmitted document_of 1 7 9 "12" 1 (run completing_calls initial)
unfolding machine
submission-IsSubmitted_example =
    submission-IsSubmitted document_of 1 7 9 "12" (run completing_calls initial) 1
      run-IsSound_example refl

-- The barriers of the two histories.
abbrev drained_by_5 : CompactionBarrier
drained_by_5 = record {
  intention = Intention.compaction;
  cancelled = false;
  completion = none;
  id = 7;
  meeting_id = 1;
  document_id = 1;
  compactor_connection_id = some 5;
  compactor_user_id = 9;
  participants = 5 ∷ 6 ∷ [];
  drained = 5 ∷ [];
  phase = BarrierPhase.draining;
  server_sequence = none;
  timeout = some Timer.abort_timer;
}

abbrev finalizing_barrier : CompactionBarrier
finalizing_barrier = record {
  intention = Intention.completion;
  cancelled = false;
  completion = some (record { confirmed = 5 ∷ [] });
  id = 7;
  meeting_id = 1;
  document_id = 1;
  compactor_connection_id = none;
  compactor_user_id = 9;
  participants = 5 ∷ [];
  drained = 5 ∷ [];
  phase = BarrierPhase.finalizing;
  server_sequence = some "12";
  timeout = some Timer.fail_timer;
}

abbrev writing : List Call
writing = opens 7 1 1 (some 5) 9 (5 ∷ []) ∷ begins_external 1 ∷ []

make_ready-join_example :
    make_ready 1 7 "13" (join 1 8 (run draining initial)).0
    ≡ ((join 1 8 (run draining initial)).0, none)
unfolding machine
make_ready-join_example =
    make_ready-join document_of (run draining initial) draining-IsSound 1 7 8 "13" drained_by_5 refl
      refl refl

timer_ends_barrier_example :
    at_document 1 (timer_fires 1 (run completing_calls initial)).barriers ≡ none
unfolding machine
timer_ends_barrier_example =
    timer_ends_barrier document_of (run completing_calls initial) run-IsSound_example 1
      finalizing_barrier refl refl refl
