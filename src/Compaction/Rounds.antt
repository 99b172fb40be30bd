-- ===== src/Compaction/Rounds.antt =====
-- One barrier: each change that a method makes to it keeps it sound.
use elderflow.Shared.{
  ℕ, ◌≡◌, true, false, ◌&&◌, Option, none, some, List, arith, ◌==◌, String, length,
}
use elderflow.Shared.Sets
use elderflow.Shared.Sets.{
  distinct-of_list, distinct-add, subset-add_left, subset-add_right, subset_of_length,
}
use elderflow.Compaction.State.{
  Completion, BarrierPhase, is_completion, phase_is, CompactionBarrier,
}
use elderflow.Compaction.Barriers.{
  fresh_barrier, is_settled, join_round, may_drain, drain, may_claim, all_drained,
}
use elderflow.Compaction.Completing.{
  has_completion, sequenced, completing, confirm, may_confirm, confirmed_count, finalized,
  may_submit,
}
use elderflow.Compaction.Invariant.{IsSoundBarrier, confirmed_of}

pub fresh_barrier-IsSoundBarrier :
    (id meeting document : ℕ) (connection : Option ℕ) (user : ℕ) (participants : List ℕ)
    → IsSoundBarrier (fresh_barrier id meeting document connection user participants)
unfolding Sets.distinct Sets.subset
fresh_barrier-IsSoundBarrier id meeting document connection user participants =
    ground (arith, distinct-of_list participants)

pub join_round-IsSoundBarrier :
    (participant : ℕ) (b : CompactionBarrier)
    → (is_completion b.intention && is_settled b) ≡ false
    → IsSoundBarrier b
    → IsSoundBarrier (join_round participant b)
unfolding Sets.distinct Sets.subset
join_round-IsSoundBarrier participant b open_round v = ground (
  arith,
  distinct-add participant b.participants,
  subset-add_right participant b.drained b.participants,
)

pub drain-IsSoundBarrier :
    (id participant : ℕ) (b : CompactionBarrier)
    → may_drain id participant b ≡ true
    → IsSoundBarrier b
    → IsSoundBarrier (drain participant b)
drain-IsSoundBarrier id participant b may v = ground (
  arith,
  distinct-add participant b.drained,
  subset-add_left participant b.drained b.participants,
)

pub ready-IsSoundBarrier :
    (sequence : String) (b : CompactionBarrier)
    → (phase_is b.phase BarrierPhase.draining && all_drained b) ≡ true
    → IsSoundBarrier b
    → IsSoundBarrier (record b { phase = BarrierPhase.ready; server_sequence = some sequence })
ready-IsSoundBarrier sequence b may v = ground (arith, subset_of_length b.drained b.participants)

pub claim-IsSoundBarrier :
    (meeting user : ℕ) (b : CompactionBarrier)
    → may_claim meeting user b ≡ true
    → IsSoundBarrier b
    → IsSoundBarrier (record b { phase = BarrierPhase.committing; timeout = none })
claim-IsSoundBarrier meeting user b may v = ground arith

pub completing-IsSoundBarrier :
    (b : CompactionBarrier)
    → phase_is b.phase BarrierPhase.draining ≡ true
    → IsSoundBarrier b
    → IsSoundBarrier (completing b)
unfolding Sets.distinct Sets.subset
completing-IsSoundBarrier b new v = ground arith

pub captured-IsSoundBarrier :
    (b : CompactionBarrier)
    → (has_completion b && phase_is b.phase BarrierPhase.draining && all_drained b) ≡ true
    → IsSoundBarrier b
    → IsSoundBarrier (record b { phase = BarrierPhase.confirming })
captured-IsSoundBarrier b may v = ground (arith, subset_of_length b.drained b.participants)

pub confirm-IsSoundBarrier :
    (id participant : ℕ) (sequence : String) (b : CompactionBarrier) (c : Completion)
    → b.completion ≡ some c
    → may_confirm id participant sequence b ≡ true
    → IsSoundBarrier b
    → IsSoundBarrier (confirm participant c b)
confirm-IsSoundBarrier id participant sequence b c e may v = ground (
  arith,
  distinct-add participant c.confirmed,
  subset-add_left participant c.confirmed b.participants,
)

pub finalized-IsSoundBarrier :
    (b : CompactionBarrier)
    → (has_completion b
        && phase_is b.phase BarrierPhase.confirming
        && confirmed_count b.completion == length b.participants)
      ≡ true
    → IsSoundBarrier b
    → IsSoundBarrier (finalized b)
finalized-IsSoundBarrier b may v =
    ground (arith, subset_of_length (confirmed_of b.completion) b.participants)

pub submitted-IsSoundBarrier :
    (meeting user : ℕ) (sequence : String) (b : CompactionBarrier)
    → may_submit meeting user sequence b ≡ true
    → IsSoundBarrier b
    → IsSoundBarrier (record b { phase = BarrierPhase.committing })
submitted-IsSoundBarrier meeting user sequence b may v = ground arith

pub sequenced-IsSoundBarrier :
    (sequence : String) (b : CompactionBarrier)
    → IsSoundBarrier b
    → IsSoundBarrier (sequenced sequence b)
sequenced-IsSoundBarrier sequence b v = ground arith
