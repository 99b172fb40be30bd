-- ===== src/Compaction/Invariant.antt =====
-- What holds of every barrier in every state that the coordinator reaches.
use elderflow.Shared.{
  ℕ, ◌≡◌, refl, Bool, true, false, ◌&&◌, Option, none, some, List, [], arith, if◌then◌else◌, All,
  All-map,
}
use elderflow.Shared.Sets.{distinct, subset}
use elderflow.Compaction.State.{
  BarrierPhase, Timer, Outcome, is_completion, Completion, CompactionBarrier, Coordinator, store,
  drop,
}
use elderflow.Compaction.Barriers.{release}
use elderflow.Compaction.Completing.{has_completion}
use elderflow.Compaction.Store.{All-put, All-filter}

abbrev pub confirmed_of : Option Completion → List ℕ
confirmed_of none = []
confirmed_of (some c) = c.confirmed

abbrev pub waits_abort : Option Timer → Bool
waits_abort (some Timer.abort_timer) = true
waits_abort _ = false

abbrev pub waits_fail : Option Timer → Bool
waits_fail (some Timer.fail_timer) = true
waits_fail _ = false

abbrev pub is_none {ℓ} : {A : Type ℓ} → Option A → Bool
is_none none = true
is_none (some a) = false

-- Everyone has drained, and for a completion everyone has confirmed.
abbrev pub is_agreed : CompactionBarrier → Bool
is_agreed b = subset b.participants b.drained && subset b.participants (confirmed_of b.completion)

-- Which timer runs and who has answered, by the phase.
abbrev pub phase_sound : BarrierPhase → CompactionBarrier → Bool
phase_sound BarrierPhase.draining b = waits_abort b.timeout
phase_sound BarrierPhase.confirming b =
    waits_abort b.timeout && is_completion b.intention && subset b.participants b.drained
phase_sound BarrierPhase.ready b = waits_abort b.timeout && subset b.participants b.drained
phase_sound BarrierPhase.finalizing b =
    waits_fail b.timeout && is_completion b.intention && is_agreed b
phase_sound BarrierPhase.committing b =
    if is_completion b.intention then waits_fail b.timeout && is_agreed b else is_none b.timeout

pub record IsSoundBarrier (b : CompactionBarrier) : Type 0 where
  pub participants_distinct : distinct b.participants ≡ true
  pub drained_distinct : distinct b.drained ≡ true
  pub drained_known : subset b.drained b.participants ≡ true
  pub confirmed_distinct : distinct (confirmed_of b.completion) ≡ true
  pub confirmed_known : subset (confirmed_of b.completion) b.participants ≡ true
  pub promised : has_completion b ≡ is_completion b.intention
  pub timed : phase_sound b.phase b ≡ true

pub barriers-release :
    (b : CompactionBarrier) (outcome : Outcome) (s : Coordinator)
    → (release b outcome s).barriers ≡ drop b.document_id s.barriers
unfolding release
barriers-release b Outcome.aborted s = ground arith
barriers-release b _ s = refl

pub external_writers-release :
    (b : CompactionBarrier) (outcome : Outcome) (s : Coordinator)
    → (release b outcome s).external_writers ≡ s.external_writers
unfolding release
external_writers-release b Outcome.aborted s = ground arith
external_writers-release b _ s = refl

-- `document_of` is the database's relation: one document for each meeting.
module _ (document_of : ℕ → ℕ) where
  pub record IsStored (writers : ℕ → ℕ) (b : CompactionBarrier) : Type 0 where
    pub sound : IsSoundBarrier b
    pub placed : b.document_id ≡ document_of b.meeting_id
    pub unwritten : writers b.meeting_id ≡ 0

  abbrev pub IsSound : Coordinator → Type 0
  IsSound s = All (IsStored s.external_writers) s.barriers

  pub store-IsSound :
      (b : CompactionBarrier) (s : Coordinator)
      → IsStored s.external_writers b
      → IsSound s
      → IsSound (store b s)
  store-IsSound b s h v = All-put (IsStored s.external_writers) b s.barriers h v

  pub drop-IsSound :
      (document : ℕ) (s : Coordinator)
      → IsSound s
      → All (IsStored s.external_writers) (drop document s.barriers)
  drop-IsSound document s v =
      All-map _ _ _ (λ b h. h.0) (All-filter (IsStored s.external_writers) _ s.barriers v)

  pub release-IsSound :
      (b : CompactionBarrier) (outcome : Outcome) (s : Coordinator)
      → IsSound s
      → IsSound (release b outcome s)
  release-IsSound b outcome s v =
      rw (barriers-release b outcome s, external_writers-release b outcome s)
        (drop-IsSound b.document_id s v)
