-- ===== src/Agenda/Brackets.antt =====
-- A request to add topics holds one external writer, and gives it back on every path.
use elderflow.Shared.{
  ℕ, ◌+◌, ◌≡◌, refl, ap, ◌∙◌, arith, Bool, true, false, List, ==_refl, if◌then◌else◌, inl, inr,
  Bool-cases, Option-cases,
}
use elderflow.Shared.Errors.{Result, err, conflict, e2ee_compaction_in_progress}
use elderflow.Compaction.State.{Coordinator, Outcome, of_meeting}
use elderflow.Compaction.Barriers.{is_settled}
use elderflow.Compaction.Invariant.{external_writers-release}
use elderflow.Compaction.Writers.{begin_external_update, end_external_update}
use elderflow.Agenda.Requests.{Documents, MeetingTopicInput, AgendaStore}
use elderflow.Agenda.Admission.{within_write, add_topic, add_topics}

abbrev writers : ℕ → Coordinator → ℕ
writers meeting s = s.external_writers meeting

-- An admitted writer is counted; one that is not admitted leaves the coordinator as it was.
abbrev Begun : ℕ → Coordinator → Coordinator × Bool → Type 0
Begun meeting s (s', true) = writers meeting s' ≡ writers meeting s + 1
Begun meeting s (s', false) = s' ≡ s

begin-Begun : (meeting : ℕ) (s : Coordinator) → Begun meeting s (begin_external_update meeting s)
unfolding begin_external_update
begin-Begun meeting s = elim (Option-cases (of_meeting meeting s.barriers)) [
  | inl e ↦ rw (e, begin_external_update) (rw (==_refl meeting) refl)
  | inr (b, e) ↦ elim (Bool-cases (is_settled b)) [
    | inl t ↦ rw (e, begin_external_update) (rw t refl)
    | inr t ↦
        rw (e, begin_external_update)
          (rw t (
            rw (==_refl meeting)
              (ap (λ count. count meeting + 1) (external_writers-release b Outcome.aborted s))))
  ]
]

end-writers :
    (meeting n : ℕ) (s : Coordinator)
    → writers meeting s ≡ n + 1
    → writers meeting (end_external_update meeting s) ≡ n
unfolding end_external_update
end-writers meeting n s h = ground (arith, h)

abbrev LeavesWriters : ℕ → (Coordinator → Coordinator) → Type 0
LeavesWriters meeting during = (s : Coordinator) → writers meeting (during s) ≡ writers meeting s

module _ {ℓ} {A : Type ℓ} (during : Coordinator → Coordinator) (meeting : ℕ)
    (leaves : LeavesWriters meeting during) where
  abbrev ended : Coordinator × Bool → Result A → Coordinator × Result A
  ended begun work =
      if begun.1
      then (end_external_update meeting (during begun.0), work)
      else (begun.0, err conflict e2ee_compaction_in_progress)

  ended-writers :
      (work : Result A) (s : Coordinator) (begun : Coordinator × Bool)
      → Begun meeting s begun
      → writers meeting (ended begun work).0 ≡ writers meeting s
  ended-writers work s (s', true) h =
      end-writers meeting (writers meeting s) (during s') (leaves s' ∙ h)
  ended-writers work s (s', false) h = ap (writers meeting) h

  within_write-writers :
      (work : Result A) (s : Coordinator)
      → writers meeting (within_write during meeting work s).0 ≡ writers meeting s
  unfolding within_write
  within_write-writers work s =
      ended-writers work s (begin_external_update meeting s) (begin-Begun meeting s)

module _ {Envelope D : Type 0} (service : Documents Envelope D)
    (fingerprint : MeetingTopicInput Envelope → ℕ) (during : Coordinator → Coordinator)
    (meeting user : ℕ) (store : AgendaStore D) (s : Coordinator) where
  -- Whether requests to add one topic or several succeed, fail or are refused, the meeting has as
  -- many external writers afterwards as before, when the code that runs meanwhile leaves them as
  -- many.
  pub add_topics-writers :
      (envelope : Envelope) (input : MeetingTopicInput Envelope)
      (items : List (MeetingTopicInput Envelope))
      → LeavesWriters meeting during
      → (writers meeting (add_topic service fingerprint during meeting input user store s).0
          ≡ writers meeting s)
        × (writers meeting
              (add_topics service fingerprint during meeting envelope items user store s).0
            ≡ writers meeting s)
  unfolding add_topic add_topics
  add_topics-writers envelope input items leaves =
      elim (Bool-cases (service.is_content_user user)) [
        | inl e ↦ rw e (
          within_write-writers during meeting leaves _ s,
          within_write-writers during meeting leaves _ s,
        )
        | inr e ↦ rw e (refl, refl)
      ]
