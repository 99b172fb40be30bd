-- ===== src/Compaction/Writers.antt =====
-- The writers that a barrier stops: `prepareUpdate`, `beginExternalUpdate`, `endExternalUpdate`,
-- `beginCollaborationUpdate`, `endCollaborationUpdate`.
use elderflow.Shared.{ℕ, ◌+◌, ◌-◌, Bool, true, false, none, some, leb, if◌then◌else◌}
use elderflow.Shared.Sets
use elderflow.Compaction.State.{Outcome, Coordinator, update, at_document, of_meeting}
use elderflow.Compaction.Barriers.{release, is_settled}

unfoldable pub prepare_update : ℕ → ℕ → Coordinator → Coordinator × Bool
unfolding release
prepare_update document participant s = elim (at_document document s.barriers) [
  | none ↦ (s, true)
  | some b ↦
      if is_settled b
      then (s, false)
      else (if Sets.contains participant b.drained
          then (release b Outcome.aborted s, true)
          else (s, true))
]

abbrev pub count_up : ℕ → (ℕ → ℕ) → ℕ → ℕ
count_up meeting writers = update meeting (writers meeting + 1) writers

-- The entry is deleted at one writer or none.
abbrev pub count_down : ℕ → (ℕ → ℕ) → ℕ → ℕ
count_down meeting writers =
    if leb (writers meeting) 1
    then update meeting 0 writers
    else update meeting (writers meeting - 1) writers

abbrev pub admit_external : ℕ → Coordinator → Coordinator
admit_external meeting s = record s { external_writers = count_up meeting s.external_writers }

unfoldable pub begin_external_update : ℕ → Coordinator → Coordinator × Bool
unfolding release
begin_external_update meeting s = elim (of_meeting meeting s.barriers) [
  | none ↦ (admit_external meeting s, true)
  | some b ↦
      if is_settled b
      then (s, false)
      else (admit_external meeting (release b Outcome.aborted s), true)
]

unfoldable pub end_external_update : ℕ → Coordinator → Coordinator
end_external_update meeting s = record s {
  external_writers = count_down meeting s.external_writers;
}

abbrev pub admit_collaboration : ℕ → Coordinator → Coordinator
admit_collaboration meeting s = record s {
  collaboration_writers = count_up meeting s.collaboration_writers;
}

unfoldable pub begin_collaboration_update : ℕ → Coordinator → Coordinator × Bool
begin_collaboration_update meeting s = elim (of_meeting meeting s.barriers) [
  | none ↦ (admit_collaboration meeting s, true)
  | some b ↦ if is_settled b then (s, false) else (admit_collaboration meeting s, true)
]

unfoldable pub end_collaboration_update : ℕ → Coordinator → Coordinator
end_collaboration_update meeting s = record s {
  collaboration_writers = count_down meeting s.collaboration_writers;
}
