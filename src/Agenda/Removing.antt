-- ===== src/Agenda/Removing.antt =====
-- `removeTopic`, `removeReconciledTopic` and `restoreRecurrence` (meetings.service.ts).
use elderflow.Shared.{
  ℕ, Bool, not, ◌&&◌, List, [], ◌∷◌, ◌++◌, ◌==◌, if◌then◌else◌, find, filter, any,
}
use elderflow.Shared.Errors.{
  Result, ok, forbidden, not_found, conflict, ◌>>=◌, ◌>>◌, require, or_throw,
  agenda_topic_not_found, e2ee_protected_ciphertext_forbidden, recurrence_reconciliation_changed,
  skipped_recurrence_not_found,
}
use elderflow.Recurrence.Plan.{
  MeetingTopic, SkippedRecurrence, Snapshot, SourceAppearance, from_recurrence,
}
use elderflow.Recurrence.Build.{plan}
use elderflow.Agenda.Requests.{Documents, locked_mutable_meeting, row_with, remove_row}

abbrev pub skip_is : ℕ → ℕ → SkippedRecurrence → Bool
skip_is topic_id meeting_id skip = skip.topic_id == topic_id && skip.meeting_id == meeting_id

-- The skip is stored once.
unfoldable pub record_skip : MeetingTopic → List SkippedRecurrence → List SkippedRecurrence
record_skip item skips =
    if from_recurrence item
    then (if any (skip_is item.topic_id item.meeting_id) skips
        then skips
        else skips ++ record { topic_id = item.topic_id; meeting_id = item.meeting_id } ∷ [])
    else skips

unfoldable pub remove_topic : ℕ → ℕ → Snapshot → Result Snapshot
unfolding remove_row record_skip
remove_topic meeting_id id db = do
  meeting ← locked_mutable_meeting db meeting_id
  appearance ← or_throw (row_with id meeting_id db.meeting_topics) not_found agenda_topic_not_found
  ok (record db {
    skipped = record_skip appearance db.skipped;
    meeting_topics = remove_row appearance db.meeting_topics;
  })

abbrev pub is_removal : ℕ → ℕ → SourceAppearance → Bool
is_removal id meeting_id removal = removal.id == id && removal.meeting_id == meeting_id

unfoldable pub remove_reconciled_topic :
    (Envelope D : Type 0)
    → Documents Envelope D
    → (meeting_id id user : ℕ) → Snapshot
    → Result Snapshot
unfolding remove_row
remove_reconciled_topic Envelope D service meeting_id id user db = do
  require (service.is_content_user user) forbidden e2ee_protected_ciphertext_forbidden
  meeting ← locked_mutable_meeting db meeting_id
  appearance ←
      or_throw (row_with id meeting_id db.meeting_topics) conflict recurrence_reconciliation_changed
  require (from_recurrence appearance && not appearance.content_edited) conflict
      recurrence_reconciliation_changed
  planned ← plan db appearance.topic_id
  require (any (is_removal id meeting_id) planned.removals) conflict
      recurrence_reconciliation_changed
  ok (record db { meeting_topics = remove_row appearance db.meeting_topics })

-- `manager.remove` of the one skip of a topic on a meeting.
unfoldable pub restore_recurrence : (meeting_id topic_id : ℕ) → Snapshot → Result Snapshot
restore_recurrence meeting_id topic_id db = do
  meeting ← locked_mutable_meeting db meeting_id
  skip ←
      or_throw (find (skip_is topic_id meeting_id) db.skipped) not_found
        skipped_recurrence_not_found
  ok (record db {
    skipped = filter (λ s. not (skip_is skip.topic_id skip.meeting_id s)) db.skipped;
  })
