-- ===== src/Agenda/Admission.antt =====
-- `addTopic` and `addTopics` (meetings.service.ts) between `beginExternalDocumentWrite` and the
-- `finally` that ends the write. While the transaction waits for the database other code may use
-- the coordinator: `during` is what it does meanwhile.
use elderflow.Shared.{ℕ, Option, none, List, [], ◌∷◌, if◌then◌else◌}
use elderflow.Shared.Errors.{
  Result, ok, err, forbidden, conflict, ◌>>=◌, e2ee_protected_ciphertext_forbidden,
  e2ee_compaction_in_progress,
}
use elderflow.Compaction.State.{Coordinator}
use elderflow.Compaction.Writers.{begin_external_update, end_external_update}
use elderflow.Recurrence.Plan.{MeetingTopic}
use elderflow.Agenda.Requests.{Documents, MeetingTopicInput, AgendaStore}
use elderflow.Agenda.Adding.{add_topic_within_transaction}

module _ {ℓ} {A : Type ℓ} (during : Coordinator → Coordinator) where
  -- `beginExternalDocumentWrite`, the work, and `finally { endExternalUpdate }`.
  unfoldable pub within_write : ℕ → Result A → Coordinator → Coordinator × Result A
  within_write meeting_id work s =
      let (s', admitted) = begin_external_update meeting_id s in
      if admitted
      then (end_external_update meeting_id (during s'), work)
      else (s', err conflict e2ee_compaction_in_progress)

module _ {Envelope D : Type 0} (service : Documents Envelope D)
    (fingerprint : MeetingTopicInput Envelope → ℕ) (during : Coordinator → Coordinator) where
  unfoldable pub add_topic :
      ℕ
      → MeetingTopicInput Envelope
      → ℕ
      → AgendaStore D
      → Coordinator
      → Coordinator × Result (AgendaStore D × MeetingTopic)
  unfolding within_write
  add_topic meeting_id input user store s =
      if service.is_content_user user
      then within_write during meeting_id
          (add_topic_within_transaction service fingerprint meeting_id input user none store
            >>= λ (later, (row, update)). ok (later, row))
          s
      else (s, err forbidden e2ee_protected_ciphertext_forbidden)

  -- One transaction; the first item that is new appends the update that the others share.
  unfoldable pub add_items :
      ℕ
      → Envelope
      → ℕ
      → List (MeetingTopicInput Envelope)
      → Option ℕ
      → AgendaStore D
      → Result (AgendaStore D × List MeetingTopic)
  add_items meeting_id envelope user [] shared store = ok (store, [])
  add_items meeting_id envelope user (item ∷ items) shared store =
      add_topic_within_transaction service fingerprint meeting_id
        (record item { initial_update_envelope = envelope }) user shared store
      >>= λ (later, (row, update)).
          add_items meeting_id envelope user items update later >>= λ (last, rows).
          ok (last, row ∷ rows)

  unfoldable pub add_topics :
      ℕ
      → Envelope
      → List (MeetingTopicInput Envelope)
      → ℕ
      → AgendaStore D
      → Coordinator
      → Coordinator × Result (AgendaStore D × List MeetingTopic)
  unfolding within_write add_items
  add_topics meeting_id envelope items user store s =
      if service.is_content_user user
      then within_write during meeting_id (add_items meeting_id envelope user items none store) s
      else (s, err forbidden e2ee_protected_ciphertext_forbidden)
