-- ===== src/Agenda/Mutations.antt =====
-- What a request that adds a topic guarantees: consecutive positions, and a retry that repeats it.
use elderflow.Shared.{
  ℕ, ◌≤◌, ◌≡◌, sym, ap, subst, ◌∙◌, true, Option, none, some, List, ◌∷◌, ◌==◌, find, inl, inr,
  Option-cases,
}
use elderflow.Shared.Sets.{contains}
use elderflow.Shared.Errors.{
  Result, ok, require, or_throw, ok-of-bind, ok-injective, not_found, topic_not_found,
  agenda_section_not_found,
}
use elderflow.Recurrence.Plan.{MeetingTopic, Topic, Snapshot}
use elderflow.Agenda.Positions.{IsAgenda, IsKeyed}
use elderflow.Agenda.Rows.{IsFresh}
use elderflow.Agenda.Requests.{
  Documents, MeetingTopicInput, AgendaStore, locked_mutable_meeting, reopen,
}
use elderflow.Agenda.Adding.{
  insert_appearance, added, recurrence_position, requested_source, without_source, check_existing,
  check_source, mutation_with, shared_or_appended, add_topic_within_transaction, retried, recorded,
}
use elderflow.Agenda.Addition.{
  insert_appearance-IsAgenda, without_source-IsAgenda, without_source-IsFresh,
}

module _ {Envelope D : Type 0} (service : Documents Envelope D)
    (fingerprint : MeetingTopicInput Envelope → ℕ) (meeting_id : ℕ)
    (input : MeetingTopicInput Envelope) (user : ℕ) (shared : Option ℕ)
    (store : AgendaStore D) where
  abbrev reopened_db : Snapshot
  reopened_db = reopen input.topic_id store.snapshot

  abbrev rows_left : List MeetingTopic
  rows_left = without_source (requested_source reopened_db input) store.snapshot.meeting_topics

  -- What an addition that succeeds did.
  record Addition (after : AgendaStore D) (row : MeetingTopic) (update : Option ℕ) : Type 0 where
    planned : Option ℕ
    rows : List MeetingTopic
    written : D × ℕ
    inserts : insert_appearance meeting_id input planned rows_left ≡ ok (rows, row)
    appends :
        shared_or_appended service fingerprint shared user meeting_id input store.documents
        ≡ ok written
    stores : after ≡ record {
      snapshot = record reopened_db { meeting_topics = rows };
      mutations = recorded service fingerprint meeting_id input written.1 ∷ store.mutations;
      documents = written.0;
    }
    updates : update ≡ some written.1

  addition :
      (after : AgendaStore D) (row : MeetingTopic) (update : Option ℕ)
      → added service fingerprint meeting_id input user shared store ≡ ok (after, (row, update))
      → Addition after row update
  unfolding added
  addition after row update e =
      let (topic, e1, h1) =
        ok-of-bind _
          (or_throw (find (λ (t : Topic). t.id == input.topic_id) store.snapshot.topics) not_found
            topic_not_found)
          e in
      let (d2, e2, h2) =
        ok-of-bind _
          (require (contains input.section_id store.snapshot.sections) not_found
            agenda_section_not_found)
          e1 in
      let source = requested_source reopened_db input in
      let (d3, e3, h3) = ok-of-bind _ (check_existing meeting_id reopened_db input source) e2 in
      let (d4, e4, h4) = ok-of-bind _ (check_source reopened_db input source) e3 in
      let (planned, e5, h5) = ok-of-bind _ (recurrence_position meeting_id reopened_db input) e4 in
      let (inserted, e6, h6) =
        ok-of-bind _ (insert_appearance meeting_id input planned rows_left) e5 in
      let (written, e7, h7) =
        ok-of-bind _
          (shared_or_appended service fingerprint shared user meeting_id input store.documents)
          e6 in
      let same = ok-injective e7 in
      record {
        planned = planned;
        rows = inserted.0;
        written = written;
        inserts = h6 ∙ ap (λ r. ok (inserted.0, r)) (ap (λ p. p.1.0) same);
        appends = h7;
        stores = sym (ap (λ p. p.0) same);
        updates = sym (ap (λ p. p.1.1) same);
      }

  abbrev IsNew : Type 0
  IsNew = mutation_with input.mutation_id store.mutations ≡ none

  abbrev run : Result (AgendaStore D × (MeetingTopic × Option ℕ))
  run = add_topic_within_transaction service fingerprint meeting_id input user shared store

  added-IsAgenda :
      (after : AgendaStore D) (row : MeetingTopic) (update : Option ℕ)
      → added service fingerprint meeting_id input user shared store ≡ ok (after, (row, update))
      → 1 ≤ row.position
      → IsFresh input.id store.snapshot.meeting_topics
      → IsKeyed store.snapshot.meeting_topics
      → IsAgenda store.snapshot.meeting_topics
      → IsAgenda after.snapshot.meeting_topics
  added-IsAgenda after row update e first fresh k v =
      let a = addition after row update e in
      subst (λ (s : AgendaStore D). IsAgenda s.snapshot.meeting_topics) (sym a.stores)
        (insert_appearance-IsAgenda meeting_id input a.planned rows_left a.rows row a.inserts first
          (without_source-IsFresh input.id (requested_source reopened_db input) _ fresh)
          (without_source-IsAgenda reopened_db input k v))

  -- A request to add a topic that succeeds keeps the positions of every section of every meeting
  -- consecutive, also when it takes a source off another meeting and when it is a retry. The stored
  -- identifiers are unique, the new position is at least 1, and a new mutation names a new row.
  pub add_topic-IsAgenda :
      (after : AgendaStore D) (row : MeetingTopic) (update : Option ℕ)
      → run ≡ ok (after, (row, update))
      → 1 ≤ row.position
      → (IsNew → IsFresh input.id store.snapshot.meeting_topics)
      → IsKeyed store.snapshot.meeting_topics
      → IsAgenda store.snapshot.meeting_topics
      → IsAgenda after.snapshot.meeting_topics
  unfolding add_topic_within_transaction
  add_topic-IsAgenda after row update e first fresh k v =
      let (meeting, e1, locked) =
        ok-of-bind _ (locked_mutable_meeting store.snapshot meeting_id) e in
      elim (Option-cases (mutation_with input.mutation_id store.mutations)) [
        | inl unseen ↦ added-IsAgenda after row update (rw unseen at e1) first (fresh unseen) k v
        | inr (replay, seen) ↦
            let (appearance, e2, found) =
              ok-of-bind _ (retried service fingerprint meeting_id input store replay)
                (rw seen at e1) in
            subst (λ (s : AgendaStore D). IsAgenda s.snapshot.meeting_topics)
              (ap (λ p. p.0) (ok-injective e2)) v
      ]

  -- What the agenda relies on: an update that was appended matches its envelope.
  abbrev KeepsEnvelopes : Type 0
  KeepsEnvelopes =
      (sender target : ℕ) (envelope : Envelope) (before after : D) (id : ℕ)
      → service.append_update sender target envelope before ≡ ok (after, id)
      → service.stored_update_matches id envelope after ≡ ok true

  abbrev stored_now : D × ℕ → List MeetingTopic → AgendaStore D
  stored_now written rows = record {
    snapshot = record reopened_db { meeting_topics = rows };
    mutations = recorded service fingerprint meeting_id input written.1 ∷ store.mutations;
    documents = written.0;
  }
