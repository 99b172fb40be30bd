-- ===== src/Agenda/Addition.antt =====
-- An addition that succeeds keeps every section's positions consecutive.
use elderflow.Shared.{
  ℕ, suc, ◌+◌, ◌≤◌, ◌≡◌, refl, sym, ap, subst, ◌∙◌, true, not, ◌&&◌, Option, none, some, List, [],
  ◌∷◌, ◌++◌, arith, ltb, leb, ◌==◌, length, filter, find, inl, inr, Bool-cases, Option-cases,
  ==_refl,
}
use elderflow.Shared.Errors.{
  ok, require, ok-of-bind, ok-injective, true-of-require, conflict, bad_request,
  agenda_positions_invalid, agenda_position_invalid,
}
use elderflow.Recurrence.Plan.{MeetingTopic, Snapshot, insert, sort_by}
use elderflow.Agenda.Positions.{
  is_in, rank, section_rows, is_numbered, make_room, size_of, IsConsecutive, IsAgenda, IsKeyed,
}
use elderflow.Agenda.Consecutive.{insert-IsConsecutive}
use elderflow.Agenda.Apart.{insert_apart}
use elderflow.Agenda.Rows.{IsFresh, make_room-IsFresh, remove_row-IsFresh, save_row-fresh}
use elderflow.Agenda.Requests.{MeetingTopicInput, row_with, remove_row, or_else, position_of}
use elderflow.Agenda.Removal.{remove_row-IsAgenda, same_section}
use elderflow.Agenda.Adding.{insert_appearance, created, requested_source, without_source}

length-insert :
    (r : MeetingTopic → ℕ) (x : MeetingTopic) (xs : List MeetingTopic)
    → length (insert r x xs) ≡ suc (length xs)
unfolding insert
length-insert r x [] = refl
length-insert r x (y ∷ ys) = elim (Bool-cases (leb (r x) (r y))) [
  | inl e ↦ rw e refl
  | inr e ↦ rw e (ap suc (length-insert r x ys))
]

length-sort : (r : MeetingTopic → ℕ) (xs : List MeetingTopic) → length (sort_by r xs) ≡ length xs
unfolding sort_by
length-sort r [] = refl
length-sort r (x ∷ xs) = length-insert r x (sort_by r xs) ∙ ap suc (length-sort r xs)

length-filter : (m s : ℕ) (xs : List MeetingTopic) → length (filter (is_in m s) xs) ≡ size_of m s xs
unfolding filter size_of
length-filter m s [] = refl
length-filter m s (x ∷ xs) = elim (Bool-cases (is_in m s x)) [
  | inl e ↦ rw e (omega (arith, length-filter m s xs))
  | inr e ↦ rw e (omega (arith, length-filter m s xs))
]

length-section_rows :
    (m s : ℕ) (xs : List MeetingTopic) → length (section_rows m s xs) ≡ size_of m s xs
unfolding section_rows
length-section_rows m s xs = length-sort rank (filter (is_in m s) xs) ∙ length-filter m s xs

-- A row that is put where room was made for it, in its own section and beside all others.
inserted-IsAgenda :
    (row : MeetingTopic) (rows : List MeetingTopic)
    → 1 ≤ row.position
    → row.position ≤ size_of row.meeting_id row.section_id rows + 1
    → IsAgenda rows
    → IsAgenda (make_room row.meeting_id row.section_id row.position rows ++ row ∷ [])
inserted-IsAgenda row rows first last v m' s' =
    elim (Bool-cases (row.meeting_id == m' && row.section_id == s')) [
      | inl h ↦ here (same_section row.meeting_id row.section_id m' s' h)
      | inr h ↦
          insert_apart row.meeting_id row.section_id m' s' h row.position row rows own (v m' s')
    ]
  where
    own : is_in row.meeting_id row.section_id row ≡ true
    own = ground arith

    after : List MeetingTopic
    after = make_room row.meeting_id row.section_id row.position rows ++ row ∷ []

    here : (row.meeting_id ≡ m') × (row.section_id ≡ s') → IsConsecutive m' s' after
    here (meeting, section) =
        subst (λ m. IsConsecutive m s' after) meeting
          (subst (λ s. IsConsecutive row.meeting_id s after) section
            (insert-IsConsecutive row.meeting_id row.section_id row.position row rows own refl first
              last (v row.meeting_id row.section_id)))

pub without_source-IsFresh :
    (id : ℕ) (source : Option MeetingTopic) (rows : List MeetingTopic)
    → IsFresh id rows
    → IsFresh id (without_source source rows)
without_source-IsFresh id none rows h = h
without_source-IsFresh id (some source) rows h = remove_row-IsFresh id source rows h

row_with-last :
    (row : MeetingTopic) (rows : List MeetingTopic)
    → IsFresh row.id rows
    → row_with row.id row.meeting_id (rows ++ row ∷ []) ≡ some row
unfolding find
row_with-last row [] h = rw (==_refl row.id, ==_refl row.meeting_id) refl
row_with-last row (x ∷ xs) h = rw h.0 (row_with-last row xs h.1)

module _ {Envelope : Type 0} where
  pub insert_appearance-IsAgenda :
      (meeting_id : ℕ) (input : MeetingTopicInput Envelope) (planned : Option ℕ)
      (rows after : List MeetingTopic) (row : MeetingTopic)
      → insert_appearance meeting_id input planned rows ≡ ok (after, row)
      → 1 ≤ row.position
      → IsFresh input.id rows
      → IsAgenda rows
      → IsAgenda after
  unfolding insert_appearance
  insert_appearance-IsAgenda meeting_id input planned rows after row e first fresh v =
      let items = section_rows meeting_id input.section_id rows in
      let position = or_else (position_of input.position) (or_else planned (length items + 1)) in
      let (done, e1, numbered) =
        ok-of-bind _ (require (is_numbered 1 items) conflict agenda_positions_invalid) e in
      let (done', e2, inside) =
        ok-of-bind _
          (require (not (ltb (length items + 1) position)) bad_request agenda_position_invalid)
          e1 in
      let new = created meeting_id input position in
      let same = ok-injective e2 in
      let rows_same = ap (λ (p : List MeetingTopic × MeetingTopic). p.0) same in
      let row_same = ap (λ (p : List MeetingTopic × MeetingTopic). p.1) same in
      let room = make_room meeting_id input.section_id position rows in
      let saved =
        save_row-fresh new room
          (make_room-IsFresh input.id meeting_id input.section_id position rows fresh) in
      let first' = subst (λ (r : MeetingTopic). 1 ≤ r.position) (sym row_same) first in
      subst IsAgenda (sym saved ∙ rows_same) (
        inserted-IsAgenda new rows first'
          (within items position rows (length-section_rows meeting_id input.section_id rows)
            (true-of-require _ _ _ inside))
          v)
    where
      within :
          (items : List MeetingTopic) (position : ℕ) (rows : List MeetingTopic)
          → length items ≡ size_of meeting_id input.section_id rows
          → not (ltb (length items + 1) position) ≡ true
          → position ≤ size_of meeting_id input.section_id rows + 1
      within items position rows h i = ground (arith, h)

  pub without_source-IsAgenda :
      (db : Snapshot) (input : MeetingTopicInput Envelope)
      → IsKeyed db.meeting_topics
      → IsAgenda db.meeting_topics
      → IsAgenda (without_source (requested_source db input) db.meeting_topics)
  without_source-IsAgenda db input k v = elim (Option-cases (requested_source db input)) [
    | inl none_there ↦ rw none_there v
    | inr (source, found) ↦ rw found (removed input.source_appearance_id source found)
  ]
    where
      removed :
          (wanted : Option ℕ) (source : MeetingTopic)
          → (elim wanted [
            | none ↦ none
            | some id ↦ find (λ (item : MeetingTopic). item.id == id) db.meeting_topics
          ])
            ≡ some source
          → IsAgenda (remove_row source db.meeting_topics)
      removed none source e = cc
      removed (some id) source e = remove_row-IsAgenda _ source db.meeting_topics e k v

  -- The new row is found by its identifier afterwards.
  pub insert_appearance-row_with :
      (meeting_id : ℕ) (input : MeetingTopicInput Envelope) (planned : Option ℕ)
      (rows after : List MeetingTopic) (row : MeetingTopic)
      → insert_appearance meeting_id input planned rows ≡ ok (after, row)
      → IsFresh input.id rows
      → row_with input.id meeting_id after ≡ some row
  unfolding insert_appearance
  insert_appearance-row_with meeting_id input planned rows after row e fresh =
      let items = section_rows meeting_id input.section_id rows in
      let position = or_else (position_of input.position) (or_else planned (length items + 1)) in
      let (done, e1, numbered) =
        ok-of-bind _ (require (is_numbered 1 items) conflict agenda_positions_invalid) e in
      let (done', e2, inside) =
        ok-of-bind _
          (require (not (ltb (length items + 1) position)) bad_request agenda_position_invalid)
          e1 in
      let new = created meeting_id input position in
      let same = ok-injective e2 in
      let room = make_room meeting_id input.section_id position rows in
      let fresh_room = make_room-IsFresh input.id meeting_id input.section_id position rows fresh in
      let saved = save_row-fresh new room fresh_room in
      subst (λ (p : List MeetingTopic × MeetingTopic). row_with input.id meeting_id p.0 ≡ some p.1)
        same (ap (row_with input.id meeting_id) saved ∙ row_with-last new room fresh_room)
