-- ===== src/Agenda/Removal.antt =====
-- Taking a row off an agenda: the other rows stay and every section is consecutive again.
use elderflow.Shared.{
  some-injective, ℕ, ◌≡◌, refl, ap, subst, ◌∙◌, Bool, true, false, not, ◌&&◌, some, List, [], ◌∷◌,
  arith, ◌==◌, ==_iff, filter, find, map, inl, inr, Bool-cases, All,
}
use elderflow.Shared.Sets.{distinct, contains}
use elderflow.Shared.Errors.{
  ok, ok-of-bind, ok-injective, or_throw, not_found, agenda_topic_not_found, found-of-or_throw,
}
use elderflow.Recurrence.Plan.{MeetingTopic, Snapshot}
use elderflow.Agenda.Positions.{
  is_in, normalize_section_positions, count_at, size_of, IsConsecutive, IsAgenda, IsKeyed,
}
use elderflow.Agenda.Consecutive.{normalize-IsConsecutive}
use elderflow.Agenda.Apart.{normalize_apart}
use elderflow.Agenda.Requests.{remove_row, row_with, locked_mutable_meeting}
use elderflow.Agenda.Removing.{remove_topic}

abbrev ids : List MeetingTopic → List ℕ
ids = map λ (item : MeetingTopic). item.id

-- A row with this identifier is in this section.
abbrev SitsIn : ℕ → ℕ → ℕ → MeetingTopic → Type 0
SitsIn id m s x = (x.id == id) ≡ true → is_in m s x ≡ true

sits_nowhere :
    (id m s : ℕ) (xs : List MeetingTopic) → contains id (ids xs) ≡ false → All (SitsIn id m s) xs
unfolding contains
sits_nowhere id m s [] h = tt
sits_nowhere id m s (x ∷ xs) h = (λ same. ground arith, sits_nowhere id m s xs (ground arith))

keyed_head :
    (x : MeetingTopic) (xs : List MeetingTopic) → IsKeyed (x ∷ xs) → contains x.id (ids xs) ≡ false
unfolding distinct
keyed_head x xs k = ground arith

tail-IsKeyed : (x : MeetingTopic) (xs : List MeetingTopic) → IsKeyed (x ∷ xs) → IsKeyed xs
unfolding distinct
tail-IsKeyed x xs k = ground arith

found_contained :
    (test : MeetingTopic → Bool) (row : MeetingTopic) (xs : List MeetingTopic)
    → find test xs ≡ some row
    → contains row.id (ids xs) ≡ true
unfolding find contains
found_contained test row [] e = cc
found_contained test row (x ∷ xs) e = elim (Bool-cases (test x)) [
  | inl t ↦
      let same = ap (λ (r : MeetingTopic). r.id) (some-injective (rw t at e)) in
      ground (arith, same)
  | inr t ↦ ground (arith, found_contained test row xs (rw t at e))
]

own_section :
    (test : MeetingTopic → Bool) (row : MeetingTopic) (rows : List MeetingTopic)
    → IsKeyed rows
    → find test rows ≡ some row
    → All (SitsIn row.id row.meeting_id row.section_id) rows
unfolding find distinct
own_section test row [] k e = tt
own_section test row (x ∷ xs) k e = elim (Bool-cases (test x)) [
  | inl t ↦
      subst (λ (r : MeetingTopic). All (SitsIn r.id r.meeting_id r.section_id) (x ∷ xs))
        (some-injective (rw t at e))
        (λ _. ground arith, sits_nowhere x.id x.meeting_id x.section_id xs (keyed_head x xs k))
  | inr t ↦
      let later = rw t at e in
      (
        λ same.
            let met = found_contained test row xs later in
            let unmet = keyed_head x xs k in
            let equal = (==_iff x.id row.id).0 same in let clash = rw equal at unmet in cc,
        own_section test row xs (tail-IsKeyed x xs k) later,
      )
]

module _ (id m s m' s' : ℕ) (apart : (m == m' && s == s') ≡ false) where
  count-removed :
      (p : ℕ) (rows : List MeetingTopic)
      → All (SitsIn id m s) rows
      → count_at m' s' p (filter (λ x. not (x.id == id)) rows) ≡ count_at m' s' p rows
  unfolding count_at filter
  count-removed p [] h = refl
  count-removed p (x ∷ xs) h =
      let ih = count-removed p xs h.1 in let here = h.0 in ground (arith, ih, here)

  size-removed :
      (rows : List MeetingTopic)
      → All (SitsIn id m s) rows
      → size_of m' s' (filter (λ x. not (x.id == id)) rows) ≡ size_of m' s' rows
  unfolding size_of filter
  size-removed [] h = refl
  size-removed (x ∷ xs) h =
      let ih = size-removed xs h.1 in let here = h.0 in ground (arith, ih, here)

  removed-IsConsecutive :
      (rows : List MeetingTopic)
      → All (SitsIn id m s) rows
      → IsConsecutive m' s' rows
      → IsConsecutive m' s' (filter (λ x. not (x.id == id)) rows)
  removed-IsConsecutive rows h v p = count-removed p rows h ∙ v p ∙ rw (size-removed rows h) refl

pub same_section : (m s m' s' : ℕ) → (m == m' && s == s') ≡ true → (m ≡ m') × (s ≡ s')
same_section m s m' s' h = (ground arith, ground arith)

-- A row that a query found is removed: every section is consecutive afterwards.
pub remove_row-IsAgenda :
    (test : MeetingTopic → Bool) (row : MeetingTopic) (rows : List MeetingTopic)
    → find test rows ≡ some row
    → IsKeyed rows
    → IsAgenda rows
    → IsAgenda (remove_row row rows)
unfolding remove_row
remove_row-IsAgenda test row rows e k v m' s' =
    elim (Bool-cases (row.meeting_id == m' && row.section_id == s')) [
      | inl h ↦ here h
      | inr h ↦ normalize_apart row.meeting_id row.section_id m' s' h _ (
          removed-IsConsecutive row.id row.meeting_id row.section_id m' s' h rows
            (own_section test row rows k e) (v m' s'))
    ]
  where
    left : List MeetingTopic
    left = filter (λ x. not (x.id == row.id)) rows

    here :
        (row.meeting_id == m' && row.section_id == s') ≡ true
        → IsConsecutive m' s' (normalize_section_positions row.meeting_id row.section_id left)
    here h =
        let (meeting, section) = same_section row.meeting_id row.section_id m' s' h in
        subst
          (λ m. IsConsecutive m s' (normalize_section_positions row.meeting_id row.section_id left))
          meeting
          (subst
            (λ s.
              IsConsecutive row.meeting_id s
                (normalize_section_positions row.meeting_id row.section_id left))
            section (normalize-IsConsecutive row.meeting_id row.section_id left))

-- A topic that is taken off a meeting leaves every section of every meeting with consecutive
-- positions, when that held before and no two rows have the same identifier.
pub remove_topic-IsAgenda :
    (meeting_id id : ℕ) (db after : Snapshot)
    → remove_topic meeting_id id db ≡ ok after
    → IsKeyed db.meeting_topics
    → IsAgenda db.meeting_topics
    → IsAgenda after.meeting_topics
unfolding remove_topic
remove_topic-IsAgenda meeting_id id db after e k v =
    let (meeting, e1, locked) = ok-of-bind _ (locked_mutable_meeting db meeting_id) e in
    let (row, e2, read) =
      ok-of-bind _
        (or_throw (row_with id meeting_id db.meeting_topics) not_found agenda_topic_not_found) e1 in
    subst (λ (s : Snapshot). IsAgenda s.meeting_topics) (ok-injective e2)
      (remove_row-IsAgenda _ row db.meeting_topics (found-of-or_throw _ _ _ read) k v)
