-- ===== src/Agenda/Positions.antt =====
-- Positions on an agenda: `normalizeSectionPositions`, the test that positions are consecutive, and
-- the shift that makes room. A table is a list of rows whose order no query reads.
use elderflow.Shared.{
  ℕ, suc, ◌+◌, ◌≡◌, Bool, true, false, not, ◌&&◌, List, [], ◌∷◌, ◌++◌, leb, ◌==◌, if◌then◌else◌,
  filter, map,
}
use elderflow.Shared.Sets.{distinct}
use elderflow.Recurrence.Plan.{MeetingTopic, sort_by}

abbrev pub is_in : ℕ → ℕ → MeetingTopic → Bool
is_in meeting_id section_id item = item.meeting_id == meeting_id && item.section_id == section_id

-- `find({ where: { meetingId, sectionId }, order: { position: "ASC" } })`.
abbrev pub rank : MeetingTopic → ℕ
rank item = item.position

unfoldable pub section_rows : ℕ → ℕ → List MeetingTopic → List MeetingTopic
section_rows meeting_id section_id rows = sort_by rank (filter (is_in meeting_id section_id) rows)

-- `items.some((item, index) => item.position !== index + 1)`, denied, counting from `k`.
unfoldable pub is_numbered : ℕ → List MeetingTopic → Bool
is_numbered k [] = true
is_numbered k (item ∷ items) = if item.position == k then is_numbered (suc k) items else false

-- `item.position = items.indexOf(item) + 1`, counting from `k`.
unfoldable pub number : ℕ → List MeetingTopic → List MeetingTopic
number k [] = []
number k (item ∷ items) = record item { position = k } ∷ number (suc k) items

-- Rows with equal positions are in order of their identifiers.
abbrev pub by_id : MeetingTopic → ℕ
by_id item = item.id

unfoldable pub normalize_section_positions : ℕ → ℕ → List MeetingTopic → List MeetingTopic
unfolding number
normalize_section_positions meeting_id section_id rows =
    filter (λ item. not (is_in meeting_id section_id item)) rows
    ++ number 1 (sort_by rank (sort_by by_id (filter (is_in meeting_id section_id) rows)))

-- `for (const item of shifted) item.position += 1`.
abbrev pub shift_row : ℕ → ℕ → ℕ → MeetingTopic → MeetingTopic
shift_row meeting_id section_id position item =
    if is_in meeting_id section_id item && leb position item.position
    then record item { position = item.position + 1 }
    else item

unfoldable pub make_room : ℕ → ℕ → ℕ → List MeetingTopic → List MeetingTopic
make_room meeting_id section_id position rows = map (shift_row meeting_id section_id position) rows

-- How many rows of a section stand at a position.
unfoldable pub count_at : ℕ → ℕ → ℕ → List MeetingTopic → ℕ
count_at meeting_id section_id position [] = 0
count_at meeting_id section_id position (item ∷ items) =
    (if is_in meeting_id section_id item && item.position == position then 1 else 0)
    + count_at meeting_id section_id position items

unfoldable pub size_of : ℕ → ℕ → List MeetingTopic → ℕ
size_of meeting_id section_id [] = 0
size_of meeting_id section_id (item ∷ items) =
    (if is_in meeting_id section_id item then 1 else 0) + size_of meeting_id section_id items

abbrev pub one_between : ℕ → ℕ → ℕ → ℕ
one_between first last position = if leb first position && leb position last then 1 else 0

-- The positions of a section are 1 to the number of its rows, each once.
abbrev pub IsConsecutive : ℕ → ℕ → List MeetingTopic → Type 0
IsConsecutive meeting_id section_id rows =
    (position : ℕ)
    → count_at meeting_id section_id position rows
      ≡ one_between 1 (size_of meeting_id section_id rows) position

-- The positions of every section of every meeting are consecutive.
abbrev pub IsAgenda : List MeetingTopic → Type 0
IsAgenda rows = (meeting_id section_id : ℕ) → IsConsecutive meeting_id section_id rows

-- The identifier of a row is a primary key.
abbrev pub IsKeyed : List MeetingTopic → Type 0
IsKeyed rows = distinct (map (λ (item : MeetingTopic). item.id) rows) ≡ true
