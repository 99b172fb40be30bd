-- ===== src/Agenda/Rows.antt =====
-- Predicates on every row that sorting, filtering, renumbering and making room keep.
use elderflow.Shared.{
  ℕ, suc, ◌≡◌, refl, Bool, false, not, ◌&&◌, List, [], ◌∷◌, ◌++◌, leb, ◌==◌, filter, any, inl, inr,
  Bool-cases, All,
}
use elderflow.Recurrence.Plan.{MeetingTopic, insert, sort_by}
use elderflow.Agenda.Positions.{is_in, rank, by_id, number, normalize_section_positions, make_room}
use elderflow.Agenda.Requests.{remove_row, save_row}

module _ (P : MeetingTopic → Type 0) where
  All-insert :
      (r : MeetingTopic → ℕ) (x : MeetingTopic) (xs : List MeetingTopic)
      → P x
      → All P xs
      → All P (insert r x xs)
  unfolding insert
  All-insert r x [] h hs = (h, tt)
  All-insert r x (y ∷ ys) h hs = elim (Bool-cases (leb (r x) (r y))) [
    | inl e ↦ rw e (h, hs)
    | inr e ↦ rw e (hs.0, All-insert r x ys h hs.1)
  ]

  pub All-sort : (r : MeetingTopic → ℕ) (xs : List MeetingTopic) → All P xs → All P (sort_by r xs)
  unfolding sort_by
  All-sort r [] h = tt
  All-sort r (x ∷ xs) h = All-insert r x (sort_by r xs) h.0 (All-sort r xs h.1)

  All-filter :
      (test : MeetingTopic → Bool) (xs : List MeetingTopic) → All P xs → All P (filter test xs)
  unfolding filter
  All-filter test [] h = tt
  All-filter test (x ∷ xs) h = elim (Bool-cases (test x)) [
    | inl e ↦ rw e (h.0, All-filter test xs h.1)
    | inr e ↦ rw e (All-filter test xs h.1)
  ]

  All-append : (xs ys : List MeetingTopic) → All P xs → All P ys → All P (xs ++ ys)
  All-append [] ys h hs = hs
  All-append (x ∷ xs) ys h hs = (h.0, All-append xs ys h.1 hs)

-- A row's identifier is not its position.
abbrev pub IsFresh : ℕ → List MeetingTopic → Type 0
IsFresh id = All λ (x : MeetingTopic). (x.id == id) ≡ false

number-IsFresh : (id k : ℕ) (xs : List MeetingTopic) → IsFresh id xs → IsFresh id (number k xs)
unfolding number
number-IsFresh id k [] h = tt
number-IsFresh id k (x ∷ xs) h = (h.0, number-IsFresh id (suc k) xs h.1)

pub make_room-IsFresh :
    (id m s q : ℕ) (xs : List MeetingTopic) → IsFresh id xs → IsFresh id (make_room m s q xs)
unfolding make_room
make_room-IsFresh id m s q [] h = tt
make_room-IsFresh id m s q (x ∷ xs) h = (
  elim (Bool-cases (is_in m s x && leb q x.position)) [ inl e ↦ rw e h.0 | inr e ↦ rw e h.0 ],
  make_room-IsFresh id m s q xs h.1,
)

pub remove_row-IsFresh :
    (id : ℕ) (row : MeetingTopic) (xs : List MeetingTopic)
    → IsFresh id xs
    → IsFresh id (remove_row row xs)
unfolding remove_row normalize_section_positions
remove_row-IsFresh id row xs h = All-append Fresh _ _ (All-filter Fresh _ _ left) (
    number-IsFresh id 1 _
      (All-sort Fresh rank _ (All-sort Fresh by_id _ (All-filter Fresh _ _ left))))
  where
    Fresh : MeetingTopic → Type 0
    Fresh x = (x.id == id) ≡ false

    left : All Fresh (filter (λ (x : MeetingTopic). not (x.id == row.id)) xs)
    left = All-filter Fresh _ xs h

any-fresh :
    (id : ℕ) (xs : List MeetingTopic)
    → IsFresh id xs
    → any (λ (x : MeetingTopic). x.id == id) xs ≡ false
unfolding any
any-fresh id [] h = refl
any-fresh id (x ∷ xs) h = rw h.0 (any-fresh id xs h.1)

-- A row with a new identifier is inserted.
pub save_row-fresh :
    (row : MeetingTopic) (xs : List MeetingTopic)
    → IsFresh row.id xs
    → save_row row xs ≡ xs ++ row ∷ []
save_row-fresh row xs h = rw (any-fresh row.id xs h) refl
