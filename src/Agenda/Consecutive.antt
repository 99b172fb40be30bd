-- ===== src/Agenda/Consecutive.antt =====
-- Which changes of an agenda keep every section's positions consecutive.
use elderflow.Shared.{
  ℕ, ◌+◌, ◌-◌, ◌≤◌, ◌≡◌, refl, ◌∙◌, true, not, ◌&&◌, List, [], ◌∷◌, ◌++◌, arith, ltb, leb,
  if◌then◌else◌, length, filter, inl, inr, Bool-cases, All,
}
use elderflow.Recurrence.Plan.{MeetingTopic, sort_by}
use elderflow.Agenda.Positions.{
  is_in, rank, by_id, number, normalize_section_positions, make_room, count_at, size_of,
  IsConsecutive,
}
use elderflow.Agenda.Numbering.{
  count-append, size-append, count-number, size-number, count-make_room, size-make_room,
}
use elderflow.Agenda.Rows.{All-sort}

module _ (m s : ℕ) where
  pub All-filter : (xs : List MeetingTopic) → All (λ x. is_in m s x ≡ true) (filter (is_in m s) xs)
  unfolding filter
  All-filter [] = tt
  All-filter (x ∷ xs) = elim (Bool-cases (is_in m s x)) [
    | inl e ↦ rw e (e, All-filter xs)
    | inr e ↦ rw e (All-filter xs)
  ]

  count-others :
      (p : ℕ) (xs : List MeetingTopic) → count_at m s p (filter (λ x. not (is_in m s x)) xs) ≡ 0
  unfolding count_at filter
  count-others p [] = refl
  count-others p (x ∷ xs) = let ih = count-others p xs in ground (arith, ih)

  size-others : (xs : List MeetingTopic) → size_of m s (filter (λ x. not (is_in m s x)) xs) ≡ 0
  unfolding size_of filter
  size-others [] = refl
  size-others (x ∷ xs) = let ih = size-others xs in ground (arith, ih)

  abbrev pub ranked : List MeetingTopic → List MeetingTopic
  ranked rows = sort_by rank (sort_by by_id (filter (is_in m s) rows))

  pub ranked-All : (rows : List MeetingTopic) → All (λ x. is_in m s x ≡ true) (ranked rows)
  ranked-All rows =
      All-sort (λ x. is_in m s x ≡ true) rank _
        (All-sort (λ x. is_in m s x ≡ true) by_id _ (All-filter rows))

  size-normalize :
      (rows : List MeetingTopic)
      → size_of m s (normalize_section_positions m s rows) ≡ length (ranked rows)
  unfolding normalize_section_positions
  size-normalize rows =
      size-append m s (filter (λ x. not (is_in m s x)) rows) (number 1 (ranked rows))
      ∙ omega (arith, size-others rows, size-number m s 1 (ranked rows) (ranked-All rows))

  count-normalize :
      (p : ℕ) (rows : List MeetingTopic)
      → count_at m s p (normalize_section_positions m s rows)
        ≡ (if leb 1 p && ltb p (1 + length (ranked rows)) then 1 else 0)
  unfolding normalize_section_positions
  count-normalize p rows =
      count-append m s p (filter (λ x. not (is_in m s x)) rows) (number 1 (ranked rows))
      ∙ ground (arith, count-others p rows, count-number m s 1 p (ranked rows) (ranked-All rows))

  -- After a normalisation the positions of the section are consecutive, whatever they were.
  pub normalize-IsConsecutive :
      (rows : List MeetingTopic) → IsConsecutive m s (normalize_section_positions m s rows)
  normalize-IsConsecutive rows p = count-normalize p rows ∙ ground (arith, size-normalize rows)

  size-added :
      (q : ℕ) (x : MeetingTopic) (rows : List MeetingTopic)
      → is_in m s x ≡ true
      → size_of m s (make_room m s q rows ++ x ∷ []) ≡ size_of m s rows + 1
  unfolding size_of
  size-added q x rows i =
      size-append m s (make_room m s q rows) (x ∷ [])
      ∙ rw i (omega (arith, size-make_room m s q rows))

  -- A row added at position q between 1 and one past the end, once room is made there.
  pub insert-IsConsecutive :
      (q : ℕ) (x : MeetingTopic) (rows : List MeetingTopic)
      → is_in m s x ≡ true
      → x.position ≡ q
      → 1 ≤ q
      → q ≤ size_of m s rows + 1
      → IsConsecutive m s rows
      → IsConsecutive m s (make_room m s q rows ++ x ∷ [])
  unfolding count_at size_of
  insert-IsConsecutive q x rows i e first last v p =
      count-append m s p (make_room m s q rows) (x ∷ [])
      ∙ rw i (ground (arith, count-make_room m s q p rows, v p, v (p - 1), size-added q x rows i))
