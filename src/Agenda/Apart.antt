-- ===== src/Agenda/Apart.antt =====
-- A change of one section's rows leaves the positions of every other section alone.
use elderflow.Shared.{
  ℕ, suc, ◌≡◌, refl, ◌∙◌, true, false, not, ◌&&◌, List, [], ◌∷◌, ◌++◌, arith, ◌==◌, filter, All,
}
use elderflow.Recurrence.Plan.{MeetingTopic}
use elderflow.Agenda.Positions.{
  is_in, number, normalize_section_positions, make_room, count_at, size_of, IsConsecutive,
}
use elderflow.Agenda.Numbering.{count-append, size-append}
use elderflow.Agenda.Consecutive.{ranked, ranked-All}

-- A row of one section is in no other.
module _ (m s m' s' : ℕ) (apart : (m == m' && s == s') ≡ false) where
  count-filter_apart :
      (p : ℕ) (xs : List MeetingTopic)
      → count_at m' s' p (filter (λ x. not (is_in m s x)) xs) ≡ count_at m' s' p xs
  unfolding count_at filter
  count-filter_apart p [] = refl
  count-filter_apart p (x ∷ xs) = let ih = count-filter_apart p xs in ground (arith, ih)

  size-filter_apart :
      (xs : List MeetingTopic)
      → size_of m' s' (filter (λ x. not (is_in m s x)) xs) ≡ size_of m' s' xs
  unfolding size_of filter
  size-filter_apart [] = refl
  size-filter_apart (x ∷ xs) = let ih = size-filter_apart xs in ground (arith, ih)

  count-number_apart :
      (k p : ℕ) (xs : List MeetingTopic)
      → All (λ x. is_in m s x ≡ true) xs
      → count_at m' s' p (number k xs) ≡ 0
  unfolding count_at number
  count-number_apart k p [] h = refl
  count-number_apart k p (x ∷ xs) h =
      let ih = count-number_apart (suc k) p xs h.1 in let here = h.0 in ground (arith, ih)

  size-number_apart :
      (k : ℕ) (xs : List MeetingTopic)
      → All (λ x. is_in m s x ≡ true) xs
      → size_of m' s' (number k xs) ≡ 0
  unfolding size_of number
  size-number_apart k [] h = refl
  size-number_apart k (x ∷ xs) h =
      let ih = size-number_apart (suc k) xs h.1 in let here = h.0 in ground (arith, ih)

  count-make_room_apart :
      (q p : ℕ) (xs : List MeetingTopic)
      → count_at m' s' p (make_room m s q xs) ≡ count_at m' s' p xs
  unfolding count_at make_room
  count-make_room_apart q p [] = refl
  count-make_room_apart q p (x ∷ xs) = let ih = count-make_room_apart q p xs in ground (arith, ih)

  size-make_room_apart :
      (q : ℕ) (xs : List MeetingTopic) → size_of m' s' (make_room m s q xs) ≡ size_of m' s' xs
  unfolding size_of make_room
  size-make_room_apart q [] = refl
  size-make_room_apart q (x ∷ xs) = let ih = size-make_room_apart q xs in ground (arith, ih)

  count-normalize_apart :
      (p : ℕ) (rows : List MeetingTopic)
      → count_at m' s' p (normalize_section_positions m s rows) ≡ count_at m' s' p rows
  unfolding normalize_section_positions
  count-normalize_apart p rows =
      count-append m' s' p (filter (λ x. not (is_in m s x)) rows) (number 1 (ranked m s rows))
      ∙ omega (
        arith,
        count-filter_apart p rows,
        count-number_apart 1 p (ranked m s rows) (ranked-All m s rows),
      )

  size-normalize_apart :
      (rows : List MeetingTopic)
      → size_of m' s' (normalize_section_positions m s rows) ≡ size_of m' s' rows
  unfolding normalize_section_positions
  size-normalize_apart rows =
      size-append m' s' (filter (λ x. not (is_in m s x)) rows) (number 1 (ranked m s rows))
      ∙ omega (
        arith,
        size-filter_apart rows,
        size-number_apart 1 (ranked m s rows) (ranked-All m s rows),
      )

  -- The rows of the other section are counted alike before and after.
  pub normalize_apart :
      (rows : List MeetingTopic)
      → IsConsecutive m' s' rows
      → IsConsecutive m' s' (normalize_section_positions m s rows)
  normalize_apart rows v p =
      count-normalize_apart p rows ∙ v p ∙ rw (size-normalize_apart rows) refl

  pub insert_apart :
      (q : ℕ) (x : MeetingTopic) (rows : List MeetingTopic)
      → is_in m s x ≡ true
      → IsConsecutive m' s' rows
      → IsConsecutive m' s' (make_room m s q rows ++ x ∷ [])
  unfolding count_at size_of
  insert_apart q x rows i v p =
      count-append m' s' p (make_room m s q rows) (x ∷ [])
      ∙ ground (
        arith,
        i,
        v p,
        count-make_room_apart q p rows,
        size-make_room_apart q rows,
        size-append m' s' (make_room m s q rows) (x ∷ []),
      )
