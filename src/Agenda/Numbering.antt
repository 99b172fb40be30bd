-- ===== src/Agenda/Numbering.antt =====
-- Counting rows by position: after a renumbering, a shift, an insertion and a removal.
use elderflow.Shared.{
  ℕ, suc, ◌+◌, ◌-◌, ◌≡◌, refl, ◌∙◌, true, ◌&&◌, List, [], ◌∷◌, ◌++◌, arith, ltb, leb, ◌==◌,
  if◌then◌else◌, length, inl, inr, Bool-cases, All,
}
use elderflow.Recurrence.Plan.{MeetingTopic, insert, sort_by}
use elderflow.Agenda.Positions.{is_in, number, make_room, count_at, size_of}

module _ (m s : ℕ) where
  pub count-append :
      (p : ℕ) (xs ys : List MeetingTopic)
      → count_at m s p (xs ++ ys) ≡ count_at m s p xs + count_at m s p ys
  unfolding count_at
  count-append p [] ys = omega arith
  count-append p (x ∷ xs) ys = omega (arith, count-append p xs ys)

  pub size-append :
      (xs ys : List MeetingTopic) → size_of m s (xs ++ ys) ≡ size_of m s xs + size_of m s ys
  unfolding size_of
  size-append [] ys = omega arith
  size-append (x ∷ xs) ys = omega (arith, size-append xs ys)

  count-insert :
      (r : MeetingTopic → ℕ) (p : ℕ) (x : MeetingTopic) (xs : List MeetingTopic)
      → count_at m s p (insert r x xs) ≡ count_at m s p (x ∷ xs)
  unfolding insert count_at
  count-insert r p x [] = refl
  count-insert r p x (y ∷ ys) = elim (Bool-cases (leb (r x) (r y))) [
    | inl e ↦ rw e refl
    | inr e ↦ rw e (omega (arith, count-insert r p x ys))
  ]

  count-sort :
      (r : MeetingTopic → ℕ) (p : ℕ) (xs : List MeetingTopic)
      → count_at m s p (sort_by r xs) ≡ count_at m s p xs
  unfolding sort_by count_at
  count-sort r p [] = refl
  count-sort r p (x ∷ xs) = count-insert r p x (sort_by r xs) ∙ omega (arith, count-sort r p xs)

  size-insert :
      (r : MeetingTopic → ℕ) (x : MeetingTopic) (xs : List MeetingTopic)
      → size_of m s (insert r x xs) ≡ size_of m s (x ∷ xs)
  unfolding insert size_of
  size-insert r x [] = refl
  size-insert r x (y ∷ ys) = elim (Bool-cases (leb (r x) (r y))) [
    | inl e ↦ rw e refl
    | inr e ↦ rw e (omega (arith, size-insert r x ys))
  ]

  size-sort :
      (r : MeetingTopic → ℕ) (xs : List MeetingTopic) → size_of m s (sort_by r xs) ≡ size_of m s xs
  unfolding sort_by size_of
  size-sort r [] = refl
  size-sort r (x ∷ xs) = size-insert r x (sort_by r xs) ∙ omega (arith, size-sort r xs)

  -- Numbering from k gives each position from k on once.
  pub count-number :
      (k p : ℕ) (xs : List MeetingTopic)
      → All (λ x. is_in m s x ≡ true) xs
      → count_at m s p (number k xs) ≡ (if leb k p && ltb p (k + length xs) then 1 else 0)
  unfolding number count_at
  count-number k p [] h = ground arith
  count-number k p (x ∷ xs) h = let ih = count-number (suc k) p xs h.1 in ground (arith, ih)

  pub size-number :
      (k : ℕ) (xs : List MeetingTopic)
      → All (λ x. is_in m s x ≡ true) xs
      → size_of m s (number k xs) ≡ length xs
  unfolding number size_of
  size-number k [] h = refl
  size-number k (x ∷ xs) h = let ih = size-number (suc k) xs h.1 in ground (arith, ih)

  -- Making room at q moves each position from q on one up.
  pub count-make_room :
      (q p : ℕ) (xs : List MeetingTopic)
      → count_at m s p (make_room m s q xs)
        ≡ (if ltb p q then count_at m s p xs else (if p == q then 0 else count_at m s (p - 1) xs))
  unfolding make_room count_at
  count-make_room q p [] = ground arith
  count-make_room q p (x ∷ xs) = let ih = count-make_room q p xs in ground (arith, ih)

  pub size-make_room :
      (q : ℕ) (xs : List MeetingTopic) → size_of m s (make_room m s q xs) ≡ size_of m s xs
  unfolding make_room size_of
  size-make_room q [] = refl
  size-make_room q (x ∷ xs) = let ih = size-make_room q xs in ground (arith, ih)
