-- ===== src/Recurrence/Taken.antt =====
-- What a predicate of every movable appearance says of the sources of the moves that `buildPlan` makes
-- and of what is left over (backend/src/recurrence/recurrence.service.ts).
use elderflow.Shared.{
  ℕ, ◌≡◌, refl, Bool, Bool-cases, ◌==◌, leb, Option, none, some, List, [], ◌∷◌, ◌++◌, map, inl, inr,
  All, filter,
}
use elderflow.Recurrence.Plan.{MeetingTopic, SourceAppearance, Move, insert, sort_by}
use elderflow.Recurrence.Build.{
  Target, source_of, take_first, take_any, take_source, move_to, relocate,
}
use elderflow.Recurrence.Conservation.{sources}

module _ {ℓ κ} {A : Type ℓ} (P : A → Type κ) where
  pub filter-All : (keep : A → Bool) (xs : List A) → All P xs → All P (filter keep xs)
  unfolding filter
  filter-All keep [] h = tt
  filter-All keep (x ∷ xs) h = elim (Bool-cases (keep x)) [
    | inl e ↦ rw e (h.0, filter-All keep xs h.1)
    | inr e ↦ rw e (filter-All keep xs h.1)
  ]

  insert-All : (rank : A → ℕ) (x : A) (xs : List A) → P x → All P xs → All P (insert rank x xs)
  unfolding insert
  insert-All rank x [] h hs = (h, tt)
  insert-All rank x (y ∷ ys) h hs = elim (Bool-cases (leb (rank x) (rank y))) [
    | inl e ↦ rw e (h, hs)
    | inr e ↦ rw e (hs.0, insert-All rank x ys h hs.1)
  ]

  pub sort_by-All : (rank : A → ℕ) (xs : List A) → All P xs → All P (sort_by rank xs)
  unfolding sort_by
  sort_by-All rank [] hs = tt
  sort_by-All rank (x ∷ xs) hs = insert-All rank x (sort_by rank xs) hs.0 (sort_by-All rank xs hs.1)

  pub append-All : (xs ys : List A) → All P xs → All P ys → All P (xs ++ ys)
  append-All [] ys h k = k
  append-All (x ∷ xs) ys h k = (h.0, append-All xs ys h.1 k)

  -- The taken element and the rest.
  abbrev pub AllTaken : Option (A × List A) → Type κ
  AllTaken none = Unit
  AllTaken (some (x, rest)) = P x × All P rest

  later_taken :
      (y : A) (r : Option (A × List A))
      → P y
      → AllTaken r
      → AllTaken (elim r [ none ↦ none | some (x, rest) ↦ some (x, y ∷ rest) ])
  later_taken y none h k = tt
  later_taken y (some (x, rest)) h k = (k.0, (h, k.1))

  take_first-AllTaken : (test : A → Bool) (xs : List A) → All P xs → AllTaken (take_first test xs)
  unfolding take_first
  take_first-AllTaken test [] h = tt
  take_first-AllTaken test (y ∷ ys) h =
      let ih = take_first-AllTaken test ys h.1 in
      elim (Bool-cases (test y)) [
        | inl e ↦ rw (e, AllTaken) h
        | inr e ↦ rw (e, AllTaken) (later_taken y (take_first test ys) h.0 ih)
      ]

  take_any-AllTaken : (xs : List A) → All P xs → AllTaken (take_any xs)
  take_any-AllTaken [] h = tt
  take_any-AllTaken (x ∷ xs) h = h

module _ (P : MeetingTopic → Type 0) where
  take_source-AllTaken :
      (meeting_id : ℕ) (items : List MeetingTopic)
      → All P items
      → AllTaken P (take_source meeting_id items)
  unfolding take_source
  take_source-AllTaken meeting_id items h =
      let test = λ (item : MeetingTopic). item.meeting_id == meeting_id in
      or_any (take_first test items) (take_first-AllTaken P test items h)
    where
      or_any :
          (r : Option (MeetingTopic × List MeetingTopic))
          → AllTaken P r
          → AllTaken P (elim r [ none ↦ take_any items | some taken ↦ some taken ])
      or_any none k = take_any-AllTaken P items h
      or_any (some taken) k = k

  abbrev pub IsSource : SourceAppearance → Type 0
  IsSource s = (item : MeetingTopic) × (source_of item ≡ s) × P item

  abbrev pub AllSources : List Move × List MeetingTopic → Type 0
  AllSources (moves, rest) = All IsSource (sources moves) × All P rest

  pub relocate-AllSources :
      (section_id : ℕ) (targets : List Target) (items : List MeetingTopic)
      → All P items
      → AllSources (relocate section_id targets items)
  unfolding relocate
  relocate-AllSources section_id [] items h = (tt, h)
  relocate-AllSources section_id (t ∷ targets) items h =
      let same = relocate-AllSources section_id targets items h in
      let ih = relocate-AllSources section_id targets in
      elim (Bool-cases t.stable) [
        | inl e ↦ rw e same
        | inr e ↦
            rw e (
              taken (take_source t.meeting.id items) ih (take_source-AllTaken t.meeting.id items h))
      ]
    where
      taken :
          (r : Option (MeetingTopic × List MeetingTopic))
          → ((others : List MeetingTopic)
              → All P others
              → AllSources (relocate section_id targets others))
          → AllTaken P r
          → AllSources (elim r [
            | none ↦
                let (moves, rest) = relocate section_id targets items in
                (move_to section_id t none ∷ moves, rest)
            | some (item, others) ↦
                let (moves, rest) = relocate section_id targets others in
                (move_to section_id t (some (source_of item)) ∷ moves, rest)
          ])
      taken none ih k = ih items h
      taken (some (item, others)) ih k =
          let rest = ih others k.1 in (((item, refl, k.0), rest.0), rest.1)

  pub map-source_of-All :
      (items : List MeetingTopic) → All P items → All IsSource (map source_of items)
  map-source_of-All [] h = tt
  map-source_of-All (item ∷ items) h = ((item, refl, h.0), map-source_of-All items h.1)
