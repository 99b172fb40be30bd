-- ===== src/Recurrence/Conservation.antt =====
-- Every movable appearance is kept, moved or removed, once; nothing else is touched.
use mathlib.Core.List.{Perm, perm_middle, map-append}
use mathlib.Core.List.Perm
use elderflow.Shared.{
  ℕ, ◌≡◌, refl, ap, Bool, not, Option, none, some, List, [], ◌∷◌, ◌++◌, ◌==◌, leb, inl, inr,
  Bool-cases, filter, map,
}
use elderflow.Shared.Sets.{contains}
use elderflow.Recurrence.Plan.{
  Meeting, MeetingTopic, Topic, Snapshot, SourceAppearance, Move, insert, sort_by,
}
use elderflow.Recurrence.Build.{
  Target, source_of, target_on, stable_meeting_ids, take_first, take_any, take_source, move_to,
  relocate, place,
}

module _ {ℓ} {A : Type ℓ} where
  insert-perm : (rank : A → ℕ) (x : A) (xs : List A) → Perm (x ∷ xs) (insert rank x xs)
  unfolding insert
  insert-perm rank x [] = Perm.refl _
  insert-perm rank x (y ∷ ys) = elim (Bool-cases (leb (rank x) (rank y))) [
    | inl e ↦ rw e (Perm.refl _)
    | inr e ↦ rw e (Perm.trans (Perm.swap y x ys) (Perm.cons y (insert-perm rank x ys)))
  ]

  pub sort_by-perm : (rank : A → ℕ) (xs : List A) → Perm xs (sort_by rank xs)
  unfolding sort_by
  sort_by-perm rank [] = Perm.refl _
  sort_by-perm rank (x ∷ xs) =
      Perm.trans (Perm.cons x (sort_by-perm rank xs)) (insert-perm rank x (sort_by rank xs))

  filter_split-perm :
      (keep : A → Bool) (xs : List A) → Perm xs (filter keep xs ++ filter (λ x. not (keep x)) xs)
  unfolding filter
  filter_split-perm keep [] = Perm.refl _
  filter_split-perm keep (x ∷ xs) = elim (Bool-cases (keep x)) [
    | inl e ↦ rw e (Perm.cons x (filter_split-perm keep xs))
    | inr e ↦ rw e (
        Perm.trans (Perm.cons x (filter_split-perm keep xs))
          (Perm.symm (perm_middle (filter keep xs) (filter (λ y. not (keep y)) xs))))
  ]

  -- The taken element and the rest are the list.
  abbrev PermTaken : List A → Option (A × List A) → Type ℓ
  PermTaken xs none = Unit
  PermTaken xs (some (x, rest)) = Perm xs (x ∷ rest)

  later_taken :
      (y : A) (ys : List A) (r : Option (A × List A))
      → PermTaken ys r
      → PermTaken (y ∷ ys) (elim r [ none ↦ none | some (x, rest) ↦ some (x, y ∷ rest) ])
  later_taken y ys none h = tt
  later_taken y ys (some (x, rest)) h = Perm.trans (Perm.cons y h) (Perm.swap x y rest)

  take_first-PermTaken : (test : A → Bool) (xs : List A) → PermTaken xs (take_first test xs)
  unfolding take_first
  take_first-PermTaken test [] = tt
  take_first-PermTaken test (y ∷ ys) =
      let ih = take_first-PermTaken test ys in
      elim (Bool-cases (test y)) [
        | inl e ↦ rw (e, PermTaken) (Perm.refl _)
        | inr e ↦ rw (e, PermTaken) (later_taken y ys (take_first test ys) ih)
      ]

  take_any-PermTaken : (xs : List A) → PermTaken xs (take_any xs)
  take_any-PermTaken [] = tt
  take_any-PermTaken (x ∷ xs) = Perm.refl _

take_source-PermTaken :
    (meeting_id : ℕ) (items : List MeetingTopic) → PermTaken items (take_source meeting_id items)
unfolding take_source
take_source-PermTaken meeting_id items =
    let test = λ (item : MeetingTopic). item.meeting_id == meeting_id in
    or_any (take_first test items) (take_first-PermTaken test items)
  where
    or_any :
        (r : Option (MeetingTopic × List MeetingTopic))
        → PermTaken items r
        → PermTaken items (elim r [ none ↦ take_any items | some taken ↦ some taken ])
    or_any none h = take_any-PermTaken items
    or_any (some taken) h = h

-- The appearances that moves take.
abbrev pub sources : List Move → List SourceAppearance
sources [] = []
sources (m ∷ moves) = elim m.source_appearance [
  | none ↦ sources moves
  | some source ↦ source ∷ sources moves
]

abbrev pub AllUsed : List MeetingTopic → List Move × List MeetingTopic → Type 0
AllUsed items (moves, rest) = Perm (map source_of items) (sources moves ++ map source_of rest)

relocate-AllUsed :
    (section_id : ℕ) (targets : List Target) (items : List MeetingTopic)
    → AllUsed items (relocate section_id targets items)
unfolding relocate
relocate-AllUsed section_id [] items = Perm.refl _
relocate-AllUsed section_id (t ∷ targets) items =
    let same = relocate-AllUsed section_id targets items in
    let ih = relocate-AllUsed section_id targets in
    elim (Bool-cases t.stable) [
      | inl e ↦ rw e same
      | inr e ↦
          rw e
            (taken (take_source t.meeting.id items) ih (take_source-PermTaken t.meeting.id items))
    ]
  where
    taken :
        (r : Option (MeetingTopic × List MeetingTopic))
        → ((others : List MeetingTopic) → AllUsed others (relocate section_id targets others))
        → PermTaken items r
        → AllUsed items (elim r [
          | none ↦
              let (moves, rest) = relocate section_id targets items in
              (move_to section_id t none ∷ moves, rest)
          | some (item, others) ↦
              let (moves, rest) = relocate section_id targets others in
              (move_to section_id t (some (source_of item)) ∷ moves, rest)
        ])
    taken none ih h = ih items
    taken (some (item, others)) ih h =
        Perm.trans (Perm.map source_of h) (Perm.cons (source_of item) (ih others))

-- The appearances that stay where they are: those on an agenda whose target is stable.
abbrev pub kept : Snapshot → Topic → List MeetingTopic → ℕ → List Meeting → List MeetingTopic
kept db topic movable section_id desired =
    filter
      (λ (item : MeetingTopic).
        contains item.meeting_id
          (stable_meeting_ids (map (target_on db topic movable section_id) desired)))
      movable

-- Every movable appearance is kept in place, is the source of one move, or is removed, and no other
-- appearance is moved or removed.
pub place_conserves :
    (db : Snapshot) (topic : Topic) (movable : List MeetingTopic) (section_id : ℕ)
    (desired : List Meeting)
    → let p = place db topic movable section_id desired in
      Perm (map source_of movable) (
        map source_of (kept db topic movable section_id desired) ++ (sources p.moves ++ p.removals))
unfolding place
place_conserves db topic movable section_id desired =
    let targets = map (target_on db topic movable section_id) desired in
    let stays = λ (item : MeetingTopic). contains item.meeting_id (stable_meeting_ids targets) in
    let reusable = filter (λ (item : MeetingTopic). not (stays item)) movable in
    Perm.trans (Perm.map source_of (filter_split-perm stays movable)) (
      rw (map-append source_of (filter stays movable) reusable) (
        Perm.append_left (map source_of (filter stays movable))
          (relocate-AllUsed section_id targets reusable)))

-- The moves are for the targets that are not stable, in their order.
pub relocate-meetings :
    (section_id : ℕ) (targets : List Target) (items : List MeetingTopic)
    → map (λ (m : Move). m.meeting_id) (relocate section_id targets items).0
      ≡ map (λ (t : Target). t.meeting.id) (filter (λ (t : Target). not t.stable) targets)
unfolding relocate filter
relocate-meetings section_id [] items = refl
relocate-meetings section_id (t ∷ targets) items =
    let ih = relocate-meetings section_id targets in
    elim (Bool-cases t.stable) [
      | inl e ↦ rw e (ih items)
      | inr e ↦ rw e (taken (take_source t.meeting.id items) ih)
    ]
  where
    taken :
        (r : Option (MeetingTopic × List MeetingTopic))
        → ((others : List MeetingTopic)
            → map (λ (m : Move). m.meeting_id) (relocate section_id targets others).0
              ≡ map (λ (t : Target). t.meeting.id) (filter (λ (t : Target). not t.stable) targets))
        → map
            (λ (m : Move). m.meeting_id)
            (elim r as (λ _. List Move × List MeetingTopic) [
              | none ↦
                  let (moves, rest) = relocate section_id targets items in
                  (move_to section_id t none ∷ moves, rest)
              | some (item, others) ↦
                  let (moves, rest) = relocate section_id targets others in
                  (move_to section_id t (some (source_of item)) ∷ moves, rest)
            ]).0
          ≡ t.meeting.id
            ∷ map (λ (t : Target). t.meeting.id) (filter (λ (t : Target). not t.stable) targets)
    taken none ih = ap (◌∷◌ t.meeting.id) (ih items)
    taken (some (item, others)) ih = ap (◌∷◌ t.meeting.id) (ih others)
