-- ===== src/Recurrence/Schedule.antt =====
-- The meetings that the loop of `buildPlan` picks: which ones, and how far apart.
use elderflow.Shared.{
  ℕ, ◌≤◌, ◌≡◌, refl, sym, ltb-false, Bool, true, false, Option, none, some, List, [], ◌∷◌, arith,
  All, inl, inr, Option-cases, Bool-cases, find,
}
use elderflow.Shared.Errors.{Result, ok, ok-of-bind, ok-injective}
use elderflow.Recurrence.Dates.{Date, key}
use elderflow.Recurrence.Plan.{
  Meeting, MeetingTopic, is_planned, some_test, date_before, next_preserved, passes_over, conflicts,
  desired_from,
}

-- Each element is not before the bound, nor before the date that the one before it leads to.
abbrev pub Spaced : (Date → Date) → ℕ → List Meeting → Type 0
Spaced advance bound [] = Unit
Spaced advance bound (m ∷ ms) = (bound ≤ key m.date) × Spaced advance (key (advance m.date)) ms

-- In order of date.
abbrev pub InOrder : ℕ → List Meeting → Type 0
InOrder from [] = Unit
InOrder from (m ∷ ms) = (from ≤ key m.date) × InOrder (key m.date) ms

module _ (fixed : ℕ → Option MeetingTopic) (skipped : ℕ → Bool) (advance : Date → Date) where
  -- A meeting that may be picked.
  pub record IsFree (m : Meeting) : Type 0 where
    pub planned : is_planned m ≡ true
    pub wanted : skipped m.id ≡ false
    pub unfixed : fixed m.id ≡ none

  abbrev desired : List Meeting → Date → Result (List Meeting)
  desired = desired_from fixed skipped advance

  -- How a successful round of the loop went: over a fixed appearance, over a meeting that is passed,
  -- or with a pick.
  data Round (m : Meeting) (later : List Meeting) (due : Date) (picked : List Meeting)
      : Type 0 where
    over_fixed :
        (item : MeetingTopic)
        → fixed m.id ≡ some item
        → desired later (advance m.date) ≡ ok picked
        → Round m later due picked
    over_passed : fixed m.id ≡ none → desired later due ≡ ok picked → Round m later due picked
    picks :
        (rest : List Meeting)
        → fixed m.id ≡ none
        → passes_over fixed skipped advance m due ≡ false
        → date_before (next_preserved fixed skipped advance later) (advance m.date) ≡ false
        → desired later (advance m.date) ≡ ok rest
        → picked ≡ m ∷ rest
        → Round m later due picked

  fixed-Round :
      (m : Meeting) (later : List Meeting) (due : Date) (picked : List Meeting)
      (item : MeetingTopic)
      → fixed m.id ≡ some item
      → desired (m ∷ later) due ≡ ok picked
      → Round m later due picked
  unfolding desired_from
  fixed-Round m later due picked item f e =
      let found = rw (f, desired_from) at e in
      elim (Bool-cases (conflicts fixed skipped advance item m due)) [
        | inl c ↦ let refused = rw c at found in cc
        | inr c ↦ over_fixed item f (rw c at found)
      ]

  free-Round :
      (m : Meeting) (later : List Meeting) (due : Date) (picked : List Meeting)
      → fixed m.id ≡ none
      → desired (m ∷ later) due ≡ ok picked
      → Round m later due picked
  unfolding desired_from
  free-Round m later due picked f e =
      let found = rw (f, desired_from) at e in
      let near = date_before (next_preserved fixed skipped advance later) (advance m.date) in
      elim (Bool-cases (passes_over fixed skipped advance m due)) [
        | inl p ↦ over_passed f (rw p at found)
        | inr p ↦
            let open_round = rw p at found in
            elim (Bool-cases near) [
              | inl n ↦ let refused = rw n at open_round in cc
              | inr n ↦
                  let (rest, same, again) =
                    ok-of-bind _ (desired later (advance m.date)) (rw n at open_round) in
                  picks rest f p n again (sym (ok-injective same))
            ]
      ]

  desired-Round :
      (m : Meeting) (later : List Meeting) (due : Date) (picked : List Meeting)
      → desired (m ∷ later) due ≡ ok picked
      → Round m later due picked
  desired-Round m later due picked e = elim (Option-cases (fixed m.id)) [
    | inl f ↦ free-Round m later due picked f e
    | inr (item, f) ↦ fixed-Round m later due picked item f e
  ]

  -- Every picked meeting is planned, was not skipped, and has no appearance that must stay.
  pub desired_from-IsFree :
      (ms : List Meeting) (due : Date) (picked : List Meeting)
      → desired_from fixed skipped advance ms due ≡ ok picked
      → All IsFree picked
  unfolding desired_from
  desired_from-IsFree [] due picked e = rw (← ok-injective e) tt
  desired_from-IsFree (m ∷ later) due picked e = elim (desired-Round m later due picked e) [
    | over_fixed item f again ↦ desired_from-IsFree later (advance m.date) picked again
    | over_passed f again ↦ desired_from-IsFree later due picked again
    | picks rest f p n again same ↦ rw same (
      record { planned = ground arith; wanted = ground arith; unfixed = f },
      desired_from-IsFree later (advance m.date) rest again,
    )
  ]

  -- The appearances that must stay are not before a bound.
  abbrev pub FixedFrom : ℕ → List Meeting → Type 0
  FixedFrom bound = All λ m. some_test (fixed m.id) ≡ true → bound ≤ key m.date

  InOrder-FixedFrom :
      (bound from : ℕ) (ms : List Meeting) → bound ≤ from → InOrder from ms → FixedFrom bound ms
  InOrder-FixedFrom bound from [] h o = tt
  InOrder-FixedFrom bound from (m ∷ ms) h o =
      ((λ _. omega (arith, o.0)), InOrder-FixedFrom bound (key m.date) ms (omega (arith, o.0)) o.1)

  -- If the next one is not before a date, none of them is.
  next_preserved-FixedFrom :
      (date : Date) (from : ℕ) (ms : List Meeting)
      → InOrder from ms
      → date_before (next_preserved fixed skipped advance ms) date ≡ false
      → FixedFrom (key date) ms
  unfolding find
  next_preserved-FixedFrom date from [] o h = tt
  next_preserved-FixedFrom date from (m ∷ ms) o h = elim (Bool-cases (some_test (fixed m.id))) [
    | inl f ↦
        let here : key date ≤ key m.date = ltb-false (key m.date) (key date) (rw (f, find) at h) in
        ((λ _. here), InOrder-FixedFrom (key date) (key m.date) ms here o.1)
    | inr f ↦ (
      (λ k. absurd (ground arith)),
      next_preserved-FixedFrom date (key m.date) ms o.1 (rw (f, find) at h),
    )
  ]

  -- The picked meetings are at least an interval apart, whatever stands between them.
  pub desired_from-Spaced :
      (ms : List Meeting) (due : Date) (picked : List Meeting) (bound from : ℕ)
      → All (λ m. key m.date ≤ key (advance m.date)) ms
      → InOrder from ms
      → FixedFrom bound ms
      → bound ≤ key due
      → desired_from fixed skipped advance ms due ≡ ok picked
      → Spaced advance bound picked
  unfolding desired_from
  desired_from-Spaced [] due picked bound from grows o stays b e = rw (← ok-injective e) tt
  desired_from-Spaced (m ∷ later) due picked bound from grows o stays b e =
      elim (desired-Round m later due picked e) [
        | over_fixed item f again ↦
            let here : bound ≤ key m.date = stays.0 (rw f refl) in
            desired_from-Spaced later (advance m.date) picked bound (key m.date) grows.1 o.1 stays.1
              (omega (arith, grows.0)) again
        | over_passed f again ↦
            desired_from-Spaced later due picked bound (key m.date) grows.1 o.1 stays.1 b again
        | picks rest f p n again same ↦
            let on_time : key due ≤ key m.date = ltb-false (key m.date) (key due) (ground arith) in
            rw same (
              omega arith,
              desired_from-Spaced later (advance m.date) rest (key (advance m.date)) (key m.date)
                  grows.1 o.1 (next_preserved-FixedFrom (advance m.date) (key m.date) later o.1 n)
                  (omega arith) again,
            )
      ]
