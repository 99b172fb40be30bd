-- ===== src/Ceremony/Rows.antt =====
-- The rows of the ceremonies' table have different identifiers
-- (backend/src/e2ee/e2ee-recovery-ceremony.entity.ts).
use elderflow.Shared.{
  ℕ, ◌≡◌, refl, sym, ap, subst, arith, Bool, Bool-cases, inl, inr, true, false, not, ◌&&◌, none,
  some, List, [], ◌∷◌, ◌==◌, true-of-and, false-of-not, ==_iff, ==_refl, find, some-injective,
}
use elderflow.Ceremony.State.{Ceremony}
use elderflow.Ceremony.Tables.{saved, has_id, is_open}
use elderflow.Ceremony.Steps.{is_some}
use elderflow.Ceremony.Machine.{count}

unfoldable pub are_unique : List Ceremony → Bool
are_unique [] = true
are_unique (c ∷ rows) = not (is_some (find (has_id c.id) rows)) && are_unique rows

-- A fresh identifier stays one when another row is saved.
pub find-saved_fresh :
    (id : ℕ) (c : Ceremony) (rows : List Ceremony)
    → (c.id == id) ≡ false
    → is_some (find (has_id id) rows) ≡ false
    → is_some (find (has_id id) (saved c rows)) ≡ false
unfolding saved find
find-saved_fresh id c [] apart h = rw apart
find-saved_fresh id c (row ∷ rows) apart h = elim (Bool-cases (row.id == id)) [
  | inl e ↦ let h' = rw e at h in cc
  | inr e ↦ elim (Bool-cases (row.id == c.id)) [
    | inl f ↦ rw (f, apart) (rw e at h)
    | inr f ↦ rw (f, e) (find-saved_fresh id c rows apart (rw e at h))
  ]
]

same_refl_false : (a b : ℕ) → (a == b) ≡ false → (b == a) ≡ false
same_refl_false a b h = ground arith

pub are_unique-saved :
    (c : Ceremony) (rows : List Ceremony)
    → are_unique rows ≡ true
    → are_unique (saved c rows) ≡ true
unfolding are_unique saved find
are_unique-saved c [] h = refl
are_unique-saved c (row ∷ rows) h =
    let (first, rest) =
      true-of-and (not (is_some (find (has_id row.id) rows))) (are_unique rows) h in
    elim (Bool-cases (row.id == c.id)) [
      | inl e ↦
          let fresh =
            subst (λ (n : ℕ). not (is_some (find (has_id n) rows)) ≡ true) ((==_iff _ _).0 e)
              first in
          rw (e, fresh, rest)
      | inr e ↦ rw (
        e,
        find-saved_fresh row.id c rows (same_refl_false row.id c.id e) (false-of-not _ first),
        are_unique-saved c rows rest,
      )
    ]

-- The first row that passes a test is the row of its identifier.
pub find_unique :
    (test : Ceremony → Bool) (c : Ceremony) (rows : List Ceremony)
    → are_unique rows ≡ true
    → find test rows ≡ some c
    → find (has_id c.id) rows ≡ some c
unfolding are_unique find
find_unique test c [] h found = cc
find_unique test c (row ∷ rows) h found =
    let (first, rest) =
      true-of-and (not (is_some (find (has_id row.id) rows))) (are_unique rows) h in
    elim (Bool-cases (test row)) [
      | inl e ↦
          let same = some-injective (rw e at found) in
          subst (λ (x : Ceremony). find (has_id x.id) (row ∷ rows) ≡ some x) same
            (rw (==_refl row.id))
      | inr e ↦
          let later = find_unique test c rows rest (rw e at found) in
          elim (Bool-cases (row.id == c.id)) [
            | inl f ↦ absurd (taken row c rows f later first)
            | inr f ↦ rw f later
          ]
    ]
  where
    taken :
        (row c : Ceremony) (rows : List Ceremony)
        → (row.id == c.id) ≡ true
        → find (has_id c.id) rows ≡ some c
        → not (is_some (find (has_id row.id) rows)) ≡ true
        → ⊥
    taken row c rows f later first =
        let fresh =
          subst (λ (n : ℕ). not (is_some (find (has_id n) rows)) ≡ true) ((==_iff _ _).0 f) first in
        let e = ap is_some later in let k = false-of-not _ fresh in cc

-- Without an open ceremony none is counted.
pub count-open :
    (rows : List Ceremony)
    → find (λ (c : Ceremony). is_open c.state) rows ≡ none
    → count is_open rows ≡ 0
unfolding count find
count-open [] h = refl
count-open (c ∷ rows) h = elim (Bool-cases (is_open c.state)) [
  | inl e ↦ let h' = rw e at h in cc
  | inr e ↦ rw e (count-open rows (rw e at h))
]

pub is_open-find :
    (c : Ceremony) (rows : List Ceremony)
    → find (λ (c : Ceremony). is_open c.state) rows ≡ some c
    → is_open c.state ≡ true
unfolding find
is_open-find c [] h = cc
is_open-find c (row ∷ rows) h = elim (Bool-cases (is_open row.state)) [
  | inl e ↦ subst (λ (x : Ceremony). is_open x.state ≡ true) (some-injective (rw e at h)) e
  | inr e ↦ is_open-find c rows (rw e at h)
]

-- Saving a row as it is changes nothing.
pub saved-same :
    (c : Ceremony) (rows : List Ceremony) → find (has_id c.id) rows ≡ some c → saved c rows ≡ rows
unfolding saved find
saved-same c [] h = cc
saved-same c (row ∷ rows) h = elim (Bool-cases (row.id == c.id)) [
  | inl e ↦ rw e (ap (λ (x : Ceremony). x ∷ rows) (sym (some-injective (rw e at h))))
  | inr e ↦ rw e (ap (λ (rest : List Ceremony). row ∷ rest) (saved-same c rows (rw e at h)))
]
