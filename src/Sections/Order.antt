-- ===== src/Sections/Order.antt =====
-- Every request keeps the sections numbered, and a reordering gives the order that was asked for.
use elderflow.Shared.{
  ℕ, suc, ◌+◌, ◌≡◌, refl, ap, subst, ◌∙◌, arith, Bool, true, ◌&&◌, none, some, List, [], ◌∷◌, ◌++◌,
  ◌==◌, if◌then◌else◌, String, length, find, any, map, inl, inr, Bool-cases,
}
use elderflow.Shared.Sets
use elderflow.Shared.Sets.{subset_of_length}
use elderflow.Shared.Errors.{
  ok, not_found, conflict, require, or_throw, ok-of-bind, ok-injective, true-of-require,
  agenda_section_not_found, agenda_sections_changed,
}
use elderflow.Sections.Requests.{
  AgendaSection, AgendaSectionInput, ids_of, assert_mapping, last_position, renumber, section_with,
  picked, is_complete, edited, create, update, reorder, remove, Request, creates, updates, reorders,
  removes, handle,
}

-- The positions are k, k + 1 and so on.
unfoldable pub is_numbered : ℕ → List AgendaSection → Bool
is_numbered k [] = true
is_numbered k (s ∷ sections) = s.position == k && is_numbered (suc k) sections

renumbered : (k : ℕ) (xs : List AgendaSection) → is_numbered k (renumber k xs) ≡ true
unfolding is_numbered renumber
renumbered k [] = refl
renumbered k (s ∷ xs) = let ih = renumbered (suc k) xs in ground (arith, ih)

last_position_of_numbered :
    (k : ℕ) (s : AgendaSection) (xs : List AgendaSection)
    → is_numbered k (s ∷ xs) ≡ true
    → last_position (s ∷ xs) ≡ k + length xs
unfolding is_numbered last_position
last_position_of_numbered k s [] h = ground arith
last_position_of_numbered k s (t ∷ xs) h =
    let ih = last_position_of_numbered (suc k) t xs in ground (arith, ih)

numbered-append_one :
    (k : ℕ) (xs : List AgendaSection) (s : AgendaSection)
    → is_numbered k xs ≡ true
    → s.position ≡ k + length xs
    → is_numbered k (xs ++ s ∷ []) ≡ true
unfolding is_numbered
numbered-append_one k [] s h e = ground arith
numbered-append_one k (x ∷ xs) s h e =
    let ih = numbered-append_one (suc k) xs s in ground (arith, ih)

last_position-length :
    (xs : List AgendaSection) → is_numbered 1 xs ≡ true → last_position xs ≡ length xs
unfolding last_position
last_position-length [] h = refl
last_position-length (s ∷ xs) h = last_position_of_numbered 1 s xs h ∙ omega arith

numbered-edited :
    (trim : String → String) (id k : ℕ) (input : AgendaSectionInput) (xs : List AgendaSection)
    → is_numbered k (map (λ (s : AgendaSection). if s.id == id then edited trim input s else s) xs)
      ≡ is_numbered k xs
unfolding is_numbered
numbered-edited trim id k input [] = refl
numbered-edited trim id k input (s ∷ xs) = elim (Bool-cases (s.id == id)) [
  | inl e ↦ rw e (ap (λ b. s.position == k && b) (numbered-edited trim id (suc k) input xs))
  | inr e ↦ rw e (ap (λ b. s.position == k && b) (numbered-edited trim id (suc k) input xs))
]

abbrev pub IsNumbered : List AgendaSection → Type 0
IsNumbered sections = is_numbered 1 sections ≡ true

-- After a creation, an update, a reordering or a removal that succeeds the sections stand at the
-- positions 1, 2 and so on, when they did before.
pub handle-IsNumbered :
    (trim : String → String) (request : Request) (sections later : List AgendaSection)
    → handle trim request sections ≡ ok later
    → IsNumbered sections
    → IsNumbered later
unfolding handle create update reorder remove
handle-IsNumbered trim (creates id input) sections later e v =
    let (done, e1, h) = ok-of-bind _ (assert_mapping sections input none) e in
    subst IsNumbered (ok-injective e1)
      (numbered-append_one 1 sections _ v (omega (arith, last_position-length sections v)))
handle-IsNumbered trim (updates id input) sections later e v =
    let (section, e1, h) =
      ok-of-bind _ (or_throw (section_with id sections) not_found agenda_section_not_found) e in
    let (done, e2, h') = ok-of-bind _ (assert_mapping sections input (some id)) e1 in
    subst IsNumbered (ok-injective e2) (numbered-edited trim id 1 input sections ∙ v)
handle-IsNumbered trim (reorders ids) sections later e v =
    let (done, e1, h) =
      ok-of-bind _ (require (is_complete ids sections) conflict agenda_sections_changed) e in
    subst IsNumbered (ok-injective e1) (renumbered 1 _)
handle-IsNumbered trim (removes id) sections later e v =
    let (done, e1, h) =
      ok-of-bind _
        (require (any (λ (s : AgendaSection). s.id == id) sections) not_found
          agenda_section_not_found)
        e in
    subst IsNumbered (ok-injective e1) (renumbered 1 _)

ids-renumber : (k : ℕ) (xs : List AgendaSection) → ids_of (renumber k xs) ≡ ids_of xs
unfolding renumber
ids-renumber k [] = refl
ids-renumber k (s ∷ xs) = ap (s.id ∷◌) (ids-renumber (suc k) xs)

known_section :
    (id : ℕ) (xs : List AgendaSection)
    → Sets.contains id (ids_of xs) ≡ true
    → (s : AgendaSection) × (section_with id xs ≡ some s) × (s.id ≡ id)
unfolding Sets.contains find
known_section id [] h = cc
known_section id (x ∷ xs) h = elim (Bool-cases (x.id == id)) [
  | inl e ↦ rw e (x, refl, ground arith)
  | inr e ↦ rw e (known_section id xs (ground arith))
]

ids-picked :
    (ids : List ℕ) (xs : List AgendaSection)
    → Sets.subset ids (ids_of xs) ≡ true
    → ids_of (picked ids xs) ≡ ids
unfolding picked Sets.subset
ids-picked [] xs h = refl
ids-picked (id ∷ ids) xs h =
    let (s, found, same) = known_section id xs (ground arith) in
    rw (found, picked) (rw same (ap (id ∷◌) (ids-picked ids xs (ground arith))))

length-ids : (xs : List AgendaSection) → length (ids_of xs) ≡ length xs
length-ids [] = refl
length-ids (x ∷ xs) = ap suc (length-ids xs)

-- A reordering that is accepted puts the sections in the order of the request, and leaves none out.
pub reorder_lem :
    (ids : List ℕ) (sections later : List AgendaSection)
    → reorder ids sections ≡ ok later
    → (ids_of later ≡ ids) × (Sets.subset (ids_of sections) (ids_of later) ≡ true)
unfolding reorder
reorder_lem ids sections later e =
    let (done, e1, h) =
      ok-of-bind _ (require (is_complete ids sections) conflict agenda_sections_changed) e in
    let accepted = true-of-require _ _ _ h in
    let asked = ids-renumber 1 (picked ids sections) ∙ ids-picked ids sections (ground arith) in
    subst (λ xs. (ids_of xs ≡ ids) × (Sets.subset (ids_of sections) (ids_of xs) ≡ true))
      (ok-injective e1)
      (
        asked,
        rw asked (
            subset_of_length ids (ids_of sections) (ground arith) (ground arith)
              (rw (length-ids sections) (ground arith))),
      )
