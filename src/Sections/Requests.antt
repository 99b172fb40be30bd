-- ===== src/Sections/Requests.antt =====
-- `create`, `update`, `reorder` and `remove`. Each locks the table and reads it in the order of
-- positions first, so the table is that list; a request that throws leaves it as it was. A topic
-- type is only compared, so it is a number; `trim` is that of the language's strings, and the
-- database gives a new section its identifier.
use elderflow.Shared.{
  ℕ, suc, ◌+◌, Bool, true, false, not, ◌&&◌, Option, none, some, List, [], ◌∷◌, ◌++◌, ◌==◌,
  if◌then◌else◌, String, length, find, filter, any, map,
}
use elderflow.Shared.Sets
use elderflow.Shared.Errors.{
  Result, ok, not_found, conflict, ◌>>=◌, ◌>>◌, require, or_throw, agenda_section_not_found,
  agenda_section_type_conflict, agenda_sections_changed,
}

pub record AgendaSection : Type 0 where
  pub id : ℕ
  pub name : String
  pub position : ℕ
  pub default_topic_type : Option ℕ

-- A topic type that is not sent differs from one that is sent as null.
pub record AgendaSectionInput : Type 0 where
  pub name : String
  pub default_topic_type : Option (Option ℕ)

abbrev pub ids_of : List AgendaSection → List ℕ
ids_of = map λ (s : AgendaSection). s.id

abbrev pub has_type : ℕ → Option ℕ → Bool
has_type topic_type none = false
has_type topic_type (some other) = other == topic_type

abbrev pub other_than : Option ℕ → ℕ → Bool
other_than none id = true
other_than (some self) id = not (id == self)

abbrev pub sent_type : AgendaSectionInput → Option ℕ
sent_type input = elim input.default_topic_type [ none ↦ none | some sent ↦ sent ]

abbrev pub is_mapped : Option ℕ → Option ℕ → List AgendaSection → Bool
is_mapped none self sections = false
is_mapped (some topic_type) self sections =
    any (λ (s : AgendaSection). other_than self s.id && has_type topic_type s.default_topic_type)
      sections

abbrev pub assert_mapping : List AgendaSection → AgendaSectionInput → Option ℕ → Result (Unit {0})
assert_mapping sections input self =
    require (not (is_mapped (sent_type input) self sections)) conflict agenda_section_type_conflict

-- `sections[sections.length - 1]?.position ?? 0`.
unfoldable pub last_position : List AgendaSection → ℕ
last_position [] = 0
last_position (s ∷ []) = s.position
last_position (s ∷ t ∷ sections) = last_position (t ∷ sections)

-- `(section, index) => ({ ...section, position: index + 1 })`, counting from `k`.
unfoldable pub renumber : ℕ → List AgendaSection → List AgendaSection
renumber k [] = []
renumber k (s ∷ sections) = record s { position = k } ∷ renumber (suc k) sections

abbrev pub section_with : ℕ → List AgendaSection → Option AgendaSection
section_with id = find λ (s : AgendaSection). s.id == id

-- `ids.map((id) => byId.get(id)!)`.
unfoldable pub picked : List ℕ → List AgendaSection → List AgendaSection
picked [] sections = []
picked (id ∷ ids) sections = elim (section_with id sections) [
  | none ↦ picked ids sections
  | some s ↦ s ∷ picked ids sections
]

module _ (trim : String → String) where
  abbrev pub edited : AgendaSectionInput → AgendaSection → AgendaSection
  edited input section = record section {
    name = trim input.name;
    default_topic_type = elim input.default_topic_type [
      | none ↦ section.default_topic_type
      | some sent ↦ sent
    ];
  }

  unfoldable pub create : ℕ → AgendaSectionInput → List AgendaSection → Result (List AgendaSection)
  create id input sections = do
    assert_mapping sections input none
    ok (
        sections
        ++ record {
          id = id;
          name = trim input.name;
          position = last_position sections + 1;
          default_topic_type = sent_type input;
        }
          ∷ [])

  unfoldable pub update : ℕ → AgendaSectionInput → List AgendaSection → Result (List AgendaSection)
  update id input sections = do
    section ← or_throw (section_with id sections) not_found agenda_section_not_found
    assert_mapping sections input (some id)
    ok (map (λ (s : AgendaSection). if s.id == id then edited input s else s) sections)

-- No count that differs, no repetition and no unknown section.
abbrev pub is_complete : List ℕ → List AgendaSection → Bool
is_complete ids sections =
    length ids == length sections && Sets.distinct ids && Sets.subset ids (ids_of sections)

unfoldable pub reorder : List ℕ → List AgendaSection → Result (List AgendaSection)
unfolding renumber picked
reorder ids sections = do
  require (is_complete ids sections) conflict agenda_sections_changed
  ok (renumber 1 (picked ids sections))

unfoldable pub remove : ℕ → List AgendaSection → Result (List AgendaSection)
unfolding renumber
remove id sections = do
  require (any (λ (s : AgendaSection). s.id == id) sections) not_found agenda_section_not_found
  ok (renumber 1 (filter (λ (s : AgendaSection). not (s.id == id)) sections))

-- A request that changes the table; a creation with the identifier that it is given.
pub data Request : Type 0 where
  creates : (id : ℕ) (input : AgendaSectionInput) → Request
  updates : (id : ℕ) (input : AgendaSectionInput) → Request
  reorders : (ids : List ℕ) → Request
  removes : (id : ℕ) → Request

unfoldable pub handle :
    (String → String) → Request → List AgendaSection → Result (List AgendaSection)
unfolding create update reorder remove
handle trim (creates id input) sections = create trim id input sections
handle trim (updates id input) sections = update trim id input sections
handle trim (reorders ids) sections = reorder ids sections
handle trim (removes id) sections = remove id sections
