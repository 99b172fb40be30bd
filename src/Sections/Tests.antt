-- ===== src/Sections/Tests.antt =====
-- Three sections, and the theorems at requests on them.
use elderflow.Shared.{ℕ, ◌≡◌, refl, true, Option, none, some, List, [], ◌∷◌, find, any, String}
use elderflow.Shared.Sets
use elderflow.Shared.Errors.{ok}
use elderflow.Sections.Requests.{
  AgendaSection, AgendaSectionInput, ids_of, last_position, renumber, picked, create, reorder,
  handle, creates,
}
use elderflow.Sections.Order.{is_numbered, IsNumbered, handle-IsNumbered, reorder_lem}

abbrev section : ℕ → ℕ → Option ℕ → AgendaSection
section id position topic_type = record {
  id = id;
  name = "Agenda";
  position = position;
  default_topic_type = topic_type;
}

abbrev three : List AgendaSection
three = section 11 1 none ∷ section 12 2 (some 5) ∷ section 13 3 none ∷ []

abbrev input : AgendaSectionInput
input = record { name = "Agenda"; default_topic_type = some (some 6) }

abbrev unchanged : String → String
unchanged name = name

abbrev four : List AgendaSection
four = section 11 1 none ∷ section 12 2 (some 5) ∷ section 13 3 none ∷ section 14 4 (some 6) ∷ []

created_run : handle unchanged (creates 14 input) three ≡ ok four
unfolding handle create any last_position
created_run = refl

three-IsNumbered : IsNumbered three
unfolding is_numbered
three-IsNumbered = refl

handle-IsNumbered_example : IsNumbered four
handle-IsNumbered_example =
    handle-IsNumbered unchanged (creates 14 input) three four created_run three-IsNumbered

abbrev turned : List AgendaSection
turned = section 13 1 none ∷ section 11 2 none ∷ section 12 3 (some 5) ∷ []

reordered_run : reorder (13 ∷ 11 ∷ 12 ∷ []) three ≡ ok turned
unfolding reorder renumber picked find Sets.distinct Sets.contains Sets.subset
reordered_run = refl

reorder_lem_example :
    (ids_of turned ≡ 13 ∷ 11 ∷ 12 ∷ []) × (Sets.subset (ids_of three) (ids_of turned) ≡ true)
reorder_lem_example = reorder_lem (13 ∷ 11 ∷ 12 ∷ []) three turned reordered_run
