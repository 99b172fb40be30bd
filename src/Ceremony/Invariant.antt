-- ===== src/Ceremony/Invariant.antt =====
-- What the steps of the ceremonies preserve (backend/src/e2ee/e2ee.service.ts).
use elderflow.Shared.{
  ℕ, ◌+◌, ◌≤◌, ◌≡◌, refl, sym, ap, subst, arith, Bool, Bool-cases, inl, inr, true, false, not, ◌&&◌,
  Option, none, some, List, [], ◌∷◌, ◌==◌, true-of-and, find, some-injective,
}
use elderflow.Ceremony.State.{
  CeremonyState, pending_second_operator, ready_to_activate, activated, aborted, Participant,
  Ceremony, KeyState, Store,
}
use elderflow.Ceremony.Tables.{saved, has_id, is_open, is_pending, is_ready}
use elderflow.Ceremony.Steps.{is_some}
use elderflow.Ceremony.Activate.{activate}
use elderflow.Ceremony.Rows.{are_unique, are_unique-saved}
use elderflow.Ceremony.Machine.{
  Transition, approve, confirm_initiator, confirm_approver, abort, count, Step, start, move,
  activation, register, revoke, one, count-saved, count-saved_new,
}

-- The approver is another account than the initiator.
abbrev pub is_apart : Participant → Option Participant → Bool
is_apart initiator none = true
is_apart initiator (some p) = not (initiator.user_id == p.user_id)

-- Without an approver a ceremony is not ready, and it has a generation when it is activated.
abbrev pub is_consistent : CeremonyState → (approved generation : Bool) → Bool
is_consistent pending_second_operator a g = not a && not g
is_consistent ready_to_activate a g = a && not g
is_consistent activated a g = a && g
is_consistent aborted a g = not g

abbrev pub is_sound : Ceremony → Bool
is_sound c =
    is_apart c.initiator c.approver
    && is_consistent c.state (is_some c.approver) (is_some c.activated_generation)

unfoldable pub all_sound : List Ceremony → Bool
all_sound [] = true
all_sound (c ∷ rows) = is_sound c && all_sound rows

-- At most one ceremony is open, each is sound, and no two have the same identifier.
pub record IsStore (s : Store) : Type 0 where
  pub one_open : count is_open s.ceremonies ≤ 1
  pub sound : all_sound s.ceremonies ≡ true
  pub unique : are_unique s.ceremonies ≡ true

all_sound-saved :
    (c : Ceremony) (rows : List Ceremony)
    → is_sound c ≡ true
    → all_sound rows ≡ true
    → all_sound (saved c rows) ≡ true
unfolding all_sound saved
all_sound-saved c [] h hs = rw h
all_sound-saved c (row ∷ rows) h hs =
    let (first, rest) = true-of-and (is_sound row) (all_sound rows) hs in
    elim (Bool-cases (row.id == c.id)) [
      | inl e ↦ rw (e, h, rest)
      | inr e ↦ rw (e, first, all_sound-saved c rows h rest)
    ]

pub is_sound-find :
    (id : ℕ) (c : Ceremony) (rows : List Ceremony)
    → find (has_id id) rows ≡ some c
    → all_sound rows ≡ true
    → is_sound c ≡ true
unfolding all_sound find
is_sound-find id c [] h hs = cc
is_sound-find id c (row ∷ rows) h hs =
    let (first, rest) = true-of-and (is_sound row) (all_sound rows) hs in
    elim (Bool-cases (row.id == id)) [
      | inl e ↦ subst (λ (c' : Ceremony). is_sound c' ≡ true) (some-injective (rw e at h)) first
      | inr e ↦ is_sound-find id c rows (rw e at h) rest
    ]

pending_complete :
    (state : CeremonyState) (a g : Bool)
    → is_pending state ≡ true
    → is_consistent state a g ≡ true
    → is_consistent ready_to_activate true g ≡ true
pending_complete pending_second_operator true g p h = cc
pending_complete pending_second_operator false g p h = h
pending_complete ready_to_activate a g p h = cc
pending_complete activated a g p h = cc
pending_complete aborted a g p h = cc

open_complete :
    (state : CeremonyState) (a g : Bool)
    → is_open state ≡ true
    → is_consistent state a g ≡ true
    → is_consistent aborted a g ≡ true
open_complete pending_second_operator a g p h = (true-of-and _ _ h).1
open_complete ready_to_activate a g p h = (true-of-and _ _ h).1
open_complete activated a g p h = cc
open_complete aborted a g p h = cc

ready_complete :
    (state : CeremonyState) (a g : Bool)
    → is_ready state ≡ true
    → is_consistent state a g ≡ true
    → is_consistent activated a true ≡ true
ready_complete ready_to_activate true g p h = refl
ready_complete ready_to_activate false g p h = cc
ready_complete pending_second_operator a g p h = cc
ready_complete activated a g p h = cc
ready_complete aborted a g p h = cc

and_true : (a b : Bool) → a ≡ true → b ≡ true → (a && b) ≡ true
and_true a b h k = rw (h, k)

Transition-is_sound :
    {before after : Ceremony}
    → Transition before after
    → is_sound before ≡ true
    → is_sound after ≡ true
Transition-is_sound {before} (approve approver now pending apart) h =
    let (a, c) = true-of-and (is_apart before.initiator before.approver) _ h in
    and_true _ _ (ap not apart) (
      pending_complete before.state (is_some before.approver) (is_some before.activated_generation)
        pending c)
Transition-is_sound (confirm_initiator now opened) h = h
Transition-is_sound (confirm_approver now opened) h = h
Transition-is_sound {before} (abort opened) h =
    let (a, c) = true-of-and (is_apart before.initiator before.approver) _ h in
    and_true _ _ a (
      open_complete before.state (is_some before.approver) (is_some before.activated_generation)
        opened c)

pub Transition-open :
    {before after : Ceremony} → Transition before after → is_open before.state ≡ true
Transition-open {before} (approve approver now pending apart) = pending_open before.state pending
  where
    pending_open : (state : CeremonyState) → is_pending state ≡ true → is_open state ≡ true
    pending_open pending_second_operator h = refl
    pending_open ready_to_activate h = cc
    pending_open activated h = cc
    pending_open aborted h = cc
Transition-open (confirm_initiator now opened) = opened
Transition-open (confirm_approver now opened) = opened
Transition-open (abort opened) = opened

pub Transition-id : {before after : Ceremony} → Transition before after → after.id ≡ before.id
Transition-id (approve approver now pending apart) = refl
Transition-id (confirm_initiator now opened) = refl
Transition-id (confirm_approver now opened) = refl
Transition-id (abort opened) = refl

new_sound :
    (initiator : Participant) (state : CeremonyState) (a : Option Participant) (g : Option ℕ)
    → is_pending state ≡ true
    → a ≡ none
    → g ≡ none
    → (is_apart initiator a && is_consistent state (is_some a) (is_some g)) ≡ true
new_sound initiator pending_second_operator a g p ha hg = rw (ha, hg)
new_sound initiator ready_to_activate a g p ha hg = cc
new_sound initiator activated a g p ha hg = cc
new_sound initiator aborted a g p ha hg = cc

pub at_after :
    {before after : Ceremony} (rows : List Ceremony)
    → Transition before after
    → find (has_id before.id) rows ≡ some before
    → find (has_id after.id) rows ≡ some before
at_after {before} {after} rows moved found =
    subst (λ (id : ℕ). find (has_id id) rows ≡ some before) (sym (Transition-id moved)) found

one_small : (b : Bool) → one b ≤ 1
one_small true = omega arith
one_small false = omega arith

-- The ceremony as an activation saves it.
abbrev pub ended : Ceremony → KeyState → Ceremony
ended c state = record c { state = activated; activated_generation = some (state.generation + 1) }

-- A step leaves at most one ceremony open, and every ceremony sound.
pub Step-IsStore : {s t : Store} → Step s t → IsStore s → IsStore t
unfolding activate
Step-IsStore {s} (start c new none_open fresh) h = record {
  one_open =
      omega (
        arith,
        count-saved_new is_open c s.ceremonies fresh,
        none_open,
        one_small (is_open c.state),
      );
  sound =
      all_sound-saved c s.ceremonies
        (new_sound c.initiator c.state c.approver c.activated_generation new.0 new.1 new.2) h.sound;
  unique = are_unique-saved _ s.ceremonies h.unique;
}
Step-IsStore {s} (move before after found moved) h = record {
  one_open = omega (
    arith,
    count-saved is_open after before s.ceremonies (at_after s.ceremonies moved found),
    h.one_open,
    ap one (Transition-open moved),
    one_small (is_open after.state),
  );
  sound =
      all_sound-saved after s.ceremonies
        (Transition-is_sound moved (is_sound-find before.id before s.ceremonies found h.sound))
        h.sound;
  unique = are_unique-saved _ s.ceremonies h.unique;
}
Step-IsStore {s} (activation now c state keys found ready approved) h = record {
  one_open = omega (arith, count-saved is_open (ended c state) c s.ceremonies found, h.one_open);
  sound =
      all_sound-saved _ s.ceremonies
        (and_true _ _
          (true-of-and (is_apart c.initiator c.approver) _
            (is_sound-find c.id c s.ceremonies found h.sound)).0
          (ready_complete c.state (is_some c.approver) (is_some c.activated_generation) ready
            (true-of-and (is_apart c.initiator c.approver) _
              (is_sound-find c.id c s.ceremonies found h.sound)).1))
        h.sound;
  unique = are_unique-saved _ s.ceremonies h.unique;
}
Step-IsStore (register e apart) h = record {
  one_open = h.one_open;
  sound = h.sound;
  unique = h.unique;
}
Step-IsStore (revoke now user_id epoch_id) h = record {
  one_open = h.one_open;
  sound = h.sound;
  unique = h.unique;
}
