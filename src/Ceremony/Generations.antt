-- ===== src/Ceremony/Generations.antt =====
-- The generations of the keys count the ceremonies that have been activated
-- (backend/src/e2ee/e2ee.service.ts).
use elderflow.Shared.{
  ℕ, ◌+◌, ◌≡◌, refl, sym, ap, subst, ◌∙◌, arith, Bool-cases, inl, inr, true, false, Option, none,
  some, List, ◌==◌, ==_iff, if◌then◌else◌, find, some-injective,
}
use elderflow.Ceremony.State.{
  CeremonyState, pending_second_operator, ready_to_activate, activated, aborted, Ceremony, KeyState,
  Store,
}
use elderflow.Ceremony.Tables.{has_id, is_open, is_pending, is_ready, is_activated}
use elderflow.Ceremony.Activate.{activate}
use elderflow.Ceremony.Machine.{
  Transition, approve, confirm_initiator, confirm_approver, abort, count, Step, start, move,
  activation, register, revoke, Steps, done, ◌then◌, one, count-saved, count-saved_new, find-saved,
}
use elderflow.Ceremony.Invariant.{
  IsStore, Step-IsStore, Transition-open, Transition-id, at_after, ended,
}

abbrev pub generation_of : Option KeyState → ℕ
generation_of none = 0
generation_of (some state) = state.generation

open_apart : (state : CeremonyState) → is_open state ≡ true → is_activated state ≡ false
open_apart pending_second_operator h = refl
open_apart ready_to_activate h = refl
open_apart activated h = cc
open_apart aborted h = cc

pending_apart : (state : CeremonyState) → is_pending state ≡ true → is_activated state ≡ false
pending_apart pending_second_operator h = refl
pending_apart ready_to_activate h = cc
pending_apart activated h = cc
pending_apart aborted h = cc

ready_open : (state : CeremonyState) → is_ready state ≡ true → is_open state ≡ true
ready_open pending_second_operator h = cc
ready_open ready_to_activate h = refl
ready_open activated h = cc
ready_open aborted h = cc

Transition-apart :
    {before after : Ceremony} → Transition before after → is_activated after.state ≡ false
Transition-apart (approve approver now pending apart) = refl
Transition-apart {before} (confirm_initiator now opened) = open_apart before.state opened
Transition-apart {before} (confirm_approver now opened) = open_apart before.state opened
Transition-apart (abort opened) = refl

Step-generation :
    {s t : Store}
    → Step s t
    → generation_of t.key_state + count is_activated s.ceremonies
      ≡ generation_of s.key_state + count is_activated t.ceremonies
unfolding activate
Step-generation {s} (start c new none_open fresh) =
    omega (
      arith,
      count-saved_new is_activated c s.ceremonies fresh,
      ap one (pending_apart c.state new.0),
    )
Step-generation {s} (move before after found moved) = omega (
  arith,
  count-saved is_activated after before s.ceremonies (at_after s.ceremonies moved found),
  ap one (open_apart before.state (Transition-open moved)),
  ap one (Transition-apart moved),
)
Step-generation {s} (activation now c state keys found ready approved) = omega (
  arith,
  count-saved is_activated (ended c state) c s.ceremonies found,
  ap one (open_apart c.state (ready_open c.state ready)),
  ap generation_of keys,
)
Step-generation (register e apart) = refl
Step-generation (revoke now user_id epoch_id) = refl

true-false : true ≡ false → ⊥
true-false h = cc

fresh_apart :
    (id : ℕ) (c found : Ceremony) (rows : List Ceremony)
    → find (has_id c.id) rows ≡ none
    → find (has_id id) rows ≡ some found
    → (c.id == id) ≡ false
fresh_apart id c found rows fresh at_found = elim (Bool-cases (c.id == id)) [
  | inl e ↦
      let same = sym fresh ∙ ap (λ (n : ℕ). find (has_id n) rows) ((==_iff _ _).0 e) ∙ at_found in
      cc
  | inr e ↦ e
]

apart_ids :
    (id : ℕ) (c found : Ceremony) (rows : List Ceremony)
    → find (has_id c.id) rows ≡ some c
    → find (has_id id) rows ≡ some found
    → is_open c.state ≡ true
    → is_open found.state ≡ false
    → (c.id == id) ≡ false
apart_ids id c found rows at_c at_found opened closed = elim (Bool-cases (c.id == id)) [
  | inl e ↦
      let same =
        some-injective
          (sym at_c ∙ ap (λ (n : ℕ). find (has_id n) rows) ((==_iff _ _).0 e) ∙ at_found) in
      absurd (true-false (sym opened ∙ ap (λ (x : Ceremony). is_open x.state) same ∙ closed))
  | inr e ↦ e
]

-- A ceremony that has ended stays as it is.
Step-ended :
    {s t : Store} (id : ℕ) (found : Ceremony)
    → Step s t
    → find (has_id id) s.ceremonies ≡ some found
    → is_open found.state ≡ false
    → find (has_id id) t.ceremonies ≡ some found
unfolding activate
Step-ended {s} id found (start c new none_open fresh) at_found closed =
    find-saved id c found s.ceremonies (fresh_apart id c found s.ceremonies fresh at_found) at_found
Step-ended {s} id found (move before after at_before moved) at_found closed =
    find-saved id after found s.ceremonies
      (subst (λ (n : ℕ). (n == id) ≡ false) (sym (Transition-id moved))
        (apart_ids id before found s.ceremonies at_before at_found (Transition-open moved) closed))
      at_found
Step-ended {s} id found (activation now c state keys at_c ready approved) at_found closed =
    find-saved id (ended c state) found s.ceremonies
      (apart_ids id c found s.ceremonies at_c at_found (ready_open c.state ready) closed) at_found
Step-ended id found (register e apart) at_found closed = at_found
Step-ended id found (revoke now user_id epoch_id) at_found closed = at_found

pub Steps-IsStore : {s t : Store} → Steps s t → IsStore s → IsStore t
Steps-IsStore done h = h
Steps-IsStore (step then steps) h = Steps-IsStore steps (Step-IsStore step h)

pub Steps-generation :
    {s t : Store}
    → Steps s t
    → generation_of t.key_state + count is_activated s.ceremonies
      ≡ generation_of s.key_state + count is_activated t.ceremonies
Steps-generation done = refl
Steps-generation (step then steps) = omega (arith, Step-generation step, Steps-generation steps)

pub Steps-ended :
    {s t : Store} (id : ℕ) (found : Ceremony)
    → Steps s t
    → find (has_id id) s.ceremonies ≡ some found
    → is_open found.state ≡ false
    → find (has_id id) t.ceremonies ≡ some found
Steps-ended id found done h closed = h
Steps-ended id found (step then steps) h closed =
    Steps-ended id found steps (Step-ended id found step h closed) closed
