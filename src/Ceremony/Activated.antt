-- ===== src/Ceremony/Activated.antt =====
-- What an activation that succeeds has tested and written, and what it answers when it is asked
-- again (backend/src/e2ee/e2ee.service.ts).
use elderflow.Shared.{
  length, filter, ℕ, ◌+◌, ◌≡◌, ◌≢◌, ◌⊎◌, map, All, refl, sym, ap, subst, ◌∙◌, Bool-cases, inl, inr,
  true, Option, none, some, List, [], ◌∷◌, ◌==◌, true-of-and, ==_iff, find, ◌<◌, ==_refl,
  some-injective,
}
use elderflow.Shared.Errors.{ok, ok-injective}
use elderflow.Access.Policy.{is_e2ee_key_operator}
use elderflow.Ceremony.State.{
  CeremonyState, pending_second_operator, ready_to_activate, activated, aborted, Participant,
  Ceremony, KeyState, ClientEpoch, User, Store,
}
use elderflow.Ceremony.Tables.{has_id, saved, is_ready, is_bound_participant}
use elderflow.Ceremony.Steps.{is_some, are_eligible}
use elderflow.Ceremony.Activate.{
  activate, activated_state, replayed, activate_ready, answer, activate_recovery,
  activate_recovery_transaction,
}
use elderflow.Ceremony.Eligible.{
  IsEligible, IsBound, is_recorded, is_bound_participant-IsBound, are_eligible-IsEligible,
}
use elderflow.Ceremony.Inversions.{check-ok, lock_ceremony-ok}
use elderflow.Ceremony.Refinement.{committed-ok}
use elderflow.Ceremony.Activating.{IsActivable, IsPresent, activate_ready-ok, revoked-All, apart_of}
use elderflow.Ceremony.Invariant.{IsStore, is_apart, is_sound-find}

-- The ceremony as an activation leaves it.
abbrev pub ended : Ceremony → ℕ → Ceremony
ended c generation = record c { state = activated; activated_generation = some generation }

-- The keys as an activation leaves them: those of the candidate, in the next generation, with a new
-- acknowledgement of custody when the candidate has both copies.
abbrev pub IsCandidateState : ℕ → Ceremony → (before after : KeyState) → Type 0
IsCandidateState now c before after =
    (after.organization_id ≡ before.organization_id)
    × (after.generation ≡ before.generation + 1)
    × (after.ork_id ≡ c.candidate.ork_id)
    × (after.ock_id ≡ c.candidate.ock_id)
    × (after.ock_epoch ≡ c.candidate.ock_epoch)
    × (after.shared_passphrase_slot ≡ c.candidate.shared_passphrase_slot)
    × (after.recovery_slot ≡ c.candidate.recovery_slot)
    × (after.content_key_wrapper ≡ c.candidate.content_key_wrapper)
    × (((c.candidate.custody_copies_acknowledged ≡ 2)
          × (after.custody_acknowledged_by ≡ c.initiator.user_id)
          × (after.custody_acknowledged_at ≡ now))
        ⊎ ((c.candidate.custody_copies_acknowledged ≢ 2)
            × (after.custody_acknowledged_by ≡ before.custody_acknowledged_by)
            × (after.custody_acknowledged_at ≡ before.custody_acknowledged_at)))

-- The same with its two operators, in the terms of the tables.
pub record IsAllowed (now : ℕ) (user : User) (session_id : ℕ) (c : Ceremony) (second : Participant)
    (s : Store) (before : KeyState) : Type 0 where
  pub unexpired : now < c.expires_at
  pub ready : c.state ≡ ready_to_activate
  pub bound : IsBound user.id session_id c.initiator second
  pub two_operators : length (filter (is_recorded c.initiator second) s.users) ≡ 2
  pub eligible : All (IsEligible c.initiator second) s.users
  pub initiator_present : IsPresent now c.initiator_confirmed_at
  pub approver_present : IsPresent now c.approver_confirmed_at
  pub same_generation : before.generation ≡ c.candidate.expected_generation

is_ready-true : (state : CeremonyState) → is_ready state ≡ true → state ≡ ready_to_activate
is_ready-true ready_to_activate h = refl
is_ready-true pending_second_operator h = cc
is_ready-true activated h = cc
is_ready-true aborted h = cc

IsActivable-IsAllowed :
    (now : ℕ) (user : User) (session_id : ℕ) (c : Ceremony) (second : Participant) (s : Store)
    (before : KeyState)
    → c.approver ≡ some second
    → IsActivable now user session_id c s before
    → IsAllowed now user session_id c second s before
IsActivable-IsAllowed now user session_id c second s before at_second tested =
    let eligible =
      are_eligible-IsEligible c.initiator second s.users
        (ap (are_eligible s.users c.initiator) (sym at_second) ∙ tested.eligible) in
    record {
      unexpired = tested.unexpired;
      ready = is_ready-true c.state tested.ready;
      bound = is_bound_participant-IsBound user.id session_id c second at_second tested.bound;
      two_operators = eligible.0;
      eligible = eligible.1;
      initiator_present = tested.initiator_present;
      approver_present = tested.approver_present;
      same_generation = tested.same_generation;
    }

-- A ceremony that an activation has carried out: its two operators, what it wrote, and what it
-- answers at a later time.
pub record IsActivated (now later : ℕ) (user : User) (session_id id : ℕ) (s t : Store)
    (generation : ℕ) : Type 0 where
  pub c : Ceremony
  pub before : KeyState
  pub after : KeyState
  pub second : Participant
  pub at_id : find (has_id id) s.ceremonies ≡ some c
  pub keys : s.key_state ≡ some before
  pub approver : c.approver ≡ some second
  pub distinct : c.initiator.user_id ≢ second.user_id
  pub tested : IsAllowed now user session_id c second s before
  pub new_keys : t.key_state ≡ some after
  pub candidate : IsCandidateState now c before after
  pub next_generation : generation ≡ before.generation + 1
  pub stored : find (has_id id) t.ceremonies ≡ some (ended c generation)
  pub signed_out :
      t.users ≡ map (λ (u : User). record u { session_version = u.session_version + 1 }) s.users
  pub clients : All (λ (e : ClientEpoch). is_some e.revoked_at ≡ true) t.epochs
  pub again : activate_recovery later user session_id id t ≡ (ok generation, t)

-- A repeated request, of a ceremony that is activated already.
pub record IsRepeated (later : ℕ) (user : User) (session_id id : ℕ) (s t : Store) (generation : ℕ)
    : Type 0 where
  pub c : Ceremony
  pub at_id : find (has_id id) s.ceremonies ≡ some c
  pub was_activated : c.state ≡ activated
  pub same_generation : c.activated_generation ≡ some generation
  pub bound : is_bound_participant c user.id session_id ≡ true
  pub unchanged : t ≡ s
  pub again : activate_recovery later user session_id id t ≡ (ok generation, t)

-- The row that is saved over is found as it is saved.
find-saved_same :
    (c found : Ceremony) (rows : List Ceremony)
    → find (has_id c.id) rows ≡ some found
    → find (has_id c.id) (saved c rows) ≡ some c
unfolding saved find
find-saved_same c found [] h = cc
find-saved_same c found (row ∷ rows) h = elim (Bool-cases (row.id == c.id)) [
  | inl e ↦ rw (e, ==_refl c.id)
  | inr e ↦ rw e (rw e (find-saved_same c found rows (rw e at h)))
]

find-has_id :
    (id : ℕ) (c : Ceremony) (rows : List Ceremony) → find (has_id id) rows ≡ some c → c.id ≡ id
unfolding find
find-has_id id c [] h = cc
find-has_id id c (row ∷ rows) h = elim (Bool-cases (row.id == id)) [
  | inl e ↦ subst (λ (r : Ceremony). r.id ≡ id) (some-injective (rw e at h)) ((==_iff _ _).0 e)
  | inr e ↦ find-has_id id c rows (rw e at h)
]

activated_state-IsCandidateState :
    (now : ℕ) (c : Ceremony) (state : KeyState)
    → IsCandidateState now c state (activated_state now c state)
activated_state-IsCandidateState now c state =
    (refl, refl, refl, refl, refl, refl, refl, refl, custody refl)
  where
    custody :
        {n : ℕ}
        → c.candidate.custody_copies_acknowledged ≡ n
        → ((c.candidate.custody_copies_acknowledged ≡ 2)
            × ((activated_state now c state).custody_acknowledged_by ≡ c.initiator.user_id)
            × ((activated_state now c state).custody_acknowledged_at ≡ now))
          ⊎ ((c.candidate.custody_copies_acknowledged ≢ 2)
              × ((activated_state now c state).custody_acknowledged_by
                  ≡ state.custody_acknowledged_by)
              × ((activated_state now c state).custody_acknowledged_at
                  ≡ state.custody_acknowledged_at))
    custody same = elim (Bool-cases (c.candidate.custody_copies_acknowledged == 2)) [
      | inl e ↦ inl ((==_iff _ _).0 e, rw e refl, rw e refl)
      | inr e ↦ inr (λ both. let clash = sym e ∙ (==_iff _ _).1 both in cc, rw e refl, rw e refl)
    ]

replayed_of :
    (state : CeremonyState) (generation : Option ℕ) (n : ℕ)
    → replayed state generation ≡ some n
    → (state ≡ activated) × (generation ≡ some n)
replayed_of activated generation n h = (refl, h)
replayed_of pending_second_operator generation n h = cc
replayed_of ready_to_activate generation n h = cc
replayed_of aborted generation n h = cc

-- An activated ceremony answers its participants with its generation, at any time.
activate_recovery_again :
    (later : ℕ) (user : User) (session_id id : ℕ) (c : Ceremony) (n : ℕ) (t : Store)
    → is_e2ee_key_operator user.role ≡ true
    → find (has_id id) t.ceremonies ≡ some c
    → replayed c.state c.activated_generation ≡ some n
    → is_bound_participant c user.id session_id ≡ true
    → activate_recovery later user session_id id t ≡ (ok n, t)
unfolding activate_recovery activate_recovery_transaction answer
activate_recovery_again later user session_id id c n t operator found e bound =
    rw (operator, found, e, bound)

module _ (now later : ℕ) (user : User) (session_id id : ℕ)
    (operator : is_e2ee_key_operator user.role ≡ true) where
  activate_ready-IsActivated :
      (c : Ceremony) (s t : Store) (n : ℕ)
      → IsStore s
      → find (has_id id) s.ceremonies ≡ some c
      → activate_ready now user session_id id c s ≡ (ok n, t)
      → IsActivated now later user session_id id s t n
  unfolding activate
  activate_ready-IsActivated c s t n well found h =
      let (state, keys, tested, wrote, next) = activate_ready-ok now user session_id id c s t n h in
      let sound = is_sound-find id c s.ceremonies found well.sound in
      let (p, at_p, apart) =
        apart_of c.initiator c.approver tested.approved
          (true-of-and (is_apart c.initiator c.approver) _ sound).0 in
      let new = ended c (state.generation + 1) in
      let at_c : find (has_id c.id) s.ceremonies ≡ some c =
        subst (λ (k : ℕ). find (has_id k) s.ceremonies ≡ some c)
          (sym (find-has_id id c s.ceremonies found)) found in
      let at_new : find (has_id id) (saved new s.ceremonies) ≡ some new =
        subst (λ (k : ℕ). find (has_id k) (saved new s.ceremonies) ≡ some new)
          (find-has_id id c s.ceremonies found) (find-saved_same new c s.ceremonies at_c) in
      subst (λ (p : ℕ × Store). IsActivated now later user session_id id s p.1 p.0)
        (ap (λ k. (k, activate now c state s)) (sym next) ∙ ap (λ u. (n, u)) (sym wrote))
        (record {
          c = c;
          before = state;
          after = activated_state now c state;
          second = p;
          at_id = found;
          keys = keys;
          approver = at_p;
          distinct = apart;
          tested = IsActivable-IsAllowed now user session_id c p s state at_p tested;
          new_keys = refl;
          candidate = activated_state-IsCandidateState now c state;
          next_generation = refl;
          stored = at_new;
          signed_out = refl;
          clients = revoked-All now c.candidate.reason_code s.epochs;
          again =
              activate_recovery_again later user session_id id new (state.generation + 1)
                (activate now c state s) operator at_new refl tested.bound;
        })

  answer-ok :
      (c : Ceremony) (replay : Option ℕ) (s t : Store) (n : ℕ)
      → IsStore s
      → find (has_id id) s.ceremonies ≡ some c
      → replayed c.state c.activated_generation ≡ replay
      → answer now user session_id id c replay s ≡ (ok n, t)
      → IsActivated now later user session_id id s t n ⊎ IsRepeated later user session_id id s t n
  unfolding answer
  answer-ok c none s t n well found e h = inl (activate_ready-IsActivated c s t n well found h)
  answer-ok c (some generation) s t n well found e h =
      let (bound, r) = check-ok s (is_bound_participant c user.id session_id) _ _ _ h in
      let same = e ∙ ap some (ok-injective (ap (λ p. p.0) r)) in
      let unchanged = sym (ap (λ p. p.1) r) in
      inr (record {
        c = c;
        at_id = found;
        was_activated = (replayed_of c.state c.activated_generation n same).0;
        same_generation = (replayed_of c.state c.activated_generation n same).1;
        bound = bound;
        unchanged = unchanged;
        again =
            activate_recovery_again later user session_id id c n t operator
              (ap (λ (u : Store). find (has_id id) u.ceremonies) unchanged ∙ found) same bound;
      })

module _ (now later : ℕ) (user : User) (session_id id : ℕ) where
  -- An activation that succeeds on well-formed tables was asked for by a session that takes part, with
  -- a second operator other than the first, both present in the last 30 seconds and still eligible,
  -- before the ceremony expired and on the generation that it started from. It writes the keys of the
  -- candidate, the next generation, and a new acknowledgement of custody if the candidate has both
  -- copies; it stores the ceremony as activated with the generation that it answers, counts every
  -- user's session version up and leaves every client epoch revoked. Or the ceremony was activated
  -- before, and the request answers the generation that is stored and changes nothing. Asked again by
  -- the same user and session at any time, it answers the same generation and changes nothing.
  pub activate_recovery-IsActivated :
      (s t : Store) (n : ℕ)
      → IsStore s
      → activate_recovery now user session_id id s ≡ (ok n, t)
      → IsActivated now later user session_id id s t n ⊎ IsRepeated later user session_id id s t n
  unfolding activate_recovery activate_recovery_transaction
  activate_recovery-IsActivated s t n well h =
      let (operator, r0) = check-ok s (is_e2ee_key_operator user.role) _ _ _ h in
      let r1 = committed-ok s (activate_recovery_transaction now user session_id id s) r0 in
      let (c, found, at_c, r2) = lock_ceremony-ok s id _ r1 in
      answer-ok now later user session_id id operator c (replayed c.state c.activated_generation) s
        t n well found refl r2
