-- ===== src/Ceremony/Activating.antt =====
-- What an activation has tested, and that it is one step (backend/src/e2ee/e2ee.service.ts).
use elderflow.Shared.{
  ℕ, ltb, ◌+◌, ◌≡◌, ◌≢◌, map, All, refl, sym, ap, subst, Bool, Bool-cases, inl, inr, true, false,
  not, ◌&&◌, Option, none, some, List, [], ◌∷◌, ◌==◌, true-of-and, ==_iff, if◌then◌else◌, find, ◌<◌,
  ◌≤◌, arith,
}
use elderflow.Shared.Errors.{ok, ok-injective}
use elderflow.Ceremony.State.{
  Participant, Ceremony, KeyState, KeyCeremonyReasonCode, ClientEpoch, User, Store,
}
use elderflow.Ceremony.Tables.{has_id, is_ready, is_bound_participant}
use elderflow.Ceremony.Steps.{is_some, are_eligible}
use elderflow.Ceremony.Activate.{
  activate, revoked, is_recent, swapped_state, replayed, activate_ready, answer, activate_recovery,
  activate_recovery_transaction,
}
use elderflow.Ceremony.Machine.{activation, Steps, done, ◌then◌}
use elderflow.Ceremony.Inversions.{check-ok, lift-ok, lock_ceremony-ok, eligible-ok}
use elderflow.Ceremony.Refinement.{operator-Steps}
use elderflow.Ceremony.Invariant.{is_apart}

-- A confirmation in the last 30 seconds.
abbrev pub IsPresent : ℕ → Option ℕ → Type 0
IsPresent now confirmed_at = (at : ℕ) × (confirmed_at ≡ some at) × (now ≤ at + 30000)

is_recent-IsPresent :
    (now : ℕ) (confirmed_at : Option ℕ)
    → is_recent now confirmed_at ≡ true
    → IsPresent now confirmed_at
is_recent-IsPresent now none h = cc
is_recent-IsPresent now (some at) h = (at, refl, ground arith)

-- What an activation requires: both operators, who were present half a minute ago at most and still
-- hold their accounts, and keys that have not changed since the ceremony started.
pub record IsActivable (now : ℕ) (user : User) (session_id : ℕ) (c : Ceremony) (s : Store)
    (state : KeyState) : Type 0 where
  pub unexpired : now < c.expires_at
  pub ready : is_ready c.state ≡ true
  pub approved : is_some c.approver ≡ true
  pub bound : is_bound_participant c user.id session_id ≡ true
  pub eligible : are_eligible s.users c.initiator c.approver ≡ true
  pub initiator_present : IsPresent now c.initiator_confirmed_at
  pub approver_present : IsPresent now c.approver_confirmed_at
  pub same_generation : state.generation ≡ c.candidate.expected_generation

swapped_state-ok :
    (n : ℕ) (found : Option KeyState) (state : KeyState)
    → swapped_state n found ≡ ok state
    → (found ≡ some state) × (state.generation ≡ n)
swapped_state-ok n none state h = cc
swapped_state-ok n (some x) state h = elim (Bool-cases (x.generation == n)) [
  | inl e ↦
      let same = ok-injective (rw e at h) in
      (ap some same, subst (λ (y : KeyState). y.generation ≡ n) same ((==_iff _ _).0 e))
  | inr e ↦ let h' = rw e at h in cc
]

module _ (now : ℕ) (user : User) (session_id id : ℕ) where
  -- What an activation that is not a repeated one has tested.
  pub activate_ready-ok :
      (c : Ceremony) (s t : Store) (a : ℕ)
      → activate_ready now user session_id id c s ≡ (ok a, t)
      → (state : KeyState) × (s.key_state ≡ some state)
        × (IsActivable now user session_id c s state)
        × (t ≡ activate now c state s)
        × (a ≡ state.generation + 1)
  unfolding activate_ready
  activate_ready-ok c s t a h =
      let (active, r1) = check-ok s (ltb now c.expires_at) _ _ _ h in
      let (ready, r2) = check-ok s (is_ready c.state && is_some c.approver) _ _ _ r1 in
      let (bound, r3) = check-ok s (is_bound_participant c user.id session_id) _ _ _ r2 in
      let (eligible, r4) = eligible-ok s c true _ r3 in
      let (present, r5) =
        check-ok s (is_recent now c.initiator_confirmed_at && is_recent now c.approver_confirmed_at)
          _ _ _ r4 in
      let (state, swapped, r6) =
        lift-ok s (swapped_state c.candidate.expected_generation s.key_state) _ r5 in
      let (found, same) =
        swapped_state-ok c.candidate.expected_generation s.key_state state swapped in
      let (r, approved) = true-of-and _ _ ready in
      let (first, second) = true-of-and _ _ present in
      (
        state,
        found,
        record {
          unexpired = ground arith;
          ready = r;
          approved = approved;
          bound = bound;
          eligible = eligible;
          initiator_present = is_recent-IsPresent now _ first;
          approver_present = is_recent-IsPresent now _ second;
          same_generation = same;
        },
        sym (ap (λ p. p.1) r6),
        sym (ok-injective (ap (λ p. p.0) r6)),
      )

  answer-Steps :
      (c : Ceremony) (replay : Option ℕ) (s t : Store) (a : ℕ)
      → find (has_id c.id) s.ceremonies ≡ some c
      → answer now user session_id id c replay s ≡ (ok a, t)
      → Steps s t
  unfolding answer
  answer-Steps c none s t a found h =
      let (state, keys, tested, e, n) = activate_ready-ok c s t a h in
      subst (Steps s) (sym e)
        (activation now c state keys found tested.ready tested.approved then done)
  answer-Steps c (some generation) s t a found h =
      let (bound, r) = check-ok s (is_bound_participant c user.id session_id) _ _ _ h in
      subst (Steps s) (ap (λ p. p.1) r) done

  pub activate_recovery-Steps : (s : Store) → Steps s (activate_recovery now user session_id id s).1
  unfolding activate_recovery activate_recovery_transaction
  activate_recovery-Steps s =
      operator-Steps user s (activate_recovery_transaction now user session_id id) λ a t h.
        let (c, found, at_c, r0) = lock_ceremony-ok s id _ h in
        answer-Steps c (replayed c.state c.activated_generation) s t a at_c r0

pub revoked-All :
    (now : ℕ) (reason : KeyCeremonyReasonCode) (epochs : List ClientEpoch)
    → All (λ (e : ClientEpoch). is_some e.revoked_at ≡ true) (map (revoked now reason) epochs)
revoked-All now reason [] = tt
revoked-All now reason (e ∷ epochs) =
    (one_revoked (is_some e.revoked_at) refl, revoked-All now reason epochs)
  where
    one_revoked :
        (b : Bool) → is_some e.revoked_at ≡ b → is_some (revoked now reason e).revoked_at ≡ true
    one_revoked true h = rw (h, h)
    one_revoked false h = rw h

pub apart_of :
    (initiator : Participant) (a : Option Participant)
    → is_some a ≡ true
    → is_apart initiator a ≡ true
    → (p : Participant) × (a ≡ some p) × (initiator.user_id ≢ p.user_id)
apart_of initiator none h k = cc
apart_of initiator (some p) h k =
    (p, refl, λ e. unlike (initiator.user_id == p.user_id) ((==_iff _ _).1 e) k)
  where
    unlike : (b : Bool) → b ≡ true → not b ≡ true → ⊥
    unlike b e k = let e' = sym e in cc
