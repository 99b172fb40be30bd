-- ===== src/Ceremony/Activate.antt =====
-- `activateRecovery` (backend/src/e2ee/e2ee.service.ts): its tests, its answers and what it writes.
use elderflow.Shared.{
  ℕ, ◌+◌, ◌*◌, max, Bool, true, false, ◌&&◌, Option, none, some, List, [], ◌∷◌, ◌==◌, if◌then◌else◌,
  map, leb,
}
use elderflow.Shared.Errors.{
  Result, ok, err, forbidden, conflict, forbidden_operation, e2ee_ceremony_state_invalid,
  e2ee_ceremony_compare_and_swap_lost, e2ee_ceremony_participant_confirmation_required,
}
use elderflow.Envelope.Values.{same_bytes}
use elderflow.Ceremony.State.{
  activated, CeremonyState, KeyCeremonyReasonCode, team_member_left, routine_access_change,
  routine_custody_change, planned_root_rotation, KeyState, Historical, Participant, Ceremony,
  ClientEpoch, ContentKeyWrapper, User, Store, Transaction, ◌>>=◌, ◌>>◌,
}
use elderflow.Ceremony.Tables.{
  pure, lift, check, read, write, transaction, is_ready, saved, lock_ceremony,
  assert_ceremony_active, assert_key_operator, is_bound_participant,
}
use elderflow.Ceremony.Steps.{is_some, assert_recorded_operators_eligible}

-- A reason after which clients may write for another week.
abbrev pub is_routine : KeyCeremonyReasonCode → Bool
is_routine team_member_left = true
is_routine routine_access_change = true
is_routine routine_custody_change = true
is_routine planned_root_rotation = true
is_routine _ = false

-- The key state after the activation of a candidate.
abbrev pub activated_state : ℕ → Ceremony → KeyState → KeyState
activated_state now c state =
    let to_custody = c.candidate.custody_copies_acknowledged == 2 in
    record state {
      shared_passphrase_slot = c.candidate.shared_passphrase_slot;
      recovery_slot = c.candidate.recovery_slot;
      content_key_wrapper = c.candidate.content_key_wrapper;
      ork_id = c.candidate.ork_id;
      ock_id = c.candidate.ock_id;
      ock_epoch = c.candidate.ock_epoch;
      custody_acknowledged_by =
          if to_custody then c.initiator.user_id else state.custody_acknowledged_by;
      custody_acknowledged_at = if to_custody then now else state.custody_acknowledged_at;
      generation = state.generation + 1;
    }

-- `INSERT … ON CONFLICT ("ork_id", "ock_id") DO UPDATE SET "wrapper"`.
unfoldable pub upsert : ContentKeyWrapper → List ContentKeyWrapper → List ContentKeyWrapper
upsert w [] = w ∷ []
upsert w (row ∷ rows) =
    if same_bytes row.ork_id w.ork_id && same_bytes row.ock_id w.ock_id
    then record row { wrapper = w.wrapper } ∷ rows
    else row ∷ upsert w rows

unfoldable pub upsert_historical :
    ℕ → KeyState → List Historical → List ContentKeyWrapper → List ContentKeyWrapper
unfolding upsert
upsert_historical now state [] rows = rows
upsert_historical now state (h ∷ rest) rows = upsert_historical now state rest (
    upsert
      (record {
        organization_id = state.organization_id;
        ork_id = state.ork_id;
        ock_id = h.ock_id;
        ock_epoch = h.ock_epoch;
        wrapper = h.wrapper;
        writable_until = some now;
        retained_until = none;
      })
      rows)

abbrev pub or_else : ℕ → Option ℕ → ℕ
or_else n none = n
or_else n (some k) = k

abbrev pub retention_ms : ℕ
retention_ms = 30 * 24 * 60 * 60 * 1000

abbrev pub write_grace_ms : ℕ
write_grace_ms = 7 * 24 * 60 * 60 * 1000

-- The wrappers of the key that is replaced are retained for a month.
unfoldable pub retire : ℕ → (before after : KeyState) → ContentKeyWrapper → ContentKeyWrapper
retire now before after w =
    if same_bytes w.ork_id before.ork_id && same_bytes w.ock_id before.ock_id
    then record w {
      retained_until =
          some (max (or_else (now + retention_ms) w.retained_until) (now + retention_ms));
      writable_until = if same_bytes after.ock_id before.ock_id then w.writable_until else some now;
    }
    else w

unfoldable pub rewrapped :
    ℕ → Ceremony → (before after : KeyState) → List ContentKeyWrapper → List ContentKeyWrapper
unfolding upsert upsert_historical retire
rewrapped now c before after rows =
    if same_bytes after.ork_id before.ork_id && same_bytes after.ock_id before.ock_id
    then rows
    else map (retire now before after) (
        upsert_historical now after c.candidate.historical_content_key_wrappers (
          upsert
            (record {
              organization_id = after.organization_id;
              ork_id = after.ork_id;
              ock_id = after.ock_id;
              ock_epoch = after.ock_epoch;
              wrapper = after.content_key_wrapper;
              writable_until = none;
              retained_until = none;
            })
            rows))

abbrev pub revoked : ℕ → KeyCeremonyReasonCode → ClientEpoch → ClientEpoch
revoked now reason e = if is_some e.revoked_at then e else (record e {
  revoked_at = some now;
  write_grace_until = if is_routine reason then some (now + write_grace_ms) else none;
})

abbrev pub approver_ids : Option Participant → List ℕ
approver_ids none = []
approver_ids (some p) = p.user_id ∷ []

-- All that an activation writes.
unfoldable pub activate : ℕ → Ceremony → KeyState → Store → Store
unfolding rewrapped
activate now c state s =
    let after = activated_state now c state in
    record s {
      key_state = some after;
      wrappers = rewrapped now c state after s.wrappers;
      users = map (λ (u : User). record u { session_version = u.session_version + 1 }) s.users;
      epochs = map (revoked now c.candidate.reason_code) s.epochs;
      ceremonies =
          saved (record c { state = activated; activated_generation = some after.generation })
            s.ceremonies;
      events =
          record {
            actor_ids = c.initiator.user_id ∷ approver_ids c.approver;
            key_generation = after.generation;
            operation = c.candidate.operation;
            reason_code = c.candidate.reason_code;
            ork_id = after.ork_id;
            ock_id = after.ock_id;
          }
          ∷ s.events;
    }

abbrev pub participant_confirmation_lifetime_ms : ℕ
participant_confirmation_lifetime_ms = 30 * 1000

-- A confirmation of at most 30 seconds ago.
abbrev pub is_recent : ℕ → Option ℕ → Bool
is_recent now none = false
is_recent now (some at) = leb now (at + participant_confirmation_lifetime_ms)

abbrev pub swapped_state : ℕ → Option KeyState → Result KeyState
swapped_state n none = err conflict e2ee_ceremony_compare_and_swap_lost
swapped_state n (some state) =
    if state.generation == n then ok state else err conflict e2ee_ceremony_compare_and_swap_lost

-- The generation that an activated ceremony answers when it is asked again.
abbrev pub replayed : CeremonyState → Option ℕ → Option ℕ
replayed activated generation = generation
replayed _ generation = none

module _ (now : ℕ) (user : User) (session_id id : ℕ) where
  unfoldable pub activate_ready : Ceremony → Transaction ℕ
  unfolding assert_recorded_operators_eligible activate
  activate_ready c = do
    assert_ceremony_active now c
    check (is_ready c.state && is_some c.approver) conflict e2ee_ceremony_state_invalid
    check (is_bound_participant c user.id session_id) forbidden forbidden_operation
    assert_recorded_operators_eligible c true
    check (is_recent now c.initiator_confirmed_at && is_recent now c.approver_confirmed_at) conflict
        e2ee_ceremony_participant_confirmation_required
    found ← read (λ s. s.key_state)
    state ← lift (swapped_state c.candidate.expected_generation found)
    write (activate now c state)
    pure (state.generation + 1)

  unfoldable pub answer : Ceremony → Option ℕ → Transaction ℕ
  unfolding activate_ready
  answer c none = activate_ready c
  answer c (some generation) = do
    check (is_bound_participant c user.id session_id) forbidden forbidden_operation
    pure generation

  unfoldable pub activate_recovery_transaction : Transaction ℕ
  unfolding answer
  activate_recovery_transaction = do
    c ← lock_ceremony id
    answer c (replayed c.state c.activated_generation)

  unfoldable pub activate_recovery : Transaction ℕ
  unfolding activate_recovery_transaction
  activate_recovery = assert_key_operator user >> transaction (activate_recovery_transaction)
