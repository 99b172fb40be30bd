-- ===== src/Ceremony/Tests.antt =====
-- Two operators replace the slot of the passphrase.
use elderflow.Shared.{
  ℕ, arith, ◌≡◌, ◌⊎◌, ◌+◌, refl, false, none, some, [], ◌∷◌, find, filter, any, length,
}
use elderflow.Shared.Sets.{contains}
use elderflow.Envelope.Values.{same_bytes}
use elderflow.Envelope.Readers.{array_of, is_number, is_array}
use elderflow.Ceremony.Start.{
  start_recovery, start_recovery_transaction, displace, expected_state, new_ceremony,
  recovery_candidate,
}
use elderflow.Ceremony.Steps.{
  approve_recovery, approve_recovery_transaction, assert_recorded_operators_eligible, refuse_unless,
}
use elderflow.Ceremony.Activate.{
  activate_recovery_transaction, answer, activate_ready, activate, rewrapped,
}
use elderflow.Ceremony.KeyEnvelope.{validate_key_envelope, check_header, array_bytes}
use elderflow.Ceremony.Candidate.{decode_key_envelope}
use elderflow.Ceremony.Tables.{saved}
use elderflow.Ceremony.Invariant.{all_sound}
use elderflow.Ceremony.Rows.{are_unique}
use elderflow.Shared.Errors.{ok}
use elderflow.Access.Policy.{UserRole}
use elderflow.Envelope.Values.{Bytes, number, bytes, null, array, items_of, arr}
use elderflow.Envelope.Tests.Toy.{toy, copies}
use elderflow.Ceremony.State.{activated, Ceremony, KeyState, User, Store}
use elderflow.Ceremony.Tables.{has_id, is_activated}
use elderflow.Ceremony.Activate.{activate_recovery}
use elderflow.Ceremony.Machine.{count, Steps}
use elderflow.Ceremony.Requests.{
  Caller, Request, start_one, approve_one, abort_one, activate_one, serve,
}
use elderflow.Ceremony.Invariant.{IsStore}
use elderflow.Ceremony.Generations.{generation_of}
use elderflow.Ceremony.Activated.{IsActivated, IsRepeated, activate_recovery-IsActivated}
use elderflow.Ceremony.Prefixes.{IsApart, run-IsApart}
use elderflow.Ceremony.Guarantees.{
  Run, idle, next, serve-Steps, run-IsStore, run-generation, run-ended,
}

abbrev slot : Bytes
slot = toy.encode (
    arr (
      number 1
      ∷ number 1
      ∷ number 1
      ∷ array (
          items_of (
            bytes (copies 16 1)
            ∷ bytes (copies 16 9)
            ∷ bytes (copies 16 2)
            ∷ number 1
            ∷ number 3
            ∷ number 67108864
            ∷ bytes (copies 16 0)
            ∷ bytes (copies 24 0)
            ∷ []))
      ∷ bytes (copies 48 7)
      ∷ null
      ∷ []))

abbrev keys : KeyState
keys = record {
  organization_id = copies 16 1;
  generation = 1;
  ork_id = copies 16 2;
  ock_id = copies 16 3;
  ock_epoch = 1;
  shared_passphrase_slot = copies 48 4;
  recovery_slot = copies 48 5;
  content_key_wrapper = copies 48 6;
  custody_acknowledged_by = 1;
  custody_acknowledged_at = 0;
}

abbrev operator : ℕ → User
operator n = record { id = n; role = UserRole.admin; session_version = 1; is_archived = false }

abbrev caller : ℕ → ℕ → Caller
caller n now = record { user = operator n; session_id = n + 10; now = now }

abbrev s0 : Store
s0 = record {
  key_state = some keys;
  ceremonies = [];
  epochs =
      record {
        id = copies 16 8;
        organization_id = copies 16 1;
        user_id = 1;
        nonce_prefix = copies 16 0;
        signing_public_key = copies 32 0;
        revoked_at = none;
        write_grace_until = none;
      }
      ∷ [];
  wrappers = [];
  users = operator 1 ∷ operator 2 ∷ [];
  events = [];
}

abbrev fingerprint : Bytes
fingerprint = copies 32 (length slot)

abbrev request_1 : Request
request_1 = start_one 5 (record {
  expected_generation = 1;
  candidate_fingerprint = some fingerprint;
  candidate_shared_passphrase_slot = some slot;
})

abbrev s1 : Store
s1 = serve toy (caller 1 1000) request_1 s0

abbrev s2 : Store
s2 = serve toy (caller 2 2000) (approve_one 5 (some fingerprint)) s1

abbrev s3 : Store
s3 = serve toy (caller 1 3000) (activate_one 5) s2

s0-IsStore : IsStore s0
unfolding count all_sound are_unique
s0-IsStore = record { one_open = omega arith; sound = refl; unique = refl }

run_example : Run toy s0 s3
unfolding find serve start_recovery start_recovery_transaction displace expected_state
    decode_key_envelope validate_key_envelope check_header array_of is_number is_array array_bytes
    same_bytes saved
run_example = next (caller 1 1000) request_1 refl (
    next (caller 2 2000) (approve_one 5 (some fingerprint)) tt
      (next (caller 1 3000) (activate_one 5) tt idle))

serve-Steps_example : Steps s0 s1
unfolding find
serve-Steps_example = serve-Steps toy (caller 1 1000) request_1 s0 s0-IsStore refl

run-IsStore_example : IsStore s3
run-IsStore_example = run-IsStore toy s0 s3 run_example s0-IsStore

run-generation_example :
    generation_of s3.key_state + count is_activated s0.ceremonies
    ≡ generation_of s0.key_state + count is_activated s3.ceremonies
run-generation_example = run-generation toy s0 s3 run_example s0-IsStore

generation_lem : generation_of s3.key_state ≡ 2
unfolding find serve start_recovery start_recovery_transaction displace expected_state
    decode_key_envelope validate_key_envelope check_header array_of is_number is_array array_bytes
    same_bytes saved approve_recovery approve_recovery_transaction
    assert_recorded_operators_eligible refuse_unless filter any contains activate_recovery
    activate_recovery_transaction answer activate_ready activate rewrapped
generation_lem = refl

fresh_lem : find (has_id 5) s0.ceremonies ≡ none
unfolding find
fresh_lem = refl

s2-IsStore : IsStore s2
s2-IsStore =
    run-IsStore toy s0 s2
      (next (caller 1 1000) request_1 fresh_lem
        (next (caller 2 2000) (approve_one 5 (some fingerprint)) tt idle))
      s0-IsStore

activate_lem : activate_recovery 3000 (operator 1) 11 5 s2 ≡ (ok 2, s3)
unfolding find serve start_recovery start_recovery_transaction displace expected_state
    decode_key_envelope validate_key_envelope check_header array_of is_number is_array array_bytes
    same_bytes saved approve_recovery approve_recovery_transaction
    assert_recorded_operators_eligible refuse_unless filter any contains activate_recovery
    activate_recovery_transaction answer activate_ready activate rewrapped
activate_lem = refl

activate_recovery-IsActivated_example :
    IsActivated 3000 9000 (operator 1) 11 5 s2 s3 2 ⊎ IsRepeated 9000 (operator 1) 11 5 s2 s3 2
activate_recovery-IsActivated_example =
    activate_recovery-IsActivated 3000 9000 (operator 1) 11 5 s2 s3 2 s2-IsStore activate_lem

abbrev ended_ceremony : Ceremony
ended_ceremony =
    record (new_ceremony 5 1000 (operator 1) 11 (recovery_candidate keys slot) fingerprint) {
      state = activated;
      approver = some (record { user_id = 2; session_version = 1; session_id = 12 });
      approver_confirmed_at = some 2000;
      activated_generation = some 2;
    }

ended_lem : find (has_id 5) s3.ceremonies ≡ some ended_ceremony
unfolding find serve start_recovery start_recovery_transaction displace expected_state
    decode_key_envelope validate_key_envelope check_header array_of is_number is_array array_bytes
    same_bytes saved approve_recovery approve_recovery_transaction
    assert_recorded_operators_eligible refuse_unless filter any contains activate_recovery
    activate_recovery_transaction answer activate_ready activate rewrapped
ended_lem = refl

run-ended_example :
    find (has_id 5) (serve toy (caller 1 4000) (abort_one 5) s3).ceremonies ≡ some ended_ceremony
run-ended_example =
    run-ended toy s3 (serve toy (caller 1 4000) (abort_one 5) s3) 5 ended_ceremony
      (next (caller 1 4000) (abort_one 5) tt idle) run-IsStore_example ended_lem refl

run-IsApart_example : IsApart s3.epochs
run-IsApart_example = run-IsApart toy s0 s3 run_example s0-IsStore (tt, tt)
