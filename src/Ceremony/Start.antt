-- ===== src/Ceremony/Start.antt =====
-- `startRecovery` and `startKeyCeremony` (backend/src/e2ee/e2ee.service.ts). The advisory lock makes
-- them run one after the other; `fresh` is the identifier that the database generates.
use elderflow.Shared.{
  ℕ, ◌+◌, ◌*◌, Bool, not, Option, none, some, [], ◌==◌, if◌then◌else◌, length, find, ltb,
}
use elderflow.Shared.Errors.{
  Result, ok, err, bad_request, conflict, e2ee_ceremony_concurrent, e2ee_key_state_stale,
  e2ee_candidate_invalid,
}
use elderflow.Envelope.Values.{Bytes, same_bytes, Libraries}
use elderflow.Ceremony.State.{
  pending_second_operator, aborted, lost_passphrase, passphrase_lost, KeyState, KeyCeremonyPayload,
  Ceremony, User, Transaction, ◌>>=◌, ◌>>◌,
}
use elderflow.Ceremony.Tables.{
  pure, lift, check, read, transaction, is_open, save_ceremony, assert_key_operator,
}
use elderflow.Ceremony.Candidate.{validate_candidate_state, decode_key_envelope}

abbrev pub recovery_lifetime_ms : ℕ
recovery_lifetime_ms = 30 * 60 * 1000

abbrev pub runs : ℕ → Ceremony → Bool
runs now c = ltb now c.expires_at

-- An open ceremony refuses the new one; one that has expired is aborted.
unfoldable pub displace : ℕ → Option Ceremony → Transaction (Unit {0})
displace now none = pure tt
displace now (some c) = do
  check (not (runs now c)) conflict e2ee_ceremony_concurrent
  save_ceremony (record c { state = aborted })

-- The key state, when it has the generation that is expected.
unfoldable pub expected_state : ℕ → Option KeyState → Result KeyState
expected_state n none = err conflict e2ee_key_state_stale
expected_state n (some state) =
    if state.generation == n then ok state else err conflict e2ee_key_state_stale

abbrev pub new_ceremony :
    (fresh now : ℕ) → User → (session_id : ℕ) → KeyCeremonyPayload → Bytes → Ceremony
new_ceremony fresh now user session_id candidate fingerprint = record {
  id = fresh;
  initiator = record {
    user_id = user.id;
    session_version = user.session_version;
    session_id = session_id;
  };
  approver = none;
  initiator_confirmed_at = some now;
  approver_confirmed_at = none;
  state = pending_second_operator;
  candidate = candidate;
  candidate_fingerprint = fingerprint;
  expires_at = now + recovery_lifetime_ms;
  activated_generation = none;
}

-- The candidate of a recovery: the state of the keys with another slot for the passphrase.
abbrev pub recovery_candidate : KeyState → Bytes → KeyCeremonyPayload
recovery_candidate state slot = record {
  operation = lost_passphrase;
  reason_code = passphrase_lost;
  expected_generation = state.generation;
  ork_id = state.ork_id;
  ock_id = state.ock_id;
  ock_epoch = state.ock_epoch;
  shared_passphrase_slot = slot;
  recovery_slot = state.recovery_slot;
  content_key_wrapper = state.content_key_wrapper;
  custody_copies_acknowledged = 0;
  historical_content_key_wrappers = [];
}

-- `StartRecoveryDto`: a text in base64 is the bytes that it holds, `none` where it is not in the
-- normal form.
pub record StartRecovery : Type 0 where
  pub expected_generation : ℕ
  pub candidate_fingerprint : Option Bytes
  pub candidate_shared_passphrase_slot : Option Bytes

-- `decodeExact`.
abbrev pub decode_exact : ℕ → Option Bytes → Result Bytes
decode_exact n none = err bad_request e2ee_candidate_invalid
decode_exact n (some b) = if length b == n then ok b else err bad_request e2ee_candidate_invalid

module _ (lib : Libraries) (fresh now : ℕ) (user : User) (session_id : ℕ) where
  unfoldable pub start_recovery_transaction : StartRecovery → Transaction Ceremony
  unfolding displace expected_state decode_key_envelope
  start_recovery_transaction input = do
    active ← read (λ s. find (λ (c : Ceremony). is_open c.state) s.ceremonies)
    displace now active
    found ← read (λ s. s.key_state)
    state ← lift (expected_state input.expected_generation found)
    fingerprint ← lift (decode_exact 32 input.candidate_fingerprint)
    slot ← lift (decode_key_envelope lib state input.candidate_shared_passphrase_slot)
    check (same_bytes fingerprint (lib.sha256 slot)) bad_request e2ee_candidate_invalid
    let c = new_ceremony fresh now user session_id (recovery_candidate state slot) fingerprint
    save_ceremony c
    pure c

  unfoldable pub start_recovery : StartRecovery → Transaction Ceremony
  unfolding start_recovery_transaction
  start_recovery input = assert_key_operator user >> transaction (start_recovery_transaction input)

  unfoldable pub start_key_ceremony_transaction :
      KeyCeremonyPayload → (encoded : Bytes) → Transaction Ceremony
  unfolding displace expected_state validate_candidate_state
  start_key_ceremony_transaction candidate encoded = do
    active ← read (λ s. find (λ (c : Ceremony). is_open c.state) s.ceremonies)
    displace now active
    found ← read (λ s. s.key_state)
    state ← lift (expected_state candidate.expected_generation found)
    wrappers ← read (λ s. s.wrappers)
    lift (validate_candidate_state lib state candidate wrappers)
    let c = new_ceremony fresh now user session_id candidate (lib.sha256 encoded)
    save_ceremony c
    pure c

  unfoldable pub start_key_ceremony : KeyCeremonyPayload → (encoded : Bytes) → Transaction Ceremony
  unfolding start_key_ceremony_transaction
  start_key_ceremony candidate encoded =
      assert_key_operator user >> transaction (start_key_ceremony_transaction candidate encoded)
