-- ===== src/Writes/Service.antt =====
-- `assertContentUser` and `validateWrite` (backend/src/e2ee/e2ee-scalar.service.ts). A text in base64
-- is the bytes that it holds, `none` where it is not in the normal form; `now` is the current time.
use elderflow.Shared.{
  ℕ, ◌+◌, Bool, true, false, ◌&&◌, Option, none, some, List, [], ◌∷◌, ◌++◌, ◌==◌, leb, length, find,
}
use elderflow.Shared.Errors.{
  Result, ok, bad_request, forbidden, conflict, service_unavailable,
  e2ee_protected_ciphertext_forbidden, e2ee_envelope_invalid, e2ee_not_configured,
  e2ee_client_epoch_invalid, e2ee_counter_reuse, ◌>>=◌, ◌>>◌, require, or_throw,
}
use elderflow.Access.Policy.{is_e2ee_key_operator}
use elderflow.Envelope.Values.{Bytes, same_bytes, Libraries}
use elderflow.Envelope.Scalar.{
  ScalarFieldContext, ExpectedScalarEnvelope, ScalarEnvelopeMetadata,
  scalar_envelope_client_epoch_id, validate_scalar_envelope,
}
use elderflow.Ceremony.State.{KeyState, ClientEpoch, User}

pub record ScalarWrite : Type 0 where
  pub client_epoch_id : Bytes
  pub record_id : Bytes
  pub field_id : ℕ
  pub write_counter : ℕ
  pub aggregate_type : ℕ
  pub envelope_fingerprint : Bytes
  pub commit_revision : ℕ

-- What the manager reads, and the writes that it saves.
pub record Tables : Type 0 where
  pub key_state : Option KeyState
  pub epochs : List ClientEpoch
  pub writes : List ScalarWrite

pub record ValidatedScalarWrite : Type 0 where
  pub envelope : Bytes
  pub commit_revision : ℕ
  pub duplicate : Bool

-- `isClientEpochWritable`.
abbrev pub is_client_epoch_writable : ℕ → Option ℕ → Option ℕ → Bool
is_client_epoch_writable now none grace = true
is_client_epoch_writable now (some revoked_at) none = false
is_client_epoch_writable now (some revoked_at) (some until) = leb now until

abbrev pub is_usable : ℕ → User → ClientEpoch → Bool
is_usable now user e =
    is_client_epoch_writable now e.revoked_at e.write_grace_until && e.user_id == user.id

abbrev pub decode_envelope : Option Bytes → Result Bytes
decode_envelope value = do
  decoded ← or_throw value bad_request e2ee_envelope_invalid
  require (leb 256 (length decoded) && leb (length decoded) 1050000) bad_request
      e2ee_envelope_invalid
  ok decoded

abbrev pub expected_envelope :
    ScalarFieldContext → KeyState → ClientEpoch → Bytes → ExpectedScalarEnvelope
expected_envelope context state epoch client_epoch_id = record {
  context = context;
  organization_id = state.organization_id;
  ock_id = state.ock_id;
  client_epoch_id = client_epoch_id;
  nonce_prefix = epoch.nonce_prefix;
  signing_public_key = epoch.signing_public_key;
}

-- The key under which a write is stored.
abbrev pub is_write : Bytes → ScalarFieldContext → ℕ → ScalarWrite → Bool
is_write client_epoch_id context write_counter w =
    same_bytes w.client_epoch_id client_epoch_id
    && same_bytes w.record_id context.record_id
    && w.field_id == context.field_id
    && w.write_counter == write_counter

abbrev pub next_revision : Option ℕ → ℕ
next_revision none = 1
next_revision (some current) = current + 1

abbrev pub new_write :
    Bytes → ScalarFieldContext → ScalarEnvelopeMetadata → (commit_revision : ℕ) → ScalarWrite
new_write client_epoch_id context metadata commit_revision = record {
  client_epoch_id = client_epoch_id;
  record_id = context.record_id;
  field_id = context.field_id;
  write_counter = metadata.write_counter;
  aggregate_type = context.aggregate_type;
  envelope_fingerprint = metadata.fingerprint;
  commit_revision = commit_revision;
}

-- A write that is there already, or a new one.
unfoldable pub commit :
    (client_epoch_id : Bytes)
    → ScalarFieldContext
    → Bytes
    → (current_revision : Option ℕ) → ScalarEnvelopeMetadata
    → Tables
    → Option ScalarWrite
    → Result (ValidatedScalarWrite × Tables)
commit client_epoch_id context envelope current_revision metadata t (some existing) = do
  require (same_bytes existing.envelope_fingerprint metadata.fingerprint) conflict
      e2ee_counter_reuse
  ok (
    record { envelope = envelope; commit_revision = existing.commit_revision; duplicate = true },
    t,
  )
commit client_epoch_id context envelope current_revision metadata t none = ok (
  record {
    envelope = envelope;
    commit_revision = next_revision current_revision;
    duplicate = false;
  },
  record t {
    writes =
        t.writes
        ++ new_write client_epoch_id context metadata (next_revision current_revision) ∷ [];
  },
)

module _ (lib : Libraries) (now : ℕ) (user : User) (context : ScalarFieldContext) where
  unfoldable pub validate_write :
      (encoded_envelope : Option Bytes) (current_revision : Option ℕ)
      → Tables
      → Result (ValidatedScalarWrite × Tables)
  unfolding commit
  validate_write encoded_envelope current_revision t = do
    require (is_e2ee_key_operator user.role) forbidden e2ee_protected_ciphertext_forbidden
    envelope ← decode_envelope encoded_envelope
    client_epoch_id ← scalar_envelope_client_epoch_id lib envelope
    state ← or_throw t.key_state service_unavailable e2ee_not_configured
    epoch ←
        or_throw (find (λ (e : ClientEpoch). same_bytes e.id client_epoch_id) t.epochs) conflict
          e2ee_client_epoch_invalid
    require (is_usable now user epoch) conflict e2ee_client_epoch_invalid
    metadata ←
        validate_scalar_envelope lib envelope
          (expected_envelope context state epoch client_epoch_id)
    commit client_epoch_id context envelope current_revision metadata t
        (find (is_write client_epoch_id context metadata.write_counter) t.writes)
