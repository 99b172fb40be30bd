-- ===== src/Envelope/Scalar.antt =====
-- `scalarEnvelopeClientEpochId` and `validateScalarEnvelope`
-- (backend/src/e2ee/scalar-envelope-validator.ts).
pub mod Fields
pub mod Reading
use elderflow.Shared.{
  ℕ, ◌+◌, Bool, true, false, ◌&&◌, ◌||◌, Option, none, some, List, [], ◌∷◌, ◌++◌, ◌==◌, leb,
  if◌then◌else◌, length,
}
use elderflow.Shared.Sets.{contains}
use elderflow.Shared.Errors.{
  Result, ok, err, bad_request, e2ee_envelope_invalid, e2ee_format_unsupported,
  e2ee_envelope_context_invalid, ◌>>=◌, ◌>>◌, require, or_throw,
}
use elderflow.Envelope.Values.{
  Bytes, Value, Items, number, bytes, array, at, items_of, arr, same_bytes, read_from, drop, take,
  max_safe_integer, Libraries, signature_domain,
}
use elderflow.Envelope.Readers.{
  must, any_bytes, exact_bytes, integer_in, array_of, is_number, is_array,
}

pub record ScalarFieldContext : Type 0 where
  pub aggregate_type : ℕ
  pub record_id : Bytes
  pub field_id : ℕ

pub record ExpectedScalarEnvelope : Type 0 where
  pub context : ScalarFieldContext
  pub organization_id : Bytes
  pub ock_id : Bytes
  pub client_epoch_id : Bytes
  pub nonce_prefix : Bytes
  pub signing_public_key : Bytes

pub record ScalarEnvelopeMetadata : Type 0 where
  pub client_epoch_id : Bytes
  pub write_counter : ℕ
  pub ciphertext_length : ℕ
  pub fingerprint : Bytes

-- What an envelope holds besides its format, kind and suite.
pub record ScalarEnvelope : Type 0 where
  pub organization_id : Bytes
  pub aggregate_type : ℕ
  pub record_id : Bytes
  pub field_id : ℕ
  pub ock_id : Bytes
  pub client_epoch_id : Bytes
  pub write_counter : ℕ
  pub nonce : Bytes
  pub ciphertext : Bytes
  pub signature : Bytes

abbrev pub signed_value : Items → Bytes → Value
signed_value header ciphertext =
    arr (number 1 ∷ number 4 ∷ number 1 ∷ array header ∷ bytes ciphertext ∷ [])

abbrev pub context_invalid : Bool → Result (Unit {0})
context_invalid test = require test bad_request e2ee_envelope_context_invalid

-- `CIPHERTEXT_LENGTHS`.
abbrev pub ciphertext_lengths : List ℕ
ciphertext_lengths = 272 ∷ 1040 ∷ 4112 ∷ 16400 ∷ 65552 ∷ 262160 ∷ 1048592 ∷ []

module _ (lib : Libraries) where
  unfoldable pub scalar_envelope_client_epoch_id : Bytes → Result Bytes
  scalar_envelope_client_epoch_id encoded = do
    envelope ← or_throw (lib.decode encoded) bad_request e2ee_envelope_invalid
    parts ← array_of 6 envelope
    header ← array_of 8 (at parts 3)
    exact_bytes 16 (at header 5)

  -- The format, up to the test that the bytes are what the encoder writes.
  unfoldable pub open_scalar : Bytes → Result (Items × Items)
  open_scalar encoded = do
    must (leb 256 (length encoded) && leb (length encoded) 1050000)
    envelope ← or_throw (lib.decode encoded) bad_request e2ee_envelope_invalid
    parts ← array_of 6 envelope
    require (is_number 1 (at parts 0)) bad_request e2ee_format_unsupported
    must (is_number 4 (at parts 1) && is_number 1 (at parts 2) && is_array (at parts 3))
    must (same_bytes (lib.encode envelope) encoded)
    header ← array_of 8 (at parts 3)
    ok (parts, header)

-- The fields, in the order in which they are read.
unfoldable pub scalar_fields : Items → Items → Result ScalarEnvelope
scalar_fields parts header = do
  organization_id ← exact_bytes 16 (at header 0)
  aggregate_type ← integer_in 256 65535 (at header 1)
  record_id ← exact_bytes 16 (at header 2)
  field_id ← integer_in 1 65535 (at header 3)
  ock_id ← exact_bytes 16 (at header 4)
  client_epoch_id ← exact_bytes 16 (at header 5)
  write_counter ← integer_in 1 max_safe_integer (at header 6)
  nonce ← exact_bytes 24 (at header 7)
  ciphertext ← any_bytes (at parts 4)
  signature ← exact_bytes 64 (at parts 5)
  ok (record {
    organization_id = organization_id;
    aggregate_type = aggregate_type;
    record_id = record_id;
    field_id = field_id;
    ock_id = ock_id;
    client_epoch_id = client_epoch_id;
    write_counter = write_counter;
    nonce = nonce;
    ciphertext = ciphertext;
    signature = signature;
  })

abbrev pub in_context : ExpectedScalarEnvelope → ScalarEnvelope → Bool
in_context expected e =
    same_bytes e.organization_id expected.organization_id
    && e.aggregate_type == expected.context.aggregate_type
    && same_bytes e.record_id expected.context.record_id
    && e.field_id == expected.context.field_id
    && same_bytes e.ock_id expected.ock_id
    && same_bytes e.client_epoch_id expected.client_epoch_id

module _ (lib : Libraries) where
  unfoldable pub check_scalar : ExpectedScalarEnvelope → Items → ScalarEnvelope → Result (Unit {0})
  check_scalar expected header e = do
    context_invalid (in_context expected e)
    context_invalid (same_bytes (take 16 e.nonce) expected.nonce_prefix)
    must (read_from 0 (drop 16 e.nonce) == e.write_counter)
    must (contains (length e.ciphertext) ciphertext_lengths)
    must (
        lib.verify e.signature (signature_domain ++ lib.encode (signed_value header e.ciphertext))
          expected.signing_public_key)

  unfoldable pub validate_scalar_envelope :
      Bytes → ExpectedScalarEnvelope → Result ScalarEnvelopeMetadata
  unfolding open_scalar check_scalar
  validate_scalar_envelope encoded expected = do
    (parts, header) ← open_scalar lib encoded
    e ← scalar_fields parts header
    check_scalar expected header e
    ok (record {
      client_epoch_id = e.client_epoch_id;
      write_counter = e.write_counter;
      ciphertext_length = length e.ciphertext;
      fingerprint = lib.sha256 encoded;
    })
