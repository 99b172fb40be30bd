-- ===== src/Ceremony/KeyEnvelope.antt =====
-- `validateKeyEnvelope` (backend/src/e2ee/envelope-validator.ts).
use elderflow.Shared.{ℕ, Bool, true, false, ◌&&◌, ◌==◌, leb, length, if◌then◌else◌}
use elderflow.Shared.Errors.{
  Result, ok, bad_request, e2ee_envelope_invalid, e2ee_format_unsupported, e2ee_suite_unsupported,
  ◌>>=◌, ◌>>◌, require, or_throw,
}
use elderflow.Envelope.Values.{
  Bytes, Value, Items, number, bytes, null, array, nil, size, at, same_bytes, Libraries,
}
use elderflow.Envelope.Readers.{invalid, must, array_of, is_number, is_array}

pub record KeyEnvelopeMetadata : Type 0 where
  pub organization_id : Bytes
  pub primary_key_id : Bytes
  pub wrapped_key_id : Bytes

-- The slot of the passphrase, that of the recovery secret, and the wrapper of the content key.
pub data EnvelopeKind : Type 0 where
  passphrase_slot recovery_slot content_key_wrapper : EnvelopeKind

abbrev pub number_of : EnvelopeKind → ℕ
number_of passphrase_slot = 1
number_of recovery_slot = 2
number_of content_key_wrapper = 3

abbrev pub is_null : Value → Bool
is_null null = true
is_null _ = false

abbrev pub elements : Value → Items
elements (array items) = items
elements _ = nil

-- `bytes(value, length)` of this file takes a `Uint8Array` only.
unfoldable pub array_bytes : ℕ → Value → Result Bytes
array_bytes n (bytes b) = if length b == n then ok b else invalid
array_bytes n _ = invalid

-- `Number.isInteger(value) && value >= 1`.
abbrev pub is_positive : Value → Bool
is_positive (number n) = leb 1 n
is_positive _ = false

unfoldable pub check_header : EnvelopeKind → Items → Result (Unit {0})
check_header passphrase_slot header = do
  must (
      size header == 8
      && is_number 1 (at header 3)
      && is_number 3 (at header 4)
      && is_number 67108864 (at header 5))
  salt ← array_bytes 16 (at header 6)
  nonce ← array_bytes 24 (at header 7)
  ok tt
check_header recovery_slot header = do
  must (size header == 5 && is_number 1 (at header 3))
  nonce ← array_bytes 24 (at header 4)
  ok tt
check_header content_key_wrapper header = do
  must (size header == 5 && is_positive (at header 3))
  nonce ← array_bytes 24 (at header 4)
  ok tt

unfoldable pub validate_key_envelope : Libraries → Bytes → EnvelopeKind → Result KeyEnvelopeMetadata
unfolding check_header
validate_key_envelope lib encoded kind = do
  envelope ← or_throw (lib.decode encoded) bad_request e2ee_envelope_invalid
  parts ← array_of 6 envelope
  require (is_number 1 (at parts 0)) bad_request e2ee_format_unsupported
  require (is_number 1 (at parts 2)) bad_request e2ee_suite_unsupported
  must (is_number (number_of kind) (at parts 1) && is_null (at parts 5) && is_array (at parts 3))
  let header = elements (at parts 3)
  ciphertext ← array_bytes 48 (at parts 4)
  must (same_bytes (lib.encode envelope) encoded)
  check_header kind header
  organization_id ← array_bytes 16 (at header 0)
  primary_key_id ← array_bytes 16 (at header 1)
  wrapped_key_id ← array_bytes 16 (at header 2)
  ok (record {
    organization_id = organization_id;
    primary_key_id = primary_key_id;
    wrapped_key_id = wrapped_key_id;
  })
