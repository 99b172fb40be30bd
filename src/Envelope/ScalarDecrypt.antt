-- ===== src/Envelope/ScalarDecrypt.antt =====
-- `decryptScalar` (frontend/src/e2ee/scalar-codec.ts), which reads what `encryptScalar` wrote.
use elderflow.Shared.{
  ℕ, Bool, ◌&&◌, Option, none, some, [], ◌∷◌, ◌++◌, ◌==◌, leb, if◌then◌else◌, length,
}
use elderflow.Shared.Sets.{contains}
use elderflow.Shared.Options.{◌>>=◌, ◌>>◌, assert}
use elderflow.Envelope.Values.{
  Bytes, Value, Text, Items, number, bytes, view, buffer, array, nil, cons, size, at, same_bytes,
  read_from, drop, max_safe_integer, Libraries, signature_domain,
}
use elderflow.Envelope.Readers.{is_number, is_array}
use elderflow.Envelope.Scalar.{signed_value}
use elderflow.Envelope.ScalarCodec.{
  ScalarContext, DecryptScalarInput, padding_buckets, has_length, assert_context, scalar_key,
  authenticated_value,
}

-- `bytes` of the frontend takes views, an `ArrayBuffer` and also an array of bytes.
unfoldable pub byte_items : Items → Option Bytes
byte_items nil = some []
byte_items (cons (number b) items) =
    byte_items items >>= λ rest. if leb b 255 then some (b ∷ rest) else none
byte_items (cons _ items) = none

unfoldable pub read_bytes : Value → Option Bytes
unfolding byte_items
read_bytes (bytes b) = some b
read_bytes (view kind b) = some b
read_bytes (buffer b) = some b
read_bytes (array items) = byte_items items
read_bytes _ = none

abbrev pub read_exact : ℕ → Value → Option Bytes
read_exact n v = read_bytes v >>= λ b. assert (has_length n b) >> some b

unfoldable pub read_integer : ℕ → ℕ → Value → Option ℕ
read_integer low high (number n) = assert (leb low n && leb n high) >> some n
read_integer low high _ = none

unfoldable pub read_array : ℕ → Value → Option Items
read_array n (array items) = assert (size items == n) >> some items
read_array n _ = none

-- The value of a decoded plaintext: `none` inside stands for null.
abbrev pub value_of : Libraries → Value → Bytes → Option (Option Text)
value_of lib state value =
    if is_number 0 state
    then (assert (has_length 0 value) >> some none)
    else (assert (is_number 1 state) >> lib.text_decode value >>= λ t. some (some t))

unfoldable pub scalar_of : Libraries → Value → Option (Option Text)
unfolding read_array read_bytes
scalar_of lib v = do
  scalar ← read_array 4 v
  assert (is_number 1 (at scalar 0))
  value ← read_bytes (at scalar 2)
  padding ← read_bytes (at scalar 3)
  value_of lib (at scalar 1) value

-- The header's fields that `decryptScalar` compares, and the nonce.
pub record HeaderFields : Type 0 where
  pub organization_id : Bytes
  pub aggregate_type : ℕ
  pub record_id : Bytes
  pub field_id : ℕ
  pub ock_id : Bytes
  pub nonce : Bytes

unfoldable pub header_fields : Items → Option HeaderFields
unfolding read_bytes read_integer
header_fields header = do
  organization_id ← read_exact 16 (at header 0)
  aggregate_type ← read_integer 256 65535 (at header 1)
  record_id ← read_exact 16 (at header 2)
  field_id ← read_integer 1 65535 (at header 3)
  ock_id ← read_exact 16 (at header 4)
  client_epoch_id ← read_exact 16 (at header 5)
  write_counter ← read_integer 1 max_safe_integer (at header 6)
  nonce ← read_exact 24 (at header 7)
  assert (read_from 0 (drop 16 nonce) == write_counter)
  some (record {
    organization_id = organization_id;
    aggregate_type = aggregate_type;
    record_id = record_id;
    field_id = field_id;
    ock_id = ock_id;
    nonce = nonce;
  })

abbrev pub matches : ScalarContext → HeaderFields → Bool
matches c h =
    same_bytes h.organization_id c.organization_id
    && h.aggregate_type == c.field.aggregate_type
    && same_bytes h.record_id c.field.record_id
    && h.field_id == c.field.field_id
    && same_bytes h.ock_id c.ock_id

module _ (lib : Libraries) where
  -- The decoded envelope and its header, canonically encoded.
  unfoldable pub open_envelope : Bytes → Option (Items × Items)
  unfolding read_array
  open_envelope envelope = do
    value ← lib.decode envelope
    parts ← read_array 6 value
    assert (
        is_number 1 (at parts 0)
        && is_number 4 (at parts 1)
        && is_number 1 (at parts 2)
        && is_array (at parts 3))
    assert (same_bytes (lib.encode value) envelope)
    header ← read_array 8 (at parts 3)
    some (parts, header)

  -- Without a public key the signature is not looked at.
  unfoldable pub check_signature :
      Option Bytes → Items → (ciphertext signature : Bytes) → Option (Unit {0})
  check_signature none header ciphertext signature = some tt
  check_signature (some public_key) header ciphertext signature =
      assert (has_length 32 public_key)
      >> assert (
          lib.verify signature (signature_domain ++ lib.encode (signed_value header ciphertext))
            public_key)

  unfoldable pub decrypt_scalar : DecryptScalarInput → Option (Option Text)
  unfolding open_envelope header_fields check_signature scalar_of
  decrypt_scalar input = do
    assert_context input.context
    assert (has_length 32 input.content_key)
    (parts, header) ← open_envelope input.envelope
    h ← header_fields header
    assert (matches input.context h)
    ciphertext ← read_bytes (at parts 4)
    signature ← read_exact 64 (at parts 5)
    check_signature input.signing_public_key header ciphertext signature
    plaintext ←
        lib.open_sealed ciphertext (lib.encode (authenticated_value header)) h.nonce
          (scalar_key lib input.content_key input.context)
    assert (contains (length plaintext) padding_buckets)
    scalar ← lib.decode plaintext
    scalar_of lib scalar
