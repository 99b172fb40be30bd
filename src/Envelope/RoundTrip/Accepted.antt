-- ===== src/Envelope/RoundTrip/Accepted.antt =====
-- The backend accepts what the frontend encrypts: `encryptScalar`
-- (frontend/src/e2ee/scalar-codec.ts) before `validateScalarEnvelope`
-- (backend/src/e2ee/scalar-envelope-validator.ts).
use elderflow.Shared.{
  ℕ, ◌+◌, ◌≡◌, refl, sym, subst, arith, true, ◌&&◌, some, List, [], ◌∷◌, ◌++◌, ==_refl, leb, length,
}
use elderflow.Shared.Sets.{contains}
use elderflow.Shared.Errors.{ok}
use elderflow.Envelope.Values.{
  Bytes, Value, number, bytes, array, items_of, arr, Libraries, AreCorrect, signature_domain,
}
use elderflow.Envelope.Readers.{
  is_number, is_array, array_of, exact_bytes, integer_in, any_bytes, same_bytes_refl,
}
use elderflow.Envelope.Scalar.{
  ScalarEnvelope, ExpectedScalarEnvelope, signed_value, ciphertext_lengths, open_scalar,
  scalar_fields, check_scalar, validate_scalar_envelope,
}
use elderflow.Envelope.ScalarCodec.{
  EncryptScalarInput, padding_buckets, scalar_key, nonce_of, scalar_header, authenticated_value,
  sealed_scalar, encrypt_scalar,
}
use elderflow.Envelope.RoundTrip.Padding.{padded_plaintext-IsPadded}
use elderflow.Envelope.RoundTrip.Encrypted.{
  IsEncrypted, encrypt_scalar-IsEncrypted, length-nonce_of, read_from-nonce_of, take-nonce_of,
}
use elderflow.Envelope.RoundTrip.Decrypted.{ArePair, below, same_number}

padded_ciphertext :
    (n : ℕ) → contains n padding_buckets ≡ true → contains (n + 16) ciphertext_lengths ≡ true
unfolding contains
padded_ciphertext n h = ground arith

-- What the backend expects of an envelope of this input.
abbrev pub expected_of : EncryptScalarInput → Bytes → ExpectedScalarEnvelope
expected_of input public_key = record {
  context = input.context.field;
  organization_id = input.context.organization_id;
  ock_id = input.context.ock_id;
  client_epoch_id = input.client_epoch_id;
  nonce_prefix = input.nonce_prefix;
  signing_public_key = public_key;
}

abbrev written_envelope : EncryptScalarInput → (ciphertext signature : Bytes) → ScalarEnvelope
written_envelope input ciphertext signature = record {
  organization_id = input.context.organization_id;
  aggregate_type = input.context.field.aggregate_type;
  record_id = input.context.field.record_id;
  field_id = input.context.field.field_id;
  ock_id = input.context.ock_id;
  client_epoch_id = input.client_epoch_id;
  write_counter = input.write_counter;
  nonce = nonce_of input.nonce_prefix input.write_counter;
  ciphertext = ciphertext;
  signature = signature;
}

abbrev written_parts : EncryptScalarInput → (ciphertext signature : Bytes) → List Value
written_parts input ciphertext signature =
    number 1
    ∷ number 4
    ∷ number 1
    ∷ array (scalar_header input)
    ∷ bytes ciphertext
    ∷ bytes signature
    ∷ []

module _ (lib : Libraries) (input : EncryptScalarInput) (envelope : Bytes)
    (h : IsEncrypted lib input envelope) (ciphertext signature : Bytes) where
  open_scalar-written :
      AreCorrect lib
      → let encoded = lib.encode (arr (written_parts input ciphertext signature)) in
        (leb 256 (length encoded) && leb (length encoded) 1050000) ≡ true
        → open_scalar lib encoded
          ≡ ok (items_of (written_parts input ciphertext signature), scalar_header input)
  unfolding open_scalar array_of is_number is_array
  open_scalar-written correct ranged =
      let parts = arr (written_parts input ciphertext signature) in
      rw (ranged, correct.decode-encode parts refl, same_bytes_refl (lib.encode parts))

  scalar_fields-written :
      length signature ≡ 64
      → scalar_fields (items_of (written_parts input ciphertext signature)) (scalar_header input)
        ≡ ok (written_envelope input ciphertext signature)
  unfolding scalar_fields exact_bytes integer_in any_bytes
  scalar_fields-written signed =
      let c = h.context in
      rw (
        c.organization,
        c.aggregate,
        c.record_length,
        c.field,
        c.ock,
        h.epoch,
        h.counter,
        same_number _ 24 (length-nonce_of input.nonce_prefix input.write_counter h.prefix),
        same_number _ 64 signed,
      )

  check_scalar-written :
      (public_key : Bytes)
      → contains (length ciphertext) ciphertext_lengths ≡ true
      → lib.verify signature
          (signature_domain ++ lib.encode (signed_value (scalar_header input) ciphertext))
          public_key
        ≡ true
      → check_scalar lib
          (expected_of input public_key)
          (scalar_header input)
          (written_envelope input ciphertext signature)
        ≡ ok tt
  unfolding check_scalar
  check_scalar-written public_key padded verified =
      let c = input.context in
      let small = below input.write_counter h.counter in
      rw (
        same_bytes_refl c.organization_id,
        ==_refl c.field.aggregate_type,
        same_bytes_refl c.field.record_id,
        ==_refl c.field.field_id,
        same_bytes_refl c.ock_id,
        same_bytes_refl input.client_epoch_id,
        take-nonce_of input.nonce_prefix input.write_counter h.prefix,
        same_bytes_refl input.nonce_prefix,
        same_number _ _ (read_from-nonce_of input.nonce_prefix input.write_counter h.prefix small),
        padded,
        verified,
      )

-- The backend accepts an envelope that the frontend encrypted for the expected record, field and
-- keys, provided that its length is within the bounds of the format: it reports the epoch and the
-- counter that the frontend used.
pub validate_scalar_envelope-encrypt_scalar :
    (lib : Libraries) (input : EncryptScalarInput) (envelope public_key : Bytes)
    → AreCorrect lib
    → ArePair lib input.signing_private_key public_key
    → (leb 256 (length envelope) && leb (length envelope) 1050000) ≡ true
    → encrypt_scalar lib input ≡ some envelope
    → (n : ℕ) × (contains n ciphertext_lengths ≡ true)
      × (validate_scalar_envelope lib envelope (expected_of input public_key)
          ≡ ok (record {
            client_epoch_id = input.client_epoch_id;
            write_counter = input.write_counter;
            ciphertext_length = n;
            fingerprint = lib.sha256 envelope;
          }))
unfolding validate_scalar_envelope sealed_scalar
validate_scalar_envelope-encrypt_scalar lib input envelope public_key correct pair ranged
      encrypted =
    let h = encrypt_scalar-IsEncrypted lib input envelope encrypted in
    let p = padded_plaintext-IsPadded lib correct _ _ _ h.plaintext h.padded in
    let header = scalar_header input in
    let authenticated = lib.encode (authenticated_value header) in
    let nonce = nonce_of input.nonce_prefix input.write_counter in
    let key = scalar_key lib input.content_key input.context in
    let ciphertext = lib.seal h.plaintext authenticated nonce key in
    let message = signature_domain ++ lib.encode (signed_value header ciphertext) in
    let signature = lib.sign message input.signing_private_key in
    let long = correct.length-seal h.plaintext authenticated nonce key in
    let padded =
      subst (λ n. contains n ciphertext_lengths ≡ true) (sym long)
        (padded_ciphertext (length h.plaintext) p.fills) in
    let in_bounds =
      subst (λ (e : Bytes). (leb 256 (length e) && leb (length e) 1050000) ≡ true) h.written
        ranged in
    (
      length ciphertext,
      padded,
      rw (
        h.written,
        open_scalar-written lib input envelope h ciphertext signature correct in_bounds,
        scalar_fields-written lib input envelope h ciphertext signature
            (correct.length-sign message input.signing_private_key),
        check_scalar-written lib input envelope h ciphertext signature public_key padded
            (pair.1 message),
      ),
    )
