-- ===== src/Writes/Accepted.antt =====
-- The service commits what the frontend encrypts: `encryptScalar` (frontend/src/e2ee/scalar-codec.ts)
-- before `validateWrite` (backend/src/e2ee/e2ee-scalar.service.ts).
use elderflow.Shared.{
  ℕ, ◌≡◌, refl, ap, ◌∙◌, true, false, ◌&&◌, Option, none, some, [], ◌∷◌, ◌++◌, leb, length, find,
}
use elderflow.Shared.Errors.{ok, service_unavailable, e2ee_not_configured, or_throw}
use elderflow.Access.Policy.{is_e2ee_key_operator}
use elderflow.Envelope.Values.{
  Bytes, number, bytes, array, arr, same_bytes, Libraries, AreCorrect, signature_domain,
}
use elderflow.Envelope.Readers.{array_of, exact_bytes}
use elderflow.Envelope.Scalar.{
  ExpectedScalarEnvelope, ScalarEnvelopeMetadata, signed_value, scalar_envelope_client_epoch_id,
  validate_scalar_envelope,
}
use elderflow.Envelope.ScalarCodec.{
  EncryptScalarInput, scalar_key, nonce_of, scalar_header, authenticated_value, sealed_scalar,
  encrypt_scalar,
}
use elderflow.Envelope.RoundTrip.Encrypted.{IsEncrypted, encrypt_scalar-IsEncrypted}
use elderflow.Envelope.RoundTrip.Decrypted.{ArePair}
use elderflow.Envelope.RoundTrip.Accepted.{expected_of, validate_scalar_envelope-encrypt_scalar}
use elderflow.Ceremony.State.{KeyState, ClientEpoch, User}
use elderflow.Writes.Service.{
  Tables, ScalarWrite, is_usable, expected_envelope, is_write, next_revision, new_write, commit,
  validate_write,
}

-- The epoch that an encrypted envelope names.
client_epoch_id-encrypt_scalar :
    (lib : Libraries) (input : EncryptScalarInput) (envelope : Bytes)
    → AreCorrect lib
    → IsEncrypted lib input envelope
    → scalar_envelope_client_epoch_id lib envelope ≡ ok input.client_epoch_id
unfolding scalar_envelope_client_epoch_id sealed_scalar array_of exact_bytes
client_epoch_id-encrypt_scalar lib input envelope correct h =
    let header = scalar_header input in
    let ciphertext =
      lib.seal h.plaintext (lib.encode (authenticated_value header))
        (nonce_of input.nonce_prefix input.write_counter)
        (scalar_key lib input.content_key input.context) in
    let signature =
      lib.sign (signature_domain ++ lib.encode (signed_value header ciphertext))
        input.signing_private_key in
    let sealed =
      arr
        (number 1 ∷ number 4 ∷ number 1 ∷ array header ∷ bytes ciphertext ∷ bytes signature ∷ []) in
    rw (h.written, correct.decode-encode sealed refl, h.epoch)

-- The keys, the epoch and the counter that the frontend wrote with.
pub record IsCurrent (now : ℕ) (user : User) (input : EncryptScalarInput) (public_key : Bytes)
    (t : Tables) : Type 0 where
  pub state : KeyState
  pub epoch : ClientEpoch
  pub keys : t.key_state ≡ some state
  pub at_epoch :
      find (λ (e : ClientEpoch). same_bytes e.id input.client_epoch_id) t.epochs ≡ some epoch
  pub usable : is_usable now user epoch ≡ true
  pub expected :
      expected_envelope input.context.field state epoch input.client_epoch_id
      ≡ expected_of input public_key
  pub unused :
      find (is_write input.client_epoch_id input.context.field input.write_counter) t.writes ≡ none

-- An operator's envelope that the frontend encrypted with the current keys, its own epoch and a
-- counter that is not used yet is committed as the next revision, when its length is within the
-- bounds of the format.
pub validate_write-encrypt_scalar :
    (lib : Libraries) (now : ℕ) (user : User) (input : EncryptScalarInput)
    (envelope public_key : Bytes) (current_revision : Option ℕ) (t : Tables)
    → AreCorrect lib
    → ArePair lib input.signing_private_key public_key
    → (leb 256 (length envelope) && leb (length envelope) 1050000) ≡ true
    → encrypt_scalar lib input ≡ some envelope
    → is_e2ee_key_operator user.role ≡ true
    → IsCurrent now user input public_key t
    → (row : ScalarWrite) × (validate_write lib now user input.context.field
          (some envelope)
          current_revision
          t
        ≡ ok (
          record {
            envelope = envelope;
            commit_revision = next_revision current_revision;
            duplicate = false;
          },
          record t { writes = t.writes ++ row ∷ [] },
        ))
unfolding validate_write commit
validate_write-encrypt_scalar lib now user input envelope public_key current_revision t correct pair
      ranged encrypted operator c =
    let h = encrypt_scalar-IsEncrypted lib input envelope encrypted in
    let (n, padded, accepted) =
      validate_scalar_envelope-encrypt_scalar lib input envelope public_key correct pair ranged
        encrypted in
    let keys =
      ap (λ (state : Option KeyState). or_throw state service_unavailable e2ee_not_configured)
        c.keys in
    let valid =
      ap (λ (x : ExpectedScalarEnvelope). validate_scalar_envelope lib envelope x) c.expected
      ∙ accepted in
    let metadata : ScalarEnvelopeMetadata = record {
      client_epoch_id = input.client_epoch_id;
      write_counter = input.write_counter;
      ciphertext_length = n;
      fingerprint = lib.sha256 envelope;
    } in
    (
      new_write input.client_epoch_id input.context.field metadata (next_revision current_revision),
      rw (
        operator,
        ranged,
        client_epoch_id-encrypt_scalar lib input envelope correct h,
        keys,
        c.at_epoch,
        c.usable,
        valid,
        c.unused,
      ),
    )
