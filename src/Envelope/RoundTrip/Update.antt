-- ===== src/Envelope/RoundTrip/Update.antt =====
-- An update of a meeting's document that the frontend encrypts
-- (frontend/src/e2ee/meeting-document-codec.ts) is one that the backend accepts
-- (backend/src/e2ee/meeting-document-envelope-validator.ts) and that the frontend opens.
use elderflow.Shared.{
  ℕ, ◌+◌, ◌≡◌, refl, sym, subst, arith, true, ◌&&◌, some, [], ◌∷◌, ◌++◌, ==_refl, leb, length,
}
use elderflow.Shared.Errors.{ok}
use elderflow.Envelope.Values.{
  Bytes, Value, Items, number, bytes, array, arr, Libraries, AreCorrect, signature_domain,
}
use elderflow.Envelope.Readers.{
  is_number, is_array, array_of, exact_bytes, integer_in, any_bytes, same_bytes_refl,
}
use elderflow.Envelope.ScalarDecrypt.{read_array}
use elderflow.Envelope.Update.{
  ExpectedMeetingUpdateEnvelope, signed_update, open_update, update_fields, check_update,
  validate_meeting_update_envelope,
}
use elderflow.Envelope.UpdateCodec.{
  CreateMeetingUpdateInput, view_bytes, any_view, update_header, same_integer, same_header,
  authenticated_update, meeting_key, sealed_update, create_encrypted_meeting_update,
  decrypted_meeting_update,
}
use elderflow.Envelope.RoundTrip.Encrypted.{length-nonce_of, take-nonce_of}
use elderflow.Envelope.RoundTrip.Decrypted.{ArePair, same_number}
use elderflow.Envelope.RoundTrip.Created.{update_items, nonce_for, IsCreated, create-IsCreated}

sealed_bounds :
    (n : ℕ) → (leb 1 n && leb n 1048576) ≡ true → (leb 17 (n + 16) && leb (n + 16) 1048592) ≡ true
sealed_bounds n h = ground arith

abbrev pub expected_update : CreateMeetingUpdateInput → Bytes → ExpectedMeetingUpdateEnvelope
expected_update input public_key = record {
  organization_id = input.context.organization_id;
  document_id = input.context.document_id;
  active_snapshot_id = input.context.active_snapshot_id;
  ock_id = input.context.ock_id;
  client_epoch_id = input.context.client_epoch_id;
  nonce_prefix = input.nonce_prefix;
  signing_public_key = public_key;
}

module _ (lib : Libraries) (input : CreateMeetingUpdateInput) where
  abbrev header : Items
  header = update_items input.context (nonce_for input)

  abbrev sealed : Bytes
  sealed =
      lib.seal input.update (lib.encode (authenticated_update header)) (nonce_for input)
        (meeting_key lib input.context)

  abbrev message : Bytes
  message = signature_domain ++ lib.encode (signed_update header sealed)

  abbrev signature : Bytes
  signature = lib.sign message input.signing_private_key

  abbrev whole : Value
  whole = arr (number 1 ∷ number 5 ∷ number 1 ∷ array header ∷ bytes sealed ∷ bytes signature ∷ [])

update_header-update_items :
    (lib : Libraries) (input : CreateMeetingUpdateInput) (envelope : Bytes)
    → IsCreated lib input envelope
    → update_header input.context (nonce_for input) ≡ some (header lib input)
unfolding update_header
update_header-update_items lib input envelope h = rw (h.counted, h.identifiers)

same_header_refl :
    (lib : Libraries) (input : CreateMeetingUpdateInput) (envelope : Bytes)
    → IsCreated lib input envelope
    → same_header (header lib input) (header lib input) ≡ true
unfolding same_header view_bytes same_integer
same_header_refl lib input envelope h =
    let c = input.context in
    rw (
      h.organization,
      h.document,
      h.snapshot,
      h.ock,
      h.epoch,
      same_bytes_refl c.organization_id,
      same_bytes_refl c.document_id,
      same_bytes_refl c.active_snapshot_id,
      same_bytes_refl c.ock_id,
      same_bytes_refl c.client_epoch_id,
      ==_refl c.author_clock,
      same_number _ 24 (length-nonce_of input.nonce_prefix c.author_clock h.prefix),
      same_bytes_refl (nonce_for input),
    )

view_bytes-ok : (n : ℕ) (b : Bytes) → length b ≡ n → view_bytes n (bytes b) ≡ some b
unfolding view_bytes
view_bytes-ok n b h = rw (same_number (length b) n h)

-- An update of a meeting's document that the frontend encrypts is opened again, in the same context
-- and with the public key of its epoch, as the bytes that it was.
pub decrypted_meeting_update-create :
    (lib : Libraries) (input : CreateMeetingUpdateInput) (envelope public_key : Bytes)
    → AreCorrect lib
    → ArePair lib input.signing_private_key public_key
    → create_encrypted_meeting_update lib input ≡ some envelope
    → decrypted_meeting_update lib
        (record { context = input.context; signing_public_key = public_key; envelope = envelope })
      ≡ some input.update
unfolding decrypted_meeting_update read_array any_view sealed_update is_number is_array
decrypted_meeting_update-create lib input envelope public_key correct pair created =
    let h = create-IsCreated lib input envelope created in
    let c = input.context in
    let long =
      subst (λ (n : ℕ). (leb 17 n && leb n 1048592) ≡ true)
        (sym (
          correct.length-seal input.update (lib.encode (authenticated_update (header lib input)))
            (nonce_for input) (meeting_key lib c)))
        (sealed_bounds (length input.update) h.bounded) in
    rw (
      h.written,
      h.content_key,
      same_number _ 32 pair.0,
      correct.decode-encode (whole lib input) refl,
      same_bytes_refl (lib.encode (whole lib input)),
      view_bytes-ok 24 (nonce_for input)
          (length-nonce_of input.nonce_prefix c.author_clock h.prefix),
      update_header-update_items lib input envelope h,
      same_header_refl lib input envelope h,
      long,
      view_bytes-ok 64 (signature lib input)
          (correct.length-sign (message lib input) input.signing_private_key),
      pair.1 (message lib input),
      correct.open-seal input.update (lib.encode (authenticated_update (header lib input)))
          (nonce_for input) (meeting_key lib c),
    )

-- The backend accepts an update that the frontend encrypted for the expected document, snapshot and
-- keys, provided that its length is within the bound of the format: it reports the epoch, the author
-- clock and a length that is that of the update and 16 bytes more.
pub validate_meeting_update_envelope-create :
    (lib : Libraries) (input : CreateMeetingUpdateInput) (envelope public_key : Bytes)
    → AreCorrect lib
    → ArePair lib input.signing_private_key public_key
    → leb (length envelope) 1050000 ≡ true
    → create_encrypted_meeting_update lib input ≡ some envelope
    → validate_meeting_update_envelope lib envelope (expected_update input public_key)
      ≡ ok (record {
        client_epoch_id = input.context.client_epoch_id;
        author_clock = input.context.author_clock;
        ciphertext_length = length input.update + 16;
        fingerprint = lib.sha256 envelope;
      })
unfolding validate_meeting_update_envelope open_update update_fields check_update array_of
    exact_bytes integer_in any_bytes sealed_update is_number is_array
validate_meeting_update_envelope-create lib input envelope public_key correct pair ranged created =
    let h = create-IsCreated lib input envelope created in
    let c = input.context in
    let in_bounds = subst (λ (e : Bytes). leb (length e) 1050000 ≡ true) h.written ranged in
    let size_is =
      correct.length-seal input.update (lib.encode (authenticated_update (header lib input)))
        (nonce_for input) (meeting_key lib c) in
    let long =
      subst (λ (n : ℕ). (leb 17 n && leb n 1048592) ≡ true) (sym size_is)
        (sealed_bounds (length input.update) h.bounded) in
    rw (
      h.written,
      in_bounds,
      correct.decode-encode (whole lib input) refl,
      same_bytes_refl (lib.encode (whole lib input)),
      h.organization,
      h.document,
      h.snapshot,
      h.ock,
      h.epoch,
      h.clock,
      same_number _ 24 (length-nonce_of input.nonce_prefix c.author_clock h.prefix),
      same_number _ 64 (correct.length-sign (message lib input) input.signing_private_key),
      same_bytes_refl c.organization_id,
      same_bytes_refl c.document_id,
      same_bytes_refl c.active_snapshot_id,
      same_bytes_refl c.ock_id,
      same_bytes_refl c.client_epoch_id,
      take-nonce_of input.nonce_prefix c.author_clock h.prefix,
      same_bytes_refl input.nonce_prefix,
      h.counted,
      long,
      pair.1 (message lib input),
      size_is,
    )

-- An update of a meeting's document that the frontend encrypts is accepted by the backend for the
-- expected document, snapshot and keys, with its epoch and author clock, and opened by the frontend in
-- the same context as the bytes that it was, provided that the envelope's length is within the bound
-- of the format.
pub update_round_trip :
    (lib : Libraries) (input : CreateMeetingUpdateInput) (envelope public_key : Bytes)
    → AreCorrect lib
    → ArePair lib input.signing_private_key public_key
    → leb (length envelope) 1050000 ≡ true
    → create_encrypted_meeting_update lib input ≡ some envelope
    → (validate_meeting_update_envelope lib envelope (expected_update input public_key)
        ≡ ok (record {
          client_epoch_id = input.context.client_epoch_id;
          author_clock = input.context.author_clock;
          ciphertext_length = length input.update + 16;
          fingerprint = lib.sha256 envelope;
        }))
      × (decrypted_meeting_update lib (record {
        context = input.context;
        signing_public_key = public_key;
        envelope = envelope;
      })
          ≡ some input.update)
update_round_trip lib input envelope public_key correct pair ranged created = (
  validate_meeting_update_envelope-create lib input envelope public_key correct pair ranged created,
  decrypted_meeting_update-create lib input envelope public_key correct pair created,
)
