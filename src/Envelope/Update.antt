-- ===== src/Envelope/Update.antt =====
-- `validateMeetingUpdateEnvelope` (backend/src/e2ee/meeting-document-envelope-validator.ts).
use elderflow.Shared.{ℕ, Bool, ◌&&◌, [], ◌∷◌, ◌++◌, ◌==◌, leb, length}
use elderflow.Shared.Errors.{
  Result, ok, bad_request, e2ee_envelope_invalid, e2ee_format_unsupported, e2ee_codec_unsupported,
  e2ee_update_too_large, ◌>>=◌, ◌>>◌, require, or_throw,
}
use elderflow.Envelope.Values.{
  Bytes, Value, Items, number, bytes, array, size, at, arr, same_bytes, read_from, drop, take,
  max_safe_integer, Libraries, signature_domain,
}
use elderflow.Envelope.Readers.{
  must, any_bytes, exact_bytes, integer_in, array_of, is_number, is_array,
}
use elderflow.Envelope.Scalar.{context_invalid}
use elderflow.Ceremony.KeyEnvelope.{elements}

pub record ExpectedMeetingUpdateEnvelope : Type 0 where
  pub organization_id : Bytes
  pub document_id : Bytes
  pub active_snapshot_id : Bytes
  pub ock_id : Bytes
  pub client_epoch_id : Bytes
  pub nonce_prefix : Bytes
  pub signing_public_key : Bytes

pub record MeetingUpdateMetadata : Type 0 where
  pub client_epoch_id : Bytes
  pub author_clock : ℕ
  pub ciphertext_length : ℕ
  pub fingerprint : Bytes

-- What the envelope of an update holds.
pub record UpdateEnvelope : Type 0 where
  pub organization_id : Bytes
  pub document_id : Bytes
  pub active_snapshot_id : Bytes
  pub ock_id : Bytes
  pub client_epoch_id : Bytes
  pub author_clock : ℕ
  pub nonce : Bytes
  pub ciphertext : Bytes
  pub signature : Bytes

abbrev pub signed_update : Items → Bytes → Value
signed_update header ciphertext =
    arr (number 1 ∷ number 5 ∷ number 1 ∷ array header ∷ bytes ciphertext ∷ [])

module _ (lib : Libraries) where
  -- `decodeEnvelope`.
  abbrev pub decode_parts : Bytes → Result (Value × Items)
  decode_parts encoded = do
    envelope ← or_throw (lib.decode encoded) bad_request e2ee_envelope_invalid
    parts ← array_of 6 envelope
    must (is_array (at parts 3))
    ok (envelope, parts)

  -- The epoch is read before the envelope is checked.
  unfoldable pub meeting_update_client_epoch_id : Bytes → Result Bytes
  meeting_update_client_epoch_id encoded = do
    (envelope, parts) ← decode_parts encoded
    exact_bytes 16 (at (elements (at parts 3)) 5)

  unfoldable pub open_update : Bytes → Result (Items × Items)
  open_update encoded = do
    require (leb (length encoded) 1050000) bad_request e2ee_update_too_large
    (envelope, parts) ← decode_parts encoded
    require (is_number 1 (at parts 0)) bad_request e2ee_format_unsupported
    must (is_number 5 (at parts 1) && is_number 1 (at parts 2))
    must (same_bytes (lib.encode envelope) encoded)
    must (size (elements (at parts 3)) == 8)
    ok (parts, elements (at parts 3))

-- The fields, in the order in which they are read.
unfoldable pub update_fields : Items → Items → Result UpdateEnvelope
update_fields parts header = do
  organization_id ← exact_bytes 16 (at header 0)
  document_id ← exact_bytes 16 (at header 1)
  active_snapshot_id ← exact_bytes 16 (at header 2)
  ock_id ← exact_bytes 16 (at header 3)
  require (is_number 2 (at header 4)) bad_request e2ee_codec_unsupported
  client_epoch_id ← exact_bytes 16 (at header 5)
  author_clock ← integer_in 1 max_safe_integer (at header 6)
  nonce ← exact_bytes 24 (at header 7)
  ciphertext ← any_bytes (at parts 4)
  signature ← exact_bytes 64 (at parts 5)
  ok (record {
    organization_id = organization_id;
    document_id = document_id;
    active_snapshot_id = active_snapshot_id;
    ock_id = ock_id;
    client_epoch_id = client_epoch_id;
    author_clock = author_clock;
    nonce = nonce;
    ciphertext = ciphertext;
    signature = signature;
  })

abbrev pub update_in_context : ExpectedMeetingUpdateEnvelope → UpdateEnvelope → Bool
update_in_context expected e =
    same_bytes e.organization_id expected.organization_id
    && same_bytes e.document_id expected.document_id
    && same_bytes e.active_snapshot_id expected.active_snapshot_id
    && same_bytes e.ock_id expected.ock_id
    && same_bytes e.client_epoch_id expected.client_epoch_id
    && same_bytes (take 16 e.nonce) expected.nonce_prefix

module _ (lib : Libraries) where
  unfoldable pub check_update :
      ExpectedMeetingUpdateEnvelope → Items → UpdateEnvelope → Result (Unit {0})
  check_update expected header e = do
    context_invalid (update_in_context expected e)
    must (read_from 0 (drop 16 e.nonce) == e.author_clock)
    require (leb 17 (length e.ciphertext) && leb (length e.ciphertext) 1048592) bad_request
        e2ee_update_too_large
    must (
        lib.verify e.signature (signature_domain ++ lib.encode (signed_update header e.ciphertext))
          expected.signing_public_key)

  unfoldable pub validate_meeting_update_envelope :
      Bytes → ExpectedMeetingUpdateEnvelope → Result MeetingUpdateMetadata
  unfolding open_update check_update
  validate_meeting_update_envelope encoded expected = do
    (parts, header) ← open_update lib encoded
    e ← update_fields parts header
    check_update expected header e
    ok (record {
      client_epoch_id = e.client_epoch_id;
      author_clock = e.author_clock;
      ciphertext_length = length e.ciphertext;
      fingerprint = lib.sha256 encoded;
    })
