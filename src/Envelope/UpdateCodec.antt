-- ===== src/Envelope/UpdateCodec.antt =====
-- `createEncryptedMeetingUpdate`, and `applyEncryptedMeetingUpdate` up to the update that it hands
-- to Yjs (frontend/src/e2ee/meeting-document-codec.ts). A function that throws gives `none`.
use elderflow.Shared.{ℕ, Bool, false, ◌&&◌, Option, none, some, [], ◌∷◌, ◌++◌, ◌==◌, leb, length}
use elderflow.Shared.Options.{◌>>=◌, ◌>>◌, assert}
use elderflow.Envelope.Values.{
  Bytes, Value, Items, number, bytes, view, text, array, at, items_of, arr, same_bytes, read_from,
  drop, max_safe_integer, Libraries, signature_domain,
}
use elderflow.Envelope.Readers.{is_number, is_array}
use elderflow.Envelope.ScalarCodec.{has_length, key_domain, nonce_of}
use elderflow.Envelope.ScalarDecrypt.{read_array}
use elderflow.Envelope.Update.{signed_update}

pub record MeetingUpdateContext : Type 0 where
  pub organization_id : Bytes
  pub document_id : Bytes
  pub active_snapshot_id : Bytes
  pub ock_id : Bytes
  pub client_epoch_id : Bytes
  pub author_clock : ℕ
  pub content_key : Bytes

pub record CreateMeetingUpdateInput : Type 0 where
  pub context : MeetingUpdateContext
  pub nonce_prefix : Bytes
  pub signing_private_key : Bytes
  pub update : Bytes

pub record ApplyMeetingUpdateInput : Type 0 where
  pub context : MeetingUpdateContext
  pub signing_public_key : Bytes
  pub envelope : Bytes

-- `bytes(value, length)` of this file takes views of memory only.
unfoldable pub view_bytes : ℕ → Value → Option Bytes
view_bytes n (bytes b) = assert (has_length n b) >> some b
view_bytes n (view kind b) = assert (has_length n b) >> some b
view_bytes n _ = none

unfoldable pub any_view : Value → Option Bytes
any_view (bytes b) = some b
any_view (view kind b) = some b
any_view _ = none

-- `updateHeader`: the nonce has to end with the author clock, and an identifier has 16 bytes.
unfoldable pub update_header : MeetingUpdateContext → Bytes → Option Items
update_header c nonce = do
  assert (read_from 0 (drop 16 nonce) == c.author_clock)
  assert (
      has_length 16 c.organization_id
      && has_length 16 c.document_id
      && has_length 16 c.active_snapshot_id
      && has_length 16 c.ock_id
      && has_length 16 c.client_epoch_id)
  some (
      items_of (
        bytes c.organization_id
        ∷ bytes c.document_id
        ∷ bytes c.active_snapshot_id
        ∷ bytes c.ock_id
        ∷ number 2
        ∷ bytes c.client_epoch_id
        ∷ number c.author_clock
        ∷ bytes nonce
        ∷ []))

abbrev pub same_view : ℕ → Value → Value → Option Bool
same_view n actual expected =
    view_bytes n actual >>= λ a. view_bytes n expected >>= λ e. some (same_bytes a e)

-- `===` of two numbers; what is no integer that is not negative is equal to no number of a header.
unfoldable pub same_integer : Value → Value → Bool
same_integer (number a) (number b) = a == b
same_integer _ _ = false

abbrev pub is_true : Option Bool → Bool
is_true none = false
is_true (some b) = b

-- `sameHeader`: a field that cannot be read is different.
unfoldable pub same_header : Items → Items → Bool
unfolding view_bytes same_integer
same_header actual expected =
    is_true (same_view 16 (at actual 0) (at expected 0))
    && is_true (same_view 16 (at actual 1) (at expected 1))
    && is_true (same_view 16 (at actual 2) (at expected 2))
    && is_true (same_view 16 (at actual 3) (at expected 3))
    && same_integer (at actual 4) (at expected 4)
    && is_true (same_view 16 (at actual 5) (at expected 5))
    && same_integer (at actual 6) (at expected 6)
    && is_true (same_view 24 (at actual 7) (at expected 7))

abbrev pub authenticated_update : Items → Value
authenticated_update header = arr (number 1 ∷ number 5 ∷ number 1 ∷ array header ∷ [])

module _ (lib : Libraries) where
  abbrev pub meeting_key : MeetingUpdateContext → Bytes
  meeting_key c =
      lib.hkdf c.content_key c.organization_id
        (lib.encode (arr (text key_domain ∷ number 20 ∷ number 0 ∷ bytes c.document_id ∷ [])))

  -- Encryption, signature and encoding.
  unfoldable pub sealed_update : CreateMeetingUpdateInput → Items → Bytes
  sealed_update input header =
      let ciphertext =
        lib.seal input.update (lib.encode (authenticated_update header))
          (nonce_of input.nonce_prefix input.context.author_clock) (meeting_key input.context) in
      let signature =
        lib.sign (signature_domain ++ lib.encode (signed_update header ciphertext))
          input.signing_private_key in
      lib.encode (
        arr
          (number 1 ∷ number 5 ∷ number 1 ∷ array header ∷ bytes ciphertext ∷ bytes signature ∷ []))

  unfoldable pub create_encrypted_meeting_update : CreateMeetingUpdateInput → Option Bytes
  unfolding update_header sealed_update
  create_encrypted_meeting_update input = do
    assert (has_length 16 input.nonce_prefix)
    assert (has_length 32 input.context.content_key)
    assert (has_length 64 input.signing_private_key)
    assert (leb 1 input.context.author_clock && leb input.context.author_clock max_safe_integer)
    assert (leb 1 (length input.update) && leb (length input.update) 1048576)
    header ← update_header input.context (nonce_of input.nonce_prefix input.context.author_clock)
    some (sealed_update input header)

  -- The update that is applied to the document.
  unfoldable pub decrypted_meeting_update : ApplyMeetingUpdateInput → Option Bytes
  unfolding read_array any_view
  decrypted_meeting_update input = do
    assert (has_length 32 input.context.content_key)
    assert (has_length 32 input.signing_public_key)
    value ← lib.decode input.envelope
    parts ← read_array 6 value
    assert (
        is_number 1 (at parts 0)
        && is_number 5 (at parts 1)
        && is_number 1 (at parts 2)
        && is_array (at parts 3))
    assert (same_bytes (lib.encode value) input.envelope)
    header ← read_array 8 (at parts 3)
    nonce ← view_bytes 24 (at header 7)
    expected ← update_header input.context nonce
    assert (same_header header expected)
    ciphertext ← any_view (at parts 4)
    assert (leb 17 (length ciphertext) && leb (length ciphertext) 1048592)
    signature ← view_bytes 64 (at parts 5)
    assert (
        lib.verify signature (signature_domain ++ lib.encode (signed_update header ciphertext))
          input.signing_public_key)
    lib.open_sealed ciphertext (lib.encode (authenticated_update header)) nonce
        (meeting_key input.context)
