-- ===== src/Envelope/RoundTrip/Created.antt =====
-- What `createEncryptedMeetingUpdate` has tested and written when it returns
-- (frontend/src/e2ee/meeting-document-codec.ts).
use elderflow.Shared.{
  some-injective, ◌≡◌, sym, ap, ◌∙◌, true-of-and, Bool, true, ◌&&◌, some, [], ◌∷◌, ◌==◌, leb,
  length,
}
use elderflow.Shared.Options.{assert, some-of-bind, true-of-assert}
use elderflow.Envelope.Values.{
  Bytes, Items, number, bytes, items_of, read_from, drop, max_safe_integer, Libraries,
}
use elderflow.Envelope.ScalarCodec.{has_length, nonce_of}
use elderflow.Envelope.UpdateCodec.{
  MeetingUpdateContext, CreateMeetingUpdateInput, update_header, sealed_update,
  create_encrypted_meeting_update,
}

abbrev pub update_items : MeetingUpdateContext → Bytes → Items
update_items c nonce = items_of (
    bytes c.organization_id
    ∷ bytes c.document_id
    ∷ bytes c.active_snapshot_id
    ∷ bytes c.ock_id
    ∷ number 2
    ∷ bytes c.client_epoch_id
    ∷ number c.author_clock
    ∷ bytes nonce
    ∷ [])

abbrev pub identified : MeetingUpdateContext → Bool
identified c =
    has_length 16 c.organization_id
    && has_length 16 c.document_id
    && has_length 16 c.active_snapshot_id
    && has_length 16 c.ock_id
    && has_length 16 c.client_epoch_id

abbrev pub nonce_for : CreateMeetingUpdateInput → Bytes
nonce_for input = nonce_of input.nonce_prefix input.context.author_clock

pub record IsCreated (lib : Libraries) (input : CreateMeetingUpdateInput) (envelope : Bytes)
    : Type 0 where
  pub content_key : has_length 32 input.context.content_key ≡ true
  pub prefix : has_length 16 input.nonce_prefix ≡ true
  pub clock :
      (leb 1 input.context.author_clock && leb input.context.author_clock max_safe_integer) ≡ true
  pub bounded : (leb 1 (length input.update) && leb (length input.update) 1048576) ≡ true
  pub counted : (read_from 0 (drop 16 (nonce_for input)) == input.context.author_clock) ≡ true
  pub identifiers : identified input.context ≡ true
  pub organization : has_length 16 input.context.organization_id ≡ true
  pub document : has_length 16 input.context.document_id ≡ true
  pub snapshot : has_length 16 input.context.active_snapshot_id ≡ true
  pub ock : has_length 16 input.context.ock_id ≡ true
  pub epoch : has_length 16 input.context.client_epoch_id ≡ true
  pub written : envelope ≡ sealed_update lib input (update_items input.context (nonce_for input))

pub create-IsCreated :
    (lib : Libraries) (input : CreateMeetingUpdateInput) (envelope : Bytes)
    → create_encrypted_meeting_update lib input ≡ some envelope
    → IsCreated lib input envelope
unfolding create_encrypted_meeting_update update_header
create-IsCreated lib input envelope h =
    let c = input.context in
    let (d0, r0, h0) = some-of-bind _ (assert (has_length 16 input.nonce_prefix)) h in
    let (d1, r1, h1) = some-of-bind _ (assert (has_length 32 c.content_key)) r0 in
    let (d2, r2, h2) = some-of-bind _ (assert (has_length 64 input.signing_private_key)) r1 in
    let (d3, r3, h3) =
      some-of-bind _ (assert (leb 1 c.author_clock && leb c.author_clock max_safe_integer)) r2 in
    let (d4, r4, h4) =
      some-of-bind _ (assert (leb 1 (length input.update) && leb (length input.update) 1048576))
        r3 in
    let (header, r5, h5) = some-of-bind _ (update_header c (nonce_for input)) r4 in
    let (d6, r6, h6) =
      some-of-bind _ (assert (read_from 0 (drop 16 (nonce_for input)) == c.author_clock)) h5 in
    let (d7, r7, h7) = some-of-bind _ (assert (identified c)) r6 in
    let ids = true-of-assert _ h7 in
    let (a, e) =
      true-of-and
        (has_length 16 c.organization_id
          && has_length 16 c.document_id
          && has_length 16 c.active_snapshot_id
          && has_length 16 c.ock_id)
        (has_length 16 c.client_epoch_id) ids in
    let (b, k) =
      true-of-and
        (has_length 16 c.organization_id
          && has_length 16 c.document_id
          && has_length 16 c.active_snapshot_id)
        (has_length 16 c.ock_id) a in
    let (od, s) =
      true-of-and (has_length 16 c.organization_id && has_length 16 c.document_id)
        (has_length 16 c.active_snapshot_id) b in
    let (o, d) = true-of-and (has_length 16 c.organization_id) (has_length 16 c.document_id) od in
    record {
      content_key = true-of-assert _ h1;
      prefix = true-of-assert _ h0;
      clock = true-of-assert _ h3;
      bounded = true-of-assert _ h4;
      counted = true-of-assert _ h6;
      identifiers = ids;
      organization = o;
      document = d;
      snapshot = s;
      ock = k;
      epoch = e;
      written = sym (some-injective r5) ∙ ap (sealed_update lib input) (sym (some-injective r7));
    }
