-- ===== src/Envelope/Scalar/Reading.antt =====
-- What the validator of scalar envelopes has read when it accepts: the bytes are those of one
-- envelope and no other.
use elderflow.Shared.{
  ◌≡◌, sym, ap, subst, ◌∙◌, true, ◌&&◌, [], ◌∷◌, ◌++◌, ◌==◌, true-of-and, ◌≤◌, arith, ==_iff, leb,
  length,
}
use elderflow.Shared.Sets.{contains}
use elderflow.Shared.Errors.{
  ok, bad_request, e2ee_envelope_invalid, e2ee_format_unsupported, require, or_throw, ok-of-bind,
  ok-injective, true-of-require,
}
use elderflow.Envelope.Values.{
  Bytes, Items, number, array, size, at, items_of, arr, same_bytes, read_from, drop, take,
  Libraries, signature_domain,
}
use elderflow.Envelope.Readers.{
  must, array_of, is_number, is_array, array_of-ok, is_number-true, six_items, same_bytes-true,
}
use elderflow.Envelope.Scalar.{
  ScalarEnvelope, ExpectedScalarEnvelope, ScalarEnvelopeMetadata, signed_value, ciphertext_lengths,
  open_scalar, scalar_fields, in_context, check_scalar, validate_scalar_envelope, context_invalid,
}
use elderflow.Envelope.Scalar.Fields.{AreFields, scalar_fields-AreFields}

-- The six elements, in front of the decoded bytes.
pub record IsOpened (lib : Libraries) (encoded : Bytes) (parts header : Items) : Type 0 where
  pub in_range : (leb 256 (length encoded) && leb (length encoded) 1050000) ≡ true
  pub canonical :
      encoded
      ≡ lib.encode
          (arr (number 1 ∷ number 4 ∷ number 1 ∷ array header ∷ at parts 4 ∷ at parts 5 ∷ []))
  pub header_size : size header ≡ 8

module _ (lib : Libraries) where
  parts_of :
      (parts header : Items)
      → size parts ≡ 6
      → at parts 0 ≡ number 1
      → at parts 1 ≡ number 4
      → at parts 2 ≡ number 1
      → at parts 3 ≡ array header
      → parts
        ≡ items_of (number 1 ∷ number 4 ∷ number 1 ∷ array header ∷ at parts 4 ∷ at parts 5 ∷ [])
  parts_of parts header s e0 e1 e2 e3 = six_items parts s ∙ cc

  pub open_scalar-IsOpened :
      (encoded : Bytes) (parts header : Items)
      → open_scalar lib encoded ≡ ok (parts, header)
      → IsOpened lib encoded parts header
  unfolding open_scalar
  open_scalar-IsOpened encoded parts header opened =
      let (d0, r0, ranged) =
        ok-of-bind _ (must (leb 256 (length encoded) && leb (length encoded) 1050000)) opened in
      let (v, r1, decoded) =
        ok-of-bind _ (or_throw (lib.decode encoded) bad_request e2ee_envelope_invalid) r0 in
      let (parts', r2, six) = ok-of-bind _ (array_of 6 v) r1 in
      let (d1, r3, format) =
        ok-of-bind _ (require (is_number 1 (at parts' 0)) bad_request e2ee_format_unsupported) r2 in
      let (d2, r4, kind) =
        ok-of-bind _
          (must (is_number 4 (at parts' 1) && is_number 1 (at parts' 2) && is_array (at parts' 3)))
          r3 in
      let (d3, r5, same) = ok-of-bind _ (must (same_bytes (lib.encode v) encoded)) r4 in
      let (header', r6, eight) = ok-of-bind _ (array_of 8 (at parts' 3)) r5 in
      let (v_is, parts_size) = array_of-ok 6 v parts' six in
      let (h_is, h_size) = array_of-ok 8 (at parts' 3) header' eight in
      let (k12, k3) = true-of-and _ _ (true-of-require _ _ _ kind) in
      let (k1, k2) = true-of-and _ _ k12 in
      let whole =
        parts_of parts' header' parts_size
          (is_number-true 1 (at parts' 0) (true-of-require _ _ _ format))
          (is_number-true 4 (at parts' 1) k1) (is_number-true 1 (at parts' 2) k2) h_is in
      let written = sym (same_bytes-true _ _ (true-of-require _ _ _ same)) in
      subst (λ (p : Items × Items). IsOpened lib encoded p.0 p.1) (ok-injective r6)
        (record {
          in_range = true-of-require _ _ _ ranged;
          canonical = written ∙ ap lib.encode (v_is ∙ ap array whole);
          header_size = h_size;
        })

-- An envelope of the expected record, field, keys and epoch.
pub record IsOf (expected : ExpectedScalarEnvelope) (e : ScalarEnvelope) : Type 0 where
  pub same_organization : e.organization_id ≡ expected.organization_id
  pub same_aggregate : e.aggregate_type ≡ expected.context.aggregate_type
  pub same_record : e.record_id ≡ expected.context.record_id
  pub same_field : e.field_id ≡ expected.context.field_id
  pub same_ock : e.ock_id ≡ expected.ock_id
  pub same_epoch : e.client_epoch_id ≡ expected.client_epoch_id

in_context-IsOf :
    (expected : ExpectedScalarEnvelope) (e : ScalarEnvelope)
    → in_context expected e ≡ true
    → IsOf expected e
in_context-IsOf expected e h =
    let (h5, epoch) = true-of-and _ _ h in
    let (h4, ock) = true-of-and _ _ h5 in
    let (h3, field) = true-of-and _ _ h4 in
    let (h2, row) = true-of-and _ _ h3 in
    let (organization, aggregate) = true-of-and _ _ h2 in
    record {
      same_organization = same_bytes-true _ _ organization;
      same_aggregate = (==_iff _ _).0 aggregate;
      same_record = same_bytes-true _ _ row;
      same_field = (==_iff _ _).0 field;
      same_ock = same_bytes-true _ _ ock;
      same_epoch = same_bytes-true _ _ epoch;
    }

-- What an accepted envelope is: one of the expected context that the epoch signed, with a nonce that
-- is the epoch's prefix and the counter, in the bytes that the encoder writes for its elements.
pub record IsAccepted (lib : Libraries) (encoded : Bytes) (expected : ExpectedScalarEnvelope)
    (meta : ScalarEnvelopeMetadata) : Type 0 where
  pub e : ScalarEnvelope
  pub parts : Items
  pub header : Items
  pub fields : AreFields parts header e
  pub header_size : size header ≡ 8
  pub in_range : (256 ≤ length encoded) × (length encoded ≤ 1050000)
  pub canonical :
      encoded
      ≡ lib.encode
          (arr (number 1 ∷ number 4 ∷ number 1 ∷ array header ∷ at parts 4 ∷ at parts 5 ∷ []))
  pub context : IsOf expected e
  pub prefix : take 16 e.nonce ≡ expected.nonce_prefix
  pub counted : read_from 0 (drop 16 e.nonce) ≡ e.write_counter
  pub padded : contains (length e.ciphertext) ciphertext_lengths ≡ true
  pub signed :
      lib.verify e.signature
        (signature_domain ++ lib.encode (signed_value header e.ciphertext))
        expected.signing_public_key
      ≡ true
  pub reported : meta ≡ record {
    client_epoch_id = expected.client_epoch_id;
    write_counter = e.write_counter;
    ciphertext_length = length e.ciphertext;
    fingerprint = lib.sha256 encoded;
  }

record IsChecked (lib : Libraries) (expected : ExpectedScalarEnvelope) (header : Items)
    (e : ScalarEnvelope) : Type 0 where
  context : in_context expected e ≡ true
  prefix : same_bytes (take 16 e.nonce) expected.nonce_prefix ≡ true
  counted : (read_from 0 (drop 16 e.nonce) == e.write_counter) ≡ true
  padded : contains (length e.ciphertext) ciphertext_lengths ≡ true
  signed :
      lib.verify e.signature
        (signature_domain ++ lib.encode (signed_value header e.ciphertext))
        expected.signing_public_key
      ≡ true

module _ (lib : Libraries) (expected : ExpectedScalarEnvelope) where
  check_scalar-IsChecked :
      (header : Items) (e : ScalarEnvelope)
      → check_scalar lib expected header e ≡ ok tt
      → IsChecked lib expected header e
  unfolding check_scalar
  check_scalar-IsChecked header e checked =
      let (d0, r0, h0) = ok-of-bind _ (context_invalid (in_context expected e)) checked in
      let (d1, r1, h1) =
        ok-of-bind _ (context_invalid (same_bytes (take 16 e.nonce) expected.nonce_prefix)) r0 in
      let (d2, r2, h2) =
        ok-of-bind _ (must (read_from 0 (drop 16 e.nonce) == e.write_counter)) r1 in
      let (d3, r3, h3) =
        ok-of-bind _ (must (contains (length e.ciphertext) ciphertext_lengths)) r2 in
      record {
        context = true-of-require _ _ _ h0;
        prefix = true-of-require _ _ _ h1;
        counted = true-of-require _ _ _ h2;
        padded = true-of-require _ _ _ h3;
        signed = true-of-require _ _ _ r3;
      }

  -- A scalar envelope that the backend accepts has 256 to 1,050,000 bytes, was signed by the client
  -- epoch, belongs to the organization, record, field, key and epoch that are expected, carries the
  -- epoch's nonce prefix and the counter, and has one of the padded lengths. Its bytes are those that
  -- the encoder writes for the elements that its fields were read from, byte strings as any views.
  pub validate_scalar_envelope-IsAccepted :
      (encoded : Bytes) (meta : ScalarEnvelopeMetadata)
      → validate_scalar_envelope lib encoded expected ≡ ok meta
      → IsAccepted lib encoded expected meta
  unfolding validate_scalar_envelope
  validate_scalar_envelope-IsAccepted encoded meta valid =
      let (opened, r0, h0) = ok-of-bind _ (open_scalar lib encoded) valid in
      let (e, r1, h1) = ok-of-bind _ (scalar_fields opened.0 opened.1) r0 in
      let (done, r2, h2) = ok-of-bind _ (check_scalar lib expected opened.1 e) r1 in
      let o = open_scalar-IsOpened lib encoded opened.0 opened.1 h0 in
      let f = scalar_fields-AreFields opened.0 opened.1 e h1 in
      let c = check_scalar-IsChecked opened.1 e h2 in
      let context = in_context-IsOf expected e c.context in
      let ranged = o.in_range in
      record {
        e = e;
        parts = opened.0;
        header = opened.1;
        fields = f;
        header_size = o.header_size;
        in_range = ground arith;
        canonical = o.canonical;
        context = context;
        prefix = same_bytes-true _ _ c.prefix;
        counted = (==_iff _ _).0 c.counted;
        padded = c.padded;
        signed = c.signed;
        reported =
            sym (ok-injective r2)
            ∙ ap
                (λ (id : Bytes).
                  let m : ScalarEnvelopeMetadata = record {
                    client_epoch_id = id;
                    write_counter = e.write_counter;
                    ciphertext_length = length e.ciphertext;
                    fingerprint = lib.sha256 encoded;
                  } in
                  m)
                context.same_epoch;
      }
