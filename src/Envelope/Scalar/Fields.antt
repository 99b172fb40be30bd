-- ===== src/Envelope/Scalar/Fields.antt =====
-- What the reading of a scalar envelope's fields says of them
-- (backend/src/e2ee/scalar-envelope-validator.ts).
use elderflow.Shared.{◌≤◌, ◌≡◌, subst, length}
use elderflow.Shared.Errors.{ok, ok-of-bind, ok-injective}
use elderflow.Envelope.Values.{Items, number, at, max_safe_integer}
use elderflow.Envelope.Readers.{
  IsView, any_bytes, exact_bytes, integer_in, any_bytes-ok, exact_bytes-ok, integer_in-ok,
}
use elderflow.Envelope.Scalar.{ScalarEnvelope, scalar_fields}

pub record IsWellFormed (e : ScalarEnvelope) : Type 0 where
  pub organization : length e.organization_id ≡ 16
  pub aggregate : (256 ≤ e.aggregate_type) × (e.aggregate_type ≤ 65535)
  pub record_length : length e.record_id ≡ 16
  pub field : (1 ≤ e.field_id) × (e.field_id ≤ 65535)
  pub ock : length e.ock_id ≡ 16
  pub epoch : length e.client_epoch_id ≡ 16
  pub counter : (1 ≤ e.write_counter) × (e.write_counter ≤ max_safe_integer)
  pub nonce_length : length e.nonce ≡ 24
  pub signature_length : length e.signature ≡ 64

-- The elements that the fields were read from; byte strings may be any views.
pub record AreFields (parts header : Items) (e : ScalarEnvelope) : Type 0 where
  pub organization_at : IsView (at header 0) e.organization_id
  pub aggregate_at : at header 1 ≡ number e.aggregate_type
  pub record_at : IsView (at header 2) e.record_id
  pub field_at : at header 3 ≡ number e.field_id
  pub ock_at : IsView (at header 4) e.ock_id
  pub epoch_at : IsView (at header 5) e.client_epoch_id
  pub counter_at : at header 6 ≡ number e.write_counter
  pub nonce_at : IsView (at header 7) e.nonce
  pub ciphertext_at : IsView (at parts 4) e.ciphertext
  pub signature_at : IsView (at parts 5) e.signature
  pub well_formed : IsWellFormed e

pub scalar_fields-AreFields :
    (parts header : Items) (e : ScalarEnvelope)
    → scalar_fields parts header ≡ ok e
    → AreFields parts header e
unfolding scalar_fields
scalar_fields-AreFields parts header e read =
    let (o, r1, h0) = ok-of-bind _ (exact_bytes 16 (at header 0)) read in
    let (a, r2, h1) = ok-of-bind _ (integer_in 256 65535 (at header 1)) r1 in
    let (r, r3, h2) = ok-of-bind _ (exact_bytes 16 (at header 2)) r2 in
    let (f, r4, h3) = ok-of-bind _ (integer_in 1 65535 (at header 3)) r3 in
    let (k, r5, h4) = ok-of-bind _ (exact_bytes 16 (at header 4)) r4 in
    let (c, r6, h5) = ok-of-bind _ (exact_bytes 16 (at header 5)) r5 in
    let (w, r7, h6) = ok-of-bind _ (integer_in 1 max_safe_integer (at header 6)) r6 in
    let (n, r8, h7) = ok-of-bind _ (exact_bytes 24 (at header 7)) r7 in
    let (ct, r9, h8) = ok-of-bind _ (any_bytes (at parts 4)) r8 in
    let (sg, r10, h9) = ok-of-bind _ (exact_bytes 64 (at parts 5)) r9 in
    let p0 = exact_bytes-ok 16 (at header 0) o h0 in
    let p1 = integer_in-ok 256 65535 (at header 1) a h1 in
    let p2 = exact_bytes-ok 16 (at header 2) r h2 in
    let p3 = integer_in-ok 1 65535 (at header 3) f h3 in
    let p4 = exact_bytes-ok 16 (at header 4) k h4 in
    let p5 = exact_bytes-ok 16 (at header 5) c h5 in
    let p6 = integer_in-ok 1 max_safe_integer (at header 6) w h6 in
    let p7 = exact_bytes-ok 24 (at header 7) n h7 in
    let p9 = exact_bytes-ok 64 (at parts 5) sg h9 in
    subst (AreFields parts header) (ok-injective r10) (record {
      organization_at = p0.0;
      aggregate_at = p1.0;
      record_at = p2.0;
      field_at = p3.0;
      ock_at = p4.0;
      epoch_at = p5.0;
      counter_at = p6.0;
      nonce_at = p7.0;
      ciphertext_at = any_bytes-ok (at parts 4) ct h8;
      signature_at = p9.0;
      well_formed = record {
        organization = p0.1;
        aggregate = (p1.1, p1.2);
        record_length = p2.1;
        field = (p3.1, p3.2);
        ock = p4.1;
        epoch = p5.1;
        counter = (p6.1, p6.2);
        nonce_length = p7.1;
        signature_length = p9.1;
      };
    })
