-- ===== src/Envelope/RoundTrip/Encrypted.antt =====
-- What `encryptScalar` has tested and written when it returns (frontend/src/e2ee/scalar-codec.ts).
use elderflow.Shared.{
  some-injective, ℕ, zero, suc, ◌+◌, ◌^◌, ◌<◌, ◌≡◌, refl, sym, ap, ◌∙◌, arith, true, ◌&&◌, some, [],
  ◌∷◌, ◌++◌, ==_iff, leb, length,
}
use elderflow.Shared.Options.{assert, some-of-bind, true-of-assert}
use elderflow.Envelope.Values.{
  Bytes, big_endian, drop, take, read_from, max_safe_integer, Libraries,
}
use elderflow.Envelope.Readers.{read_from-big_endian}
use elderflow.Envelope.ScalarCodec.{
  ScalarContext, EncryptScalarInput, has_length, assert_context, padded_plaintext, state_of,
  utf8_of, nonce_of, sealed_scalar, encrypt_scalar,
}

pub record IsContext (c : ScalarContext) : Type 0 where
  pub organization : has_length 16 c.organization_id ≡ true
  pub record_length : has_length 16 c.field.record_id ≡ true
  pub ock : has_length 16 c.ock_id ≡ true
  pub aggregate : (leb 256 c.field.aggregate_type && leb c.field.aggregate_type 65535) ≡ true
  pub field : (leb 1 c.field.field_id && leb c.field.field_id 65535) ≡ true

pub record IsEncrypted (lib : Libraries) (input : EncryptScalarInput) (envelope : Bytes)
    : Type 0 where
  pub asserted : assert_context input.context ≡ some tt
  pub context : IsContext input.context
  pub content_key : has_length 32 input.content_key ≡ true
  pub prefix : has_length 16 input.nonce_prefix ≡ true
  pub counter : (leb 1 input.write_counter && leb input.write_counter max_safe_integer) ≡ true
  pub epoch : has_length 16 input.client_epoch_id ≡ true
  pub plaintext : Bytes
  pub padded :
      padded_plaintext lib (state_of input.value) (utf8_of lib input.value) input.random_bytes
      ≡ some plaintext
  pub written : envelope ≡ sealed_scalar lib input plaintext

assert_context-IsContext : (c : ScalarContext) → assert_context c ≡ some tt → IsContext c
assert_context-IsContext c h =
    let (d0, r0, h0) = some-of-bind _ (assert (has_length 16 c.organization_id)) h in
    let (d1, r1, h1) = some-of-bind _ (assert (has_length 16 c.field.record_id)) r0 in
    let (d2, r2, h2) = some-of-bind _ (assert (has_length 16 c.ock_id)) r1 in
    let (d3, r3, h3) =
      some-of-bind _ (assert (leb 256 c.field.aggregate_type && leb c.field.aggregate_type 65535))
        r2 in
    record {
      organization = true-of-assert _ h0;
      record_length = true-of-assert _ h1;
      ock = true-of-assert _ h2;
      aggregate = true-of-assert _ h3;
      field = true-of-assert _ r3;
    }

pub encrypt_scalar-IsEncrypted :
    (lib : Libraries) (input : EncryptScalarInput) (envelope : Bytes)
    → encrypt_scalar lib input ≡ some envelope
    → IsEncrypted lib input envelope
unfolding encrypt_scalar
encrypt_scalar-IsEncrypted lib input envelope h =
    let (d0, r0, h0) = some-of-bind _ (assert_context input.context) h in
    let (d1, r1, h1) = some-of-bind _ (assert (has_length 32 input.content_key)) r0 in
    let (d2, r2, h2) = some-of-bind _ (assert (has_length 64 input.signing_private_key)) r1 in
    let (d3, r3, h3) = some-of-bind _ (assert (has_length 16 input.nonce_prefix)) r2 in
    let (d4, r4, h4) =
      some-of-bind _
        (assert (leb 1 input.write_counter && leb input.write_counter max_safe_integer)) r3 in
    let (plaintext, r5, h5) =
      some-of-bind _
        (padded_plaintext lib (state_of input.value) (utf8_of lib input.value) input.random_bytes)
        r4 in
    let (d6, r6, h6) = some-of-bind _ (assert (has_length 16 input.client_epoch_id)) r5 in
    record {
      asserted = h0;
      context = assert_context-IsContext input.context h0;
      content_key = true-of-assert _ h1;
      prefix = true-of-assert _ h3;
      counter = true-of-assert _ h4;
      epoch = true-of-assert _ h6;
      plaintext = plaintext;
      padded = h5;
      written = sym (some-injective r6);
    }

length-append_one : (xs : Bytes) (b : ℕ) → length (xs ++ b ∷ []) ≡ suc (length xs)
length-append_one [] b = refl
length-append_one (x ∷ xs) b = ap suc (length-append_one xs b)

length-big_endian : (k n : ℕ) → length (big_endian k n) ≡ k
unfolding big_endian
length-big_endian zero n = refl
length-big_endian (suc k) n = length-append_one (big_endian k _) _ ∙ ap suc (length-big_endian k _)

length-append : (xs ys : Bytes) → length (xs ++ ys) ≡ length xs + length ys
length-append [] ys = omega arith
length-append (x ∷ xs) ys = omega (arith, length-append xs ys)

drop-append : (xs ys : Bytes) → drop (length xs) (xs ++ ys) ≡ ys
unfolding drop
drop-append [] ys = refl
drop-append (x ∷ xs) ys = drop-append xs ys

take-append : (xs ys : Bytes) → take (length xs) (xs ++ ys) ≡ xs
unfolding take
take-append [] ys = refl
take-append (x ∷ xs) ys = ap (λ rest. x ∷ rest) (take-append xs ys)

-- The nonce is the prefix and the counter.
module _ (prefix : Bytes) (counter : ℕ) (sixteen : has_length 16 prefix ≡ true) where
  is_sixteen : length prefix ≡ 16
  is_sixteen = (==_iff _ _).0 sixteen

  pub length-nonce_of : length (nonce_of prefix counter) ≡ 24
  length-nonce_of =
      length-append prefix (big_endian 8 counter)
      ∙ omega (arith, is_sixteen, length-big_endian 8 counter)

  pub take-nonce_of : take 16 (nonce_of prefix counter) ≡ prefix
  take-nonce_of = ap (λ n. take n (nonce_of prefix counter)) (sym is_sixteen) ∙ take-append prefix _

  pub read_from-nonce_of :
      counter < 256 ^ 8 → read_from 0 (drop 16 (nonce_of prefix counter)) ≡ counter
  read_from-nonce_of small =
      ap (λ n. read_from 0 (drop n (nonce_of prefix counter))) (sym is_sixteen)
      ∙ ap (read_from 0) (drop-append prefix _)
      ∙ read_from-big_endian 8 counter small
