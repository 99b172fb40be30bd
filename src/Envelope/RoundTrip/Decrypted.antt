-- ===== src/Envelope/RoundTrip/Decrypted.antt =====
-- `decryptScalar` reads back what `encryptScalar` wrote (frontend/src/e2ee/scalar-codec.ts).
use elderflow.Shared.{
  ℕ, ◌^◌, ◌<◌, ◌≡◌, arith, true, false, ◌&&◌, Option, none, some, ◌==◌, ==_iff, leb, length,
}
use elderflow.Envelope.Values.{Bytes, Text, starts_with_bom, max_safe_integer, Libraries}
use elderflow.Envelope.ScalarCodec.{EncryptScalarInput, nonce_of}
use elderflow.Envelope.ScalarDecrypt.{HeaderFields}

pub below : (c : ℕ) → (leb 1 c && leb c max_safe_integer) ≡ true → c < 256 ^ 8
below c h = ground arith

pub same_number : (a b : ℕ) → a ≡ b → (a == b) ≡ true
same_number a b h = (==_iff a b).1 h

abbrev written_fields : EncryptScalarInput → HeaderFields
written_fields input = record {
  organization_id = input.context.organization_id;
  aggregate_type = input.context.field.aggregate_type;
  record_id = input.context.field.record_id;
  field_id = input.context.field.field_id;
  ock_id = input.context.ock_id;
  nonce = nonce_of input.nonce_prefix input.write_counter;
}

-- What a decoder gives back as it was: in normal form C no half of a surrogate pair alone, and no byte
-- order mark at the start.
abbrev pub AreReadable : Libraries → Option Text → Type 0
AreReadable lib none = Unit {0}
AreReadable lib (some value) =
    (lib.is_well_formed (lib.normalize value) ≡ true)
    × (starts_with_bom (lib.normalize value) ≡ false)

abbrev pub normalized : Libraries → Option Text → Option Text
normalized lib none = none
normalized lib (some value) = some (lib.normalize value)

-- The public half of a signing key.
abbrev pub ArePair : Libraries → (secret_key public_key : Bytes) → Type 0
ArePair lib secret_key public_key =
    (length public_key ≡ 32)
    × ((message : Bytes) → lib.verify (lib.sign message secret_key) message public_key ≡ true)
