-- ===== src/Envelope/Tests.antt =====
-- Concrete envelopes: an epoch that writes a text.
pub mod Toy
mod Updates
use elderflow.Shared.{
  ℕ, ◌≡◌, refl, Bool, true, false, Option, none, some, List, [], ◌∷◌, length, find,
}
use elderflow.Shared.Sets.{contains}
use elderflow.Shared.Errors.{Result, ok}
use elderflow.Envelope.Values.{Bytes, same_bytes, big_endian, read_from, drop, take, Libraries}
use elderflow.Envelope.Readers.{
  same_bytes_refl, is_number, is_array, array_of, exact_bytes, integer_in, any_bytes,
}
use elderflow.Envelope.Scalar.{
  ScalarEnvelopeMetadata, ciphertext_lengths, validate_scalar_envelope, open_scalar, scalar_fields,
  check_scalar,
}
use elderflow.Envelope.Scalar.Reading.{IsAccepted, validate_scalar_envelope-IsAccepted}
use elderflow.Envelope.ScalarCodec.{
  EncryptScalarInput, encrypt_scalar, padded_plaintext, pad_attempts, sealed_scalar, zeros,
}
use elderflow.Envelope.RoundTrip.Accepted.{expected_of, validate_scalar_envelope-encrypt_scalar}
use elderflow.Envelope.Tests.Toy.{toy, toy-AreCorrect, copies}

abbrev pub input : EncryptScalarInput
input = record {
  context = record {
    field = record { aggregate_type = 256; record_id = copies 16 1; field_id = 2 };
    organization_id = copies 16 3;
    ock_id = copies 16 4;
  };
  client_epoch_id = copies 16 5;
  write_counter = 300;
  nonce_prefix = copies 16 6;
  content_key = copies 32 7;
  signing_private_key = copies 64 8;
  value = some (72 ∷ 105 ∷ []);
  random_bytes = λ n. copies n 9;
}

abbrev pub public_key : Bytes
public_key = copies 32 10

abbrev from_some : Option Bytes → Bytes
from_some none = []
from_some (some b) = b

unfoldable pub written : Bytes
unfolding encrypt_scalar padded_plaintext pad_attempts sealed_scalar zeros find big_endian
written = from_some (encrypt_scalar toy input)

pub written_lem : encrypt_scalar toy input ≡ some written
unfolding encrypt_scalar padded_plaintext pad_attempts sealed_scalar zeros find big_endian written
written_lem = refl

accepted_example :
    (n : ℕ) × (contains n ciphertext_lengths ≡ true)
    × (validate_scalar_envelope toy written (expected_of input public_key)
        ≡ ok (record {
          client_epoch_id = input.client_epoch_id;
          write_counter = 300;
          ciphertext_length = n;
          fingerprint = copies 32 (length written);
        }))
unfolding written
accepted_example =
    validate_scalar_envelope-encrypt_scalar toy input written public_key toy-AreCorrect
      (refl, λ message. same_bytes_refl (copies 64 (length message))) refl written_lem

abbrev reported : ScalarEnvelopeMetadata
reported = record {
  client_epoch_id = copies 16 5;
  write_counter = 300;
  ciphertext_length = 272;
  fingerprint = copies 32 (length written);
}

valid_lem : validate_scalar_envelope toy written (expected_of input public_key) ≡ ok reported
unfolding validate_scalar_envelope open_scalar scalar_fields check_scalar is_number is_array
    array_of exact_bytes integer_in any_bytes same_bytes read_from drop take contains written
valid_lem = refl

envelope_example : IsAccepted toy written (expected_of input public_key) reported
envelope_example =
    validate_scalar_envelope-IsAccepted toy (expected_of input public_key) written reported
      valid_lem
