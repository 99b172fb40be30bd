-- ===== src/Writes/Tests.antt =====
-- An epoch's first write, and the same write again.
use elderflow.Shared.{◌≡◌, refl, true, false, some, [], ◌∷◌, length, find}
use elderflow.Shared.Sets.{contains}
use elderflow.Shared.Errors.{ok}
use elderflow.Access.Policy.{UserRole}
use elderflow.Envelope.Values.{same_bytes, read_from, drop, take}
use elderflow.Envelope.Readers.{
  same_bytes_refl, is_number, is_array, array_of, exact_bytes, integer_in, any_bytes,
}
use elderflow.Envelope.Scalar.{
  validate_scalar_envelope, scalar_envelope_client_epoch_id, open_scalar, scalar_fields,
  check_scalar,
}
use elderflow.Envelope.Tests.{input, public_key, written, written_lem}
use elderflow.Envelope.Tests.Toy.{toy, toy-AreCorrect, copies}
use elderflow.Ceremony.State.{User}
use elderflow.Writes.Service.{Tables, ScalarWrite, ValidatedScalarWrite, validate_write, commit}
use elderflow.Writes.Counters.{IsRecorded, validate_write-IsRecorded}
use elderflow.Writes.Retried.{IsStillUsable, validate_write-retried}
use elderflow.Writes.Accepted.{validate_write-encrypt_scalar}

abbrev author : User
author = record { id = 1; role = UserRole.user; session_version = 1; is_archived = false }

abbrev t0 : Tables
t0 = record {
  key_state = some (record {
    organization_id = copies 16 3;
    generation = 1;
    ork_id = copies 16 2;
    ock_id = copies 16 4;
    ock_epoch = 1;
    shared_passphrase_slot = [];
    recovery_slot = [];
    content_key_wrapper = [];
    custody_acknowledged_by = 1;
    custody_acknowledged_at = 0;
  });
  epochs =
      record {
        id = copies 16 5;
        organization_id = copies 16 3;
        user_id = 1;
        nonce_prefix = copies 16 6;
        signing_public_key = public_key;
        revoked_at = some 10;
        write_grace_until = some 90;
      }
      ∷ [];
  writes = [];
}

abbrev row : ScalarWrite
row = record {
  client_epoch_id = copies 16 5;
  record_id = copies 16 1;
  field_id = 2;
  write_counter = 300;
  aggregate_type = 256;
  envelope_fingerprint = copies 32 (length written);
  commit_revision = 8;
}

abbrev t1 : Tables
t1 = record t0 { writes = row ∷ [] }

abbrev result : ValidatedScalarWrite
result = record { envelope = written; commit_revision = 8; duplicate = false }

validate_lem :
    validate_write toy 50 author input.context.field (some written) (some 7) t0 ≡ ok (result, t1)
unfolding validate_write commit scalar_envelope_client_epoch_id validate_scalar_envelope open_scalar
    scalar_fields check_scalar is_number is_array array_of exact_bytes integer_in any_bytes
    same_bytes read_from drop take contains written find
validate_lem = refl

validate_write-IsRecorded_example :
    IsRecorded toy 50 author input.context.field (some 7) t0 t1 result
validate_write-IsRecorded_example =
    validate_write-IsRecorded toy 50 author input.context.field (some written) (some 7) t0 t1 result
      validate_lem

abbrev other_row : ScalarWrite
other_row = record row { write_counter = 301; commit_revision = 9 }

-- Another write has been committed since.
abbrev t2 : Tables
t2 = record t1 { writes = row ∷ other_row ∷ [] }

still_usable_lem : IsStillUsable toy 80 author (some written) t0
unfolding scalar_envelope_client_epoch_id exact_bytes array_of same_bytes find written
still_usable_lem = record {
  envelope = written;
  client_epoch_id = copies 16 5;
  epoch = _;
  decoded = refl;
  named = refl;
  at_epoch = refl;
  usable = refl;
}

validate_write-retried_example :
    validate_write toy 80 author input.context.field (some written) (some 12) t2
    ≡ ok (record { envelope = written; commit_revision = 8; duplicate = true }, t2)
validate_write-retried_example =
    validate_write-retried toy 50 80 author input.context.field (some written) (some 7) (some 12) t0
      t1 t2 result validate_lem
      (record { more = other_row ∷ []; same_keys = refl; same_epochs = refl; appended = refl })
      still_usable_lem

validate_write-encrypt_scalar_example :
    (row : ScalarWrite) × (validate_write toy 50 author input.context.field
        (some written)
        (some 7)
        t0
      ≡ ok (
        record { envelope = written; commit_revision = 8; duplicate = false },
        record t0 { writes = row ∷ [] },
      ))
unfolding find same_bytes written
validate_write-encrypt_scalar_example =
    validate_write-encrypt_scalar toy 50 author input written public_key (some 7) t0 toy-AreCorrect
      (refl, λ message. same_bytes_refl (copies 64 (length message))) refl written_lem refl
      (record {
        state = _;
        epoch = _;
        keys = refl;
        at_epoch = refl;
        usable = refl;
        expected = refl;
        unused = refl;
      })
