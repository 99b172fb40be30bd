-- ===== src/Envelope/Tests/Updates.antt =====
-- An update of a meeting's document.
use elderflow.Shared.{◌≡◌, refl, Option, none, some, [], ◌∷◌, length}
use elderflow.Shared.Errors.{ok}
use elderflow.Envelope.Values.{Bytes, big_endian, read_from, drop}
use elderflow.Envelope.Readers.{same_bytes_refl}
use elderflow.Envelope.Update.{validate_meeting_update_envelope}
use elderflow.Envelope.UpdateCodec.{
  CreateMeetingUpdateInput, create_encrypted_meeting_update, decrypted_meeting_update,
  update_header, sealed_update,
}
use elderflow.Envelope.RoundTrip.Update.{expected_update, update_round_trip}
use elderflow.Envelope.Tests.Toy.{toy, toy-AreCorrect, copies}

abbrev change : CreateMeetingUpdateInput
change = record {
  context = record {
    organization_id = copies 16 1;
    document_id = copies 16 2;
    active_snapshot_id = copies 16 3;
    ock_id = copies 16 4;
    client_epoch_id = copies 16 5;
    author_clock = 258;
    content_key = copies 32 6;
  };
  nonce_prefix = copies 16 7;
  signing_private_key = copies 64 8;
  update = 1 ∷ 2 ∷ 3 ∷ [];
}

abbrev public_half : Bytes
public_half = copies 32 9

abbrev from_option : Option Bytes → Bytes
from_option none = []
from_option (some b) = b

abbrev envelope : Bytes
unfolding create_encrypted_meeting_update update_header sealed_update big_endian read_from drop
envelope = from_option (create_encrypted_meeting_update toy change)

created_lem : create_encrypted_meeting_update toy change ≡ some envelope
unfolding create_encrypted_meeting_update update_header sealed_update big_endian read_from drop
    envelope
created_lem = refl

update_round_trip_example :
    (validate_meeting_update_envelope toy envelope (expected_update change public_half)
      ≡ ok (record {
        client_epoch_id = copies 16 5;
        author_clock = 258;
        ciphertext_length = 19;
        fingerprint = copies 32 (length envelope);
      }))
    × (decrypted_meeting_update toy (record {
      context = change.context;
      signing_public_key = public_half;
      envelope = envelope;
    })
        ≡ some (1 ∷ 2 ∷ 3 ∷ []))
unfolding envelope
update_round_trip_example =
    update_round_trip toy change envelope public_half toy-AreCorrect
      (refl, λ message. same_bytes_refl (copies 64 (length message))) refl created_lem
