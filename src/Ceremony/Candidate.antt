-- ===== src/Ceremony/Candidate.antt =====
-- `validateCandidateState`: what a candidate may change, by its operation
-- (backend/src/e2ee/e2ee.service.ts).
use elderflow.Shared.{
  ℕ, ◌+◌, Bool, true, false, not, ◌&&◌, ◌||◌, Option, none, some, List, [], ◌∷◌, ◌==◌, leb,
  if◌then◌else◌, length, filter, any, map,
}
use elderflow.Shared.Errors.{
  Result, ok, bad_request, ◌>>=◌, ◌>>◌, require, or_throw, e2ee_envelope_invalid,
  e2ee_candidate_invalid, e2ee_envelope_context_invalid, e2ee_historical_wrappers_required,
}
use elderflow.Envelope.Values.{Bytes, same_bytes, Libraries}
use elderflow.Ceremony.State.{
  KeyCeremonyOperation, lost_passphrase, change_passphrase, replace_recovery_secret,
  rotate_root_key, rotate_root_and_content_key, KeyCeremonyReasonCode, passphrase_lost,
  team_member_left, routine_access_change, recovery_secret_lost, routine_custody_change,
  planned_root_rotation, passphrase_disclosed, recovery_secret_disclosed, encryption_key_disclosed,
  KeyState, Historical, KeyCeremonyPayload, ContentKeyWrapper,
}
use elderflow.Ceremony.KeyEnvelope.{
  passphrase_slot, recovery_slot, content_key_wrapper, validate_key_envelope,
}

-- `KEY_OPERATION_REASONS`.
abbrev pub approves : KeyCeremonyOperation → KeyCeremonyReasonCode → Bool
approves lost_passphrase passphrase_lost = true
approves change_passphrase team_member_left = true
approves change_passphrase routine_access_change = true
approves replace_recovery_secret recovery_secret_lost = true
approves replace_recovery_secret routine_custody_change = true
approves rotate_root_key planned_root_rotation = true
approves rotate_root_and_content_key passphrase_disclosed = true
approves rotate_root_and_content_key recovery_secret_disclosed = true
approves rotate_root_and_content_key encryption_key_disclosed = true
approves _ _ = false

-- What a candidate leaves as it is.
pub record Kept : Type 0 where
  pub root : Bool
  pub content : Bool
  pub shared : Bool
  pub recovery : Bool
  pub wrapper : Bool

abbrev pub same_parts : KeyCeremonyPayload → KeyState → Kept
same_parts c state = record {
  root = same_bytes c.ork_id state.ork_id;
  content = same_bytes c.ock_id state.ock_id && c.ock_epoch == state.ock_epoch;
  shared = same_bytes c.shared_passphrase_slot state.shared_passphrase_slot;
  recovery = same_bytes c.recovery_slot state.recovery_slot;
  wrapper = same_bytes c.content_key_wrapper state.content_key_wrapper;
}

abbrev pub is_valid : KeyCeremonyOperation → KeyCeremonyPayload → KeyState → Kept → Bool
is_valid lost_passphrase c state k =
    k.root
    && k.content
    && not k.shared
    && k.recovery
    && k.wrapper
    && c.custody_copies_acknowledged == 0
is_valid change_passphrase c state k =
    k.root
    && k.content
    && not k.shared
    && k.recovery
    && k.wrapper
    && c.custody_copies_acknowledged == 0
is_valid replace_recovery_secret c state k =
    k.root
    && k.content
    && k.shared
    && not k.recovery
    && k.wrapper
    && c.custody_copies_acknowledged == 2
is_valid rotate_root_key c state k =
    not k.root
    && k.content
    && not k.shared
    && not k.recovery
    && not k.wrapper
    && c.custody_copies_acknowledged == 0
is_valid rotate_root_and_content_key c state k =
    not k.root
    && not k.content
    && c.ock_epoch == state.ock_epoch + 1
    && not k.shared
    && not k.recovery
    && not k.wrapper
    && any (λ h. same_bytes h.ock_id state.ock_id) c.historical_content_key_wrappers
    && c.custody_copies_acknowledged == 2

-- A `Map` from identifiers of keys to their epochs, in the order of insertion.
abbrev pub Epochs : Type 0
Epochs = List (Bytes × ℕ)

unfoldable pub set : Bytes → ℕ → Epochs → Epochs
set k v [] = (k, v) ∷ []
set k v (entry ∷ entries) =
    if same_bytes entry.0 k then (entry.0, v) ∷ entries else entry ∷ set k v entries

unfoldable pub get : Bytes → Epochs → Option ℕ
get k [] = none
get k (entry ∷ entries) = if same_bytes entry.0 k then some entry.1 else get k entries

unfoldable pub map_of : Epochs → Epochs → Epochs
unfolding set
map_of seen [] = seen
map_of seen (entry ∷ entries) = map_of (set entry.0 entry.1 seen) entries

abbrev pub is_epoch : ℕ → Option ℕ → Bool
is_epoch n none = false
is_epoch n (some k) = k == n

abbrev pub required_historical : KeyCeremonyPayload → KeyState → List ContentKeyWrapper → Epochs
required_historical c state retained =
    let others = map_of [] (
      map (λ w. (w.ock_id, w.ock_epoch))
        (filter (λ w. not (same_bytes w.ock_id c.ock_id)) retained)) in
    if same_bytes state.ock_id c.ock_id then others else set state.ock_id state.ock_epoch others

abbrev pub supplied_historical : KeyCeremonyPayload → Epochs
supplied_historical c =
    map_of [] (map (λ h. (h.ock_id, h.ock_epoch)) c.historical_content_key_wrappers)

abbrev pub covers : (supplied required : Epochs) → Bool
covers supplied required =
    length required == length supplied
    && not (any (λ entry. not (is_epoch entry.1 (get entry.0 supplied))) required)

abbrev pub retained_by : KeyState → List ContentKeyWrapper → List ContentKeyWrapper
retained_by state =
    filter
      (λ w. same_bytes w.organization_id state.organization_id && same_bytes w.ork_id state.ork_id)

module _ (lib : Libraries) (state : KeyState) where
  unfoldable pub check_historical : KeyCeremonyPayload → List Historical → Result (Unit {0})
  check_historical c [] = ok tt
  check_historical c (h ∷ rest) = do
    previous ← validate_key_envelope lib h.wrapper content_key_wrapper
    require
        (same_bytes previous.organization_id state.organization_id
          && same_bytes previous.primary_key_id c.ork_id
          && same_bytes previous.wrapped_key_id h.ock_id
          && not (same_bytes h.ock_id c.ock_id))
        bad_request e2ee_envelope_context_invalid
    check_historical c rest

  unfoldable pub validate_candidate_state :
      KeyCeremonyPayload → List ContentKeyWrapper → Result (Unit {0})
  unfolding check_historical
  validate_candidate_state c wrappers = do
    require (approves c.operation c.reason_code) bad_request e2ee_candidate_invalid
    shared ← validate_key_envelope lib c.shared_passphrase_slot passphrase_slot
    recovery ← validate_key_envelope lib c.recovery_slot recovery_slot
    content ← validate_key_envelope lib c.content_key_wrapper content_key_wrapper
    require
        (same_bytes shared.organization_id state.organization_id
          && same_bytes recovery.organization_id state.organization_id
          && same_bytes content.organization_id state.organization_id
          && same_bytes shared.wrapped_key_id c.ork_id
          && same_bytes recovery.wrapped_key_id c.ork_id
          && same_bytes content.primary_key_id c.ork_id
          && same_bytes content.wrapped_key_id c.ock_id)
        bad_request e2ee_envelope_context_invalid
    require (is_valid c.operation c state (same_parts c state)) bad_request e2ee_candidate_invalid
    check_historical c c.historical_content_key_wrappers
    require
        (same_bytes c.ork_id state.ork_id
          || covers (supplied_historical c)
              (required_historical c state (retained_by state wrappers)))
        bad_request e2ee_historical_wrappers_required

  -- `decodeBase64UrlEnvelope` and `decodeKeyEnvelope`; a text in base64 is the bytes that it holds,
  -- `none` where it is not in the normal form.
  unfoldable pub decode_key_envelope : Option Bytes → Result Bytes
  decode_key_envelope value = do
    decoded ← or_throw value bad_request e2ee_envelope_invalid
    require (leb 32 (length decoded) && leb (length decoded) 12288) bad_request
        e2ee_envelope_invalid
    metadata ← validate_key_envelope lib decoded passphrase_slot
    require
        (same_bytes metadata.organization_id state.organization_id
          && same_bytes metadata.wrapped_key_id state.ork_id)
        bad_request e2ee_envelope_context_invalid
    ok decoded
