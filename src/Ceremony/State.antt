-- ===== src/Ceremony/State.antt =====
-- The tables of E2eeService and its transactions: a body that throws leaves the tables as they were.
-- A buffer is its bytes, a UUID of a key its 16 bytes; users, sessions and rows have numbers.
use elderflow.Shared.{ℕ, Bool, Option, List}
use elderflow.Shared.Errors.{Result, ok, err}
use elderflow.Envelope.Values.{Bytes}
use elderflow.Access.Policy.{UserRole}

pub data CeremonyState : Type 0 where
  pending_second_operator ready_to_activate activated aborted : CeremonyState

pub data KeyCeremonyOperation : Type 0 where
  lost_passphrase change_passphrase replace_recovery_secret rotate_root_key : KeyCeremonyOperation
  rotate_root_and_content_key : KeyCeremonyOperation

pub data KeyCeremonyReasonCode : Type 0 where
  passphrase_lost team_member_left routine_access_change : KeyCeremonyReasonCode
  recovery_secret_lost routine_custody_change planned_root_rotation : KeyCeremonyReasonCode
  passphrase_disclosed recovery_secret_disclosed encryption_key_disclosed : KeyCeremonyReasonCode

pub record KeyState : Type 0 where
  pub organization_id : Bytes
  pub generation : ℕ
  pub ork_id : Bytes
  pub ock_id : Bytes
  pub ock_epoch : ℕ
  pub shared_passphrase_slot : Bytes
  pub recovery_slot : Bytes
  pub content_key_wrapper : Bytes
  pub custody_acknowledged_by : ℕ
  pub custody_acknowledged_at : ℕ

pub record Historical : Type 0 where
  pub ock_id : Bytes
  pub ock_epoch : ℕ
  pub wrapper : Bytes

-- The candidate state of the keys that a ceremony carries.
pub record KeyCeremonyPayload : Type 0 where
  pub operation : KeyCeremonyOperation
  pub reason_code : KeyCeremonyReasonCode
  pub expected_generation : ℕ
  pub ork_id : Bytes
  pub ock_id : Bytes
  pub ock_epoch : ℕ
  pub shared_passphrase_slot : Bytes
  pub recovery_slot : Bytes
  pub content_key_wrapper : Bytes
  pub custody_copies_acknowledged : ℕ
  pub historical_content_key_wrappers : List Historical

-- Who takes part, by the account, the version of its sessions and the session.
pub record Participant : Type 0 where
  pub user_id : ℕ
  pub session_version : ℕ
  pub session_id : ℕ

pub record Ceremony : Type 0 where
  pub id : ℕ
  pub initiator : Participant
  pub approver : Option Participant
  pub initiator_confirmed_at : Option ℕ
  pub approver_confirmed_at : Option ℕ
  pub state : CeremonyState
  pub candidate : KeyCeremonyPayload
  pub candidate_fingerprint : Bytes
  pub expires_at : ℕ
  pub activated_generation : Option ℕ

pub record ClientEpoch : Type 0 where
  pub id : Bytes
  pub organization_id : Bytes
  pub user_id : ℕ
  pub nonce_prefix : Bytes
  pub signing_public_key : Bytes
  pub revoked_at : Option ℕ
  pub write_grace_until : Option ℕ

pub record ContentKeyWrapper : Type 0 where
  pub organization_id : Bytes
  pub ork_id : Bytes
  pub ock_id : Bytes
  pub ock_epoch : ℕ
  pub wrapper : Bytes
  pub writable_until : Option ℕ
  pub retained_until : Option ℕ

pub record User : Type 0 where
  pub id : ℕ
  pub role : UserRole
  pub session_version : ℕ
  pub is_archived : Bool

pub record AuditEvent : Type 0 where
  pub actor_ids : List ℕ
  pub key_generation : ℕ
  pub operation : KeyCeremonyOperation
  pub reason_code : KeyCeremonyReasonCode
  pub ork_id : Bytes
  pub ock_id : Bytes

pub record Store : Type 0 where
  pub key_state : Option KeyState
  pub ceremonies : List Ceremony
  pub epochs : List ClientEpoch
  pub wrappers : List ContentKeyWrapper
  pub users : List User
  pub events : List AuditEvent

-- A transaction's body: what it answers or throws, and the tables as it has written them.
abbrev pub Transaction : Type 0 → Type 0
Transaction A = Store → Result A × Store

abbrev pub continue : {A B : Type 0} → (A → Transaction B) → Result A × Store → Result B × Store
continue next (ok a, s) = next a s
continue next (err status code, s) = (err status code, s)

module _ {A B : Type 0} where
  infixl 5 ◌>>=◌
  abbrev pub ◌>>=◌ : Transaction A → (A → Transaction B) → Transaction B
  first >>= next = λ s. continue next (first s)

infixl 5 ◌>>◌
abbrev pub ◌>>◌ : {B : Type 0} → Transaction (Unit {0}) → Transaction B → Transaction B
first >> next = first >>= λ done. next
