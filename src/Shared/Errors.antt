-- ===== src/Shared/Errors.antt =====
-- backend/src/errors/coded-http.exception.ts: the coded HTTP exceptions as values, and `async`
-- bodies that may throw as a result monad.
use mathlib.Core.Path.{◌≡◌, refl, ap}
use mathlib.Core.Bool.{Bool, true, false}
use mathlib.Core.Option.{Option, none, some}

pub data HttpStatus : Type 0 where
  bad_request unauthorized forbidden not_found conflict service_unavailable : HttpStatus
  internal_server_error : HttpStatus

pub data ErrorCode : Type 0 where
  e2ee_compaction_barrier_invalid meeting_completion_retry : ErrorCode
  recurrence_configuration_invalid recurrence_edited_appearance_conflict : ErrorCode
  recurrence_reconciliation_changed skipped_recurrence_not_found topic_not_found : ErrorCode
  meeting_not_found meeting_completed_immutable meeting_mutation_retry_mismatch : ErrorCode
  agenda_section_not_found agenda_topic_conflict agenda_positions_invalid : ErrorCode
  agenda_position_invalid agenda_topic_not_found e2ee_compaction_in_progress : ErrorCode
  e2ee_protected_ciphertext_forbidden agenda_section_type_conflict agenda_sections_changed :
      ErrorCode
  auth_required auth_user_not_found auth_session_revoked auth_forbidden : ErrorCode
  e2ee_ceremony_session_exclusive : ErrorCode
  e2ee_envelope_invalid e2ee_format_unsupported e2ee_suite_unsupported : ErrorCode
  e2ee_envelope_context_invalid e2ee_codec_unsupported e2ee_awareness_too_large : ErrorCode
  e2ee_update_too_large e2ee_snapshot_too_large e2ee_counter_reuse : ErrorCode
  e2ee_not_configured e2ee_client_epoch_invalid e2ee_client_epoch_conflict : ErrorCode
  e2ee_candidate_invalid e2ee_candidate_mismatch e2ee_historical_wrappers_required : ErrorCode
  e2ee_key_state_stale e2ee_ceremony_not_found e2ee_ceremony_expired : ErrorCode
  e2ee_ceremony_concurrent e2ee_ceremony_state_invalid e2ee_ceremony_operator_ineligible : ErrorCode
  e2ee_ceremony_distinct_operator_required e2ee_ceremony_compare_and_swap_lost : ErrorCode
  e2ee_ceremony_participant_confirmation_required forbidden_operation : ErrorCode
  entity_not_found : ErrorCode

pub data Result {ℓ} (A : Type ℓ) : Type ℓ where
  ok : A → Result A
  err : HttpStatus → ErrorCode → Result A

module _ {ℓ κ} {A : Type ℓ} {B : Type κ} where
  infixl 5 ◌>>=◌
  abbrev pub ◌>>=◌ : Result A → (A → Result B) → Result B
  err status code >>= next = err status code
  ok value >>= next = next value

infixl 5 ◌>>◌
abbrev pub ◌>>◌ {κ} : {B : Type κ} → Result (Unit {0}) → Result B → Result B
check >> next = check >>= λ done. next

-- `if (!test) throw …`.
abbrev pub require : Bool → HttpStatus → ErrorCode → Result (Unit {0})
require true s c = ok tt
require false s c = err s c

-- `if (!found) throw …`.
abbrev pub or_throw {ℓ} : {A : Type ℓ} → Option A → HttpStatus → ErrorCode → Result A
or_throw none s c = err s c
or_throw (some a) s c = ok a

-- A chain that succeeds had a first step that did.
pub ok-of-bind {ℓ κ} :
    {A : Type ℓ} {B : Type κ} {result : B} (next : A → Result B) (first : Result A)
    → (first >>= next) ≡ ok result
    → (value : A) × (next value ≡ ok result) × (first ≡ ok value)
ok-of-bind next (err status code) e = cc
ok-of-bind next (ok value) e = (value, e, refl)

pub ok-injective {ℓ} : {A : Type ℓ} {a b : A} → ok a ≡ ok b → a ≡ b
ok-injective h = cc

pub found-of-or_throw {ℓ} :
    {A : Type ℓ} {value : A} (found : Option A) (status : HttpStatus) (code : ErrorCode)
    → or_throw found status code ≡ ok value
    → found ≡ some value
found-of-or_throw none s c e = cc
found-of-or_throw (some a) s c e = ap some (ok-injective e)

pub true-of-require :
    (test : Bool) (status : HttpStatus) (code : ErrorCode) {done : Unit {0}}
    → require test status code ≡ ok done
    → test ≡ true
true-of-require true s c e = refl
true-of-require false s c e = cc
