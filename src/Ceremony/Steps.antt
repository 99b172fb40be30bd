-- ===== src/Ceremony/Steps.antt =====
-- `approveRecovery`, `confirmRecoveryPresence`, `abortRecovery`
-- (backend/src/e2ee/e2ee.service.ts). A request sees one time of the clock.
use elderflow.Shared.{
  ℕ, Bool, true, false, not, ◌&&◌, ◌||◌, Option, none, some, List, [], ◌∷◌, ◌==◌, if◌then◌else◌,
  length, filter, any,
}
use elderflow.Shared.Errors.{
  err, forbidden, conflict, or_throw, forbidden_operation, e2ee_candidate_mismatch,
  e2ee_ceremony_state_invalid, e2ee_ceremony_operator_ineligible,
  e2ee_ceremony_distinct_operator_required,
}
use elderflow.Shared.Sets.{contains}
use elderflow.Access.Policy.{is_e2ee_key_operator}
use elderflow.Envelope.Values.{Bytes, same_bytes}
use elderflow.Ceremony.State.{
  ready_to_activate, activated, aborted, CeremonyState, pending_second_operator, Participant,
  Ceremony, User, Transaction, ◌>>=◌, ◌>>◌,
}
use elderflow.Ceremony.Tables.{
  pure, lift, check, read, transaction, is_pending, save_ceremony, lock_ceremony,
  assert_ceremony_active, assert_key_operator, is_participant, is_approver, is_bound_participant,
}
use elderflow.Ceremony.Start.{decode_exact}

-- `assertRecordedOperatorsEligible`: each recorded operator still has its account, its role and its
-- session version; otherwise the ceremony is aborted and the request refused.
abbrev pub operator_ids : Participant → Option Participant → List ℕ
operator_ids initiator none = initiator.user_id ∷ []
operator_ids initiator (some approver) = initiator.user_id ∷ approver.user_id ∷ []

-- `expectedVersions`, of an operator: the approver's entry is set last.
abbrev pub expected_version : Participant → Option Participant → ℕ → ℕ
expected_version initiator none id = initiator.session_version
expected_version initiator (some approver) id =
    if approver.user_id == id then approver.session_version else initiator.session_version

abbrev pub are_eligible : List User → Participant → Option Participant → Bool
are_eligible users initiator approver =
    let ids = operator_ids initiator approver in
    let operators = filter (λ (u : User). contains u.id ids && not u.is_archived) users in
    length operators == length ids
    && not (
        any
          (λ (u : User).
            not (is_e2ee_key_operator u.role)
            || not (u.session_version == expected_version initiator approver u.id))
          operators)

abbrev pub is_some : {A : Type 0} → Option A → Bool
is_some none = false
is_some (some a) = true

unfoldable pub refuse_unless : Bool → Ceremony → Transaction (Unit {0})
refuse_unless true c = pure tt
refuse_unless false c = do
  save_ceremony (record c { state = aborted })
  lift (err conflict e2ee_ceremony_operator_ineligible)

unfoldable pub assert_recorded_operators_eligible :
    Ceremony → (require_approver : Bool) → Transaction (Unit {0})
unfolding refuse_unless
assert_recorded_operators_eligible c require_approver = do
  check (not require_approver || is_some c.approver) conflict e2ee_ceremony_operator_ineligible
  users ← read (λ s. s.users)
  refuse_unless (are_eligible users c.initiator c.approver) c

module _ (now : ℕ) (user : User) (session_id id : ℕ) where
  unfoldable pub approve_recovery_transaction :
      (candidate_fingerprint : Option Bytes) → Transaction Ceremony
  unfolding assert_recorded_operators_eligible
  approve_recovery_transaction candidate_fingerprint = do
    c ← lock_ceremony id
    assert_ceremony_active now c
    check (is_pending c.state) conflict e2ee_ceremony_state_invalid
    check (not (c.initiator.user_id == user.id)) conflict e2ee_ceremony_distinct_operator_required
    assert_recorded_operators_eligible c false
    fingerprint ← lift (decode_exact 32 candidate_fingerprint)
    check (same_bytes c.candidate_fingerprint fingerprint) conflict e2ee_candidate_mismatch
    let approved = record c {
      approver = some (record {
        user_id = user.id;
        session_version = user.session_version;
        session_id = session_id;
      });
      approver_confirmed_at = some now;
      state = ready_to_activate;
    }
    save_ceremony approved
    pure approved

  unfoldable pub approve_recovery : (candidate_fingerprint : Option Bytes) → Transaction Ceremony
  unfolding approve_recovery_transaction
  approve_recovery candidate_fingerprint =
      assert_key_operator user >> transaction (approve_recovery_transaction candidate_fingerprint)

  -- The ceremony with the presence of the session in it; `none` where the session takes no part.
  -- One that has ended is saved as it is.
  unfoldable pub confirmed : Ceremony → CeremonyState → Option Ceremony
  confirmed c pending_second_operator =
      if is_participant user.id session_id c.initiator
      then some (record c { initiator_confirmed_at = some now })
      else none
  confirmed c ready_to_activate =
      if is_participant user.id session_id c.initiator
      then some (record c { initiator_confirmed_at = some now })
      else if is_approver user.id session_id c.approver
      then some (record c { approver_confirmed_at = some now })
      else none
  confirmed c _ = some c

  unfoldable pub confirm_recovery_presence_transaction : Transaction (Unit {0})
  unfolding confirmed
  confirm_recovery_presence_transaction = do
    c ← lock_ceremony id
    assert_ceremony_active now c
    present ← lift (or_throw (confirmed c c.state) forbidden forbidden_operation)
    save_ceremony present

  unfoldable pub confirm_recovery_presence : Transaction (Unit {0})
  unfolding confirm_recovery_presence_transaction
  confirm_recovery_presence =
      assert_key_operator user >> transaction (confirm_recovery_presence_transaction)

  unfoldable pub aborts : Ceremony → CeremonyState → Transaction (Unit {0})
  aborts c activated = pure tt
  aborts c aborted = pure tt
  aborts c _ = do
    check (is_bound_participant c user.id session_id) forbidden forbidden_operation
    save_ceremony (record c { state = aborted })

  unfoldable pub abort_recovery_transaction : Transaction (Unit {0})
  unfolding aborts
  abort_recovery_transaction = do c ← lock_ceremony id; aborts c c.state

  unfoldable pub abort_recovery : Transaction (Unit {0})
  unfolding abort_recovery_transaction
  abort_recovery = assert_key_operator user >> transaction (abort_recovery_transaction)
