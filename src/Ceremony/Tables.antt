-- ===== src/Ceremony/Tables.antt =====
-- Reading and writing the tables of the ceremonies within a transaction
-- (backend/src/e2ee/e2ee.service.ts).
use elderflow.Shared.{
  ℕ, ltb, Bool, true, false, ◌&&◌, ◌||◌, Option, none, some, List, [], ◌∷◌, ◌==◌, if◌then◌else◌,
  find,
}
use elderflow.Shared.Errors.{
  Result, ok, err, HttpStatus, ErrorCode, require, or_throw, forbidden, not_found, conflict,
  forbidden_operation, e2ee_ceremony_not_found, e2ee_ceremony_expired,
}
use elderflow.Access.Policy.{is_e2ee_key_operator}
use elderflow.Ceremony.State.{
  CeremonyState, pending_second_operator, ready_to_activate, activated, Participant, Ceremony, User,
  Store, Transaction, ◌>>=◌,
}

abbrev pub pure : {A : Type 0} → A → Transaction A
pure a s = (ok a, s)

abbrev pub lift : {A : Type 0} → Result A → Transaction A
lift result s = (result, s)

abbrev pub check : Bool → HttpStatus → ErrorCode → Transaction (Unit {0})
check test status code = lift (require test status code)

abbrev pub read : {A : Type 0} → (Store → A) → Transaction A
read f s = (ok (f s), s)

abbrev pub write : (Store → Store) → Transaction (Unit {0})
write f s = (ok tt, f s)

-- `dataSource.transaction`: what was written is kept only when the body returns.
abbrev pub committed : {A : Type 0} → Store → Result A × Store → Result A × Store
committed s (ok a, after) = (ok a, after)
committed s (err status code, after) = (err status code, s)

abbrev pub transaction : {A : Type 0} → Transaction A → Transaction A
transaction body s = committed s (body s)

abbrev pub is_open : CeremonyState → Bool
is_open pending_second_operator = true
is_open ready_to_activate = true
is_open _ = false

abbrev pub is_pending : CeremonyState → Bool
is_pending pending_second_operator = true
is_pending _ = false

abbrev pub is_ready : CeremonyState → Bool
is_ready ready_to_activate = true
is_ready _ = false

abbrev pub is_activated : CeremonyState → Bool
is_activated activated = true
is_activated _ = false

-- `manager.save`: the row with the same key, or a new one.
unfoldable pub saved : Ceremony → List Ceremony → List Ceremony
saved c [] = c ∷ []
saved c (row ∷ rows) = if row.id == c.id then c ∷ rows else row ∷ saved c rows

abbrev pub save_ceremony : Ceremony → Transaction (Unit {0})
save_ceremony c = write (λ s. record s { ceremonies = saved c s.ceremonies })

abbrev pub has_id : ℕ → Ceremony → Bool
has_id id c = c.id == id

-- `lockCeremony`.
abbrev pub lock_ceremony : ℕ → Transaction Ceremony
lock_ceremony id = do
  found ← read (λ s. find (has_id id) s.ceremonies)
  lift (or_throw found not_found e2ee_ceremony_not_found)

-- `assertCeremonyActive`.
abbrev pub assert_ceremony_active : ℕ → Ceremony → Transaction (Unit {0})
assert_ceremony_active now c = check (ltb now c.expires_at) conflict e2ee_ceremony_expired

abbrev pub assert_key_operator : User → Transaction (Unit {0})
assert_key_operator user = check (is_e2ee_key_operator user.role) forbidden forbidden_operation

abbrev pub is_participant : (user_id session_id : ℕ) → Participant → Bool
is_participant user_id session_id p = p.user_id == user_id && p.session_id == session_id

abbrev pub is_approver : (user_id session_id : ℕ) → Option Participant → Bool
is_approver user_id session_id none = false
is_approver user_id session_id (some p) = is_participant user_id session_id p

-- `isBoundParticipant`.
abbrev pub is_bound_participant : Ceremony → (user_id session_id : ℕ) → Bool
is_bound_participant c user_id session_id =
    is_participant user_id session_id c.initiator || is_approver user_id session_id c.approver
