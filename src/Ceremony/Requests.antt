-- ===== src/Ceremony/Requests.antt =====
-- The requests to E2eeService that change tables, as data (backend/src/e2ee/e2ee.controller.ts calls
-- one operation for each); `now` is the time that the request sees.
use elderflow.Shared.{ℕ, ◌≡◌, Option, none, find}
use elderflow.Envelope.Values.{Bytes, Libraries}
use elderflow.Ceremony.State.{KeyCeremonyPayload, User, Store}
use elderflow.Ceremony.Tables.{has_id}
use elderflow.Ceremony.Start.{StartRecovery, start_recovery, start_key_ceremony}
use elderflow.Ceremony.Steps.{approve_recovery, confirm_recovery_presence, abort_recovery}
use elderflow.Ceremony.Clients.{RegisterClientEpoch, register_client_epoch, revoke_client_epoch}
use elderflow.Ceremony.Activate.{activate_recovery}

pub record Caller : Type 0 where
  pub user : User
  pub session_id : ℕ
  pub now : ℕ

pub data Request : Type 0 where
  start_one : (fresh : ℕ) → StartRecovery → Request
  start_change : (fresh : ℕ) → KeyCeremonyPayload → (encoded : Bytes) → Request
  approve_one : (id : ℕ) → (candidate_fingerprint : Option Bytes) → Request
  confirm_one abort_one activate_one : (id : ℕ) → Request
  register_one : RegisterClientEpoch → Request
  revoke_one : (epoch_id : Bytes) → Request

-- The identifier that the database generates is that of no row.
abbrev pub HasFreshId : Request → Store → Type 0
HasFreshId (start_one fresh input) s = find (has_id fresh) s.ceremonies ≡ none
HasFreshId (start_change fresh candidate encoded) s = find (has_id fresh) s.ceremonies ≡ none
HasFreshId _ s = Unit {0}

unfoldable pub serve : Libraries → Caller → Request → Store → Store
unfolding start_recovery start_key_ceremony approve_recovery confirm_recovery_presence
    abort_recovery activate_recovery
serve lib k (start_one fresh input) s =
    (start_recovery lib fresh k.now k.user k.session_id input s).1
serve lib k (start_change fresh candidate encoded) s =
    (start_key_ceremony lib fresh k.now k.user k.session_id candidate encoded s).1
serve lib k (approve_one id candidate_fingerprint) s =
    (approve_recovery k.now k.user k.session_id id candidate_fingerprint s).1
serve lib k (confirm_one id) s = (confirm_recovery_presence k.now k.user k.session_id id s).1
serve lib k (abort_one id) s = (abort_recovery k.now k.user k.session_id id s).1
serve lib k (activate_one id) s = (activate_recovery k.now k.user k.session_id id s).1
serve lib k (register_one input) s = (register_client_epoch k.user input s).1
serve lib k (revoke_one epoch_id) s = (revoke_client_epoch k.now k.user epoch_id s).1
