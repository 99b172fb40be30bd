-- ===== src/Ceremony/Clients.antt =====
-- `registerClientEpoch` and `revokeClientEpoch` (backend/src/e2ee/e2ee.service.ts).
use elderflow.Shared.{
  ℕ, Bool, not, ◌&&◌, ◌||◌, Option, none, some, List, ◌∷◌, ◌==◌, if◌then◌else◌, length, any, map,
}
use elderflow.Shared.Errors.{
  Result, ok, err, bad_request, forbidden, conflict, internal_server_error, forbidden_operation,
  entity_not_found, e2ee_client_epoch_invalid, e2ee_client_epoch_conflict, ◌>>=◌, ◌>>◌, require,
  or_throw,
}
use elderflow.Access.Policy.{is_protected_text_reader}
use elderflow.Envelope.Values.{Bytes, same_bytes}
use elderflow.Ceremony.State.{KeyState, ClientEpoch, User, Store, Transaction}
use elderflow.Ceremony.Steps.{is_some}

-- `RegisterClientEpochDto`; a text in base64 is the bytes that it holds, `none` where it is not in the
-- normal form.
pub record RegisterClientEpoch : Type 0 where
  pub id : Bytes
  pub nonce_prefix : Option Bytes
  pub signing_public_key : Option Bytes

abbrev pub decode_client : ℕ → Option Bytes → Result Bytes
decode_client n none = err bad_request e2ee_client_epoch_invalid
decode_client n (some b) = if length b == n then ok b else err bad_request e2ee_client_epoch_invalid

-- The primary key and the unique constraint of the table, on which an insertion fails
-- (backend/src/database/migrations/1720000011000-E2eeKeyState.ts).
abbrev pub collides : ClientEpoch → ClientEpoch → Bool
collides e row =
    same_bytes row.id e.id
    || (same_bytes row.organization_id e.organization_id
        && same_bytes row.nonce_prefix e.nonce_prefix)

abbrev pub client_epoch :
    User → RegisterClientEpoch → KeyState → (nonce_prefix signing_public_key : Bytes) → ClientEpoch
client_epoch user input state nonce_prefix signing_public_key = record {
  id = input.id;
  organization_id = state.organization_id;
  user_id = user.id;
  nonce_prefix = nonce_prefix;
  signing_public_key = signing_public_key;
  revoked_at = none;
  write_grace_until = none;
}

abbrev pub insertable : List ClientEpoch → ClientEpoch → Result ClientEpoch
insertable epochs e =
    if any (collides e) epochs then err conflict e2ee_client_epoch_conflict else ok e

-- The row to insert.
unfoldable pub new_client_epoch : User → RegisterClientEpoch → Store → Result ClientEpoch
new_client_epoch user input s = do
  require (is_protected_text_reader user.role) forbidden forbidden_operation
  state ← or_throw s.key_state internal_server_error entity_not_found
  nonce_prefix ← decode_client 16 input.nonce_prefix
  signing_public_key ← decode_client 32 input.signing_public_key
  insertable s.epochs (client_epoch user input state nonce_prefix signing_public_key)

abbrev pub inserted : Result ClientEpoch → Transaction (Unit {0})
inserted (err status code) s = (err status code, s)
inserted (ok e) s = (ok tt, record s { epochs = e ∷ s.epochs })

unfoldable pub register_client_epoch : User → RegisterClientEpoch → Transaction (Unit {0})
unfolding new_client_epoch
register_client_epoch user input s = inserted (new_client_epoch user input s) s

abbrev pub revoked_by : (now user_id : ℕ) → Bytes → ClientEpoch → ClientEpoch
revoked_by now user_id epoch_id e =
    if same_bytes e.id epoch_id && e.user_id == user_id && not (is_some e.revoked_at)
    then record e { revoked_at = some now }
    else e

abbrev pub updated : (Store → Store) → Result (Unit {0}) → Transaction (Unit {0})
updated f (err status code) s = (err status code, s)
updated f (ok a) s = (ok a, f s)

unfoldable pub revoke_client_epoch : (now : ℕ) → User → Bytes → Transaction (Unit {0})
revoke_client_epoch now user epoch_id =
    updated (λ s. record s { epochs = map (revoked_by now user.id epoch_id) s.epochs })
      (require (is_protected_text_reader user.role) forbidden forbidden_operation)
