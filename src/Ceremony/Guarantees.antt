-- ===== src/Ceremony/Guarantees.antt =====
-- What the service promises of the key ceremonies, over any sequence of requests
-- (backend/src/e2ee/e2ee.service.ts).
use elderflow.Shared.{
  Bool-cases, inl, inr, subst, any, ◌∷◌, ℕ, arith, ◌+◌, ◌≡◌, refl, false, some, find,
}
use elderflow.Shared.Errors.{
  Result, ok, err, require, or_throw, ok-of-bind, ok-injective, forbidden, forbidden_operation,
  internal_server_error, entity_not_found,
}
use elderflow.Envelope.Values.{Bytes, Libraries}
use elderflow.Ceremony.State.{Ceremony, ClientEpoch, User, Store}
use elderflow.Ceremony.Tables.{has_id, is_open, is_activated}
use elderflow.Access.Policy.{is_protected_text_reader}
use elderflow.Ceremony.Clients.{
  RegisterClientEpoch, decode_client, collides, client_epoch, new_client_epoch, inserted,
  register_client_epoch, revoke_client_epoch,
}
use elderflow.Ceremony.Machine.{count, register, revoke, Steps, done, ◌then◌}
use elderflow.Ceremony.Requests.{
  Caller, Request, start_one, start_change, approve_one, confirm_one, abort_one, activate_one,
  register_one, revoke_one, HasFreshId, serve,
}
use elderflow.Ceremony.Invariant.{IsStore}
use elderflow.Ceremony.Generations.{generation_of, Steps-IsStore, Steps-generation, Steps-ended}
use elderflow.Ceremony.Refinement.{
  approve_recovery-Steps, confirm_recovery_presence-Steps, abort_recovery-Steps,
}
use elderflow.Ceremony.Activating.{activate_recovery-Steps}
use elderflow.Ceremony.Starting.{start_recovery-Steps, start_key_ceremony-Steps}

inserted-Steps :
    (user : User) (input : RegisterClientEpoch) (s : Store) (r : Result ClientEpoch)
    → new_client_epoch user input s ≡ r
    → Steps s (inserted r s).1
unfolding new_client_epoch
inserted-Steps user input s (err status code) h = done
inserted-Steps user input s (ok e) h =
    let (d0, r0, h0) =
      ok-of-bind _ (require (is_protected_text_reader user.role) forbidden forbidden_operation) h in
    let (state, r1, h1) =
      ok-of-bind _ (or_throw s.key_state internal_server_error entity_not_found) r0 in
    let (prefix, r2, h2) = ok-of-bind _ (decode_client 16 input.nonce_prefix) r1 in
    let (key, r3, h3) = ok-of-bind _ (decode_client 32 input.signing_public_key) r2 in
    let new = client_epoch user input state prefix key in
    elim (Bool-cases (any (collides new) s.epochs)) [
      | inl f ↦ let r3' = rw f at r3 in cc
      | inr f ↦
          subst (λ (x : ClientEpoch). Steps s (record s { epochs = x ∷ s.epochs }))
            (ok-injective (rw f at r3)) (register new f then done)
    ]

module _ (now : ℕ) (user : User) (epoch_id : Bytes) (s : Store) where
  revoke-Steps : Steps s (revoke_client_epoch now user epoch_id s).1
  unfolding revoke_client_epoch
  revoke-Steps = elim (Bool-cases (is_protected_text_reader user.role)) [
    | inl e ↦ rw e (revoke now user.id epoch_id then done)
    | inr e ↦ rw e done
  ]

-- Every request to the service, also one that is refused, makes steps of the state machine of key
-- ceremonies and no other change, when the tables are well formed and a new row's identifier is fresh.
pub serve-Steps :
    (lib : Libraries) (k : Caller) (r : Request) (s : Store)
    → IsStore s
    → HasFreshId r s
    → Steps s (serve lib k r s)
unfolding serve register_client_epoch revoke_client_epoch
serve-Steps lib k (start_one fresh input) s h f =
    start_recovery-Steps lib fresh k.now k.user k.session_id s h f input
serve-Steps lib k (start_change fresh candidate encoded) s h f =
    start_key_ceremony-Steps lib fresh k.now k.user k.session_id s h f candidate encoded
serve-Steps lib k (approve_one id candidate_fingerprint) s h f =
    approve_recovery-Steps k.now k.user k.session_id id candidate_fingerprint s
serve-Steps lib k (confirm_one id) s h f =
    confirm_recovery_presence-Steps k.now k.user k.session_id id s
serve-Steps lib k (abort_one id) s h f = abort_recovery-Steps k.now k.user k.session_id id s
serve-Steps lib k (activate_one id) s h f = activate_recovery-Steps k.now k.user k.session_id id s
serve-Steps lib k (register_one input) s h f =
    inserted-Steps k.user input s (new_client_epoch k.user input s) refl
serve-Steps lib k (revoke_one epoch_id) s h f = revoke-Steps k.now k.user epoch_id s

-- A run of requests, one after the other, each with fresh identifiers.
pub data Run (lib : Libraries) : Store → Store → Type 0 where
  idle : {s : Store} → Run lib s s
  next :
      {s t : Store} (k : Caller) (r : Request)
      → HasFreshId r s
      → Run lib (serve lib k r s) t
      → Run lib s t

-- After any run of requests at most one ceremony is open, every ceremony that is ready or activated
-- has an approver other than its initiator, and identifiers are unique, when that held before.
pub run-IsStore : (lib : Libraries) (s t : Store) → Run lib s t → IsStore s → IsStore t
run-IsStore lib s t idle h = h
run-IsStore lib s t (next k r fresh rest) h =
    run-IsStore lib _ t rest (Steps-IsStore (serve-Steps lib k r s h fresh) h)

-- Over any run of requests the generation of the keys grows by exactly the number of ceremonies that
-- have been activated in it.
pub run-generation :
    (lib : Libraries) (s t : Store)
    → Run lib s t
    → IsStore s
    → generation_of t.key_state + count is_activated s.ceremonies
      ≡ generation_of s.key_state + count is_activated t.ceremonies
run-generation lib s t idle h = refl
run-generation lib s t (next k r fresh rest) h =
    let steps = serve-Steps lib k r s h fresh in
    omega (arith, Steps-generation steps, run-generation lib _ t rest (Steps-IsStore steps h))

-- A ceremony that has been aborted or activated is never changed by a later request.
pub run-ended :
    (lib : Libraries) (s t : Store) (id : ℕ) (c : Ceremony)
    → Run lib s t
    → IsStore s
    → find (has_id id) s.ceremonies ≡ some c
    → is_open c.state ≡ false
    → find (has_id id) t.ceremonies ≡ some c
run-ended lib s t id c idle h found closed = found
run-ended lib s t id c (next k r fresh rest) h found closed =
    let steps = serve-Steps lib k r s h fresh in
    run-ended lib _ t id c rest (Steps-IsStore steps h) (Steps-ended id c steps found closed) closed
