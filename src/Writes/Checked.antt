-- ===== src/Writes/Checked.antt =====
-- What `validateWrite` has tested before it commits (backend/src/e2ee/e2ee-scalar.service.ts).
use elderflow.Shared.{ℕ, ◌≡◌, ap, ◌∙◌, true, Option, some, List, find}
use elderflow.Shared.Errors.{
  Result, ok, forbidden, conflict, service_unavailable, e2ee_protected_ciphertext_forbidden,
  e2ee_not_configured, e2ee_client_epoch_invalid, require, or_throw, ok-of-bind, true-of-require,
  found-of-or_throw,
}
use elderflow.Access.Policy.{is_e2ee_key_operator}
use elderflow.Envelope.Values.{Bytes, same_bytes, Libraries}
use elderflow.Envelope.Scalar.{
  ScalarFieldContext, ScalarEnvelopeMetadata, scalar_envelope_client_epoch_id,
  validate_scalar_envelope,
}
use elderflow.Ceremony.State.{KeyState, ClientEpoch, User}
use elderflow.Writes.Service.{
  Tables, ValidatedScalarWrite, is_usable, decode_envelope, expected_envelope, is_write, commit,
  validate_write,
}

abbrev pub usable_epoch : Bytes → List ClientEpoch → Option ClientEpoch
usable_epoch client_epoch_id = find (λ (e : ClientEpoch). same_bytes e.id client_epoch_id)

module _ (lib : Libraries) (now : ℕ) (user : User) (context : ScalarFieldContext) where
  -- What a request has shown before it is committed.
  pub record IsChecked (encoded : Option Bytes) (t : Tables) : Type 0 where
    pub envelope : Bytes
    pub client_epoch_id : Bytes
    pub state : KeyState
    pub epoch : ClientEpoch
    pub metadata : ScalarEnvelopeMetadata
    pub operator : is_e2ee_key_operator user.role ≡ true
    pub decoded : decode_envelope encoded ≡ ok envelope
    pub named : scalar_envelope_client_epoch_id lib envelope ≡ ok client_epoch_id
    pub keys : t.key_state ≡ some state
    pub at_epoch : usable_epoch client_epoch_id t.epochs ≡ some epoch
    pub usable : is_usable now user epoch ≡ true
    pub valid :
        validate_scalar_envelope lib envelope
          (expected_envelope context state epoch client_epoch_id)
        ≡ ok metadata

  abbrev pub checked_commit :
      {encoded : Option Bytes} {t : Tables} (k : IsChecked encoded t)
      → Option ℕ
      → Tables
      → Result (ValidatedScalarWrite × Tables)
  checked_commit k current_revision u =
      commit k.client_epoch_id context k.envelope current_revision k.metadata u
        (find (is_write k.client_epoch_id context k.metadata.write_counter) u.writes)

  pub validate_write-IsChecked :
      (encoded : Option Bytes) (current_revision : Option ℕ) (t : Tables)
      (r : ValidatedScalarWrite × Tables)
      → validate_write lib now user context encoded current_revision t ≡ ok r
      → (k : IsChecked encoded t) × (checked_commit k current_revision t ≡ ok r)
  unfolding validate_write
  validate_write-IsChecked encoded current_revision t r h =
      let (d0, r0, h0) =
        ok-of-bind _
          (require (is_e2ee_key_operator user.role) forbidden e2ee_protected_ciphertext_forbidden)
          h in
      let (envelope, r1, h1) = ok-of-bind _ (decode_envelope encoded) r0 in
      let (epoch_id, r2, h2) = ok-of-bind _ (scalar_envelope_client_epoch_id lib envelope) r1 in
      let (state, r3, h3) =
        ok-of-bind _ (or_throw t.key_state service_unavailable e2ee_not_configured) r2 in
      let (epoch, r4, h4) =
        ok-of-bind _ (or_throw (usable_epoch epoch_id t.epochs) conflict e2ee_client_epoch_invalid)
          r3 in
      let (d5, r5, h5) =
        ok-of-bind _ (require (is_usable now user epoch) conflict e2ee_client_epoch_invalid) r4 in
      let (metadata, r6, h6) =
        ok-of-bind _
          (validate_scalar_envelope lib envelope (expected_envelope context state epoch epoch_id))
          r5 in
      let k : IsChecked encoded t = record {
        envelope = envelope;
        client_epoch_id = epoch_id;
        state = state;
        epoch = epoch;
        metadata = metadata;
        operator = true-of-require _ _ _ h0;
        decoded = h1;
        named = h2;
        keys = found-of-or_throw _ _ _ h3;
        at_epoch = found-of-or_throw _ _ _ h4;
        usable = true-of-require _ _ _ h5;
        valid = h6;
      } in
      (k, r6)

  -- The checks depend on the keys, the epochs and the time, not on the writes.
  pub IsChecked-validate_write :
      {encoded : Option Bytes} {t : Tables} (k : IsChecked encoded t) (later_now : ℕ)
      (current_revision : Option ℕ) (u : Tables)
      → u.key_state ≡ t.key_state
      → u.epochs ≡ t.epochs
      → is_usable later_now user k.epoch ≡ true
      → validate_write lib later_now user context encoded current_revision u
        ≡ checked_commit k current_revision u
  unfolding validate_write
  IsChecked-validate_write k later_now current_revision u same_keys same_epochs usable =
      let keys' =
        ap (λ (state : Option KeyState). or_throw state service_unavailable e2ee_not_configured)
          (same_keys ∙ k.keys) in
      rw (
        k.operator,
        k.decoded,
        k.named,
        keys',
        ap (usable_epoch k.client_epoch_id) same_epochs ∙ k.at_epoch,
        usable,
        k.valid,
      )
