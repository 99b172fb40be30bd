-- ===== src/Writes/Counters.antt =====
-- What `validateWrite` records under the counter of an epoch
-- (backend/src/e2ee/e2ee-scalar.service.ts).
use elderflow.Shared.{
  ℕ, ◌≡◌, refl, sym, subst, ◌∙◌, Bool, Bool-cases, inl, inr, true, Option, none, some, List, [],
  ◌∷◌, ◌++◌, ==_refl, find, if◌then◌else◌, ◌⊎◌, ◌≤◌, ==_iff, ap, true-of-and, arith,
}
use elderflow.Shared.Errors.{
  ok, conflict, e2ee_counter_reuse, require, ok-of-bind, ok-injective, true-of-require,
}
use elderflow.Access.Policy.{is_e2ee_key_operator}
use elderflow.Envelope.Values.{Bytes, same_bytes, Libraries}
use elderflow.Envelope.Readers.{same_bytes_refl, same_bytes-true}
use elderflow.Envelope.Scalar.{
  ScalarFieldContext, ScalarEnvelopeMetadata, scalar_envelope_client_epoch_id,
}
use elderflow.Envelope.Scalar.Reading.{IsAccepted, validate_scalar_envelope-IsAccepted}
use elderflow.Ceremony.State.{KeyState, ClientEpoch, User}
use elderflow.Writes.Service.{
  ScalarWrite, Tables, ValidatedScalarWrite, is_client_epoch_writable, expected_envelope, is_write,
  next_revision, new_write, commit, validate_write,
}
use elderflow.Writes.Checked.{usable_epoch, validate_write-IsChecked}

find-append_one :
    (test : ScalarWrite → Bool) (w : ScalarWrite) (rows : List ScalarWrite)
    → find test rows ≡ none
    → test w ≡ true
    → find test (rows ++ w ∷ []) ≡ some w
unfolding find
find-append_one test w [] h e = rw e
find-append_one test w (row ∷ rows) h e = elim (Bool-cases (test row)) [
  | inl f ↦ let h' = rw f at h in cc
  | inr f ↦ rw f (find-append_one test w rows (rw f at h) e)
]

-- An epoch that is not revoked, or still within the time of grace after its revocation.
abbrev pub MayWrite : ℕ → ClientEpoch → Type 0
MayWrite now e =
    (e.revoked_at ≡ none) ⊎ ((until : ℕ) × (e.write_grace_until ≡ some until) × (now ≤ until))

may_write_of :
    (now : ℕ) (revoked_at grace : Option ℕ)
    → is_client_epoch_writable now revoked_at grace ≡ true
    → (revoked_at ≡ none) ⊎ ((until : ℕ) × (grace ≡ some until) × (now ≤ until))
may_write_of now none grace h = inl refl
may_write_of now (some at) none h = cc
may_write_of now (some at) (some until) h = inr (until, refl, ground arith)

-- A write as it is stored: accepted by the validator for the key state and the epoch, and counted.
pub record IsRecorded (lib : Libraries) (now : ℕ) (user : User) (context : ScalarFieldContext)
    (current_revision : Option ℕ) (before after : Tables) (r : ValidatedScalarWrite) : Type 0 where
  pub state : KeyState
  pub epoch : ClientEpoch
  pub client_epoch_id : Bytes
  pub metadata : ScalarEnvelopeMetadata
  pub row : ScalarWrite
  pub operator : is_e2ee_key_operator user.role ≡ true
  pub keys : before.key_state ≡ some state
  pub named : scalar_envelope_client_epoch_id lib r.envelope ≡ ok client_epoch_id
  pub at_epoch : usable_epoch client_epoch_id before.epochs ≡ some epoch
  pub own : epoch.user_id ≡ user.id
  pub may_write : MayWrite now epoch
  pub accepted :
      IsAccepted lib r.envelope (expected_envelope context state epoch client_epoch_id) metadata
  pub stored :
      find (is_write client_epoch_id context metadata.write_counter) after.writes ≡ some row
  pub same_fingerprint : row.envelope_fingerprint ≡ metadata.fingerprint
  pub answered : r.commit_revision ≡ row.commit_revision
  pub revision :
      r.commit_revision
      ≡ (if r.duplicate then row.commit_revision else next_revision current_revision)
  pub appended : after.writes ≡ (if r.duplicate then before.writes else before.writes ++ row ∷ [])
  pub same_keys : after.key_state ≡ before.key_state
  pub same_epochs : after.epochs ≡ before.epochs

-- What a commit stores, by what was there.
pub record IsCommitted (client_epoch_id : Bytes) (context : ScalarFieldContext) (envelope : Bytes)
    (current_revision : Option ℕ) (metadata : ScalarEnvelopeMetadata) (before after : Tables)
    (r : ValidatedScalarWrite) : Type 0 where
  pub row : ScalarWrite
  pub same_envelope : r.envelope ≡ envelope
  pub stored :
      find (is_write client_epoch_id context metadata.write_counter) after.writes ≡ some row
  pub same_fingerprint : row.envelope_fingerprint ≡ metadata.fingerprint
  pub answered : r.commit_revision ≡ row.commit_revision
  pub revision :
      r.commit_revision
      ≡ (if r.duplicate then row.commit_revision else next_revision current_revision)
  pub appended : after.writes ≡ (if r.duplicate then before.writes else before.writes ++ row ∷ [])
  pub same_keys : after.key_state ≡ before.key_state
  pub same_epochs : after.epochs ≡ before.epochs

is_write-new_write :
    (client_epoch_id : Bytes) (context : ScalarFieldContext) (metadata : ScalarEnvelopeMetadata)
    (n : ℕ)
    → is_write client_epoch_id context metadata.write_counter
        (new_write client_epoch_id context metadata n)
      ≡ true
is_write-new_write client_epoch_id context metadata n = rw (
  same_bytes_refl client_epoch_id,
  same_bytes_refl context.record_id,
  ==_refl context.field_id,
  ==_refl metadata.write_counter,
)

module _ (client_epoch_id : Bytes) (context : ScalarFieldContext) (envelope : Bytes)
    (current_revision : Option ℕ) (metadata : ScalarEnvelopeMetadata) (t u : Tables)
    (r : ValidatedScalarWrite) where
  pub commit-IsCommitted :
      (found : Option ScalarWrite)
      → find (is_write client_epoch_id context metadata.write_counter) t.writes ≡ found
      → commit client_epoch_id context envelope current_revision metadata t found ≡ ok (r, u)
      → IsCommitted client_epoch_id context envelope current_revision metadata t u r
  unfolding commit
  commit-IsCommitted none e h =
      let done = ok-injective h in
      let w = new_write client_epoch_id context metadata (next_revision current_revision) in
      subst
        (λ (p : ValidatedScalarWrite × Tables).
          IsCommitted client_epoch_id context envelope current_revision metadata t p.1 p.0)
        done
        (record {
          row = w;
          same_envelope = refl;
          stored = find-append_one _ w t.writes e (
              is_write-new_write client_epoch_id context metadata (next_revision current_revision));
          same_fingerprint = refl;
          answered = refl;
          revision = refl;
          appended = refl;
          same_keys = refl;
          same_epochs = refl;
        })
  commit-IsCommitted (some w) e h =
      let (d, rest, agreed) =
        ok-of-bind _
          (require (same_bytes w.envelope_fingerprint metadata.fingerprint) conflict
            e2ee_counter_reuse)
          h in
      subst
        (λ (p : ValidatedScalarWrite × Tables).
          IsCommitted client_epoch_id context envelope current_revision metadata t p.1 p.0)
        (ok-injective rest)
        (record {
          row = w;
          same_envelope = refl;
          stored = e;
          same_fingerprint = same_bytes-true _ _ (true-of-require _ _ _ agreed);
          answered = refl;
          revision = refl;
          appended = refl;
          same_keys = refl;
          same_epochs = refl;
        })

module _ (lib : Libraries) (now : ℕ) (user : User) (context : ScalarFieldContext) where
  -- A write that succeeds is from an operator; the epoch that its envelope names is stored, is the
  -- user's own, and is not revoked or still within its time of grace. The envelope is accepted for the
  -- current key and this epoch, and the row of its counter holds the envelope's fingerprint and the
  -- revision that is answered: the stored one for a duplicate, which stores nothing, and otherwise the
  -- next one, in a row that is appended.
  pub validate_write-IsRecorded :
      (encoded : Option Bytes) (current_revision : Option ℕ) (t u : Tables)
      (r : ValidatedScalarWrite)
      → validate_write lib now user context encoded current_revision t ≡ ok (r, u)
      → IsRecorded lib now user context current_revision t u r
  validate_write-IsRecorded encoded current_revision t u r h =
      let (k, rest) =
        validate_write-IsChecked lib now user context encoded current_revision t (r, u) h in
      let c =
        commit-IsCommitted k.client_epoch_id context k.envelope current_revision k.metadata t u r _
          refl rest in
      let usable =
        true-of-and (is_client_epoch_writable now k.epoch.revoked_at k.epoch.write_grace_until) _
          k.usable in
      record {
        state = k.state;
        epoch = k.epoch;
        client_epoch_id = k.client_epoch_id;
        metadata = k.metadata;
        row = c.row;
        operator = k.operator;
        keys = k.keys;
        named = ap (scalar_envelope_client_epoch_id lib) c.same_envelope ∙ k.named;
        at_epoch = k.at_epoch;
        own = (==_iff _ _).0 usable.1;
        may_write = may_write_of now k.epoch.revoked_at k.epoch.write_grace_until usable.0;
        accepted =
            subst
              (λ (b : Bytes).
                IsAccepted lib b (expected_envelope context k.state k.epoch k.client_epoch_id)
                  k.metadata)
              (sym c.same_envelope)
              (validate_scalar_envelope-IsAccepted lib _ k.envelope k.metadata k.valid);
        stored = c.stored;
        same_fingerprint = c.same_fingerprint;
        answered = c.answered;
        revision = c.revision;
        appended = c.appended;
        same_keys = c.same_keys;
        same_epochs = c.same_epochs;
      }
