-- ===== src/Writes/Retried.antt =====
-- What `validateWrite` answers when it is asked again (backend/src/e2ee/e2ee-scalar.service.ts).
use elderflow.Shared.{
  ℕ, ◌≡◌, refl, sym, subst, ◌∙◌, Bool, Bool-cases, inl, inr, true, Option, some, List, [], ◌∷◌,
  ◌++◌, find, ap, some-injective,
}
use elderflow.Shared.Errors.{ok, ok-injective}
use elderflow.Envelope.Values.{Bytes, Libraries}
use elderflow.Envelope.Readers.{same_bytes_refl}
use elderflow.Envelope.Scalar.{ScalarFieldContext, scalar_envelope_client_epoch_id}
use elderflow.Ceremony.State.{ClientEpoch, User}
use elderflow.Writes.Service.{
  ScalarWrite, Tables, ValidatedScalarWrite, is_usable, decode_envelope, is_write, commit,
  validate_write,
}
use elderflow.Writes.Counters.{commit-IsCommitted}
use elderflow.Writes.Checked.{
  IsChecked, usable_epoch, validate_write-IsChecked, IsChecked-validate_write,
}

-- The tables after a write, at a later time: the keys and the epochs are the same, and other writes
-- may have been appended.
pub record IsLater (u v : Tables) : Type 0 where
  pub more : List ScalarWrite
  pub same_keys : v.key_state ≡ u.key_state
  pub same_epochs : v.epochs ≡ u.epochs
  pub appended : v.writes ≡ u.writes ++ more

-- The epoch that an encoded envelope names can still write.
pub record IsStillUsable (lib : Libraries) (now : ℕ) (user : User) (encoded : Option Bytes)
    (t : Tables) : Type 0 where
  pub envelope : Bytes
  pub client_epoch_id : Bytes
  pub epoch : ClientEpoch
  pub decoded : decode_envelope encoded ≡ ok envelope
  pub named : scalar_envelope_client_epoch_id lib envelope ≡ ok client_epoch_id
  pub at_epoch : usable_epoch client_epoch_id t.epochs ≡ some epoch
  pub usable : is_usable now user epoch ≡ true

find-append_more :
    (test : ScalarWrite → Bool) (w : ScalarWrite) (rows more : List ScalarWrite)
    → find test rows ≡ some w
    → find test (rows ++ more) ≡ some w
unfolding find
find-append_more test w [] more h = cc
find-append_more test w (row ∷ rows) more h = elim (Bool-cases (test row)) [
  | inl f ↦ rw f (rw f at h)
  | inr f ↦ rw f (find-append_more test w rows more (rw f at h))
]

module _ (lib : Libraries) (now later_now : ℕ) (user : User) (context : ScalarFieldContext) where
  still_usable :
      {encoded : Option Bytes} {t : Tables} (k : IsChecked lib now user context encoded t)
      → IsStillUsable lib later_now user encoded t
      → is_usable later_now user k.epoch ≡ true
  still_usable {encoded} {t} k still =
      let same_envelope = ok-injective (sym still.decoded ∙ k.decoded) in
      let same_id =
        ok-injective
          (sym still.named ∙ ap (scalar_envelope_client_epoch_id lib) same_envelope ∙ k.named) in
      let same_epoch =
        some-injective (
          sym still.at_epoch
          ∙ ap (λ (id : Bytes). usable_epoch id t.epochs) same_id
          ∙ k.at_epoch) in
      subst (λ (e : ClientEpoch). is_usable later_now user e ≡ true) same_epoch still.usable

  -- A write that has succeeded, sent again later, is answered with the same envelope and revision as a
  -- duplicate and changes nothing, whatever the current revision is by then and whatever else has been
  -- written in between, provided that the keys and the epochs are still the same and the epoch that
  -- the envelope names can still write at that time.
  pub validate_write-retried :
      (encoded : Option Bytes) (current_revision later : Option ℕ) (t u v : Tables)
      (r : ValidatedScalarWrite)
      → validate_write lib now user context encoded current_revision t ≡ ok (r, u)
      → IsLater u v
      → IsStillUsable lib later_now user encoded t
      → validate_write lib later_now user context encoded later v
        ≡ ok (
          record { envelope = r.envelope; commit_revision = r.commit_revision; duplicate = true },
          v,
        )
  unfolding commit
  validate_write-retried encoded current_revision later t u v r h after still =
      let (k, rest) =
        validate_write-IsChecked lib now user context encoded current_revision t (r, u) h in
      let c =
        commit-IsCommitted k.client_epoch_id context k.envelope current_revision k.metadata t u r _
          refl rest in
      let stored = find-append_more _ c.row u.writes after.more c.stored in
      let at_row : find (is_write k.client_epoch_id context k.metadata.write_counter) v.writes
          ≡ some c.row =
        ap (find (is_write k.client_epoch_id context k.metadata.write_counter)) after.appended
        ∙ stored in
      IsChecked-validate_write lib now user context k later_now later v
        (after.same_keys ∙ c.same_keys) (after.same_epochs ∙ c.same_epochs) (still_usable k still)
      ∙ rw (
        at_row,
        c.same_fingerprint,
        same_bytes_refl k.metadata.fingerprint,
        c.answered,
        c.same_envelope,
      )
