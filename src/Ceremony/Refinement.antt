-- ===== src/Ceremony/Refinement.antt =====
-- The requests of the service drive the state machine and nothing else
-- (backend/src/e2ee/e2ee.service.ts).
use elderflow.Shared.{
  ℕ, ltb, ◌≡◌, refl, sym, ap, subst, Bool-cases, inl, inr, false, not, Option, some, List, ◌==◌,
  false-of-not, if◌then◌else◌, find, some-injective,
}
use elderflow.Shared.Errors.{
  Result, ok, err, or_throw, forbidden, forbidden_operation, found-of-or_throw,
}
use elderflow.Access.Policy.{is_e2ee_key_operator}
use elderflow.Envelope.Values.{Bytes, same_bytes}
use elderflow.Ceremony.State.{
  CeremonyState, pending_second_operator, ready_to_activate, activated, aborted, Ceremony, User,
  Store, Transaction, ◌>>◌,
}
use elderflow.Ceremony.Tables.{
  saved, has_id, is_open, is_pending, transaction, committed, assert_key_operator, is_participant,
  is_approver, is_bound_participant,
}
use elderflow.Ceremony.Steps.{
  approve_recovery, approve_recovery_transaction, confirmed, confirm_recovery_presence,
  confirm_recovery_presence_transaction, aborts, abort_recovery, abort_recovery_transaction,
}
use elderflow.Ceremony.Start.{decode_exact}
use elderflow.Ceremony.Rows.{saved-same}
use elderflow.Ceremony.Machine.{
  approve, confirm_initiator, confirm_approver, abort, move, Steps, done, ◌then◌,
}
use elderflow.Ceremony.Inversions.{thrown_apart, check-ok, lift-ok, lock_ceremony-ok, eligible-ok}

-- What an operation does to the tables, by what its body has done when it returns.
pub transaction-Steps :
    {A : Type 0} (s : Store) (r : Result A × Store)
    → ((a : A) (t : Store) → r ≡ (ok a, t) → Steps s t)
    → Steps s (committed s r).1
transaction-Steps s (ok a, t) h = h a t refl
transaction-Steps s (err status code, t) h = done

pub committed-ok :
    {A : Type 0} {a : A} {t : Store} (s : Store) (r : Result A × Store)
    → committed s r ≡ (ok a, t)
    → r ≡ (ok a, t)
committed-ok s (ok a, t) h = h
committed-ok s (err status code, t) h =
    absurd (thrown_apart (err status code, s) status code refl h)

-- An operation of the key operators, by what its transaction has done when it returns.
pub operator-Steps :
    {A : Type 0} (user : User) (s : Store) (body : Transaction A)
    → ((a : A) (t : Store) → body s ≡ (ok a, t) → Steps s t)
    → Steps s ((assert_key_operator user >> transaction body) s).1
operator-Steps user s body h = elim (Bool-cases (is_e2ee_key_operator user.role)) [
  | inl e ↦ rw e (transaction-Steps s (body s) h)
  | inr e ↦ rw e done
]

unchanged :
    (s : Store) (c : Ceremony)
    → find (has_id c.id) s.ceremonies ≡ some c
    → Steps s (record s { ceremonies = saved c s.ceremonies })
unchanged s c found =
    subst (λ (rows : List Ceremony). Steps s (record s { ceremonies = rows }))
      (sym (saved-same c s.ceremonies found)) done

module _ (now : ℕ) (user : User) (session_id id : ℕ) where
  pub approve_recovery-Steps :
      (candidate_fingerprint : Option Bytes) (s : Store)
      → Steps s (approve_recovery now user session_id id candidate_fingerprint s).1
  unfolding approve_recovery approve_recovery_transaction
  approve_recovery-Steps candidate_fingerprint s =
      operator-Steps user s
        (approve_recovery_transaction now user session_id id candidate_fingerprint)
        λ a t h.
          let (c, found, at_c, r0) = lock_ceremony-ok s id _ h in
          let (active, r1) = check-ok s (ltb now c.expires_at) _ _ _ r0 in
          let (pending, r2) = check-ok s (is_pending c.state) _ _ _ r1 in
          let (apart, r3) = check-ok s (not (c.initiator.user_id == user.id)) _ _ _ r2 in
          let (eligible, r4) = eligible-ok s c false _ r3 in
          let (fingerprint, decoded, r5) = lift-ok s (decode_exact 32 candidate_fingerprint) _ r4 in
          let (agreed, r6) = check-ok s (same_bytes c.candidate_fingerprint fingerprint) _ _ _ r5 in
          subst (Steps s) (ap (λ p. p.1) r6)
            (move c _ at_c (approve _ now pending (false-of-not _ apart)) then done)

  confirmed-Steps :
      (c p : Ceremony) (state : CeremonyState) (s : Store)
      → c.state ≡ state
      → find (has_id c.id) s.ceremonies ≡ some c
      → confirmed now user session_id id c state ≡ some p
      → Steps s (record s { ceremonies = saved p s.ceremonies })
  unfolding confirmed
  confirmed-Steps c p pending_second_operator s e found h =
      elim (Bool-cases (is_participant user.id session_id c.initiator)) [
        | inl f ↦
            subst (λ (q : Ceremony). Steps s (record s { ceremonies = saved q s.ceremonies }))
              (some-injective (rw f at h))
              (move c _ found (confirm_initiator now (ap is_open e)) then done)
        | inr f ↦ let h' = rw f at h in cc
      ]
  confirmed-Steps c p ready_to_activate s e found h =
      elim (Bool-cases (is_participant user.id session_id c.initiator)) [
        | inl f ↦
            subst (λ (q : Ceremony). Steps s (record s { ceremonies = saved q s.ceremonies }))
              (some-injective (rw f at h))
              (move c _ found (confirm_initiator now (ap is_open e)) then done)
        | inr f ↦ elim (Bool-cases (is_approver user.id session_id c.approver)) [
          | inl g ↦
              subst (λ (q : Ceremony). Steps s (record s { ceremonies = saved q s.ceremonies }))
                (some-injective (rw (f, g) at h))
                (move c _ found (confirm_approver now (ap is_open e)) then done)
          | inr g ↦ let h' = rw (f, g) at h in cc
        ]
      ]
  confirmed-Steps c p activated s e found h =
      subst (λ (q : Ceremony). Steps s (record s { ceremonies = saved q s.ceremonies }))
        (some-injective h) (unchanged s c found)
  confirmed-Steps c p aborted s e found h =
      subst (λ (q : Ceremony). Steps s (record s { ceremonies = saved q s.ceremonies }))
        (some-injective h) (unchanged s c found)

  pub confirm_recovery_presence-Steps :
      (s : Store) → Steps s (confirm_recovery_presence now user session_id id s).1
  unfolding confirm_recovery_presence confirm_recovery_presence_transaction
  confirm_recovery_presence-Steps s =
      operator-Steps user s (confirm_recovery_presence_transaction now user session_id id) λ a t h.
        let (c, found, at_c, r0) = lock_ceremony-ok s id _ h in
        let (active, r1) = check-ok s (ltb now c.expires_at) _ _ _ r0 in
        let (p, present, r2) =
          lift-ok s
            (or_throw (confirmed now user session_id id c c.state) forbidden forbidden_operation) _
            r1 in
        subst (Steps s) (ap (λ p. p.1) r2)
          (confirmed-Steps c p c.state s refl at_c (found-of-or_throw _ _ _ present))

  aborts-Steps :
      (c : Ceremony) (state : CeremonyState) (s t : Store) (a : Unit {0})
      → is_open c.state ≡ is_open state
      → find (has_id c.id) s.ceremonies ≡ some c
      → aborts now user session_id id c state s ≡ (ok a, t)
      → Steps s t
  unfolding aborts
  aborts-Steps c activated s t a e found h = subst (Steps s) (ap (λ p. p.1) h) done
  aborts-Steps c aborted s t a e found h = subst (Steps s) (ap (λ p. p.1) h) done
  aborts-Steps c pending_second_operator s t a e found h =
      let (bound, r) = check-ok s (is_bound_participant c user.id session_id) _ _ _ h in
      subst (Steps s) (ap (λ p. p.1) r) (move c _ found (abort e) then done)
  aborts-Steps c ready_to_activate s t a e found h =
      let (bound, r) = check-ok s (is_bound_participant c user.id session_id) _ _ _ h in
      subst (Steps s) (ap (λ p. p.1) r) (move c _ found (abort e) then done)

  pub abort_recovery-Steps : (s : Store) → Steps s (abort_recovery now user session_id id s).1
  unfolding abort_recovery abort_recovery_transaction
  abort_recovery-Steps s =
      operator-Steps user s (abort_recovery_transaction now user session_id id) λ a t h.
        let (c, found, at_c, r0) = lock_ceremony-ok s id _ h in
        aborts-Steps c c.state s t a refl at_c r0
