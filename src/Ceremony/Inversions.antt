-- ===== src/Ceremony/Inversions.antt =====
-- What a transaction's body has read and tested when it returns (backend/src/e2ee/e2ee.service.ts).
use elderflow.Shared.{
  ℕ, ◌≡◌, refl, sym, ap, subst, Bool, Bool-cases, inl, inr, true, false, not, ◌||◌, some, List, [],
  ◌∷◌, ◌==◌, ==_iff, find, some-injective,
}
use elderflow.Shared.Errors.{
  Result, ok, err, HttpStatus, ErrorCode, require, or_throw, found-of-or_throw,
}
use elderflow.Ceremony.State.{Ceremony, Store, Transaction, continue}
use elderflow.Ceremony.Tables.{has_id, lock_ceremony}
use elderflow.Ceremony.Steps.{
  is_some, assert_recorded_operators_eligible, are_eligible, refuse_unless,
}

pub thrown_apart :
    {B : Type 0} {b : B} {t : Store} (r : Result B × Store) (status : HttpStatus) (code : ErrorCode)
    → r.0 ≡ err status code
    → r ≡ (ok b, t)
    → ⊥
thrown_apart r status code e h = let e' = ap (λ p. p.0) h in cc

module _ {B : Type 0} {b : B} {t : Store} (s : Store) where
  pub check-ok :
      (test : Bool) (status : HttpStatus) (code : ErrorCode) (next : Unit {0} → Transaction B)
      → continue next (require test status code, s) ≡ (ok b, t)
      → (test ≡ true) × (next tt s ≡ (ok b, t))
  check-ok true status code next h = (refl, h)
  check-ok false status code next h = absurd (thrown_apart (err status code, s) status code refl h)

  pub lift-ok :
      {A : Type 0} (result : Result A) (next : A → Transaction B)
      → continue next (result, s) ≡ (ok b, t)
      → (a : A) × (result ≡ ok a) × (next a s ≡ (ok b, t))
  lift-ok (ok a) next h = (a, refl, h)
  lift-ok (err status code) next h = absurd (thrown_apart (err status code, s) status code refl h)

find-id :
    (id : ℕ) (c : Ceremony) (rows : List Ceremony) → find (has_id id) rows ≡ some c → c.id ≡ id
unfolding find
find-id id c [] h = cc
find-id id c (row ∷ rows) h = elim (Bool-cases (row.id == id)) [
  | inl e ↦ subst (λ (x : Ceremony). x.id ≡ id) (some-injective (rw e at h)) ((==_iff _ _).0 e)
  | inr e ↦ find-id id c rows (rw e at h)
]

module _ {B : Type 0} {b : B} {t : Store} (s : Store) where
  -- The row that `lockCeremony` gives is the one of its identifier.
  pub lock_ceremony-ok :
      (id : ℕ) (next : Ceremony → Transaction B)
      → continue next (lock_ceremony id s) ≡ (ok b, t)
      → (c : Ceremony) × (find (has_id id) s.ceremonies ≡ some c)
        × (find (has_id c.id) s.ceremonies ≡ some c)
        × (next c s ≡ (ok b, t))
  lock_ceremony-ok id next h =
      let (c, found, rest) =
        lift-ok s
          (or_throw (find (has_id id) s.ceremonies) HttpStatus.not_found
            ErrorCode.e2ee_ceremony_not_found)
          next h in
      let at_id = found-of-or_throw _ _ _ found in
      (
        c,
        at_id,
        subst (λ (n : ℕ). find (has_id n) s.ceremonies ≡ some c)
            (sym (find-id id c s.ceremonies at_id)) at_id,
        rest,
      )

  pub eligible-ok :
      (c : Ceremony) (require_approver : Bool) (next : Unit {0} → Transaction B)
      → continue next (assert_recorded_operators_eligible c require_approver s) ≡ (ok b, t)
      → (are_eligible s.users c.initiator c.approver ≡ true) × (next tt s ≡ (ok b, t))
  unfolding assert_recorded_operators_eligible refuse_unless
  eligible-ok c require_approver next h =
      elim (Bool-cases (not require_approver || is_some c.approver)) [
        | inl e ↦ elim (Bool-cases (are_eligible s.users c.initiator c.approver)) [
          | inl f ↦ (f, rw (e, f) at h)
          | inr f ↦ absurd (thrown_apart _ _ _ refl (rw (e, f) at h))
        ]
        | inr e ↦ absurd (thrown_apart _ _ _ refl (rw e at h))
      ]
