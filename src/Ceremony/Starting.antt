-- ===== src/Ceremony/Starting.antt =====
-- A ceremony starts only when none is open; one that has expired is aborted first
-- (backend/src/e2ee/e2ee.service.ts).
use elderflow.Shared.{
  ℕ, ◌≡◌, refl, sym, ap, subst, arith, Bool-cases, inl, inr, true, false, not, Option, none, some,
  List, ◌==◌, ==_iff, if◌then◌else◌, find,
}
use elderflow.Shared.Errors.{ok}
use elderflow.Envelope.Values.{Bytes, Libraries, same_bytes}
use elderflow.Ceremony.State.{
  aborted, Ceremony, KeyCeremonyPayload, User, Store, Transaction, continue,
}
use elderflow.Ceremony.Tables.{saved, has_id, is_open, is_pending}
use elderflow.Ceremony.Steps.{is_some}
use elderflow.Ceremony.Start.{decode_exact}
use elderflow.Ceremony.Machine.{abort, count, Step, start, move, Steps, done, ◌then◌}
use elderflow.Ceremony.Inversions.{thrown_apart, check-ok, lift-ok}
use elderflow.Ceremony.Refinement.{operator-Steps}
use elderflow.Ceremony.Invariant.{IsStore}
use elderflow.Ceremony.Start.{
  StartRecovery, runs, displace, expected_state, new_ceremony, recovery_candidate, start_recovery,
  start_recovery_transaction, start_key_ceremony, start_key_ceremony_transaction,
}
use elderflow.Ceremony.Candidate.{validate_candidate_state, decode_key_envelope}
use elderflow.Ceremony.Rows.{find_unique, find-saved_fresh, count-open, is_open-find}
use elderflow.Ceremony.Machine.{one, count-saved}

abbrev opened : List Ceremony → Option Ceremony
opened rows = find (λ (c : Ceremony). is_open c.state) rows

-- The tables between the two steps.
record IsDisplaced (fresh : ℕ) (s u : Store) : Type 0 where
  steps : Steps s u
  none_open : count is_open u.ceremonies ≡ 0
  still_fresh : is_some (find (has_id fresh) u.ceremonies) ≡ false

fresh_apart :
    (fresh : ℕ) (c : Ceremony) (rows : List Ceremony)
    → find (has_id c.id) rows ≡ some c
    → is_some (find (has_id fresh) rows) ≡ false
    → (c.id == fresh) ≡ false
fresh_apart fresh c rows found h = elim (Bool-cases (c.id == fresh)) [
  | inl e ↦
      let found' = subst (λ (n : ℕ). find (has_id n) rows ≡ some c) ((==_iff _ _).0 e) found in
      let k = ap is_some found' in cc
  | inr e ↦ e
]

find-none : (found : Option Ceremony) → is_some found ≡ false → found ≡ none
find-none none h = refl
find-none (some c) h = cc

module _ {B : Type 0} {b : B} {t : Store} (fresh now : ℕ) (s : Store) (well : IsStore s)
    (is_fresh : find (has_id fresh) s.ceremonies ≡ none) where
  displace-ok :
      (active : Option Ceremony) (next : Unit {0} → Transaction B)
      → opened s.ceremonies ≡ active
      → continue next (displace now active s) ≡ (ok b, t)
      → (u : Store) × (IsDisplaced fresh s u) × (next tt u ≡ (ok b, t))
  unfolding displace
  displace-ok none next e h = (
    s,
    record {
      steps = done;
      none_open = count-open s.ceremonies e;
      still_fresh = ap is_some is_fresh;
    },
    h,
  )
  displace-ok (some c) next e h =
      let found = find_unique (λ (c : Ceremony). is_open c.state) c s.ceremonies well.unique e in
      let open_c = is_open-find c s.ceremonies e in
      let aborted_c = record c { state = aborted } in
      elim (Bool-cases (not (runs now c))) [
        | inl e' ↦ (
          record s { ceremonies = saved aborted_c s.ceremonies },
          record {
            steps = move c aborted_c found (abort open_c) then done;
            none_open = omega (
              arith,
              count-saved is_open aborted_c c s.ceremonies found,
              well.one_open,
              ap one open_c,
            );
            still_fresh =
                find-saved_fresh fresh aborted_c s.ceremonies
                  (fresh_apart fresh c s.ceremonies found (ap is_some is_fresh))
                  (ap is_some is_fresh);
          },
          rw e' at h,
        )
        | inr e' ↦ absurd (thrown_apart _ _ _ refl (rw e' at h))
      ]

pub Steps-then : {s u t : Store} → Steps s u → Step u t → Steps s t
Steps-then done step = step then done
Steps-then (first then rest) step = first then Steps-then rest step

-- The new ceremony is saved once none is open.
started :
    {fresh : ℕ} {s u t : Store} (c : Ceremony)
    → IsDisplaced fresh s u
    → c.id ≡ fresh
    → (is_pending c.state ≡ true) × (c.approver ≡ none) × (c.activated_generation ≡ none)
    → t ≡ record u { ceremonies = saved c u.ceremonies }
    → Steps s t
started {fresh} {s} {u} c d named new e =
    let free =
      subst (λ (n : ℕ). find (has_id n) u.ceremonies ≡ none) (sym named)
        (find-none (find (has_id fresh) u.ceremonies) d.still_fresh) in
    subst (Steps s) (sym e) (Steps-then d.steps (start c new d.none_open free))

module _ (lib : Libraries) (fresh now : ℕ) (user : User) (session_id : ℕ) (s : Store)
    (well : IsStore s) (is_fresh : find (has_id fresh) s.ceremonies ≡ none) where
  pub start_recovery-Steps :
      (input : StartRecovery) → Steps s (start_recovery lib fresh now user session_id input s).1
  unfolding start_recovery start_recovery_transaction
  start_recovery-Steps input =
      operator-Steps user s (start_recovery_transaction lib fresh now user session_id input)
        λ a t h.
          let (u, d, r0) = displace-ok fresh now s well is_fresh (opened s.ceremonies) _ refl h in
          let (state, h1, r1) =
            lift-ok u (expected_state input.expected_generation u.key_state) _ r0 in
          let (fingerprint, h2, r2) =
            lift-ok u (decode_exact 32 input.candidate_fingerprint) _ r1 in
          let (slot, h3, r3) =
            lift-ok u (decode_key_envelope lib state input.candidate_shared_passphrase_slot) _ r2 in
          let (agreed, r4) = check-ok u (same_bytes fingerprint (lib.sha256 slot)) _ _ _ r3 in
          let c =
            new_ceremony fresh now user session_id (recovery_candidate state slot) fingerprint in
          started c d refl (refl, refl, refl) (sym (ap (λ p. p.1) r4))

  pub start_key_ceremony-Steps :
      (candidate : KeyCeremonyPayload) (encoded : Bytes)
      → Steps s (start_key_ceremony lib fresh now user session_id candidate encoded s).1
  unfolding start_key_ceremony start_key_ceremony_transaction
  start_key_ceremony-Steps candidate encoded =
      operator-Steps user s
        (start_key_ceremony_transaction lib fresh now user session_id candidate encoded)
        λ a t h.
          let (u, d, r0) = displace-ok fresh now s well is_fresh (opened s.ceremonies) _ refl h in
          let (state, h1, r1) =
            lift-ok u (expected_state candidate.expected_generation u.key_state) _ r0 in
          let (valid, h2, r2) =
            lift-ok u (validate_candidate_state lib state candidate u.wrappers) _ r1 in
          let c = new_ceremony fresh now user session_id candidate (lib.sha256 encoded) in
          started c d refl (refl, refl, refl) (sym (ap (λ p. p.1) r2))
