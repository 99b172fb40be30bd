-- ===== src/Ceremony/Eligible.antt =====
-- What `assertRecordedOperatorsEligible` and `isBoundParticipant` have tested, in the terms of the
-- tables (backend/src/e2ee/e2ee.service.ts).
use elderflow.Shared.{
  ℕ, ◌≡◌, ◌≢◌, ◌⊎◌, sym, ap, ◌∙◌, arith, Bool, Bool-cases, true, false, not, ◌&&◌, ◌||◌, some, List,
  [], ◌∷◌, inl, inr, All, ◌==◌, ==_iff, true-of-and, false-of-not, length, filter, any,
}
use elderflow.Shared.Sets.{contains}
use elderflow.Access.Policy.{is_e2ee_key_operator}
use elderflow.Ceremony.State.{Participant, Ceremony, User}
use elderflow.Ceremony.Tables.{is_participant, is_approver, is_bound_participant}
use elderflow.Ceremony.Steps.{expected_version, are_eligible}

-- A row of the users is archived, of neither operator, or holds keys in the session version that was
-- recorded for its operator.
abbrev pub IsEligible : (initiator approver : Participant) → User → Type 0
IsEligible initiator approver u =
    (u.is_archived ≡ true)
    ⊎ ((u.id ≢ initiator.user_id) × (u.id ≢ approver.user_id))
    ⊎ ((is_e2ee_key_operator u.role ≡ true)
        × (((u.id ≡ initiator.user_id) × (u.session_version ≡ initiator.session_version))
            ⊎ ((u.id ≡ approver.user_id) × (u.session_version ≡ approver.session_version))))

-- The session is that of one of the two operators.
abbrev pub IsBound : (user_id session_id : ℕ) → (initiator approver : Participant) → Type 0
IsBound user_id session_id initiator approver =
    ((initiator.user_id ≡ user_id) × (initiator.session_id ≡ session_id))
    ⊎ ((approver.user_id ≡ user_id) × (approver.session_id ≡ session_id))

is_participant-true :
    (user_id session_id : ℕ) (p : Participant)
    → is_participant user_id session_id p ≡ true
    → (p.user_id ≡ user_id) × (p.session_id ≡ session_id)
is_participant-true user_id session_id p h =
    let (same, session) = true-of-and (p.user_id == user_id) (p.session_id == session_id) h in
    ((==_iff _ _).0 same, (==_iff _ _).0 session)

pub is_bound_participant-IsBound :
    (user_id session_id : ℕ) (c : Ceremony) (approver : Participant)
    → c.approver ≡ some approver
    → is_bound_participant c user_id session_id ≡ true
    → IsBound user_id session_id c.initiator approver
is_bound_participant-IsBound user_id session_id c approver at_p h =
    elim (Bool-cases (is_participant user_id session_id c.initiator)) [
      | inl e ↦ inl (is_participant-true user_id session_id c.initiator e)
      | inr e ↦ inr (
          is_participant-true user_id session_id approver
            (ap (is_approver user_id session_id) (sym at_p) ∙ (rw e at h)))
    ]

module _ (initiator approver : Participant) where
  abbrev pub is_recorded : User → Bool
  is_recorded u = contains u.id (initiator.user_id ∷ approver.user_id ∷ []) && not u.is_archived

  abbrev is_refused : User → Bool
  is_refused u =
      not (is_e2ee_key_operator u.role)
      || not (u.session_version == expected_version initiator (some approver) u.id)

  unrecorded-IsEligible : (u : User) → is_recorded u ≡ false → IsEligible initiator approver u
  unfolding contains
  unrecorded-IsEligible u h = elim (Bool-cases u.is_archived) [
    | inl e ↦ inl e
    | inr e ↦ inr (
        inl (
          λ same. apart (u.id == initiator.user_id) ((==_iff _ _).1 same) (ground arith),
          λ same. apart (u.id == approver.user_id) ((==_iff _ _).1 same) (ground arith),
        ))
  ]
    where
      apart : (b : Bool) → b ≡ true → b ≡ false → ⊥
      apart b same other = let clash = sym same ∙ other in cc

  recorded-IsEligible :
      (u : User) → is_recorded u ≡ true → is_refused u ≡ false → IsEligible initiator approver u
  unfolding contains
  recorded-IsEligible u h k =
      let operator : is_e2ee_key_operator u.role ≡ true = ground arith in
      let version : (u.session_version == expected_version initiator (some approver) u.id) ≡ true =
        ground arith in
      elim (Bool-cases (approver.user_id == u.id)) [
        | inl e ↦
            inr (inr (operator, inr (sym ((==_iff _ _).0 e), (==_iff _ _).0 (rw e at version))))
        | inr e ↦
            let first : (u.id == initiator.user_id) ≡ true = ground arith in
            inr (inr (operator, inl ((==_iff _ _).0 first, (==_iff _ _).0 (rw e at version))))
      ]

  users-IsEligible :
      (users : List User)
      → any is_refused (filter is_recorded users) ≡ false
      → All (IsEligible initiator approver) users
  unfolding any filter
  users-IsEligible [] h = tt
  users-IsEligible (u ∷ users) h = elim (Bool-cases (is_recorded u)) [
    | inr e ↦ (unrecorded-IsEligible u e, users-IsEligible users (rw e at h))
    | inl e ↦ elim (Bool-cases (is_refused u)) [
      | inl f ↦ let h' = rw (e, f) at h in cc
      | inr f ↦ (recorded-IsEligible u e f, users-IsEligible users (rw (e, f) at h))
    ]
  ]

  -- Two rows of the operators, both eligible.
  pub are_eligible-IsEligible :
      (users : List User)
      → are_eligible users initiator (some approver) ≡ true
      → (length (filter is_recorded users) ≡ 2) × All (IsEligible initiator approver) users
  are_eligible-IsEligible users h =
      let (two, none_refused) =
        true-of-and (length (filter is_recorded users) == 2)
          (not (any is_refused (filter is_recorded users))) h in
      ((==_iff _ _).0 two, users-IsEligible users (false-of-not _ none_refused))
