-- ===== src/Ceremony/Prefixes.antt =====
-- The identifiers and the nonce prefixes of client epochs, which the service registers and revokes
-- (backend/src/e2ee/e2ee.service.ts).
use elderflow.Shared.{
  ◌≡◌, refl, ap, ◌∙◌, Bool, true, false, not, ◌&&◌, List, [], ◌∷◌, map, any, if◌then◌else◌, ℕ, sym,
  subst, ◌≢◌, ◌⊎◌, inl, inr, Bool-cases, All, true-of-and, false-of-not,
}
use elderflow.Envelope.Values.{Bytes, same_bytes, Libraries}
use elderflow.Envelope.Readers.{same_bytes_refl, same_bytes-true}
use elderflow.Ceremony.State.{ClientEpoch, KeyCeremonyReasonCode, Store}
use elderflow.Ceremony.Clients.{collides, revoked_by}
use elderflow.Ceremony.Activate.{activate, revoked}
use elderflow.Ceremony.Machine.{
  Step, start, move, activation, register, revoke, Steps, done, ◌then◌,
}
use elderflow.Ceremony.Invariant.{IsStore}
use elderflow.Ceremony.Generations.{Steps-IsStore}
use elderflow.Ceremony.Guarantees.{Run, idle, next, serve-Steps}

-- Two rows have other identifiers, and other nonce prefixes within an organization.
abbrev pub AreApart : ClientEpoch → ClientEpoch → Type 0
AreApart e row =
    (row.id ≢ e.id)
    × ((row.organization_id ≢ e.organization_id) ⊎ (row.nonce_prefix ≢ e.nonce_prefix))

-- Every row is apart from the rows that follow it.
abbrev pub IsApart : List ClientEpoch → Type 0
IsApart [] = Unit {0}
IsApart (e ∷ rows) = All (AreApart e) rows × IsApart rows

-- The same as a test.
unfoldable are_apart : List ClientEpoch → Bool
are_apart [] = true
are_apart (e ∷ rows) = not (any (collides e) rows) && are_apart rows

unlike : {a b : Bytes} → same_bytes a b ≡ false → a ≢ b
unlike {a} {b} apart same =
    let is_same = subst (λ (c : Bytes). same_bytes a c ≡ true) same (same_bytes_refl a) in
    let clash = sym apart ∙ is_same in cc

like_of : {a b : Bytes} → a ≢ b → same_bytes a b ≡ false
like_of {a} {b} apart = elim (Bool-cases (same_bytes a b)) [
  | inl e ↦ absurd (apart (same_bytes-true a b e))
  | inr e ↦ e
]

collides-AreApart : (e row : ClientEpoch) → collides e row ≡ false → AreApart e row
collides-AreApart e row h = elim (Bool-cases (same_bytes row.id e.id)) [
  | inl same ↦ let h' = rw same at h in cc
  | inr other ↦
      let h' = rw other at h in
      (
        unlike other,
        elim (Bool-cases (same_bytes row.organization_id e.organization_id)) [
          | inl within ↦ inr (unlike (rw within at h'))
          | inr outside ↦ inl (unlike outside)
        ],
      )
]

AreApart-collides : (e row : ClientEpoch) → AreApart e row → collides e row ≡ false
AreApart-collides e row (other, inl outside) = rw (like_of other, like_of outside)
AreApart-collides e row (other, inr unlike_prefix) =
    elim (Bool-cases (same_bytes row.organization_id e.organization_id)) [
      | inl within ↦ rw (like_of other, within, like_of unlike_prefix)
      | inr outside ↦ rw (like_of other, outside)
    ]

any-AreApart :
    (e : ClientEpoch) (rows : List ClientEpoch)
    → any (collides e) rows ≡ false
    → All (AreApart e) rows
unfolding any
any-AreApart e [] h = tt
any-AreApart e (row ∷ rows) h = elim (Bool-cases (collides e row)) [
  | inl same ↦ let h' = rw same at h in cc
  | inr other ↦ (collides-AreApart e row other, any-AreApart e rows (rw other at h))
]

AreApart-any :
    (e : ClientEpoch) (rows : List ClientEpoch)
    → All (AreApart e) rows
    → any (collides e) rows ≡ false
unfolding any
AreApart-any e [] h = refl
AreApart-any e (row ∷ rows) h = rw (AreApart-collides e row h.0, AreApart-any e rows h.1)

are_apart-IsApart : (rows : List ClientEpoch) → are_apart rows ≡ true → IsApart rows
unfolding are_apart
are_apart-IsApart [] h = tt
are_apart-IsApart (e ∷ rows) h =
    let (first, rest) = true-of-and (not (any (collides e) rows)) (are_apart rows) h in
    (any-AreApart e rows (false-of-not _ first), are_apart-IsApart rows rest)

IsApart-are_apart : (rows : List ClientEpoch) → IsApart rows → are_apart rows ≡ true
unfolding are_apart
IsApart-are_apart [] h = refl
IsApart-are_apart (e ∷ rows) h = rw (AreApart-any e rows h.0, IsApart-are_apart rows h.1)

-- A change of the rows that keeps what they are compared by.
record IsRenaming (f : ClientEpoch → ClientEpoch) : Type 0 where
  same_id : (e : ClientEpoch) → (f e).id ≡ e.id
  same_organization : (e : ClientEpoch) → (f e).organization_id ≡ e.organization_id
  same_prefix : (e : ClientEpoch) → (f e).nonce_prefix ≡ e.nonce_prefix

any-map :
    (f : ClientEpoch → ClientEpoch)
    → IsRenaming f
    → (e : ClientEpoch) (rows : List ClientEpoch)
    → any (collides (f e)) (map f rows) ≡ any (collides e) rows
unfolding any
any-map f h e [] = refl
any-map f h e (row ∷ rows) =
    rw
      (
        h.same_id e,
        h.same_organization e,
        h.same_prefix e,
        h.same_id row,
        h.same_organization row,
        h.same_prefix row,
      )
      (any_rest (collides e row) (any-map f h e rows))
  where
    any_rest :
        {a b : Bool} (test : Bool) → a ≡ b → (if test then true else a) ≡ (if test then true else b)
    any_rest test h = ap (λ rest. if test then true else rest) h

are_apart-map :
    (f : ClientEpoch → ClientEpoch)
    → IsRenaming f
    → (rows : List ClientEpoch) → are_apart (map f rows) ≡ are_apart rows
unfolding are_apart
are_apart-map f h [] = refl
are_apart-map f h (e ∷ rows) = rw (any-map f h e rows, are_apart-map f h rows)

either_same :
    {B : Type 0} (field : ClientEpoch → B) (test : Bool) (a b : ClientEpoch)
    → field a ≡ field b
    → field (if test then a else b) ≡ field b
either_same field true a b h = h
either_same field false a b h = refl

or_same :
    {B : Type 0} (field : ClientEpoch → B) (test : Bool) (a b : ClientEpoch)
    → field b ≡ field a
    → field (if test then a else b) ≡ field a
or_same field true a b h = refl
or_same field false a b h = h

revoked-IsRenaming : (now : ℕ) (reason : KeyCeremonyReasonCode) → IsRenaming (revoked now reason)
revoked-IsRenaming now reason = record {
  same_id = λ e. or_same (λ (x : ClientEpoch). x.id) _ e _ refl;
  same_organization = λ e. or_same (λ (x : ClientEpoch). x.organization_id) _ e _ refl;
  same_prefix = λ e. or_same (λ (x : ClientEpoch). x.nonce_prefix) _ e _ refl;
}

revoked_by-IsRenaming :
    (now user_id : ℕ) (epoch_id : Bytes) → IsRenaming (revoked_by now user_id epoch_id)
revoked_by-IsRenaming now user_id epoch_id = record {
  same_id = λ e. either_same (λ (x : ClientEpoch). x.id) _ _ e refl;
  same_organization = λ e. either_same (λ (x : ClientEpoch). x.organization_id) _ _ e refl;
  same_prefix = λ e. either_same (λ (x : ClientEpoch). x.nonce_prefix) _ _ e refl;
}

Step-are_apart : {s t : Store} → Step s t → are_apart s.epochs ≡ true → are_apart t.epochs ≡ true
unfolding activate are_apart
Step-are_apart (start c new none_open fresh) h = h
Step-are_apart (move before after found moved) h = h
Step-are_apart {s} (activation now c state keys found ready approved) h =
    are_apart-map _ (revoked-IsRenaming now c.candidate.reason_code) s.epochs ∙ h
Step-are_apart (register e apart) h = rw (apart, h)
Step-are_apart {s} (revoke now user_id epoch_id) h =
    are_apart-map _ (revoked_by-IsRenaming now user_id epoch_id) s.epochs ∙ h

Steps-are_apart : {s t : Store} → Steps s t → are_apart s.epochs ≡ true → are_apart t.epochs ≡ true
Steps-are_apart done h = h
Steps-are_apart (step then steps) h = Steps-are_apart steps (Step-are_apart step h)

run_keeps :
    (lib : Libraries) (s t : Store)
    → Run lib s t
    → IsStore s
    → are_apart s.epochs ≡ true
    → are_apart t.epochs ≡ true
run_keeps lib s t idle h apart = apart
run_keeps lib s t (next k r fresh rest) h apart =
    let steps = serve-Steps lib k r s h fresh in
    run_keeps lib _ t rest (Steps-IsStore steps h) (Steps-are_apart steps apart)

-- After any run of requests no two client epochs have the same identifier, or within an organization
-- the same nonce prefix, when that held before.
pub run-IsApart :
    (lib : Libraries) (s t : Store) → Run lib s t → IsStore s → IsApart s.epochs → IsApart t.epochs
run-IsApart lib s t run h apart =
    are_apart-IsApart t.epochs (run_keeps lib s t run h (IsApart-are_apart s.epochs apart))
