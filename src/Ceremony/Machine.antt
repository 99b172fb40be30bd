-- ===== src/Ceremony/Machine.antt =====
-- The state machine of key ceremonies, apart from the requests that drive it: a ceremony is started,
-- approved, confirmed, aborted and activated, and its activation is the only step that touches keys.
use elderflow.Shared.{
  map, any, ℕ, suc, ◌+◌, ◌≡◌, subst, arith, Bool, Bool-cases, inl, inr, true, false, none, some,
  List, [], ◌∷◌, ◌==◌, if◌then◌else◌, find, some-injective,
}
use elderflow.Ceremony.State.{
  CeremonyState, ready_to_activate, aborted, Participant, Ceremony, KeyState, Store,
}
use elderflow.Ceremony.Tables.{saved, has_id, is_open, is_pending, is_ready}
use elderflow.Ceremony.Steps.{is_some}
use elderflow.Ceremony.Activate.{activate}
use elderflow.Envelope.Values.{Bytes}
use elderflow.Ceremony.State.{ClientEpoch}
use elderflow.Ceremony.Clients.{collides, revoked_by}

pub data Transition : Ceremony → Ceremony → Type 0 where
  approve :
      {c : Ceremony} (approver : Participant) (now : ℕ)
      → is_pending c.state ≡ true
      → (c.initiator.user_id == approver.user_id) ≡ false
      → Transition c (record c {
        approver = some approver;
        approver_confirmed_at = some now;
        state = ready_to_activate;
      })
  confirm_initiator :
      {c : Ceremony} (now : ℕ)
      → is_open c.state ≡ true
      → Transition c (record c { initiator_confirmed_at = some now })
  confirm_approver :
      {c : Ceremony} (now : ℕ)
      → is_open c.state ≡ true
      → Transition c (record c { approver_confirmed_at = some now })
  abort : {c : Ceremony} → is_open c.state ≡ true → Transition c (record c { state = aborted })

unfoldable pub count : (CeremonyState → Bool) → List Ceremony → ℕ
count test [] = 0
count test (c ∷ rows) = if test c.state then suc (count test rows) else count test rows

abbrev pub IsUnapproved : Ceremony → Type 0
IsUnapproved c = (is_pending c.state ≡ true) × (c.approver ≡ none) × (c.activated_generation ≡ none)

pub data Step : Store → Store → Type 0 where
  start :
      {s : Store} (c : Ceremony)
      → IsUnapproved c
      → count is_open s.ceremonies ≡ 0
      → find (has_id c.id) s.ceremonies ≡ none
      → Step s (record s { ceremonies = saved c s.ceremonies })
  move :
      {s : Store} (before after : Ceremony)
      → find (has_id before.id) s.ceremonies ≡ some before
      → Transition before after
      → Step s (record s { ceremonies = saved after s.ceremonies })
  activation :
      {s : Store} (now : ℕ) (c : Ceremony) (state : KeyState)
      → s.key_state ≡ some state
      → find (has_id c.id) s.ceremonies ≡ some c
      → is_ready c.state ≡ true
      → is_some c.approver ≡ true
      → Step s (activate now c state s)
  register :
      {s : Store} (e : ClientEpoch)
      → any (collides e) s.epochs ≡ false
      → Step s (record s { epochs = e ∷ s.epochs })
  revoke :
      {s : Store} (now user_id : ℕ) (epoch_id : Bytes)
      → Step s (record s { epochs = map (revoked_by now user_id epoch_id) s.epochs })

infixr 5 ◌then◌
pub data Steps : Store → Store → Type 0 where
  done : {s : Store} → Steps s s
  ◌then◌ : {s t u : Store} → Step s t → Steps t u → Steps s u

abbrev pub one : Bool → ℕ
one true = 1
one false = 0

exchanged :
    (new old : Bool) (n : ℕ)
    → (if new then suc n else n) + one old ≡ (if old then suc n else n) + one new
exchanged new old n = ground arith

kept_row :
    (test : Bool) (m n a b : ℕ)
    → m + a ≡ n + b
    → (if test then suc m else m) + a ≡ (if test then suc n else n) + b
kept_row test m n a b h = ground arith

pub count-saved :
    (test : CeremonyState → Bool) (c before : Ceremony) (rows : List Ceremony)
    → find (has_id c.id) rows ≡ some before
    → count test (saved c rows) + one (test before.state) ≡ count test rows + one (test c.state)
unfolding count saved find
count-saved test c before [] h = cc
count-saved test c before (row ∷ rows) h = elim (Bool-cases (row.id == c.id)) [
  | inl e ↦
      subst
        (λ (b : Ceremony).
          count test (saved c (row ∷ rows)) + one (test b.state)
          ≡ count test (row ∷ rows) + one (test c.state))
        (some-injective (rw e at h))
        (rw e (exchanged (test c.state) (test row.state) (count test rows)))
  | inr e ↦ rw e (kept_row (test row.state) _ _ _ _ (count-saved test c before rows (rw e at h)))
]

pub count-saved_new :
    (test : CeremonyState → Bool) (c : Ceremony) (rows : List Ceremony)
    → find (has_id c.id) rows ≡ none
    → count test (saved c rows) ≡ count test rows + one (test c.state)
unfolding count saved find
count-saved_new test c [] h = ground arith
count-saved_new test c (row ∷ rows) h = ground (arith, count-saved_new test c rows)

-- A row that is not saved over is found as before.
pub find-saved :
    (id : ℕ) (c found : Ceremony) (rows : List Ceremony)
    → (c.id == id) ≡ false
    → find (has_id id) rows ≡ some found
    → find (has_id id) (saved c rows) ≡ some found
unfolding saved find
find-saved id c found [] apart h = cc
find-saved id c found (row ∷ rows) apart h = ground (arith, find-saved id c found rows apart)
