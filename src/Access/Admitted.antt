-- ===== src/Access/Admitted.antt =====
-- What the steps of the guard have shown when they let a request pass
-- (backend/src/auth/development-identity.guard.ts).
use mathlib.Core.List.{Mem, mem-cons_self, mem-cons_of_mem}
use elderflow.Shared.{
  ◌≡◌, refl, ap, sym, subst, Bool, true, false, not, ◌||◌, Option, none, some, inl, inr,
  some-injective, ◌⊎◌, any, ◌∙◌, ◌≢◌, ◌&&◌, ◌==◌, ==_iff, ==_refl, Bool-cases, true-of-and,
  false-of-not, List, [], ◌∷◌, All, find, ℕ, ◌≤◌, ltb, arith,
}
use elderflow.Shared.Errors.{
  ok, require, ok-of-bind, ok-injective, true-of-require, or_throw, found-of-or_throw, unauthorized,
  auth_user_not_found, auth_session_revoked, auth_required,
}
use elderflow.Access.Policy.{
  UserRole, PermissionLevel, manage, view, hide, PermissionCategory, permissions_by_role,
  permission_of,
}
use elderflow.Access.Guard.{
  User, Session, SessionId, session, development, RecoveryCeremony, Request, Environment, Method,
  holds, same_session, names_session, session_user, development_user, has_id, has_email,
  level_permits, permits,
}

-- The user and the session that a token names.
pub record IsOfToken (env : Environment) (r : Request) (u : User) (sid : SessionId) : Type 0 where
  pub token : ℕ
  pub s : Session
  pub sent : r.bearer ≡ some token
  pub verified : env.verify token ≡ ok s
  pub stored : Mem u env.users
  pub same_user : u.id ≡ s.sub
  pub unarchived : u.is_archived ≡ false
  pub current : (u.session_version ≡ s.ver) ⊎ (r.allows_revoked_session ≡ true)
  pub same_session_id : sid ≡ session s.sid

-- The user of the development bypass.
pub record IsOfBypass (env : Environment) (r : Request) (u : User) (sid : SessionId) : Type 0 where
  pub unsent : r.bearer ≡ none
  pub development_only : env.is_development ≡ true
  pub bypassed : env.dev_auth_bypass ≡ true
  pub stored : Mem u env.users
  pub same_email : env.dev_user_email ≡ some u.email
  pub unarchived : u.is_archived ≡ false
  pub same_session_id : sid ≡ development u.id

-- A ceremony that does not reserve a session: of other sessions, ended, or expired.
abbrev pub IsUnheld : ℕ → SessionId → RecoveryCeremony → Type 0
IsUnheld now sid c =
    ((c.initiator_session_id ≢ sid) × (c.approver_session_id ≢ some sid))
    ⊎ (c.is_open ≡ false)
    ⊎ (c.expires_at ≤ now)

-- What a level of permission admits: everything, or reading only.
abbrev pub IsPermitted : PermissionLevel → Method → Type 0
IsPermitted level method =
    (level ≡ manage) ⊎ ((level ≡ view) × ((method ≡ Method.get) ⊎ (method ≡ Method.head)))

find-holds :
    (test : User → Bool) (u : User) (users : List User) → find test users ≡ some u → test u ≡ true
unfolding find
find-holds test u [] h = cc
find-holds test u (v ∷ users) h = elim (Bool-cases (test v)) [
  | inl e ↦ subst (λ (w : User). test w ≡ true) (some-injective (rw e at h)) e
  | inr e ↦ find-holds test u users (rw e at h)
]

find-Mem :
    (test : User → Bool) (u : User) (users : List User) → find test users ≡ some u → Mem u users
unfolding find
find-Mem test u [] h = cc
find-Mem test u (v ∷ users) h = elim (Bool-cases (test v)) [
  | inl e ↦ subst (λ (w : User). Mem w (v ∷ users)) (some-injective (rw e at h)) mem-cons_self
  | inr e ↦ mem-cons_of_mem v (find-Mem test u users (rw e at h))
]

current_of : (a b : ℕ) (allowed : Bool) → (a == b || allowed) ≡ true → (a ≡ b) ⊎ (allowed ≡ true)
current_of a b allowed h = elim (Bool-cases (a == b)) [
  | inl e ↦ inl ((==_iff a b).0 e)
  | inr e ↦ inr (rw e at h)
]

session_user-IsOfToken :
    (env : Environment) (r : Request) (token : ℕ) (u : User) (sid : SessionId)
    → r.bearer ≡ some token
    → session_user env r token ≡ ok (u, sid)
    → IsOfToken env r u sid
unfolding session_user
session_user-IsOfToken env r token u sid sent h =
    let (s, r0, verified) = ok-of-bind _ (env.verify token) h in
    let (w, r1, found) =
      ok-of-bind _ (or_throw (find (has_id s.sub) env.users) unauthorized auth_user_not_found) r0 in
    let (d, r2, current) =
      ok-of-bind _
        (require (w.session_version == s.ver || r.allows_revoked_session) unauthorized
          auth_session_revoked)
        r1 in
    let at_user = find-holds (has_id s.sub) w env.users (found-of-or_throw _ _ _ found) in
    let (same, live) = true-of-and (w.id == s.sub) (not w.is_archived) at_user in
    subst (λ (p : User × SessionId). IsOfToken env r p.0 p.1) (ok-injective r2)
      (record {
        token = token;
        s = s;
        sent = sent;
        verified = verified;
        stored = find-Mem (has_id s.sub) w env.users (found-of-or_throw _ _ _ found);
        same_user = (==_iff _ _).0 same;
        unarchived = false-of-not _ live;
        current = current_of w.session_version s.ver _ (true-of-require _ _ _ current);
        same_session_id = refl;
      })

development_user-IsOfBypass :
    (env : Environment) (r : Request) (u : User) (sid : SessionId)
    → r.bearer ≡ none
    → development_user env ≡ ok (u, sid)
    → IsOfBypass env r u sid
unfolding development_user
development_user-IsOfBypass env r u sid unsent h =
    let (d, r0, allowed) =
      ok-of-bind _ (require (env.is_development && env.dev_auth_bypass) unauthorized auth_required)
        h in
    let (email, r1, named) =
      ok-of-bind _ (or_throw env.dev_user_email unauthorized auth_required) r0 in
    let (w, r2, found) =
      ok-of-bind _ (or_throw (find (has_email email) env.users) unauthorized auth_user_not_found)
        r1 in
    let (dev, bypass) =
      true-of-and env.is_development env.dev_auth_bypass (true-of-require _ _ _ allowed) in
    let at_user = find-holds (has_email email) w env.users (found-of-or_throw _ _ _ found) in
    let (same, live) = true-of-and (w.email == email) (not w.is_archived) at_user in
    subst (λ (p : User × SessionId). IsOfBypass env r p.0 p.1) (ok-injective r2)
      (record {
        unsent = unsent;
        development_only = dev;
        bypassed = bypass;
        stored = find-Mem (has_email email) w env.users (found-of-or_throw _ _ _ found);
        same_email = found-of-or_throw _ _ _ named ∙ ap some (sym ((==_iff _ _).0 same));
        unarchived = false-of-not _ live;
        same_session_id = refl;
      })

pub identify-cases :
    (env : Environment) (r : Request) (bearer : Option ℕ) (u : User) (sid : SessionId)
    → r.bearer ≡ bearer
    → (elim bearer [ none ↦ development_user env | some token ↦ session_user env r token ])
      ≡ ok (u, sid)
    → IsOfToken env r u sid ⊎ IsOfBypass env r u sid
identify-cases env r none u sid e h = inr (development_user-IsOfBypass env r u sid e h)
identify-cases env r (some token) u sid e h = inl (session_user-IsOfToken env r token u sid e h)

same_session_refl : (sid : SessionId) → same_session sid sid ≡ true
same_session_refl (session a) = ==_refl a
same_session_refl (development a) = ==_refl a

names_session_lem :
    (sid : SessionId) (approver : Option SessionId)
    → approver ≡ some sid
    → names_session sid approver ≡ true
names_session_lem sid none h = cc
names_session_lem sid (some a) h =
    ap (λ (b : SessionId). same_session b sid) (some-injective h) ∙ same_session_refl sid

true_not_false : {b : Bool} → b ≡ false → b ≢ true
true_not_false refused held = let clash = sym refused ∙ held in cc

holds-IsUnheld :
    (now : ℕ) (sid : SessionId) (c : RecoveryCeremony)
    → holds now sid c ≡ false
    → IsUnheld now sid c
holds-IsUnheld now sid c h = elim (Bool-cases c.is_open) [
  | inr e ↦ inr (inl e)
  | inl opened ↦ elim (Bool-cases (ltb now c.expires_at)) [
    | inr e ↦ inr (inr (ground arith))
    | inl running ↦
        let unnamed : (same_session c.initiator_session_id sid
              || names_session sid c.approver_session_id)
            ≡ false =
          ground arith in
        let first : same_session c.initiator_session_id sid ≡ false = ground arith in
        let second : names_session sid c.approver_session_id ≡ false = ground arith in
        inl (
          λ e.
              true_not_false first
                (ap (λ (a : SessionId). same_session a sid) e ∙ same_session_refl sid),
          λ e. true_not_false second (names_session_lem sid c.approver_session_id e),
        )
  ]
]

any-IsUnheld :
    (now : ℕ) (sid : SessionId) (rows : List RecoveryCeremony)
    → any (holds now sid) rows ≡ false
    → All (IsUnheld now sid) rows
unfolding any
any-IsUnheld now sid [] h = tt
any-IsUnheld now sid (c ∷ rows) h = elim (Bool-cases (holds now sid c)) [
  | inl e ↦ let h' = rw e at h in cc
  | inr e ↦ (holds-IsUnheld now sid c e, any-IsUnheld now sid rows (rw e at h))
]

pub any-holds-IsUnheld :
    (now : ℕ) (sid : SessionId) (rows : List RecoveryCeremony) (allowed : Bool)
    → (not (any (holds now sid) rows) || allowed) ≡ true
    → (allowed ≡ true) ⊎ All (IsUnheld now sid) rows
any-holds-IsUnheld now sid rows allowed h = elim (Bool-cases (any (holds now sid) rows)) [
  | inl e ↦ inl (rw e at h)
  | inr e ↦ inr (any-IsUnheld now sid rows e)
]

level_permits-IsPermitted :
    (level : PermissionLevel) (method : Method)
    → level_permits level method ≡ true
    → IsPermitted level method
level_permits-IsPermitted manage method h = inl refl
level_permits-IsPermitted view Method.get h = inr (refl, inl refl)
level_permits-IsPermitted view Method.head h = inr (refl, inr refl)
level_permits-IsPermitted view Method.other h = cc
level_permits-IsPermitted hide method h = cc

pub permits-IsPermitted :
    (role : UserRole) (category : Option PermissionCategory) (method : Method)
    → permits role category method ≡ true
    → (category ≡ none)
      ⊎ ((k : PermissionCategory) × (category ≡ some k)
          × IsPermitted (permission_of (permissions_by_role role) k) method)
permits-IsPermitted role none method h = inl refl
permits-IsPermitted role (some k) method h = inr (k, refl, level_permits-IsPermitted _ method h)
