-- ===== src/Access/Admission.antt =====
-- What a request that the guard admits has shown, and what its role may read.
use elderflow.Shared.{
  ◌≡◌, refl, ap, sym, subst, Bool, true, false, Option, none, some, inl, inr, some-injective, ◌⊎◌,
  if◌then◌else◌, ◌∙◌, All,
}
use elderflow.Shared.Errors.{
  Result, ok, require, ok-of-bind, ok-injective, true-of-require, forbidden, auth_forbidden,
}
use elderflow.Access.Policy.{
  UserRole, PermissionLevel, PermissionCategory, permissions_by_role, permission_of,
  is_e2ee_key_operator, is_protected_text_reader,
}
use elderflow.Access.Admitted.{
  IsOfToken, IsOfBypass, IsUnheld, IsPermitted, identify-cases, any-holds-IsUnheld,
  permits-IsPermitted,
}
use elderflow.Access.Guard.{
  User, SessionId, Request, Environment, Method, is_read, identify, assert_ceremony_boundary,
  level_permits, permits, can_activate,
}

-- A role manages topics and meetings when it may hold content keys, and sees them when it may read
-- protected text.
abbrev pub sees : PermissionLevel → Bool
sees level = level_permits level Method.get

abbrev pub manages : PermissionLevel → Bool
manages level = level_permits level Method.other

-- The roles that hold content keys are those that manage meetings and topics, and the roles that
-- read protected text are those that see them.
pub role_policy_lem :
    (role : UserRole)
    → (is_e2ee_key_operator role ≡ manages (permissions_by_role role).meetings)
      × (is_e2ee_key_operator role ≡ manages (permissions_by_role role).topics)
      × (is_protected_text_reader role ≡ sees (permissions_by_role role).meetings)
      × (is_protected_text_reader role ≡ sees (permissions_by_role role).topics)
role_policy_lem UserRole.superadmin = (refl, refl, refl, refl)
role_policy_lem UserRole.it_admin = (refl, refl, refl, refl)
role_policy_lem UserRole.admin = (refl, refl, refl, refl)
role_policy_lem UserRole.user = (refl, refl, refl, refl)
role_policy_lem UserRole.guest = (refl, refl, refl, refl)

pub record IsAdmitted (env : Environment) (r : Request) (u : User) (sid : SessionId) : Type 0 where
  pub identified : IsOfToken env r u sid ⊎ IsOfBypass env r u sid
  pub unheld : (r.ceremony_allowed ≡ true) ⊎ All (IsUnheld env.now sid) env.ceremonies
  pub permitted :
      (r.category ≡ none)
      ⊎ ((category : PermissionCategory) × (r.category ≡ some category)
          × IsPermitted (permission_of (permissions_by_role u.role) category) r.method)

not_public :
    {A : Type 0} {x : Result (Option A)} {a : A} (public : Bool)
    → (if public then ok none else x) ≡ ok (some a)
    → x ≡ ok (some a)
not_public true e = let refused = ok-injective e in cc
not_public false e = e

-- A request that the guard admits as a user carries a verified token of that user, who is
-- stored, not archived and whose session version is the token's unless the handler allows revoked sessions; or it
-- carries none, and the user is that of the development bypass. Unless the handler is allowed during
-- ceremonies, no ceremony that is open and unexpired has its session. A handler with a category has a
-- user whose role manages the category, or who sees it and only reads (GET or HEAD).
pub can_activate-IsAdmitted :
    (env : Environment) (r : Request) (u : User) (sid : SessionId)
    → can_activate env r ≡ ok (some (u, sid))
    → IsAdmitted env r u sid
unfolding can_activate
can_activate-IsAdmitted env r u sid e =
    let (who, e1, known) = ok-of-bind _ (identify env r) (not_public r.is_public e) in
    let (d1, e2, h2) = ok-of-bind _ (assert_ceremony_boundary env r who.1) e1 in
    let (d2, e3, h3) =
      ok-of-bind _ (require (permits who.0.role r.category r.method) forbidden auth_forbidden) e2 in
    subst (λ (w : User × SessionId). IsAdmitted env r w.0 w.1) (some-injective (ok-injective e3))
      (record {
        identified = identify-cases env r r.bearer who.0 who.1 refl known;
        unheld = any-holds-IsUnheld env.now who.1 env.ceremonies _ (true-of-require _ _ _ h2);
        permitted = permits-IsPermitted who.0.role r.category r.method (true-of-require _ _ _ h3);
      })

manages-of-write :
    (level : PermissionLevel) (method : Method)
    → IsPermitted level method
    → is_read method ≡ false
    → manages level ≡ true
manages-of-write level method (inl all) w = ap manages all
manages-of-write level method (inr (only, inl get)) w = let clash = ap is_read (sym get) ∙ w in cc
manages-of-write level method (inr (only, inr head)) w = let clash = ap is_read (sym head) ∙ w in cc

-- A request that the guard admits, that is no reading (GET or HEAD), and whose handler is of the
-- category of topics or of meetings, is from a user whose role may hold content keys.
pub writer_operates :
    (env : Environment) (r : Request) (u : User) (sid : SessionId)
    → can_activate env r ≡ ok (some (u, sid))
    → (r.category ≡ some PermissionCategory.topics)
      ⊎ (r.category ≡ some PermissionCategory.meetings)
    → is_read r.method ≡ false
    → is_e2ee_key_operator u.role ≡ true
writer_operates env r u sid e category w =
    by_permission (can_activate-IsAdmitted env r u sid e).permitted
  where
    by_category :
        (k : PermissionCategory)
        → (some k ≡ some PermissionCategory.topics) ⊎ (some k ≡ some PermissionCategory.meetings)
        → IsPermitted (permission_of (permissions_by_role u.role) k) r.method
        → is_e2ee_key_operator u.role ≡ true
    by_category PermissionCategory.topics c p =
        (role_policy_lem u.role).1 ∙ manages-of-write _ r.method p w
    by_category PermissionCategory.meetings c p =
        (role_policy_lem u.role).0 ∙ manages-of-write _ r.method p w
    by_category _ (inl c) p = let c' = some-injective c in cc
    by_category _ (inr c) p = let c' = some-injective c in cc

    by_permission :
        (r.category ≡ none)
          ⊎ ((k : PermissionCategory) × (r.category ≡ some k)
              × IsPermitted (permission_of (permissions_by_role u.role) k) r.method)
        → is_e2ee_key_operator u.role ≡ true
    by_permission (inl uncategorised) = elim category [
      | inl c ↦ let clash = sym uncategorised ∙ c in cc
      | inr c ↦ let clash = sym uncategorised ∙ c in cc
    ]
    by_permission (inr (k, at_k, p)) = elim category [
      | inl c ↦ by_category k (inl (sym at_k ∙ c)) p
      | inr c ↦ by_category k (inr (sym at_k ∙ c)) p
    ]
