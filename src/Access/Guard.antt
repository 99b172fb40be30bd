-- ===== src/Access/Guard.antt =====
-- `canActivate` and `assertCeremonyBoundary` (development-identity.guard.ts). The handler's metadata
-- and the request are one record; what the guard reads from elsewhere is an environment, in which
-- `verify` is the session service, and an address is a number, in lower case.
use elderflow.Shared.{
  ℕ, Bool, true, false, not, ◌&&◌, ◌||◌, Option, none, some, List, ltb, ◌==◌, if◌then◌else◌, find,
  any,
}
use elderflow.Shared.Errors.{
  Result, ok, unauthorized, forbidden, conflict, ◌>>=◌, ◌>>◌, require, or_throw, auth_required,
  auth_user_not_found, auth_session_revoked, auth_forbidden, e2ee_ceremony_session_exclusive,
}
use elderflow.Access.Policy.{
  UserRole, PermissionLevel, PermissionCategory, permissions_by_role, permission_of,
}

pub record User : Type 0 where
  pub id : ℕ
  pub email : ℕ
  pub role : UserRole
  pub session_version : ℕ
  pub is_archived : Bool

pub record Session : Type 0 where
  pub sub : ℕ
  pub sid : ℕ
  pub ver : ℕ

-- A session's identifier, or `development:` and that of a user.
pub data SessionId : Type 0 where
  session : ℕ → SessionId
  development : ℕ → SessionId

abbrev pub same_session : SessionId → SessionId → Bool
same_session (session a) (session b) = a == b
same_session (development a) (development b) = a == b
same_session _ _ = false

-- `is_open` stands for the states `pending_second_operator` and `ready_to_activate`.
pub record RecoveryCeremony : Type 0 where
  pub initiator_session_id : SessionId
  pub approver_session_id : Option SessionId
  pub is_open : Bool
  pub expires_at : ℕ

pub data Method : Type 0 where
  get head other : Method

pub record Request : Type 0 where
  pub is_public : Bool
  pub allows_revoked_session : Bool
  pub ceremony_allowed : Bool
  pub category : Option PermissionCategory
  pub method : Method
  pub bearer : Option ℕ

pub record Environment : Type 0 where
  pub verify : ℕ → Result Session
  pub users : List User
  pub ceremonies : List RecoveryCeremony
  pub now : ℕ
  pub is_development : Bool
  pub dev_auth_bypass : Bool
  pub dev_user_email : Option ℕ

abbrev pub is_read : Method → Bool
is_read Method.other = false
is_read _ = true

abbrev pub has_id : ℕ → User → Bool
has_id id u = u.id == id && not u.is_archived

abbrev pub has_email : ℕ → User → Bool
has_email email u = u.email == email && not u.is_archived

unfoldable pub session_user : Environment → Request → ℕ → Result (User × SessionId)
session_user env r token = do
  s ← env.verify token
  u ← or_throw (find (has_id s.sub) env.users) unauthorized auth_user_not_found
  require (u.session_version == s.ver || r.allows_revoked_session) unauthorized auth_session_revoked
  ok (u, session s.sid)

unfoldable pub development_user : Environment → Result (User × SessionId)
development_user env = do
  require (env.is_development && env.dev_auth_bypass) unauthorized auth_required
  email ← or_throw env.dev_user_email unauthorized auth_required
  u ← or_throw (find (has_email email) env.users) unauthorized auth_user_not_found
  ok (u, development u.id)

abbrev pub identify : Environment → Request → Result (User × SessionId)
identify env r = elim r.bearer [
  | none ↦ development_user env
  | some token ↦ session_user env r token
]

abbrev pub names_session : SessionId → Option SessionId → Bool
names_session sid none = false
names_session sid (some approver) = same_session approver sid

abbrev pub holds : ℕ → SessionId → RecoveryCeremony → Bool
holds now sid ceremony =
    (same_session ceremony.initiator_session_id sid
      || names_session sid ceremony.approver_session_id)
    && ceremony.is_open
    && ltb now ceremony.expires_at

abbrev pub assert_ceremony_boundary : Environment → Request → SessionId → Result (Unit {0})
assert_ceremony_boundary env r sid =
    require (not (any (holds env.now sid) env.ceremonies) || r.ceremony_allowed) conflict
      e2ee_ceremony_session_exclusive

abbrev pub level_permits : PermissionLevel → Method → Bool
level_permits PermissionLevel.hide method = false
level_permits PermissionLevel.view method = is_read method
level_permits PermissionLevel.manage method = true

abbrev pub permits : UserRole → Option PermissionCategory → Method → Bool
permits role none method = true
permits role (some category) method =
    level_permits (permission_of (permissions_by_role role) category) method

-- The user and the session that the request gets; none for a public handler.
unfoldable pub can_activate : Environment → Request → Result (Option (User × SessionId))
can_activate env r =
    if r.is_public
    then ok none
    else identify env r >>= λ (u, sid). assert_ceremony_boundary env r sid >>= λ _.
        require (permits u.role r.category r.method) forbidden auth_forbidden >>= λ _.
        ok (some (u, sid))
