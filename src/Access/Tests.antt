-- ===== src/Access/Tests.antt =====
-- A guest and a content user with a session, and the guard's theorems at their requests.
use elderflow.Shared.{ℕ, ◌≡◌, refl, true, false, none, some, [], ◌∷◌, inl, find, any}
use elderflow.Shared.Errors.{ok, err, forbidden, auth_forbidden}
use elderflow.Access.Policy.{
  UserRole, PermissionCategory, permissions_by_role, is_e2ee_key_operator, is_protected_text_reader,
}
use elderflow.Access.Guard.{
  User, SessionId, Method, Request, Environment, session_user, can_activate,
}
use elderflow.Access.Admission.{
  IsAdmitted, can_activate-IsAdmitted, role_policy_lem, writer_operates, sees, manages,
}

abbrev member : ℕ → UserRole → User
member id role = record {
  id = id;
  email = id;
  role = role;
  session_version = 3;
  is_archived = false;
}

-- Another session is reserved for a ceremony that is open.
abbrev office : Environment
office = record {
  verify = λ token. ok (record { sub = token; sid = 50; ver = 3 });
  users = member 1 UserRole.guest ∷ member 2 UserRole.user ∷ [];
  ceremonies =
      record {
        initiator_session_id = SessionId.session 51;
        approver_session_id = none;
        is_open = true;
        expires_at = 90;
      }
      ∷ [];
  now = 80;
  is_development = false;
  dev_auth_bypass = false;
  dev_user_email = none;
}

abbrev write_topic : ℕ → Request
write_topic token = record {
  is_public = false;
  allows_revoked_session = false;
  ceremony_allowed = false;
  category = some PermissionCategory.topics;
  method = Method.other;
  bearer = some token;
}

guest_refused : can_activate office (write_topic 1) ≡ err forbidden auth_forbidden
unfolding can_activate session_user find any
guest_refused = refl

abbrev writer : User
writer = member 2 UserRole.user

writer_admitted : can_activate office (write_topic 2) ≡ ok (some (writer, SessionId.session 50))
unfolding can_activate session_user find any
writer_admitted = refl

can_activate-IsAdmitted_example : IsAdmitted office (write_topic 2) writer (SessionId.session 50)
can_activate-IsAdmitted_example =
    can_activate-IsAdmitted office (write_topic 2) writer (SessionId.session 50) writer_admitted

role_policy_lem_example :
    (is_e2ee_key_operator UserRole.guest ≡ manages (permissions_by_role UserRole.guest).meetings)
    × (is_e2ee_key_operator UserRole.guest ≡ manages (permissions_by_role UserRole.guest).topics)
    × (is_protected_text_reader UserRole.guest ≡ sees (permissions_by_role UserRole.guest).meetings)
    × (is_protected_text_reader UserRole.guest ≡ sees (permissions_by_role UserRole.guest).topics)
role_policy_lem_example = role_policy_lem UserRole.guest

writer_operates_example : is_e2ee_key_operator UserRole.user ≡ true
writer_operates_example =
    writer_operates office (write_topic 2) writer (SessionId.session 50) writer_admitted (inl refl)
      refl
