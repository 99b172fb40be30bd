-- ===== src/Access/Policy.antt =====
-- `permissionsByRole` (permissions.ts) and the roles that hold content keys (e2ee-role-policy.ts).
use elderflow.Shared.{Bool, true, false, ◌||◌}

pub data UserRole : Type 0 where
  superadmin it_admin admin user guest : UserRole

pub data PermissionLevel : Type 0 where
  manage view hide : PermissionLevel

pub data PermissionCategory : Type 0 where
  dashboard users references meetings topics tasks content_settings auth_settings :
      PermissionCategory

pub record UserPermissions : Type 0 where
  pub dashboard : PermissionLevel
  pub users : PermissionLevel
  pub references : PermissionLevel
  pub meetings : PermissionLevel
  pub topics : PermissionLevel
  pub tasks : PermissionLevel
  pub content_settings : PermissionLevel
  pub auth_settings : PermissionLevel

abbrev pub content_manager : UserPermissions
content_manager = record {
  dashboard = PermissionLevel.view;
  users = PermissionLevel.manage;
  references = PermissionLevel.view;
  meetings = PermissionLevel.manage;
  topics = PermissionLevel.manage;
  tasks = PermissionLevel.manage;
  content_settings = PermissionLevel.manage;
  auth_settings = PermissionLevel.hide;
}

abbrev pub permissions_by_role : UserRole → UserPermissions
permissions_by_role UserRole.superadmin = record {
  dashboard = PermissionLevel.manage;
  users = PermissionLevel.manage;
  references = PermissionLevel.view;
  meetings = PermissionLevel.manage;
  topics = PermissionLevel.manage;
  tasks = PermissionLevel.manage;
  content_settings = PermissionLevel.manage;
  auth_settings = PermissionLevel.manage;
}
permissions_by_role UserRole.it_admin = record {
  dashboard = PermissionLevel.hide;
  users = PermissionLevel.view;
  references = PermissionLevel.hide;
  meetings = PermissionLevel.hide;
  topics = PermissionLevel.hide;
  tasks = PermissionLevel.hide;
  content_settings = PermissionLevel.hide;
  auth_settings = PermissionLevel.manage;
}
permissions_by_role UserRole.admin = content_manager
permissions_by_role UserRole.user = record {
  dashboard = PermissionLevel.view;
  users = PermissionLevel.view;
  references = PermissionLevel.view;
  meetings = PermissionLevel.manage;
  topics = PermissionLevel.manage;
  tasks = PermissionLevel.manage;
  content_settings = PermissionLevel.view;
  auth_settings = PermissionLevel.hide;
}
permissions_by_role UserRole.guest = record {
  dashboard = PermissionLevel.view;
  users = PermissionLevel.hide;
  references = PermissionLevel.view;
  meetings = PermissionLevel.view;
  topics = PermissionLevel.view;
  tasks = PermissionLevel.view;
  content_settings = PermissionLevel.hide;
  auth_settings = PermissionLevel.hide;
}

abbrev pub permission_of : UserPermissions → PermissionCategory → PermissionLevel
permission_of p PermissionCategory.dashboard = p.dashboard
permission_of p PermissionCategory.users = p.users
permission_of p PermissionCategory.references = p.references
permission_of p PermissionCategory.meetings = p.meetings
permission_of p PermissionCategory.topics = p.topics
permission_of p PermissionCategory.tasks = p.tasks
permission_of p PermissionCategory.content_settings = p.content_settings
permission_of p PermissionCategory.auth_settings = p.auth_settings

-- The roles in `E2EE_KEY_OPERATOR_ROLES`.
abbrev pub is_e2ee_key_operator : UserRole → Bool
is_e2ee_key_operator UserRole.superadmin = true
is_e2ee_key_operator UserRole.admin = true
is_e2ee_key_operator UserRole.user = true
is_e2ee_key_operator _ = false

abbrev pub is_guest : UserRole → Bool
is_guest UserRole.guest = true
is_guest _ = false

abbrev pub is_protected_text_reader : UserRole → Bool
is_protected_text_reader role = is_e2ee_key_operator role || is_guest role
