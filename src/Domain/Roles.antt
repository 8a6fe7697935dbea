-- ===== src/Domain/Roles.antt =====
-- domain/identity/role.py, permission.py and role_defaults.py.
use sigis_backend.Base.{ℕ, ◌==◌, Bool, List, [], ◌∷◌, is_some}
use sigis_backend.Base.Table.{first}

pub data Role : Type 0 where
  super_admin national_admin regional_supervisor inspector host : Role

pub data Permission : Type 0 where
  establishment_create establishment_read establishment_update : Permission
  mission_create mission_read mission_update mission_approve mission_cancel : Permission
  mission_reassign mission_outcome_write : Permission
  visit_checkin visit_host_confirm visit_checkout visit_read : Permission
  exception_create exception_read exception_update_status exception_manage : Permission
  user_list user_read user_update user_manage_roles : Permission
  auth_register_user role_read role_manage_permissions : Permission
  report_read audit_read telemetry_read : Permission

-- The members of the two enumerations in their order, by number; the program compares their texts,
-- which are distinct.
unfoldable pub role_index : Role → ℕ
role_index Role.super_admin = 0
role_index Role.national_admin = 1
role_index Role.regional_supervisor = 2
role_index Role.inspector = 3
role_index Role.host = 4

unfoldable pub permission_index : Permission → ℕ
permission_index establishment_create = 0
permission_index establishment_read = 1
permission_index establishment_update = 2
permission_index mission_create = 3
permission_index mission_read = 4
permission_index mission_update = 5
permission_index mission_approve = 6
permission_index mission_cancel = 7
permission_index mission_reassign = 8
permission_index mission_outcome_write = 9
permission_index visit_checkin = 10
permission_index visit_host_confirm = 11
permission_index visit_checkout = 12
permission_index visit_read = 13
permission_index exception_create = 14
permission_index exception_read = 15
permission_index exception_update_status = 16
permission_index exception_manage = 17
permission_index user_list = 18
permission_index user_read = 19
permission_index user_update = 20
permission_index user_manage_roles = 21
permission_index auth_register_user = 22
permission_index role_read = 23
permission_index role_manage_permissions = 24
permission_index report_read = 25
permission_index audit_read = 26
permission_index telemetry_read = 27

-- `set(Permission)`
abbrev pub all_permissions : List Permission
all_permissions =
    establishment_create ∷ establishment_read ∷ establishment_update ∷ mission_create ∷ mission_read
    ∷ mission_update ∷ mission_approve ∷ mission_cancel ∷ mission_reassign ∷ mission_outcome_write
    ∷ visit_checkin ∷ visit_host_confirm ∷ visit_checkout ∷ visit_read ∷ exception_create
    ∷ exception_read ∷ exception_update_status ∷ exception_manage ∷ user_list ∷ user_read
    ∷ user_update ∷ user_manage_roles ∷ auth_register_user ∷ role_read ∷ role_manage_permissions
    ∷ report_read ∷ audit_read ∷ telemetry_read ∷ []

-- `ROLE_DEFAULT_PERMISSIONS`, and `default_permissions_for`; the sets are lists without doubles.
unfoldable pub default_permissions_for : Role → List Permission
default_permissions_for Role.super_admin = all_permissions
default_permissions_for Role.national_admin =
    establishment_create ∷ establishment_read ∷ establishment_update ∷ mission_create ∷ mission_read
    ∷ mission_update ∷ mission_approve ∷ mission_cancel ∷ mission_reassign ∷ mission_outcome_write
    ∷ visit_read ∷ exception_read ∷ exception_update_status ∷ exception_manage ∷ user_list
    ∷ user_read ∷ user_update ∷ auth_register_user ∷ role_read ∷ report_read ∷ audit_read
    ∷ telemetry_read ∷ []
default_permissions_for Role.regional_supervisor =
    establishment_read ∷ mission_read ∷ mission_update ∷ mission_approve ∷ mission_cancel
    ∷ mission_reassign ∷ mission_outcome_write ∷ visit_read ∷ exception_read
    ∷ exception_update_status ∷ exception_manage ∷ user_read ∷ role_read ∷ report_read ∷ []
default_permissions_for Role.inspector =
    establishment_read ∷ mission_read ∷ mission_outcome_write ∷ visit_checkin ∷ visit_checkout
    ∷ visit_read ∷ exception_create ∷ exception_read ∷ user_read ∷ user_update ∷ []
default_permissions_for Role.host =
    establishment_read ∷ mission_read ∷ visit_host_confirm ∷ visit_read ∷ exception_read ∷ user_read
    ∷ user_update ∷ []

-- `permission in permissions`
unfoldable pub grants : Permission → List Permission → Bool
unfolding permission_index first
grants p ps = is_some (first (λ q. permission_index q == permission_index p) ps)
