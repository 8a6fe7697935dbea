-- ===== src/Store/Roles.antt =====
-- `RolePermissionRepositoryImpl` of infrastructure/persistence/sqlalchemy/role_permission_repo.py,
-- on its own table. A row holds the texts of a role and of a permission; as each is a member of
-- its enumeration or an obsolete text, it is a number here, and those from 28 on are obsolete.
pub mod Laws
pub mod Seeding
use sigis_backend.Base.{
  ℕ, suc, ◌+◌, length, ◌==◌, ◌&&◌, ◌||◌, not, Bool, true, false, List, [], ◌∷◌, ◌++◌, map, select,
  ltb, is_some, if◌then◌else◌,
}
use sigis_backend.Base.Table.{first}
use sigis_backend.Domain.Roles.{
  Role, Permission, role_index, permission_index, all_permissions, default_permissions_for,
}

pub record RolePermission : Type 0 where
  pub role : ℕ
  pub permission : ℕ

abbrev pub is_row : Role → Permission → RolePermission → Bool
is_row r p row = (row.role == role_index r) && (row.permission == permission_index p)

-- `_get_row(role, permission) is not None`
unfoldable pub has_row : Role → Permission → List RolePermission → Bool
has_row r p rows = is_some (first (is_row r p) rows)

-- The permissions, by number, of `get_permissions_for_role`: obsolete texts are passed over.
unfoldable pub get_permissions_for_role : Role → List RolePermission → List ℕ
get_permissions_for_role r rows =
    map (λ (row : RolePermission). row.permission)
      (select (λ (row : RolePermission). (row.role == role_index r) && ltb row.permission 28) rows)

-- The union over the roles.
unfoldable pub get_effective_permissions : List Role → List RolePermission → List ℕ
unfolding get_permissions_for_role
get_effective_permissions [] rows = []
get_effective_permissions (r ∷ rs) rows =
    get_permissions_for_role r rows ++ get_effective_permissions rs rows

-- Whether the row was added, and the table.
unfoldable pub add_permission : Role → Permission → List RolePermission → Bool × List RolePermission
unfolding has_row
add_permission r p rows =
    if has_row r p rows
    then (false, rows)
    else (true, rows ++ record { role = role_index r; permission = permission_index p } ∷ [])

-- `session.delete(existing)`
abbrev pub delete_row : Role → Permission → List RolePermission → List RolePermission
delete_row r p [] = []
delete_row r p (x ∷ xs) = let rest = delete_row r p xs in if is_row r p x then xs else x ∷ rest

unfoldable pub remove_permission :
    Role → Permission → List RolePermission → Bool × List RolePermission
unfolding has_row
remove_permission r p rows = if has_row r p rows then (true, delete_row r p rows) else (false, rows)

-- `n in numbers`
abbrev pub has : ℕ → List ℕ → Bool
has n [] = false
has n (x ∷ xs) = (x == n) || has n xs

-- The rows of other roles stay, and those of the role whose permission is in the new set.
abbrev pub stays : Role → List Permission → RolePermission → Bool
stays r ps row =
    not (row.role == role_index r)
    || (ltb row.permission 28 && has row.permission (map permission_index ps))

abbrev pub new_row : Role → Permission → RolePermission
new_row r p = record { role = role_index r; permission = permission_index p }

-- `set_permissions`: the rows to add are those that were missing before.
unfoldable pub set_permissions : Role → List Permission → List RolePermission → List RolePermission
unfolding has_row
set_permissions r ps rows =
    select (stays r ps) rows ++ map (new_row r) (select (λ p. not (has_row r p rows)) ps)

-- The number of rows that are inserted, and the table; the row of a role and permission is added
-- where it is missing. The order of a role's rows, by their texts in the source, is not looked at.
unfoldable pub seed_role : Role → List Permission → List RolePermission → ℕ × List RolePermission
unfolding has_row
seed_role r [] rows = (0, rows)
seed_role r (p ∷ ps) rows =
    let missing = not (has_row r p rows) in
    let (n, after) = seed_role r ps (if missing then rows ++ new_row r p ∷ [] else rows) in
    (if missing then suc n else n, after)

-- `for role in Role`
unfoldable pub seed_roles : List Role → List RolePermission → ℕ × List RolePermission
unfolding seed_role
seed_roles [] rows = (0, rows)
seed_roles (r ∷ rs) rows =
    let (n, after) = seed_role r (default_permissions_for r) rows in
    let (k, last) = seed_roles rs after in (n + k, last)

abbrev pub all_roles : List Role
all_roles =
    Role.super_admin ∷ Role.national_admin ∷ Role.regional_supervisor ∷ Role.inspector ∷ Role.host
    ∷ []

-- `seed_defaults(all_default_permissions())`, as the application calls it at each start.
unfoldable pub seed_defaults : List RolePermission → ℕ × List RolePermission
unfolding seed_roles
seed_defaults rows = seed_roles all_roles rows

-- The permissions that no row has, looked up before any is added.
abbrev pub missing_permissions : List Permission → List RolePermission → List Permission
missing_permissions ps rows =
    select
      (λ p. not (has (permission_index p) (map (λ (row : RolePermission). row.permission) rows))) ps

-- `ensure_catalog_permissions_present`
unfoldable pub ensure_catalog_permissions_present : List RolePermission → ℕ × List RolePermission
ensure_catalog_permissions_present rows =
    let absent = missing_permissions all_permissions rows in
    (length absent, rows ++ map (new_row Role.super_admin) absent)
