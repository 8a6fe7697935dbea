-- ===== src/Store/Roles/Seeding.antt =====
-- What the seeding of permissions, run at each start of the application, does to a table.
use sigis_backend.Base.{
  ◌≡◌, refl, sym, ◌∙◌, Bool, false, Bool-cases, inl, inr, ◌==◌, ◌&&◌, ◌||◌, List, [], ◌∷◌, ◌++◌,
  arith,
}
use sigis_backend.Base.Table.{first}
use sigis_backend.Domain.Roles.{Role, Permission, role_index, grants, default_permissions_for}
use sigis_backend.Store.Roles.{
  RolePermission, has_row, new_row, seed_role, seed_roles, all_roles, seed_defaults,
  remove_permission,
}
use sigis_backend.Store.Roles.Laws.{
  UniqueRows, has_row-append, same_row, read_lem, remove_permission_lem,
}

seed_role_lem :
    (r r' : Role) (p : Permission) (ps : List Permission) (rows : List RolePermission)
    → has_row r' p (seed_role r ps rows).1
      ≡ (has_row r' p rows || ((role_index r == role_index r') && grants p ps))
unfolding seed_role grants first
seed_role_lem r r' p [] rows = ground arith
seed_role_lem r r' p (q ∷ qs) rows = elim (Bool-cases (has_row r q rows)) [
  | inl there ↦
      rw (there, seed_role_lem r r' p qs rows) (ground (arith, there, same_row r r' q p rows))
  | inr missing ↦
      rw (missing, seed_role_lem r r' p qs (rows ++ new_row r q ∷ []), has_row-append r r' q p rows)
        (ground arith)
]

abbrev granted_by : Role → Permission → List Role → Bool
granted_by r p [] = false
granted_by r p (x ∷ xs) =
    ((role_index x == role_index r) && grants p (default_permissions_for x)) || granted_by r p xs

or_assoc : (a b c : Bool) → ((a || b) || c) ≡ (a || (b || c))
or_assoc a b c = ground arith

seed_roles_lem :
    (r : Role) (p : Permission) (rs : List Role) (rows : List RolePermission)
    → has_row r p (seed_roles rs rows).1 ≡ (has_row r p rows || granted_by r p rs)
unfolding seed_roles
seed_roles_lem r p [] rows = ground arith
seed_roles_lem r p (x ∷ xs) rows =
    rw
      (
        seed_roles_lem r p xs (seed_role x (default_permissions_for x) rows).1,
        seed_role_lem x r p (default_permissions_for x) rows,
      )
      (or_assoc (has_row r p rows) _ (granted_by r p xs))

granted_by-all :
    (r : Role) (p : Permission) → granted_by r p all_roles ≡ grants p (default_permissions_for r)
unfolding role_index
granted_by-all Role.super_admin p = ground arith
granted_by-all Role.national_admin p = ground arith
granted_by-all Role.regional_supervisor p = ground arith
granted_by-all Role.inspector p = ground arith
granted_by-all Role.host p = ground arith

seeded :
    (r : Role) (p : Permission) (rows : List RolePermission)
    → has_row r p (seed_defaults rows).1
      ≡ (has_row r p rows || grants p (default_permissions_for r))
unfolding seed_defaults
seeded r p rows = rw (sym (granted_by-all r p)) (seed_roles_lem r p all_roles rows)

removed :
    (r : Role) (p : Permission) (rows : List RolePermission)
    → UniqueRows rows
    → has_row r p (remove_permission r p rows).1 ≡ false
removed r p rows u =
    let after = (remove_permission r p rows).1 in
    sym (read_lem r p after) ∙ (remove_permission_lem r r p p rows u).0 ∙ ground arith

-- After the seeding of a start, a role has exactly the permissions it had before and those of its
-- defaults. So, in a table without doubles, a permission that was removed from a role is there
-- again after the next start exactly if it is one of the role's defaults.
pub seed_defaults_lem :
    (r : Role) (p : Permission) (rows : List RolePermission)
    → UniqueRows rows
    → (has_row r p (seed_defaults rows).1
        ≡ (has_row r p rows || grants p (default_permissions_for r)))
      × (has_row r p (seed_defaults (remove_permission r p rows).1).1
          ≡ grants p (default_permissions_for r))
seed_defaults_lem r p rows u =
    (seeded r p rows, seeded r p (remove_permission r p rows).1 ∙ rw (removed r p rows u) refl)
