-- ===== src/Store/Roles/Laws.antt =====
-- What the table of permissions answers after a change
-- (infrastructure/persistence/sqlalchemy/role_permission_repo.py).
use sigis_backend.Base.{
  select, map, ℕ, ◌==◌, ◌&&◌, ◌||◌, ◌≡◌, ◌<◌, refl, false, not, List, [], ◌∷◌, ◌++◌, is_some, arith,
}
use sigis_backend.Base.Table.{first}
use sigis_backend.Domain.Roles.{Role, Permission, role_index, permission_index}
use sigis_backend.Store.Roles.{
  has, stays, new_row, set_permissions, RolePermission, has_row, get_permissions_for_role,
  get_effective_permissions, add_permission, delete_row, remove_permission,
}

permission_index-lt : (p : Permission) → permission_index p < 28
unfolding permission_index
permission_index-lt p = ground arith

-- Reading the permissions of a role is looking for its rows.
pub read_lem :
    (r : Role) (p : Permission) (rows : List RolePermission)
    → has (permission_index p) (get_permissions_for_role r rows) ≡ has_row r p rows
unfolding get_permissions_for_role has_row first
read_lem r p [] = refl
read_lem r p (x ∷ rows) = ground (arith, read_lem r p rows, permission_index-lt p)

-- `UNIQUE (role, permission)`.
abbrev pub UniqueRows : List RolePermission → Type 0
UniqueRows [] = Unit
UniqueRows (x ∷ rows) =
    (is_some
        (first (λ (y : RolePermission). (y.role == x.role) && (y.permission == x.permission)) rows)
      ≡ false)
    × UniqueRows rows

pub same_row :
    (r r' : Role) (p p' : Permission) (rows : List RolePermission)
    → role_index r ≡ role_index r'
    → permission_index p ≡ permission_index p'
    → has_row r p rows ≡ has_row r' p' rows
unfolding has_row first
same_row r r' p p' [] a b = refl
same_row r r' p p' (x ∷ rows) a b = ground (arith, a, b, same_row r r' p p' rows a b)

row_like :
    (r : Role) (p : Permission) (x : RolePermission) (rows : List RolePermission)
    → x.role ≡ role_index r
    → x.permission ≡ permission_index p
    → is_some
        (first (λ (y : RolePermission). (y.role == x.role) && (y.permission == x.permission)) rows)
      ≡ has_row r p rows
unfolding has_row first
row_like r p x [] a b = refl
row_like r p x (y ∷ rows) a b = ground (arith, a, b, row_like r p x rows a b)

no_other :
    (r : Role) (p : Permission) (x : RolePermission) (rows : List RolePermission)
    → UniqueRows (x ∷ rows)
    → x.role ≡ role_index r
    → x.permission ≡ permission_index p
    → has_row r p rows ≡ false
no_other r p x rows u a b = ground (arith, u.0, row_like r p x rows a b)

-- Under the constraint, deleting the first row of a role and permission takes that one away and
-- no other.
delete_lem :
    (r r' : Role) (p p' : Permission) (rows : List RolePermission)
    → UniqueRows rows
    → has_row r' p' (delete_row r p rows) ≡ (
        has_row r' p' rows
        && not ((role_index r == role_index r') && (permission_index p == permission_index p')))
unfolding has_row first
delete_lem r r' p p' [] u = refl
delete_lem r r' p p' (x ∷ rows) u =
    ground (arith, delete_lem r r' p p' rows u.1, no_other r p x rows u, same_row r r' p p' rows)

pub has_row-append :
    (r r' : Role) (p p' : Permission) (rows : List RolePermission)
    → has_row r' p' (rows ++ record { role = role_index r; permission = permission_index p } ∷ [])
      ≡ (has_row r' p' rows
          || ((role_index r == role_index r') && (permission_index p == permission_index p')))
unfolding has_row first
has_row-append r r' p p' [] = ground arith
has_row-append r r' p p' (x ∷ rows) = ground (arith, has_row-append r r' p p' rows)

has-append : (n : ℕ) (xs ys : List ℕ) → has n (xs ++ ys) ≡ (has n xs || has n ys)
has-append n [] ys = refl
has-append n (x ∷ xs) ys = ground (arith, has-append n xs ys)

-- After a permission is added to a role: the role has it, every other role and permission is as
-- it was, the answer says whether it was missing, and adding it again adds nothing.
pub add_permission_lem :
    (r r' : Role) (p p' : Permission) (rows : List RolePermission)
    → let (added, after) = add_permission r p rows in
      (has (permission_index p') (get_permissions_for_role r' after) ≡ (
        has (permission_index p') (get_permissions_for_role r' rows)
        || ((role_index r == role_index r') && (permission_index p == permission_index p'))))
      × (added ≡ not (has_row r p rows))
      × (add_permission r p after ≡ (false, after))
unfolding add_permission first
add_permission_lem r r' p p' rows = (
  rw (read_lem r' p' rows) (
      ground (
        arith,
        read_lem r' p' rows,
        read_lem r' p'
            (rows ++ record { role = role_index r; permission = permission_index p } ∷ []),
        has_row-append r r' p p' rows,
        same_row r r' p p' rows,
      )),
  ground arith,
  ground (arith, has_row-append r r p p rows),
)

-- After a permission is removed from a role, in a table without doubles: the role no longer has
-- it, every other role and permission is as it was, and the answer says whether it was there.
pub remove_permission_lem :
    (r r' : Role) (p p' : Permission) (rows : List RolePermission)
    → UniqueRows rows
    → let (removed, after) = remove_permission r p rows in
      (has (permission_index p') (get_permissions_for_role r' after) ≡ (
        has (permission_index p') (get_permissions_for_role r' rows)
        && not ((role_index r == role_index r') && (permission_index p == permission_index p'))))
      × (removed ≡ has_row r p rows)
unfolding remove_permission
remove_permission_lem r r' p p' rows u = rw (read_lem r' p' rows) (
    ground (
      arith,
      read_lem r' p' rows,
      read_lem r' p' (delete_row r p rows),
      delete_lem r r' p p' rows u,
      same_row r r' p p' rows,
    ))

-- What the roles of one user give together is what one of them gives.
pub effective_lem :
    (r : Role) (rs : List Role) (p : Permission) (rows : List RolePermission)
    → has (permission_index p) (get_effective_permissions (r ∷ rs) rows)
      ≡ (has_row r p rows || has (permission_index p) (get_effective_permissions rs rows))
unfolding get_effective_permissions
effective_lem r rs p rows =
    rw
      (
        has-append (permission_index p) (get_permissions_for_role r rows)
            (get_effective_permissions rs rows),
        read_lem r p rows,
      )
      refl

-- The rows that stay.
has_row-select :
    (r : Role) (p : Permission) (ps : List Permission) (rows : List RolePermission)
    → has_row r p (select (stays r ps) rows)
      ≡ (has_row r p rows && has (permission_index p) (map permission_index ps))
unfolding has_row first
has_row-select r p ps [] = refl
has_row-select r p ps (x ∷ rows) = ground (arith, has_row-select r p ps rows, permission_index-lt p)

has_row-pair :
    (r : Role) (p : Permission) (xs ys : List RolePermission)
    → has_row r p (xs ++ ys) ≡ (has_row r p xs || has_row r p ys)
unfolding has_row first
has_row-pair r p [] ys = refl
has_row-pair r p (x ∷ xs) ys = ground (arith, has_row-pair r p xs ys)

-- The rows that are added.
has_row-new :
    (r : Role) (p : Permission) (rows : List RolePermission) (ps : List Permission)
    → has_row r p (map (new_row r) (select (λ q. not (has_row r q rows)) ps))
      ≡ (not (has_row r p rows) && has (permission_index p) (map permission_index ps))
unfolding has_row first
has_row-new r p rows [] = ground arith
has_row-new r p rows (q ∷ ps) = ground (arith, has_row-new r p rows ps, same_row r r q p rows refl)

-- After the permissions of a role are set, it has those of the new set and no other.
pub set_permissions_lem :
    (r : Role) (p : Permission) (ps : List Permission) (rows : List RolePermission)
    → has (permission_index p) (get_permissions_for_role r (set_permissions r ps rows))
      ≡ has (permission_index p) (map permission_index ps)
unfolding set_permissions
set_permissions_lem r p ps rows =
    let added = map (new_row r) (select (λ q. not (has_row r q rows)) ps) in
    rw
      (
        read_lem r p (select (stays r ps) rows ++ added),
        has_row-pair r p (select (stays r ps) rows) added,
        has_row-select r p ps rows,
        has_row-new r p rows ps,
      )
      (ground arith)
