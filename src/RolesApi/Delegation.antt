-- ===== src/RolesApi/Delegation.antt =====
-- backend/app/api/roles.py: an admin with a limited role makes no role with more authority.
use perchtail.Prelude.{
  ℕ, ◌≡◌, refl, true, false, none, some, List, [], ◌∷◌, arith, any, filter, not, ◌==◌, nat_eq,
  ==_refl,
}
use perchtail.Prelude.Table.{get-remove}
use perchtail.Model.{User, Role, RoleGrant, Db}
use perchtail.Run.{ok}
use perchtail.Rbac.{
  require_global_capability, role_within_authority, require_role_within_authority,
  require_capabilities_within_authority, create_role, record_event,
}
use perchtail.RolesApi.{
  RoleCreate, RoleUpdate, require_super_admin_for_super_admin_flag, get_editable_role,
  create_role_endpoint, require_optional, commit_role, update_role, role_by_id, delete_role,
}

-- A role that a user creates is within the user's own authority.
pub create_role_endpoint-within_authority :
    (user : User) (payload : RoleCreate) (db db' : Db) (role : Role)
    → create_role_endpoint user payload db ≡ ok (db', role)
    → role_within_authority user role ≡ true
unfolding create_role_endpoint require_global_capability require_super_admin_for_super_admin_flag
    require_capabilities_within_authority role_within_authority create_role
create_role_endpoint-within_authority user payload db db' role h = ground arith

-- A role that a user changes stays within the user's own authority, and it was no built-in one.
pub update_role-within_authority :
    (user : User) (role_id : ℕ) (payload : RoleUpdate) (db db' : Db) (role : Role)
    → update_role user role_id payload db ≡ ok (db', role)
    → (role_within_authority user role ≡ true) × (role.is_builtin ≡ false)
unfolding update_role get_editable_role require_optional commit_role require_global_capability
    require_super_admin_for_super_admin_flag require_capabilities_within_authority
    require_role_within_authority role_within_authority
update_role-within_authority user role_id payload db db' role h = ground arith

any-filter :
    (role_id : ℕ) (gs : List RoleGrant)
    → any (λ g. g.role_id == role_id) (filter (λ g. not (g.role_id == role_id)) gs) ≡ false
any-filter role_id [] = refl
any-filter role_id (g ∷ gs) = ground (arith, any-filter role_id gs)

-- Deleting a role takes all of its grants with it, and happens to no built-in role and to none that
-- a user still has.
pub delete_role-grants :
    (users : List User) (mapped : List ℕ) (user : User) (role_id : ℕ) (db db' : Db) (role : Role)
    → role_by_id role_id db.roles ≡ some role
    → delete_role users mapped user role_id db ≡ ok db'
    → (role_by_id role_id db'.roles ≡ none)
      × (any (λ g. g.role_id == role_id) db'.grants ≡ false)
      × (role.is_builtin ≡ false)
      × (any (λ (u : User). u.role.id == role_id) users ≡ false)
unfolding delete_role record_event
delete_role-grants users mapped user role_id db db' role r h = ground (
  arith,
  get-remove (λ (r : Role). r.id) role_id role_id db.roles,
  ==_refl role_id,
  any-filter role_id db.grants,
)
