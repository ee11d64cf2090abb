-- ===== src/RolesApi.antt =====
-- backend/app/api/roles.py: the handlers that create, change and delete roles and their grants. A
-- commit that breaks the unique name of a role raises.
mod Delegation
mod Tests
use perchtail.Prelude.{
  ℕ, Bool, true, false, ◌&&◌, not, Option, none, some, String, List, [], ◌∷◌, ◌==◌, nat_eq,
  string_eq, any, filter, if◌then◌else◌, is_some,
}
use perchtail.Prelude.Table.{get, remove, replace}
use perchtail.Model.{
  Role, RoleGrant, User, Db, Source, ScopeType, customer, folder, source, Capability,
  GlobalCapability, manage_roles,
}
use perchtail.Run.{Run, ok, http, crash, ◌>>=◌, ◌>>◌}
use perchtail.Rbac.{
  has_id, folder_by_id, source_by_id, require_global_capability, require_role_within_authority,
  require_capabilities_within_authority, record_event, create_role, create_role_grant,
}

pub record RoleCreate : Type 0 where
  pub name : String
  pub is_super_admin : Bool
  pub global_capabilities : List GlobalCapability

pub record RoleUpdate : Type 0 where
  pub name : Option String
  pub is_super_admin : Option Bool
  pub global_capabilities : Option (List GlobalCapability)

pub record RoleGrantCreate : Type 0 where
  pub scope_type : ScopeType
  pub scope_id : ℕ
  pub capabilities : List Capability

abbrev pub role_by_id : ℕ → List Role → Option Role
role_by_id = get (λ (r : Role). r.id)

abbrev pub grant_by_id : ℕ → List RoleGrant → Option RoleGrant
grant_by_id = get (λ (g : RoleGrant). g.id)

abbrev pub or_else {ℓ} : {A : Type ℓ} → Option A → A → A
or_else none a = a
or_else (some b) a = b

unfoldable pub require_super_admin_for_super_admin_flag : User → Bool → Run (Unit {0})
require_super_admin_for_super_admin_flag user is_super_admin =
    if is_super_admin && not user.role.is_super_admin
    then http 403 "Only a super-admin can create or edit a super-admin role"
    else ok tt

unfoldable pub get_editable_role : User → ℕ → Db → Run Role
get_editable_role user role_id db = elim (role_by_id role_id db.roles) [
  | none ↦ http 404 "Role not found"
  | some role ↦
      if role.is_builtin
      then http 403 "Built-in roles cannot be modified"
      else require_role_within_authority user role >> ok role
]

abbrev pub scope_exists : ScopeType → ℕ → Db → Bool
scope_exists customer scope_id db = has_id scope_id db.customers
scope_exists folder scope_id db = is_some (folder_by_id scope_id db.folders)
scope_exists source scope_id db = is_some (source_by_id scope_id db.sources)

abbrev pub not_found : ScopeType → String
not_found customer = "customer not found"
not_found folder = "folder not found"
not_found source = "source not found"

unfoldable pub validate_scope_exists : ScopeType → ℕ → Db → Run (Unit {0})
validate_scope_exists scope_type scope_id db =
    if scope_exists scope_type scope_id db then ok tt else http 404 (not_found scope_type)

abbrev pub add_role : Bool → User → RoleCreate → Db → Run (Db × Role)
add_role true user payload db = http 409 "Name already in use"
add_role false user payload db = ok (
    create_role (some user.id) payload.name false payload.is_super_admin payload.global_capabilities
      db)

unfoldable pub create_role_endpoint : User → RoleCreate → Db → Run (Db × Role)
create_role_endpoint user payload db = do
  require_global_capability user manage_roles
  require_super_admin_for_super_admin_flag user payload.is_super_admin
  require_capabilities_within_authority user payload.global_capabilities
  add_role (any (λ (r : Role). r.name == payload.name) db.roles) user payload db

unfoldable pub require_optional : User → Option (List GlobalCapability) → Run (Unit {0})
require_optional user none = ok tt
require_optional user (some cs) = require_capabilities_within_authority user cs

abbrev pub updated : RoleUpdate → Role → Role
updated payload role = record role {
  name = or_else payload.name role.name;
  is_super_admin = or_else payload.is_super_admin role.is_super_admin;
  global_capabilities = or_else payload.global_capabilities role.global_capabilities;
}

-- the commit of a changed role
unfoldable pub commit_role : ℕ → Role → Db → Run (Db × Role)
commit_role actor role db =
    if any (λ (r : Role). r.name == role.name && not (r.id == role.id)) db.roles
    then crash
    else ok (
      record_event (some actor) "role.update" "role" role.id
          (record db { roles = replace (λ (r : Role). r.id) role db.roles }),
      role,
    )

unfoldable pub update_role : User → ℕ → RoleUpdate → Db → Run (Db × Role)
update_role user role_id payload db = do
  require_global_capability user manage_roles
  role ← get_editable_role user role_id db
  require_super_admin_for_super_admin_flag user (or_else payload.is_super_admin role.is_super_admin)
  require_optional user payload.global_capabilities
  commit_role user.id (updated payload role) db

-- the end of `delete_role`, at whether users have the role and whether a mapping points at it; the
-- role's grants go with it
abbrev pub remove_role : Bool → Bool → User → ℕ → Db → Run Db
remove_role true is_mapped user role_id db =
    http 409 "Role still has users assigned; reassign them first"
remove_role false true user role_id db =
    http 409 "Role is still the target of an SSO group mapping; remove the mapping first"
remove_role false false user role_id db = ok (
    record_event (some user.id) "role.delete" "role" role_id (record db {
      roles = remove (λ (r : Role). r.id) role_id db.roles;
      grants = filter (λ g. not (g.role_id == role_id)) db.grants;
    }))

-- `users` is the table of users and `mapped` the role ids that the SSO group mappings point at.
unfoldable pub delete_role : List User → List ℕ → User → ℕ → Db → Run Db
delete_role users mapped user role_id db = do
  require_global_capability user manage_roles
  elim (role_by_id role_id db.roles) [
    | none ↦ http 404 "Role not found"
    | some role ↦ if role.is_builtin then http 403 "Cannot delete a built-in role" else do
      require_role_within_authority user role
      remove_role (any (λ (u : User). u.role.id == role_id) users) (has_id role_id mapped) user
          role_id db
  ]

unfoldable pub create_grant : User → ℕ → RoleGrantCreate → Db → Run (Db × RoleGrant)
create_grant user role_id payload db = do
  require_global_capability user manage_roles
  get_editable_role user role_id db
  validate_scope_exists payload.scope_type payload.scope_id db
  ok (
      create_role_grant (some user.id) role_id payload.scope_type payload.scope_id
        payload.capabilities db)

-- the grant, which has to be one of the role's
unfoldable pub get_role_grant : ℕ → ℕ → Db → Run RoleGrant
get_role_grant role_id grant_id db = elim (grant_by_id grant_id db.grants) [
  | none ↦ http 404 "Grant not found"
  | some grant ↦ if grant.role_id == role_id then ok grant else http 404 "Grant not found"
]

unfoldable pub update_grant : User → ℕ → ℕ → List Capability → Db → Run (Db × RoleGrant)
update_grant user role_id grant_id capabilities db = do
  require_global_capability user manage_roles
  grant ← get_role_grant role_id grant_id db
  get_editable_role user role_id db
  let grant' : RoleGrant = record grant { capabilities = capabilities } in
      ok (
        record_event (some user.id) "role_grant.update" "role_grant" grant.id
            (record db { grants = replace (λ (g : RoleGrant). g.id) grant' db.grants }),
        grant',
      )

unfoldable pub delete_grant : User → ℕ → ℕ → Db → Run Db
delete_grant user role_id grant_id db = do
  require_global_capability user manage_roles
  grant ← get_role_grant role_id grant_id db
  get_editable_role user role_id db
  ok (
      record_event (some user.id) "role_grant.delete" "role_grant" grant_id
        (record db { grants = remove (λ (g : RoleGrant). g.id) grant_id db.grants }))
