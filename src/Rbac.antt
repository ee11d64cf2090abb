-- ===== src/Rbac.antt =====
-- backend/app/auth/rbac.py: grants, the scope that decides, and the limits of a delegated admin.
pub mod Scopes
mod Boundary
mod Authority
mod Tests
use perchtail.Prelude.{
  ℕ, zero, suc, ◌+◌, ◌≡◌, Bool, true, false, ◌&&◌, ◌||◌, not, Option, none, some, String, List, [],
  ◌∷◌, ◌++◌, ◌==◌, nat_eq, if◌then◌else◌, any, all, filter, map,
}
use perchtail.Prelude.Table.{get}
use perchtail.Model.{
  Source, Folder, Role, RoleGrant, User, Db, AuditEvent, ScopeType, customer, folder, source,
  Capability, GlobalCapability, scope_eq, capability_eq, global_eq,
}
use perchtail.Run.{Run, ok, http, crash, out_of_fuel, ◌>>=◌, ◌>>◌}

abbrev pub folder_by_id : ℕ → List Folder → Option Folder
folder_by_id = get (λ (f : Folder). f.id)

abbrev pub source_by_id : ℕ → List Source → Option Source
source_by_id = get (λ (s : Source). s.id)

-- `_find_grant`
unfoldable pub find_grant : List RoleGrant → ℕ → ScopeType → ℕ → Option RoleGrant
find_grant [] role_id scope_type scope_id = none
find_grant (g ∷ gs) role_id scope_type scope_id =
    let rest = find_grant gs role_id scope_type scope_id in
    if g.role_id == role_id && g.scope_type == scope_type && g.scope_id == scope_id
    then some g
    else rest

-- `x in xs`
abbrev pub has_capability : Capability → List Capability → Bool
has_capability c cs = any (λ d. d == c) cs

abbrev pub has_global : GlobalCapability → List GlobalCapability → Bool
has_global c cs = any (λ d. d == c) cs

abbrev pub has_id : ℕ → List ℕ → Bool
has_id n ns = any (λ m. m == n) ns

module _ (db : Db) (user : User) where
  -- the `if customer_id is not None` tail
  unfoldable pub customer_capability : Option ℕ → Capability → Bool
  customer_capability none capability = false
  customer_capability (some customer_id) capability =
      elim (find_grant db.grants user.role.id customer customer_id) [
        | none ↦ false
        | some grant ↦ has_capability capability grant.capabilities
      ]

  -- `resolve_folder_or_customer_capability`; a missing folder row raises
  pub resolve_folder_or_customer_capability : ℕ → Option ℕ → Option ℕ → Capability → Run Bool
  unfolding customer_capability
  resolve_folder_or_customer_capability zero folder_id customer_id capability = out_of_fuel
  resolve_folder_or_customer_capability (suc fuel) none customer_id capability =
      ok (customer_capability customer_id capability)
  resolve_folder_or_customer_capability (suc fuel) (some folder_id) customer_id capability =
      elim (find_grant db.grants user.role.id folder folder_id) [
        | some grant ↦ ok (has_capability capability grant.capabilities)
        | none ↦ elim (folder_by_id folder_id db.folders) [
          | none ↦ crash
          | some f ↦
              resolve_folder_or_customer_capability fuel f.parent_folder_id customer_id capability
        ]
      ]

  unfoldable pub resolve_capability : ℕ → Source → Capability → Run Bool
  unfolding resolve_folder_or_customer_capability
  resolve_capability fuel src capability =
      if src.is_system
      then ok user.role.is_super_admin
      else if user.role.is_super_admin
      then ok true
      else elim (find_grant db.grants user.role.id source src.id) [
        | some grant ↦ ok (has_capability capability grant.capabilities)
        | none ↦ resolve_folder_or_customer_capability fuel src.folder_id src.customer_id capability
      ]

  -- the loop of `visible_source_ids`
  pub visible_ids_from : ℕ → Capability → List Source → Run (List ℕ)
  visible_ids_from fuel capability [] = ok []
  visible_ids_from fuel capability (s ∷ rest) =
      let more = visible_ids_from fuel capability rest in
      if s.is_system then more else (do
        allowed ← resolve_capability fuel s capability
        ids ← more
        ok (if allowed then s.id ∷ ids else ids))

  -- `none` is every source
  pub visible_source_ids : ℕ → Capability → Run (Option (List ℕ))
  unfolding visible_ids_from
  visible_source_ids fuel capability =
      if user.role.is_super_admin
      then ok none
      else (do ids ← visible_ids_from fuel capability db.sources; ok (some ids))

  -- `require_capability`
  unfoldable pub require_capability : ℕ → Capability → ℕ → Run Source
  require_capability fuel capability source_id = elim (source_by_id source_id db.sources) [
    | none ↦ http 404 "Source not found"
    | some src ↦ do
      allowed ← resolve_capability fuel src capability
      if allowed then ok src else http 403 "Not permitted"
  ]

-- `require_global_capability`
unfoldable pub require_global_capability : User → GlobalCapability → Run User
require_global_capability user capability =
    if user.role.is_super_admin
    then ok user
    else if has_global capability user.role.global_capabilities
    then ok user
    else http 403 "Not permitted"

-- `set(xs) <= set(ys)`
abbrev pub global_subset : List GlobalCapability → List GlobalCapability → Bool
global_subset xs ys = all (λ c. has_global c ys) xs

unfoldable pub role_within_authority : User → Role → Bool
role_within_authority actor role =
    if actor.role.is_super_admin
    then true
    else if role.is_super_admin
    then false
    else global_subset role.global_capabilities actor.role.global_capabilities

unfoldable pub require_role_within_authority : User → Role → Run (Unit {0})
unfolding role_within_authority
require_role_within_authority actor role =
    if role_within_authority actor role
    then ok tt
    else http 403 "Not permitted: that role has privileges beyond your own"

unfoldable pub require_capabilities_within_authority : User → List GlobalCapability → Run (Unit {0})
require_capabilities_within_authority actor global_capabilities =
    if actor.role.is_super_admin
    then ok tt
    else if global_subset global_capabilities actor.role.global_capabilities
    then ok tt
    else http 403 "Not permitted: you can only grant global capabilities you hold yourself"

-- `delete_scope_grants`
unfoldable pub delete_scope_grants : ScopeType → ℕ → List RoleGrant → List RoleGrant
delete_scope_grants scope_type scope_id grants =
    filter (λ g. not (g.scope_type == scope_type && g.scope_id == scope_id)) grants

-- `record_audit_event`, up to its hash
unfoldable pub record_event : Option ℕ → String → String → ℕ → Db → Db
record_event user_id action target_type target_id db = record db {
  audit =
      db.audit
      ++ record {
        user_id = user_id;
        action = action;
        target_type = target_type;
        target_id = target_id;
      }
        ∷ [];
}

unfoldable pub create_role :
    Option ℕ → String → Bool → Bool → List GlobalCapability → Db → Db × Role
unfolding record_event
create_role actor_user_id name is_builtin is_super_admin global_capabilities db =
    let id = db.next_role_id in
    let role : Role = record {
      id = id;
      name = name;
      is_builtin = is_builtin;
      is_super_admin = is_super_admin;
      global_capabilities = global_capabilities;
    } in
    (
      record_event actor_user_id "role.create" "role" id
          (record db { roles = db.roles ++ role ∷ []; next_role_id = id + 1 }),
      role,
    )

unfoldable pub create_role_grant :
    Option ℕ → ℕ → ScopeType → ℕ → List Capability → Db → Db × RoleGrant
unfolding record_event
create_role_grant actor_user_id role_id scope_type scope_id capabilities db =
    let id = db.next_grant_id in
    let grant : RoleGrant = record {
      id = id;
      role_id = role_id;
      scope_type = scope_type;
      scope_id = scope_id;
      capabilities = capabilities;
    } in
    (
      record_event actor_user_id "role_grant.create" "role_grant" id
          (record db { grants = db.grants ++ grant ∷ []; next_grant_id = id + 1 }),
      grant,
    )
