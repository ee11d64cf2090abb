-- ===== src/RolesApi/Tests.antt =====
-- Requests of a delegated admin on the sample tables.
use perchtail.Prelude.{◌≡◌, refl, true, false, none, some, [], ◌∷◌, nat_eq}
use perchtail.Prelude.Table.{get, remove, replace}
use perchtail.Model.{Role, Db, create_source}
use perchtail.Run.{ok}
use perchtail.Rbac.{
  require_global_capability, require_role_within_authority, require_capabilities_within_authority,
  role_within_authority, record_event, create_role,
}
use perchtail.RolesApi.{
  RoleCreate, RoleUpdate, role_by_id, require_super_admin_for_super_admin_flag, get_editable_role,
  create_role_endpoint, require_optional, commit_role, update_role, delete_role,
}
use perchtail.RolesApi.Delegation.{update_role-within_authority}
use perchtail.Samples.{db, operator}

abbrev helper : Role
helper = record {
  id = 3;
  name = "helper";
  is_builtin = false;
  is_super_admin = false;
  global_capabilities = create_source ∷ [];
}

abbrev with_helper : Db
with_helper = record db {
  roles = operator.role ∷ helper ∷ [];
  next_role_id = 4;
  audit =
      record { user_id = some 7; action = "role.create"; target_type = "role"; target_id = 3 } ∷ [];
}

abbrev create_payload : RoleCreate
create_payload = record {
  name = "helper";
  is_super_admin = false;
  global_capabilities = create_source ∷ [];
}

helper-created : create_role_endpoint operator create_payload db ≡ ok (with_helper, helper)
unfolding create_role_endpoint require_global_capability require_super_admin_for_super_admin_flag
    require_capabilities_within_authority create_role record_event
helper-created = refl

abbrev rename : RoleUpdate
rename = record { name = some "support"; is_super_admin = none; global_capabilities = some [] }

abbrev support : Role
support = record helper { name = "support"; global_capabilities = [] }

abbrev with_support : Db
with_support = record with_helper {
  roles = operator.role ∷ support ∷ [];
  audit =
      record { user_id = some 7; action = "role.create"; target_type = "role"; target_id = 3 }
      ∷ record { user_id = some 7; action = "role.update"; target_type = "role"; target_id = 3 }
      ∷ [];
}

helper-updated : update_role operator 3 rename with_helper ≡ ok (with_support, support)
unfolding update_role get_editable_role require_optional commit_role require_global_capability
    require_super_admin_for_super_admin_flag require_capabilities_within_authority
    require_role_within_authority role_within_authority record_event get replace
helper-updated = refl

update_role-within_authority_example :
    (role_within_authority operator support ≡ true) × (support.is_builtin ≡ false)
update_role-within_authority_example =
    update_role-within_authority operator 3 rename with_helper with_support support helper-updated

abbrev without_helper : Db
without_helper = record with_helper {
  roles = operator.role ∷ [];
  audit =
      record { user_id = some 7; action = "role.create"; target_type = "role"; target_id = 3 }
      ∷ record { user_id = some 7; action = "role.delete"; target_type = "role"; target_id = 3 }
      ∷ [];
}

helper-found : role_by_id 3 with_helper.roles ≡ some helper
unfolding get
helper-found = refl

helper-deleted : delete_role (operator ∷ []) (2 ∷ []) operator 3 with_helper ≡ ok without_helper
unfolding delete_role require_global_capability require_role_within_authority role_within_authority
    record_event get remove
helper-deleted = refl
