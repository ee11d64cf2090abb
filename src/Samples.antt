-- ===== src/Samples.antt =====
-- Test data: a customer with two nested folders and a source in the inner one, and three users.
use perchtail.Prelude.{ℕ, Bool, true, false, none, some, List, [], ◌∷◌}
use perchtail.Model.{
  ssh, Role, RoleGrant, User, Db, Folder, Source, folder, view, GlobalCapability, manage_roles,
  create_source,
}

abbrev role : ℕ → Bool → List GlobalCapability → Role
role id is_super_admin global_capabilities = record {
  id = id;
  name = "role";
  is_builtin = false;
  is_super_admin = is_super_admin;
  global_capabilities = global_capabilities;
}

abbrev user_with : Role → User
user_with r = record { id = 7; username = "alice"; active = true; role = r }

abbrev pub operator : User
operator = user_with (role 2 false (manage_roles ∷ create_source ∷ []))

abbrev pub grant : RoleGrant
grant = record { id = 1; role_id = 2; scope_type = folder; scope_id = 1; capabilities = view ∷ [] }

abbrev pub outer : Folder
outer = record { id = 1; name = "outer"; customer_id = 1; parent_folder_id = none }

abbrev pub inner : Folder
inner = record { id = 2; name = "inner"; customer_id = 1; parent_folder_id = some 1 }

abbrev pub logs : Source
logs = record {
  id = 5;
  customer_id = some 1;
  folder_id = some 2;
  protocol = ssh;
  is_system = false;
  agent_os = none;
  search_indexing_enabled = true;
  enabled = true;
}

abbrev pub db : Db
db = record {
  customers = 1 ∷ [];
  folders = outer ∷ inner ∷ [];
  next_folder_id = 3;
  sources = logs ∷ [];
  roles = operator.role ∷ [];
  next_role_id = 3;
  grants = grant ∷ [];
  next_grant_id = 2;
  audit = [];
}

abbrev pub no_folders : Db
no_folders = record db { folders = []; next_folder_id = 1; sources = [] }
