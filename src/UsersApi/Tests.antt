-- ===== src/UsersApi/Tests.antt =====
-- The user handlers on concrete accounts: a super-admin and a delegated admin.
use perchtail.Prelude.{◌≡◌, refl, true, false, some, none, List, [], ◌∷◌, arith, nat_eq, string_eq}
use perchtail.Prelude.Table.{get, replace}
use perchtail.Model.{Role, User, manage_users}
use perchtail.Run.{ok}
use perchtail.Rbac.{
  require_global_capability, require_role_within_authority, role_within_authority, record_event,
}
use perchtail.UsersApi.{
  Account, UsersDb, Request, update, reset, deactivate, account_by_id, handle, serve,
  get_manageable_user, require_not_last_super_admin, commit_account, deactivate_user,
}
use perchtail.UsersApi.Guards.{IsSafe}
use perchtail.UsersApi.Serve.{serve-IsSafe}
use perchtail.UsersApi.Protected.{handle-kept}
use perchtail.Samples

abbrev super : Role
super = record {
  id = 1;
  name = "super";
  is_builtin = true;
  is_super_admin = true;
  global_capabilities = [];
}

abbrev manager : Role
manager = record {
  id = 2;
  name = "manager";
  is_builtin = false;
  is_super_admin = false;
  global_capabilities = manage_users ∷ [];
}

abbrev root : Account
root = record {
  id = 1;
  username = "root";
  role_id = 1;
  active = true;
  password_hash = some "h";
  must_change_password = false;
}

abbrev helper : Account
helper = record root { id = 2; username = "helper"; role_id = 2 }

abbrev helper_user : User
helper_user = record { id = 2; username = "helper"; active = true; role = manager }

abbrev root_user : User
root_user = record { id = 1; username = "root"; active = true; role = super }

abbrev users : UsersDb
users = record {
  tables = record Samples.db { roles = super ∷ manager ∷ [] };
  accounts = root ∷ helper ∷ [];
  next_user_id = 3;
  sessions = [];
  next_session_id = 1;
}

users-IsSafe : IsSafe users
unfolding get
users-IsSafe = ((refl, (refl, tt)), (omega arith, (omega arith, tt)), (root, (refl, refl, refl)))

-- The last super-admin asks to be demoted and to be deactivated.
abbrev requests : List (User × Request)
requests =
    (root_user, update 1 (record { role_id = some 2; active = none }))
    ∷ (root_user, deactivate 1)
    ∷ (helper_user, reset 1 "pw")
    ∷ []

serve-IsSafe_example : IsSafe (serve (λ p. p) (λ t. t) requests users)
serve-IsSafe_example = serve-IsSafe (λ p. p) (λ t. t) requests users users-IsSafe

abbrev deactivated : UsersDb
deactivated = record users {
  accounts = root ∷ record helper { active = false } ∷ [];
  tables = record_event (some 2) "user.deactivate" "user" 2 users.tables;
}

deactivated-ok : handle (λ p. p) (λ t. t) helper_user (deactivate 2) users ≡ ok deactivated
unfolding handle deactivate_user get_manageable_user require_not_last_super_admin commit_account get
    replace require_global_capability require_role_within_authority role_within_authority
deactivated-ok = refl

handle-kept_example : account_by_id 1 deactivated.accounts ≡ some root
unfolding get role_within_authority
handle-kept_example =
    handle-kept (λ p. p) (λ t. t) helper_user root super (deactivate 2) users deactivated
      (refl, refl, refl) deactivated-ok
