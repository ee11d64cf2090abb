-- ===== src/UsersApi.antt =====
-- backend/app/api/users.py: the handlers that create, change and deactivate accounts. A handler that
-- raises leaves the tables as they were.
mod Table
mod Guards
mod LastAdmin
mod Serve
mod Protected
mod Tests
use perchtail.Prelude.{
  ℕ, suc, Bool, true, false, ◌&&◌, not, Option, none, some, String, List, [], ◌∷◌, ◌++◌, ◌==◌,
  nat_eq, string_eq, any, if◌then◌else◌,
}
use perchtail.Prelude.Table.{get, replace}
use perchtail.Model.{Role, User, Db, manage_users}
use perchtail.Run.{Run, ok, http, crash, out_of_fuel, ◌>>=◌, ◌>>◌}
use perchtail.Rbac.{require_global_capability, require_role_within_authority, record_event}
use perchtail.RolesApi.{role_by_id, or_else}
use perchtail.Sessions.{AuthSession, AuthDb, revoke_all_sessions}

-- A row of the users, with the columns that the handlers change.
pub record Account : Type 0 where
  pub id : ℕ
  pub username : String
  pub role_id : ℕ
  pub active : Bool
  pub password_hash : Option String
  pub must_change_password : Bool

pub record UsersDb : Type 0 where
  pub tables : Db
  pub accounts : List Account
  pub next_user_id : ℕ
  pub sessions : List AuthSession
  pub next_session_id : ℕ

pub record UserCreate : Type 0 where
  pub username : String
  pub password : String
  pub role_id : ℕ

pub record UserUpdate : Type 0 where
  pub role_id : Option ℕ
  pub active : Option Bool

abbrev pub account_by_id : ℕ → List Account → Option Account
account_by_id = get (λ (a : Account). a.id)

abbrev pub put_account : Account → List Account → List Account
put_account = replace (λ (a : Account). a.id)

abbrev pub is_super_role : Option Role → Bool
is_super_role none = false
is_super_role (some role) = role.is_super_admin

-- has the account a super-admin role, by the join with the roles?
abbrev pub is_super_admin : List Role → Account → Bool
is_super_admin roles a = is_super_role (role_by_id a.role_id roles)

pub get_manageable_user : User → ℕ → UsersDb → Run Account
get_manageable_user actor user_id db = elim (account_by_id user_id db.accounts) [
  | none ↦ http 404 "User not found"
  | some target ↦ elim (role_by_id target.role_id db.tables.roles) [
    | none ↦ crash
    | some role ↦ require_role_within_authority actor role >> ok target
  ]
]

-- an active super-admin other than `target`
abbrev pub is_other : List Role → Account → Account → Bool
is_other roles target a = (a.active && is_super_admin roles a) && not (a.id == target.id)

-- `_require_not_last_super_admin`, at the target's role
abbrev pub require_other : Option Role → Account → UsersDb → Run (Unit {0})
require_other none target db = crash
require_other (some role) target db =
    if not role.is_super_admin
    then ok tt
    else if any (is_other db.tables.roles target) db.accounts
    then ok tt
    else http 409 "Cannot remove the last active super-admin"

pub require_not_last_super_admin : Account → UsersDb → Run (Unit {0})
require_not_last_super_admin target db =
    require_other (role_by_id target.role_id db.tables.roles) target db

-- the commit of a changed account with its audit entry
pub commit_account : User → String → Account → UsersDb → UsersDb
commit_account actor action a db = record db {
  accounts = put_account a db.accounts;
  tables = record_event (some actor.id) action "user" a.id db.tables;
}

-- `create_local_user`, at the hash of the password
pub create_local_user : User → String → String → ℕ → UsersDb → UsersDb
create_local_user actor username hash role_id db = record db {
  accounts =
      db.accounts
      ++ record {
        id = db.next_user_id;
        username = username;
        role_id = role_id;
        active = true;
        password_hash = some hash;
        must_change_password = true;
      }
        ∷ [];
  next_user_id = suc db.next_user_id;
  tables = record_event (some actor.id) "user.create" "user" db.next_user_id db.tables;
}

abbrev pub demote : Bool → Account → UsersDb → Run (Unit {0})
demote true target db = ok tt
demote false target db = require_not_last_super_admin target db

-- the part of `update_user` on the role
pub change_role : User → Option ℕ → Account → UsersDb → Run Account
unfolding require_not_last_super_admin
change_role actor none target db = ok target
change_role actor (some role_id) target db = elim (role_by_id role_id db.tables.roles) [
  | none ↦ http 404 "Role not found"
  | some role ↦ do
    require_role_within_authority actor role
    demote role.is_super_admin target db
    ok (record target { role_id = role_id })
]

-- The part on `active`; `target.role` is still the row that was loaded first.
pub check_active : Option Bool → Account → UsersDb → Run (Unit {0})
unfolding require_not_last_super_admin
check_active none target db = ok tt
check_active (some true) target db = ok tt
check_active (some false) target db = require_not_last_super_admin target db

pub update_user : User → ℕ → UserUpdate → UsersDb → Run UsersDb
unfolding get_manageable_user change_role check_active commit_account
update_user actor user_id payload db = do
  require_global_capability actor manage_users
  target ← get_manageable_user actor user_id db
  changed ← change_role actor payload.role_id target db
  check_active payload.active target db
  ok (
      commit_account actor "user.update"
        (record changed { active = or_else payload.active changed.active }) db)

pub deactivate_user : User → ℕ → UsersDb → Run UsersDb
unfolding get_manageable_user require_not_last_super_admin commit_account
deactivate_user actor user_id db = do
  require_global_capability actor manage_users
  target ← get_manageable_user actor user_id db
  require_not_last_super_admin target db
  ok (commit_account actor "user.deactivate" (record target { active = false }) db)

-- `hash_password` is argon2 at its drawn salt.
module _ (hash_password : String → String) where
  pub add_user : Bool → User → UserCreate → UsersDb → Run UsersDb
  unfolding create_local_user
  add_user true actor payload db = http 409 "Username already in use"
  add_user false actor payload db =
      ok (
        create_local_user actor payload.username (hash_password payload.password) payload.role_id
          db)

  pub create_user : User → UserCreate → UsersDb → Run UsersDb
  unfolding add_user
  create_user actor payload db = do
    require_global_capability actor manage_users
    elim (role_by_id payload.role_id db.tables.roles) [
      | none ↦ http 404 "Role not found"
      | some role ↦ do
        require_role_within_authority actor role
        add_user (any (λ (a : Account). a.username == payload.username) db.accounts) actor payload
            db
    ]

  -- `revoke_all_sessions(session, target.id)`; `sha256` is the hash of a token
  pub sign_out : (String → String) → ℕ → UsersDb → UsersDb
  sign_out sha256 user_id db =
      let sessions : AuthDb = record {
        users = [];
        sessions = db.sessions;
        next_id = db.next_session_id;
      } in
      record db { sessions = (revoke_all_sessions sha256 user_id none sessions).1.sessions }

  -- at a drawn temporary password
  pub reset_password : (String → String) → User → ℕ → String → UsersDb → Run UsersDb
  unfolding get_manageable_user commit_account sign_out
  reset_password sha256 actor user_id temporary_password db = do
    require_global_capability actor manage_users
    target ← get_manageable_user actor user_id db
    let reset : Account = record target {
      password_hash = some (hash_password temporary_password);
      must_change_password = true;
    } in
        ok (sign_out sha256 target.id (commit_account actor "user.reset_password" reset db))

pub data Request : Type 0 where
  create : UserCreate → Request
  update : ℕ → UserUpdate → Request
  reset : ℕ → String → Request
  deactivate : ℕ → Request

-- a session that is not committed changes nothing
abbrev pub or_rollback : UsersDb → Run UsersDb → UsersDb
or_rollback db (ok db') = db'
or_rollback db (http code detail) = db
or_rollback db crash = db
or_rollback db out_of_fuel = db

module _ (hash_password sha256 : String → String) where
  pub handle : User → Request → UsersDb → Run UsersDb
  unfolding create_user update_user reset_password deactivate_user
  handle actor (create payload) db = create_user hash_password actor payload db
  handle actor (update user_id payload) db = update_user actor user_id payload db
  handle actor (reset user_id temporary) db =
      reset_password hash_password sha256 actor user_id temporary db
  handle actor (deactivate user_id) db = deactivate_user actor user_id db

  -- requests, each with the user that makes it
  pub serve : List (User × Request) → UsersDb → UsersDb
  unfolding handle
  serve [] db = db
  serve (r ∷ rest) db = serve rest (or_rollback db (handle r.0 r.1 db))
