-- ===== src/UsersApi/Protected.antt =====
-- backend/app/api/users.py: accounts beyond the authority of the admin who makes a request.
use mathlib.Core.Bool.{false≢true}
use perchtail.Prelude.{
  ℕ, ◌≡◌, refl, sym, subst, ◌∙◌, String, Bool, true, false, Bool-cases, Option-cases, inl, inr,
  some, some_inj, any, arith, ◌==◌, ==_iff, nat_eq, string_eq,
}
use perchtail.Prelude.Table.{get-replace, get-append}
use perchtail.Model.{Role, User, manage_users}
use perchtail.Run.{ok, ok_inj, >>=-eq-ok}
use perchtail.Rbac.{require_global_capability, require_role_within_authority, role_within_authority}
use perchtail.RolesApi.{role_by_id, or_else}
use perchtail.UsersApi.{
  Account, UsersDb, UserCreate, UserUpdate, Request, create, update, reset, deactivate,
  account_by_id, get_manageable_user, change_role, check_active, require_not_last_super_admin,
  commit_account, create_local_user, add_user, create_user, update_user, deactivate_user, sign_out,
  reset_password, handle,
}
use perchtail.UsersApi.Guards.{change_role-cases, get_manageable_user-found}

-- The row of an account whose role is beyond the actor's authority.
abbrev pub IsBeyond : User → Account → Role → UsersDb → Type 0
IsBeyond actor a role db =
    (account_by_id a.id db.accounts ≡ some a)
    × (role_by_id a.role_id db.tables.roles ≡ some role)
    × (role_within_authority actor role ≡ false)

within-authority :
    (actor : User) (role : Role) (u : Unit {0})
    → require_role_within_authority actor role ≡ ok u
    → role_within_authority actor role ≡ true
unfolding require_role_within_authority
within-authority actor role u e = elim (Bool-cases (role_within_authority actor role)) [
  | inl w ↦ w
  | inr w ↦ ground (arith, rw (require_role_within_authority, w) at e)
]

-- Whom the actor may manage has a role within the actor's authority.
manageable-within :
    (actor : User) (user_id : ℕ) (a : Account) (role : Role) (db : UsersDb)
    → get_manageable_user actor user_id db ≡ ok a
    → role_by_id a.role_id db.tables.roles ≡ some role
    → role_within_authority actor role ≡ true
unfolding get_manageable_user
manageable-within actor user_id a role db e g =
    elim (Option-cases (account_by_id user_id db.accounts)) [
      | inl f ↦ ground (arith, rw (get_manageable_user, f) at e)
      | inr (t, f) ↦
          let e1 = rw (get_manageable_user, f) at e in
          elim (Option-cases (role_by_id t.role_id db.tables.roles)) [
            | inl r ↦ ground (arith, rw r at e1)
            | inr (found, r) ↦
                let (u, w, e2) =
                  >>=-eq-ok (require_role_within_authority actor found) _ (rw r at e1) in
                let same : found ≡ role = some_inj (
                  sym (
                    subst (λ (x : Account). role_by_id x.role_id db.tables.roles ≡ some found)
                      (ok_inj e2) r)
                  ∙ g) in
                subst (λ x. role_within_authority actor x ≡ true) same
                  (within-authority actor found u w)
          ]
    ]

module _ (actor : User) (a : Account) (role : Role) (db : UsersDb)
    (beyond : IsBeyond actor a role db) where
  -- The account that the actor may manage is another one.
  manageable-apart :
      (user_id : ℕ) (target : Account)
      → get_manageable_user actor user_id db ≡ ok target
      → (target.id == a.id) ≡ false
  manageable-apart user_id target e = elim (Bool-cases (target.id == a.id)) [
    | inr n ↦ n
    | inl s ↦
        let found = get_manageable_user-found db actor user_id target e in
        let same : target ≡ a = some_inj (
          sym (
            subst (λ n. account_by_id n db.accounts ≡ some target) ((==_iff target.id a.id).0 s)
              found)
          ∙ beyond.0) in
        absurd (
          false≢true (
            sym beyond.2
            ∙ manageable-within actor user_id a role db
                (subst (λ t. get_manageable_user actor user_id db ≡ ok t) same e) beyond.1))
  ]

  commit-kept :
      (action : String) (y : Account)
      → (y.id == a.id) ≡ false
      → account_by_id a.id (commit_account actor action y db).accounts ≡ some a
  unfolding commit_account
  commit-kept action y n = get-replace (λ (x : Account). x.id) a.id y db.accounts ∙ rw n beyond.0

  update_user-kept :
      (user_id : ℕ) (payload : UserUpdate) (db' : UsersDb)
      → update_user actor user_id payload db ≡ ok db'
      → account_by_id a.id db'.accounts ≡ some a
  unfolding update_user
  update_user-kept user_id payload db' e =
      let (_, _, e1) = >>=-eq-ok (require_global_capability actor manage_users) _ e in
      let (target, found, e2) = >>=-eq-ok (get_manageable_user actor user_id db) _ e1 in
      let (changed, change, e3) = >>=-eq-ok (change_role actor payload.role_id target db) _ e2 in
      let (_, _, e4) = >>=-eq-ok (check_active payload.active target db) _ e3 in
      let same = (change_role-cases db actor payload.role_id target changed change).0 in
      subst (λ (d : UsersDb). account_by_id a.id d.accounts ≡ some a) (ok_inj e4)
        (commit-kept "user.update"
          (record changed { active = or_else payload.active changed.active })
          (subst (λ n. (n == a.id) ≡ false) (sym same) (manageable-apart user_id target found)))

  deactivate_user-kept :
      (user_id : ℕ) (db' : UsersDb)
      → deactivate_user actor user_id db ≡ ok db'
      → account_by_id a.id db'.accounts ≡ some a
  unfolding deactivate_user
  deactivate_user-kept user_id db' e =
      let (_, _, e1) = >>=-eq-ok (require_global_capability actor manage_users) _ e in
      let (target, found, e2) = >>=-eq-ok (get_manageable_user actor user_id db) _ e1 in
      let (_, _, e3) = >>=-eq-ok (require_not_last_super_admin target db) _ e2 in
      subst (λ (d : UsersDb). account_by_id a.id d.accounts ≡ some a) (ok_inj e3)
        (commit-kept "user.deactivate" (record target { active = false })
          (manageable-apart user_id target found))

  module _ (hash_password : String → String) where
    reset_password-kept :
        (sha256 : String → String) (user_id : ℕ) (temporary : String) (db' : UsersDb)
        → reset_password hash_password sha256 actor user_id temporary db ≡ ok db'
        → account_by_id a.id db'.accounts ≡ some a
    unfolding reset_password sign_out
    reset_password-kept sha256 user_id temporary db' e =
        let (_, _, e1) = >>=-eq-ok (require_global_capability actor manage_users) _ e in
        let (target, found, e2) = >>=-eq-ok (get_manageable_user actor user_id db) _ e1 in
        let reset' : Account = record target {
          password_hash = some (hash_password temporary);
          must_change_password = true;
        } in
        subst (λ (d : UsersDb). account_by_id a.id d.accounts ≡ some a) (ok_inj e2)
          (commit-kept "user.reset_password" reset' (manageable-apart user_id target found))

    add_user-kept :
        (b : Bool) (payload : UserCreate) (db' : UsersDb)
        → add_user hash_password b actor payload db ≡ ok db'
        → account_by_id a.id db'.accounts ≡ some a
    unfolding add_user create_local_user
    add_user-kept true payload db' e = ground (arith, e)
    add_user-kept false payload db' e =
        subst (λ (d : UsersDb). account_by_id a.id d.accounts ≡ some a) (ok_inj e)
          (get-append (λ (x : Account). x.id) a.id db.accounts _ ∙ rw beyond.0 refl)

    create_user-kept :
        (payload : UserCreate) (db' : UsersDb)
        → create_user hash_password actor payload db ≡ ok db'
        → account_by_id a.id db'.accounts ≡ some a
    unfolding create_user
    create_user-kept payload db' e =
        let (_, _, e1) = >>=-eq-ok (require_global_capability actor manage_users) _ e in
        elim (Option-cases (role_by_id payload.role_id db.tables.roles)) [
          | inl r ↦ ground (arith, rw r at e1)
          | inr (found, r) ↦
              let (_, _, e2) =
                >>=-eq-ok (require_role_within_authority actor found) _ (rw r at e1) in
              add_user-kept (any (λ (x : Account). x.username == payload.username) db.accounts)
                payload db' e2
        ]

-- A request that succeeds leaves the row of every account as it was whose role, present in the table
-- of roles, is beyond the authority of the user who makes it.
pub handle-kept :
    (hash_password sha256 : String → String) (actor : User) (a : Account) (role : Role)
    (r : Request) (db db' : UsersDb)
    → IsBeyond actor a role db
    → handle hash_password sha256 actor r db ≡ ok db'
    → account_by_id a.id db'.accounts ≡ some a
unfolding handle
handle-kept hash_password sha256 actor a role (create payload) db db' b e =
    create_user-kept actor a role db b hash_password payload db' e
handle-kept hash_password sha256 actor a role (update user_id payload) db db' b e =
    update_user-kept actor a role db b user_id payload db' e
handle-kept hash_password sha256 actor a role (reset user_id temporary) db db' b e =
    reset_password-kept actor a role db b hash_password sha256 user_id temporary db' e
handle-kept hash_password sha256 actor a role (deactivate user_id) db db' b e =
    deactivate_user-kept actor a role db b user_id db' e
