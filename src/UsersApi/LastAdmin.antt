-- ===== src/UsersApi/LastAdmin.antt =====
-- backend/app/api/users.py: an active super-admin always remains.
use perchtail.Prelude.{
  ℕ, ◌≡◌, refl, sym, ap, subst, ◌∙◌, String, Bool, true, false, Option-cases, inl, inr, Option,
  none, some, any, arith, ◌==◌, nat_eq, string_eq,
}
use perchtail.Prelude.Table.{get-append}
use perchtail.Model.{User, manage_users}
use perchtail.Run.{ok, ok_inj, >>=-eq-ok}
use perchtail.Rbac.{require_global_capability, require_role_within_authority, record_event}
use perchtail.RolesApi.{role_by_id, or_else}
use perchtail.UsersApi.{
  Account, UsersDb, UserCreate, UserUpdate, account_by_id, put_account,
  require_not_last_super_admin, get_manageable_user, change_role, check_active, update_user,
  deactivate_user, create_local_user, create_user, add_user, sign_out, reset_password,
}
use perchtail.UsersApi.Table.{HasIds, HasAdmin, unknown-new, append-IsOld}
use perchtail.UsersApi.Guards.{
  IsSafe, IsChange, require_not_last-HasAdmin, commit_account-IsSafe, stay-HasAdmin, unit-eq,
  change_role-cases, get_manageable_user-found,
}
use perchtail.Prelude.Keyed.{append-IsKeyed}

module _ (db : UsersDb) (actor : User) where
  -- an update below its guards
  updated-HasAdmin :
      (active : Option Bool) (target changed : Account)
      → HasIds db.accounts
      → account_by_id target.id db.accounts ≡ some target
      → IsChange db target changed
      → check_active active target db ≡ ok tt
      → HasAdmin db.tables.roles db.accounts
      → HasAdmin db.tables.roles
          (put_account (record changed { active = or_else active changed.active }) db.accounts)
  unfolding check_active
  updated-HasAdmin (some false) target changed k g (same, act, sup) e h =
      require_not_last-HasAdmin db target (record changed { active = false }) k e g same h
  updated-HasAdmin active target changed k g (same, act, inl e') e h =
      require_not_last-HasAdmin db target
        (record changed { active = or_else active changed.active }) k e' g same h
  updated-HasAdmin (some true) target changed k g (same, act, inr sup) e h =
      stay-HasAdmin db target (record changed { active = true }) g same (λ _. refl) sup h
  updated-HasAdmin none target changed k g (same, act, inr sup) e h =
      stay-HasAdmin db target changed g same (λ a. act ∙ a) sup h

  pub update_user-IsSafe :
      (user_id : ℕ) (payload : UserUpdate) (db' : UsersDb)
      → update_user actor user_id payload db ≡ ok db'
      → IsSafe db
      → IsSafe db'
  unfolding update_user
  update_user-IsSafe user_id payload db' e (k, o, h) =
      let (_, _, e1) = >>=-eq-ok (require_global_capability actor manage_users) _ e in
      let (target, found, e2) = >>=-eq-ok (get_manageable_user actor user_id db) _ e1 in
      let (changed, change, e3) = >>=-eq-ok (change_role actor payload.role_id target db) _ e2 in
      let (u, checked, e4) = >>=-eq-ok (check_active payload.active target db) _ e3 in
      let g = get_manageable_user-found db actor user_id target found in
      let c = change_role-cases db actor payload.role_id target changed change in
      subst IsSafe (ok_inj e4) (
        commit_account-IsSafe db actor "user.update"
          (record changed { active = or_else payload.active changed.active }) target
          (subst (λ n. account_by_id n db.accounts ≡ some target) (sym c.0) g) (k, o, h)
          (updated-HasAdmin payload.active target changed k g c (checked ∙ ap ok (unit-eq db u)) h))

  pub deactivate_user-IsSafe :
      (user_id : ℕ) (db' : UsersDb)
      → deactivate_user actor user_id db ≡ ok db'
      → IsSafe db
      → IsSafe db'
  unfolding deactivate_user
  deactivate_user-IsSafe user_id db' e (k, o, h) =
      let (_, _, e1) = >>=-eq-ok (require_global_capability actor manage_users) _ e in
      let (target, found, e2) = >>=-eq-ok (get_manageable_user actor user_id db) _ e1 in
      let (u, checked, e3) = >>=-eq-ok (require_not_last_super_admin target db) _ e2 in
      let g = get_manageable_user-found db actor user_id target found in
      subst IsSafe (ok_inj e3) (
        commit_account-IsSafe db actor "user.deactivate" (record target { active = false }) target g
          (k, o, h)
          (require_not_last-HasAdmin db target (record target { active = false }) k
            (checked ∙ ap ok (unit-eq db u)) g refl h))

module _ (db : UsersDb) (actor : User) (hash_password : String → String) where
  -- A super-admin is still found after another account was added.
  create_local_user-IsSafe :
      (username hash : String) (role_id : ℕ)
      → IsSafe db
      → IsSafe (create_local_user actor username hash role_id db)
  unfolding create_local_user record_event
  create_local_user-IsSafe username hash role_id (k, o, (w, (g, act, sup))) =
      let fresh = unknown-new db.next_user_id db.accounts o in
      let new : Account = record {
        id = db.next_user_id;
        username = username;
        role_id = role_id;
        active = true;
        password_hash = some hash;
        must_change_password = true;
      } in
      (
        append-IsKeyed (λ (x : Account). x.id) new db.accounts fresh k,
        append-IsOld new db.accounts o,
        (w, (get-append (λ (x : Account). x.id) w.id db.accounts new ∙ rw g refl, act, sup)),
      )

  pub create_user-IsSafe :
      (payload : UserCreate) (db' : UsersDb)
      → create_user hash_password actor payload db ≡ ok db'
      → IsSafe db
      → IsSafe db'
  unfolding create_user add_user
  create_user-IsSafe payload db' e h =
      let (_, _, e1) = >>=-eq-ok (require_global_capability actor manage_users) _ e in
      elim (Option-cases (role_by_id payload.role_id db.tables.roles)) [
        | inl r ↦ ground (arith, rw r at e1)
        | inr (role, r) ↦
            let (_, _, e2) = >>=-eq-ok (require_role_within_authority actor role) _ (rw r at e1) in
            added (any (λ (a : Account). a.username == payload.username) db.accounts) e2
      ]
    where
      added : (b : Bool) → add_user hash_password b actor payload db ≡ ok db' → IsSafe db'
      added true e = ground (arith, e)
      added false e = subst IsSafe (ok_inj e) (
          create_local_user-IsSafe payload.username (hash_password payload.password) payload.role_id
            h)

  pub reset_password-IsSafe :
      (sha256 : String → String) (user_id : ℕ) (temporary : String) (db' : UsersDb)
      → reset_password hash_password sha256 actor user_id temporary db ≡ ok db'
      → IsSafe db
      → IsSafe db'
  unfolding reset_password sign_out
  reset_password-IsSafe sha256 user_id temporary db' e (k, o, h) =
      let (_, _, e1) = >>=-eq-ok (require_global_capability actor manage_users) _ e in
      let (target, found, e2) = >>=-eq-ok (get_manageable_user actor user_id db) _ e1 in
      let g = get_manageable_user-found db actor user_id target found in
      let reset : Account = record target {
        password_hash = some (hash_password temporary);
        must_change_password = true;
      } in
      subst IsSafe (ok_inj e2) (
        commit_account-IsSafe db actor "user.reset_password" reset target g (k, o, h)
          (stay-HasAdmin db target reset g refl (λ a. a) (λ s. s) h))
