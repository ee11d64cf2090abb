-- ===== src/UsersApi/Guards.antt =====
-- backend/app/api/users.py: what the guards of the handlers make sure of.
use mathlib.Core.Bool.{false≢true}
use perchtail.Prelude.{
  ℕ, ◌<◌, ◌≡◌, refl, sym, ap, subst, ◌∙◌, String, Bool, true, false, ◌&&◌, not, Bool-cases,
  Option-cases, inl, inr, Option, none, some, some_inj, List, All, any, arith, ◌==◌, ==_iff,
  ==_refl, nat_eq, string_eq, and_true, ◌⊎◌,
}
use perchtail.Prelude.Table.{get-key, get-replace}
use perchtail.Model.{Role, User}
use perchtail.Run.{ok, ok_inj, >>=-eq-ok}
use perchtail.Rbac.{require_role_within_authority, record_event}
use perchtail.RolesApi.{role_by_id}
use perchtail.UsersApi.{
  Account, UsersDb, account_by_id, put_account, is_super_role, is_super_admin, is_other,
  require_other, require_not_last_super_admin, get_manageable_user, change_role, demote,
  commit_account,
}
use perchtail.UsersApi.Table.{HasIds, IsOld, IsAdmin, HasAdmin, replace-IsOld, get-IsOld}
use perchtail.Prelude.Keyed.{replace-IsKeyed, any-found}

module _ (roles : List Role) (accounts : List Account) where
  -- A super-admin in another row stays.
  other-HasAdmin :
      (y a : Account)
      → IsAdmin roles accounts a
      → (y.id == a.id) ≡ false
      → HasAdmin roles (put_account y accounts)
  other-HasAdmin y a (g, h, s) n =
      (a, (get-replace (λ (x : Account). x.id) a.id y accounts ∙ rw n g, h, s))

  -- The row itself, when it is an active super-admin after the change.
  self-HasAdmin :
      (y target : Account)
      → account_by_id y.id accounts ≡ some target
      → y.active ≡ true
      → is_super_admin roles y ≡ true
      → HasAdmin roles (put_account y accounts)
  self-HasAdmin y target g act sup = (
    y,
    (get-replace (λ (x : Account). x.id) y.id y accounts ∙ rw (==_refl y.id) (rw g refl), act, sup),
  )

-- The tables are in order and have an active super-admin.
abbrev pub IsSafe : UsersDb → Type 0
IsSafe db =
    HasIds db.accounts
    × All (IsOld db.next_user_id) db.accounts
    × HasAdmin db.tables.roles db.accounts

module _ (db : UsersDb) where
  require_other-found :
      (role : Option Role) (target y : Account)
      → HasIds db.accounts
      → require_other role target db ≡ ok tt
      → role_by_id target.role_id db.tables.roles ≡ role
      → account_by_id target.id db.accounts ≡ some target
      → y.id ≡ target.id
      → HasAdmin db.tables.roles db.accounts
      → HasAdmin db.tables.roles (put_account y db.accounts)
  require_other-found none target y k e r g same h = ground (arith, e)
  require_other-found (some role) target y k e r g same (w, (f, act, sup)) =
      elim (Bool-cases role.is_super_admin) [
        | inl s ↦ elim (Bool-cases (any (is_other db.tables.roles target) db.accounts)) [
          | inl o ↦
              let (a, found, test) =
                any-found (λ (x : Account). x.id) (is_other db.tables.roles target) db.accounts k
                  o in
              let (both, apart) =
                and_true (a.active && is_super_admin db.tables.roles a) (not (a.id == target.id))
                  test in
              let (active, sup') = and_true a.active (is_super_admin db.tables.roles a) both in
              let admin : IsAdmin db.tables.roles db.accounts a = (found, active, sup') in
              other-HasAdmin db.tables.roles db.accounts y a admin
                (ground (arith, apart, same, ==_iff a.id target.id, ==_iff y.id a.id))
          | inr o ↦ ground (arith, rw o at (rw s at e))
        ]
        | inr s ↦ elim (Bool-cases (y.id == w.id)) [
          | inl i ↦
              let w_target : w ≡ target = some_inj (
                sym f
                ∙ subst (λ n. account_by_id n db.accounts ≡ some target)
                    (sym same ∙ (==_iff y.id w.id).0 i) g) in
              absurd (
                false≢true (
                  sym s
                  ∙ sym (ap is_super_role r)
                  ∙ subst (λ a. is_super_admin db.tables.roles a ≡ true) w_target sup))
          | inr i ↦ other-HasAdmin db.tables.roles db.accounts y w (f, act, sup) i
        ]
      ]

  pub require_not_last-HasAdmin :
      (target y : Account)
      → HasIds db.accounts
      → require_not_last_super_admin target db ≡ ok tt
      → account_by_id target.id db.accounts ≡ some target
      → y.id ≡ target.id
      → HasAdmin db.tables.roles db.accounts
      → HasAdmin db.tables.roles (put_account y db.accounts)
  unfolding require_not_last_super_admin
  require_not_last-HasAdmin target y k e g same h =
      require_other-found (role_by_id target.role_id db.tables.roles) target y k e refl g same h

  pub commit_account-IsSafe :
      (actor : User) (action : String) (y target : Account)
      → account_by_id y.id db.accounts ≡ some target
      → IsSafe db
      → HasAdmin db.tables.roles (put_account y db.accounts)
      → IsSafe (commit_account actor action y db)
  unfolding commit_account record_event
  commit_account-IsSafe actor action y target g (k, o, _) h = (
    replace-IsKeyed (λ (x : Account). x.id) y db.accounts k,
    replace-IsOld db.next_user_id y db.accounts
        (subst (λ n. n < db.next_user_id)
          (get-key (λ (x : Account). x.id) y.id db.accounts target g)
          (get-IsOld db.next_user_id y.id db.accounts target o g))
        o,
    h,
  )

  -- A changed row that is an active super-admin where the old one was.
  pub stay-HasAdmin :
      (target y : Account)
      → account_by_id target.id db.accounts ≡ some target
      → y.id ≡ target.id
      → (target.active ≡ true → y.active ≡ true)
      → (is_super_admin db.tables.roles target ≡ true → is_super_admin db.tables.roles y ≡ true)
      → HasAdmin db.tables.roles db.accounts
      → HasAdmin db.tables.roles (put_account y db.accounts)
  stay-HasAdmin target y g same act sup (w, (f, a, s)) = elim (Bool-cases (y.id == w.id)) [
    | inl i ↦
        let found = subst (λ n. account_by_id n db.accounts ≡ some target) (sym same) g in
        let w_target : w ≡ target = some_inj (
          sym f
          ∙ subst (λ n. account_by_id n db.accounts ≡ some target) ((==_iff y.id w.id).0 i)
              found) in
        self-HasAdmin db.tables.roles db.accounts y target found
          (act (subst (λ (x : Account). x.active ≡ true) w_target a))
          (sup (subst (λ x. is_super_admin db.tables.roles x ≡ true) w_target s))
    | inr i ↦ other-HasAdmin db.tables.roles db.accounts y w (f, a, s) i
  ]

  -- A role that is given is a super-admin's, or the target is not the last super-admin.
  demote-cases :
      (b : Bool) (target : Account)
      → demote b target db ≡ ok tt
      → (b ≡ true) ⊎ (require_not_last_super_admin target db ≡ ok tt)
  demote-cases true target e = inl refl
  demote-cases false target e = inr e

  pub unit-eq : (u : Unit {0}) → u ≡ tt
  unit-eq tt = refl

  -- What a change of role leaves: the id, the activity, and a super-admin's role unless another is there.
  abbrev pub IsChange : Account → Account → Type 0
  IsChange target c =
      (c.id ≡ target.id)
      × (c.active ≡ target.active)
      × ((require_not_last_super_admin target db ≡ ok tt)
          ⊎ (is_super_admin db.tables.roles target ≡ true
              → is_super_admin db.tables.roles c ≡ true))

  pub change_role-cases :
      (actor : User) (role_id : Option ℕ) (target changed : Account)
      → change_role actor role_id target db ≡ ok changed
      → IsChange target changed
  unfolding change_role
  change_role-cases actor none target changed e =
      subst (IsChange target) (ok_inj e) (refl, refl, inr (λ h. h))
  change_role-cases actor (some role_id) target changed e =
      elim (Option-cases (role_by_id role_id db.tables.roles)) [
        | inl g ↦ ground (arith, rw (change_role, g) at e)
        | inr (role, g) ↦
            let (u, _, e1) =
              >>=-eq-ok (require_role_within_authority actor role) _ (rw (change_role, g) at e) in
            let (v, d, e2) = >>=-eq-ok (demote role.is_super_admin target db) _ e1 in
            subst (IsChange target) (ok_inj e2) (
              refl,
              refl,
              kept role_id role (demote-cases role.is_super_admin target (d ∙ ap ok (unit-eq v))) g,
            )
      ]
    where
      kept :
          (role_id : ℕ) (role : Role)
          → (role.is_super_admin ≡ true) ⊎ (require_not_last_super_admin target db ≡ ok tt)
          → role_by_id role_id db.tables.roles ≡ some role
          → (require_not_last_super_admin target db ≡ ok tt)
            ⊎ (is_super_admin db.tables.roles target ≡ true
                → is_super_admin db.tables.roles (record target { role_id = role_id }) ≡ true)
      kept role_id role (inl s) g = inr (λ _. ap is_super_role g ∙ s)
      kept role_id role (inr s) g = inl s

  pub get_manageable_user-found :
      (actor : User) (user_id : ℕ) (target : Account)
      → get_manageable_user actor user_id db ≡ ok target
      → account_by_id target.id db.accounts ≡ some target
  unfolding get_manageable_user
  get_manageable_user-found actor user_id target e =
      elim (Option-cases (account_by_id user_id db.accounts)) [
        | inl g ↦ ground (arith, rw (get_manageable_user, g) at e)
        | inr (t, g) ↦
            let e1 = rw (get_manageable_user, g) at e in
            elim (Option-cases (role_by_id t.role_id db.tables.roles)) [
              | inl r ↦ ground (arith, rw r at e1)
              | inr (role, r) ↦
                  let (_, _, e2) =
                    >>=-eq-ok (require_role_within_authority actor role) _ (rw r at e1) in
                  subst (λ (x : Account). account_by_id x.id db.accounts ≡ some x) (ok_inj e2)
                    (subst (λ n. account_by_id n db.accounts ≡ some t)
                      (sym (get-key (λ (x : Account). x.id) user_id db.accounts t g)) g)
            ]
      ]
