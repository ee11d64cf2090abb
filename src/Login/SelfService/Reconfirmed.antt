-- ===== src/Login/SelfService/Reconfirmed.antt =====
-- backend/app/api/auth.py: users change their own account with their password only.
use perchtail.Prelude.{
  ℕ, ◌≡◌, refl, Bool, true, false, Option, none, some, String, List, arith, nat_eq, string_eq,
  option_eq,
}
use perchtail.Model.{Text}
use perchtail.Run.{Run, ok, http, crash, out_of_fuel}
use perchtail.LoginThrottle.{seconds_until_unlocked}
use perchtail.Login.{LoginAccount, State, Env}
use perchtail.Login.SelfService.{
  confirmed, is_password, reconfirm_by, reconfirm_at, require_password_reconfirmation,
  change_password_endpoint, mfa_enroll, mfa_disable, mfa_regenerate_backup_codes, Change,
  set_password, enroll, disable, regenerate, change,
}

module _ (env : Env) (a : LoginAccount) where
  -- The user was not locked out and gave the account's password.
  abbrev pub IsReconfirmed : String → State → Type 0
  IsReconfirmed given st =
      ((seconds_until_unlocked env.settings env.monotonic a.user.username st.throttle).1 ≡ none)
      × ((h : String) × (a.password_hash ≡ some h) × (env.verify h given ≡ true))

  is_password-hash :
      (o : Option String) (given : String)
      → is_password env o given ≡ true
      → (h : String) × (o ≡ some h) × (env.verify h given ≡ true)
  is_password-hash none given e = ground (arith, e)
  is_password-hash (some h) given e = (h, refl, e)

  reconfirm_by-true :
      (b : Bool) (st : State) (u : Unit {0}) → (reconfirm_by env b a st).0 ≡ ok u → b ≡ true
  reconfirm_by-true true st u e = refl
  reconfirm_by-true false st u e = ground (arith, e)

  reconfirm_at-open :
      (o : Option ℕ) (given : String) (st : State) (u : Unit {0})
      → (reconfirm_at env o a given st).0 ≡ ok u
      → (o ≡ none) × ((h : String) × (a.password_hash ≡ some h) × (env.verify h given ≡ true))
  reconfirm_at-open (some remaining) given st u e = ground (arith, e)
  reconfirm_at-open none given st u e = (
    refl,
    is_password-hash a.password_hash given
        (reconfirm_by-true (is_password env a.password_hash given) st u e),
  )

  confirmed-ok :
      (r : Run (Unit {0}) × State) (handler : State → Run (List Text) × State) (x : List Text)
      → (confirmed r handler).0 ≡ ok x
      → (u : Unit {0}) × (r.0 ≡ ok u)
  confirmed-ok (ok u, st) handler x e = (u, refl)
  confirmed-ok (http code detail, st) handler x e = ground (arith, e)
  confirmed-ok (crash, st) handler x e = ground (arith, e)
  confirmed-ok (out_of_fuel, st) handler x e = ground (arith, e)

  confirmed-IsReconfirmed :
      (given : String) (st : State) (handler : State → Run (List Text) × State) (x : List Text)
      → (confirmed (require_password_reconfirmation env a given st) handler).0 ≡ ok x
      → IsReconfirmed given st
  unfolding require_password_reconfirmation
  confirmed-IsReconfirmed given st handler x e =
      let (u, passed) = confirmed-ok (require_password_reconfirmation env a given st) handler x e in
      reconfirm_at-open
        (seconds_until_unlocked env.settings env.monotonic a.user.username st.throttle).1 given
        (record st {
          throttle =
              (seconds_until_unlocked env.settings env.monotonic a.user.username st.throttle).0;
        })
        u passed

  -- Changing the password, enrolling, turning the second factor off and drawing new backup codes succeed
  -- only when the user is not locked out and gives the account's password.
  pub change-IsReconfirmed :
      (c : Change) (given : String) (st : State) (x : List Text)
      → (change env c a given st).0 ≡ ok x
      → IsReconfirmed given st
  unfolding change change_password_endpoint mfa_enroll mfa_disable mfa_regenerate_backup_codes
  change-IsReconfirmed (set_password new token) given st x e =
      confirmed-IsReconfirmed given st _ x e
  change-IsReconfirmed (enroll secret) given st x e = confirmed-IsReconfirmed given st _ x e
  change-IsReconfirmed disable given st x e = confirmed-IsReconfirmed given st _ x e
  change-IsReconfirmed (regenerate draws) given st x e = confirmed-IsReconfirmed given st _ x e
