-- ===== src/Login/SelfService.antt =====
-- backend/app/api/auth.py, what users change on their own accounts: the password and the second factor.
-- `a` is the row of the user who is signed in.
pub mod Reconfirmed
use perchtail.Prelude.{
  ℕ, Bool, true, false, Option, none, some, String, List, [], ◌∷◌, ◌++◌, if◌then◌else◌,
}
use perchtail.Model.{Text, AuditEvent}
use perchtail.Run.{Run, ok, http, crash, out_of_fuel}
use perchtail.LoginThrottle.{seconds_until_unlocked, record_failure, record_success}
use perchtail.Mfa.{
  MfaDb, Draw, start_enrollment, confirm_enrollment, disable_mfa, regenerate_backup_codes,
}
use perchtail.Sessions.{AuthDb, delete_session, revoke_all_sessions}
use perchtail.Login.{LoginAccount, State, Env, put_account}

abbrev pub sessions_of : State → AuthDb
sessions_of st = record { users = []; sessions = st.sessions; next_id = st.next_session_id }

abbrev pub audit_own : String → LoginAccount → State → State
audit_own action a st = record st {
  audit =
      st.audit
      ++ record {
        user_id = some a.user.id;
        action = action;
        target_type = "user";
        target_id = a.user.id;
      }
        ∷ [];
}

abbrev pub own_mfa : LoginAccount → State → MfaDb
own_mfa a st = record { user = a.mfa; codes = st.codes; next_code_id = st.next_code_id }

abbrev pub with_mfa : LoginAccount → MfaDb → State → State
with_mfa a db st =
    put_account (record a { mfa = db.user })
      (record st { codes = db.codes; next_code_id = db.next_code_id })

-- a handler after the reconfirmation of the password
abbrev pub confirmed :
    Run (Unit {0}) × State → (State → Run (List Text) × State) → Run (List Text) × State
confirmed (ok u, st) handler = handler st
confirmed (http code detail, st) handler = (http code detail, st)
confirmed (crash, st) handler = (crash, st)
confirmed (out_of_fuel, st) handler = (out_of_fuel, st)

-- the end of the confirmation and of the regeneration, whose `ValueError` is a 400
abbrev pub with_codes :
    String → String → LoginAccount → Option (List Text × MfaDb) → State → Run (List Text) × State
with_codes action detail a none st = (http 400 detail, st)
with_codes action detail a (some r) st = (ok r.0, audit_own action a (with_mfa a r.1 st))

abbrev pub after_confirm :
    LoginAccount → Run (Option (List Text × MfaDb)) → State → Run (List Text) × State
after_confirm a (ok o) st = with_codes "user.mfa_enable" "Invalid authentication code" a o st
after_confirm a (http code detail) st = (http code detail, st)
after_confirm a crash st = (crash, st)
after_confirm a out_of_fuel st = (out_of_fuel, st)

-- the changes that ask for the password again
pub data Change : Type 0 where
  set_password : String → Option String → Change
  enroll : Text → Change
  disable : Change
  regenerate : List Draw → Change

module _ (env : Env) where
  -- `verify_password`
  abbrev pub is_password : Option String → String → Bool
  is_password none password = false
  is_password (some h) password = env.verify h password

  abbrev pub reconfirm_by : Bool → LoginAccount → State → Run (Unit {0}) × State
  reconfirm_by true a st =
      (ok tt, record st { throttle = record_success a.user.username st.throttle })
  reconfirm_by false a st = (
    http 401 "Current password is incorrect",
    record st { throttle = record_failure env.settings env.monotonic a.user.username st.throttle },
  )

  abbrev pub reconfirm_at : Option ℕ → LoginAccount → String → State → Run (Unit {0}) × State
  reconfirm_at (some remaining) a password st =
      (http 429 "Too many failed attempts. Try again later.", st)
  reconfirm_at none a password st = reconfirm_by (is_password a.password_hash password) a st

  -- `_require_password_reconfirmation`
  unfoldable pub require_password_reconfirmation :
      LoginAccount → String → State → Run (Unit {0}) × State
  require_password_reconfirmation a password st =
      let checked = seconds_until_unlocked env.settings env.monotonic a.user.username st.throttle in
      reconfirm_at checked.1 a password (record st { throttle = checked.0 })

  -- `change_password` of the provider
  unfoldable pub change_password : LoginAccount → String → State → State
  change_password a new_password st = audit_own "user.change_password" a (
      put_account
        (record a { password_hash = some (env.hash new_password); must_change_password = false })
        st)

  -- `revoke_all_sessions` but for the session of the request
  abbrev pub revoke_others : LoginAccount → Option String → State → State
  revoke_others a token st = record st {
    sessions = (revoke_all_sessions env.sha256 a.user.id token (sessions_of st)).1.sessions;
  }

  unfoldable pub change_password_endpoint :
      LoginAccount → String → String → Option String → State → Run (List Text) × State
  unfolding require_password_reconfirmation change_password
  change_password_endpoint a current_password new_password token st =
      confirmed (require_password_reconfirmation a current_password st)
        (λ st'. (ok [], change_password a new_password (revoke_others a token st')))

  abbrev pub enroll_unless : Bool → LoginAccount → Text → State → Run (List Text) × State
  enroll_unless true a secret st =
      (http 400 "MFA is already enabled — disable it first to re-enroll", st)
  enroll_unless false a secret st =
      (ok (secret ∷ []), with_mfa a (start_enrollment env.mfa secret (own_mfa a st)) st)

  -- at a drawn secret
  unfoldable pub mfa_enroll : LoginAccount → String → Text → State → Run (List Text) × State
  unfolding require_password_reconfirmation
  mfa_enroll a password secret st =
      confirmed (require_password_reconfirmation a password st)
        (λ st'. enroll_unless a.mfa.mfa_enabled a secret st')

  pub mfa_confirm : LoginAccount → Text → List Draw → State → Run (List Text) × State
  mfa_confirm a code draws st =
      after_confirm a (confirm_enrollment env.mfa env.now code draws (own_mfa a st)) st

  unfoldable pub mfa_disable : LoginAccount → String → State → Run (List Text) × State
  unfolding require_password_reconfirmation
  mfa_disable a password st = confirmed (require_password_reconfirmation a password st) (λ st'. (
    ok [],
    audit_own "user.mfa_disable" a (with_mfa a (disable_mfa env.mfa (own_mfa a st')) st'),
  ))

  unfoldable pub mfa_regenerate_backup_codes :
      LoginAccount → String → List Draw → State → Run (List Text) × State
  unfolding require_password_reconfirmation
  mfa_regenerate_backup_codes a password draws st =
      confirmed (require_password_reconfirmation a password st) (λ st'.
        with_codes "user.mfa_backup_codes_regenerated" "MFA is not enabled" a
          (regenerate_backup_codes env.mfa draws (own_mfa a st')) st')

  abbrev pub logout : Option String → State → State
  logout none st = st
  logout (some token) st = record st {
    sessions = (delete_session env.sha256 token (sessions_of st)).sessions;
  }

  unfoldable pub change : Change → LoginAccount → String → State → Run (List Text) × State
  unfolding change_password_endpoint mfa_enroll mfa_disable mfa_regenerate_backup_codes
  change (set_password new_password token) a current st =
      change_password_endpoint a current new_password token st
  change (enroll secret) a current st = mfa_enroll a current secret st
  change disable a current st = mfa_disable a current st
  change (regenerate draws) a current st = mfa_regenerate_backup_codes a current draws st
