-- ===== src/Login.antt =====
-- backend/app/api/auth.py, the login, with the provider of backend/app/auth/providers/local.py. It joins
-- LoginThrottle, AuthEvents, Mfa and Sessions.
mod SignedIn
pub mod SelfService
mod Tests
use perchtail.Prelude.{
  ℕ, Bool, true, false, not, Option, none, some, String, List, [], ◌∷◌, ◌++◌, if◌then◌else◌, ◌==◌,
  nat_eq, string_eq,
}
use perchtail.Prelude.Table.{get, replace}
use perchtail.Model.{Text, User, AuditEvent}
use perchtail.Run.{Run, ok, http, crash, out_of_fuel}
use perchtail.LoginThrottle as Throttle
use perchtail.LoginThrottle.{Settings, seconds_until_unlocked, record_failure, record_success}
use perchtail.AuthEvents.{Events, Call, record_call, login_failed, locked_out, login_throttled}
use perchtail.Mfa.{MfaUser, MfaDb, MfaBackupCode, Engine, verify_mfa_code}
use perchtail.Sessions.{AuthSession, AuthDb, create_session}

-- A row of the users: what the other components read of it, the password's hash, the second factor.
pub record LoginAccount : Type 0 where
  pub user : User
  pub password_hash : Option String
  pub must_change_password : Bool
  pub last_login_at : Option ℕ
  pub mfa : MfaUser

-- the tables and the two in-memory stores that a login reads and writes
pub record State : Type 0 where
  pub throttle : Throttle.State
  pub events : Events
  pub accounts : List LoginAccount
  pub codes : List MfaBackupCode
  pub next_code_id : ℕ
  pub sessions : List AuthSession
  pub next_session_id : ℕ
  pub audit : List AuditEvent

pub record LoginRequest : Type 0 where
  pub username : String
  pub password : String
  pub mfa_code : Option Text
  pub client_ip : Option String
  pub user_agent : Option String

-- What the login takes from the settings and the libraries, and what it draws: argon2 (the check of a
-- password against a hash, whether a hash is outdated, a new hash), the second factor's, SHA-256,
-- the monotonic and the wall clock, and the token of a new session.
pub record Env : Type 0 where
  pub settings : Settings
  pub session_ttl_hours : ℕ
  pub verify : String → String → Bool
  pub needs_rehash : String → Bool
  pub hash : String → String
  pub mfa : Engine
  pub sha256 : String → String
  pub monotonic : ℕ
  pub now : ℕ
  pub token : String

-- a 401 or a 429 with its detail or its error code, or an exception that nobody handles
pub data Answer : Type 0 where
  signed_in : String → Answer
  refused : ℕ → String → Answer
  server_error : Answer

abbrev pub account_of : String → List LoginAccount → Option LoginAccount
account_of = get (λ (a : LoginAccount). a.user.username)

pub put_account : LoginAccount → State → State
put_account a st = record st { accounts = replace (λ (x : LoginAccount). x.user.id) a st.accounts }

module _ (env : Env) (req : LoginRequest) where
  abbrev pub rehashed : String → LoginAccount → LoginAccount
  rehashed h a =
      if env.needs_rehash h then record a { password_hash = some (env.hash req.password) } else a

  abbrev pub check_hash : Option String → LoginAccount → Option LoginAccount
  check_hash none a = none
  check_hash (some h) a = if env.verify h req.password then some (rehashed h a) else none

  abbrev pub check_row : Bool → LoginAccount → Option LoginAccount
  check_row true a = check_hash a.password_hash a
  check_row false a = none

  -- `authenticate`, at the row of the username; the row that it gives is committed
  pub authenticate : Option LoginAccount → Option LoginAccount
  authenticate none = none
  authenticate (some a) = check_row a.user.active a

  abbrev pub note_lockout : Option ℕ → Events → Events
  note_lockout none events = events
  note_lockout (some remaining) events =
      record_call env.monotonic (locked_out req.username req.client_ip) events

  -- `_record_failed_login`
  pub record_failed_login : String → State → State
  record_failed_login reason st =
      let failed = record_failure env.settings env.monotonic req.username st.throttle in
      let after = seconds_until_unlocked env.settings env.monotonic req.username failed in
      record st {
        throttle = after.0;
        events =
            note_lockout after.1 (
              record_call env.monotonic (login_failed req.username req.client_ip reason) st.events);
      }

  pub complete_login : LoginAccount → State → State
  unfolding put_account
  complete_login a st =
      let done = put_account (record a { last_login_at = some env.now }) st in
      record done {
        audit =
            done.audit
            ++ record {
              user_id = some a.user.id;
              action = "user.login";
              target_type = "user";
              target_id = a.user.id;
            }
              ∷ [];
      }

  abbrev pub open_session : LoginAccount → State → State
  open_session a st =
      let db : AuthDb = record {
        users = [];
        sessions = st.sessions;
        next_id = st.next_session_id;
      } in
      let made =
        create_session env.sha256 env.session_ttl_hours env.now a.user req.user_agent env.token
          db in
      record st { sessions = made.1.sessions; next_session_id = made.1.next_id }

  -- the end of a login that every factor let through
  pub finish : LoginAccount → State → Answer × State
  unfolding complete_login
  finish a st =
      let unlocked = record st { throttle = record_success req.username st.throttle } in
      (signed_in env.token, open_session a (complete_login a unlocked))

  pub check_code : LoginAccount → State → Run (Bool × MfaDb) → Answer × State
  unfolding finish record_failed_login
  check_code a st (ok (true, db)) =
      finish (record a { mfa = db.user })
        (record st { codes = db.codes; next_code_id = db.next_code_id })
  check_code a st (ok (false, db)) =
      (refused 401 "mfa_invalid_code", record_failed_login "mfa_invalid_code" st)
  check_code a st (http code detail) = (server_error, st)
  check_code a st crash = (server_error, st)
  check_code a st out_of_fuel = (server_error, st)

  abbrev pub mfa_db : LoginAccount → State → MfaDb
  mfa_db a st = record { user = a.mfa; codes = st.codes; next_code_id = st.next_code_id }

  -- a missing code and an empty one do not count as a failure
  pub second_factor : Bool → Option Text → LoginAccount → State → Answer × State
  unfolding check_code
  second_factor false mfa_code a st = finish a st
  second_factor true none a st = (refused 401 "mfa_required", st)
  second_factor true (some []) a st = (refused 401 "mfa_required", st)
  second_factor true (some (c ∷ cs)) a st =
      check_code a st (verify_mfa_code env.mfa env.now (c ∷ cs) (mfa_db a st))

  pub first_factor : Option LoginAccount → State → Answer × State
  unfolding second_factor
  first_factor none st =
      (refused 401 "Invalid credentials", record_failed_login "bad_credentials" st)
  first_factor (some a) st = second_factor a.mfa.mfa_enabled req.mfa_code a (put_account a st)

  pub gate : Option ℕ → State → Answer × State
  unfolding first_factor authenticate
  gate (some remaining) st = (
    refused 429 "Too many failed login attempts. Try again later.",
    record st {
      events = record_call env.monotonic (login_throttled req.username req.client_ip) st.events;
    },
  )
  gate none st = first_factor (authenticate (account_of req.username st.accounts)) st

  pub login : State → Answer × State
  unfolding gate
  login st =
      let checked = seconds_until_unlocked env.settings env.monotonic req.username st.throttle in
      gate checked.1 (record st { throttle = checked.0 })
