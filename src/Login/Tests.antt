-- ===== src/Login/Tests.antt =====
-- The login of an account with a second factor.
use perchtail.Prelude.{
  ◌≡◌, refl, true, false, some, none, [], ◌∷◌, ◌==◌, string_eq, list_eq, nat_eq, leb, ◌&&◌,
}
use perchtail.Prelude.Table.{get}
use perchtail.LoginThrottle.{seconds_until_unlocked}
use perchtail.Mfa.{
  MfaUser, Engine, verify_mfa_code, consume_totp_code, try_counters, compare_digest, strip_left,
  strip_right,
}
use perchtail.Login.{
  LoginAccount, State, LoginRequest, Env, signed_in, login, gate, authenticate, first_factor,
  second_factor, check_code, finish,
}
use perchtail.Login.SignedIn.{IsVerified, IsQuiet, login-IsVerified, login-IsQuiet}
use perchtail.Login.SelfService.{enroll, change, mfa_enroll, require_password_reconfirmation}
use perchtail.Login.SelfService.Reconfirmed.{IsReconfirmed, change-IsReconfirmed}
use perchtail.Run.{ok}
use perchtail.Samples

-- The code is always "0".
abbrev engine : Engine
engine = record {
  is_digit = λ c. leb 48 c && leb c 57;
  is_space = λ c. c == 32;
  lower = λ t. t;
  totp_at = λ secret step. 48 ∷ [];
  verify = λ h t. h == t;
  hash = λ salt t. t;
}

abbrev env : Env
env = record {
  settings = record { lockout = 60; max_attempts = 3 };
  session_ttl_hours = 8;
  verify = λ h p. h == p;
  needs_rehash = λ h. false;
  hash = λ p. p;
  mfa = engine;
  sha256 = λ t. t;
  monotonic = 100;
  now = 900;
  token = "token";
}

abbrev second : MfaUser
second = record {
  id = 7;
  mfa_enabled = true;
  mfa_secret = some (65 ∷ []);
  mfa_enrolled_at = some 30;
  mfa_last_used_step = none;
}

abbrev account : LoginAccount
account = record {
  user = Samples.operator;
  password_hash = some "pw";
  must_change_password = false;
  last_login_at = none;
  mfa = second;
}

abbrev state : State
state = record {
  throttle =
      record { username = "alice"; failures = 1; locked_until = none; last_failure = 90 } ∷ [];
  events = record { recent = []; rows = [] };
  accounts = account ∷ [];
  codes = [];
  next_code_id = 1;
  sessions = [];
  next_session_id = 1;
  audit = [];
}

abbrev request : LoginRequest
request = record {
  username = "alice";
  password = "pw";
  mfa_code = some (48 ∷ []);
  client_ip = none;
  user_agent = none;
}

signs_in : (login env request state).0 ≡ signed_in "token"
unfolding login gate authenticate first_factor second_factor check_code finish
    seconds_until_unlocked verify_mfa_code consume_totp_code try_counters compare_digest strip_left
    strip_right get
signs_in = refl

login-IsVerified_example : IsVerified env request state
login-IsVerified_example = login-IsVerified env request state "token" signs_in

abbrev mistyped : LoginRequest
mistyped = record request { password = "no" }

login-IsQuiet_example : IsQuiet env mistyped state (login env mistyped state)
login-IsQuiet_example = login-IsQuiet env mistyped state

-- the same account before its enrollment
abbrev unenrolled : LoginAccount
unenrolled = record account { mfa = record second { mfa_enabled = false; mfa_secret = none } }

enrolls : (change env (enroll (66 ∷ [])) unenrolled "pw" state).0 ≡ ok ((66 ∷ []) ∷ [])
unfolding change mfa_enroll require_password_reconfirmation seconds_until_unlocked get
enrolls = refl

change-IsReconfirmed_example : IsReconfirmed env unenrolled "pw" state
change-IsReconfirmed_example =
    change-IsReconfirmed env unenrolled (enroll (66 ∷ [])) "pw" state ((66 ∷ []) ∷ []) enrolls
