-- ===== src/Mfa/Tests.antt =====
-- The second factor on a concrete account.
use Prim.Native.Nat.{◌%◌}
use perchtail.Prelude.{
  ℕ, ◌+◌, ◌≡◌, refl, true, some, none, [], ◌∷◌, leb, ◌&&◌, ◌==◌, list_eq, nat_eq,
}
use perchtail.Run.{ok}
use perchtail.Mfa.{
  MfaUser, MfaDb, MfaBackupCode, Engine, consume_totp_code, try_counters, compare_digest,
  strip_left, strip_right, normalize_totp, consume_backup_code, spend, verify_mfa_code,
}
use perchtail.Mfa.Replay.{login, calls, call, IsLater, consume-IsLater}
use perchtail.Mfa.Backup.{attempts, unused, attempts-unused}

-- The code of a step is its last digit; a hash is the text itself.
abbrev engine : Engine
engine = record {
  is_digit = λ c. leb 48 c && leb c 57;
  is_space = λ c. c == 32;
  lower = λ t. t;
  totp_at = λ secret step. (48 + step % 10) ∷ [];
  verify = λ h t. h == t;
  hash = λ salt t. t;
}

abbrev alice : MfaUser
alice = record {
  id = 1;
  mfa_enabled = true;
  mfa_secret = some (65 ∷ []);
  mfa_enrolled_at = some 30;
  mfa_last_used_step = some 20;
}

abbrev backup_code : MfaBackupCode
backup_code = record { id = 4; user_id = 1; code_hash = 97 ∷ 98 ∷ []; used_at = none }

abbrev db : MfaDb
db = record { user = alice; codes = backup_code ∷ []; next_code_id = 5 }

abbrev at_step : ℕ → MfaUser
at_step step = record alice { mfa_last_used_step = some step }

-- The first code at step 30; the replay of it in between is refused; the second at step 31.
accepted : consume_totp_code engine 900 (65 ∷ []) (48 ∷ []) alice ≡ ok (true, at_step 30)
unfolding consume_totp_code try_counters compare_digest strip_left strip_right
accepted = refl

accepted_later :
    consume_totp_code engine 930
      (65 ∷ [])
      (49 ∷ [])
      (calls engine (login 901 (48 ∷ []) ∷ []) (record db { user = at_step 30 })).user
    ≡ ok (true, at_step 31)
unfolding consume_totp_code try_counters compare_digest strip_left strip_right calls call
    verify_mfa_code consume_backup_code spend
accepted_later = refl

consume-IsLater_example :
    IsLater engine.totp_at (65 ∷ []) (normalize_totp engine (49 ∷ [])) (at_step 30) (at_step 31)
consume-IsLater_example =
    consume-IsLater engine 900 (65 ∷ []) (48 ∷ []) db (at_step 30) (login 901 (48 ∷ []) ∷ []) 930
      (65 ∷ []) (49 ∷ []) (at_step 31) accepted accepted_later

-- The code is taken once of three attempts.
attempts-unused_example :
    (attempts engine ((5, 97 ∷ 98 ∷ []) ∷ (6, 97 ∷ 98 ∷ []) ∷ (7, 99 ∷ []) ∷ []) db).0
      + unused 1
          (attempts engine ((5, 97 ∷ 98 ∷ []) ∷ (6, 97 ∷ 98 ∷ []) ∷ (7, 99 ∷ []) ∷ []) db).1.codes
    ≡ 1
attempts-unused_example =
    attempts-unused engine ((5, 97 ∷ 98 ∷ []) ∷ (6, 97 ∷ 98 ∷ []) ∷ (7, 99 ∷ []) ∷ []) db
