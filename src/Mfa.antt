-- ===== src/Mfa.antt =====
-- backend/app/auth/mfa.py: the second factor of a local account, with its backup codes. A text is the
-- list of its code points; the column of the encrypted secret holds the secret; times are seconds
-- since 1970, at least one time step.
mod Steps
mod Replay
mod Backup
mod Tests
use Prim.Native.Nat.{◌/◌}
use perchtail.Prelude.{
  ℕ, suc, ◌+◌, ◌-◌, Bool, true, false, ◌&&◌, not, Option, none, some, List, [], ◌∷◌, ◌++◌, ltb, leb,
  filter, all, map, take, drop, length, option_eq, if◌then◌else◌, ◌==◌, nat_eq, list_eq,
}
use perchtail.Model.{Text}
use perchtail.Run.{Run, ok, http, crash, out_of_fuel, ◌>>=◌}

pub record MfaUser : Type 0 where
  pub id : ℕ
  pub mfa_enabled : Bool
  pub mfa_secret : Option Text
  pub mfa_enrolled_at : Option ℕ
  pub mfa_last_used_step : Option ℕ

pub record MfaBackupCode : Type 0 where
  pub id : ℕ
  pub user_id : ℕ
  pub code_hash : Text
  pub used_at : Option ℕ

-- the account that acts, and the table of everybody's backup codes
pub record MfaDb : Type 0 where
  pub user : MfaUser
  pub codes : List MfaBackupCode
  pub next_code_id : ℕ

-- What comes from Python and from its packages: the tests of `str.isdigit` and `str.strip` on a code
-- point, `str.lower`, the TOTP code of a secret at a time step, and the check and the making of an
-- argon2 hash, with its salt.
pub record Engine : Type 0 where
  pub is_digit : ℕ → Bool
  pub is_space : ℕ → Bool
  pub lower : Text → Text
  pub totp_at : Text → ℕ → Text
  pub verify : Text → Text → Bool
  pub hash : Text → Text → Text

-- A drawn backup code: ten hexadecimal digits, and the salt of its hash.
pub record Draw : Type 0 where
  pub raw_hex : Text
  pub salt : Text

abbrev pub without : ℕ → Text → Text
without c = filter (λ x. not (x == c))

abbrev pub space : ℕ
space = 32

abbrev pub dash : ℕ
dash = 45

abbrev pub totp_interval_seconds : ℕ
totp_interval_seconds = 30

abbrev pub backup_code_count : ℕ
backup_code_count = 10

-- `secrets.compare_digest`, which raises for a text that is not ASCII
unfoldable pub compare_digest : Text → Text → Run Bool
compare_digest a b = if all (λ c. ltb c 128) a && all (λ c. ltb c 128) b then ok (a == b) else crash

abbrev pub is_replay : Option ℕ → ℕ → Bool
is_replay none counter = false
is_replay (some last) counter = leb counter last

-- the end of the loop at the step whose code matched
abbrev pub accept_unless : Bool → ℕ → MfaUser → Bool × MfaUser
accept_unless true counter user = (false, user)
accept_unless false counter user = (true, record user { mfa_last_used_step = some counter })

abbrev pub accept : ℕ → MfaUser → Bool × MfaUser
accept counter user = accept_unless (is_replay user.mfa_last_used_step counter) counter user

abbrev pub on_match : Bool → ℕ → MfaUser → Run (Bool × MfaUser) → Run (Bool × MfaUser)
on_match true counter user rest = ok (accept counter user)
on_match false counter user rest = rest

-- the steps that the loop tries: the one before, the current one and the one after
abbrev pub counters : ℕ → List ℕ
counters now =
    let current = now / totp_interval_seconds in (current - 1) ∷ current ∷ (current + 1) ∷ []

abbrev pub format_backup_code : Text → Text
format_backup_code raw_hex = take 5 raw_hex ++ dash ∷ drop 5 raw_hex

abbrev pub is_unused : ℕ → MfaBackupCode → Bool
is_unused user_id row = row.user_id == user_id && row.used_at == none

-- the deletion of all backup codes of a user
abbrev pub without_codes : ℕ → List MfaBackupCode → List MfaBackupCode
without_codes user_id = filter (λ (row : MfaBackupCode). not (row.user_id == user_id))

module _ (engine : Engine) where
  unfoldable pub strip_left : Text → Text
  strip_left [] = []
  strip_left (c ∷ cs) = let rest = strip_left cs in if engine.is_space c then rest else c ∷ cs

  unfoldable pub strip_right : Text → Text
  strip_right [] = []
  strip_right (c ∷ cs) =
      let rest = strip_right cs in if engine.is_space c && rest == [] then [] else c ∷ rest

  abbrev pub strip : Text → Text
  strip text = strip_right (strip_left text)

  abbrev pub normalize_totp : Text → Text
  normalize_totp code = without space (strip code)

  -- `str.isdigit`
  abbrev pub is_number : Text → Bool
  is_number text = not (text == []) && all engine.is_digit text

  unfoldable pub try_counters : Text → Text → List ℕ → MfaUser → Run (Bool × MfaUser)
  unfolding compare_digest
  try_counters secret normalized [] user = ok (false, user)
  try_counters secret normalized (counter ∷ rest) user =
      let later = try_counters secret normalized rest user in
      compare_digest (engine.totp_at secret counter) normalized >>= λ same.
      on_match same counter user later

  unfoldable pub consume_totp_code : ℕ → Text → Text → MfaUser → Run (Bool × MfaUser)
  unfolding try_counters
  consume_totp_code now secret code user =
      if is_number (normalize_totp code)
      then try_counters secret (normalize_totp code) (counters now) user
      else ok (false, user)

  abbrev pub normalize_backup_code : Text → Text
  normalize_backup_code code = engine.lower (without space (without dash (strip code)))

  abbrev pub hash_backup_code : Text → Text → Text
  hash_backup_code salt code = engine.hash salt (normalize_backup_code code)

  pub add_codes : ℕ → ℕ → List Draw → List MfaBackupCode
  add_codes user_id next [] = []
  add_codes user_id next (d ∷ ds) =
      record {
        id = next;
        user_id = user_id;
        code_hash = hash_backup_code d.salt (format_backup_code d.raw_hex);
        used_at = none;
      }
      ∷ add_codes user_id (suc next) ds

  -- `_replace_backup_codes`, with the codes drawn
  pub replace_backup_codes : List Draw → MfaDb → List Text × MfaDb
  replace_backup_codes draws db =
      let drawn = take backup_code_count draws in
      (
        map (λ (d : Draw). format_backup_code d.raw_hex) drawn,
        record db {
          codes = without_codes db.user.id db.codes ++ add_codes db.user.id db.next_code_id drawn;
          next_code_id = db.next_code_id + length drawn;
        },
      )

  -- the row that a code is checked against, the first that matches
  pub spend : ℕ → ℕ → Text → List MfaBackupCode → Bool × List MfaBackupCode
  spend now user_id normalized [] = (false, [])
  spend now user_id normalized (row ∷ rows) =
      let later = spend now user_id normalized rows in
      if is_unused user_id row && engine.verify row.code_hash normalized
      then (true, record row { used_at = some now } ∷ rows)
      else (later.0, row ∷ later.1)

  pub consume_backup_code : ℕ → Text → MfaDb → Bool × MfaDb
  unfolding spend
  consume_backup_code now code db =
      let normalized = normalize_backup_code code in
      if normalized == []
      then (false, db)
      else let spent = spend now db.user.id normalized db.codes in
        (spent.0, record db { codes = spent.1 })

  abbrev pub or_backup : ℕ → Text → MfaDb → Bool × MfaUser → Bool × MfaDb
  or_backup now code db (true, user) = (true, record db { user = user })
  or_backup now code db (false, user) = consume_backup_code now code (record db { user = user })

  abbrev pub verify_secret : ℕ → Text → Bool → Option Text → MfaDb → Run (Bool × MfaDb)
  verify_secret now code false secret db = ok (false, db)
  verify_secret now code true none db = ok (false, db)
  verify_secret now code true (some secret) db =
      consume_totp_code now secret code db.user >>= λ r. ok (or_backup now code db r)

  unfoldable pub verify_mfa_code : ℕ → Text → MfaDb → Run (Bool × MfaDb)
  unfolding consume_totp_code consume_backup_code
  verify_mfa_code now code db = verify_secret now code db.user.mfa_enabled db.user.mfa_secret db

  -- at a drawn secret
  pub start_enrollment : Text → MfaDb → MfaDb
  start_enrollment secret db = record db { user = record db.user { mfa_secret = some secret } }

  -- MFA turned on after a code was accepted; `none` is a `ValueError`
  abbrev pub enrolled : ℕ → List Draw → MfaDb → Bool × MfaUser → Option (List Text × MfaDb)
  enrolled now draws db (false, user) = none
  enrolled now draws db (true, user) = some (
      replace_backup_codes draws
        (record db { user = record user { mfa_enabled = true; mfa_enrolled_at = some now } }))

  abbrev pub confirm_secret :
      ℕ → Text → List Draw → Option Text → MfaDb → Run (Option (List Text × MfaDb))
  confirm_secret now code draws none db = ok none
  confirm_secret now code draws (some secret) db =
      consume_totp_code now secret code db.user >>= λ r. ok (enrolled now draws db r)

  pub confirm_enrollment : ℕ → Text → List Draw → MfaDb → Run (Option (List Text × MfaDb))
  unfolding consume_totp_code replace_backup_codes
  confirm_enrollment now code draws db = confirm_secret now code draws db.user.mfa_secret db

  pub disable_mfa : MfaDb → MfaDb
  disable_mfa db = record db {
    user = record db.user {
      mfa_enabled = false;
      mfa_secret = none;
      mfa_enrolled_at = none;
      mfa_last_used_step = none;
    };
    codes = without_codes db.user.id db.codes;
  }

  -- `none` is a `ValueError`
  pub regenerate_backup_codes : List Draw → MfaDb → Option (List Text × MfaDb)
  unfolding replace_backup_codes
  regenerate_backup_codes draws db =
      if db.user.mfa_enabled then some (replace_backup_codes draws db) else none
