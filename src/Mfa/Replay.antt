-- ===== src/Mfa/Replay.antt =====
-- backend/app/auth/mfa.py: an accepted TOTP code is not accepted again.
use perchtail.Prelude.{
  ℕ, ◌<◌, ◌≡◌, sym, subst, Bool, true, false, Option, none, some, List, [], ◌∷◌, arith,
}
use perchtail.Model.{Text}
use perchtail.Run.{Run, ok, http, crash, out_of_fuel, ◌>>=◌}
use perchtail.Mfa.{
  MfaUser, MfaDb, Engine, Draw, is_replay, normalize_totp, consume_totp_code, verify_secret,
  verify_mfa_code, confirm_secret, confirm_enrollment, enrolled, replace_backup_codes,
  regenerate_backup_codes, start_enrollment, or_backup, consume_backup_code,
}
use perchtail.Mfa.Steps.{
  is_kept, is_kept_refl, is_kept_trans, IsKeptBy, consume_totp_code-IsStep, consume_totp_code-kept,
}

-- The calls that leave the enrollment in place: all but `disable_mfa`.
pub data Call : Type 0 where
  login : ℕ → Text → Call
  enroll : Text → Call
  confirm : ℕ → Text → List Draw → Call
  regenerate : List Draw → Call

abbrev pub after_login : MfaDb → Run (Bool × MfaDb) → MfaDb
after_login db (ok r) = r.1
after_login db (http n d) = db
after_login db crash = db
after_login db out_of_fuel = db

abbrev pub after_change : MfaDb → Option (List Text × MfaDb) → MfaDb
after_change db none = db
after_change db (some r) = r.1

abbrev pub after_confirm : MfaDb → Run (Option (List Text × MfaDb)) → MfaDb
after_confirm db (ok r) = after_change db r
after_confirm db (http n d) = db
after_confirm db crash = db
after_confirm db out_of_fuel = db

abbrev last_step : MfaDb → Option ℕ
last_step db = db.user.mfa_last_used_step

module _ (engine : Engine) where
  unfoldable pub call : Call → MfaDb → MfaDb
  unfolding verify_mfa_code confirm_enrollment regenerate_backup_codes start_enrollment
  call (login now code) db = after_login db (verify_mfa_code engine now code db)
  call (enroll secret) db = start_enrollment engine secret db
  call (confirm now code draws) db = after_confirm db (confirm_enrollment engine now code draws db)
  call (regenerate draws) db = after_change db (regenerate_backup_codes engine draws db)

  unfoldable pub calls : List Call → MfaDb → MfaDb
  calls [] db = db
  calls (c ∷ cs) db = calls cs (call c db)

  consume_backup_code-last :
      (now : ℕ) (code : Text) (db : MfaDb)
      → last_step (consume_backup_code engine now code db).1 ≡ last_step db
  unfolding consume_backup_code
  consume_backup_code-last now code db = ground arith

  or_backup-kept :
      (now : ℕ) (code : Text) (db : MfaDb) (r : Bool × MfaUser)
      → is_kept (last_step db) r.1.mfa_last_used_step ≡ true
      → is_kept (last_step db) (last_step (or_backup engine now code db r).1) ≡ true
  or_backup-kept now code db (true, user) h = h
  or_backup-kept now code db (false, user) h =
      subst (λ l. is_kept (last_step db) l ≡ true)
        (sym (consume_backup_code-last now code (record db { user = user }))) h

  verified-kept :
      (now : ℕ) (code : Text) (db : MfaDb) (r : Run (Bool × MfaUser))
      → IsKeptBy engine db.user r
      → is_kept
          (last_step db)
          (last_step (after_login db (r >>= λ x. ok (or_backup engine now code db x))))
        ≡ true
  verified-kept now code db (ok r) h = or_backup-kept now code db r h
  verified-kept now code db (http n d) h = is_kept_refl (last_step db)
  verified-kept now code db crash h = is_kept_refl (last_step db)
  verified-kept now code db out_of_fuel h = is_kept_refl (last_step db)

  verify_secret-kept :
      (now : ℕ) (code : Text) (db : MfaDb) (b : Bool) (secret : Option Text)
      → is_kept
          (last_step db)
          (last_step (after_login db (verify_secret engine now code b secret db)))
        ≡ true
  verify_secret-kept now code db false secret = is_kept_refl (last_step db)
  verify_secret-kept now code db true none = is_kept_refl (last_step db)
  verify_secret-kept now code db true (some secret) =
      verified-kept now code db (consume_totp_code engine now secret code db.user)
        (consume_totp_code-kept engine now secret code db.user)

  confirmed-kept :
      (now : ℕ) (draws : List Draw) (db : MfaDb) (r : Run (Bool × MfaUser))
      → IsKeptBy engine db.user r
      → is_kept
          (last_step db)
          (last_step (after_confirm db (r >>= λ x. ok (enrolled engine now draws db x))))
        ≡ true
  unfolding replace_backup_codes
  confirmed-kept now draws db (ok (true, user)) h = h
  confirmed-kept now draws db (ok (false, user)) h = is_kept_refl (last_step db)
  confirmed-kept now draws db (http n d) h = is_kept_refl (last_step db)
  confirmed-kept now draws db crash h = is_kept_refl (last_step db)
  confirmed-kept now draws db out_of_fuel h = is_kept_refl (last_step db)

  confirm_secret-kept :
      (now : ℕ) (code : Text) (draws : List Draw) (secret : Option Text) (db : MfaDb)
      → is_kept
          (last_step db)
          (last_step (after_confirm db (confirm_secret engine now code draws secret db)))
        ≡ true
  confirm_secret-kept now code draws none db = is_kept_refl (last_step db)
  confirm_secret-kept now code draws (some secret) db =
      confirmed-kept now draws db (consume_totp_code engine now secret code db.user)
        (consume_totp_code-kept engine now secret code db.user)

  regenerate-last :
      (draws : List Draw) (db : MfaDb)
      → last_step (after_change db (regenerate_backup_codes engine draws db)) ≡ last_step db
  unfolding regenerate_backup_codes replace_backup_codes
  regenerate-last draws db = ground arith

  call-kept : (c : Call) (db : MfaDb) → is_kept (last_step db) (last_step (call c db)) ≡ true
  unfolding call verify_mfa_code confirm_enrollment start_enrollment
  call-kept (login now code) db =
      verify_secret-kept now code db db.user.mfa_enabled db.user.mfa_secret
  call-kept (enroll secret) db = is_kept_refl (last_step db)
  call-kept (confirm now code draws) db = confirm_secret-kept now code draws db.user.mfa_secret db
  call-kept (regenerate draws) db =
      subst (λ l. is_kept (last_step db) l ≡ true) (sym (regenerate-last draws db))
        (is_kept_refl (last_step db))

  calls-kept :
      (cs : List Call) (db : MfaDb) → is_kept (last_step db) (last_step (calls cs db)) ≡ true
  unfolding calls
  calls-kept [] db = is_kept_refl (last_step db)
  calls-kept (c ∷ cs) db =
      is_kept_trans (last_step db) (last_step (call c db)) (last_step (calls cs (call c db)))
        (call-kept c db) (calls-kept cs (call c db))

-- Two acceptances: the second is for a later time step, whose code is the second code.
pub IsLater : (Text → ℕ → Text) → Text → Text → MfaUser → MfaUser → Type 0
IsLater totp_at secret normalized first second =
    (a : ℕ) × (b : ℕ) × (first.mfa_last_used_step ≡ some a)
    × (second.mfa_last_used_step ≡ some b)
    × (a < b)
    × (totp_at secret b ≡ normalized)

later : (a b : ℕ) (l : Option ℕ) → is_kept (some a) l ≡ true → is_replay l b ≡ false → a < b
later a b none h k = ground (arith, h)
later a b (some c) h k = ground (arith, h, k)

-- When a TOTP code was accepted for a user, and another is accepted after any sequence of logins,
-- enrollments, confirmations and regenerations, then the second is the code of a time step that is
-- strictly later than the first one's step, so that no step is accepted twice.
pub consume-IsLater :
    (engine : Engine) (now : ℕ) (secret code : Text) (db : MfaDb) (first : MfaUser) (cs : List Call)
    (now' : ℕ) (secret' code' : Text) (second : MfaUser)
    → consume_totp_code engine now secret code db.user ≡ ok (true, first)
    → consume_totp_code engine now' secret' code'
        (calls engine cs (record db { user = first })).user
      ≡ ok (true, second)
    → IsLater engine.totp_at secret' (normalize_totp engine code') first second
unfolding IsLater
consume-IsLater engine now secret code db first cs now' secret' code' second e e' =
    let db' : MfaDb = record db { user = first } in
    let (a, (used, _, _)) = consume_totp_code-IsStep engine now secret code db.user first e in
    let (b, (used', is_code, fresh)) =
      consume_totp_code-IsStep engine now' secret' code' (calls engine cs db').user second e' in
    let kept =
      subst (λ l. is_kept l (last_step (calls engine cs db')) ≡ true) used
        (calls-kept engine cs db') in
    (a, b, used, used', later a b (last_step (calls engine cs db')) kept fresh, is_code)
