-- ===== src/Mfa/Backup.antt =====
-- backend/app/auth/mfa.py: every backup code is good for one login.
use perchtail.Prelude.{
  ℕ, ◌+◌, ◌≡◌, refl, Bool, true, false, Bool-cases, inl, inr, List, [], ◌∷◌, filter, length, arith,
  ◌==◌, nat_eq, list_eq, option_eq,
}
use perchtail.Model.{Text}
use perchtail.Mfa.{
  MfaDb, MfaBackupCode, Engine, is_unused, spend, consume_backup_code, normalize_backup_code,
}

abbrev pub unused : ℕ → List MfaBackupCode → ℕ
unused user_id rows = length (filter (is_unused user_id) rows)

abbrev pub count : Bool → ℕ
count true = 1
count false = 0

module _ (engine : Engine) where
  -- how many of the attempts, each with its time, a backup code lets in
  unfoldable pub attempts : List (ℕ × Text) → MfaDb → ℕ × MfaDb
  unfolding consume_backup_code
  attempts [] db = (0, db)
  attempts (a ∷ rest) db =
      let first = consume_backup_code engine a.0 a.1 db in
      let later = attempts rest first.1 in (count first.0 + later.0, later.1)

  spend-unused :
      (now user_id : ℕ) (normalized : Text) (rows : List MfaBackupCode)
      → count (spend engine now user_id normalized rows).0
          + unused user_id (spend engine now user_id normalized rows).1
        ≡ unused user_id rows
  unfolding spend
  spend-unused now user_id normalized [] = refl
  spend-unused now user_id normalized (row ∷ rows) =
      ground (arith, spend-unused now user_id normalized rows)

  consume_backup_code-unused :
      (now : ℕ) (code : Text) (db : MfaDb)
      → (count (consume_backup_code engine now code db).0
            + unused db.user.id (consume_backup_code engine now code db).1.codes
          ≡ unused db.user.id db.codes)
        × ((consume_backup_code engine now code db).1.user.id ≡ db.user.id)
  unfolding consume_backup_code
  consume_backup_code-unused now code db =
      elim (Bool-cases (normalize_backup_code engine code == [])) [
        | inl e ↦ rw (consume_backup_code, e) (omega arith, refl)
        | inr e ↦
            rw (consume_backup_code, e)
              (spend-unused now db.user.id (normalize_backup_code engine code) db.codes, refl)
      ]

  -- For any sequence of attempts: the number of attempts that backup codes let in and the number of the
  -- user's codes still unused add up to the number of the user's unused codes before.
  pub attempts-unused :
      (tries : List (ℕ × Text)) (db : MfaDb)
      → (attempts tries db).0 + unused db.user.id (attempts tries db).1.codes
        ≡ unused db.user.id db.codes
  unfolding attempts
  attempts-unused [] db = omega arith
  attempts-unused (a ∷ rest) db =
      let (spent, same) = consume_backup_code-unused a.0 a.1 db in
      let later = attempts-unused rest (consume_backup_code engine a.0 a.1 db).1 in
      omega (arith, spent, rw same at later)
