-- ===== src/Mfa/Steps.antt =====
-- backend/app/auth/mfa.py: what a TOTP code is accepted for.
use perchtail.Prelude.{
  ℕ, ◌≡◌, refl, sym, ap, Bool, true, false, Bool-cases, inl, inr, Option, none, some, List, [], ◌∷◌,
  leb, arith, ==_iff, nat_eq, list_eq, ◌&&◌, all, ltb,
}
use perchtail.Model.{Text}
use perchtail.Run.{Run, ok_inj, ok, http, crash, out_of_fuel, ◌>>=◌, >>=-eq-ok}
use perchtail.Mfa.{
  MfaUser, Engine, compare_digest, is_replay, accept_unless, on_match, counters, normalize_totp,
  try_counters, is_number, consume_totp_code,
}

-- Is the last used step still there, or a later one?
abbrev pub is_kept : Option ℕ → Option ℕ → Bool
is_kept none later = true
is_kept (some a) none = false
is_kept (some a) (some b) = leb a b

pub is_kept_refl : (o : Option ℕ) → is_kept o o ≡ true
is_kept_refl none = refl
is_kept_refl (some a) = ground arith

pub is_kept_trans :
    (a b c : Option ℕ) → is_kept a b ≡ true → is_kept b c ≡ true → is_kept a c ≡ true
is_kept_trans none b c h k = refl
is_kept_trans (some a) none c h k = ground (arith, h)
is_kept_trans (some a) (some b) none h k = ground (arith, k)
is_kept_trans (some a) (some b) (some c) h k = ground (arith, h, k)

pub is_kept-replay : (o : Option ℕ) (c : ℕ) → is_replay o c ≡ false → is_kept o (some c) ≡ true
is_kept-replay none c h = refl
is_kept-replay (some a) c h = ground (arith, h)

compare_digest-eq : (a b : Text) → compare_digest a b ≡ ok true → a ≡ b
unfolding compare_digest
compare_digest-eq a b h = elim (Bool-cases (all (λ c. ltb c 128) a && all (λ c. ltb c 128) b)) [
  | inl e ↦ (==_iff a b).0 (ok_inj (rw (compare_digest, e) at h))
  | inr e ↦ ground (arith, rw (compare_digest, e) at h)
]

-- An accepted step: its code is the text, it was not used, and it is the last used one now.
abbrev pub IsStep : (Text → ℕ → Text) → Text → Text → MfaUser → MfaUser → ℕ → Type 0
IsStep totp_at secret normalized user user' c =
    (user'.mfa_last_used_step ≡ some c)
    × (totp_at secret c ≡ normalized)
    × (is_replay user.mfa_last_used_step c ≡ false)

module _ (engine : Engine) where
  accept_unless-IsStep :
      (b : Bool) (secret normalized : Text) (c : ℕ) (user user' : MfaUser)
      → is_replay user.mfa_last_used_step c ≡ b
      → engine.totp_at secret c ≡ normalized
      → accept_unless b c user ≡ (true, user')
      → (d : ℕ) × IsStep engine.totp_at secret normalized user user' d
  accept_unless-IsStep true secret normalized c user user' r g e = ground (arith, ap (λ p. p.0) e)
  accept_unless-IsStep false secret normalized c user user' r g e =
      (c, (sym (ap (λ p. p.1.mfa_last_used_step) e), g, r))

  on_match-IsStep :
      (same : Bool) (secret normalized : Text) (c : ℕ) (user user' : MfaUser)
      (rest : Run (Bool × MfaUser))
      → compare_digest (engine.totp_at secret c) normalized ≡ ok same
      → (rest ≡ ok (true, user') → (d : ℕ) × IsStep engine.totp_at secret normalized user user' d)
      → on_match same c user rest ≡ ok (true, user')
      → (d : ℕ) × IsStep engine.totp_at secret normalized user user' d
  on_match-IsStep false secret normalized c user user' rest g k e = k e
  on_match-IsStep true secret normalized c user user' rest g k e =
      accept_unless-IsStep (is_replay user.mfa_last_used_step c) secret normalized c user user' refl
        (compare_digest-eq (engine.totp_at secret c) normalized g) (ok_inj e)

  try_counters-IsStep :
      (secret normalized : Text) (cs : List ℕ) (user user' : MfaUser)
      → try_counters engine secret normalized cs user ≡ ok (true, user')
      → (c : ℕ) × IsStep engine.totp_at secret normalized user user' c
  unfolding try_counters
  try_counters-IsStep secret normalized [] user user' e = ground (arith, e)
  try_counters-IsStep secret normalized (c ∷ cs) user user' e =
      let (same, g, h) = >>=-eq-ok (compare_digest (engine.totp_at secret c) normalized) _ e in
      on_match-IsStep same secret normalized c user user'
        (try_counters engine secret normalized cs user) g
        (try_counters-IsStep secret normalized cs user user') h

  pub consume_totp_code-IsStep :
      (now : ℕ) (secret code : Text) (user user' : MfaUser)
      → consume_totp_code engine now secret code user ≡ ok (true, user')
      → (c : ℕ) × IsStep engine.totp_at secret (normalize_totp engine code) user user' c
  unfolding consume_totp_code
  consume_totp_code-IsStep now secret code user user' e =
      elim (Bool-cases (is_number engine (normalize_totp engine code))) [
        | inl n ↦
            try_counters-IsStep secret (normalize_totp engine code) (counters now) user user'
              (rw (consume_totp_code, n) at e)
        | inr n ↦ ground (arith, rw (consume_totp_code, n) at e)
      ]

  accept_unless-kept :
      (b : Bool) (c : ℕ) (user : MfaUser)
      → is_replay user.mfa_last_used_step c ≡ b
      → is_kept user.mfa_last_used_step (accept_unless b c user).1.mfa_last_used_step ≡ true
  accept_unless-kept true c user r = is_kept_refl user.mfa_last_used_step
  accept_unless-kept false c user r = is_kept-replay user.mfa_last_used_step c r

  abbrev pub IsKeptBy : MfaUser → Run (Bool × MfaUser) → Type 0
  IsKeptBy user (ok r) = is_kept user.mfa_last_used_step r.1.mfa_last_used_step ≡ true
  IsKeptBy user (http n d) = Unit
  IsKeptBy user crash = Unit
  IsKeptBy user out_of_fuel = Unit

  compared-kept :
      (r : Run Bool) (c : ℕ) (user : MfaUser) (rest : Run (Bool × MfaUser))
      → IsKeptBy user rest
      → IsKeptBy user (r >>= λ same. on_match same c user rest)
  compared-kept (ok true) c user rest k =
      accept_unless-kept (is_replay user.mfa_last_used_step c) c user refl
  compared-kept (ok false) c user rest k = k
  compared-kept (http n d) c user rest k = tt
  compared-kept crash c user rest k = tt
  compared-kept out_of_fuel c user rest k = tt

  try_counters-kept :
      (secret normalized : Text) (cs : List ℕ) (user : MfaUser)
      → IsKeptBy user (try_counters engine secret normalized cs user)
  unfolding try_counters
  try_counters-kept secret normalized [] user = is_kept_refl user.mfa_last_used_step
  try_counters-kept secret normalized (c ∷ cs) user =
      compared-kept (compare_digest (engine.totp_at secret c) normalized) c user
        (try_counters engine secret normalized cs user)
        (try_counters-kept secret normalized cs user)

  pub consume_totp_code-kept :
      (now : ℕ) (secret code : Text) (user : MfaUser)
      → IsKeptBy user (consume_totp_code engine now secret code user)
  unfolding consume_totp_code
  consume_totp_code-kept now secret code user =
      elim (Bool-cases (is_number engine (normalize_totp engine code))) [
        | inl n ↦
            rw (consume_totp_code, n)
              (try_counters-kept secret (normalize_totp engine code) (counters now) user)
        | inr n ↦ rw (consume_totp_code, n) (is_kept_refl user.mfa_last_used_step)
      ]
