-- ===== src/Login/SignedIn.antt =====
-- backend/app/api/auth.py: what a login that succeeds has verified, and what one that fails leaves.
use perchtail.Prelude.{
  ℕ, ◌≡◌, refl, subst, Bool, true, false, Bool-cases, inl, inr, ◌⊎◌, Option, none, some, some_inj,
  String, [], ◌∷◌, arith,
}
use perchtail.Model.{Text}
use perchtail.Run.{Run, ok, http, crash, out_of_fuel}
use perchtail.LoginThrottle.{seconds_until_unlocked}
use perchtail.Mfa.{MfaDb, verify_mfa_code}
use perchtail.Login.{
  LoginAccount, State, LoginRequest, Env, Answer, signed_in, refused, server_error, account_of,
  put_account, rehashed, check_hash, check_row, authenticate, record_failed_login, finish,
  check_code, mfa_db, second_factor, first_factor, gate, login,
}

module _ (env : Env) (req : LoginRequest) where
  abbrev pub mfa_db_of : LoginAccount → State → MfaDb
  mfa_db_of a st = record { user = a.mfa; codes = st.codes; next_code_id = st.next_code_id }

  -- The second factor was not asked for, or the request's code was accepted.
  abbrev pub IsSecond : LoginAccount → State → Type 0
  IsSecond a st =
      (a.mfa.mfa_enabled ≡ false)
      ⊎ ((code : Text) × (db : MfaDb) × (req.mfa_code ≡ some code)
          × (verify_mfa_code env.mfa env.now code (mfa_db_of a st) ≡ ok (true, db)))

  -- The password is the account's.
  abbrev pub IsFirst : LoginAccount → Type 0
  IsFirst a =
      (a.user.active ≡ true)
      × ((h : String) × (a.password_hash ≡ some h) × (env.verify h req.password ≡ true))

  -- What a login that succeeds has verified.
  abbrev pub IsVerified : State → Type 0
  IsVerified st =
      ((seconds_until_unlocked env.settings env.monotonic req.username st.throttle).1 ≡ none)
      × ((a : LoginAccount) × (account_of req.username st.accounts ≡ some a)
          × IsFirst a
          × IsSecond a st)

  rehashed-mfa : (h : String) (a : LoginAccount) → (rehashed env req h a).mfa ≡ a.mfa
  rehashed-mfa h a = ground arith

  check_hash-found :
      (h : Option String) (a b : LoginAccount)
      → check_hash env req h a ≡ some b
      → ((x : String) × (h ≡ some x) × (env.verify x req.password ≡ true)) × (b.mfa ≡ a.mfa)
  check_hash-found none a b e = ground (arith, e)
  check_hash-found (some h) a b e = elim (Bool-cases (env.verify h req.password)) [
    | inl v ↦ (
      (h, refl, v),
      subst (λ (x : LoginAccount). x.mfa ≡ a.mfa) (some_inj (rw v at e)) (rehashed-mfa h a),
    )
    | inr v ↦ ground (arith, rw v at e)
  ]

  check_row-IsFirst :
      (v : Bool) (a b : LoginAccount)
      → a.user.active ≡ v
      → check_row env req v a ≡ some b
      → IsFirst a × (b.mfa ≡ a.mfa)
  check_row-IsFirst false a b k e = ground (arith, e)
  check_row-IsFirst true a b k e =
      let (hash, same) = check_hash-found a.password_hash a b e in ((k, hash), same)

  authenticate-IsFirst :
      (o : Option LoginAccount) (b : LoginAccount)
      → authenticate env req o ≡ some b
      → (a : LoginAccount) × (o ≡ some a) × IsFirst a × (b.mfa ≡ a.mfa)
  unfolding authenticate
  authenticate-IsFirst none b e = ground (arith, e)
  authenticate-IsFirst (some a) b e =
      let (first, same) = check_row-IsFirst a.user.active a b refl e in (a, refl, first, same)

  check_code-accepted :
      (a : LoginAccount) (st : State) (r : Run (Bool × MfaDb)) (t : String)
      → (check_code env req a st r).0 ≡ signed_in t
      → (db : MfaDb) × (r ≡ ok (true, db))
  unfolding check_code
  check_code-accepted a st (ok (true, db)) t e = (db, refl)
  check_code-accepted a st (ok (false, db)) t e = ground (arith, e)
  check_code-accepted a st (http code detail) t e = ground (arith, e)
  check_code-accepted a st crash t e = ground (arith, e)
  check_code-accepted a st out_of_fuel t e = ground (arith, e)

  second_factor-IsSecond :
      (b : Bool) (code : Option Text) (a : LoginAccount) (st : State) (t : String)
      → a.mfa.mfa_enabled ≡ b
      → req.mfa_code ≡ code
      → (second_factor env req b code a st).0 ≡ signed_in t
      → IsSecond a st
  unfolding second_factor
  second_factor-IsSecond false code a st t m r e = inl m
  second_factor-IsSecond true none a st t m r e = ground (arith, e)
  second_factor-IsSecond true (some []) a st t m r e = ground (arith, e)
  second_factor-IsSecond true (some (c ∷ cs)) a st t m r e =
      let (db, v) =
        check_code-accepted a st (verify_mfa_code env.mfa env.now (c ∷ cs) (mfa_db env req a st)) t
          e in
      inr (c ∷ cs, db, r, v)

  first_factor-found :
      (o : Option LoginAccount) (st : State) (t : String)
      → (first_factor env req o st).0 ≡ signed_in t
      → (b : LoginAccount) × (o ≡ some b) × IsSecond b st
  unfolding first_factor put_account
  first_factor-found none st t e = ground (arith, e)
  first_factor-found (some b) st t e = (
    b,
    refl,
    second_factor-IsSecond b.mfa.mfa_enabled req.mfa_code b (put_account b st) t refl refl e,
  )

  IsSecond-same : (a b : LoginAccount) (st : State) → b.mfa ≡ a.mfa → IsSecond b st → IsSecond a st
  IsSecond-same a b st same h =
      subst
        (λ m.
          (m.mfa_enabled ≡ false)
          ⊎ ((code : Text) × (db : MfaDb) × (req.mfa_code ≡ some code)
              × (verify_mfa_code env.mfa env.now code
                    (record { user = m; codes = st.codes; next_code_id = st.next_code_id })
                  ≡ ok (true, db))))
        same h

  gate-IsVerified :
      (o : Option ℕ) (st : State) (t : String)
      → (gate env req o st).0 ≡ signed_in t
      → (o ≡ none)
        × ((a : LoginAccount) × (account_of req.username st.accounts ≡ some a)
            × IsFirst a
            × IsSecond a st)
  unfolding gate
  gate-IsVerified (some remaining) st t e = ground (arith, e)
  gate-IsVerified none st t e =
      let (b, found, second) =
        first_factor-found (authenticate env req (account_of req.username st.accounts)) st t e in
      let (a, row, first, same) =
        authenticate-IsFirst (account_of req.username st.accounts) b found in
      (refl, (a, row, first, IsSecond-same a b st same second))

  -- A login that succeeds was not locked out, and its username has an active account whose password it
  -- gave and, where the account asks for a second factor, a code that was accepted.
  pub login-IsVerified :
      (st : State) (t : String) → (login env req st).0 ≡ signed_in t → IsVerified st
  unfolding login
  login-IsVerified st t e =
      gate-IsVerified (seconds_until_unlocked env.settings env.monotonic req.username st.throttle).1
        (record st {
          throttle = (seconds_until_unlocked env.settings env.monotonic req.username st.throttle).0;
        })
        t e

  -- Unless the answer is a sign-in, the sessions and the audit log are as they were.
  abbrev pub IsQuiet : State → Answer × State → Type 0
  IsQuiet st (signed_in t, st') = Unit
  IsQuiet st (refused code detail, st') = (st'.sessions ≡ st.sessions) × (st'.audit ≡ st.audit)
  IsQuiet st (server_error, st') = (st'.sessions ≡ st.sessions) × (st'.audit ≡ st.audit)

  module _ (st' : State) where
    check_code-IsQuiet :
        (a : LoginAccount) (st : State) (r : Run (Bool × MfaDb))
        → st.sessions ≡ st'.sessions
        → st.audit ≡ st'.audit
        → IsQuiet st' (check_code env req a st r)
    unfolding check_code finish record_failed_login
    check_code-IsQuiet a st (ok (true, db)) p q = tt
    check_code-IsQuiet a st (ok (false, db)) p q = (p, q)
    check_code-IsQuiet a st (http code detail) p q = (p, q)
    check_code-IsQuiet a st crash p q = (p, q)
    check_code-IsQuiet a st out_of_fuel p q = (p, q)

    second_factor-IsQuiet :
        (b : Bool) (code : Option Text) (a : LoginAccount) (st : State)
        → st.sessions ≡ st'.sessions
        → st.audit ≡ st'.audit
        → IsQuiet st' (second_factor env req b code a st)
    unfolding second_factor finish
    second_factor-IsQuiet false code a st p q = tt
    second_factor-IsQuiet true none a st p q = (p, q)
    second_factor-IsQuiet true (some []) a st p q = (p, q)
    second_factor-IsQuiet true (some (c ∷ cs)) a st p q =
        check_code-IsQuiet a st (verify_mfa_code env.mfa env.now (c ∷ cs) (mfa_db env req a st)) p q

    first_factor-IsQuiet :
        (o : Option LoginAccount) (st : State)
        → st.sessions ≡ st'.sessions
        → st.audit ≡ st'.audit
        → IsQuiet st' (first_factor env req o st)
    unfolding first_factor put_account record_failed_login
    first_factor-IsQuiet none st p q = (p, q)
    first_factor-IsQuiet (some a) st p q =
        second_factor-IsQuiet a.mfa.mfa_enabled req.mfa_code a (put_account a st) p q

    gate-IsQuiet :
        (o : Option ℕ) (st : State)
        → st.sessions ≡ st'.sessions
        → st.audit ≡ st'.audit
        → IsQuiet st' (gate env req o st)
    unfolding gate
    gate-IsQuiet (some remaining) st p q = (p, q)
    gate-IsQuiet none st p q =
        first_factor-IsQuiet (authenticate env req (account_of req.username st.accounts)) st p q

  -- A login that is refused, or that raises, leaves the sessions and the entries of successful logins as
  -- they were.
  pub login-IsQuiet : (st : State) → IsQuiet st (login env req st)
  unfolding login
  login-IsQuiet st =
      gate-IsQuiet st (seconds_until_unlocked env.settings env.monotonic req.username st.throttle).1
        (record st {
          throttle = (seconds_until_unlocked env.settings env.monotonic req.username st.throttle).0;
        })
        refl refl
