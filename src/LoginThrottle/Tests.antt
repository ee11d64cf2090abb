-- ===== src/LoginThrottle/Tests.antt =====
-- The throttle on concrete attempts.
use mathlib.Core.Bool.{false≢true}
use perchtail.Prelude.{==_iff, ◌≡◌, refl, false, none, some, [], ◌∷◌, arith, string_eq}
use perchtail.Prelude.Table.{get}
use perchtail.LoginThrottle.{
  Settings, AttemptState, State, entry_of, is_idle, check, failure, success, run,
  seconds_until_unlocked,
}
use perchtail.LoginThrottle.Bounded.{IsBounded, run-IsBounded}
use perchtail.LoginThrottle.Flood.{run-keeps}
use perchtail.LoginThrottle.Lockout.{failures_at, lockout}

abbrev settings : Settings
settings = record { lockout = 60; max_attempts = 3 }

abbrev tried : AttemptState
tried = record { username = "alice"; failures = 1; locked_until = none; last_failure = 100 }

abbrev state : State
state = tried ∷ []

tried-get : entry_of "alice" state ≡ some tried
unfolding get
tried-get = refl

run-IsBounded_example :
    IsBounded (run settings (failure 110 "bob" ∷ check 111 "alice" ∷ success 112 "bob" ∷ []) state)
run-IsBounded_example =
    run-IsBounded settings (failure 110 "bob" ∷ check 111 "alice" ∷ success 112 "bob" ∷ []) state
      (omega arith)

live : is_idle tried 110 60 ≡ false
unfolding is_idle
live = refl

run-keeps_example :
    entry_of "alice" (run settings (failure 110 "bob" ∷ failure 110 "carol" ∷ []) state)
    ≡ some tried
run-keeps_example =
    run-keeps settings (failure 110 "bob" ∷ failure 110 "carol" ∷ []) state "alice" tried tried-get
      (
        (λ h. false≢true ((==_iff "bob" "alice").1 h), live),
        ((λ h. false≢true ((==_iff "carol" "alice").1 h), live), tt),
      )

lockout_example :
    (seconds_until_unlocked settings 140 "bob"
      (run settings (failures_at "bob" (110 ∷ 120 ∷ 130 ∷ [])) state)).1
    ≡ some 50
unfolding get
lockout_example =
    lockout settings "bob" 110 (120 ∷ 130 ∷ []) state 140 tt (omega arith)
      (omega arith, (omega arith, tt)) (omega arith) refl (omega arith)
