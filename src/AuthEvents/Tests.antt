-- ===== src/AuthEvents/Tests.antt =====
-- A failed login, its repetition within the window, and one after it.
use perchtail.Prelude.{◌+◌, ◌≡◌, none, List, [], ◌∷◌, arith, ℕ}
use perchtail.AuthEvents.{Call, login_failed, record_calls}
use perchtail.AuthEvents.Folded.{waiting, reported, no_events, record_calls-counts}

abbrev failures : List (ℕ × Call)
failures =
    (10, login_failed "alice" none "bad_credentials")
    ∷ (20, login_failed "alice" none "bad_credentials")
    ∷ (95, login_failed "alice" none "bad_credentials")
    ∷ []

record_calls-counts_example :
    waiting (record_calls failures no_events).recent
      + reported (record_calls failures no_events).rows
    ≡ 3
record_calls-counts_example = record_calls-counts failures (omega arith)
