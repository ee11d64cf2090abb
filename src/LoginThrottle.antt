-- ===== src/LoginThrottle.antt =====
-- backend/app/login_throttle.py: failed logins per username, and the lockout. Clock readings and
-- durations are in ticks of the monotonic clock.
mod Bounded
mod Flood
mod Lockout
mod Tests
use perchtail.Prelude.{
  ℕ, suc, ◌+◌, ◌-◌, Bool, true, false, not, Option, none, some, String, List, [], ◌∷◌, ◌++◌, ltb,
  leb, length, filter, if◌then◌else◌, string_eq,
}
use perchtail.Prelude.Table.{get, remove, replace}

abbrev pub max_tracked_usernames : ℕ
max_tracked_usernames = 10_000

-- `login_lockout_seconds` and `login_max_attempts`
pub record Settings : Type 0 where
  pub lockout : ℕ
  pub max_attempts : ℕ

-- `_AttemptState`, with the key that it is stored under
pub record AttemptState : Type 0 where
  pub username : String
  pub failures : ℕ
  pub locked_until : Option ℕ
  pub last_failure : ℕ

abbrev pub State : Type 0
State = List AttemptState

abbrev pub entry_of : String → State → Option AttemptState
entry_of = get (λ (e : AttemptState). e.username)

abbrev pub drop_entry : String → State → State
drop_entry = remove (λ (e : AttemptState). e.username)

-- `now - last_failure >= window`, with the subtraction moved over
pub is_idle : AttemptState → ℕ → ℕ → Bool
is_idle e now window = elim e.locked_until [
  | some until ↦ leb until now
  | none ↦ leb (e.last_failure + window) now
]

prune : ℕ → ℕ → State → State
prune now window state = filter (λ e. not (is_idle e now window)) state

pub has_room : ℕ → ℕ → State → Bool × State
has_room now window state =
    if ltb (length state) max_tracked_usernames
    then (true, state)
    else (let state' = prune now window state in
        (ltb (length state') max_tracked_usernames, state'))

-- The seconds to wait, or `none` where a login may be tried.
unfoldable pub seconds_until_unlocked : Settings → ℕ → String → State → State × Option ℕ
seconds_until_unlocked settings now username state = elim (entry_of username state) [
  | none ↦
      let (room, state') = has_room now settings.lockout state in
      (state', if room then none else some settings.lockout)
  | some e ↦ elim e.locked_until [
    | none ↦ (state, none)
    | some until ↦
        if leb until now then (drop_entry username state, none) else (state, some (until - now))
  ]
]

-- the update of an entry at the end of `record_failure`
failed : Settings → ℕ → AttemptState → AttemptState
failed settings now e = record e {
  failures = e.failures + 1;
  last_failure = now;
  locked_until =
      if leb settings.max_attempts (e.failures + 1)
      then some (now + settings.lockout)
      else e.locked_until;
}

abbrev fresh : String → AttemptState
fresh username = record { username = username; failures = 0; locked_until = none; last_failure = 0 }

-- the branch without an entry: a full table tracks nobody new
track : Settings → ℕ → String → State → State
track settings now username state =
    let (room, state') = has_room now settings.lockout state in
    if room then state' ++ failed settings now (fresh username) ∷ [] else state'

pub record_failure : Settings → ℕ → String → State → State
record_failure settings now username state = elim (entry_of username state) [
  | none ↦ track settings now username state
  | some e ↦
      if is_idle e now settings.lockout
      then track settings now username (drop_entry username state)
      else replace (λ (x : AttemptState). x.username) (failed settings now e) state
]

pub record_success : String → State → State
record_success username state = drop_entry username state

pub data Event : Type 0 where
  check failure success : ℕ → String → Event

-- What a login attempt does to the table: a check, then a failure or a success.
pub handle : Settings → Event → State → State
handle settings (check now username) state = (seconds_until_unlocked settings now username state).0
handle settings (failure now username) state = record_failure settings now username state
handle settings (success now username) state = record_success username state

pub run : Settings → List Event → State → State
run settings [] state = state
run settings (e ∷ es) state = run settings es (handle settings e state)
