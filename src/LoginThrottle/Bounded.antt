-- ===== src/LoginThrottle/Bounded.antt =====
-- The table is bounded.
use perchtail.Prelude.{
  ℕ, ◌+◌, ◌≤◌, ◌<◌, ◌≡◌, true, not, String, List, [], ◌∷◌, ◌++◌, length, length-filter,
  Option-cases, inl, inr, string_eq, arith,
}
use perchtail.Prelude.Table.{remove, replace}
use perchtail.LoginThrottle.{
  Settings, AttemptState, State, Event, check, failure, success, max_tracked_usernames, entry_of,
  drop_entry, is_idle, prune, has_room, seconds_until_unlocked, failed, fresh, track,
  record_failure, record_success, handle, run,
}

abbrev pub IsBounded : State → Type 0
IsBounded state = length state ≤ max_tracked_usernames

length-last {ℓ} : {A : Type ℓ} (xs : List A) (x : A) → length (xs ++ x ∷ []) ≡ length xs + 1
length-last [] x = omega arith
length-last (y ∷ ys) x = omega (arith, length-last ys x)

length-replace :
    (x : AttemptState) (state : State)
    → length (replace (λ (e : AttemptState). e.username) x state) ≡ length state
unfolding replace
length-replace x [] = omega arith
length-replace x (y ∷ ys) = omega (arith, length-replace x ys)

pub length-drop_entry :
    (username : String) (state : State) → length (drop_entry username state) ≤ length state
unfolding remove
length-drop_entry username state = length-filter _ state

has_room-length :
    (now window : ℕ) (state : State) → length (has_room now window state).1 ≤ length state
unfolding has_room prune
has_room-length now window state =
    ground (arith, length-filter (λ e. not (is_idle e now window)) state)

has_room-lt :
    (now window : ℕ) (state : State)
    → (has_room now window state).0 ≡ true
    → length (has_room now window state).1 < max_tracked_usernames
unfolding has_room
has_room-lt now window state h = ground arith

track-IsBounded :
    (s : Settings) (now : ℕ) (username : String) (state : State)
    → IsBounded state
    → IsBounded (track s now username state)
unfolding track
track-IsBounded s now username state h = ground (
  arith,
  has_room-length now s.lockout state,
  has_room-lt now s.lockout state,
  length-last (has_room now s.lockout state).1 (failed s now (fresh username)),
)

handle-IsBounded :
    (s : Settings) (e : Event) (state : State) → IsBounded state → IsBounded (handle s e state)
unfolding handle seconds_until_unlocked record_failure record_success
handle-IsBounded s (check now username) state h =
    ground (arith, has_room-length now s.lockout state, length-drop_entry username state)
handle-IsBounded s (failure now username) state h = elim (Option-cases (entry_of username state)) [
  | inl new ↦ ground (arith, track-IsBounded s now username state h)
  | inr (e, known) ↦ ground (
    arith,
    track-IsBounded s now username (drop_entry username state),
    length-drop_entry username state,
    length-replace (failed s now e) state,
  )
]
handle-IsBounded s (success now username) state h = ground (arith, length-drop_entry username state)

-- Whatever checks, failures and successes come in, the table never tracks more than the limit.
pub run-IsBounded :
    (s : Settings) (es : List Event) (state : State) → IsBounded state → IsBounded (run s es state)
unfolding run
run-IsBounded s [] state h = h
run-IsBounded s (e ∷ es) state h =
    run-IsBounded s es (handle s e state) (handle-IsBounded s e state h)
