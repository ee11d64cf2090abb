-- ===== src/LoginThrottle/Flood.antt =====
-- Attempts with other usernames do not touch a live entry.
use perchtail.Prelude.{
  ℕ, ◌≡◌, ◌≢◌, Bool, true, false, not, some, String, List, [], ◌∷◌, filter, All, Option-cases, inl,
  inr, string_eq, ==_iff, arith,
}
use perchtail.Prelude.Table.{get, get-key, get-remove, get-replace, get-append}
use perchtail.LoginThrottle.{
  Settings, AttemptState, State, Event, check, failure, success, entry_of, drop_entry, is_idle,
  prune, has_room, seconds_until_unlocked, failed, fresh, track, record_failure, record_success,
  handle, run,
}

abbrev pub time_of : Event → ℕ
time_of (check now username) = now
time_of (failure now username) = now
time_of (success now username) = now

abbrev pub name_of : Event → String
name_of (check now username) = username
name_of (failure now username) = username
name_of (success now username) = username

module _ (v : String) (e : AttemptState) where
  filter-keeps :
      (p : AttemptState → Bool) (state : State)
      → entry_of v state ≡ some e
      → p e ≡ true
      → entry_of v (filter p state) ≡ some e
  unfolding get
  filter-keeps p [] h k = h
  filter-keeps p (x ∷ xs) h k = ground (arith, filter-keeps p xs)

  has_room-keeps :
      (now window : ℕ) (state : State)
      → entry_of v state ≡ some e
      → is_idle e now window ≡ false
      → entry_of v (has_room now window state).1 ≡ some e
  unfolding has_room prune
  has_room-keeps now window state h k =
      ground (arith, filter-keeps (λ x. not (is_idle x now window)) state h)

  drop-keeps :
      (u : String) (state : State)
      → u ≢ v
      → entry_of v state ≡ some e
      → entry_of v (drop_entry u state) ≡ some e
  drop-keeps u state n h =
      ground (arith, get-remove (λ (x : AttemptState). x.username) v u state, ==_iff u v)

  track-keeps :
      (s : Settings) (now : ℕ) (u : String) (state : State)
      → entry_of v state ≡ some e
      → is_idle e now s.lockout ≡ false
      → entry_of v (track s now u state) ≡ some e
  unfolding track
  track-keeps s now u state h k = ground (
    arith,
    has_room-keeps now s.lockout state h k,
    get-append (λ (x : AttemptState). x.username) v (has_room now s.lockout state).1
        (failed s now (fresh u)),
  )

  handle-keeps :
      (s : Settings) (ev : Event) (state : State)
      → name_of ev ≢ v
      → is_idle e (time_of ev) s.lockout ≡ false
      → entry_of v state ≡ some e
      → entry_of v (handle s ev state) ≡ some e
  unfolding handle seconds_until_unlocked record_failure record_success failed
  handle-keeps s (check now u) state n k h =
      ground (arith, has_room-keeps now s.lockout state h k, drop-keeps u state n h)
  handle-keeps s (failure now u) state n k h = elim (Option-cases (entry_of u state)) [
    | inl new ↦ ground (arith, track-keeps s now u state h k)
    | inr (x, known) ↦ ground (
      arith,
      track-keeps s now u (drop_entry u state),
      drop-keeps u state n h,
      get-key (λ (y : AttemptState). y.username) u state x known,
      get-replace (λ (y : AttemptState). y.username) v (failed s now x) state,
      ==_iff x.username v,
    )
  ]
  handle-keeps s (success now u) state n k h = drop-keeps u state n h

-- Whatever attempts come in under other usernames, the entry of a username stays as it is, its
-- failure count and its lockout included, as long as it is not idle when they come.
pub run-keeps :
    (s : Settings) (es : List Event) (state : State) (v : String) (e : AttemptState)
    → entry_of v state ≡ some e
    → All (λ ev. (name_of ev ≢ v) × (is_idle e (time_of ev) s.lockout ≡ false)) es
    → entry_of v (run s es state) ≡ some e
unfolding run
run-keeps s [] state v e h k = h
run-keeps s (ev ∷ es) state v e h ((n, live), k) =
    run-keeps s es (handle s ev state) v e (handle-keeps v e s ev state n live h) k
