-- ===== src/LoginThrottle/Lockout.antt =====
-- Failures in a row lock the username.
use perchtail.Prelude.{
  ℕ, ◌+◌, ◌-◌, ◌<◌, ◌≡◌, refl, sym, ◌∙◌, subst, true, false, Bool-cases, inl, inr, Option, none,
  some, String, List, [], ◌∷◌, length, leb, ltb, if◌then◌else◌, ◌==◌, string_eq, ==_iff, ==_refl,
  arith,
}
use perchtail.Prelude.Table.{get-key, get-replace, get-append, get-remove}
use perchtail.LoginThrottle.{
  Settings, AttemptState, State, Event, failure, entry_of, drop_entry, is_idle, has_room,
  max_tracked_usernames, seconds_until_unlocked, failed, fresh, track, record_failure, handle, run,
}
use perchtail.LoginThrottle.Bounded.{length-drop_entry}

-- A failure of a live entry counts on it.
record_failure-live :
    (s : Settings) (now : ℕ) (u : String) (state : State) (e : AttemptState)
    → entry_of u state ≡ some e
    → is_idle e now s.lockout ≡ false
    → entry_of u (record_failure s now u state) ≡ some (failed s now e)
unfolding record_failure
record_failure-live s now u state e h k =
    let n : e.username ≡ u = get-key (λ (x : AttemptState). x.username) u state e h in
    let n' : (failed s now e).username ≡ u = unfold failed in n in
    ground (
      arith,
      get-replace (λ (x : AttemptState). x.username) u (failed s now e) state,
      ==_iff (failed s now e).username u,
    )

-- Failures at these times, each less than a lockout after the one before.
abbrev pub Within : ℕ → ℕ → List ℕ → Type 0
Within window last [] = Unit
Within window last (t ∷ ts) = (t < last + window) × Within window t ts

abbrev pub last_of : ℕ → List ℕ → ℕ
last_of last [] = last
last_of last (t ∷ ts) = last_of t ts

abbrev pub failures_at : String → List ℕ → List Event
failures_at u [] = []
failures_at u (t ∷ ts) = failure t u ∷ failures_at u ts

locks :
    (s : Settings) (u : String) (ts : List ℕ) (state : State) (e : AttemptState)
    → entry_of u state ≡ some e
    → e.locked_until ≡ none
    → Within s.lockout e.last_failure ts
    → e.failures < s.max_attempts
    → e.failures + length ts ≡ s.max_attempts
    → (f : AttemptState) × (entry_of u (run s (failures_at u ts) state) ≡ some f)
      × (f.locked_until ≡ some (last_of e.last_failure ts + s.lockout))
unfolding run handle
locks s u [] state e h k w m n = absurd (omega arith)
locks s u (t ∷ []) state e h k (w, ws) m n =
    let live : is_idle e t s.lockout ≡ false = unfold is_idle in ground arith in
    (failed s t e, record_failure-live s t u state e h live, unfold failed in ground arith)
locks s u (t ∷ t' ∷ ts) state e h k (w, ws) m n =
    let live : is_idle e t s.lockout ≡ false = unfold is_idle in ground arith in
    locks s u (t' ∷ ts) (record_failure s t u state) (failed s t e)
      (record_failure-live s t u state e h live) (unfold failed in ground arith)
      (unfold failed in ws) (unfold failed in ground arith) (unfold failed in ground arith)

-- The username is not locked.
abbrev pub IsUnlocked : Option AttemptState → Type 0
IsUnlocked none = Unit
IsUnlocked (some e) = e.locked_until ≡ none

-- The failures that still count against a username at a time.
abbrev pub counted : Settings → ℕ → Option AttemptState → ℕ
counted s now none = 0
counted s now (some e) = if is_idle e now s.lockout then 0 else e.failures

-- A username with no failure that counts needs a place in the table.
abbrev pub CanTrack : Settings → ℕ → State → Option AttemptState → Type 0
CanTrack s now state none = length state < max_tracked_usernames
CanTrack s now state (some e) =
    is_idle e now s.lockout ≡ true → length state < max_tracked_usernames

-- The entry after one more failure.
abbrev After : Settings → ℕ → ℕ → AttemptState → Type 0
After s now n f =
    (f.failures ≡ n + 1)
    × (f.last_failure ≡ now)
    × (f.locked_until ≡ (if leb s.max_attempts (n + 1) then some (now + s.lockout) else none))

track-entry_of :
    (s : Settings) (now : ℕ) (u : String) (state : State)
    → entry_of u state ≡ none
    → length state < max_tracked_usernames
    → entry_of u (track s now u state) ≡ some (failed s now (fresh u))
unfolding track has_room
track-entry_of s now u state h l =
    let room : ltb (length state) max_tracked_usernames ≡ true = ground arith in
    let same : ((failed s now (fresh u)).username == u) ≡ true = unfold failed in ==_refl u in
    rw room (
      get-append (λ (x : AttemptState). x.username) u state (failed s now (fresh u))
      ∙ rw h (rw same refl))

drop_entry-none : (u : String) (state : State) → entry_of u (drop_entry u state) ≡ none
drop_entry-none u state =
    get-remove (λ (x : AttemptState). x.username) u u state ∙ rw (==_refl u) refl

failed-After :
    (s : Settings) (now : ℕ) (e : AttemptState)
    → e.locked_until ≡ none
    → After s now e.failures (failed s now e)
unfolding failed
failed-After s now e h = (refl, refl, ground (arith, h))

failure-After :
    (s : Settings) (now : ℕ) (u : String) (state : State) (o : Option AttemptState)
    → entry_of u state ≡ o
    → IsUnlocked o
    → CanTrack s now state o
    → (f : AttemptState) × (entry_of u (record_failure s now u state) ≡ some f)
      × After s now (counted s now o) f
unfolding record_failure
failure-After s now u state none h k c = (
  failed s now (fresh u),
  rw (record_failure, h) (track-entry_of s now u state h c),
  failed-After s now (fresh u) refl,
)
failure-After s now u state (some e) h k c = elim (Bool-cases (is_idle e now s.lockout)) [
  | inl i ↦
      let l = length-drop_entry u state in
      let n = c i in
      (
        failed s now (fresh u),
        rw (record_failure, h)
            (rw i (
              track-entry_of s now u (drop_entry u state) (drop_entry-none u state) (omega arith))),
        rw i (failed-After s now (fresh u) refl),
      )
  | inr i ↦ (failed s now e, record_failure-live s now u state e h i, rw i (failed-After s now e k))
]

locked :
    (s : Settings) (u : String) (t : ℕ) (ts : List ℕ) (state : State)
    → IsUnlocked (entry_of u state)
    → CanTrack s t state (entry_of u state)
    → Within s.lockout t ts
    → counted s t (entry_of u state) < s.max_attempts
    → counted s t (entry_of u state) + length (t ∷ ts) ≡ s.max_attempts
    → (f : AttemptState) × (entry_of u (run s (failures_at u (t ∷ ts)) state) ≡ some f)
      × (f.locked_until ≡ some (last_of t ts + s.lockout))
unfolding run handle
locked s u t [] state k c w m n =
    let (f, found, (_, _, until)) = failure-After s t u state (entry_of u state) refl k c in
    let full : leb s.max_attempts (counted s t (entry_of u state) + 1) ≡ true = ground arith in
    (f, found, until ∙ rw full refl)
locked s u t (t' ∷ ts) state k c w m n =
    let (f, found, (failures, last, until)) =
      failure-After s t u state (entry_of u state) refl k c in
    let more : leb s.max_attempts (counted s t (entry_of u state) + 1) ≡ false = ground arith in
    let (g, found', until') =
      locks s u (t' ∷ ts) (record_failure s t u state) f found (until ∙ rw more refl)
        (subst (λ x. Within s.lockout x (t' ∷ ts)) (sym last) w) (omega arith) (omega arith) in
    (g, found', until')

-- When the failures of a username that is not locked reach the limit, it is refused from the last
-- failure until a lockout later, and told how long it has to wait. This counts from any state of the
-- table: from 0 where the username has no entry or an idle one and the table is not full, else from
-- the failures of its entry; each failure is less than a lockout after the one before.
pub lockout :
    (s : Settings) (u : String) (t : ℕ) (ts : List ℕ) (state : State) (now : ℕ)
    → IsUnlocked (entry_of u state)
    → CanTrack s t state (entry_of u state)
    → Within s.lockout t ts
    → counted s t (entry_of u state) < s.max_attempts
    → counted s t (entry_of u state) + length (t ∷ ts) ≡ s.max_attempts
    → now < last_of t ts + s.lockout
    → (seconds_until_unlocked s now u (run s (failures_at u (t ∷ ts)) state)).1
      ≡ some (last_of t ts + s.lockout - now)
unfolding seconds_until_unlocked
lockout s u t ts state now k c w m n l =
    let (f, found, until) = locked s u t ts state k c w m n in ground arith
