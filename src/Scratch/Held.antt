-- ===== src/Scratch/Held.antt =====
-- backend/app/scratch.py: every entry of a store that the calls reach is held by a viewer.
use perchtail.Prelude.{
  ℕ, ◌-◌, ◌≤◌, ◌≡◌, refl, Bool-cases, inl, inr, Option-cases, some, List, [], ◌∷◌, All, All-append,
  filter, arith, ◌==◌, nat_eq,
}
use perchtail.Prelude.Table.{get, remove, replace}
use perchtail.Model.{Text}
use perchtail.Scratch.{
  ScratchEntry, ScratchStore, find, put, acquire, acquired, delete, release, released, touch,
  sweep_idle, delete_all, is_unused, is_stale, enforce_size_guard, Call, open_viewer, close_viewer,
  touch_viewer, write_file, idle_sweep, size_guard, call, calls, text_eq,
}

abbrev pub IsHeld : List ScratchEntry → Type 0
IsHeld es = All (λ e. 1 ≤ e.refcount) es

find-IsHeld :
    (key : Text) (es : List ScratchEntry) (e : ScratchEntry)
    → IsHeld es
    → find key es ≡ some e
    → 1 ≤ e.refcount
unfolding get
find-IsHeld key [] e h g = ground arith
find-IsHeld key (x ∷ xs) e (h, k) g = ground (arith, find-IsHeld key xs e k)

put-IsHeld :
    (e : ScratchEntry) (es : List ScratchEntry) → 1 ≤ e.refcount → IsHeld es → IsHeld (put e es)
unfolding replace
put-IsHeld e [] h k = tt
put-IsHeld e (x ∷ xs) h (k, l) = (ground arith, put-IsHeld e xs h l)

remove-IsHeld :
    (key : Text) (es : List ScratchEntry)
    → IsHeld es
    → IsHeld (remove (λ (x : ScratchEntry). x.key) key es)
unfolding remove
remove-IsHeld key [] h = tt
remove-IsHeld key (x ∷ xs) (h, k) = elim (Bool-cases (x.key == key)) [
  | inl e ↦ rw e (remove-IsHeld key xs k)
  | inr e ↦ rw e (h, remove-IsHeld key xs k)
]

delete_all-IsHeld :
    (ds : List ScratchEntry) (s : ScratchStore)
    → IsHeld s.entries
    → IsHeld (delete_all ds s).entries
delete_all-IsHeld [] s h = h
delete_all-IsHeld (d ∷ ds) s h = delete_all-IsHeld ds (delete d s) (remove-IsHeld d.key s.entries h)

filter-is_unused : (es : List ScratchEntry) → IsHeld es → filter is_unused es ≡ []
filter-is_unused [] h = refl
filter-is_unused (e ∷ es) (h, k) = ground (arith, filter-is_unused es k)

-- The size guard has no candidate where every entry is held.
enforce_size_guard-IsHeld : (s : ScratchStore) → IsHeld s.entries → enforce_size_guard s ≡ (0, s)
unfolding enforce_size_guard
enforce_size_guard-IsHeld s h = rw (filter-is_unused s.entries h) (ground arith)

acquire-IsHeld :
    (key uuid : Text) (now : ℕ) (s : ScratchStore)
    → IsHeld s.entries
    → IsHeld (acquire key uuid now s).1.entries
unfolding acquire
acquire-IsHeld key uuid now s h = elim (Option-cases (find key s.entries)) [
  | inl e ↦ rw (acquire, e) (All-append (λ e. 1 ≤ e.refcount) s.entries _ h (omega arith, tt))
  | inr (x, e) ↦ rw (acquire, e) (put-IsHeld (acquired key uuid now x) s.entries (omega arith) h)
]

release-IsHeld : (key : Text) (s : ScratchStore) → IsHeld s.entries → IsHeld (release key s).entries
unfolding release
release-IsHeld key s h = elim (Option-cases (find key s.entries)) [
  | inl e ↦ rw (release, e) h
  | inr (x, e) ↦ elim (Bool-cases (x.refcount - 1 == 0)) [
    | inl z ↦ rw (release, e) (rw z (remove-IsHeld x.key s.entries h))
    | inr z ↦ rw (release, e) (rw z (put-IsHeld (released x) s.entries (ground arith) h))
  ]
]

touch-IsHeld :
    (key : Text) (now : ℕ) (s : ScratchStore) → IsHeld s.entries → IsHeld (touch key now s).entries
unfolding touch
touch-IsHeld key now s h = elim (Option-cases (find key s.entries)) [
  | inl e ↦ rw (touch, e) h
  | inr (x, e) ↦
      rw (touch, e)
        (put-IsHeld (record x { last_accessed = now }) s.entries (find-IsHeld key s.entries x h e)
          h)
]

sweep_idle-IsHeld :
    (idle_seconds now : ℕ) (s : ScratchStore)
    → IsHeld s.entries
    → IsHeld (sweep_idle idle_seconds now s).1.entries
unfolding sweep_idle
sweep_idle-IsHeld idle_seconds now s h =
    delete_all-IsHeld (filter (is_stale idle_seconds now) s.entries) s h

call-IsHeld : (c : Call) (s : ScratchStore) → IsHeld s.entries → IsHeld (call c s).entries
unfolding call
call-IsHeld (open_viewer key uuid now) s h = acquire-IsHeld key uuid now s h
call-IsHeld (close_viewer key) s h = release-IsHeld key s h
call-IsHeld (touch_viewer key now) s h = touch-IsHeld key now s h
call-IsHeld (write_file path bytes) s h = h
call-IsHeld (idle_sweep idle_seconds now) s h = sweep_idle-IsHeld idle_seconds now s h
call-IsHeld size_guard s h = rw (call, enforce_size_guard-IsHeld s h) h

-- Every entry of a store that any calls reach from a held one has at least one viewer, so a release by
-- its last viewer has already deleted it.
pub calls-IsHeld :
    (cs : List Call) (s : ScratchStore) → IsHeld s.entries → IsHeld (calls cs s).entries
unfolding calls
calls-IsHeld [] s h = h
calls-IsHeld (c ∷ cs) s h = calls-IsHeld cs (call c s) (call-IsHeld c s h)

-- The size guard deletes nothing in a store that the calls reach from one that has no entry, whatever
-- the total size and the limit are.
pub enforce_size_guard-calls :
    (cs : List Call) (s : ScratchStore)
    → s.entries ≡ []
    → enforce_size_guard (calls cs s) ≡ (0, calls cs s)
enforce_size_guard-calls cs s h =
    enforce_size_guard-IsHeld (calls cs s) (calls-IsHeld cs s (rw h tt))
