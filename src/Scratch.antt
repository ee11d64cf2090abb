-- ===== src/Scratch.antt =====
-- backend/app/scratch.py: the scratch store, its entries in the order of the dict and the files under
-- its root. A file's name is its text, times are readings of the monotonic clock.
mod Held
pub mod Release
mod Tests
use perchtail.Prelude.{
  ℕ, suc, ◌+◌, ◌-◌, Bool, Option, none, some, List, [], ◌∷◌, ◌++◌, ltb, leb, filter, if◌then◌else◌,
  ◌==◌, nat_eq, list_eq, length, is_some, Eq,
}
use perchtail.Prelude.Table.{get, remove, replace}
use perchtail.Model.{Text}

pub record ScratchEntry : Type 0 where
  pub key : Text
  pub paths : List Text
  pub refcount : ℕ
  pub last_accessed : ℕ

pub record File : Type 0 where
  pub path : Text
  pub bytes : ℕ

pub record ScratchStore : Type 0 where
  pub max_bytes : ℕ
  pub entries : List ScratchEntry
  pub files : List File

instance abbrev pub text_eq : Eq Text
text_eq = list_eq

abbrev pub find : Text → List ScratchEntry → Option ScratchEntry
find = get (λ (e : ScratchEntry). e.key)

abbrev pub put : ScratchEntry → List ScratchEntry → List ScratchEntry
put = replace (λ (e : ScratchEntry). e.key)

-- `unlink(missing_ok=True)` for every path
abbrev pub unlink_all : List Text → List File → List File
unlink_all [] files = files
unlink_all (p ∷ ps) files = unlink_all ps (remove (λ (f : File). f.path) p files)

-- `size`: the bytes of the files that exist
abbrev pub paths_size : List Text → List File → ℕ
paths_size [] files = 0
paths_size (p ∷ ps) files =
    (elim (get (λ (f : File). f.path) p files) [ none ↦ 0 | some f ↦ f.bytes ])
    + paths_size ps files

abbrev pub size : List File → ScratchEntry → ℕ
size files e = paths_size e.paths files

-- `{key}-{uuid}`
abbrev pub scratch_path : Text → Text → Text
scratch_path key uuid = key ++ 45 ∷ uuid

-- the entry that `acquire` finds or makes
abbrev pub acquired : Text → Text → ℕ → ScratchEntry → ScratchEntry
acquired key uuid now e = record e {
  paths = e.paths ++ scratch_path key uuid ∷ [];
  refcount = e.refcount + 1;
  last_accessed = now;
}

abbrev pub new_entry : Text → ℕ → ScratchEntry
new_entry key now = record { key = key; paths = []; refcount = 0; last_accessed = now }

unfoldable pub acquire : Text → Text → ℕ → ScratchStore → Text × ScratchStore
acquire key uuid now s = elim (find key s.entries) [
  | none ↦ (
    scratch_path key uuid,
    record s { entries = s.entries ++ acquired key uuid now (new_entry key now) ∷ [] },
  )
  | some e ↦ (scratch_path key uuid, record s { entries = put (acquired key uuid now e) s.entries })
]

-- `_delete`
abbrev pub delete : ScratchEntry → ScratchStore → ScratchStore
delete e s = record s {
  entries = remove (λ (x : ScratchEntry). x.key) e.key s.entries;
  files = unlink_all e.paths s.files;
}

-- `max(0, refcount - 1)`
abbrev pub released : ScratchEntry → ScratchEntry
released e = record e { refcount = e.refcount - 1 }

unfoldable pub release : Text → ScratchStore → ScratchStore
release key s = elim (find key s.entries) [
  | none ↦ s
  | some e ↦
      if e.refcount - 1 == 0
      then delete (released e) s
      else record s { entries = put (released e) s.entries }
]

pub touch : Text → ℕ → ScratchStore → ScratchStore
touch key now s = elim (find key s.entries) [
  | none ↦ s
  | some e ↦ record s { entries = put (record e { last_accessed = now }) s.entries }
]

-- `now - last_accessed > idle_seconds`, with the subtraction moved over
abbrev pub is_stale : ℕ → ℕ → ScratchEntry → Bool
is_stale idle_seconds now e = ltb (e.last_accessed + idle_seconds) now

abbrev pub delete_all : List ScratchEntry → ScratchStore → ScratchStore
delete_all [] s = s
delete_all (e ∷ es) s = delete_all es (delete e s)

pub sweep_idle : ℕ → ℕ → ScratchStore → ℕ × ScratchStore
sweep_idle idle_seconds now s =
    let stale = filter (is_stale idle_seconds now) s.entries in (length stale, delete_all stale s)

abbrev pub entries_size : List File → List ScratchEntry → ℕ
entries_size files [] = 0
entries_size files (e ∷ es) = size files e + entries_size files es

pub total_bytes : ScratchStore → ℕ
total_bytes s = entries_size s.files s.entries

-- `sorted(..., key=last_accessed)` is stable
abbrev pub insert_oldest : ScratchEntry → List ScratchEntry → List ScratchEntry
insert_oldest e [] = e ∷ []
insert_oldest e (x ∷ xs) =
    let rest = insert_oldest e xs in
    if leb e.last_accessed x.last_accessed then e ∷ x ∷ xs else x ∷ rest

abbrev pub by_last_accessed : List ScratchEntry → List ScratchEntry
by_last_accessed [] = []
by_last_accessed (e ∷ es) = insert_oldest e (by_last_accessed es)

-- the loop of `enforce_size_guard` over the candidates
pub evict : ℕ → List ScratchEntry → ScratchStore → ℕ × ScratchStore
evict total [] s = (0, s)
evict total (e ∷ es) s =
    let (n, s') = evict (total - size s.files e) es (delete e s) in
    if leb total s.max_bytes then (0, s) else (suc n, s')

abbrev pub is_unused : ScratchEntry → Bool
is_unused e = e.refcount == 0

pub enforce_size_guard : ScratchStore → ℕ × ScratchStore
unfolding evict total_bytes
enforce_size_guard s =
    if leb (total_bytes s) s.max_bytes
    then (0, s)
    else evict (total_bytes s) (by_last_accessed (filter is_unused s.entries)) s

-- A fetch writes its bytes into the path it was given.
abbrev pub write : Text → ℕ → ScratchStore → ScratchStore
write path bytes s = record s {
  files = remove (λ (f : File). f.path) path s.files ++ record { path = path; bytes = bytes } ∷ [];
}

pub data Call : Type 0 where
  open_viewer : Text → Text → ℕ → Call
  close_viewer : Text → Call
  touch_viewer : Text → ℕ → Call
  write_file : Text → ℕ → Call
  idle_sweep : ℕ → ℕ → Call
  size_guard : Call

-- The calls that reach the store: the archive endpoints' and the two scheduled jobs.
pub call : Call → ScratchStore → ScratchStore
call (open_viewer key uuid now) s = (acquire key uuid now s).1
call (close_viewer key) s = release key s
call (touch_viewer key now) s = touch key now s
call (write_file path bytes) s = write path bytes s
call (idle_sweep idle_seconds now) s = (sweep_idle idle_seconds now s).1
call size_guard s = (enforce_size_guard s).1

pub calls : List Call → ScratchStore → ScratchStore
calls [] s = s
calls (c ∷ cs) s = calls cs (call c s)
