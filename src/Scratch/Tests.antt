-- ===== src/Scratch/Tests.antt =====
-- The scratch store on concrete calls.
use perchtail.Prelude.{◌≡◌, ◌≤◌, refl, none, some, List, [], ◌∷◌, All, nat_eq, list_eq}
use perchtail.Prelude.Table.{get}
use perchtail.Scratch.{
  ScratchEntry, ScratchStore, find, Call, open_viewer, close_viewer, idle_sweep, calls,
  enforce_size_guard, release, released, text_eq,
}
use perchtail.Scratch.Held.{enforce_size_guard-calls}
use perchtail.Scratch.Release.{IsGone, release_lem}

abbrev two_viewers : ScratchEntry
two_viewers = record {
  key = 1 ∷ [];
  paths = (1 ∷ 45 ∷ 8 ∷ []) ∷ (1 ∷ 45 ∷ 9 ∷ []) ∷ [];
  refcount = 2;
  last_accessed = 10;
}

abbrev store : ScratchStore
store = record {
  max_bytes = 100;
  entries = two_viewers ∷ [];
  files = record { path = 1 ∷ 45 ∷ 8 ∷ []; bytes = 500 } ∷ [];
}

abbrev empty : ScratchStore
empty = record { max_bytes = 100; entries = []; files = [] }

abbrev session : List Call
session = open_viewer (1 ∷ []) (8 ∷ []) 10 ∷ close_viewer (1 ∷ []) ∷ idle_sweep 60 100 ∷ []

enforce_size_guard-calls_example :
    enforce_size_guard (calls session empty) ≡ (0, calls session empty)
enforce_size_guard-calls_example = enforce_size_guard-calls session empty refl

two_viewers-found : find (1 ∷ []) store.entries ≡ some two_viewers
unfolding get
two_viewers-found = refl

release_lem_example :
    (2 ≤ two_viewers.refcount
      → (find (1 ∷ []) (release (1 ∷ []) store).entries ≡ some (released two_viewers))
        × ((release (1 ∷ []) store).files ≡ store.files))
    × (two_viewers.refcount ≤ 1
        → (find (1 ∷ []) (release (1 ∷ []) store).entries ≡ none)
          × All (IsGone (release (1 ∷ []) store).files) two_viewers.paths)
release_lem_example = release_lem (1 ∷ []) store two_viewers two_viewers-found

two-missing : find (2 ∷ []) store.entries ≡ none
unfolding get
two-missing = refl
