-- ===== src/Scratch/Release.antt =====
-- backend/app/scratch.py: what a release does to the entry and to its files, and that it undoes an
-- acquire.
use perchtail.Prelude.{
  ℕ, ◌-◌, ◌≤◌, ◌≡◌, refl, true, false, none, some, List, [], ◌∷◌, ◌++◌, All, arith, ◌==◌, ==_refl,
  nat_eq,
}
use perchtail.Prelude.Table.{get, get-key, get-remove, get-replace, remove}
use perchtail.Model.{Text}
use perchtail.Scratch.{
  ScratchEntry, File, ScratchStore, find, acquire, acquired, new_entry, release, released,
  unlink_all, text_eq,
}

abbrev pub IsGone : List File → Text → Type 0
IsGone files p = get (λ (f : File). f.path) p files ≡ none

unlink_all-IsGone :
    (p : Text) (ps : List Text) (files : List File)
    → IsGone files p
    → IsGone (unlink_all ps files) p
unlink_all-IsGone p [] files h = h
unlink_all-IsGone p (q ∷ ps) files h =
    unlink_all-IsGone p ps _ (ground (arith, get-remove (λ (f : File). f.path) p q files))

unlink_all-All : (ps : List Text) (files : List File) → All (IsGone (unlink_all ps files)) ps
unlink_all-All [] files = tt
unlink_all-All (p ∷ ps) files = (
  unlink_all-IsGone p ps _ (ground (arith, get-remove (λ (f : File). f.path) p p files, ==_refl p)),
  unlink_all-All ps _,
)

-- A release of a key with an entry: while other viewers are left, the entry stays with one viewer less
-- and no file changes; by the last viewer, the entry goes and none of its files is left.
pub release_lem :
    (key : Text) (s : ScratchStore) (e : ScratchEntry)
    → find key s.entries ≡ some e
    → (2 ≤ e.refcount
        → (find key (release key s).entries ≡ some (released e))
          × ((release key s).files ≡ s.files))
      × (e.refcount ≤ 1
          → (find key (release key s).entries ≡ none) × All (IsGone (release key s).files) e.paths)
unfolding release
release_lem key s e h =
    let k : e.key ≡ key = get-key (λ (x : ScratchEntry). x.key) key s.entries e h in
    (
      λ two.
          let z : (e.refcount - 1 == 0) ≡ false = ground arith in
          (
            rw (release, h)
                (rw z (
                  ground (
                    arith,
                    get-replace (λ (x : ScratchEntry). x.key) key (released e) s.entries,
                    ==_refl key,
                    h,
                    k,
                  ))),
            rw (release, h) (rw z refl),
          ),
      λ one.
          let z : (e.refcount - 1 == 0) ≡ true = ground arith in
          (
            rw (release, h)
                (rw z (
                  ground (
                    arith,
                    get-remove (λ (x : ScratchEntry). x.key) key e.key s.entries,
                    ==_refl key,
                    k,
                  ))),
            rw (release, h) (rw z (unlink_all-All e.paths s.files)),
          ),
    )

remove-missing :
    (key : Text) (es : List ScratchEntry)
    → find key es ≡ none
    → remove (λ (x : ScratchEntry). x.key) key es ≡ es
unfolding get remove
remove-missing key [] h = refl
remove-missing key (x ∷ xs) h = ground (arith, remove-missing key xs)

find-append :
    (es : List ScratchEntry) (e : ScratchEntry)
    → find e.key es ≡ none
    → find e.key (es ++ e ∷ []) ≡ some e
unfolding get
find-append [] e h = ground (arith, ==_refl e.key)
find-append (x ∷ xs) e h = ground (arith, find-append xs e)

remove-append :
    (es : List ScratchEntry) (e : ScratchEntry)
    → find e.key es ≡ none
    → remove (λ (x : ScratchEntry). x.key) e.key (es ++ e ∷ []) ≡ es
unfolding get remove
remove-append [] e h = ground (arith, ==_refl e.key)
remove-append (x ∷ xs) e h = ground (arith, remove-append xs e)

-- A viewer who opens and closes a file that nobody else has open leaves the entries as they were, and no
-- file at the path it was given.
pub release-acquire :
    (key uuid : Text) (now : ℕ) (s : ScratchStore)
    → find key s.entries ≡ none
    → ((release key (acquire key uuid now s).1).entries ≡ s.entries)
      × IsGone (release key (acquire key uuid now s).1).files (acquire key uuid now s).0
unfolding acquire release
release-acquire key uuid now s h =
    let e = acquired key uuid now (new_entry key now) in
    let f = find-append s.entries e h in
    let r = remove-append s.entries e h in
    (
      rw (acquire, h) (rw (release, f) r),
      rw (acquire, h) (rw (release, f) (unlink_all-All e.paths s.files).0),
    )
