-- ===== src/Archive/Served.antt =====
-- backend/app/api/archive.py: what a request for a file reads, and what it leaves in the scratch store.
use perchtail.Prelude.{
  ℕ, ◌≡◌, refl, String, Bool, true, false, ◌&&◌, not, Bool-cases, inl, inr, Option, none, some,
  List, [], ◌∷◌, ◌++◌, arith, ◌==◌, ==_iff, list_eq, nat_eq, and_true, ◌≢◌,
}
use perchtail.Model.{Text, AuditEvent}
use perchtail.Scratch.{ScratchStore, find, acquire}
use perchtail.Scratch.Release.{release-acquire}
use perchtail.Archive.{
  Failure, Outcome, done, raise, ◌>>=◌, ◌>>◌, require, Reads, Content, direct, Site, visible,
  is_safe, virtual_path, fetch_member, fetch, materialize, needs_scratch, settle, resolve_content,
  resolve_at, require_safe_path, guarded, event, audited, read_file,
}
use perchtail.Archive.Names.{normalize_member_name, base_name, is_archive}

>>=-eq-done :
    {A B : Type 0} {y : B} (m : Outcome A) (f : A → Outcome B)
    → (m >>= f) ≡ done y
    → (x : A) × (m ≡ done x) × (f x ≡ done y)
>>=-eq-done (done a) f h = (a, refl, h)
>>=-eq-done (raise e) f h = ground (arith, h)

require-eq-done :
    (b : Bool) (code : ℕ) (detail : String) (u : Unit {0})
    → require b code detail ≡ done u
    → b ≡ true
require-eq-done true code detail u h = refl
require-eq-done false code detail u h = ground (arith, h)

module _ (site : Site) where
  -- the rules show the member under its normalized name
  abbrev pub IsMemberVisible : Text → Option Text → Type 0
  IsMemberVisible path none = Unit
  IsMemberVisible path (some member) =
      visible site (virtual_path path (normalize_member_name member)) ≡ true

  materialize-IsMemberVisible :
      (path : Text) (member : Option Text) (r : Text × ℕ)
      → materialize site path member ≡ done r
      → IsMemberVisible path member
  unfolding materialize fetch fetch_member
  materialize-IsMemberVisible path none r e = tt
  materialize-IsMemberVisible path (some member) r e =
      let (_, _, e1) = >>=-eq-done (require (visible site path) 404 "not found") _ e in
      let (_, _, e2) = >>=-eq-done (require site.is_allowed 403 _) _ e1 in
      let (_, _, e3) =
        >>=-eq-done (require (is_archive (base_name path)) 400 "not an archive") _ e2 in
      let (u, s, _) =
        >>=-eq-done
          (require
            (not (normalize_member_name member == [])
              && visible site (virtual_path path (normalize_member_name member)))
            404 "not found")
          _ e3 in
      (and_true _ _ (require-eq-done _ 404 "not found" u s)).1

  settle-done :
      (key destination : Text) (store : ScratchStore) (r : Outcome (Text × ℕ)) (c : Content)
      → (settle site key destination store r).0 ≡ done c
      → (x : Text × ℕ) × (r ≡ done x)
  unfolding settle
  settle-done key destination store (done x) c e = (x, refl)
  settle-done key destination store (raise f) c e = ground (arith, e)

  -- What is needed for a content to be served.
  abbrev pub IsShown : Text → Option Text → Type 0
  IsShown path member = (path ≢ []) × (visible site path ≡ true) × IsMemberVisible path member

  resolve_at-IsMemberVisible :
      (v b : Bool) (path : Text) (member : Option Text) (uuid : Text) (now : ℕ)
      (store : ScratchStore) (c : Content)
      → needs_scratch site path member ≡ b
      → (resolve_at site v b path member uuid now store).0 ≡ done c
      → (v ≡ true) × IsMemberVisible path member
  unfolding resolve_at
  resolve_at-IsMemberVisible false b path member uuid now store c n e = ground (arith, e)
  resolve_at-IsMemberVisible true b path none uuid now store c n e = (refl, tt)
  resolve_at-IsMemberVisible true false path (some m) uuid now store c n e =
      (refl, ground (arith, n))
  resolve_at-IsMemberVisible true true path (some m) uuid now store c n e =
      let key = site.scratch_key path (some m) in
      let given = acquire key uuid now store in
      let (x, fetched) = settle-done key given.0 given.1 (materialize site path (some m)) c e in
      (refl, materialize-IsMemberVisible path (some m) x fetched)

  resolve_content-IsShown :
      (path : Text) (member : Option Text) (uuid : Text) (now : ℕ) (store : ScratchStore)
      (c : Content)
      → (resolve_content site path member uuid now store).0 ≡ done c
      → IsShown path member
  unfolding resolve_content
  resolve_content-IsShown path member uuid now store c e = elim (Bool-cases (path == [])) [
    | inl p ↦ ground (arith, rw (resolve_content, p) at e)
    | inr p ↦
        let (v, m) =
          resolve_at-IsMemberVisible (visible site path) (needs_scratch site path member) path
            member uuid now store c refl (rw (resolve_content, p) at e) in
        (ground (arith, p, ==_iff path []), v, m)
  ]

  guarded-done :
      (checked : Outcome (Unit {0})) (result : Outcome Content × ScratchStore)
      (store : ScratchStore) (c : Content)
      → (guarded site checked result store).0 ≡ done c
      → (checked ≡ done tt) × (result.0 ≡ done c)
  guarded-done (done tt) result store c e = (refl, e)
  guarded-done (raise f) result store c e = ground (arith, e)

  audited-done :
      (user_id : ℕ) (action : String) (audit : List AuditEvent) (o : Outcome Content × ScratchStore)
      (c : Content)
      → (audited site user_id action audit o).0 ≡ done c
      → (o.0 ≡ done c)
        × ((audited site user_id action audit o).1.audit ≡ audit ++ event site user_id action ∷ [])
  audited-done user_id action audit (done x, store) c e = (e, refl)
  audited-done user_id action audit (raise f, store) c e = ground (arith, e)

  -- A content that is served is at a path that is safe, is not empty and is visible under the rules, as
  -- its member is under its normalized name, and the read is in the audit log.
  pub read_file-IsShown :
      (user_id : ℕ) (action : String) (path : Text) (member : Option Text) (uuid : Text) (now : ℕ)
      (r : Reads) (c : Content)
      → (read_file site user_id action path member uuid now r).0 ≡ done c
      → (is_safe site path ≡ true)
        × IsShown path member
        × ((read_file site user_id action path member uuid now r).1.audit
            ≡ r.audit ++ event site user_id action ∷ [])
  unfolding read_file require_safe_path
  read_file-IsShown user_id action path member uuid now r c e =
      let (served, logged) = audited-done user_id action r.audit _ c e in
      let (safe, resolved) =
        guarded-done (require_safe_path site path)
          (resolve_content site path member uuid now r.store) r.store c served in
      (
        require-eq-done (is_safe site path) 400 "invalid path" tt safe,
        resolve_content-IsShown path member uuid now r.store c resolved,
        logged,
      )

  -- What a failure leaves of the store: its entries.
  IsUndone : ScratchStore → Outcome Content × ScratchStore → Type 0
  IsUndone store (done c, store') = Unit
  IsUndone store (raise e, store') = store'.entries ≡ store.entries

  settle-IsUndone :
      (key uuid : Text) (now : ℕ) (store : ScratchStore) (o : Outcome (Text × ℕ))
      → find key store.entries ≡ none
      → IsUndone store
          (settle site key (acquire key uuid now store).0 (acquire key uuid now store).1 o)
  unfolding settle IsUndone
  settle-IsUndone key uuid now store (done x) h = tt
  settle-IsUndone key uuid now store (raise e) h = (release-acquire key uuid now store h).0

  direct-IsUndone :
      (path : Text) (store : ScratchStore) (b : Bool) (detail : String)
      → IsUndone store ((require b 403 detail >> done (direct path)), store)
  unfolding IsUndone
  direct-IsUndone path store true detail = tt
  direct-IsUndone path store false detail = refl

  resolve_at-IsUndone :
      (v b : Bool) (path : Text) (member : Option Text) (uuid : Text) (now : ℕ)
      (store : ScratchStore)
      → find (site.scratch_key path member) store.entries ≡ none
      → IsUndone store (resolve_at site v b path member uuid now store)
  unfolding resolve_at IsUndone
  resolve_at-IsUndone false b path member uuid now store h = refl
  resolve_at-IsUndone true false path member uuid now store h =
      direct-IsUndone path store site.is_allowed _
  resolve_at-IsUndone true true path member uuid now store h =
      settle-IsUndone (site.scratch_key path member) uuid now store (materialize site path member) h

  resolve_content-IsUndone :
      (path : Text) (member : Option Text) (uuid : Text) (now : ℕ) (store : ScratchStore)
      → find (site.scratch_key path member) store.entries ≡ none
      → IsUndone store (resolve_content site path member uuid now store)
  unfolding resolve_content IsUndone
  resolve_content-IsUndone path member uuid now store h = elim (Bool-cases (path == [])) [
    | inl p ↦ rw (resolve_content, p) refl
    | inr p ↦
        rw (resolve_content, p)
          (resolve_at-IsUndone (visible site path) (needs_scratch site path member) path member uuid
            now store h)
  ]

  guarded-IsUndone :
      (checked : Outcome (Unit {0})) (result : Outcome Content × ScratchStore)
      (store : ScratchStore)
      → IsUndone store result
      → IsUndone store (guarded site checked result store)
  unfolding IsUndone
  guarded-IsUndone (done u) result store h = h
  guarded-IsUndone (raise f) result store h = refl

  audited-raise :
      (user_id : ℕ) (action : String) (r : Reads) (o : Outcome Content × ScratchStore) (e : Failure)
      → IsUndone r.store o
      → (audited site user_id action r.audit o).0 ≡ raise e
      → ((audited site user_id action r.audit o).1.store.entries ≡ r.store.entries)
        × ((audited site user_id action r.audit o).1.audit ≡ r.audit)
  unfolding IsUndone
  audited-raise user_id action r (done c, store) e h k = ground (arith, k)
  audited-raise user_id action r (raise f, store) e h k = (h, refl)

  -- A read that fails, at a file that nobody has open, leaves the entries of the scratch store and the
  -- audit log as they were.
  pub read_file-raise :
      (user_id : ℕ) (action : String) (path : Text) (member : Option Text) (uuid : Text) (now : ℕ)
      (r : Reads) (e : Failure)
      → find (site.scratch_key path member) r.store.entries ≡ none
      → (read_file site user_id action path member uuid now r).0 ≡ raise e
      → ((read_file site user_id action path member uuid now r).1.store.entries ≡ r.store.entries)
        × ((read_file site user_id action path member uuid now r).1.audit ≡ r.audit)
  unfolding read_file
  read_file-raise user_id action path member uuid now r e h =
      audited-raise user_id action r
        (guarded site (require_safe_path site path)
          (resolve_content site path member uuid now r.store) r.store)
        e
        (guarded-IsUndone (require_safe_path site path)
          (resolve_content site path member uuid now r.store) r.store
          (resolve_content-IsUndone path member uuid now r.store h))
