-- ===== src/Archive.antt =====
-- backend/app/api/archive.py and archives.py: from a request for a file to the content that is served.
-- A content is its number of bytes; what a failed fetch leaves at its destination is not kept.
pub mod Names
mod Served
mod Member
mod Tests
use perchtail.Prelude.{
  ℕ, ◌+◌, Bool, true, false, ◌&&◌, ◌||◌, not, Option, none, some, String, List, [], ◌∷◌, ◌++◌, map,
  filter, take, length, ◌-◌, if◌then◌else◌, ◌==◌, nat_eq, list_eq, is_some,
}
use perchtail.Model.{Text, codes, over, is_suffix, Rule, AuditEvent}
use perchtail.Rules.{Engine, is_visible}
use perchtail.Rules.Glob.{slash}
use perchtail.Rules.Segments.{split}
use perchtail.Paths.{
  join, backslash, is_special, is_safe_relative_path, is_safe_windows_relative_path,
}
use perchtail.Scratch.{ScratchStore, acquire, release, write}
use perchtail.Archive.Names.{
  is_tar, is_archive, is_transparent_gzip, unslash, normalize_member_name, last_of, base_name,
  bounded_copy, ArchiveMember, find_member, find_normalized, name_or, resolve_member_name,
}

pub data Failure : Type 0 where
  status : ℕ → String → Failure
  fetch_too_large : Failure
  other : Failure

pub data Outcome (A : Type 0) : Type 0 where
  done : A → Outcome A
  raise : Failure → Outcome A

infixl 5 ◌>>=◌ ◌>>◌
abbrev pub ◌>>=◌ : {A B : Type 0} → Outcome A → (A → Outcome B) → Outcome B
done a >>= f = f a
raise e >>= f = raise e

abbrev pub ◌>>◌ : {A B : Type 0} → Outcome A → Outcome B → Outcome B
m >> k = m >>= λ _. k

abbrev pub require : Bool → ℕ → String → Outcome (Unit {0})
require true code detail = done tt
require false code detail = raise (status code detail)

-- What a source answers: a file of so many bytes, and the local copy of an archive or of a gzip, which
-- the archive libraries read.
pub record Connector : Type 0 where
  pub fetch_file : Text → Outcome ℕ
  pub list_members : Text → Outcome (List ArchiveMember)
  pub gzip_chunks : Text → Outcome (List ℕ)

-- The source as a request finds it: is it local, may it be read (`_require_local_source_allowed`),
-- are its rules without case, and what is the match of the 8.3 pattern?
pub record Site : Type 0 where
  pub source_id : ℕ
  pub engine : Engine
  pub is_local : Bool
  pub is_allowed : Bool
  pub ignore_case : Bool
  pub short_name_alias : Text → Bool
  pub rules : List Rule
  pub connector : Connector
  pub max_decompressed : ℕ
  -- the SHA-256 of the source's id, the path and the member
  pub scratch_key : Text → Option Text → Text

-- the store and the audit log
pub record Reads : Type 0 where
  pub store : ScratchStore
  pub audit : List AuditEvent

-- what is sent: a local file as it is, or the copy at a path of the store, under a file name
pub data Content : Type 0 where
  direct : Text → Content
  copied : Text → Text → Content

-- the bytes of an extraction
abbrev pub or_limit : Option ℕ → Outcome ℕ
or_limit none = raise (status 413 "File is too large once decompressed (MAX_DECOMPRESSED_MB)")
or_limit (some written) = done written

abbrev pub or_key_error : Option ArchiveMember → Outcome ArchiveMember
or_key_error none = raise other
or_key_error (some m) = done m

-- The translation of an exception; the detail of a fetch over the limit is a dict with this code.
abbrev pub too_large : Failure → Failure
too_large fetch_too_large = status 413 "fetch_too_large"
too_large (status code detail) = status code detail
too_large other = other

-- the path that the rules see of a member
abbrev pub virtual_path : Text → Text → Text
virtual_path path member = path ++ slash ∷ member

module _ (site : Site) where
  abbrev pub visible : Text → Bool
  visible path = is_visible site.engine site.ignore_case path site.rules

  abbrev pub is_safe : Text → Bool
  is_safe path =
      is_safe_relative_path path
      && (not site.ignore_case || is_safe_windows_relative_path site.short_name_alias path)

  pub require_safe_path : Text → Outcome (Unit {0})
  require_safe_path path = require (is_safe path) 400 "invalid path"

  -- the part of `_materialize` on a member, normalized
  pub fetch_member : Text → Text → Outcome (Text × ℕ)
  unfolding bounded_copy resolve_member_name
  fetch_member path member = do
    require (not (member == []) && visible (virtual_path path member)) 404 "not found"
    members ← site.connector.list_members path
    found ← or_key_error (find_member (resolve_member_name members member) members)
    written ← or_limit (bounded_copy (some site.max_decompressed) 0 found.chunks)
    done (base_name member, written)

  pub fetch_plain : Bool → Text → Outcome (Text × ℕ)
  unfolding bounded_copy
  fetch_plain true path = do
    chunks ← site.connector.gzip_chunks path
    written ← or_limit (bounded_copy (some site.max_decompressed) 0 chunks)
    done (take (length (base_name path) - 3) (base_name path), written)
  fetch_plain false path = do bytes ← site.connector.fetch_file path; done (base_name path, bytes)

  pub fetch : Text → Option Text → Outcome (Text × ℕ)
  unfolding fetch_member fetch_plain is_archive is_transparent_gzip
  fetch path none = fetch_plain (is_transparent_gzip (base_name path)) path
  fetch path (some member) = do
    require (is_archive (base_name path)) 400 "not an archive"
    fetch_member path (normalize_member_name member)

  pub materialize : Text → Option Text → Outcome (Text × ℕ)
  unfolding fetch
  materialize path member = do
    require (visible path) 404 "not found"
    require site.is_allowed 403 "This local-disk source is outside the server's allowed directories"
    fetch path member

  abbrev pub needs_scratch : Text → Option Text → Bool
  needs_scratch path member =
      not site.is_local || (is_some member || is_transparent_gzip (base_name path))

  -- the end of a fetch into the path that the store gave
  pub settle : Text → Text → ScratchStore → Outcome (Text × ℕ) → Outcome Content × ScratchStore
  settle key destination store (done (filename, bytes)) =
      (done (copied destination filename), write destination bytes store)
  settle key destination store (raise e) = (raise (too_large e), release key store)

  abbrev pub fetch_into : Text → Option Text → Text × ScratchStore → Outcome Content × ScratchStore
  fetch_into path member (destination, store) =
      settle (site.scratch_key path member) destination store (materialize path member)

  -- a local file as it is, of a source with one root; that it is there is left to the file system
  abbrev pub serve_direct : Text → ScratchStore → Outcome Content × ScratchStore
  serve_direct path store = (
    require site.is_allowed 403 "This local-disk source is outside the server's allowed directories"
        >> done (direct path),
    store,
  )

  -- `_resolve_content` below its first guard, at whether the path is visible and needs a copy
  pub resolve_at :
      Bool → Bool → Text → Option Text → Text → ℕ → ScratchStore → Outcome Content × ScratchStore
  unfolding materialize settle
  resolve_at false needs_copy path member uuid now store = (raise (status 404 "not found"), store)
  resolve_at true false path member uuid now store = serve_direct path store
  resolve_at true true path member uuid now store =
      fetch_into path member (acquire (site.scratch_key path member) uuid now store)

  -- `_resolve_content`, with the drawn name of the scratch file
  pub resolve_content :
      Text → Option Text → Text → ℕ → ScratchStore → Outcome Content × ScratchStore
  unfolding resolve_at is_transparent_gzip
  resolve_content path member uuid now store =
      if path == []
      then (raise (status 400 "path is required"), store)
      else resolve_at (visible path) (needs_scratch path member) path member uuid now store

  abbrev pub guarded :
      Outcome (Unit {0})
      → Outcome Content × ScratchStore
      → ScratchStore
      → Outcome Content × ScratchStore
  guarded (done u) result store = result
  guarded (raise e) result store = (raise e, store)

  abbrev pub event : ℕ → String → AuditEvent
  event user_id action = record {
    user_id = some user_id;
    action = action;
    target_type = "source";
    target_id = site.source_id;
  }

  -- a content is sent when its audit entry is committed
  abbrev pub audited :
      ℕ → String → List AuditEvent → Outcome Content × ScratchStore → Outcome Content × Reads
  audited user_id action audit (done c, store) =
      (done c, record { store = store; audit = audit ++ event user_id action ∷ [] })
  audited user_id action audit (raise e, store) = (raise e, record { store = store; audit = audit })

  -- what `open_file` and `download_file` share
  pub read_file : ℕ → String → Text → Option Text → Text → ℕ → Reads → Outcome Content × Reads
  unfolding require_safe_path resolve_content
  read_file user_id action path member uuid now r =
      audited user_id action r.audit
        (guarded (require_safe_path path) (resolve_content path member uuid now r.store) r.store)

  pub open_file : ℕ → Text → Option Text → Text → ℕ → Reads → Outcome Content × Reads
  unfolding read_file
  open_file user_id path member uuid now r = read_file user_id "file.open" path member uuid now r

  -- the background task runs when the response is sent
  abbrev pub after_response : Text → Option Text → Outcome Content × Reads → Reads
  after_response path member (done (direct p), r) = r
  after_response path member (done (copied p f), r) = record r {
    store = release (site.scratch_key path member) r.store;
  }
  after_response path member (raise e, r) = r

  pub download_file : ℕ → Text → Option Text → Text → ℕ → Reads → Outcome Content × Reads
  unfolding read_file
  download_file user_id path member uuid now r =
      let served = read_file user_id "file.download" path member uuid now r in
      (served.0, after_response path member served)

  pub close_file : Text → Option Text → Reads → Outcome (Unit {0}) × Reads
  unfolding require_safe_path
  close_file path member r = elim (require_safe_path path) [
    | done u ↦ (done tt, record r { store = release (site.scratch_key path member) r.store })
    | raise e ↦ (raise e, r)
  ]
