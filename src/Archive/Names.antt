-- ===== src/Archive/Names.antt =====
-- backend/app/archives.py: the names of files and members, and the limit of a decompression.
use perchtail.Prelude.{
  ℕ, ◌+◌, Bool, ◌&&◌, ◌||◌, not, Option, none, some, List, [], ◌∷◌, map, filter, if◌then◌else◌,
  ◌==◌, nat_eq, list_eq, is_some,
}
use perchtail.Model.{Text, codes, over, is_suffix}
use perchtail.Rules.Glob.{slash}
use perchtail.Rules.Segments.{split}
use perchtail.Paths.{join, backslash, is_special}

abbrev pub is_tar : Text → Bool
is_tar filename = is_suffix (codes ".tar.gz") filename || is_suffix (codes ".tgz") filename

unfoldable pub is_archive : Text → Bool
is_archive filename = is_suffix (codes ".zip") filename || is_tar filename

unfoldable pub is_transparent_gzip : Text → Bool
is_transparent_gzip filename = is_suffix (codes ".gz") filename && not (is_tar filename)

-- `replace("\\", "/")` on a character
abbrev pub unslash : ℕ → ℕ
unslash c = if c == backslash then slash else c

unfoldable pub normalize_member_name : Text → Text
normalize_member_name name = join (filter (λ p. not (is_special p)) (split (map unslash name)))

-- `path.rsplit("/", 1)[-1]`
abbrev pub last_of : List Text → Text
last_of [] = []
last_of (p ∷ []) = p
last_of (p ∷ q ∷ ps) = last_of (q ∷ ps)

abbrev pub base_name : Text → Text
base_name path = last_of (split path)

-- `_bounded_copy` of the chunks that the decompressor gives; `none` is a `DecompressionLimitError`
unfoldable pub bounded_copy : Option ℕ → ℕ → List ℕ → Option ℕ
bounded_copy max_bytes written [] = some written
bounded_copy max_bytes written (chunk ∷ rest) =
    let later = bounded_copy max_bytes (written + chunk) rest in
    if over max_bytes (written + chunk) then none else later

-- a member with the chunks that its decompression gives
pub record ArchiveMember : Type 0 where
  pub name : Text
  pub is_dir : Bool
  pub chunks : List ℕ

abbrev pub find_member : Text → List ArchiveMember → Option ArchiveMember
find_member name [] = none
find_member name (m ∷ ms) =
    let rest = find_member name ms in if m.name == name then some m else rest

unfoldable pub find_normalized : Text → List ArchiveMember → Option ArchiveMember
unfolding normalize_member_name
find_normalized requested [] = none
find_normalized requested (m ∷ ms) =
    let rest = find_normalized requested ms in
    if not m.is_dir && normalize_member_name m.name == requested then some m else rest

abbrev pub name_or : Text → Option ArchiveMember → Text
name_or requested none = requested
name_or requested (some m) = m.name

unfoldable pub resolve_member_name : List ArchiveMember → Text → Text
unfolding find_normalized
resolve_member_name members requested =
    if is_some (find_member requested members)
    then requested
    else name_or requested (find_normalized requested members)
