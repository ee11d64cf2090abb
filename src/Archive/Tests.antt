-- ===== src/Archive/Tests.antt =====
-- Reads of a concrete remote source whose rules show every log.
use perchtail.Prelude.{
  ◌≡◌, refl, true, false, some, none, [], ◌∷◌, string_eq, nat_eq, list_eq, if◌then◌else◌, ◌==◌,
}
use perchtail.Prelude.Table.{get}
use perchtail.Model.{Text, codes, include, regex}
use perchtail.Rules.{Engine, is_visible, verdict_from, rule_matches, sort_rules, insert_rule}
use perchtail.Rules.Segments.{split}
use perchtail.Paths.{is_safe_relative_path}
use perchtail.Scratch.{find, acquire, release}
use perchtail.Archive.{
  Site, Connector, Reads, copied, done, raise, status, fetch_too_large, is_safe, event, read_file,
  resolve_content, resolve_at, materialize, fetch, fetch_plain, settle, require_safe_path,
}
use perchtail.Archive.Names.{is_transparent_gzip, normalize_member_name}
use perchtail.Archive.Served.{IsShown, read_file-IsShown, read_file-raise}
use perchtail.Archive.Member.{IsNormal, normalize_member_name-IsNormal}

-- A regex finds what it is named.
abbrev engine : Engine
engine = record { fold = λ c. c; re2_search = λ pattern ignore_case path. some true }

abbrev connector : Connector
connector = record {
  fetch_file = λ path. if path == codes "app.log" then done 12 else raise fetch_too_large;
  list_members = λ path. done [];
  gzip_chunks = λ path. done [];
}

abbrev site : Site
site = record {
  source_id = 5;
  engine = engine;
  is_local = false;
  is_allowed = true;
  ignore_case = false;
  short_name_alias = λ segment. false;
  rules = record { order = 0; type = include; pattern = []; pattern_kind = regex } ∷ [];
  connector = connector;
  max_decompressed = 100;
  scratch_key = λ path member. path;
}

abbrev reads : Reads
reads = record { store = record { max_bytes = 1_000; entries = []; files = [] }; audit = [] }

abbrev app_log : Text
app_log = codes "app.log"

abbrev big_log : Text
big_log = codes "big.log"

app_log-served :
    (read_file site 3 "file.open" app_log none (codes "u1") 50 reads).0
    ≡ done (copied (codes "app.log-u1") app_log)
unfolding read_file require_safe_path resolve_content resolve_at materialize fetch fetch_plain
    settle is_transparent_gzip is_safe_relative_path is_visible verdict_from rule_matches sort_rules
    insert_rule acquire release get split
app_log-served = refl

read_file-IsShown_example :
    (is_safe site app_log ≡ true)
    × IsShown site app_log none
    × ((read_file site 3 "file.open" app_log none (codes "u1") 50 reads).1.audit
        ≡ event site 3 "file.open" ∷ [])
read_file-IsShown_example =
    read_file-IsShown site 3 "file.open" app_log none (codes "u1") 50 reads
      (copied (codes "app.log-u1") app_log) app_log-served

-- The fetch of a file over the limit fails after the store gave it a path.
big_log-refused :
    (read_file site 3 "file.open" big_log none (codes "u1") 50 reads).0
    ≡ raise (status 413 "fetch_too_large")
unfolding read_file require_safe_path resolve_content resolve_at materialize fetch fetch_plain
    settle is_transparent_gzip is_safe_relative_path is_visible verdict_from rule_matches sort_rules
    insert_rule acquire release get split
big_log-refused = refl

big_log-unknown : find (site.scratch_key big_log none) reads.store.entries ≡ none
unfolding get
big_log-unknown = refl

read_file-raise_example :
    ((read_file site 3 "file.open" big_log none (codes "u1") 50 reads).1.store.entries
      ≡ reads.store.entries)
    × ((read_file site 3 "file.open" big_log none (codes "u1") 50 reads).1.audit ≡ reads.audit)
read_file-raise_example =
    read_file-raise site 3 "file.open" big_log none (codes "u1") 50 reads
      (status 413 "fetch_too_large") big_log-unknown big_log-refused

normalize_member_name-IsNormal_example :
    IsNormal (normalize_member_name (codes "../../etc\\x"))
    × (normalize_member_name (normalize_member_name (codes "../../etc\\x"))
        ≡ normalize_member_name (codes "../../etc\\x"))
normalize_member_name-IsNormal_example = normalize_member_name-IsNormal (codes "../../etc\\x")
