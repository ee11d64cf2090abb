-- ===== src/Rules.antt =====
-- backend/app/rules.py: which files and folders of a source its rules show.
pub mod Glob
pub mod Segments
pub mod Compile
mod Run
mod Extend
mod Below
mod Cover
mod Folders
mod Order
mod Tests
use perchtail.Prelude.{
  ℕ, Bool, true, false, ◌&&◌, ◌||◌, not, Option, none, some, String, List, [], ◌∷◌, ◌==◌, string_eq,
  option_eq, if◌then◌else◌, any, leb,
}
use perchtail.Model.{
  Text, Rule, RuleType, PatternKind, glob, regex, is_include, is_exclude, Source, Protocol, ssh,
  smb, winrm, local, agent,
}
use perchtail.Rules.Glob.{glob_match}
use perchtail.Rules.Segments.{split, could_match_below, covers_everything_below}

-- `sorted(rules, key=lambda r: r.order)` is stable: a rule goes before the first that is larger.
unfoldable pub insert_rule : Rule → List Rule → List Rule
insert_rule r [] = r ∷ []
insert_rule r (q ∷ rs) =
    let rest = insert_rule r rs in if leb r.order q.order then r ∷ q ∷ rs else q ∷ rest

unfoldable pub sort_rules : List Rule → List Rule
unfolding insert_rule
sort_rules [] = []
sort_rules (r ∷ rs) = insert_rule r (sort_rules rs)

-- What the rule engine takes from the libraries: the case table of `re` and the RE2 matcher, which
-- is `none` for a pattern that does not compile.
pub record Engine : Type 0 where
  pub fold : ℕ → ℕ
  pub re2_search : Text → Bool → Text → Option Bool

module _ (e : Engine) (ignore_case : Bool) where
  -- a regex that does not compile fails closed: an exclude matches, an include does not
  abbrev pub found_or_closed : RuleType → Option Bool → Bool
  found_or_closed type none = is_exclude type
  found_or_closed type (some found) = found

  abbrev pub kind_matches : PatternKind → RuleType → Text → Text → Bool
  kind_matches regex type pattern path =
      found_or_closed type (e.re2_search pattern ignore_case path)
  kind_matches glob type pattern path = glob_match e.fold ignore_case pattern path

  -- `_rule_matches`
  unfoldable pub rule_matches : Text → Rule → Bool
  rule_matches path rule = kind_matches rule.pattern_kind rule.type rule.pattern path

  -- the loop of `is_visible`
  unfoldable pub verdict_from : Bool → Text → List Rule → Bool
  verdict_from verdict path [] = verdict
  verdict_from verdict path (r ∷ rs) =
      verdict_from (if rule_matches path r then is_include r.type else verdict) path rs

  unfoldable pub is_visible : Text → List Rule → Bool
  unfolding verdict_from rule_matches glob_match sort_rules
  is_visible path rules = verdict_from false path (sort_rules rules)

  abbrev pub kind_covers : PatternKind → List Text → Text → Bool
  kind_covers glob segments pattern = covers_everything_below e.fold ignore_case pattern segments
  kind_covers regex segments pattern = false

  -- `later` hides everything below the directory
  pub is_cover : List Text → Rule → Bool
  is_cover segments later =
      is_exclude later.type && kind_covers later.pattern_kind segments later.pattern

  abbrev pub kind_may_reach : PatternKind → List Text → Text → Bool
  kind_may_reach glob segments pattern = could_match_below e.fold ignore_case pattern segments
  kind_may_reach regex segments pattern = true

  -- an include that may match something below the directory
  pub may_reach : List Text → Rule → Bool
  may_reach segments rule =
      is_include rule.type && kind_may_reach rule.pattern_kind segments rule.pattern

  -- the loop of `is_dir_visible`
  pub dir_scan : List Text → List Rule → Bool
  dir_scan segments [] = false
  dir_scan segments (rule ∷ later) =
      let rest = dir_scan segments later in
      if may_reach segments rule && not (any (is_cover segments) later) then true else rest

  pub is_dir_visible : Text → List Rule → Bool
  unfolding split dir_scan is_cover may_reach could_match_below covers_everything_below sort_rules
  is_dir_visible [] rules = true
  is_dir_visible (c ∷ dir_path) rules = dir_scan (split (c ∷ dir_path)) (sort_rules rules)

  pub is_entry_visible : Text → Bool → List Rule → Bool
  unfolding is_visible is_dir_visible
  is_entry_visible path is_dir rules =
      if is_dir then is_dir_visible path rules else is_visible path rules

pub rules_case_insensitive : Source → Bool
rules_case_insensitive source = elim source.protocol [
  | smb ↦ true
  | winrm ↦ true
  | agent ↦ source.agent_os == some "windows"
  | ssh ↦ false
  | local ↦ false
]
