-- ===== src/Rules/Tests.antt =====
-- The rule engine on concrete rules and paths.
use perchtail.Prelude.{
  ℕ, String, ◌≡◌, ◌≢◌, ◌↔◌, refl, sym, true, false, none, List, [], ◌∷◌, ◌++◌, arith,
}
use perchtail.Model.{Text, codes, Rule, RuleType, include, exclude, glob, is_include}
use perchtail.Rules.{Engine, is_visible, is_dir_visible, sort_rules, is_cover}
use perchtail.Rules.Glob.{slash, glob_match}
use perchtail.Rules.Segments.{split, could_match_below, covers_everything_below}
use perchtail.Rules.Run.{SlashAlone, NoNewline}
use perchtail.Rules.Below.{could_match_below_sound}
use perchtail.Rules.Cover.{covers_everything_below_sound}
use perchtail.Rules.Folders.{is_visible-is_dir_visible}
use perchtail.Rules.Order.{Decides, is_visible_iff, cover-hides}

abbrev engine : Engine
engine = record { fold = λ c. c; re2_search = λ _ _ _. none }

abbrev glob_rule : ℕ → RuleType → String → Rule
glob_rule n t p = record { order = n; type = t; pattern = codes p; pattern_kind = glob }

abbrev rules : List Rule
rules = glob_rule 2 exclude "secret/**" ∷ glob_rule 1 include "**/*.log" ∷ []

shows : is_visible engine false (codes "var/log/app.log") rules ≡ true
unfolding is_visible
shows = refl

hides : is_visible engine false (codes "secret/app.log") rules ≡ false
unfolding is_visible
hides = refl

hides_dir : is_dir_visible engine false (codes "secret/x") rules ≡ false
unfolding is_dir_visible
hides_dir = refl

shows_dir : is_dir_visible engine false (codes "var/log") rules ≡ true
unfolding is_dir_visible
shows_dir = refl

engine-SlashAlone : SlashAlone engine.fold
engine-SlashAlone c h = sym h

abbrev plain : Text
plain = codes "app.log"

var_log-NoNewline : NoNewline (codes "var/log" ++ slash ∷ plain)
var_log-NoNewline = (
  refl,
  (
    refl,
    (
      refl,
      (
        refl,
        (refl, (refl, (refl, (refl, (refl, (refl, (refl, (refl, (refl, (refl, (refl, tt))))))))))),
      ),
    ),
  ),
)

matched :
    glob_match (λ c. c) false (codes "var/*/app.log") (codes "var/log" ++ slash ∷ plain) ≡ true
unfolding glob_match
matched = refl

could_match_below_sound_example :
    could_match_below (λ c. c) false (codes "var/*/app.log") (split (codes "var/log")) ≡ true
could_match_below_sound_example =
    could_match_below_sound (λ c. c) engine-SlashAlone false (codes "var/*/app.log")
      (codes "var/log") plain matched

covered : covers_everything_below (λ c. c) false (codes "var/**") (split (codes "var/log")) ≡ true
unfolding covers_everything_below split
covered = refl

covers_everything_below_sound_example :
    glob_match (λ c. c) false (codes "var/**") (codes "var/log" ++ slash ∷ plain) ≡ true
covers_everything_below_sound_example =
    covers_everything_below_sound (λ c. c) false engine-SlashAlone (codes "var/**")
      (codes "var/log") plain var_log-NoNewline covered

is_visible-is_dir_visible_example : is_dir_visible engine false (codes "var/log") rules ≡ true
is_visible-is_dir_visible_example =
    is_visible-is_dir_visible engine false rules (codes "var/log") plain engine-SlashAlone
      var_log-NoNewline shows

is_visible_iff_example : (is_visible engine false (codes "var/log/app.log") rules ≡ true) ↔ (
    (r : Rule) × Decides engine false (codes "var/log/app.log") r (sort_rules rules)
    × (is_include r.type ≡ true))
is_visible_iff_example = is_visible_iff engine false (codes "var/log/app.log") rules

abbrev hide_var : Rule
hide_var = glob_rule 3 exclude "var/**"

hide_var-cover : is_cover engine false (split (codes "var/log")) hide_var ≡ true
unfolding is_cover covers_everything_below
hide_var-cover = refl

cover-hides_example :
    (is_visible engine false (codes "var/log" ++ slash ∷ plain) ([] ++ hide_var ∷ rules) ≡ false)
    × (codes "var/log" ≢ []
        → is_dir_visible engine false (codes "var/log") ([] ++ hide_var ∷ rules) ≡ false)
cover-hides_example =
    cover-hides engine false [] rules hide_var (codes "var/log") plain engine-SlashAlone tt
      (omega arith, (omega arith, tt)) hide_var-cover var_log-NoNewline
