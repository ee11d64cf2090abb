-- ===== src/Rules/Folders.antt =====
-- The folder filter agrees with the file filter.
use mathlib.Core.Bool.{false≢true}
use perchtail.Prelude.{
  ◌≡◌, refl, sym, ◌∙◌, Bool, true, false, ◌||◌, List, [], ◌∷◌, ◌++◌, if◌then◌else◌, any, Bool-cases,
  inl, inr, ◌⊎◌, and_true, arith,
}
use perchtail.Model.{
  Text, Rule, RuleType, include, exclude, PatternKind, glob, regex, is_include, is_exclude,
}
use perchtail.Rules.{
  Engine, kind_matches, kind_covers, kind_may_reach, rule_matches, verdict_from, is_visible,
  is_cover, may_reach, dir_scan, is_dir_visible, sort_rules,
}
use perchtail.Rules.Glob.{slash}
use perchtail.Rules.Segments.{split}
use perchtail.Rules.Run.{NoNewline, SlashAlone}
use perchtail.Rules.Below.{could_match_below_sound}
use perchtail.Rules.Cover.{covers_everything_below_sound}

module _ (e : Engine) (alone : SlashAlone e.fold) (ignore_case : Bool) (dir r : Text) where
  abbrev path : Text
  path = dir ++ slash ∷ r

  may_reach_sound :
      (rule : Rule)
      → is_include rule.type ≡ true
      → rule_matches e ignore_case path rule ≡ true
      → may_reach e ignore_case (split dir) rule ≡ true
  unfolding may_reach rule_matches
  may_reach_sound rule h m = rw h (go rule.pattern_kind m)
    where
      go :
          (k : PatternKind)
          → kind_matches e ignore_case k rule.type rule.pattern path ≡ true
          → kind_may_reach e ignore_case k (split dir) rule.pattern ≡ true
      go glob g = could_match_below_sound e.fold alone ignore_case rule.pattern dir r g
      go regex g = refl

  pub is_cover_sound :
      NoNewline path
      → (rule : Rule) → is_cover e ignore_case (split dir) rule ≡ true
      → (is_include rule.type ≡ false) × (rule_matches e ignore_case path rule ≡ true)
  unfolding is_cover rule_matches
  is_cover_sound n rule c =
      let (x, f) = and_true (is_exclude rule.type) _ c in
      (excluded rule.type x, go rule.pattern_kind f)
    where
      excluded : (t : RuleType) → is_exclude t ≡ true → is_include t ≡ false
      excluded include h = cc
      excluded exclude h = refl

      go :
          (k : PatternKind)
          → kind_covers e ignore_case k (split dir) rule.pattern ≡ true
          → kind_matches e ignore_case k rule.type rule.pattern path ≡ true
      go glob g = covers_everything_below_sound e.fold ignore_case alone rule.pattern dir r n g
      go regex g = cc

  or_else : (b c : Bool) → c ≡ true → (if b then true else c) ≡ true
  or_else b c h = ground arith

  -- A path that the rules show was decided by an include that no later rule covers.
  scan_sound :
      NoNewline path
      → (rs : List Rule) (v : Bool) → verdict_from e ignore_case v path rs ≡ true
      → ((v ≡ true) × (any (is_cover e ignore_case (split dir)) rs ≡ false))
        ⊎ (dir_scan e ignore_case (split dir) rs ≡ true)
  unfolding verdict_from dir_scan
  scan_sound n [] v h = inl (h, refl)
  scan_sound n (rule ∷ rs) v h =
      elim (scan_sound n rs
        (if rule_matches e ignore_case path rule then is_include rule.type else v) h) [
          | inr later ↦ inr (or_else _ _ later)
          | inl (decided, free) ↦ elim (Bool-cases (rule_matches e ignore_case path rule)) [
            | inl m ↦
                let i : is_include rule.type ≡ true = rw m at decided in
                inr (rw (may_reach_sound rule i m, free))
            | inr m ↦ inl (
              rw m at decided,
              rw free (uncovered (is_cover e ignore_case (split dir) rule) refl m),
            )
          ]
        ]
    where
      uncovered :
          (b : Bool)
          → is_cover e ignore_case (split dir) rule ≡ b
          → rule_matches e ignore_case path rule ≡ false
          → (is_cover e ignore_case (split dir) rule || false) ≡ false
      uncovered false f m = rw f
      uncovered true f m = absurd (false≢true (sym m ∙ (is_cover_sound n rule f).1))

-- If the rules show a file, they show every folder above it: the root, and each `dir` that the path
-- of the file begins with. The path holds no newline, and ignoring case keeps the slash apart.
pub is_visible-is_dir_visible :
    (e : Engine) (ignore_case : Bool) (rules : List Rule) (dir r : Text)
    → SlashAlone e.fold
    → NoNewline (dir ++ slash ∷ r)
    → is_visible e ignore_case (dir ++ slash ∷ r) rules ≡ true
    → is_dir_visible e ignore_case dir rules ≡ true
is_visible-is_dir_visible e ignore_case rules [] r alone n h = unfold is_dir_visible in refl
is_visible-is_dir_visible e ignore_case rules (c ∷ dir) r alone n h =
    elim (scan_sound e alone ignore_case (c ∷ dir) r n (sort_rules rules) false
      (unfold is_visible in h)) [
        | inl (f, g) ↦ absurd (false≢true f)
        | inr scan ↦ unfold is_dir_visible in scan
      ]
