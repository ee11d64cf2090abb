-- ===== src/Rules/Cover.antt =====
-- A glob that covers a directory matches every path below it.
use perchtail.Prelude.{
  ℕ, zero, suc, ◌≡◌, refl, ap, ◌⊎◌, Bool, true, false, ◌&&◌, ◌||◌, not, List, [], ◌∷◌, ◌++◌, ◌==◌,
  ==_iff, nat_eq, list_eq, if◌then◌else◌, All, All-append_left, All-append_right, take, length,
  Bool-cases, inl, inr, and_true, or_true, or_inr, arith,
}
use perchtail.Model.{Text}
use perchtail.Rules.Glob.{slash, dir_star, lit, at_end, atom_run, atoms_match, glob_match}
use perchtail.Rules.Segments.{
  split, double_star, has_double_star, is_mixed, but_last, last_is_double_star, segment_matches,
  matches_exactly, any_prefix, covers_everything_below,
}
use perchtail.Rules.Compile.{
  seg_atoms, parts_atoms, NoSlash, split-NoSlash, plain-part, mixed-cons, compile-split,
}
use perchtail.Rules.Run.{NoNewline, SlashAlone, any_run-at_end, dir_run-skip}
use perchtail.Rules.Extend.{part-extend}
use perchtail.Rules.Below.{below, below-split, dir_star_iff}

-- the parts of `prefix/**`
abbrev under : List Text → List Text
under prefix = prefix ++ double_star ∷ []

under-but_last :
    (parts : List Text) → last_is_double_star parts ≡ true → parts ≡ under (but_last parts)
unfolding last_is_double_star but_last
under-but_last [] h = cc
under-but_last (p ∷ []) h = rw ((==_iff p double_star).0 h)
under-but_last (p ∷ q ∷ ps) h = ap (λ t. p ∷ t) (under-but_last (q ∷ ps) h)

parts_atoms-under :
    (p : Text) (prefix : List Text)
    → parts_atoms (under (p ∷ prefix)) ≡ (
        if p == double_star
        then dir_star ∷ parts_atoms (under prefix)
        else seg_atoms p ++ lit slash ∷ parts_atoms (under prefix))
parts_atoms-under p [] = refl
parts_atoms-under p (q ∷ qs) = refl

take_rest : (k : ℕ) (ss : List Text) → (post : List Text) × (take k ss ++ post ≡ ss)
take_rest zero ss = (ss, refl)
take_rest (suc k) [] = ([], refl)
take_rest (suc k) (s ∷ ss) = let (post, e) = take_rest k ss in (post, rw e)

module _ (fold : ℕ → ℕ) (ignore_case : Bool) where
  any_prefix-inv :
      (prefix segments : List Text) (n : ℕ)
      → any_prefix fold ignore_case prefix segments n ≡ true
      → (k : ℕ) × (matches_exactly fold ignore_case prefix (take k segments) ≡ true)
  unfolding any_prefix
  any_prefix-inv prefix segments zero e = (zero, e)
  any_prefix-inv prefix segments (suc n) e =
      elim (or_true (matches_exactly fold ignore_case prefix (take (suc n) segments)) _ e) [
        | inl now ↦ (suc n, now)
        | inr later ↦ any_prefix-inv prefix segments n later
      ]

  -- The cases in which a part matches exactly.
  exact-cons :
      (p : Text) (ps : List Text) (s : Text) (ss : List Text)
      → matches_exactly fold ignore_case (p ∷ ps) (s ∷ ss) ≡ true
      → (p == double_star) ≡ true
      → (matches_exactly fold ignore_case ps (s ∷ ss) ≡ true)
        ⊎ (matches_exactly fold ignore_case (p ∷ ps) ss ≡ true)
  unfolding matches_exactly
  exact-cons p ps s ss e h = or_true _ _ (rw h at e)

  exact-plain :
      (p : Text) (ps : List Text) (s : Text) (ss : List Text)
      → matches_exactly fold ignore_case (p ∷ ps) (s ∷ ss) ≡ true
      → (p == double_star) ≡ false
      → (segment_matches fold ignore_case p s ≡ true)
        × (matches_exactly fold ignore_case ps ss ≡ true)
  unfolding matches_exactly
  exact-plain p ps s ss e h = and_true (segment_matches fold ignore_case p s) _ (rw h at e)

  module _ (alone : SlashAlone fold) (r : Text) (post : List Text) where
    under_sound :
        (prefix ss : List Text)
        → All NoSlash prefix
        → is_mixed prefix ≡ false
        → NoNewline (below (ss ++ post) r)
        → matches_exactly fold ignore_case prefix ss ≡ true
        → atoms_match fold ignore_case (parts_atoms (under prefix)) at_end (below (ss ++ post) r)
          ≡ true
    under_sound [] [] hp m hn e = unfold atoms_match atom_run in any_run-at_end (below post r) hn
    under_sound [] (s ∷ ss) hp m hn e = unfold matches_exactly in cc
    under_sound (p ∷ ps) [] (hp, hps) m hn e =
        let (h, f) =
          and_true (p == double_star) (matches_exactly fold ignore_case ps [])
            (unfold matches_exactly in e) in
        let now = under_sound ps [] hps (mixed-cons p ps m).1 hn f in
        rw (parts_atoms-under, h) ((dir_star_iff fold alone ignore_case _ _).1 (rw now))
    under_sound (p ∷ ps) (s ∷ ss) (hp, hps) m hn e =
        let m' = (mixed-cons p ps m).1 in
        let hs = All-append_left _ s _ hn in
        let (_, hn') = All-append_right _ s _ hn in
        rw parts_atoms-under (elim (Bool-cases (p == double_star)) [
          | inl h ↦ rw h (
              (dir_star_iff fold alone ignore_case _ _).1 (elim (exact-cons p ps s ss e h) [
                | inl skip ↦ rw (under_sound ps (s ∷ ss) hps m' hn skip)
                | inr more ↦
                    let rest = under_sound (p ∷ ps) ss (hp, hps) m hn' more in
                    or_inr _ _ (
                      dir_run-skip _ _ s hs (
                        (dir_star_iff fold alone ignore_case _ _).0
                          (rw (parts_atoms-under, h) at rest)))
              ]))
          | inr h ↦
              let (f, g) = exact-plain p ps s ss e h in
              rw h (
                part-extend fold alone ignore_case p _ at_end _ s hp (plain-part p ps m h) hs f
                  (under_sound ps ss hps m' hn' g))
        ])

  under-IsMixed : (prefix : List Text) → is_mixed (under prefix) ≡ false → is_mixed prefix ≡ false
  under-IsMixed [] h = unfold is_mixed in refl
  under-IsMixed (p ∷ ps) h = let (a, b) = mixed-cons p (under ps) h in go a (under-IsMixed ps b)
    where
      go :
          (has_double_star p && not (p == double_star)) ≡ false
          → is_mixed ps ≡ false
          → is_mixed (p ∷ ps) ≡ false
      go a b = unfold is_mixed in rw a b

  covers-prefix :
      (pattern : Text) (segments : List Text)
      → covers_everything_below fold ignore_case pattern segments ≡ true
      → (last_is_double_star (split pattern) ≡ true)
        × (is_mixed (split pattern) ≡ false)
        × (any_prefix fold ignore_case (but_last (split pattern)) segments (length segments) ≡ true)
  unfolding covers_everything_below
  covers-prefix pattern segments e =
      go (last_is_double_star (split pattern)) (is_mixed (split pattern)) _ e
    where
      go :
          (a b c : Bool)
          → (if not a || b then false else c) ≡ true
          → (a ≡ true) × (b ≡ false) × (c ≡ true)
      go a b c h = ground arith

  -- A glob that is said to cover everything below `dir` matches every path below it that holds no
  -- newline, provided that ignoring case keeps the slash apart.
  pub covers_everything_below_sound :
      SlashAlone fold
      → (pattern dir r : Text) → NoNewline (dir ++ slash ∷ r)
      → covers_everything_below fold ignore_case pattern (split dir) ≡ true
      → glob_match fold ignore_case pattern (dir ++ slash ∷ r) ≡ true
  covers_everything_below_sound alone pattern dir r hn e =
      let (last, m, any) = covers-prefix pattern (split dir) e in
      let (k, exact) = any_prefix-inv _ (split dir) _ any in
      let (post, join) = take_rest k (split dir) in
      let f = under-but_last (split pattern) last in
      let hp =
        All-append_left NoSlash (but_last (split pattern)) _ (rw f at (split-NoSlash pattern)) in
      let m' = under-IsMixed (but_last (split pattern)) (rw f at m) in
      let path : dir ++ slash ∷ r ≡ below (take k (split dir) ++ post) r =
        rw join (below-split dir r) in
      let g =
        under_sound alone r post (but_last (split pattern)) (take k (split dir)) hp m'
          (rw path at hn) exact in
      unfold glob_match in rw (path, compile-split pattern m) (rw f g)
