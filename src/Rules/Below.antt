-- ===== src/Rules/Below.antt =====
-- The two walks over a glob are right about the paths below a directory.
use perchtail.Prelude.{
  ℕ, ◌≡◌, refl, ap, Bool, true, false, ◌||◌, List, [], ◌∷◌, ◌++◌, ◌==◌, ==_iff, nat_eq, list_eq,
  All, Bool-cases, inl, inr, ◌⊎◌, ◌↔◌, or_true, if_or_inl, if_or_inr, if_and,
}
use perchtail.Model.{Text}
use perchtail.Rules.Glob.{slash, Atom, dir_star, at_end, dir_run, atom_run, atoms_match, glob_match}
use perchtail.Rules.Segments.{
  split, double_star, is_mixed, segment_matches, could_walk, could_match_below,
}
use perchtail.Rules.Compile.{
  parts_atoms, NoSlash, split-cons, split-NoSlash, plain-part, mixed-cons, compile-split,
}
use perchtail.Rules.Run.{SlashAlone, dir_run-inv, part-inv, part-ends}

-- The path `rest` below the directory with these segments.
abbrev pub below : List Text → Text → Text
below [] r = r
below (s ∷ ss) r = s ++ slash ∷ below ss r

pub below-split : (dir r : Text) → dir ++ slash ∷ r ≡ below (split dir) r
unfolding split
below-split [] r = refl
below-split (c ∷ s) r = elim (Bool-cases (c == slash)) [
  | inl h ↦ rw (h, (==_iff c slash).0 h, below-split s r)
  | inr h ↦ let (p, ps, e) = split-cons s in rw (h, e) (ap (λ t. c ∷ t) (rw e at (below-split s r)))
]

module _ (fold : ℕ → ℕ) (alone : SlashAlone fold) (ignore_case : Bool) where
  dir_star-inv :
      (q : List Atom) (t : Text)
      → atoms_match fold ignore_case (dir_star ∷ q) at_end t ≡ true
      → (atoms_match fold ignore_case q at_end t ≡ true)
        ⊎ (dir_run (atoms_match fold ignore_case q at_end) t ≡ true)
  unfolding atoms_match atom_run
  dir_star-inv q t e = or_true _ _ e

  pub dir_star_iff :
      (q : List Atom) (t : Text)
      → (atoms_match fold ignore_case (dir_star ∷ q) at_end t ≡ true) ↔ (
          (atoms_match fold ignore_case q at_end t
            || dir_run (atoms_match fold ignore_case q at_end) t)
          ≡ true)
  unfolding atoms_match atom_run
  dir_star_iff q t = (λ e. e, λ e. e)

  module _ (p : Text) (ps : List Text) (s : Text) (ss : List Text) where
    could_walk-skip :
        (p == double_star) ≡ true
        → could_walk fold ignore_case ps (s ∷ ss) ≡ true
        → could_walk fold ignore_case (p ∷ ps) (s ∷ ss) ≡ true
    unfolding could_walk
    could_walk-skip h e = if_or_inl _ (could_walk fold ignore_case ps (s ∷ ss)) _ _ h e

    could_walk-take :
        (p == double_star) ≡ true
        → could_walk fold ignore_case (p ∷ ps) ss ≡ true
        → could_walk fold ignore_case (p ∷ ps) (s ∷ ss) ≡ true
    unfolding could_walk
    could_walk-take h e =
        if_or_inr _ (could_walk fold ignore_case ps (s ∷ ss))
          (could_walk fold ignore_case (p ∷ ps) ss) _ h e

    could_walk-step :
        (p == double_star) ≡ false
        → segment_matches fold ignore_case p s ≡ true
        → could_walk fold ignore_case ps ss ≡ true
        → could_walk fold ignore_case (p ∷ ps) (s ∷ ss) ≡ true
    unfolding could_walk
    could_walk-step h e f =
        if_and _ _ (segment_matches fold ignore_case p s) (could_walk fold ignore_case ps ss) h e f

  could_walk-here : (p : Text) (ps : List Text) → could_walk fold ignore_case (p ∷ ps) [] ≡ true
  unfolding could_walk
  could_walk-here p ps = refl

  could_walk-last :
      (p : Text) (ss : List Text)
      → (p == double_star) ≡ true
      → could_walk fold ignore_case (p ∷ []) ss ≡ true
  could_walk-last p [] h = could_walk-here p []
  could_walk-last p (s ∷ ss) h = could_walk-take p [] s ss h (could_walk-last p ss h)

  -- `**/` ahead: the rest of the glob starts at some segment.
  module _ (p q : Text) (ps : List Text) (r : Text) (h : (p == double_star) ≡ true)
      (skip : (ss : List Text)
        → All NoSlash ss
        → atoms_match fold ignore_case (parts_atoms (q ∷ ps)) at_end (below ss r) ≡ true
        → could_walk fold ignore_case (q ∷ ps) ss ≡ true) where
    could_walk-dir :
        (s : Text) (ss : List Text)
        → NoSlash s
        → All NoSlash ss
        → dir_run (atoms_match fold ignore_case (parts_atoms (q ∷ ps)) at_end) (below (s ∷ ss) r)
          ≡ true
        → could_walk fold ignore_case (p ∷ q ∷ ps) (s ∷ ss) ≡ true
    could_walk-dir s [] hs hss e = could_walk-take p (q ∷ ps) s [] h (could_walk-here p (q ∷ ps))
    could_walk-dir s (s' ∷ ss) hs (hs', hss) e =
        could_walk-take p (q ∷ ps) s (s' ∷ ss) h (elim (dir_run-inv _ _ s hs e) [
          | inl now ↦ could_walk-skip p (q ∷ ps) s' ss h (skip (s' ∷ ss) (hs', hss) now)
          | inr later ↦ could_walk-dir s' ss hs' hss later
        ])

  pub could_walk_sound :
      (p : Text) (ps ss : List Text) (r : Text)
      → All NoSlash (p ∷ ps)
      → is_mixed (p ∷ ps) ≡ false
      → All NoSlash ss
      → atoms_match fold ignore_case (parts_atoms (p ∷ ps)) at_end (below ss r) ≡ true
      → could_walk fold ignore_case (p ∷ ps) ss ≡ true
  could_walk_sound p ps [] r hp m hs e = could_walk-here p ps
  could_walk_sound p [] (s ∷ ss) r (hp, _) m (hs, hss) e = elim (Bool-cases (p == double_star)) [
    | inl h ↦ could_walk-last p (s ∷ ss) h
    | inr h ↦ absurd (part-ends fold alone ignore_case p (below ss r) s hp hs (rw h at e))
  ]
  could_walk_sound p (q ∷ ps) (s ∷ ss) r (hp, hps) m (hs, hss) e =
      let m' = (mixed-cons p (q ∷ ps) m).1 in
      elim (Bool-cases (p == double_star)) [
        | inl h ↦ elim (dir_star-inv _ _ (rw h at e)) [
          | inl now ↦
              could_walk-skip p (q ∷ ps) s ss h
                (could_walk_sound q ps (s ∷ ss) r hps m' (hs, hss) now)
          | inr later ↦
              could_walk-dir p q ps r h (λ ss' hss'. could_walk_sound q ps ss' r hps m' hss') s ss
                hs hss later
        ]
        | inr h ↦
            let d = plain-part p (q ∷ ps) m h in
            let (f, g) =
              part-inv fold alone ignore_case p _ at_end (below ss r) s hp d hs (rw h at e) in
            could_walk-step p (q ∷ ps) s ss h f (could_walk_sound q ps ss r hps m' hss g)
      ]

  -- The folder analysis misses nothing: where a glob matches a path below `dir`, it is said that it
  -- could match below `dir`, provided that ignoring case keeps the slash apart.
  pub could_match_below_sound :
      (pattern dir r : Text)
      → glob_match fold ignore_case pattern (dir ++ slash ∷ r) ≡ true
      → could_match_below fold ignore_case pattern (split dir) ≡ true
  unfolding could_match_below
  could_match_below_sound pattern dir r e = elim (Bool-cases (is_mixed (split pattern))) [
    | inl h ↦ rw h
    | inr h ↦
        let (p, ps, f) = split-cons pattern in
        let hp : All NoSlash (p ∷ ps) = rw f at (split-NoSlash pattern) in
        let m : is_mixed (p ∷ ps) ≡ false = rw f at h in
        let e' = rw (below-split, compile-split pattern h, f) at e in
        rw (h, f) (could_walk_sound p ps (split dir) r hp m (split-NoSlash dir) e')
  ]
