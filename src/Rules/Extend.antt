-- ===== src/Rules/Extend.antt =====
-- A part that matches a segment also matches it in front of more path.
use mathlib.Core.Bool.{false≢true}
use perchtail.Prelude.{
  ℕ, ◌≡◌, refl, sym, ◌∙◌, Bool, true, false, List, [], ◌∷◌, ◌++◌, ◌==◌, nat_eq, All, inl, inr,
  and_true, or_true, or_not_and, not_and_true,
}
use perchtail.Model.{Text}
use perchtail.Rules.Glob.{
  slash, Atom, any_star, dir_star, seg_star, seg_char, lit, at_end, seg_run, char_matches, atom_run,
  atoms_match,
}
use perchtail.Rules.Segments.{segment_matches, has_double_star}
use perchtail.Rules.Compile.{seg_atoms, NoSlash, compile-seg}
use perchtail.Rules.Run.{
  NoNewline, SlashAlone, IsSeg, seg_atoms-IsSeg, char_matches_self, atoms_match-append,
}

module _ (fold : ℕ → ℕ) (alone : SlashAlone fold) (ignore_case : Bool) where
  -- What an atom spends can stand in front of more text, where `k'` takes over from `k`.
  atom_run-extend :
      (a : Atom) (k k' : Text → Bool) (w s : Text)
      → IsSeg a
      → NoNewline s
      → ((u : Text) → NoNewline u → k u ≡ true → k' (u ++ w) ≡ true)
      → atom_run fold ignore_case a k s ≡ true
      → atom_run fold ignore_case a k' (s ++ w) ≡ true
  unfolding atom_run
  atom_run-extend seg_star k k' w s m h f e = go s h e
    where
      here : (t : Text) → k' t ≡ true → seg_run k' t ≡ true
      here [] g = g
      here (c ∷ t) g = rw g

      go : (s : Text) → NoNewline s → seg_run k s ≡ true → seg_run k' (s ++ w) ≡ true
      go [] h e = here w (f [] tt e)
      go (c ∷ s) (n, h) e = elim (or_true _ _ e) [
        | inl now ↦ here (c ∷ s ++ w) (f (c ∷ s) (n, h) now)
        | inr later ↦
            let (m, g) = not_and_true (c == slash) _ later in or_not_and _ _ _ m (go s h g)
      ]
  atom_run-extend seg_char k k' w [] m h f e = cc
  atom_run-extend seg_char k k' w (c ∷ s) m (n, h) f e =
      let (z, g) = not_and_true (c == slash) _ e in rw (z, f s h g)
  atom_run-extend (lit p) k k' w [] m h f e = cc
  atom_run-extend (lit p) k k' w (c ∷ s) m (n, h) f e =
      let (z, g) = and_true (char_matches fold ignore_case p c) _ e in rw (z, f s h g)
  atom_run-extend dir_star k k' w s m h f e = absurd m
  atom_run-extend any_star k k' w s m h f e = absurd m

  atoms_match-extend :
      (p : List Atom) (k k' : Text → Bool) (w s : Text)
      → All IsSeg p
      → NoNewline s
      → ((u : Text) → NoNewline u → k u ≡ true → k' (u ++ w) ≡ true)
      → atoms_match fold ignore_case p k s ≡ true
      → atoms_match fold ignore_case p k' (s ++ w) ≡ true
  unfolding atoms_match
  atoms_match-extend [] k k' w s m h f e = f s h e
  atoms_match-extend (a ∷ p) k k' w s (m, ms) h f e =
      atom_run-extend a (atoms_match fold ignore_case p k) (atoms_match fold ignore_case p k') w s m
        h (λ u hu g. atoms_match-extend p k k' w u ms hu f g) e

  at_end-inv : (u : Text) → NoNewline u → at_end u ≡ true → u ≡ []
  unfolding at_end
  at_end-inv [] h e = refl
  at_end-inv (c ∷ []) (n, h) e = absurd (false≢true (sym n ∙ e))
  at_end-inv (c ∷ d ∷ u) h e = cc

  -- A part that matches a segment spends it in front of a slash.
  pub part-extend :
      (p : Text) (q : List Atom) (k : Text → Bool) (t s : Text)
      → NoSlash p
      → has_double_star p ≡ false
      → NoNewline s
      → segment_matches fold ignore_case p s ≡ true
      → atoms_match fold ignore_case q k t ≡ true
      → atoms_match fold ignore_case (seg_atoms p ++ lit slash ∷ q) k (s ++ slash ∷ t) ≡ true
  unfolding segment_matches
  part-extend p q k t s hp d hs e f = rw (atoms_match-append fold alone ignore_case) (
      atoms_match-extend (seg_atoms p) at_end (atoms_match fold ignore_case (lit slash ∷ q) k)
        (slash ∷ t) s (seg_atoms-IsSeg p hp) hs
        (λ u hu g.
          rw (at_end-inv u hu g)
            (unfold atoms_match atom_run in rw (char_matches_self fold alone ignore_case slash, f)))
        (rw (compile-seg p hp d) at e))
