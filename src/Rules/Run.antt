-- ===== src/Rules/Run.antt =====
-- What a match of one part against a path says about the part and the first segment of the path.
use mathlib.Core.Path.{fun_ext}
use mathlib.Core.Bool.{false≢true}
use perchtail.Prelude.{
  ℕ, ◌≡◌, refl, sym, ap, ◌∙◌, Bool, true, false, ◌||◌, List, [], ◌∷◌, ◌++◌, ◌==◌, ==_iff, ==_refl,
  nat_eq, All, arith, Bool-cases, inl, inr, ◌⊎◌, and_true, or_true, or_not_and, not_and_true,
}
use perchtail.Model.{Text}
use perchtail.Rules.Glob.{
  slash, star, newline, Atom, any_star, dir_star, seg_star, seg_char, lit, single, at_end, any_run,
  seg_run, dir_run, char_matches, atom_run, atoms_match, glob_match,
}
use perchtail.Rules.Segments.{segment_matches, has_double_star}
use perchtail.Rules.Compile.{seg_atoms, NoSlash, compile-seg}

abbrev pub NoNewline : Text → Type 0
NoNewline = All (λ c. (c == newline) ≡ false)

-- Ignoring case identifies the slash with nothing else.
abbrev pub SlashAlone : (ℕ → ℕ) → Type 0
SlashAlone fold = (c : ℕ) → fold slash ≡ fold c → c ≡ slash

-- An atom that stays within a segment.
abbrev pub IsSeg : Atom → Type 0
IsSeg (lit c) = (c == slash) ≡ false
IsSeg seg_star = Unit
IsSeg seg_char = Unit
IsSeg _ = ⊥

single-IsSeg : (c : ℕ) → (c == slash) ≡ false → IsSeg (single c)
unfolding single
single-IsSeg c h = elim (Bool-cases (c == star)) [
  | inl e ↦ rw e tt
  | inr e ↦ elim (Bool-cases (c == b'?')) [ inl f ↦ rw (e, f) tt | inr f ↦ rw (e, f) h ]
]

pub seg_atoms-IsSeg : (p : Text) → NoSlash p → All IsSeg (seg_atoms p)
seg_atoms-IsSeg [] h = tt
seg_atoms-IsSeg (c ∷ p) (k, h) = (single-IsSeg c k, seg_atoms-IsSeg p h)

pub any_run-at_end : (s : Text) → NoNewline s → any_run at_end s ≡ true
unfolding any_run
any_run-at_end [] h = unfold at_end in refl
any_run-at_end (c ∷ s) (k, h) = or_not_and _ _ _ k (any_run-at_end s h)

module _ (k : Text → Bool) (t : Text) where
  pub dir_run-inv :
      (s : Text)
      → NoSlash s
      → dir_run k (s ++ slash ∷ t) ≡ true
      → (k t ≡ true) ⊎ (dir_run k t ≡ true)
  unfolding dir_run
  dir_run-inv [] h e = or_true _ _ e
  dir_run-inv (c ∷ s) (n, h) e = dir_run-inv s h (ground arith)

  pub dir_run-skip :
      (s : Text) → NoNewline s → (k t || dir_run k t) ≡ true → dir_run k (s ++ slash ∷ t) ≡ true
  unfolding dir_run
  dir_run-skip [] h e = e
  dir_run-skip (c ∷ s) (n, h) e = or_not_and _ _ _ n (dir_run-skip s h e)

  -- `u` is what the atoms leave of the segment.
  seg_run-inv :
      (s : Text)
      → NoSlash s
      → seg_run k (s ++ slash ∷ t) ≡ true
      → (u : Text) × NoSlash u
        × (k (u ++ slash ∷ t) ≡ true)
        × ((k' : Text → Bool) → k' u ≡ true → seg_run k' s ≡ true)
  unfolding seg_run
  seg_run-inv [] h e = ([], tt, ground arith, λ k' f. f)
  seg_run-inv (c ∷ s) (n, h) e = elim (or_true _ _ e) [
    | inl now ↦ (c ∷ s, (n, h), now, λ k' f. rw f)
    | inr later ↦
        let (u, hu, hk, up) = seg_run-inv s h (not_and_true _ _ later).1 in
        (u, hu, hk, λ k' f. or_not_and _ _ _ n (up k' f))
  ]

module _ (fold : ℕ → ℕ) (alone : SlashAlone fold) (ignore_case : Bool) where
  slash-char_matches : (c : ℕ) → char_matches fold ignore_case slash c ≡ true → c ≡ slash
  unfolding char_matches
  slash-char_matches c h = elim (Bool-cases ignore_case) [
    | inl e ↦ alone c ((==_iff _ _).0 (rw e at h))
    | inr e ↦ sym ((==_iff slash c).0 (rw e at h))
  ]

  char_matches-slash : (p : ℕ) → char_matches fold ignore_case p slash ≡ true → p ≡ slash
  unfolding char_matches
  char_matches-slash p h = elim (Bool-cases ignore_case) [
    | inl e ↦ alone p (sym ((==_iff _ _).0 (rw e at h)))
    | inr e ↦ (==_iff p slash).0 (rw e at h)
  ]

  pub char_matches_self : (p : ℕ) → char_matches fold ignore_case p p ≡ true
  unfolding char_matches
  char_matches_self p = ground (arith, ==_refl p, ==_refl (fold p))

  atom_run-inv :
      (a : Atom) (k : Text → Bool) (t s : Text)
      → IsSeg a
      → NoSlash s
      → atom_run fold ignore_case a k (s ++ slash ∷ t) ≡ true
      → (u : Text) × NoSlash u
        × (k (u ++ slash ∷ t) ≡ true)
        × ((k' : Text → Bool) → k' u ≡ true → atom_run fold ignore_case a k' s ≡ true)
  unfolding atom_run
  atom_run-inv seg_star k t s w h e = seg_run-inv k t s h e
  atom_run-inv seg_char k t [] w h e = ground arith
  atom_run-inv seg_char k t (c ∷ s) w (n, h) e =
      let (_, f) = not_and_true _ _ e in (s, h, f, λ k' g. rw (n, g))
  atom_run-inv (lit p) k t [] w h e =
      let g = char_matches-slash p (and_true (char_matches fold ignore_case p slash) _ e).0 in
      absurd (false≢true (sym w ∙ (==_iff p slash).1 g))
  atom_run-inv (lit p) k t (c ∷ s) w (n, h) e =
      let (m, f) = and_true (char_matches fold ignore_case p c) _ e in (s, h, f, λ k' g. rw (m, g))
  atom_run-inv dir_star k t s w h e = absurd w
  atom_run-inv any_star k t s w h e = absurd w

  atoms_match-inv :
      (p : List Atom) (k : Text → Bool) (t s : Text)
      → All IsSeg p
      → NoSlash s
      → atoms_match fold ignore_case p k (s ++ slash ∷ t) ≡ true
      → (u : Text) × NoSlash u
        × (k (u ++ slash ∷ t) ≡ true)
        × ((k' : Text → Bool) → k' u ≡ true → atoms_match fold ignore_case p k' s ≡ true)
  unfolding atoms_match
  atoms_match-inv [] k t s w h e = (s, h, e, λ k' f. f)
  atoms_match-inv (a ∷ p) k t s (w, ws) h e =
      let (u, hu, f, up) = atom_run-inv a (atoms_match fold ignore_case p k) t s w h e in
      let (v, hv, g, up') = atoms_match-inv p k t u ws hu f in
      (v, hv, g, λ k' z. up (atoms_match fold ignore_case p k') (up' k' z))

  pub atoms_match-append :
      (p q : List Atom) (k : Text → Bool)
      → atoms_match fold ignore_case (p ++ q) k
        ≡ atoms_match fold ignore_case p (atoms_match fold ignore_case q k)
  unfolding atoms_match
  atoms_match-append [] q k = fun_ext λ s. refl
  atoms_match-append (a ∷ p) q k =
      fun_ext λ s. ap (λ f. atom_run fold ignore_case a f s) (atoms_match-append p q k)

  lit-inv :
      (u t : Text) (q : List Atom) (k : Text → Bool)
      → NoSlash u
      → atoms_match fold ignore_case (lit slash ∷ q) k (u ++ slash ∷ t) ≡ true
      → (u ≡ []) × (atoms_match fold ignore_case q k t ≡ true)
  unfolding atoms_match atom_run
  lit-inv [] t q k h e = (refl, (and_true (char_matches fold ignore_case slash slash) _ e).1)
  lit-inv (c ∷ u) t q k (n, h) e =
      let g = slash-char_matches c (and_true (char_matches fold ignore_case slash c) _ e).0 in
      absurd (false≢true (sym n ∙ (==_iff c slash).1 g))

  at_end-nil : (u : Text) → u ≡ [] → at_end u ≡ true
  unfolding at_end
  at_end-nil [] e = refl
  at_end-nil (c ∷ u) e = cc

  -- A whole part, and the slash behind it, spend exactly the first segment.
  pub part-inv :
      (p : Text) (q : List Atom) (k : Text → Bool) (t s : Text)
      → NoSlash p
      → has_double_star p ≡ false
      → NoSlash s
      → atoms_match fold ignore_case (seg_atoms p ++ lit slash ∷ q) k (s ++ slash ∷ t) ≡ true
      → (segment_matches fold ignore_case p s ≡ true) × (atoms_match fold ignore_case q k t ≡ true)
  unfolding segment_matches
  part-inv p q k t s hp d hs e =
      let (u, hu, f, up) =
        atoms_match-inv (seg_atoms p) _ t s (seg_atoms-IsSeg p hp) hs
          (rw atoms_match-append at e) in
      let (g, m) = lit-inv u t q k hu f in
      (unfold glob_match in rw (compile-seg p hp d) (up at_end (at_end-nil u g)), m)

  -- A part that ends the glob does not match past a slash.
  pub part-ends :
      (p : Text) (t s : Text)
      → NoSlash p
      → NoSlash s
      → atoms_match fold ignore_case (seg_atoms p) at_end (s ++ slash ∷ t) ≡ true
      → ⊥
  part-ends p t s hp hs e =
      let (u, hu, f, up) = atoms_match-inv (seg_atoms p) at_end t s (seg_atoms-IsSeg p hp) hs e in
      go u t f
    where
      go : (u t : Text) → at_end (u ++ slash ∷ t) ≡ true → ⊥
      go [] [] f = unfold at_end in cc
      go [] (d ∷ t) f = unfold at_end in cc
      go (c ∷ []) t f = unfold at_end in cc
      go (c ∷ d ∷ u) t f = unfold at_end in cc
