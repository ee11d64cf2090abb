-- ===== src/Rules/Compile.antt =====
-- A glob whose parts are `**` or hold no `**` compiles part by part.
use perchtail.Prelude.{
  ℕ, ◌≡◌, refl, Bool, true, false, ◌&&◌, not, List, [], ◌∷◌, ◌++◌, map, ◌==◌, ==_iff, list_eq,
  nat_eq, if◌then◌else◌, All, arith, Bool-cases, inl, inr, or_false, and_true,
}
use perchtail.Model.{Text}
use perchtail.Rules.Glob.{slash, star, Atom, any_star, dir_star, lit, single, compile_glob}
use perchtail.Rules.Segments.{split, double_star, has_double_star, is_mixed}

abbrev pub seg_atoms : Text → List Atom
seg_atoms p = map single p

abbrev pub parts_atoms : List Text → List Atom
parts_atoms [] = []
parts_atoms (p ∷ []) = if p == double_star then any_star ∷ [] else seg_atoms p
parts_atoms (p ∷ q ∷ ps) =
    let rest = parts_atoms (q ∷ ps) in
    if p == double_star then dir_star ∷ rest else seg_atoms p ++ lit slash ∷ rest

pub split-cons : (t : Text) → (p : Text) × (ps : List Text) × (split t ≡ p ∷ ps)
unfolding split
split-cons [] = ([], [], refl)
split-cons (c ∷ s) =
    let (p, ps, e) = split-cons s in
    elim (Bool-cases (c == slash)) [ inl h ↦ ([], split s, rw h) | inr h ↦ (c ∷ p, ps, rw (h, e)) ]

has_double_star-tail :
    (a : ℕ) (p : Text) → has_double_star (a ∷ p) ≡ false → has_double_star p ≡ false
unfolding has_double_star
has_double_star-tail a [] h = refl
has_double_star-tail a (b ∷ s) h = ground arith

pub ne-double_star : (p : Text) → has_double_star p ≡ false → (p == double_star) ≡ false
unfolding has_double_star
ne-double_star [] h = refl
ne-double_star (a ∷ []) h = ground arith
ne-double_star (a ∷ b ∷ []) h = ground arith
ne-double_star (a ∷ b ∷ c ∷ s) h = ground arith

pub mixed-cons :
    (p : Text) (ps : List Text)
    → is_mixed (p ∷ ps) ≡ false
    → ((has_double_star p && not (p == double_star)) ≡ false) × (is_mixed ps ≡ false)
unfolding is_mixed
mixed-cons p ps h = or_false _ _ h

plain-IsMixed :
    (p : Text) (ps : List Text)
    → has_double_star p ≡ false
    → is_mixed ps ≡ false
    → is_mixed (p ∷ ps) ≡ false
unfolding is_mixed
plain-IsMixed p ps h k = rw h k

-- A part that is not `**` itself holds no `**`.
pub plain-part :
    (p : Text) (ps : List Text)
    → is_mixed (p ∷ ps) ≡ false
    → (p == double_star) ≡ false
    → has_double_star p ≡ false
plain-part p ps h n = go (has_double_star p) (p == double_star) n (mixed-cons p ps h).0
  where
    go : (a b : Bool) → b ≡ false → (a && not b) ≡ false → a ≡ false
    go a b h k = ground arith

parts-step :
    (a : ℕ) (p : Text) (ps : List Text)
    → is_mixed ((a ∷ p) ∷ ps) ≡ false
    → ((a ∷ p) == double_star) ≡ false
    → (parts_atoms ((a ∷ p) ∷ ps) ≡ single a ∷ parts_atoms (p ∷ ps)) × (is_mixed (p ∷ ps) ≡ false)
parts-step a p ps h n =
    let t = has_double_star-tail a p (plain-part (a ∷ p) ps h n) in
    (atoms ps (ne-double_star p t), plain-IsMixed p ps t (mixed-cons _ ps h).1)
  where
    atoms :
        (ps : List Text)
        → (p == double_star) ≡ false
        → parts_atoms ((a ∷ p) ∷ ps) ≡ single a ∷ parts_atoms (p ∷ ps)
    atoms [] e = rw (n, e)
    atoms (q ∷ ps) e = rw (n, e)

compile-single :
    (a b : ℕ) (s : Text)
    → (a == star && b == star) ≡ false
    → compile_glob (a ∷ b ∷ s) ≡ single a ∷ compile_glob (b ∷ s)
unfolding compile_glob
compile-single a b [] h = rw h
compile-single a b (c ∷ s) h = ground arith

compile-double :
    (c : ℕ) (s : Text)
    → compile_glob (star ∷ star ∷ c ∷ s)
      ≡ (if c == slash then dir_star ∷ compile_glob s else any_star ∷ compile_glob (c ∷ s))
unfolding compile_glob
compile-double c s = refl

split-next :
    (a : ℕ) (s : Text)
    → (a == slash) ≡ false
    → (p : Text) × (ps : List Text) × (split s ≡ p ∷ ps) × (split (a ∷ s) ≡ (a ∷ p) ∷ ps)
unfolding split
split-next a s h = let (p, ps, e) = split-cons s in (p, ps, e, rw (h, e))

split-slash : (s : Text) → split (slash ∷ s) ≡ [] ∷ split s
unfolding split
split-slash s = refl

-- One character outside a `**`: the compiled rest is that of the text behind it.
module _ (a : ℕ) (s : Text)
    (rest : is_mixed (split s) ≡ false → compile_glob s ≡ parts_atoms (split s)) where
  at_slash :
      a ≡ slash
      → compile_glob (a ∷ s) ≡ single a ∷ compile_glob s
      → is_mixed (split (a ∷ s)) ≡ false
      → compile_glob (a ∷ s) ≡ parts_atoms (split (a ∷ s))
  unfolding single
  at_slash e c h =
      let (p, ps, f) = split-cons s in
      let g : split (a ∷ s) ≡ [] ∷ p ∷ ps = rw e (rw split-slash (rw f)) in
      let h' : is_mixed ([] ∷ p ∷ ps) ≡ false = rw g at h in
      let m : is_mixed (split s) ≡ false = rw f (mixed-cons [] (p ∷ ps) h').1 in
      rw c (rw g (rw (rest m) (rw f (rw e))))

  at_plain :
      (p : Text) (ps : List Text)
      → split s ≡ p ∷ ps
      → split (a ∷ s) ≡ (a ∷ p) ∷ ps
      → ((a ∷ p) == double_star) ≡ false
      → compile_glob (a ∷ s) ≡ single a ∷ compile_glob s
      → is_mixed (split (a ∷ s)) ≡ false
      → compile_glob (a ∷ s) ≡ parts_atoms (split (a ∷ s))
  at_plain p ps f g n c h =
      let (e, m) = parts-step a p ps (rw g at h) n in rw (c, g, e) (rw (rest (rw f m)) (rw f))

pair-ne :
    (a b : ℕ) (p : Text) → (a == star && b == star) ≡ false → ((a ∷ b ∷ p) == double_star) ≡ false
pair-ne a b [] h = ground arith
pair-ne a b (c ∷ p) h = ground arith

not-double :
    (a b : ℕ) (s p : Text) (ps : List Text)
    → (a == star && b == star) ≡ false
    → split (b ∷ s) ≡ p ∷ ps
    → ((a ∷ p) == double_star) ≡ false
not-double a b s p ps h e = elim (Bool-cases (b == slash)) [
  | inl k ↦
      let k' : b ≡ slash = (==_iff b slash).0 k in
      let g : p ≡ [] = cc (rw k' at e, split-slash s) in rw g (ground arith)
  | inr k ↦
      let (p', ps', _, f) = split-next b s k in let g : p ≡ b ∷ p' = cc in rw g (pair-ne a b p' h)
]

triple_mixed :
    (c : ℕ) (s : Text) → (c == slash) ≡ false → is_mixed (split (star ∷ star ∷ c ∷ s)) ≡ false → ⊥
triple_mixed c s k h =
    let (p, ps, f, g) = split-next c s k in
    let (p', ps', f', g') = split-next star (c ∷ s) refl in
    let (p'', ps'', f'', g'') = split-next star (star ∷ c ∷ s) refl in
    let e : split (star ∷ star ∷ c ∷ s) ≡ (star ∷ star ∷ c ∷ p) ∷ ps = cc in
    unfold is_mixed has_double_star in cc (rw e at h)

plain :
    (a b : ℕ) (s : Text)
    → (a == star && b == star) ≡ false
    → (is_mixed (split (b ∷ s)) ≡ false → compile_glob (b ∷ s) ≡ parts_atoms (split (b ∷ s)))
    → is_mixed (split (a ∷ b ∷ s)) ≡ false
    → compile_glob (a ∷ b ∷ s) ≡ parts_atoms (split (a ∷ b ∷ s))
plain a b s k rest h = elim (Bool-cases (a == slash)) [
  | inl e ↦ at_slash a (b ∷ s) rest ((==_iff a slash).0 e) (compile-single a b s k) h
  | inr e ↦
      let (p, ps, f, g) = split-next a (b ∷ s) e in
      at_plain a (b ∷ s) rest p ps f g (not-double a b s p ps k f) (compile-single a b s k) h
]

stars : (a b : ℕ) → (a == star && b == star) ≡ true → (a ≡ star) × (b ≡ star)
stars a b k = let (p, q) = and_true _ _ k in ((==_iff a star).0 p, (==_iff b star).0 q)

two_stars : compile_glob double_star ≡ parts_atoms (split double_star)
unfolding compile_glob split
two_stars = refl

-- `**/`, and then the rest of the glob
three_stars :
    (c : ℕ) (s : Text)
    → (is_mixed (split s) ≡ false → compile_glob s ≡ parts_atoms (split s))
    → is_mixed (split (star ∷ star ∷ c ∷ s)) ≡ false
    → compile_glob (star ∷ star ∷ c ∷ s) ≡ parts_atoms (split (star ∷ star ∷ c ∷ s))
three_stars c s rest h = elim (Bool-cases (c == slash)) [
  | inl e ↦
      let c' : c ≡ slash = (==_iff c slash).0 e in
      let (p, ps, f) = split-cons s in
      let g : split (star ∷ star ∷ slash ∷ s) ≡ double_star ∷ p ∷ ps = unfold split in rw f in
      let h' : is_mixed (double_star ∷ p ∷ ps) ≡ false = rw (c', g) at h in
      let m : is_mixed (split s) ≡ false = rw f (mixed-cons double_star (p ∷ ps) h').1 in
      rw c' (rw (compile-double, g) (rw (rest m) (rw f)))
  | inr e ↦ absurd (triple_mixed c s e h)
]

-- Where every double star of a pattern is a segment of its own, the compiled glob is that of its
-- segments, joined by slashes.
pub compile-split : (t : Text) → is_mixed (split t) ≡ false → compile_glob t ≡ parts_atoms (split t)
compile-split [] h = unfold compile_glob split in refl
compile-split (a ∷ []) h = unfold compile_glob split single in ground arith
compile-split (a ∷ b ∷ []) h = elim (Bool-cases (a == star && b == star)) [
  | inl k ↦ let (p, q) = stars a b k in rw (p, q) two_stars
  | inr k ↦ plain a b [] k (compile-split (b ∷ [])) h
]
compile-split (a ∷ b ∷ c ∷ s) h = elim (Bool-cases (a == star && b == star)) [
  | inl k ↦
      let (p, q) = stars a b k in rw (p, q) (three_stars c s (compile-split s) (rw (p, q) at h))
  | inr k ↦ plain a b (c ∷ s) k (compile-split (b ∷ c ∷ s)) h
]

abbrev pub NoSlash : Text → Type 0
NoSlash = All (λ c. (c == slash) ≡ false)

pub split-NoSlash : (t : Text) → All NoSlash (split t)
unfolding split
split-NoSlash [] = (tt, tt)
split-NoSlash (c ∷ s) = elim (Bool-cases (c == slash)) [
  | inl h ↦ rw h (tt, split-NoSlash s)
  | inr h ↦
      let (p, ps, e) = split-cons s in
      let (k, ks) : All NoSlash (p ∷ ps) = rw e at (split-NoSlash s) in rw (h, e) ((h, k), ks)
]

split_self : (p : Text) → NoSlash p → split p ≡ p ∷ []
unfolding split
split_self [] h = refl
split_self (c ∷ s) (k, h) = rw (k, split_self s h)

-- A part with no slash and no `**` compiles character by character.
pub compile-seg : (p : Text) → NoSlash p → has_double_star p ≡ false → compile_glob p ≡ seg_atoms p
compile-seg p h k =
    let e = split_self p h in
    let m : is_mixed (split p) ≡ false = rw e (plain-IsMixed p [] k (unfold is_mixed in refl)) in
    rw (compile-split p m, e) (rw (ne-double_star p k))
