-- ===== src/Paths/Canonical.antt =====
-- backend/app/rules.py: a safe path is its own resolution, so a rule is matched against the only
-- spelling that reaches the file.
use perchtail.Prelude.{
  ℕ, ◌≡◌, refl, ap, sym, ◌∙◌, true, false, ◌||◌, not, Bool-cases, inl, inr, List, [], ◌∷◌, ◌++◌,
  all, arith, ◌==◌, nat_eq, list_eq, ==_iff, if◌then◌else◌, and_true,
}
use perchtail.Model.{Text}
use perchtail.Rules.Glob.{slash}
use perchtail.Rules.Segments.{split}
use perchtail.Rules.Compile.{split-cons}
use perchtail.Paths.{join, dot, colon, backslash, contains, is_special, is_safe_relative_path}

abbrev pub drop_last : List Text → List Text
drop_last [] = []
drop_last (p ∷ []) = []
drop_last (p ∷ q ∷ ps) = p ∷ drop_last (q ∷ ps)

-- How a file system resolves a path below the directory `at`: an empty segment and "." stay, ".." goes
-- up.
abbrev pub resolve : List Text → List Text → List Text
resolve at [] = at
resolve at (s ∷ ss) =
    let same = resolve at ss in
    let up = resolve (drop_last at) ss in
    let down = resolve (at ++ s ∷ []) ss in
    if s == [] || s == dot ∷ [] then same else if s == dot ∷ dot ∷ [] then up else down

append_assoc : (xs ys zs : List Text) → (xs ++ ys) ++ zs ≡ xs ++ (ys ++ zs)
append_assoc [] ys zs = refl
append_assoc (x ∷ xs) ys zs = ap (λ l. x ∷ l) (append_assoc xs ys zs)

append_nil : (xs : List Text) → xs ≡ xs ++ []
append_nil [] = refl
append_nil (x ∷ xs) = ap (λ l. x ∷ l) (append_nil xs)

resolve-all :
    (at ss : List Text) → all (λ s. not (is_special s)) ss ≡ true → resolve at ss ≡ at ++ ss
resolve-all at [] h = append_nil at
resolve-all at (s ∷ ss) h =
    let (p, q) = and_true (not (is_special s)) (all (λ s. not (is_special s)) ss) h in
    let step : resolve at (s ∷ ss) ≡ resolve (at ++ s ∷ []) ss = ground (arith, p) in
    step ∙ resolve-all (at ++ s ∷ []) ss q ∙ append_assoc at (s ∷ []) ss

join-cons_head : (c : ℕ) (p : Text) (ps : List Text) → join ((c ∷ p) ∷ ps) ≡ c ∷ join (p ∷ ps)
join-cons_head c p [] = refl
join-cons_head c p (q ∷ ps) = refl

pub join-split : (t : Text) → join (split t) ≡ t
unfolding split
join-split [] = refl
join-split (c ∷ t) =
    let (p, ps, e) = split-cons t in
    elim (Bool-cases (c == slash)) [
      | inl h ↦
          let c_slash = (==_iff c slash).0 h in
          let tail : join (p ∷ ps) ≡ t = rw e at (join-split t) in
          rw h (rw e (rw (sym c_slash) (ap (λ l. c ∷ l) tail)))
      | inr h ↦
          let tail : join (p ∷ ps) ≡ t = rw e at (join-split t) in
          rw h (rw e (join-cons_head c p ps ∙ ap (λ l. c ∷ l) tail))
    ]

root : join (resolve [] (split [])) ≡ []
unfolding split
root = refl

-- A path that is accepted is its own resolution: joining the segments that a file system is left with
-- after it has resolved the path gives the path as it is written, and it has no backslash and no colon.
pub is_safe_relative_path-resolve :
    (path : Text)
    → is_safe_relative_path path ≡ true
    → (join (resolve [] (split path)) ≡ path)
      × (contains backslash path ≡ false)
      × (contains colon path ≡ false)
unfolding is_safe_relative_path
is_safe_relative_path-resolve [] h = (root, refl, refl)
is_safe_relative_path-resolve (c ∷ cs) h =
    let safe : all (λ s. not (is_special s)) (split (c ∷ cs)) ≡ true = ground (arith, h) in
    (
      ap join (resolve-all [] (split (c ∷ cs)) safe) ∙ join-split (c ∷ cs),
      ground (arith, h),
      ground (arith, h),
    )
