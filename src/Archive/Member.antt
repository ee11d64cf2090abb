-- ===== src/Archive/Member.antt =====
-- backend/app/archives.py: the names that members are shown under, and the limit of a decompression.
use perchtail.Prelude.{
  ℕ, ◌+◌, ◌≤◌, ◌≡◌, refl, sym, ap, subst, ◌∙◌, Bool, true, false, not, Bool-cases, inl, inr, ◌⊎◌,
  none, some, List, [], ◌∷◌, ◌++◌, All, all, map, filter, ltb, arith, ◌==◌, nat_eq, list_eq,
  if◌then◌else◌, or_false,
}
use perchtail.Model.{Text}
use perchtail.Rules.Glob.{slash}
use perchtail.Rules.Segments.{split, cons_head}
use perchtail.Paths.{join, backslash, contains, is_special}
use perchtail.Paths.Canonical.{join-split}
use perchtail.Archive.Names.{unslash, normalize_member_name, bounded_copy}

abbrev pub total : List ℕ → ℕ
total [] = 0
total (n ∷ ns) = n + total ns

copied-total :
    (max_bytes written : ℕ) (chunks : List ℕ)
    → written ≤ max_bytes
    → bounded_copy (some max_bytes) written chunks
      ≡ (if ltb max_bytes (written + total chunks) then none else some (written + total chunks))
unfolding bounded_copy
copied-total max_bytes written [] h = ground (arith, h)
copied-total max_bytes written (c ∷ cs) h = elim (Bool-cases (ltb max_bytes (written + c))) [
  | inl k ↦ rw k (ground (arith, k))
  | inr k ↦ rw k (copied-total max_bytes (written + c) cs (ground (arith, k)) ∙ ground arith)
]

-- A limited decompression gives all the bytes of its chunks when they are within the limit, and fails
-- when they are not.
pub bounded_copy-total :
    (max_bytes : ℕ) (chunks : List ℕ)
    → bounded_copy (some max_bytes) 0 chunks
      ≡ (if ltb max_bytes (total chunks) then none else some (total chunks))
bounded_copy-total max_bytes chunks = copied-total max_bytes 0 chunks (omega arith) ∙ ground arith

-- Without a slash and without a backslash.
abbrev IsPlain : Text → Type 0
IsPlain p = (contains slash p ≡ false) × (contains backslash p ≡ false)

split-free : (p : Text) → contains slash p ≡ false → split p ≡ p ∷ []
unfolding split
split-free [] h = refl
split-free (c ∷ cs) h =
    let (a, b) = or_false (c == slash) (contains slash cs) h in
    rw a (ap (cons_head c) (split-free cs b))

split-append : (p t : Text) → contains slash p ≡ false → split (p ++ slash ∷ t) ≡ p ∷ split t
unfolding split
split-append [] t h = refl
split-append (c ∷ cs) t h =
    let (a, b) = or_false (c == slash) (contains slash cs) h in
    rw a (ap (cons_head c) (split-append cs t b))

split-join : (p : Text) (ps : List Text) → All IsPlain (p ∷ ps) → split (join (p ∷ ps)) ≡ p ∷ ps
split-join p [] (h, _) = split-free p h.0
split-join p (q ∷ ps) (h, hs) =
    split-append p (join (q ∷ ps)) h.0 ∙ ap (λ l. p ∷ l) (split-join q ps hs)

cons_head-IsPlain :
    (c : ℕ) (ps : List Text)
    → (c == slash) ≡ false
    → (c == backslash) ≡ false
    → All IsPlain ps
    → All IsPlain (cons_head c ps)
cons_head-IsPlain c [] a b h = ((rw a refl, rw b refl), tt)
cons_head-IsPlain c (p ∷ ps) a b ((k, l), hs) = ((rw a k, rw b l), hs)

split-IsPlain : (t : Text) → contains backslash t ≡ false → All IsPlain (split t)
unfolding split
split-IsPlain [] h = ((refl, refl), tt)
split-IsPlain (c ∷ t) h =
    let (b, k) = or_false (c == backslash) (contains backslash t) h in
    elim (Bool-cases (c == slash)) [
      | inl s ↦ rw s ((refl, refl), split-IsPlain t k)
      | inr s ↦ rw s (cons_head-IsPlain c (split t) s b (split-IsPlain t k))
    ]

unslash-free : (t : Text) → contains backslash (map unslash t) ≡ false
unslash-free [] = refl
unslash-free (c ∷ t) = ground (arith, unslash-free t)

map-unslash : (t : Text) → contains backslash t ≡ false → map unslash t ≡ t
map-unslash [] h = refl
map-unslash (c ∷ t) h =
    let (a, b) = or_false (c == backslash) (contains backslash t) h in
    rw a (ap (λ l. c ∷ l) (map-unslash t b))

filter-IsPlain : (f : Text → Bool) (ps : List Text) → All IsPlain ps → All IsPlain (filter f ps)
filter-IsPlain f [] h = tt
filter-IsPlain f (p ∷ ps) (h, hs) = elim (Bool-cases (f p)) [
  | inl k ↦ rw k (h, filter-IsPlain f ps hs)
  | inr k ↦ rw k (filter-IsPlain f ps hs)
]

filter-all : (f : Text → Bool) (ps : List Text) → all f (filter f ps) ≡ true
filter-all f [] = refl
filter-all f (p ∷ ps) = ground (arith, filter-all f ps)

all-filter : (f : Text → Bool) (ps : List Text) → all f ps ≡ true → filter f ps ≡ ps
all-filter f [] h = refl
all-filter f (p ∷ ps) h = ground (arith, h, all-filter f ps)

contains-append :
    (c : ℕ) (xs ys : Text)
    → contains c xs ≡ false
    → contains c ys ≡ false
    → contains c (xs ++ ys) ≡ false
contains-append c [] ys h k = k
contains-append c (x ∷ xs) ys h k =
    let (a, b) = or_false (x == c) (contains c xs) h in rw a (contains-append c xs ys b k)

join-free : (ps : List Text) → All IsPlain ps → contains backslash (join ps) ≡ false
join-free [] h = refl
join-free (p ∷ []) (h, _) = h.1
join-free (p ∷ q ∷ ps) (h, hs) =
    contains-append backslash p (slash ∷ join (q ∷ ps)) h.1 (join-free (q ∷ ps) hs)

-- A name as it is shown: empty, or without a backslash and in segments that no file system resolves
-- away, "", "." or "..".
abbrev pub IsNormal : Text → Type 0
IsNormal name =
    (name ≡ [])
    ⊎ ((contains backslash name ≡ false) × (all (λ p. not (is_special p)) (split name) ≡ true))

join-IsNormal :
    (ps : List Text) → All IsPlain ps → all (λ p. not (is_special p)) ps ≡ true → IsNormal (join ps)
join-IsNormal [] h k = inl refl
join-IsNormal (p ∷ ps) h k = inr (
  join-free (p ∷ ps) h,
  subst (λ l. all (λ p. not (is_special p)) l ≡ true) (sym (split-join p ps h)) k,
)

IsNormal-same : (name : Text) → IsNormal name → normalize_member_name name ≡ name
unfolding normalize_member_name split
IsNormal-same name (inl e) = subst (λ n. normalize_member_name n ≡ n) (sym e) empty
  where
    empty : normalize_member_name [] ≡ []
    empty = refl
IsNormal-same name (inr (b, k)) =
    rw (map-unslash name b)
      (rw (all-filter (λ p. not (is_special p)) (split name) k) (join-split name))

-- A member's normalized name is normal, and normalizing it again does not change it.
pub normalize_member_name-IsNormal :
    (name : Text)
    → IsNormal (normalize_member_name name)
      × (normalize_member_name (normalize_member_name name) ≡ normalize_member_name name)
unfolding normalize_member_name
normalize_member_name-IsNormal name =
    let plain =
      filter-IsPlain (λ p. not (is_special p)) (split (map unslash name))
        (split-IsPlain (map unslash name) (unslash-free name)) in
    let normal =
      join-IsNormal (filter (λ p. not (is_special p)) (split (map unslash name))) plain
        (filter-all (λ p. not (is_special p)) (split (map unslash name))) in
    (normal, IsNormal-same (normalize_member_name name) normal)
