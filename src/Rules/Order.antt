-- ===== src/Rules/Order.antt =====
-- The rule chain: the stable sort by order, and the last match that decides.
use mathlib.Core.Bool.{false≢true}
use mathlib.Core.List.{Perm}
use mathlib.Core.List.Perm
use perchtail.Prelude.{
  ℕ, ◌≤◌, ◌<◌, ◌≡◌, refl, sym, ◌∙◌, Bool, true, false, ◌&&◌, not, List, [], ◌∷◌, ◌++◌, ◌≢◌, any,
  All, leb, Bool-cases, inl, inr, ◌⊎◌, ◌↔◌, or_inr, arith,
}
use perchtail.Model.{Text, Rule, is_include}
use perchtail.Rules.{
  Engine, rule_matches, verdict_from, is_visible, is_cover, may_reach, dir_scan, is_dir_visible,
  insert_rule, sort_rules,
}
use perchtail.Rules.Glob.{slash}
use perchtail.Rules.Segments.{split}
use perchtail.Rules.Run.{NoNewline, SlashAlone}
use perchtail.Rules.Folders.{is_cover_sound}

insert_rule-perm : (r : Rule) (rs : List Rule) → Perm (insert_rule r rs) (r ∷ rs)
unfolding insert_rule
insert_rule-perm r [] = Perm.refl (r ∷ [])
insert_rule-perm r (q ∷ rs) = elim (Bool-cases (leb r.order q.order)) [
  | inl h ↦ rw h (Perm.refl _)
  | inr h ↦ rw h (Perm.trans (Perm.cons q (insert_rule-perm r rs)) (Perm.swap _ _ _))
]

sort_rules-perm : (rs : List Rule) → Perm (sort_rules rs) rs
unfolding sort_rules
sort_rules-perm [] = Perm.refl []
sort_rules-perm (r ∷ rs) =
    Perm.trans (insert_rule-perm r (sort_rules rs)) (Perm.cons r (sort_rules-perm rs))

-- Every rule has an order that is at most that of each rule behind it.
abbrev pub IsOrdered : List Rule → Type 0
IsOrdered [] = Unit
IsOrdered (r ∷ rs) = All (λ q. r.order ≤ q.order) rs × IsOrdered rs

All-le_trans :
    (n m : ℕ) (rs : List Rule) → n ≤ m → All (λ q. m ≤ q.order) rs → All (λ q. n ≤ q.order) rs
All-le_trans n m [] h k = tt
All-le_trans n m (q ∷ rs) h (l, k) = (omega arith, All-le_trans n m rs h k)

All-insert_rule :
    (P : Rule → Type 0) (r : Rule) (rs : List Rule) → P r → All P rs → All P (insert_rule r rs)
unfolding insert_rule
All-insert_rule P r [] h k = (h, tt)
All-insert_rule P r (q ∷ rs) h (l, k) = elim (Bool-cases (leb r.order q.order)) [
  | inl e ↦ rw e (h, (l, k))
  | inr e ↦ rw e (l, All-insert_rule P r rs h k)
]

insert_rule-IsOrdered : (r : Rule) (rs : List Rule) → IsOrdered rs → IsOrdered (insert_rule r rs)
unfolding insert_rule
insert_rule-IsOrdered r [] h = (tt, tt)
insert_rule-IsOrdered r (q ∷ rs) (l, k) = elim (Bool-cases (leb r.order q.order)) [
  | inl e ↦ rw e ((ground arith, All-le_trans r.order q.order rs (ground arith) l), (l, k))
  | inr e ↦
      rw e (
        All-insert_rule (λ p. q.order ≤ p.order) r rs (ground arith) l,
        insert_rule-IsOrdered r rs k,
      )
]

sort_rules-IsOrdered : (rs : List Rule) → IsOrdered (sort_rules rs)
unfolding sort_rules
sort_rules-IsOrdered [] = tt
sort_rules-IsOrdered (r ∷ rs) = insert_rule-IsOrdered r (sort_rules rs) (sort_rules-IsOrdered rs)

-- The chain is the rules of the source, none lost or added, in ascending order.
pub sort_rules_lem : (rs : List Rule) → Perm (sort_rules rs) rs × IsOrdered (sort_rules rs)
sort_rules_lem rs = (sort_rules-perm rs, sort_rules-IsOrdered rs)

insert_rule-last :
    (r x : Rule) (rs : List Rule)
    → r.order ≤ x.order
    → insert_rule r (rs ++ x ∷ []) ≡ insert_rule r rs ++ x ∷ []
unfolding insert_rule
insert_rule-last r x [] h = ground arith
insert_rule-last r x (q ∷ rs) h = elim (Bool-cases (leb r.order q.order)) [
  | inl e ↦ rw e
  | inr e ↦ rw (e, insert_rule-last r x rs h)
]

All-sort_rules : (P : Rule → Type 0) (rs : List Rule) → All P rs → All P (sort_rules rs)
unfolding sort_rules
All-sort_rules P [] h = tt
All-sort_rules P (r ∷ rs) (l, h) = All-insert_rule P r (sort_rules rs) l (All-sort_rules P rs h)

insert_rule-largest :
    (x : Rule) (rs : List Rule) → All (λ q. q.order < x.order) rs → insert_rule x rs ≡ rs ++ x ∷ []
unfolding insert_rule
insert_rule-largest x [] h = refl
insert_rule-largest x (q ∷ rs) (l, h) =
    let e : leb x.order q.order ≡ false = ground arith in rw (e, insert_rule-largest x rs h)

-- Wherever it is stored, a rule is evaluated last if its order is at least that of each rule stored
-- before it and more than that of each rule stored behind it.
pub sort_rules-largest :
    (before after : List Rule) (x : Rule)
    → All (λ q. q.order ≤ x.order) before
    → All (λ q. q.order < x.order) after
    → sort_rules (before ++ x ∷ after) ≡ sort_rules (before ++ after) ++ x ∷ []
unfolding sort_rules
sort_rules-largest [] after x h k =
    insert_rule-largest x (sort_rules after) (All-sort_rules (λ q. q.order < x.order) after k)
sort_rules-largest (r ∷ before) after x (l, h) k =
    rw (sort_rules-largest before after x h k)
      (insert_rule-last r x (sort_rules (before ++ after)) l)

module _ (e : Engine) (ignore_case : Bool) (path : Text) where
  -- `r` is the last rule of the chain that matches the path.
  pub data Decides (r : Rule) : List Rule → Type 0 where
    last :
        {rs : List Rule}
        → rule_matches e ignore_case path r ≡ true
        → All (λ q. rule_matches e ignore_case path q ≡ false) rs
        → Decides r (r ∷ rs)
    later : {q : Rule} {rs : List Rule} → Decides r rs → Decides r (q ∷ rs)

  abbrev Unmatched : List Rule → Type 0
  Unmatched = All (λ q. rule_matches e ignore_case path q ≡ false)

  verdict-Unmatched :
      (rs : List Rule) (v : Bool) → Unmatched rs → verdict_from e ignore_case v path rs ≡ v
  unfolding verdict_from
  verdict-Unmatched [] v h = refl
  verdict-Unmatched (q ∷ rs) v (l, h) = rw l (verdict-Unmatched rs v h)

  verdict-Decides :
      {r : Rule} {rs : List Rule} (v : Bool)
      → Decides r rs
      → verdict_from e ignore_case v path rs ≡ is_include r.type
  unfolding verdict_from
  verdict-Decides {r} v (last {rs = rs} m h) = rw m (verdict-Unmatched rs (is_include r.type) h)
  verdict-Decides v (later d) = verdict-Decides _ d

  decide : (rs : List Rule) → Unmatched rs ⊎ ((r : Rule) × Decides r rs)
  decide [] = inl tt
  decide (q ∷ rs) = elim (decide rs) [
    | inr (r, d) ↦ inr (r, later d)
    | inl h ↦ elim (Bool-cases (rule_matches e ignore_case path q)) [
      | inl m ↦ inr (q, last m h)
      | inr m ↦ inl (m, h)
    ]
  ]

-- A path is visible exactly when the last rule of the ordered chain that matches it is an include;
-- so with no rule, or no rule that matches, it is hidden.
pub is_visible_iff :
    (e : Engine) (ignore_case : Bool) (path : Text) (rules : List Rule)
    → (is_visible e ignore_case path rules ≡ true)
      ↔ ((r : Rule) × Decides e ignore_case path r (sort_rules rules) × (is_include r.type ≡ true))
unfolding is_visible
is_visible_iff e ignore_case path rules = (
  λ h. elim (decide e ignore_case path (sort_rules rules)) [
    | inl u ↦ absurd (false≢true (sym (verdict-Unmatched e ignore_case path _ false u) ∙ h))
    | inr (r, d) ↦ (r, d, sym (verdict-Decides e ignore_case path false d) ∙ h)
  ],
  λ (r, d, i). verdict-Decides e ignore_case path false d ∙ i,
)

verdict-last :
    (e : Engine) (ignore_case : Bool) (path : Text) (rs : List Rule) (x : Rule) (v : Bool)
    → rule_matches e ignore_case path x ≡ true
    → verdict_from e ignore_case v path (rs ++ x ∷ []) ≡ is_include x.type
unfolding verdict_from
verdict-last e ignore_case path [] x v m = rw m
verdict-last e ignore_case path (r ∷ rs) x v m = verdict-last e ignore_case path rs x _ m

off : (b c : Bool) → c ≡ true → (b && not c) ≡ false
off b c h = ground arith

any-last : (p : Rule → Bool) (rs : List Rule) (x : Rule) → p x ≡ true → any p (rs ++ x ∷ []) ≡ true
any-last p [] x h = rw h
any-last p (q ∷ rs) x h = or_inr _ _ (any-last p rs x h)

scan-last :
    (e : Engine) (ignore_case : Bool) (segments : List Text) (rs : List Rule) (x : Rule)
    → is_cover e ignore_case segments x ≡ true
    → is_include x.type ≡ false
    → dir_scan e ignore_case segments (rs ++ x ∷ []) ≡ false
unfolding dir_scan
scan-last e ignore_case segments [] x c i = unfold may_reach in rw i
scan-last e ignore_case segments (r ∷ rs) x c i =
    rw
      (off (may_reach e ignore_case segments r) _
        (any-last (is_cover e ignore_case segments) rs x c))
      (scan-last e ignore_case segments rs x c i)

-- Wherever it is stored among the rules, a rule that excludes everything below `dir` hides every file
-- below `dir` whose path holds no newline, and hides `dir` itself unless it is the root, where its
-- order is at least that of each rule stored before it and more than that of each rule stored behind.
pub cover-hides :
    (e : Engine) (ignore_case : Bool) (before after : List Rule) (x : Rule) (dir r : Text)
    → SlashAlone e.fold
    → All (λ q. q.order ≤ x.order) before
    → All (λ q. q.order < x.order) after
    → is_cover e ignore_case (split dir) x ≡ true
    → NoNewline (dir ++ slash ∷ r)
    → (is_visible e ignore_case (dir ++ slash ∷ r) (before ++ x ∷ after) ≡ false)
      × (dir ≢ [] → is_dir_visible e ignore_case dir (before ++ x ∷ after) ≡ false)
cover-hides e ignore_case before after x dir r alone most more c n =
    let (i, m) = is_cover_sound e alone ignore_case dir r n x c in
    let chain = sort_rules-largest before after x most more in
    let rest = sort_rules (before ++ after) in
    (
      unfold is_visible in rw chain (verdict-last e ignore_case _ rest x false m ∙ i),
      folder dir chain (scan-last e ignore_case (split dir) rest x c i),
    )
  where
    folder :
        (d : Text)
        → sort_rules (before ++ x ∷ after) ≡ sort_rules (before ++ after) ++ x ∷ []
        → dir_scan e ignore_case (split d) (sort_rules (before ++ after) ++ x ∷ []) ≡ false
        → d ≢ []
        → is_dir_visible e ignore_case d (before ++ x ∷ after) ≡ false
    folder [] chain f ne = absurd (ne refl)
    folder (h ∷ t) chain f ne = unfold is_dir_visible in rw chain f
