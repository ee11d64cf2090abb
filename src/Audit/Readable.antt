-- ===== src/Audit/Readable.antt =====
-- backend/app/audit_integrity.py: where every stored hash is ASCII, the verification returns.
use perchtail.Prelude.{
  ℕ, ◌≡◌, refl, Bool, true, false, ◌&&◌, ◌||◌, not, if◌then◌else◌, Bool-cases, inl, inr, Option,
  none, some, String, List, [], ◌∷◌, All, All-append, is_some, arith, ◌==◌, nat_eq, ltb, string_eq,
  option_eq,
}
use perchtail.Prelude.Table.{get, replace}
use perchtail.Run.{ok}
use perchtail.Audit.{AuditLog, Log, Canonical, compute_row_hash, anchor_of}
use perchtail.Audit.Walk.{
  KnownBreak, KnownBreaks, set_break, is_ascii, hashes_match, Present, Walk, Verdict, whole, known,
  race, tampered, at_most, seen_of, is_explained, classify, note, advance,
}
use perchtail.Audit.Verify.{present_hash, is_missing, update_breaks}

abbrev pub IsAscii : Option String → Type 0
IsAscii none = Unit
IsAscii (some h) = is_ascii h ≡ true

abbrev pub IsReadableRow : AuditLog → Type 0
IsReadableRow r = IsAscii r.prev_hash × IsAscii r.row_hash

-- The hashes that a log stores are ASCII, as those are that the program writes.
abbrev pub IsReadable : Log → Type 0
IsReadable log = IsAscii (anchor_of log.state) × All IsReadableRow log.rows

-- The hashes of recorded rows are ASCII.
abbrev pub AreReadable : List KnownBreak → Type 0
AreReadable = All (λ (b : KnownBreak). is_ascii b.row_hash ≡ true)

abbrev pub IsReadableWalk : Walk → Type 0
IsReadableWalk w = IsAscii w.expected_prev × All (λ (p : Present). IsAscii p.row_hash) w.present

abbrev IsReadableBreak : Option KnownBreak → Type 0
IsReadableBreak none = Unit
IsReadableBreak (some b) = is_ascii b.row_hash ≡ true

pub hashes_match-IsAscii :
    (a b : Option String) → IsAscii a → IsAscii b → hashes_match a b ≡ ok (a == b)
unfolding hashes_match
hashes_match-IsAscii none none h k = refl
hashes_match-IsAscii none (some b) h k = refl
hashes_match-IsAscii (some a) none h k = refl
hashes_match-IsAscii (some a) (some b) h k = rw (h, k) refl

get-IsReadableBreak :
    (id : ℕ) (bs : List KnownBreak)
    → AreReadable bs
    → IsReadableBreak (get (λ (b : KnownBreak). b.id) id bs)
unfolding get
get-IsReadableBreak id [] h = tt
get-IsReadableBreak id (b ∷ bs) (l, h) = elim (Bool-cases (b.id == id)) [
  | inl e ↦ rw e l
  | inr e ↦ rw e (get-IsReadableBreak id bs h)
]

present-IsAscii :
    (id : ℕ) (ps : List Present)
    → All (λ (p : Present). IsAscii p.row_hash) ps
    → IsAscii (present_hash (get (λ (p : Present). p.id) id ps))
unfolding get
present-IsAscii id [] h = tt
present-IsAscii id (p ∷ ps) (l, h) = elim (Bool-cases (p.id == id)) [
  | inl e ↦ rw e l
  | inr e ↦ rw e (present-IsAscii id ps h)
]

replace-AreReadable :
    (b : KnownBreak) (bs : List KnownBreak)
    → is_ascii b.row_hash ≡ true
    → AreReadable bs
    → AreReadable (replace (λ (x : KnownBreak). x.id) b bs)
unfolding replace
replace-AreReadable b [] h k = tt
replace-AreReadable b (x ∷ bs) h (l, k) = elim (Bool-cases (x.id == b.id)) [
  | inl e ↦ rw e (h, replace-AreReadable b bs h k)
  | inr e ↦ rw e (l, replace-AreReadable b bs h k)
]

set_break-AreReadable :
    (b : KnownBreak) (bs : List KnownBreak)
    → is_ascii b.row_hash ≡ true
    → AreReadable bs
    → AreReadable (set_break b bs)
set_break-AreReadable b bs h k =
    elim (Bool-cases (is_some (get (λ (x : KnownBreak). x.id) b.id bs))) [
      | inl e ↦ rw e (replace-AreReadable b bs h k)
      | inr e ↦ rw e (All-append _ bs (b ∷ []) k (h, tt))
    ]

pub update_breaks-AreReadable :
    (ls bs : List KnownBreak) → AreReadable ls → AreReadable bs → AreReadable (update_breaks ls bs)
update_breaks-AreReadable [] bs h k = k
update_breaks-AreReadable (l ∷ ls) bs (p, h) k =
    update_breaks-AreReadable ls (set_break l bs) h (set_break-AreReadable l bs p k)

pub is_missing-returns :
    (purged : ℕ) (ps : List Present) (b : KnownBreak)
    → All (λ (p : Present). IsAscii p.row_hash) ps
    → is_ascii b.row_hash ≡ true
    → (m : Bool) × (is_missing purged ps b ≡ ok m)
unfolding is_missing
is_missing-returns purged ps b h k = elim (Bool-cases (ltb purged b.id)) [
  | inl e ↦
      let stored = present_hash (get (λ (p : Present). p.id) b.id ps) in
      let m = hashes_match-IsAscii stored (some b.row_hash) (present-IsAscii b.id ps h) k in
      (not (stored == some b.row_hash), rw e (rw m refl))
  | inr e ↦ (false, rw e refl)
]

is_explained-returns :
    (anchor : Option ℕ) (parent_known : Bool) (r : AuditLog) (b : Option KnownBreak)
    → IsAscii r.row_hash
    → IsReadableBreak b
    → (m : Bool) × (is_explained anchor parent_known r b ≡ ok m)
unfolding is_explained
is_explained-returns anchor parent_known r none h k = (false, refl)
is_explained-returns anchor parent_known r (some b) h k = (
  r.row_hash == some b.row_hash && (parent_known || at_most b.parent_id anchor),
  rw (hashes_match-IsAscii r.row_hash (some b.row_hash) h k) refl,
)

pub advance-IsReadableWalk :
    (v : Verdict) (r : AuditLog) (w : Walk)
    → IsReadableRow r
    → IsReadableWalk w
    → IsReadableWalk (advance r (note v r w))
advance-IsReadableWalk whole r w (_, h) (_, k) = (h, All-append _ w.present _ k (h, tt))
advance-IsReadableWalk known r w (_, h) (_, k) = (h, All-append _ w.present _ k (h, tt))
advance-IsReadableWalk race r w (_, h) (_, k) = (h, All-append _ w.present _ k (h, tt))
advance-IsReadableWalk tampered r w (_, h) (_, k) = (h, All-append _ w.present _ k (h, tt))

module _ (digest : Canonical → String) where
  -- The row's hash is that of its contents under the key.
  abbrev pub fits : AuditLog → Bool
  fits r = r.row_hash == some (compute_row_hash digest r.prev_hash r)

  abbrev pub is_linked : AuditLog → Walk → Bool
  is_linked r w = r.prev_hash == w.expected_prev

  -- A row that fits and links is whole; one that does not fit is tampered with.
  pub classify-returns :
      ((c : Canonical) → is_ascii (digest c) ≡ true)
      → (recs : KnownBreaks) (anchor cutoff : Option ℕ) (w : Walk) (r : AuditLog)
      → AreReadable recs.breaks
      → IsReadableRow r
      → IsAscii w.expected_prev
      → (v : Verdict) × (classify digest recs anchor cutoff w r ≡ ok v)
        × ((fits r && is_linked r w) ≡ true → v ≡ whole)
        × (fits r ≡ false → v ≡ tampered)
  unfolding classify
  classify-returns hex recs anchor cutoff w r bs (rp, rh) wp =
      let p =
        hashes_match-IsAscii r.row_hash (some (compute_row_hash digest r.prev_hash r)) rh (hex _) in
      let l = hashes_match-IsAscii r.prev_hash w.expected_prev rp wp in
      elim (Bool-cases (fits r)) [
        | inr e ↦ (tampered, rw p (rw l (rw e refl)), λ h. ground (arith, h, e), λ _. refl)
        | inl e ↦ elim (Bool-cases (is_linked r w)) [
          | inl k ↦ (whole, rw p (rw l (rw e (rw k refl))), λ _. refl, λ h. ground (arith, h, e))
          | inr k ↦
              let parent_known = is_some (seen_of r.prev_hash w.earlier) in
              let (m, x) =
                is_explained-returns anchor parent_known r
                  (get (λ (b : KnownBreak). b.id) r.id recs.breaks) rh
                  (get-IsReadableBreak r.id recs.breaks bs) in
              (
                if m
                    then known
                    else if parent_known && at_most (some r.id) cutoff
                    then race
                    else tampered,
                rw p (rw l (rw e (rw k (rw x refl)))),
                λ h. ground (arith, h, e, k),
                λ h. ground (arith, h, e),
              )
        ]
      ]
