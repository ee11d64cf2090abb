-- ===== src/Audit/Purge.antt =====
-- backend/app/audit_purge.py: the retention sweep removes a prefix of the log, moves the anchor to the
-- newest row it removes, and leaves what is young.
use perchtail.Prelude.{
  ℕ, suc, subst, ◌<◌, ◌≤◌, ◌*◌, ◌-◌, ◌≡◌, refl, ap, sym, Bool, Bool-cases, inl, inr, Option,
  Option-cases, none, some, String, List, [], ◌∷◌, ◌++◌, All, filter, ltb, leb, arith,
}
use perchtail.Audit.{
  AuditLog, AuditChainState, Log, Canonical, anchor_of, first_not_old_id, in_prefix, not_in_prefix,
  last_row, moved_anchor, run_audit_purge_sweep,
}
use perchtail.Audit.Chain.{IsChained, end_of, IsChained-right}

-- The table is listed by its ids.
abbrev pub IsAscending : List AuditLog → Type 0
IsAscending [] = Unit
IsAscending (r ∷ rs) = All (λ s. r.id < s.id) rs × IsAscending rs

filter-in_prefix-beyond :
    (first : ℕ) (id : ℕ) (rs : List AuditLog)
    → first ≤ id
    → All (λ s. id < s.id) rs
    → filter (in_prefix (some first)) rs ≡ []
filter-in_prefix-beyond first id [] h a = refl
filter-in_prefix-beyond first id (r ∷ rs) h (a, b) =
    ground (arith, filter-in_prefix-beyond first id rs h b)

filter-not_in_prefix-beyond :
    (first : ℕ) (id : ℕ) (rs : List AuditLog)
    → first ≤ id
    → All (λ s. id < s.id) rs
    → filter (not_in_prefix (some first)) rs ≡ rs
filter-not_in_prefix-beyond first id [] h a = refl
filter-not_in_prefix-beyond first id (r ∷ rs) h (a, b) =
    ground (arith, filter-not_in_prefix-beyond first id rs h b)

-- The rows below an id come first.
filter-prefix :
    (first : ℕ) (rs : List AuditLog)
    → IsAscending rs
    → filter (in_prefix (some first)) rs ++ filter (not_in_prefix (some first)) rs ≡ rs
filter-prefix first [] a = refl
filter-prefix first (r ∷ rs) (a, b) = elim (Bool-cases (ltb r.id first)) [
  | inl h ↦ rw h (ap (λ xs. r ∷ xs) (filter-prefix first rs b))
  | inr h ↦
      let le : first ≤ r.id = ground arith in
      let p = filter-in_prefix-beyond first r.id rs le a in
      let q = filter-not_in_prefix-beyond first r.id rs le a in rw h (rw p (rw q refl))
]

append_nil : (rs : List AuditLog) → rs ++ [] ≡ rs
append_nil [] = refl
append_nil (r ∷ rs) = ap (λ xs. r ∷ xs) (append_nil rs)

filter-all : (rs : List AuditLog) → filter (in_prefix none) rs ≡ rs
filter-all [] = refl
filter-all (r ∷ rs) = ap (λ xs. r ∷ xs) (filter-all rs)

filter-none : (rs : List AuditLog) → filter (not_in_prefix none) rs ≡ []
filter-none [] = refl
filter-none (r ∷ rs) = filter-none rs

prefix-split :
    (first : Option ℕ) (rs : List AuditLog)
    → IsAscending rs
    → rs ≡ filter (in_prefix first) rs ++ filter (not_in_prefix first) rs
prefix-split (some first) rs a = sym (filter-prefix first rs a)
prefix-split none rs a = rw (filter-all rs) (rw (filter-none rs) (sym (append_nil rs)))

-- The hash behind a list is that of its last row.
last_row-end_of :
    (prev : Option String) (r : AuditLog) (rs : List AuditLog)
    → (s : AuditLog) × (last_row (r ∷ rs) ≡ some s) × (end_of prev (r ∷ rs) ≡ s.row_hash)
unfolding last_row
last_row-end_of prev r [] = (r, refl, refl)
last_row-end_of prev r (s ∷ rs) = last_row-end_of r.row_hash s rs

abbrev pub is_young : ℕ → AuditLog → Bool
is_young cutoff r = leb cutoff r.timestamp

IsBelow : Option ℕ → Option ℕ → Type 0
IsBelow first none = Unit
IsBelow none (some m) = 1 ≤ 0
IsBelow (some first) (some m) = first ≤ m

IsBelow-refl : (first : Option ℕ) → IsBelow first first
unfolding IsBelow
IsBelow-refl none = tt
IsBelow-refl (some first) = omega arith

-- Every young row has an id from the boundary on.
filter-is_young :
    (cutoff : ℕ) (first : Option ℕ) (rs : List AuditLog)
    → IsBelow first (first_not_old_id cutoff rs)
    → filter (is_young cutoff) (filter (not_in_prefix first) rs) ≡ filter (is_young cutoff) rs
unfolding first_not_old_id IsBelow
filter-is_young cutoff first [] h = refl
filter-is_young cutoff none (r ∷ rs) h = elim (Option-cases (first_not_old_id cutoff rs)) [
  | inl e ↦ let ih = filter-is_young cutoff none rs in ground (arith, ih, e)
  | inr (m, e) ↦ let ih = filter-is_young cutoff none rs in ground (arith, ih, e)
]
filter-is_young cutoff (some first) (r ∷ rs) h = elim (Option-cases (first_not_old_id cutoff rs)) [
  | inl e ↦ let ih = filter-is_young cutoff (some first) rs in ground (arith, ih, e)
  | inr (m, e) ↦ let ih = filter-is_young cutoff (some first) rs in ground (arith, ih, e)
]

anchor_of-moved_anchor :
    (state : Option AuditChainState) (rs : List AuditLog)
    → anchor_of (moved_anchor (last_row rs) state) ≡ end_of (anchor_of state) rs
unfolding last_row
anchor_of-moved_anchor state [] = refl
anchor_of-moved_anchor state (r ∷ rs) =
    let (s, p, q) = last_row-end_of (anchor_of state) r rs in rw p (rw q refl)

module _ (digest : Canonical → String) where
  -- The retention sweep keeps a log chained: where the rows are listed by ascending ids and chained from
  -- the anchor, what the sweep leaves is chained from the anchor that it moves, at any retention.
  pub run_audit_purge_sweep-IsChained :
      (retention_days now : ℕ) (log : Log)
      → IsAscending log.rows
      → IsChained digest (anchor_of log.state) log.rows
      → IsChained digest
          (anchor_of (run_audit_purge_sweep retention_days now log).state)
          (run_audit_purge_sweep retention_days now log).rows
  unfolding run_audit_purge_sweep
  run_audit_purge_sweep-IsChained ℕ.zero now log a h = h
  run_audit_purge_sweep-IsChained (suc d) now log a h =
      let first = first_not_old_id (now - suc d * 86_400) log.rows in
      let old = filter (in_prefix first) log.rows in
      let young = filter (not_in_prefix first) log.rows in
      let k = subst (IsChained digest (anchor_of log.state)) (prefix-split first log.rows a) h in
      subst (λ p. IsChained digest p young) (sym (anchor_of-moved_anchor log.state old))
        (IsChained-right digest (anchor_of log.state) old young k)

-- The retention sweep removes no row that is young: the rows stamped at the cutoff or after it are the
-- same before and after, in the same order, and where the retention is 0 nothing at all changes.
pub run_audit_purge_sweep-young :
    (retention_days now : ℕ) (log : Log)
    → (filter
          (is_young (now - retention_days * 86_400))
          (run_audit_purge_sweep retention_days now log).rows
        ≡ filter (is_young (now - retention_days * 86_400)) log.rows)
      × (retention_days ≡ 0 → run_audit_purge_sweep retention_days now log ≡ log)
unfolding run_audit_purge_sweep
run_audit_purge_sweep-young ℕ.zero now log = (refl, λ h. refl)
run_audit_purge_sweep-young (suc d) now log =
    let cutoff = now - suc d * 86_400 in
    let first = first_not_old_id cutoff log.rows in
    (filter-is_young cutoff first log.rows (IsBelow-refl first), λ h. ground arith)
