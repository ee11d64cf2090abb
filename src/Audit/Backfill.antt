-- ===== src/Audit/Backfill.antt =====
-- backend/app/audit_hash_chain.py: `backfill_chain_if_needed` on a log that was never chained.
use perchtail.Prelude.{
  suc, ◌≡◌, refl, ap, sym, subst, Option, none, some, String, List, [], ◌∷◌, All, length,
  Option-cases, inl, inr, arith,
}
use perchtail.Audit.{
  AuditLog, Log, Canonical, anchor_of, last_hash, current_chain_tip, compute_row_hash,
  backfill_rows, backfill_chain_if_needed,
}
use perchtail.Audit.Chain.{IsChained}

abbrev pub IsUnhashed : List AuditLog → Type 0
IsUnhashed rs = All (λ r. r.row_hash ≡ none) rs

last_hash-IsUnhashed : (rs : List AuditLog) → IsUnhashed rs → last_hash rs ≡ none
unfolding last_hash
last_hash-IsUnhashed [] h = refl
last_hash-IsUnhashed (r ∷ []) (h, k) = h
last_hash-IsUnhashed (r ∷ s ∷ rs) (h, k) = last_hash-IsUnhashed (s ∷ rs) k

module _ (digest : Canonical → String) where
  backfill_rows-IsChained :
      (prev : Option String) (rs : List AuditLog)
      → IsUnhashed rs
      → IsChained digest prev (backfill_rows digest prev rs).0
        × ((backfill_rows digest prev rs).1 ≡ length rs)
  unfolding backfill_rows
  backfill_rows-IsChained prev [] h = (tt, refl)
  backfill_rows-IsChained prev (r ∷ rs) (h, k) =
      let (c, n) = backfill_rows-IsChained (some (compute_row_hash digest prev r)) rs k in
      rw h ((refl, refl, c), ap suc n)

  -- A second run finds nothing to chain.
  backfill_rows-again :
      (prev tip : Option String) (rs : List AuditLog)
      → backfill_rows digest tip (backfill_rows digest prev rs).0
        ≡ ((backfill_rows digest prev rs).0, 0)
  unfolding backfill_rows
  backfill_rows-again prev tip [] = refl
  backfill_rows-again prev tip (r ∷ rs) = elim (Option-cases r.row_hash) [
    | inl e ↦
        let ih = backfill_rows-again (some (compute_row_hash digest prev r)) tip rs in
        ground (arith, e, ih)
    | inr (h, e) ↦ let ih = backfill_rows-again prev tip rs in ground (arith, e, ih)
  ]

  -- Backfilling a log that has no hash yet chains all of it from the anchor and counts every row.
  pub backfill_chain_if_needed-IsChained :
      (log : Log)
      → IsUnhashed log.rows
      → IsChained digest (anchor_of log.state) (backfill_chain_if_needed digest log).0.rows
        × ((backfill_chain_if_needed digest log).1 ≡ length log.rows)
  unfolding backfill_chain_if_needed current_chain_tip
  backfill_chain_if_needed-IsChained log h =
      let tip : current_chain_tip log ≡ anchor_of log.state =
        rw (current_chain_tip, last_hash-IsUnhashed log.rows h) refl in
      subst
        (λ p.
          IsChained digest (anchor_of log.state) (backfill_rows digest p log.rows).0
          × ((backfill_rows digest p log.rows).1 ≡ length log.rows))
        (sym tip) (backfill_rows-IsChained (anchor_of log.state) log.rows h)

  -- Backfilling is idempotent: on any log, a second run changes no row and reports 0.
  pub backfill_chain_if_needed-again :
      (log : Log)
      → backfill_chain_if_needed digest (backfill_chain_if_needed digest log).0
        ≡ ((backfill_chain_if_needed digest log).0, 0)
  unfolding backfill_chain_if_needed
  backfill_chain_if_needed-again log =
      let e = backfill_rows-again (current_chain_tip log) _ log.rows in
      ap (λ p. (record log { rows = p.0 }, p.1)) e
