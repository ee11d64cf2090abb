-- ===== src/Audit/Intact.antt =====
-- backend/app/audit_integrity.py: where no break is recorded, the verification accepts the chained logs
-- and no other.
use mathlib.Core.Bool.{false≢true}
use perchtail.Prelude.{
  ℕ, ◌≡◌, refl, sym, ap, ◌∙◌, ◌↔◌, true, false, ◌&&◌, Bool-cases, inl, inr, Option, none, some,
  String, List, [], ◌∷◌, All, arith, and_true, ◌==◌, ==_iff, string_eq, option_eq,
}
use perchtail.Prelude.Table.{get}
use perchtail.Run.{ok, ok_inj}
use perchtail.Audit.{AuditLog, Log, Canonical, compute_row_hash, anchor_of}
use perchtail.Audit.Chain.{IsChained}
use perchtail.Audit.Walk.{
  KnownBreaks, recorded_known_breaks, is_ascii, Walk, whole, tampered, classify, note, advance,
  walk_rows,
}
use perchtail.Audit.Verify.{
  check_present, sorted, status_of, walk, verify_walk, verify_chain, start, anchor_row_of,
  cutoff_of, ChainVerificationResult,
}
use perchtail.Audit.Readable.{
  IsAscii, IsReadableRow, IsReadable, IsReadableWalk, hashes_match-IsAscii, advance-IsReadableWalk,
  fits, is_linked, classify-returns,
}
use perchtail.Audit.Altered.{is_nil, is_nil-append, is_nil-sorted, walk_rows-returns}

abbrev pub no_breaks : KnownBreaks
no_breaks = record { breaks = []; leaves = [] }

status_of-ok : (ids races : List ℕ) → ((status_of ids races).0 == "ok") ≡ true → is_nil ids ≡ true
unfolding status_of
status_of-ok [] races h = refl
status_of-ok (n ∷ ns) races h = ground (arith, h)

sorted-is_nil : (ns : List ℕ) → is_nil (sorted ns) ≡ true → is_nil ns ≡ true
sorted-is_nil [] h = h
sorted-is_nil (n ∷ ns) h = ground (arith, h, is_nil-sorted (n ∷ ns) refl)

module _ (digest : Canonical → String) (hex : (c : Canonical) → is_ascii (digest c) ≡ true) where
  classify-whole :
      (anchor cutoff : Option ℕ) (w : Walk) (r : AuditLog)
      → IsReadableRow r
      → IsAscii w.expected_prev
      → (fits digest r && is_linked digest r w) ≡ true
      → classify digest no_breaks anchor cutoff w r ≡ ok whole
  classify-whole anchor cutoff w r h i k =
      let (v, c, good, _) = classify-returns digest hex no_breaks anchor cutoff w r tt h i in
      c ∙ ap ok (good k)

  -- Without recorded breaks and a cutoff, any other row is tampered with.
  classify-bad :
      (anchor : Option ℕ) (w : Walk) (r : AuditLog)
      → IsReadableRow r
      → IsAscii w.expected_prev
      → (fits digest r && is_linked digest r w) ≡ false
      → classify digest no_breaks anchor none w r ≡ ok tampered
  unfolding classify get
  classify-bad anchor w r (rp, rh) i k =
      let p =
        hashes_match-IsAscii r.row_hash (some (compute_row_hash digest r.prev_hash r)) rh (hex _) in
      let l = hashes_match-IsAscii r.prev_hash w.expected_prev rp i in
      rw p (rw l (ground (arith, k)))

  -- A chained log is walked without a problem.
  walk_rows-IsChained :
      (anchor cutoff : Option ℕ) (rs : List AuditLog) (w w' : Walk)
      → All IsReadableRow rs
      → IsAscii w.expected_prev
      → IsChained digest w.expected_prev rs
      → walk_rows digest no_breaks anchor cutoff rs w ≡ ok w'
      → (w'.tampered ≡ w.tampered) × (w'.race_breaks ≡ w.race_breaks)
  unfolding walk_rows
  walk_rows-IsChained anchor cutoff [] w w' h i k e =
      let same = ok_inj e in (ap (λ x. x.tampered) (sym same), ap (λ x. x.race_breaks) (sym same))
  walk_rows-IsChained anchor cutoff (r ∷ rs) w w' (l, h) i (p, q, k) e =
      let f : fits digest r ≡ true =
        (==_iff r.row_hash (some (compute_row_hash digest r.prev_hash r))).1
          (q ∙ ap (λ x. some (compute_row_hash digest x r)) (sym p)) in
      let m : is_linked digest r w ≡ true = (==_iff r.prev_hash w.expected_prev).1 p in
      let c = classify-whole anchor cutoff w r l i (ground (arith, f, m)) in
      walk_rows-IsChained anchor cutoff rs (advance r w) w' h l.1 k (rw (walk_rows, c) at e)

  -- Where no break is recorded and there is no cutoff, any other log is not.
  walk_rows_ok-IsChained :
      (anchor : Option ℕ) (rs : List AuditLog) (w w' : Walk)
      → All IsReadableRow rs
      → IsReadableWalk w
      → walk_rows digest no_breaks anchor none rs w ≡ ok w'
      → is_nil w'.tampered ≡ true
      → IsChained digest w.expected_prev rs
  unfolding walk_rows
  walk_rows_ok-IsChained anchor [] w w' h i e n = tt
  walk_rows_ok-IsChained anchor (r ∷ rs) w w' (l, h) i e n =
      elim (Bool-cases (fits digest r && is_linked digest r w)) [
        | inl t ↦
            let (f, m) = and_true (fits digest r) (is_linked digest r w) t in
            let p = (==_iff r.prev_hash w.expected_prev).0 m in
            let q = (==_iff r.row_hash (some (compute_row_hash digest r.prev_hash r))).0 f in
            let c = classify-whole anchor none w r l i.0 t in
            (
              p,
              q ∙ ap (λ x. some (compute_row_hash digest x r)) p,
              walk_rows_ok-IsChained anchor rs (advance r w) w' h
                  (advance-IsReadableWalk whole r w l i) (rw (walk_rows, c) at e) n,
            )
        | inr t ↦
            let c = classify-bad anchor w r l i.0 t in
            let (x, found, _, keep, _) =
              walk_rows-returns digest hex no_breaks anchor none rs (advance r (note tampered r w))
                tt h (advance-IsReadableWalk tampered r w l i) in
            let same = ok_inj (sym found ∙ (rw (walk_rows, c) at e)) in
            let f = keep (is_nil-append w.tampered r.id) in
            absurd (false≢true (sym f ∙ (ap (λ y. is_nil y.tampered) same ∙ n)))
      ]

  -- Where no break is recorded and no cutoff is set, and all stored hashes are ASCII, as the digest's
  -- are, the verification returns, says ok exactly where the log is chained from the anchor, and
  -- changes no row.
  pub verify_chain_iff :
      (now : ℕ) (log : Log)
      → recorded_known_breaks log.rows ≡ ok no_breaks
      → cutoff_of log.state ≡ none
      → IsReadable log
      → (result : ChainVerificationResult) × (log' : Log) × (verify_chain digest now log
          ≡ ok (result, log'))
        × ((result.is_ok ≡ true) ↔ IsChained digest (anchor_of log.state) log.rows)
        × (log'.rows ≡ log.rows)
  unfolding verify_chain walk check_present verify_walk status_of
  verify_chain_iff now log h c (i, k) =
      let anchor = anchor_row_of log.state in
      let (w, e, _, _, _) =
        walk_rows-returns digest hex no_breaks anchor none log.rows (start log.state) tt k
          (i, tt) in
      let out = verify_walk now (record w { tampered = sorted w.tampered }) log in
      (
        out.0,
        out.1,
        rw h (rw c (rw e refl)),
        (
          λ t.
              walk_rows_ok-IsChained anchor log.rows (start log.state) w k (i, tt) e
                (sorted-is_nil w.tampered (status_of-ok (sorted w.tampered) _ t)),
          λ t.
              let (a, b) = walk_rows-IsChained anchor none log.rows (start log.state) w k i t e in
              rw a (rw b refl),
        ),
        refl,
      )
