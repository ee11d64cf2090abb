-- ===== src/Audit/Altered.antt =====
-- backend/app/audit_integrity.py: a row that was altered without the key breaks the chain.
use perchtail.Prelude.{
  ℕ, ◌≡◌, refl, Bool, true, false, ◌&&◌, not, Bool-cases, inl, inr, Option, none, some, String,
  List, [], ◌∷◌, ◌++◌, All, any, arith, ◌==◌, nat_eq, string_eq, option_eq,
}
use perchtail.Run.{ok}
use perchtail.Audit.{AuditLog, AuditChainState, Log, Canonical}
use perchtail.Audit.Walk.{
  KnownBreak, KnownBreaks, recorded_known_breaks, is_ascii, Present, Walk, Verdict, whole, known,
  race, tampered, note, advance, walk_rows,
}
use perchtail.Audit.Verify.{
  check_present, add_missing, insert_id, sorted, status_of, start, or_zero, anchor_row_of,
  cutoff_of, update_breaks, walk, verify_walk, verify_chain, ChainVerificationResult,
}
use perchtail.Audit.Readable.{
  IsAscii, IsReadableRow, IsReadable, AreReadable, IsReadableWalk, update_breaks-AreReadable,
  is_missing-returns, advance-IsReadableWalk, fits, classify-returns,
}

abbrev pub stored_status : Option AuditChainState → String
stored_status none = "unknown"
stored_status (some s) = s.status

abbrev pub is_nil : List ℕ → Bool
is_nil [] = true
is_nil (n ∷ ns) = false

pub is_nil-append : (ns : List ℕ) (n : ℕ) → is_nil (ns ++ n ∷ []) ≡ false
is_nil-append [] n = refl
is_nil-append (m ∷ ns) n = refl

is_nil-insert_id : (n : ℕ) (ns : List ℕ) → is_nil (insert_id n ns) ≡ false
is_nil-insert_id n [] = refl
is_nil-insert_id n (m ∷ ms) = ground arith

pub is_nil-sorted : (ns : List ℕ) → is_nil ns ≡ false → is_nil (sorted ns) ≡ false
is_nil-sorted [] h = h
is_nil-sorted (n ∷ ns) h = is_nil-insert_id n (sorted ns)

add_missing-keeps :
    (m : Bool) (id : ℕ) (ids : List ℕ) → is_nil ids ≡ false → is_nil (add_missing m id ids) ≡ false
add_missing-keeps m id ids h = elim (Bool-cases (m && not (any (λ t. t == id) ids))) [
  | inl e ↦ rw e (is_nil-append ids id)
  | inr e ↦ rw e h
]

check_present-returns :
    (purged : ℕ) (ps : List Present) (bs : List KnownBreak) (ids : List ℕ)
    → All (λ (p : Present). IsAscii p.row_hash) ps
    → AreReadable bs
    → (ids' : List ℕ) × (check_present purged ps bs ids ≡ ok ids')
      × (is_nil ids ≡ false → is_nil ids' ≡ false)
unfolding check_present
check_present-returns purged ps [] ids h k = (ids, refl, λ l. l)
check_present-returns purged ps (b ∷ bs) ids h (l, k) =
    let (m, e) = is_missing-returns purged ps b h l in
    let (ids', c, keep) = check_present-returns purged ps bs (add_missing m b.id ids) h k in
    (ids', rw e c, λ n. keep (add_missing-keeps m b.id ids n))

note-keeps :
    (v : Verdict) (r : AuditLog) (w : Walk)
    → is_nil w.tampered ≡ false
    → is_nil (note v r w).tampered ≡ false
note-keeps whole r w h = h
note-keeps known r w h = h
note-keeps race r w h = h
note-keeps tampered r w h = is_nil-append w.tampered r.id

status_of-broken : (ids races : List ℕ) → is_nil ids ≡ false → (status_of ids races).0 ≡ "broken"
unfolding status_of
status_of-broken [] races h = ground arith
status_of-broken (n ∷ ns) races h = refl

module _ (digest : Canonical → String) (hex : (c : Canonical) → is_ascii (digest c) ≡ true) where
  -- The walk returns, keeps what it found, and finds a row that does not fit.
  pub walk_rows-returns :
      (recs : KnownBreaks) (anchor cutoff : Option ℕ) (rs : List AuditLog) (w : Walk)
      → AreReadable recs.breaks
      → All IsReadableRow rs
      → IsReadableWalk w
      → (w' : Walk) × (walk_rows digest recs anchor cutoff rs w ≡ ok w')
        × IsReadableWalk w'
        × (is_nil w.tampered ≡ false → is_nil w'.tampered ≡ false)
        × (any (λ r. not (fits digest r)) rs ≡ true → is_nil w'.tampered ≡ false)
  unfolding walk_rows
  walk_rows-returns recs anchor cutoff [] w b h i = (w, refl, i, λ l. l, λ l. ground (arith, l))
  walk_rows-returns recs anchor cutoff (r ∷ rs) w b (l, h) i =
      let (v, c, _, bad) = classify-returns digest hex recs anchor cutoff w r b l i.0 in
      let (w', e, j, keep, altered) =
        walk_rows-returns recs anchor cutoff rs (advance r (note v r w)) b h
          (advance-IsReadableWalk v r w l i) in
      (
        w',
        rw c e,
        j,
        λ n. keep (note-keeps v r w n),
        λ n. elim (Bool-cases (fits digest r)) [
          | inl f ↦ altered (ground (arith, f, n))
          | inr f ↦ keep (rw (bad f) (is_nil-append w.tampered r.id))
        ],
      )

  walk-altered :
      (log : Log) (recs : KnownBreaks)
      → IsReadable log
      → AreReadable recs.breaks
      → AreReadable recs.leaves
      → any (λ r. not (fits digest r)) log.rows ≡ true
      → (w : Walk) × (walk digest recs log ≡ ok w) × (is_nil w.tampered ≡ false)
  unfolding walk
  walk-altered log recs (i, h) b l a =
      let anchor = anchor_row_of log.state in
      let (w, e, j, _, altered) =
        walk_rows-returns recs anchor (cutoff_of log.state) log.rows (start log.state) b h
          (i, tt) in
      let (ids, c, keep) =
        check_present-returns (or_zero anchor) w.present (update_breaks recs.leaves recs.breaks)
          w.tampered j.1 (update_breaks-AreReadable recs.leaves recs.breaks l b) in
      (record w { tampered = sorted ids }, rw e (rw c refl), is_nil-sorted ids (keep (altered a)))

  -- An altered row is reported: whatever the recorded breaks, the anchor and the cutoff are, where all
  -- stored hashes are ASCII, as the digest's are, and some row's hash is not that of its contents under
  -- the key, the verification returns, says not ok, and stores the status "broken".
  pub verify_chain-altered :
      (now : ℕ) (log : Log) (recs : KnownBreaks)
      → recorded_known_breaks log.rows ≡ ok recs
      → IsReadable log
      → AreReadable recs.breaks
      → AreReadable recs.leaves
      → any (λ r. not (fits digest r)) log.rows ≡ true
      → (result : ChainVerificationResult) × (log' : Log) × (verify_chain digest now log
          ≡ ok (result, log'))
        × (result.is_ok ≡ false)
        × (stored_status log'.state ≡ "broken")
  unfolding verify_chain verify_walk
  verify_chain-altered now log recs h i b l a =
      let (w, e, found) = walk-altered log recs i b l a in
      let out = verify_walk now w log in
      let s = status_of-broken w.tampered _ found in (out.0, out.1, rw h (rw e refl), rw s refl, s)
