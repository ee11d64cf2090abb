-- ===== src/Audit/Tests.antt =====
-- A log of two rows, under a digest that keeps an ASCII action.
use perchtail.Prelude.{
  ℕ, ◌≡◌, ◌↔◌, ◌*◌, ◌-◌, refl, true, false, Bool-cases, inl, inr, if◌then◌else◌, Option, none, some,
  String, List, [], ◌∷◌, filter, length, map, arith, nat_eq, string_eq,
}
use perchtail.Run.{ok, crash}
use perchtail.Audit.{
  AuditLog, Log, Canonical, anchor_of, record_audit_event, run_audit_purge_sweep,
  backfill_chain_if_needed,
}
use perchtail.Audit.Chain.{IsChained, record_audit_event-IsChained}
use perchtail.Audit.Purge.{is_young, run_audit_purge_sweep-IsChained, run_audit_purge_sweep-young}
use perchtail.Audit.Backfill.{backfill_chain_if_needed-IsChained}
use perchtail.Audit.Tamper.{without_id, end_of-contents}
use perchtail.Audit.Walk.{
  is_ascii, hashes_match, recorded_known_breaks, record_entries, classify, walk_rows,
}
use perchtail.Audit.Verify.{verify_chain, walk, ChainVerificationResult}
use perchtail.Audit.Altered.{stored_status, verify_chain-altered}
use perchtail.Audit.Intact.{no_breaks, verify_chain_iff}

abbrev digest : Canonical → String
digest c = if is_ascii c.action then c.action else ""

digest-is_ascii : (c : Canonical) → is_ascii (digest c) ≡ true
digest-is_ascii c = elim (Bool-cases (is_ascii c.action)) [
  | inl e ↦ rw (e, e) refl
  | inr e ↦ rw e refl
]

abbrev row : ℕ → String → ℕ → Option String → Option String → AuditLog
row id action timestamp prev_hash row_hash = record {
  id = id;
  user_id = some 7;
  action = action;
  target_type = none;
  target_id = none;
  timestamp = timestamp;
  event_metadata = none;
  prev_hash = prev_hash;
  row_hash = row_hash;
}

abbrev log_of : List AuditLog → Log
log_of rows = record { rows = rows; next_id = 3; state = none }

abbrev log : Log
log = log_of (
    row 1 "login" 100 none (some "login")
    ∷ row 2 "logout" 200_000 (some "login") (some "logout")
    ∷ [])

log-IsChained : IsChained digest none log.rows
log-IsChained = (refl, refl, (refl, refl, tt))

record_audit_event-IsChained_example :
    IsChained digest
      (anchor_of log.state)
      (record_audit_event digest (some 7) "login" none none none 300_000 log).rows
record_audit_event-IsChained_example =
    record_audit_event-IsChained digest (some 7) "login" none none none 300_000 log log-IsChained

run_audit_purge_sweep-IsChained_example :
    IsChained digest
      (anchor_of (run_audit_purge_sweep 1 200_000 log).state)
      (run_audit_purge_sweep 1 200_000 log).rows
run_audit_purge_sweep-IsChained_example =
    run_audit_purge_sweep-IsChained digest 1 200_000 log ((omega arith, tt), (tt, tt)) log-IsChained

run_audit_purge_sweep-young_example :
    (filter (is_young (200_000 - 1 * 86_400)) (run_audit_purge_sweep 1 200_000 log).rows
      ≡ filter (is_young (200_000 - 1 * 86_400)) log.rows)
    × (◌≡◌ {A = ℕ} 1 0 → run_audit_purge_sweep 1 200_000 log ≡ log)
run_audit_purge_sweep-young_example = run_audit_purge_sweep-young 1 200_000 log

abbrev legacy : Log
legacy = log_of (row 1 "login" 100 none none ∷ row 2 "logout" 200 none none ∷ [])

backfill_chain_if_needed-IsChained_example :
    IsChained digest none (backfill_chain_if_needed digest legacy).0.rows
    × ((backfill_chain_if_needed digest legacy).1 ≡ length legacy.rows)
backfill_chain_if_needed-IsChained_example =
    backfill_chain_if_needed-IsChained digest legacy (refl, (refl, tt))

-- the first row under another id
abbrev renumbered : Log
renumbered = log_of (row 9 "login" 100 none (some "login") ∷ [])

abbrev single : Log
single = log_of (row 1 "login" 100 none (some "login") ∷ [])

end_of-contents_example :
    (◌≡◌ {A = Option String} none none)
    × (map without_id single.rows ≡ map without_id renumbered.rows)
end_of-contents_example =
    end_of-contents digest none none single.rows renumbered.rows (refl, refl, tt) (refl, refl, tt)
      refl refl ((λ h. refl), tt)

abbrev altered : Log
altered = log_of (
    row 1 "login" 100 none (some "login")
    ∷ row 2 "nothing" 200_000 (some "login") (some "logout")
    ∷ [])

altered-breaks : recorded_known_breaks altered.rows ≡ ok no_breaks
unfolding recorded_known_breaks record_entries
altered-breaks = refl

verify_chain-altered_example :
    (result : ChainVerificationResult) × (log' : Log) × (verify_chain digest 300_000 altered
      ≡ ok (result, log'))
    × (result.is_ok ≡ false)
    × (stored_status log'.state ≡ "broken")
verify_chain-altered_example =
    verify_chain-altered digest digest-is_ascii 300_000 altered no_breaks altered-breaks
      (tt, ((tt, refl), ((refl, refl), tt))) tt tt refl

log-breaks : recorded_known_breaks log.rows ≡ ok no_breaks
unfolding recorded_known_breaks record_entries
log-breaks = refl

verify_chain_iff_example :
    (result : ChainVerificationResult) × (log' : Log) × (verify_chain digest 300_000 log
      ≡ ok (result, log'))
    × ((result.is_ok ≡ true) ↔ IsChained digest (anchor_of log.state) log.rows)
    × (log'.rows ≡ log.rows)
verify_chain_iff_example =
    verify_chain_iff digest digest-is_ascii 300_000 log log-breaks refl
      (tt, ((tt, refl), ((refl, refl), tt)))

-- A stored hash that is not ASCII ends the verification with an exception.
abbrev unreadable : Log
unreadable = log_of (row 1 "login" 100 none (some "ö") ∷ [])

unreadable-raises : verify_chain digest 300_000 unreadable ≡ crash
unfolding verify_chain recorded_known_breaks record_entries walk walk_rows classify hashes_match
unreadable-raises = refl
