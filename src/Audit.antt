-- ===== src/Audit.antt =====
-- backend/app/audit_hash_chain.py, audit.py and audit_purge.py: the hash chain over the audit log.
-- `rows` is the table in the order of its ids. A hash is its hex text; times are seconds.
pub mod Chain
pub mod Walk
pub mod Verify
mod Readable
mod Altered
mod Intact
mod Purge
mod Backfill
mod Tamper
mod Tests
use perchtail.Prelude.{
  ℕ, suc, ◌+◌, ◌-◌, ◌≡◌, Bool, true, false, ◌&&◌, Option, none, some, String, List, [], ◌∷◌, ◌++◌,
  filter, if◌then◌else◌, ltb, leb,
}
use perchtail.Json.{Fields}
use Prim.Native.Nat.{◌*◌}

pub record AuditLog : Type 0 where
  pub id : ℕ
  pub user_id : Option ℕ
  pub action : String
  pub target_type : Option String
  pub target_id : Option ℕ
  pub timestamp : ℕ
  pub event_metadata : Option Fields
  pub prev_hash : Option String
  pub row_hash : Option String

pub record AuditChainState : Type 0 where
  pub anchor_row_id : Option ℕ
  pub anchor_hash : Option String
  pub last_checked_at : Option ℕ
  pub status : String
  pub broken_row_id : Option ℕ
  pub known_break_cutoff_row_id : Option ℕ
  pub race_break_count : ℕ
  pub known_break_count : ℕ
  pub known_breaks_recorded_at : Option ℕ

-- `AuditChainState()`
abbrev pub new_state : AuditChainState
new_state = record {
  anchor_row_id = none;
  anchor_hash = none;
  last_checked_at = none;
  status = "unknown";
  broken_row_id = none;
  known_break_cutoff_row_id = none;
  race_break_count = 0;
  known_break_count = 0;
  known_breaks_recorded_at = none;
}

-- `next_id` counts on, where the database may start again after the newest rows were purged.
pub record Log : Type 0 where
  pub rows : List AuditLog
  pub next_id : ℕ
  pub state : Option AuditChainState

-- What `compute_row_hash` covers: the previous hash and the content, but not the id.
pub record Canonical : Type 0 where
  pub prev_hash : Option String
  pub user_id : Option ℕ
  pub action : String
  pub target_type : Option String
  pub target_id : Option ℕ
  pub timestamp : ℕ
  pub metadata : Option Fields

abbrev pub canonical : Option String → AuditLog → Canonical
canonical prev_hash row = record {
  prev_hash = prev_hash;
  user_id = row.user_id;
  action = row.action;
  target_type = row.target_type;
  target_id = row.target_id;
  timestamp = row.timestamp;
  metadata = row.event_metadata;
}

abbrev pub anchor_of : Option AuditChainState → Option String
anchor_of none = none
anchor_of (some s) = s.anchor_hash

-- the hash of the newest row, `none` also where there is no row
unfoldable pub last_hash : List AuditLog → Option String
last_hash [] = none
last_hash (r ∷ []) = r.row_hash
last_hash (r ∷ q ∷ rs) = last_hash (q ∷ rs)

-- `current_chain_tip`
unfoldable pub current_chain_tip : Log → Option String
unfolding last_hash
current_chain_tip log = elim (last_hash log.rows) [ some h ↦ some h | none ↦ anchor_of log.state ]

-- the row before it is chained
abbrev pub new_entry :
    ℕ → Option ℕ → String → Option String → Option ℕ → Option Fields → ℕ → AuditLog
new_entry id user_id action target_type target_id metadata now = record {
  id = id;
  user_id = user_id;
  action = action;
  target_type = target_type;
  target_id = target_id;
  timestamp = now;
  event_metadata = metadata;
  prev_hash = none;
  row_hash = none;
}

-- `digest` is the keyed HMAC-SHA256 of the canonical JSON, under the deployment's key.
module _ (digest : Canonical → String) where
  -- `compute_row_hash`
  abbrev pub compute_row_hash : Option String → AuditLog → String
  compute_row_hash prev_hash row = digest (canonical prev_hash row)

  abbrev pub link : Option String → AuditLog → AuditLog
  link prev_hash row = record row {
    prev_hash = prev_hash;
    row_hash = some (compute_row_hash prev_hash row);
  }

  -- `chain_new_entry`, under the write lock that makes it atomic
  pub chain_new_entry : Log → AuditLog → AuditLog
  chain_new_entry log entry = link (current_chain_tip log) entry

  -- `record_audit_event`, the labels merged into the metadata
  pub record_audit_event :
      Option ℕ → String → Option String → Option ℕ → Option Fields → ℕ → Log → Log
  unfolding chain_new_entry
  record_audit_event user_id action target_type target_id metadata now log =
      let entry = new_entry log.next_id user_id action target_type target_id metadata now in
      record log { rows = log.rows ++ chain_new_entry log entry ∷ []; next_id = log.next_id + 1 }

  -- the loop of `backfill_chain_if_needed`: only rows without a hash are chained
  pub backfill_rows : Option String → List AuditLog → List AuditLog × ℕ
  backfill_rows prev_hash [] = ([], 0)
  backfill_rows prev_hash (r ∷ rs) = elim r.row_hash [
    | none ↦
        let row = link prev_hash r in
        let (rest, n) = backfill_rows row.row_hash rs in (row ∷ rest, suc n)
    | some h ↦ let (rest, n) = backfill_rows prev_hash rs in (r ∷ rest, n)
  ]

  pub backfill_chain_if_needed : Log → Log × ℕ
  unfolding backfill_rows
  backfill_chain_if_needed log =
      let (rows, n) = backfill_rows (current_chain_tip log) log.rows in
      (record log { rows = rows }, n)

-- `select(func.min(AuditLog.id)).where(AuditLog.timestamp >= cutoff)`
pub first_not_old_id : ℕ → List AuditLog → Option ℕ
first_not_old_id cutoff [] = none
first_not_old_id cutoff (r ∷ rs) =
    let rest = first_not_old_id cutoff rs in
    if leb cutoff r.timestamp
    then (elim rest [ none ↦ some r.id | some m ↦ some (if ltb m r.id then m else r.id) ])
    else rest

-- `prefix_condition`
abbrev pub in_prefix : Option ℕ → AuditLog → Bool
in_prefix none r = true
in_prefix (some first) r = ltb r.id first

unfoldable pub last_row : List AuditLog → Option AuditLog
last_row [] = none
last_row (r ∷ []) = some r
last_row (r ∷ q ∷ rs) = last_row (q ∷ rs)

abbrev pub state_or_new : Option AuditChainState → AuditChainState
state_or_new none = new_state
state_or_new (some s) = s

-- the anchor moves to the newest row that is deleted
abbrev pub moved_anchor : Option AuditLog → Option AuditChainState → Option AuditChainState
moved_anchor none state = state
moved_anchor (some newest) state =
    some (record (state_or_new state) {
      anchor_row_id = some newest.id;
      anchor_hash = newest.row_hash;
    })

abbrev pub not_in_prefix : Option ℕ → AuditLog → Bool
not_in_prefix first r = if in_prefix first r then false else true

-- The body of `run_audit_purge_sweep`, at a retention in days; 0 keeps everything.
pub run_audit_purge_sweep : ℕ → ℕ → Log → Log
unfolding first_not_old_id last_row
run_audit_purge_sweep retention_days now log = elim retention_days [
  | ℕ.zero ↦ log
  | suc d ↦
      let first = first_not_old_id (now - (suc d) * 86_400) log.rows in
      let newest = last_row (filter (in_prefix first) log.rows) in
      record log {
        rows = filter (not_in_prefix first) log.rows;
        state = moved_anchor newest log.state;
      }
]
