-- ===== src/Audit/Verify.antt =====
-- backend/app/audit_integrity.py: `_walk` as a whole, and `verify_chain` with what it stores.
use perchtail.Prelude.{
  ℕ, Bool, false, ◌&&◌, not, Option, none, some, String, List, [], ◌∷◌, ◌++◌, ltb, leb, any, filter,
  length, map, if◌then◌else◌, ◌==◌, nat_eq, string_eq,
}
use perchtail.Prelude.Table.{get}
use perchtail.Run.{Run, ok, ◌>>=◌}
use perchtail.Audit.{AuditChainState, Log, Canonical, anchor_of, state_or_new}
use perchtail.Audit.Walk.{
  KnownBreak, KnownBreaks, set_break, recorded_known_breaks, hashes_match, Seen, Present, RaceBreak,
  Walk, walk_rows,
}

abbrev pub or_zero : Option ℕ → ℕ
or_zero none = 0
or_zero (some n) = n

abbrev pub anchor_row_of : Option AuditChainState → Option ℕ
anchor_row_of none = none
anchor_row_of (some s) = s.anchor_row_id

abbrev pub cutoff_of : Option AuditChainState → Option ℕ
cutoff_of none = none
cutoff_of (some s) = s.known_break_cutoff_row_id

-- `earlier` before the first row
abbrev pub anchor_seen : Option String → Option ℕ → List Seen
anchor_seen none id = []
anchor_seen (some h) id = record { hash = h; id = id } ∷ []

abbrev pub start : Option AuditChainState → Walk
start state = record {
  expected_prev = anchor_of state;
  earlier = anchor_seen (anchor_of state) (anchor_row_of state);
  present = [];
  rows_checked = [];
  tampered = [];
  race_breaks = [];
  known = 0;
}

-- `expected_present.update(recorded_leaves)`
abbrev pub update_breaks : List KnownBreak → List KnownBreak → List KnownBreak
update_breaks [] bs = bs
update_breaks (l ∷ ls) bs = update_breaks ls (set_break l bs)

-- `present.get(row_id)`
abbrev pub present_hash : Option Present → Option String
present_hash none = none
present_hash (some p) = p.row_hash

-- a row that was recorded, is not purged, and is gone or has another hash
unfoldable pub is_missing : ℕ → List Present → KnownBreak → Run Bool
unfolding hashes_match
is_missing purged_up_to present b =
    if ltb purged_up_to b.id
    then (hashes_match (present_hash (get (λ (p : Present). p.id) b.id present)) (some b.row_hash)
        >>= λ matched. ok (not matched))
    else ok false

-- `if row_id not in tampered: tampered.append(row_id)`
abbrev pub add_missing : Bool → ℕ → List ℕ → List ℕ
add_missing missing id tampered =
    if missing && not (any (λ t. t == id) tampered) then tampered ++ id ∷ [] else tampered

-- the loop over `expected_present`
unfoldable pub check_present : ℕ → List Present → List KnownBreak → List ℕ → Run (List ℕ)
unfolding is_missing
check_present purged_up_to present [] tampered = ok tampered
check_present purged_up_to present (b ∷ bs) tampered = do
  missing ← is_missing purged_up_to present b
  check_present purged_up_to present bs (add_missing missing b.id tampered)

abbrev pub insert_id : ℕ → List ℕ → List ℕ
insert_id n [] = n ∷ []
insert_id n (m ∷ ms) = let rest = insert_id n ms in if leb n m then n ∷ m ∷ ms else m ∷ rest

abbrev pub sorted : List ℕ → List ℕ
sorted [] = []
sorted (n ∷ ns) = insert_id n (sorted ns)

pub record ChainVerificationResult : Type 0 where
  pub is_ok : Bool
  pub checked_count : ℕ
  pub broken_row_id : Option ℕ
  pub race_break_ids : List ℕ
  pub known_break_count : ℕ

-- the status and the first problem
unfoldable pub status_of : List ℕ → List ℕ → String × Option ℕ
status_of (t ∷ ts) races = ("broken", some t)
status_of [] (r ∷ rs) = ("race_breaks", some r)
status_of [] [] = ("ok", none)

abbrev pub checked : Option ℕ → List ℕ → ℕ
checked none ids = length ids
checked (some id) ids = length (filter (λ n. leb n id) ids)

-- `verify_chain`, with the state it writes
unfoldable pub verify_walk : ℕ → Walk → Log → ChainVerificationResult × Log
unfolding status_of
verify_walk now w log =
    let race_ids = map (λ (b : RaceBreak). b.row_id) w.race_breaks in
    let (status, broken_row_id) = status_of w.tampered race_ids in
    (
      record {
        is_ok = status == "ok";
        checked_count = checked broken_row_id w.rows_checked;
        broken_row_id = broken_row_id;
        race_break_ids = race_ids;
        known_break_count = w.known;
      },
      record log {
        state = some (record (state_or_new log.state) {
          last_checked_at = some now;
          status = status;
          broken_row_id = broken_row_id;
          race_break_count = length race_ids;
          known_break_count = w.known;
        });
      },
    )

module _ (digest : Canonical → String) where
  -- `_walk` after the recorded breaks are read
  unfoldable pub walk : KnownBreaks → Log → Run Walk
  unfolding walk_rows check_present
  walk recorded log = do
    w ←
        walk_rows digest recorded (anchor_row_of log.state) (cutoff_of log.state) log.rows
          (start log.state)
    tampered ←
        check_present (or_zero (anchor_row_of log.state)) w.present
          (update_breaks recorded.leaves recorded.breaks) w.tampered
    ok (record w { tampered = sorted tampered })

  unfoldable pub verify_chain : ℕ → Log → Run (ChainVerificationResult × Log)
  unfolding walk verify_walk
  verify_chain now log = do
    recorded ← recorded_known_breaks log.rows
    w ← walk recorded log
    ok (verify_walk now w log)
