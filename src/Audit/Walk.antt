-- ===== src/Audit/Walk.antt =====
-- backend/app/audit_integrity.py: the verification of the whole chain. A run that fails raises a
-- `TypeError`: of iterating a number or a Boolean, which only altered metadata holds, or of
-- `hmac.compare_digest` for a hash that is not ASCII, which only an altered row holds.
use perchtail.Prelude.{
  ℕ, suc, Bool, true, false, ◌&&◌, ◌||◌, Option, none, some, String, List, [], ◌∷◌, ◌++◌, leb,
  filter, if◌then◌else◌, all, ltb, ◌==◌, nat_eq, string_eq, is_some,
}
use perchtail.Prelude.Table.{get, replace}
use perchtail.Run.{Run, ok, crash, ◌>>=◌}
use perchtail.Model.{codes}
use perchtail.Json.{Value, null, bool, num, str, arr, obj, Fields, items, as_int, as_str, value_at}
use perchtail.Audit.{AuditLog, Canonical, compute_row_hash}

abbrev pub known_breaks_action : String
known_breaks_action = "audit.chain.known_breaks_recorded"

-- A break row that was recorded; a recorded leaf has no parent.
pub record KnownBreak : Type 0 where
  pub id : ℕ
  pub row_hash : String
  pub parent_id : Option ℕ

pub record KnownBreaks : Type 0 where
  pub breaks : List KnownBreak
  pub leaves : List KnownBreak

-- `d[row_id] = ...`
abbrev pub set_break : KnownBreak → List KnownBreak → List KnownBreak
set_break b bs =
    if is_some (get (λ (x : KnownBreak). x.id) b.id bs)
    then replace (λ (x : KnownBreak). x.id) b bs
    else bs ++ b ∷ []

-- the values that `for item in value or []` runs over; a string's and a dict's are no dicts
unfoldable pub iterated : Value → Run (List Value)
iterated null = ok []
iterated (bool true) = crash
iterated (bool false) = ok []
iterated (num ℕ.zero) = ok []
iterated (num (suc n)) = crash
iterated (str s) = ok []
iterated (arr vs) = ok (items vs)
iterated (obj fs) = ok []

abbrev pub fields_of : Value → Option Fields
fields_of (obj fs) = some fs
fields_of _ = none

-- one item of "breaks" or "leaves"
unfoldable pub record_item : (Fields → Option ℕ) → Value → List KnownBreak → List KnownBreak
record_item parent item bs = elim (fields_of item) [
  | none ↦ bs
  | some fs ↦ elim (as_int (value_at "id" fs)) [
    | none ↦ bs
    | some id ↦ elim (as_str (value_at "row_hash" fs)) [
      | none ↦ bs
      | some h ↦ set_break (record { id = id; row_hash = h; parent_id = parent fs }) bs
    ]
  ]
]

unfoldable pub record_items : (Fields → Option ℕ) → List Value → List KnownBreak → List KnownBreak
record_items parent [] bs = bs
record_items parent (v ∷ vs) bs = record_items parent vs (record_item parent v bs)

abbrev pub parent_of : Fields → Option ℕ
parent_of fs = as_int (value_at "parent_id" fs)

abbrev pub no_parent : Fields → Option ℕ
no_parent fs = none

unfoldable pub record_entry : Option Fields → KnownBreaks → Run KnownBreaks
record_entry none known = ok known
record_entry (some metadata) known = do
  breaks ← iterated (value_at "breaks" metadata)
  leaves ← iterated (value_at "leaves" metadata)
  ok (record {
    breaks = record_items parent_of breaks known.breaks;
    leaves = record_items no_parent leaves known.leaves;
  })

unfoldable pub record_entries : List AuditLog → KnownBreaks → Run KnownBreaks
record_entries [] known = ok known
record_entries (r ∷ rs) known = do
  known' ← record_entry r.event_metadata known
  record_entries rs known'

-- `_recorded_known_breaks`
unfoldable pub recorded_known_breaks : List AuditLog → Run KnownBreaks
recorded_known_breaks rows =
    record_entries (filter (λ r. r.action == known_breaks_action) rows)
      (record { breaks = []; leaves = [] })

abbrev pub is_ascii : String → Bool
is_ascii s = all (λ c. ltb c 128) (codes s)

-- `_hashes_match`; `hmac.compare_digest` raises for a text that is not ASCII
unfoldable pub hashes_match : Option String → Option String → Run Bool
hashes_match none none = ok true
hashes_match none (some expected) = ok false
hashes_match (some stored) none = ok false
hashes_match (some stored) (some expected) =
    if is_ascii stored && is_ascii expected then ok (stored == expected) else crash

-- a hash that was seen and the row it is of
pub record Seen : Type 0 where
  pub hash : String
  pub id : Option ℕ

pub record Present : Type 0 where
  pub id : ℕ
  pub row_hash : Option String

pub record RaceBreak : Type 0 where
  pub row_id : ℕ
  pub row_hash : Option String
  pub parent_id : Option ℕ

pub record Walk : Type 0 where
  pub expected_prev : Option String
  pub earlier : List Seen
  pub present : List Present
  pub rows_checked : List ℕ
  pub tampered : List ℕ
  pub race_breaks : List RaceBreak
  pub known : ℕ

abbrev pub seen_of : Option String → List Seen → Option Seen
seen_of none seen = none
seen_of (some h) seen = get (λ (s : Seen). s.hash) h seen

-- `earlier.setdefault(row_hash, id)` where there is a hash
abbrev pub set_default : Option String → ℕ → List Seen → List Seen
set_default none id seen = seen
set_default (some h) id seen =
    if is_some (get (λ (s : Seen). s.hash) h seen)
    then seen
    else seen ++ record { hash = h; id = some id } ∷ []

abbrev pub at_most : Option ℕ → Option ℕ → Bool
at_most none n = false
at_most (some m) none = false
at_most (some m) (some n) = leb m n

pub data Verdict : Type 0 where
  whole known race tampered : Verdict

-- the recorded break of a row explains it; the parent may have been purged since
unfoldable pub is_explained : Option ℕ → Bool → AuditLog → Option KnownBreak → Run Bool
unfolding hashes_match
is_explained anchor_row_id parent_known r none = ok false
is_explained anchor_row_id parent_known r (some b) = do
  matched ← hashes_match r.row_hash (some b.row_hash)
  ok (matched && (parent_known || at_most b.parent_id anchor_row_id))

-- what every branch does at its end
abbrev pub advance : AuditLog → Walk → Walk
advance r w = record w {
  rows_checked = w.rows_checked ++ r.id ∷ [];
  present = w.present ++ record { id = r.id; row_hash = r.row_hash } ∷ [];
  earlier = set_default r.row_hash r.id w.earlier;
  expected_prev = r.row_hash;
}

abbrev pub parent_row : Option Seen → Option ℕ
parent_row none = none
parent_row (some s) = s.id

abbrev pub note : Verdict → AuditLog → Walk → Walk
note whole r w = w
note known r w = record w { known = suc w.known }
note race r w = record w {
  race_breaks =
      w.race_breaks
      ++ record {
        row_id = r.id;
        row_hash = r.row_hash;
        parent_id = parent_row (seen_of r.prev_hash w.earlier);
      }
        ∷ [];
}
note tampered r w = record w { tampered = w.tampered ++ r.id ∷ [] }

module _ (digest : Canonical → String) where
  abbrev pub is_valid : AuditLog → Run Bool
  is_valid r = hashes_match r.row_hash (some (compute_row_hash digest r.prev_hash r))

  -- the branches of the loop's body
  unfoldable pub classify : KnownBreaks → Option ℕ → Option ℕ → Walk → AuditLog → Run Verdict
  unfolding hashes_match is_explained
  classify recorded anchor_row_id cutoff w r = do
    valid ← is_valid r
    linked ← hashes_match r.prev_hash w.expected_prev
    let b = get (λ (x : KnownBreak). x.id) r.id recorded.breaks
    let parent_known = is_some (seen_of r.prev_hash w.earlier)
    if valid && linked
        then ok whole
        else if valid
        then (is_explained anchor_row_id parent_known r b >>= λ explained. ok (
            if explained
            then known
            else if parent_known && at_most (some r.id) cutoff
            then race
            else tampered))
        else ok tampered

  -- the loop over the rows
  unfoldable pub walk_rows : KnownBreaks → Option ℕ → Option ℕ → List AuditLog → Walk → Run Walk
  unfolding classify
  walk_rows recorded anchor_row_id cutoff [] w = ok w
  walk_rows recorded anchor_row_id cutoff (r ∷ rs) w = do
    verdict ← classify recorded anchor_row_id cutoff w r
    walk_rows recorded anchor_row_id cutoff rs (advance r (note verdict r w))
