-- ===== src/AuthEvents.antt =====
-- backend/app/auth_events.py: failed logins and lockouts in the audit log, with repeats folded. Clock
-- readings are in seconds.
mod Folded
mod Tests
use perchtail.Prelude.{
  ℕ, suc, ◌+◌, Bool, true, false, Option, none, some, String, List, [], ◌∷◌, ◌++◌, ltb, filter,
  length, is_some, if◌then◌else◌, nat_eq, string_eq, option_eq, list_eq, Eq,
}
use perchtail.Prelude.Table.{get, replace}

abbrev pub aggregate_seconds : ℕ
aggregate_seconds = 60

abbrev pub max_recent : ℕ
max_recent = 10_000

-- the key of `_recent`: the action, the username, the client's address and the reason
abbrev pub Key : Type 0
Key = List (Option String)

instance abbrev pub key_eq : Eq Key
key_eq = list_eq

-- An entry of `_recent`: when its last row was written, and the failures folded since.
pub record Recent : Type 0 where
  pub key : Key
  pub at : ℕ
  pub folded : ℕ

-- A row of the audit log, with `similar_events_folded`, zero where the metadata has none.
pub record Row : Type 0 where
  pub action : String
  pub username : String
  pub reason : String
  pub similar_events_folded : ℕ

pub record Events : Type 0 where
  pub recent : List Recent
  pub rows : List Row

pub record Call : Type 0 where
  pub action : String
  pub username : String
  pub client_ip : Option String
  pub reason : String

abbrev pub key_of : Call → Key
key_of c = some c.action ∷ some c.username ∷ c.client_ip ∷ some c.reason ∷ []

abbrev pub find : Key → List Recent → Option Recent
find = get (λ (r : Recent). r.key)

-- `_recent[key] = …`
pub put : Recent → List Recent → List Recent
put r rs = if is_some (find r.key rs) then replace (λ (x : Recent). x.key) r rs else rs ++ r ∷ []

-- `now - at < AGGREGATE_SECONDS`, with the subtraction moved over
abbrev pub is_recent : ℕ → Recent → Bool
is_recent now r = ltb now (r.at + aggregate_seconds)

-- The entries whose window has passed go when there are too many.
pub bounded : ℕ → List Recent → List Recent
bounded now rs = if ltb max_recent (length rs) then filter (is_recent now) rs else rs

abbrev pub row : Call → ℕ → Row
row c folded = record {
  action = c.action;
  username = c.username;
  reason = c.reason;
  similar_events_folded = folded;
}

-- the part of `_record` that writes a row
pub write_row : ℕ → Call → ℕ → Events → Events
unfolding put bounded
write_row now c folded s = record {
  recent = bounded now (put (record { key = key_of c; at = now; folded = 0 }) s.recent);
  rows = s.rows ++ row c folded ∷ [];
}

pub fold_into : Recent → Events → Events
unfolding put
fold_into r s = record s { recent = put (record r { folded = r.folded + 1 }) s.recent }

abbrev pub record_found : ℕ → Call → Option Recent → Events → Events
record_found now c none s = write_row now c 0 s
record_found now c (some r) s =
    if is_recent now r then fold_into r s else write_row now c r.folded s

-- `_record`
pub record_call : ℕ → Call → Events → Events
unfolding write_row fold_into
record_call now c s = record_found now c (find (key_of c) s.recent) s

abbrev pub login_failed : String → Option String → String → Call
login_failed username client_ip reason = record {
  action = "user.login_failed";
  username = username;
  client_ip = client_ip;
  reason = reason;
}

abbrev pub locked_out : String → Option String → Call
locked_out username client_ip = record {
  action = "user.locked_out";
  username = username;
  client_ip = client_ip;
  reason = "too_many_failures";
}

abbrev pub login_throttled : String → Option String → Call
login_throttled username client_ip = record {
  action = "user.login_throttled";
  username = username;
  client_ip = client_ip;
  reason = "locked";
}

-- calls, each with its time
pub record_calls : List (ℕ × Call) → Events → Events
unfolding record_call
record_calls [] s = s
record_calls (c ∷ cs) s = record_calls cs (record_call c.0 c.1 s)
