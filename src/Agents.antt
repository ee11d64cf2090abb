-- ===== src/Agents.antt =====
-- backend/app/agent_registry.py and the receive loop of backend/app/api/agent_ws.py: the connections
-- of the push agents. A step is what the event loop runs between two awaits. A connection that was
-- replaced or removed stays in `retired`: the senders that wait on it still hold it. `Chunks` has the
-- streamed fetches and the commands, `Loop` the events.
pub mod Chunks
pub mod Loop
mod Sound
mod Keeps
mod Streams
mod Answered
mod Stale
mod Retired
mod Tests
use perchtail.Prelude.{
  ℕ, suc, ◌+◌, Bool, true, false, ◌&&◌, ◌||◌, not, Option, none, some, String, List, [], ◌∷◌, ◌++◌,
  ltb, map, filter, length, if◌then◌else◌, ◌==◌, nat_eq, string_eq, option_eq, list_eq, is_some,
}
use perchtail.Prelude.Table.{get, remove}
use perchtail.Model.{codes, over, is_suffix}
use perchtail.Run.{Run, ok, http, crash, out_of_fuel, ◌>>=◌}
use perchtail.Json.{
  Value, null, bool, num, str, arr, obj, Items, nil, cons, Fields, end, field, as_int, as_str,
  value_at,
}

-- the exceptions that a command ends with
pub data AgentError : Type 0 where
  not_connected : String → AgentError
  timeout : AgentError
  command_failed : Option Value → Option String → Option ℕ → AgentError
  over_limit : ℕ → AgentError
  incomplete out_of_order invalid_chunk write_failed : AgentError

-- an `asyncio.Future`
pub data Future : Type 0 where
  waiting : Future
  failed : AgentError → Future
  answered : Fields → Future

abbrev pub is_done : Future → Bool
is_done waiting = false
is_done (failed e) = true
is_done (answered m) = true

-- `_Stream`, with the bytes that its sink holds
pub record Stream : Type 0 where
  pub sink : List ℕ
  pub limit : Option ℕ
  pub next_seq : ℕ
  pub written : ℕ
  pub last_activity : ℕ

-- an entry of `pending`, with that of `streams` under the same id
pub record Pending : Type 0 where
  pub id : String
  pub future : Future
  pub stream : Option Stream

-- The chunk whose write a receive loop awaits, with the id of its command unless the command is no
-- longer pending.
pub record Writing : Type 0 where
  pub id : Option String
  pub bytes : List ℕ

-- `_AgentConnection`, with what its receive loop awaits
pub record Connection : Type 0 where
  pub websocket : ℕ
  pub pending : List Pending
  pub writing : Option Writing

pub record Entry : Type 0 where
  pub source_id : ℕ
  pub connection : Connection

pub record Registry : Type 0 where
  pub connections : List Entry
  pub retired : List Connection

abbrev pub entry_of : ℕ → List Entry → Option Entry
entry_of = get (λ (e : Entry). e.source_id)

abbrev pub drop_entry : ℕ → List Entry → List Entry
drop_entry = remove (λ (e : Entry). e.source_id)

abbrev pub find_pending : String → List Pending → Option Pending
find_pending = get (λ (p : Pending). p.id)

-- `_fail_pending`
abbrev pub fail_future : AgentError → Future → Future
fail_future e waiting = failed e
fail_future e (failed e') = failed e'
fail_future e (answered m) = answered m

abbrev pub fail : AgentError → Pending → Pending
fail e p = record p { future = fail_future e p.future }

pub fail_pending : Connection → String → Connection
fail_pending c reason = record c { pending = map (fail (not_connected reason)) c.pending }

abbrev pub retire : Option Entry → String → List Connection → List Connection
retire none reason retired = retired
retire (some e) reason retired = fail_pending e.connection reason ∷ retired

pub register : ℕ → ℕ → Registry → Registry
unfolding fail_pending
register source_id websocket reg = record {
  connections =
      drop_entry source_id reg.connections
      ++ record {
        source_id = source_id;
        connection = record { websocket = websocket; pending = []; writing = none };
      }
        ∷ [];
  retired =
      retire (entry_of source_id reg.connections) "agent connection replaced by a newer one"
        reg.retired;
}

-- `websocket is not None and connection.websocket is not websocket`
abbrev pub is_stale : Option ℕ → Connection → Bool
is_stale none c = false
is_stale (some websocket) c = not (c.websocket == websocket)

pub unregister : ℕ → Option ℕ → Registry → Registry
unfolding fail_pending
unregister source_id websocket reg = elim (entry_of source_id reg.connections) [
  | none ↦ reg
  | some e ↦ if is_stale websocket e.connection then reg else record {
    connections = drop_entry source_id reg.connections;
    retired = retire (some e) "agent disconnected" reg.retired;
  }
]

abbrev pub or_same : Registry → Option Registry → Registry
or_same reg none = reg
or_same reg (some reg') = reg'

-- `d.get(key)` that tells a missing key apart
abbrev pub field_at : String → Fields → Option Value
field_at key end = none
field_at key (field k v rest) = let later = field_at key rest in if k == key then some v else later

-- `pending.get(message.get("id", ""))`; a list or a dict is not hashable
abbrev pub id_of : Option Value → Run (Option String)
id_of none = ok (some "")
id_of (some (str s)) = ok (some s)
id_of (some (arr vs)) = crash
id_of (some (obj fs)) = crash
id_of (some null) = ok none
id_of (some (bool b)) = ok none
id_of (some (num n)) = ok none

abbrev pub pending_of : Option String → List Pending → Option Pending
pending_of none ps = none
pending_of (some id) ps = find_pending id ps

abbrev pub is_truthy : Value → Bool
is_truthy null = false
is_truthy (bool b) = b
is_truthy (num n) = not (n == 0)
is_truthy (str s) = not (s == "")
is_truthy (arr nil) = false
is_truthy (arr (cons v vs)) = true
is_truthy (obj end) = false
is_truthy (obj (field k v rest)) = true

-- the end of a streamed fetch says how many chunks and bytes there were
abbrev pub is_complete : Fields → Stream → Bool
is_complete message s =
    as_int (value_at "chunks" message) == some s.next_seq
    && as_int (value_at "size" message) == some s.written

-- a `*_result` message
abbrev pub settle_result : Fields → Option Stream → Future
settle_result message none = answered message
settle_result message (some s) =
    if is_truthy (value_at "streamed" message) && not (is_complete message s)
    then failed incomplete
    else answered message

abbrev pub settle : Bool → Fields → Option Stream → Future
settle true message stream = failed (
    command_failed (field_at "error" message) (as_str (value_at "code" message))
      (as_int (value_at "size" message)))
settle false message stream = settle_result message stream

-- an update of the pending command with an id
unfoldable pub update : String → (Pending → Pending) → List Pending → List Pending
update id f [] = []
update id f (p ∷ ps) = let rest = update id f ps in if p.id == id then f p ∷ ps else p ∷ rest

-- an update of the connection of a source
abbrev pub update_entry : ℕ → Connection → List Entry → List Entry
update_entry source_id c es =
    map (λ e. if e.source_id == source_id then record e { connection = c } else e) es

abbrev pub put_connection : ℕ → Connection → Registry → Registry
put_connection source_id c reg = record reg {
  connections = update_entry source_id c reg.connections;
}

-- `message.get("type", "").endswith("_error")`, which raises for what is no text
pub is_error : Option Value → Run Bool
is_error none = ok false
is_error (some (str s)) = ok (is_suffix (codes "_error") (codes s))
is_error (some null) = crash
is_error (some (bool b)) = crash
is_error (some (num n)) = crash
is_error (some (arr vs)) = crash
is_error (some (obj fs)) = crash

unfoldable pub set_future : String → Future → Connection → Connection
set_future id future c = record c {
  pending = update id (λ p. record p { future = future }) c.pending;
}

abbrev pub settle_pending : Bool → Fields → Pending → Pending
settle_pending b message p = record p { future = settle b message p.stream }

-- `resolve_response` below its guards
pub answer : Fields → Option Pending → Connection → Run Connection
unfolding is_error update
answer message none c = ok c
answer message (some p) c = if is_done p.future then ok c else do
  b ← is_error (field_at "type" message)
  ok (record c { pending = update p.id (settle_pending b message) c.pending })

-- the connection of a source that a message of `websocket` may act on
abbrev pub live_connection : ℕ → Option ℕ → Registry → Option Connection
live_connection source_id websocket reg = elim (entry_of source_id reg.connections) [
  | none ↦ none
  | some e ↦ if is_stale websocket e.connection then none else some e.connection
]

pub resolve_response : ℕ → Fields → Option ℕ → Registry → Run Registry
unfolding answer
resolve_response source_id message websocket reg = elim (live_connection source_id websocket reg) [
  | none ↦ ok reg
  | some c ↦ do
    id ← id_of (field_at "id" message)
    c' ← answer message (pending_of id c.pending) c
    ok (put_connection source_id c' reg)
]
