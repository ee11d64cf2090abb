-- ===== src/Agents/Chunks.antt =====
-- backend/app/agent_registry.py: `receive_chunk` and `_send_command`.
use perchtail.Prelude.{
  ℕ, ◌+◌, Bool, true, false, not, Option, none, some, String, List, [], ◌∷◌, ◌++◌, length,
  if◌then◌else◌, ◌==◌, nat_eq, string_eq, option_eq, list_eq,
}
use perchtail.Prelude.Table.{remove}
use perchtail.Model.{over}
use perchtail.Run.{Run, ok, ◌>>=◌}
use perchtail.Json.{Value, Fields, as_int, value_at}
use perchtail.Agents.{
  Future, is_done, Stream, Pending, Writing, Connection, Registry, entry_of, fail, field_at, id_of,
  pending_of, update, put_connection, set_future, live_connection, timeout, over_limit,
  out_of_order, invalid_chunk, write_failed, waiting, failed, answered,
}

-- `decode` is the base64 decoding of the text of a value, `none` where it is not valid.
module _ (decode : Option Value → Option (List ℕ)) where
  -- `receive_chunk` at the stream of a command that waits, up to its write
  unfoldable pub take_chunk : Fields → Pending → Stream → Connection → Connection
  take_chunk message p s c =
      if not (as_int (value_at "seq" message) == some s.next_seq)
      then set_future p.id (failed out_of_order) c
      else elim (decode (field_at "data_b64" message)) [
        | none ↦ set_future p.id (failed invalid_chunk) c
        | some bytes ↦
            if over s.limit (s.written + length bytes)
            then set_future p.id (failed (over_limit (s.written + length bytes))) c
            else record c { writing = some (record { id = some p.id; bytes = bytes }) }
      ]

  unfoldable pub take_unless : Bool → Fields → Pending → Option Stream → Connection → Connection
  unfolding take_chunk
  take_unless true message p stream c = c
  take_unless false message p none c = c
  take_unless false message p (some s) c = take_chunk message p s c

  unfoldable pub begin_chunk : Fields → Option Pending → Connection → Connection
  unfolding take_unless
  begin_chunk message none c = c
  begin_chunk message (some p) c = take_unless (is_done p.future) message p p.stream c

  unfoldable pub receive_chunk : ℕ → Fields → Option ℕ → Registry → Run Registry
  unfolding begin_chunk
  receive_chunk source_id message websocket reg = elim (live_connection source_id websocket reg) [
    | none ↦ ok reg
    | some c ↦ do
      id ← id_of (field_at "id" message)
      ok (put_connection source_id (begin_chunk message (pending_of id c.pending) c) reg)
  ]

-- the stream after a chunk is written
abbrev pub grown : ℕ → List ℕ → Stream → Stream
grown now bytes s = record s {
  sink = s.sink ++ bytes;
  written = s.written + length bytes;
  next_seq = s.next_seq + 1;
  last_activity = now;
}

abbrev pub wrote : ℕ → List ℕ → Option Stream → Option Stream
wrote now bytes none = none
wrote now bytes (some s) = some (grown now bytes s)

abbrev pub end_write : ℕ → Bool → List ℕ → Pending → Pending
end_write now is_written bytes p =
    if is_written then record p { stream = wrote now bytes p.stream } else fail write_failed p

abbrev pub update_written : Option String → (Pending → Pending) → List Pending → List Pending
update_written none f ps = ps
update_written (some id) f ps = update id f ps

-- `receive_chunk` from its write on, which a full disk or a closed sink fails
unfoldable pub end_chunk : ℕ → Bool → Connection → Connection
unfolding update
end_chunk now is_written c = elim c.writing [
  | none ↦ c
  | some w ↦ record c {
    pending = update_written w.id (end_write now is_written w.bytes) c.pending;
    writing = none;
  }
]

-- `_send_command` up to the command's sending, for a source that is connected
abbrev pub new_stream : ℕ → Option ℕ → Stream
new_stream now limit = record {
  sink = [];
  limit = limit;
  next_seq = 0;
  written = 0;
  last_activity = now;
}

-- a write whose command is no longer pending goes on, to a sink that nobody reads
abbrev pub orphan_id : String → Option String → Option String
orphan_id id none = none
orphan_id id (some j) = if j == id then none else some j

abbrev pub orphan : String → Writing → Writing
orphan id w = record w { id = orphan_id id w.id }

abbrev pub orphan_writing : String → Option Writing → Option Writing
orphan_writing id none = none
orphan_writing id (some w) = some (orphan id w)

-- `pending.pop(request_id, None)` and `streams.pop(request_id, None)`
abbrev pub drop_pending : String → Connection → Connection
drop_pending id c = record c {
  pending = remove (λ (p : Pending). p.id) id c.pending;
  writing = orphan_writing id c.writing;
}

-- `pending[request_id] = future`
abbrev pub add_pending : Pending → Connection → Connection
add_pending p c = let c' = drop_pending p.id c in record c' { pending = c'.pending ++ p ∷ [] }

-- `streamed` is `some limit` where the command has a sink
abbrev pub new_pending : ℕ → String → Option (Option ℕ) → Pending
new_pending now id none = record { id = id; future = waiting; stream = none }
new_pending now id (some limit) = record {
  id = id;
  future = waiting;
  stream = some (new_stream now limit);
}

unfoldable pub send_command : ℕ → ℕ → String → Option (Option ℕ) → Registry → Option Registry
send_command now source_id id streamed reg = elim (entry_of source_id reg.connections) [
  | none ↦ none
  | some e ↦
      some (put_connection source_id (add_pending (new_pending now id streamed) e.connection) reg)
]

-- The `finally` of `_send_command`, on the connection that the sender holds.
abbrev pub finish : String → Connection → Connection
finish id c = drop_pending id c

-- what the sender returns or raises when it stops waiting; a future that is not done timed out
abbrev pub outcome : Future → Future
outcome waiting = failed timeout
outcome (failed e) = failed e
outcome (answered m) = answered m
