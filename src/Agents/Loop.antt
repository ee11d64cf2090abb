-- ===== src/Agents/Loop.antt =====
-- The receive loop of backend/app/api/agent_ws.py, and all that the event loop runs between two awaits.
use perchtail.Prelude.{
  ℕ, Bool, false, ◌&&◌, Option, none, some, String, List, [], ◌∷◌, map, if◌then◌else◌, ◌==◌, nat_eq,
  string_eq, option_eq, list_eq, is_some,
}
use perchtail.Run.{Run, ok, http, crash, out_of_fuel}
use perchtail.Json.{Value, Fields, as_str, value_at}
use perchtail.Agents.{
  Connection, Entry, Registry, entry_of, register, unregister, or_same, resolve_response,
}
use perchtail.Agents.Chunks.{receive_chunk, end_chunk, send_command, finish}

abbrev pub on_websocket : ℕ → (Connection → Connection) → Connection → Connection
on_websocket websocket f c = if c.websocket == websocket then f c else c

-- an update of a connection wherever it is held
abbrev pub on_connection : ℕ → (Connection → Connection) → Registry → Registry
on_connection websocket f reg = record {
  connections =
      map (λ (e : Entry). record e { connection = on_websocket websocket f e.connection })
        reg.connections;
  retired = map (on_websocket websocket f) reg.retired;
}

abbrev pub is_writing : Connection → Bool
is_writing c = is_some c.writing

pub data Event : Type 0 where
  connected : ℕ → ℕ → Event
  disconnected : ℕ → ℕ → Event
  message : ℕ → ℕ → Fields → Event
  chunk_written : ℕ → ℕ → Bool → Event
  sent : ℕ → ℕ → String → Option (Option ℕ) → Event
  finished : ℕ → String → Event

-- an exception ends the loop, whose `finally` unregisters the connection
abbrev pub after_dispatch : ℕ → ℕ → Registry → Run Registry → Registry
after_dispatch source_id websocket reg (ok reg') = reg'
after_dispatch source_id websocket reg (http code detail) =
    unregister source_id (some websocket) reg
after_dispatch source_id websocket reg crash = unregister source_id (some websocket) reg
after_dispatch source_id websocket reg out_of_fuel = unregister source_id (some websocket) reg

-- a loop that awaits a write takes no message
abbrev pub awaits_write : ℕ → Option Entry → Bool
awaits_write websocket none = false
awaits_write websocket (some e) = e.connection.websocket == websocket && is_writing e.connection

module _ (decode : Option Value → Option (List ℕ)) where
  -- one message in the receive loop of `agent_connect`
  unfoldable pub dispatch : ℕ → ℕ → Fields → Registry → Run Registry
  unfolding resolve_response receive_chunk
  dispatch source_id websocket msg reg =
      if as_str (value_at "type" msg) == some "fetch_chunk"
      then receive_chunk decode source_id msg (some websocket) reg
      else resolve_response source_id msg (some websocket) reg

  unfoldable pub handle : Event → Registry → Registry
  unfolding dispatch register unregister send_command end_chunk
  handle (connected source_id websocket) reg = register source_id websocket reg
  handle (disconnected source_id websocket) reg = unregister source_id (some websocket) reg
  handle (message source_id websocket msg) reg =
      if awaits_write websocket (entry_of source_id reg.connections)
      then reg
      else after_dispatch source_id websocket reg (dispatch source_id websocket msg reg)
  handle (chunk_written websocket now is_written) reg =
      on_connection websocket (end_chunk now is_written) reg
  handle (sent now source_id id streamed) reg =
      or_same reg (send_command now source_id id streamed reg)
  handle (finished websocket id) reg = on_connection websocket (finish id) reg

  unfoldable pub run : List Event → Registry → Registry
  run [] reg = reg
  run (e ∷ es) reg = run es (handle e reg)
