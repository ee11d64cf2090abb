-- ===== src/Agents/Tests.antt =====
-- The agent connections on a concrete run.
use perchtail.Prelude.{ℕ, ◌≡◌, refl, true, some, none, Option, List, [], ◌∷◌, arith}
use perchtail.Prelude.Table.{get, remove}
use perchtail.Json.{Value, bool, num, str, Fields, end, field, value_at}
use perchtail.Agents.{
  waiting, answered, Stream, Pending, Entry, Registry, find_pending, entry_of, register,
  resolve_response, answer, is_error, update,
}
use perchtail.Agents.Chunks.{
  receive_chunk, begin_chunk, take_unless, take_chunk, send_command, end_chunk,
}
use perchtail.Agents.Loop.{
  Event, connected, disconnected, message, chunk_written, sent, run, handle, dispatch,
}
use perchtail.Agents.Answered.{no_agents, IsWhole, run-answered}
use perchtail.Agents.Stale.{superseded}
use perchtail.Agents.Retired.{AllOver, run-retired}

abbrev three_bytes : Option Value → Option (List ℕ)
three_bytes v = some (1 ∷ 2 ∷ 3 ∷ [])

abbrev chunk : Fields
chunk =
    field "type" (str "fetch_chunk")
      (field "id" (str "r1") (field "seq" (num 0) (field "data_b64" (str "AQID") end)))

abbrev result : Fields
result = field "type" (str "fetch_result") (
    field "id" (str "r1")
      (field "streamed" (bool true) (field "chunks" (num 1) (field "size" (num 3) end))))

abbrev events : List Event
events =
    connected 1 7
    ∷ sent 100 1 "r1" (some (some 10))
    ∷ message 1 7 chunk
    ∷ chunk_written 7 101 true
    ∷ message 1 7 result
    ∷ []

abbrev fetched : Stream
fetched = record {
  sink = 1 ∷ 2 ∷ 3 ∷ [];
  limit = some 10;
  next_seq = 1;
  written = 3;
  last_activity = 101;
}

abbrev command : Pending
command = record { id = "r1"; future = answered result; stream = some fetched }

abbrev agent : Entry
agent = record {
  source_id = 1;
  connection = record { websocket = 7; pending = command ∷ []; writing = none };
}

events-agent : entry_of 1 (run three_bytes events no_agents).connections ≡ some agent
unfolding run handle dispatch register send_command resolve_response receive_chunk begin_chunk
    take_unless take_chunk answer is_error update end_chunk get remove value_at
events-agent = refl

agent-command : find_pending "r1" agent.connection.pending ≡ some command
unfolding get
agent-command = refl

run-answered_example : IsWhole result fetched
unfolding value_at
run-answered_example =
    run-answered three_bytes events 1 agent "r1" command result fetched events-agent agent-command
      refl refl refl

-- The websocket 8 replaced 7, and the command "r1" is pending on it.
abbrev replaced : Registry
replaced =
    run three_bytes (connected 1 7 ∷ connected 1 8 ∷ sent 100 1 "r1" (some (some 10)) ∷ [])
      no_agents

abbrev newer : Entry
newer = record {
  source_id = 1;
  connection = record {
    websocket = 8;
    pending =
        record {
          id = "r1";
          future = waiting;
          stream = some (record {
            sink = [];
            limit = some 10;
            next_seq = 0;
            written = 0;
            last_activity = 100;
          });
        }
        ∷ [];
    writing = none;
  };
}

replaced-newer : entry_of 1 replaced.connections ≡ some newer
unfolding run handle register send_command get remove
replaced-newer = refl

superseded_example :
    (handle three_bytes (message 1 7 result) replaced ≡ replaced)
    × (handle three_bytes (disconnected 1 7) replaced ≡ replaced)
superseded_example =
    superseded three_bytes 1 7 replaced newer result replaced-newer (λ e. omega (arith, e))

run-retired_example :
    AllOver (run three_bytes (connected 1 7 ∷ sent 100 1 "r1" none ∷ connected 1 8 ∷ []) no_agents)
run-retired_example =
    run-retired three_bytes (connected 1 7 ∷ sent 100 1 "r1" none ∷ connected 1 8 ∷ [])
