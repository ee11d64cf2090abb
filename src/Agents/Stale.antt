-- ===== src/Agents/Stale.antt =====
-- backend/app/agent_registry.py: a websocket that a newer one replaced.
use perchtail.Prelude.{
  ℕ, ◌≡◌, refl, false, Bool-cases, inl, inr, Option, none, some, List, arith, ◌==◌, ==_iff, nat_eq,
  string_eq, ◌≢◌, option_eq,
}
use perchtail.Run.{ok}
use perchtail.Json.{Value, Fields, as_str, value_at}
use perchtail.Agents.{Entry, Registry, entry_of, unregister, resolve_response, live_connection}
use perchtail.Agents.Chunks.{receive_chunk}
use perchtail.Agents.Loop.{disconnected, message, dispatch, handle}

module _ (source_id ws : ℕ) (reg : Registry) (e : Entry) where
  unregister-stale :
      entry_of source_id reg.connections ≡ some e
      → (e.connection.websocket == ws) ≡ false
      → unregister source_id (some ws) reg ≡ reg
  unfolding unregister
  unregister-stale g k = rw (unregister, g) (rw k refl)

  live_connection-stale :
      entry_of source_id reg.connections ≡ some e
      → (e.connection.websocket == ws) ≡ false
      → live_connection source_id (some ws) reg ≡ none
  live_connection-stale g k = rw (live_connection, g) (rw k refl)

  dispatch-stale :
      (decode : Option Value → Option (List ℕ)) (m : Fields)
      → entry_of source_id reg.connections ≡ some e
      → (e.connection.websocket == ws) ≡ false
      → dispatch decode source_id ws m reg ≡ ok reg
  unfolding dispatch
  dispatch-stale decode m g k =
      elim (Bool-cases (as_str (value_at "type" m) == some "fetch_chunk")) [
        | inl t ↦ rw (dispatch, t) (rw (receive_chunk, live_connection-stale g k) refl)
        | inr t ↦ rw (dispatch, t) (rw (resolve_response, live_connection-stale g k) refl)
      ]

  message-stale :
      (decode : Option Value → Option (List ℕ)) (m : Fields)
      → entry_of source_id reg.connections ≡ some e
      → (e.connection.websocket == ws) ≡ false
      → handle decode (message source_id ws m) reg ≡ reg
  unfolding handle
  message-stale decode m g k = rw g (rw k (rw (dispatch-stale decode m g k) refl))

-- While the current connection of a source has another websocket, whatever commands are pending on it,
-- neither a message nor the end of an older websocket of that source changes the registry.
pub superseded :
    (decode : Option Value → Option (List ℕ)) (source_id old : ℕ) (reg : Registry) (e : Entry)
    (m : Fields)
    → entry_of source_id reg.connections ≡ some e
    → e.connection.websocket ≢ old
    → (handle decode (message source_id old m) reg ≡ reg)
      × (handle decode (disconnected source_id old) reg ≡ reg)
unfolding handle
superseded decode source_id old reg e m g d =
    let k : (e.connection.websocket == old) ≡ false =
      ground (arith, d, ==_iff e.connection.websocket old) in
    (message-stale source_id old reg e decode m g k, unregister-stale source_id old reg e g k)
