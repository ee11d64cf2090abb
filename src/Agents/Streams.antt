-- ===== src/Agents/Streams.antt =====
-- backend/app/agent_registry.py: a streamed fetch that is answered is complete and within its limit.
use perchtail.Prelude.{
  some_inj, ℕ, ◌≡◌, refl, false, Bool-cases, inl, inr, Option, Option-cases, none, some, String,
  List, [], ◌∷◌, All, All-append, map, arith, ◌==◌, nat_eq, string_eq, option_eq, subst, is_some,
}
use perchtail.Prelude.Table.{get, remove}
use perchtail.Run.{Run, ok_inj, >>=-eq-ok, ok, http, crash, out_of_fuel}
use perchtail.Json.{Value, Fields, as_str, value_at}
use perchtail.Agents.{
  Writing, Connection, Entry, Registry, retire, register, unregister, is_stale, entry_of,
  drop_entry, or_same, field_at, id_of, pending_of, put_connection, update_entry, answer,
  live_connection, resolve_response,
}
use perchtail.Agents.Chunks.{
  receive_chunk, begin_chunk, end_chunk, new_pending, add_pending, drop_pending, send_command,
}
use perchtail.Agents.Loop.{
  on_websocket, on_connection, Event, connected, disconnected, message, chunk_written, sent,
  finished, dispatch, after_dispatch, awaits_write, handle, run,
}
use perchtail.Agents.Sound.{IsSound, IsSoundConnection}
use perchtail.Agents.Keeps.{
  answer-IsSoundConnection, begin_chunk-IsSoundConnection, end_chunk-IsSoundConnection,
  drop_pending-IsSoundConnection, add_pending-IsSoundConnection, fail_pending-IsSoundConnection,
}

abbrev pub IsSoundEntry : Entry → Type 0
IsSoundEntry e = IsSoundConnection e.connection

abbrev pub IsSoundRegistry : Registry → Type 0
IsSoundRegistry reg = All IsSoundEntry reg.connections × All IsSoundConnection reg.retired

pub entry_of-IsSound :
    (id : ℕ) (es : List Entry) (e : Entry)
    → All IsSoundEntry es
    → entry_of id es ≡ some e
    → IsSoundEntry e
unfolding get
entry_of-IsSound id [] e h g = ground arith
entry_of-IsSound id (x ∷ xs) e (h, hs) g = elim (Bool-cases (x.source_id == id)) [
  | inl k ↦ subst IsSoundEntry (some_inj (rw k at g)) h
  | inr k ↦ entry_of-IsSound id xs e hs (rw k at g)
]

drop_entry-IsSound :
    (id : ℕ) (es : List Entry) → All IsSoundEntry es → All IsSoundEntry (drop_entry id es)
unfolding remove
drop_entry-IsSound id [] h = tt
drop_entry-IsSound id (x ∷ xs) (h, hs) = elim (Bool-cases (x.source_id == id)) [
  | inl k ↦ rw k (drop_entry-IsSound id xs hs)
  | inr k ↦ rw k (h, drop_entry-IsSound id xs hs)
]

update_entry-IsSound :
    (id : ℕ) (c : Connection) (es : List Entry)
    → IsSoundConnection c
    → All IsSoundEntry es
    → All IsSoundEntry (update_entry id c es)
update_entry-IsSound id c [] k h = tt
update_entry-IsSound id c (x ∷ xs) k (h, hs) = elim (Bool-cases (x.source_id == id)) [
  | inl e ↦ rw e (k, update_entry-IsSound id c xs k hs)
  | inr e ↦ rw e (h, update_entry-IsSound id c xs k hs)
]

put-IsSound :
    (id : ℕ) (c : Connection) (reg : Registry)
    → IsSoundConnection c
    → IsSoundRegistry reg
    → IsSoundRegistry (put_connection id c reg)
put-IsSound id c reg k (h, r) = (update_entry-IsSound id c reg.connections k h, r)

module _ (ws : ℕ) (f : Connection → Connection)
    (k : (c : Connection) → IsSoundConnection c → IsSoundConnection (f c)) where
  on_websocket-IsSound :
      (c : Connection) → IsSoundConnection c → IsSoundConnection (on_websocket ws f c)
  on_websocket-IsSound c h = elim (Bool-cases (c.websocket == ws)) [
    | inl e ↦ rw e (k c h)
    | inr e ↦ rw e h
  ]

  entries-IsSound :
      (es : List Entry)
      → All IsSoundEntry es
      → All IsSoundEntry
          (map (λ (e : Entry). record e { connection = on_websocket ws f e.connection }) es)
  entries-IsSound [] h = tt
  entries-IsSound (e ∷ es) (h, hs) = (on_websocket-IsSound e.connection h, entries-IsSound es hs)

  retired-IsSound :
      (cs : List Connection)
      → All IsSoundConnection cs
      → All IsSoundConnection (map (on_websocket ws f) cs)
  retired-IsSound [] h = tt
  retired-IsSound (c ∷ cs) (h, hs) = (on_websocket-IsSound c h, retired-IsSound cs hs)

  on_connection-IsSound :
      (reg : Registry) → IsSoundRegistry reg → IsSoundRegistry (on_connection ws f reg)
  on_connection-IsSound reg (h, r) =
      (entries-IsSound reg.connections h, retired-IsSound reg.retired r)

retire-IsSound :
    (id : ℕ) (reason : String) (reg : Registry)
    → IsSoundRegistry reg
    → All IsSoundConnection (retire (entry_of id reg.connections) reason reg.retired)
retire-IsSound id reason reg (h, r) = elim (Option-cases (entry_of id reg.connections)) [
  | inl e ↦ rw e r
  | inr (x, e) ↦ rw e (
    fail_pending-IsSoundConnection x.connection reason (entry_of-IsSound id reg.connections x h e),
    r,
  )
]

register-IsSound :
    (id ws : ℕ) (reg : Registry) → IsSoundRegistry reg → IsSoundRegistry (register id ws reg)
unfolding register
register-IsSound id ws reg (h, r) = (
  All-append IsSoundEntry (drop_entry id reg.connections) _
      (drop_entry-IsSound id reg.connections h) ((tt, tt), tt),
  retire-IsSound id "agent connection replaced by a newer one" reg (h, r),
)

unregister-IsSound :
    (id : ℕ) (ws : Option ℕ) (reg : Registry)
    → IsSoundRegistry reg
    → IsSoundRegistry (unregister id ws reg)
unfolding unregister
unregister-IsSound id ws reg (h, r) = elim (Option-cases (entry_of id reg.connections)) [
  | inl e ↦ rw (unregister, e) (h, r)
  | inr (x, e) ↦ elim (Bool-cases (is_stale ws x.connection)) [
    | inl k ↦ rw (unregister, e) (rw k (h, r))
    | inr k ↦
        rw (unregister, e)
          (rw k (
            drop_entry-IsSound id reg.connections h,
            (
              fail_pending-IsSoundConnection x.connection "agent disconnected"
                  (entry_of-IsSound id reg.connections x h e),
              r,
            ),
          ))
  ]
]

live_connection-IsSound :
    (id ws : ℕ) (reg : Registry) (c : Connection)
    → IsSoundRegistry reg
    → live_connection id (some ws) reg ≡ some c
    → awaits_write ws (entry_of id reg.connections) ≡ false
    → IsSoundConnection c × (c.writing ≡ none)
live_connection-IsSound id ws reg c (h, r) e n = elim (Option-cases (entry_of id reg.connections)) [
  | inl g ↦ ground (arith, rw (live_connection, g) at e)
  | inr (x, g) ↦ elim (Bool-cases (x.connection.websocket == ws)) [
    | inl k ↦
        let same : x.connection ≡ c = some_inj (rw k at (rw (live_connection, g) at e)) in
        (
          subst IsSoundConnection same (entry_of-IsSound id reg.connections x h g),
          subst (λ d. d.writing ≡ none) same (idle x.connection.writing (rw k at (rw g at n))),
        )
    | inr k ↦ ground (arith, rw k at (rw (live_connection, g) at e))
  ]
]
  where
    idle : (w : Option Writing) → is_some w ≡ false → w ≡ none
    idle none k = refl
    idle (some w) k = ground (arith, k)

module _ (id ws : ℕ) (m : Fields) (reg reg' : Registry) where
  resolve_response-IsSound :
      IsSoundRegistry reg
      → awaits_write ws (entry_of id reg.connections) ≡ false
      → resolve_response id m (some ws) reg ≡ ok reg'
      → IsSoundRegistry reg'
  unfolding resolve_response
  resolve_response-IsSound h n e = elim (Option-cases (live_connection id (some ws) reg)) [
    | inl g ↦ subst IsSoundRegistry (ok_inj (rw (resolve_response, g) at e)) h
    | inr (c, g) ↦
        let (i, _, e1) = >>=-eq-ok (id_of (field_at "id" m)) _ (rw (resolve_response, g) at e) in
        let (c', a, e2) = >>=-eq-ok (answer m (pending_of i c.pending) c) _ e1 in
        let (s, w) = live_connection-IsSound id ws reg c h g n in
        subst IsSoundRegistry (ok_inj e2)
          (put-IsSound id c' reg (answer-IsSoundConnection m (pending_of i c.pending) c c' w s a) h)
  ]

  receive_chunk-IsSound :
      (decode : Option Value → Option (List ℕ))
      → IsSoundRegistry reg
      → awaits_write ws (entry_of id reg.connections) ≡ false
      → receive_chunk decode id m (some ws) reg ≡ ok reg'
      → IsSoundRegistry reg'
  unfolding receive_chunk
  receive_chunk-IsSound decode h n e = elim (Option-cases (live_connection id (some ws) reg)) [
    | inl g ↦ subst IsSoundRegistry (ok_inj (rw (receive_chunk, g) at e)) h
    | inr (c, g) ↦
        let (i, _, e1) = >>=-eq-ok (id_of (field_at "id" m)) _ (rw (receive_chunk, g) at e) in
        let (s, _) = live_connection-IsSound id ws reg c h g n in
        subst IsSoundRegistry (ok_inj e1) (
          put-IsSound id (begin_chunk decode m (pending_of i c.pending) c) reg
            (begin_chunk-IsSoundConnection decode m i c s) h)
  ]

after_dispatch-IsSound :
    (id ws : ℕ) (reg : Registry) (r : Run Registry)
    → ((reg' : Registry) → r ≡ ok reg' → IsSoundRegistry reg')
    → IsSoundRegistry reg
    → IsSoundRegistry (after_dispatch id ws reg r)
after_dispatch-IsSound id ws reg (ok reg') k h = k reg' refl
after_dispatch-IsSound id ws reg (http n d) k h = unregister-IsSound id (some ws) reg h
after_dispatch-IsSound id ws reg crash k h = unregister-IsSound id (some ws) reg h
after_dispatch-IsSound id ws reg out_of_fuel k h = unregister-IsSound id (some ws) reg h

new_pending-IsSound :
    (now : ℕ) (id : String) (st : Option (Option ℕ)) → IsSound (new_pending now id st)
new_pending-IsSound now id none = tt
new_pending-IsSound now id (some none) = (refl, refl, refl)
new_pending-IsSound now id (some (some l)) = (refl, ground arith, refl)

send_command-IsSound :
    (now id : ℕ) (rid : String) (st : Option (Option ℕ)) (reg : Registry)
    → IsSoundRegistry reg
    → IsSoundRegistry (or_same reg (send_command now id rid st reg))
unfolding send_command
send_command-IsSound now id rid st reg h = elim (Option-cases (entry_of id reg.connections)) [
  | inl e ↦ rw (or_same, send_command, e) h
  | inr (x, e) ↦
      rw (or_same, send_command, e)
        (put-IsSound id (add_pending (new_pending now rid st) x.connection) reg
          (add_pending-IsSoundConnection (new_pending now rid st) x.connection
            (new_pending-IsSound now rid st) (entry_of-IsSound id reg.connections x h.0 e))
          h)
]

module _ (decode : Option Value → Option (List ℕ)) where
  message-IsSound :
      (id ws : ℕ) (m : Fields) (reg : Registry)
      → IsSoundRegistry reg
      → IsSoundRegistry (handle decode (message id ws m) reg)
  unfolding handle
  message-IsSound id ws m reg h =
      elim (Bool-cases (awaits_write ws (entry_of id reg.connections))) [
        | inl w ↦ rw w h
        | inr w ↦ rw w (
            after_dispatch-IsSound id ws reg (dispatch decode id ws m reg)
              (λ reg' e. sound reg' w e) h)
      ]
    where
      sound :
          (reg' : Registry)
          → awaits_write ws (entry_of id reg.connections) ≡ false
          → dispatch decode id ws m reg ≡ ok reg'
          → IsSoundRegistry reg'
      sound reg' w e = elim (Bool-cases (as_str (value_at "type" m) == some "fetch_chunk")) [
        | inl k ↦ receive_chunk-IsSound id ws m reg reg' decode h w (rw (dispatch, k) at e)
        | inr k ↦ resolve_response-IsSound id ws m reg reg' h w (rw (dispatch, k) at e)
      ]

  handle-IsSound :
      (e : Event) (reg : Registry) → IsSoundRegistry reg → IsSoundRegistry (handle decode e reg)
  unfolding handle
  handle-IsSound (connected id ws) reg h = register-IsSound id ws reg h
  handle-IsSound (disconnected id ws) reg h = unregister-IsSound id (some ws) reg h
  handle-IsSound (message id ws m) reg h = message-IsSound id ws m reg h
  handle-IsSound (chunk_written ws now b) reg h =
      on_connection-IsSound ws (end_chunk now b) (end_chunk-IsSoundConnection now b) reg h
  handle-IsSound (sent now id rid st) reg h = send_command-IsSound now id rid st reg h
  handle-IsSound (finished ws id) reg h =
      on_connection-IsSound ws (drop_pending id) (drop_pending-IsSoundConnection id) reg h

  pub run-IsSound :
      (es : List Event) (reg : Registry) → IsSoundRegistry reg → IsSoundRegistry (run decode es reg)
  unfolding run
  run-IsSound [] reg h = h
  run-IsSound (e ∷ es) reg h = run-IsSound es (handle decode e reg) (handle-IsSound e reg h)
