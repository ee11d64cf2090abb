-- ===== src/Agents/Retired.antt =====
-- backend/app/agent_registry.py: the senders that wait on a connection that was replaced or that ended.
use perchtail.Prelude.{
  subst, ℕ, ◌≡◌, refl, Bool, true, false, Bool-cases, inl, inr, Option, Option-cases, none, some,
  String, List, [], ◌∷◌, All, map, ◌==◌, nat_eq, string_eq, option_eq,
}
use perchtail.Run.{ok_inj, >>=-eq-ok, Run, ok, http, crash, out_of_fuel}
use perchtail.Json.{Value, Fields, as_str, value_at}
use perchtail.Agents.{
  id_of, field_at, pending_of, answer, or_same, AgentError, write_failed, Writing, is_stale,
  not_connected, Future, waiting, failed, answered, Pending, Connection, Entry, Registry, is_done,
  entry_of, register, unregister, resolve_response, live_connection, fail, fail_future,
  fail_pending, retire, update,
}
use perchtail.Agents.Chunks.{
  receive_chunk, update_written, end_write, end_chunk, drop_pending, send_command,
}
use perchtail.Agents.Loop.{
  Event, connected, disconnected, message, chunk_written, sent, finished, dispatch, handle, run,
  on_websocket, after_dispatch, awaits_write,
}
use perchtail.Agents.Keeps.{All-remove}
use perchtail.Agents.Answered.{no_agents}

abbrev IsDone : Pending → Type 0
IsDone p = is_done p.future ≡ true

abbrev IsOver : Connection → Type 0
IsOver c = All IsDone c.pending

map-IsDone :
    (f : Pending → Pending) (ps : List Pending)
    → ((p : Pending) → IsDone p → IsDone (f p))
    → All IsDone ps
    → All IsDone (map f ps)
map-IsDone f [] k h = tt
map-IsDone f (p ∷ ps) k (h, hs) = (k p h, map-IsDone f ps k hs)

update-IsDone :
    (id : String) (f : Pending → Pending) (ps : List Pending)
    → ((p : Pending) → IsDone p → IsDone (f p))
    → All IsDone ps
    → All IsDone (update id f ps)
unfolding update
update-IsDone id f [] k h = tt
update-IsDone id f (p ∷ ps) k (h, hs) = elim (Bool-cases (p.id == id)) [
  | inl e ↦ rw e (k p h, hs)
  | inr e ↦ rw e (h, update-IsDone id f ps k hs)
]

fail_future-IsDone : (e : AgentError) (f : Future) → is_done (fail_future e f) ≡ true
fail_future-IsDone e waiting = refl
fail_future-IsDone e (failed e') = refl
fail_future-IsDone e (answered m) = refl

fail-IsDone : (e : AgentError) (ps : List Pending) → All IsDone (map (fail e) ps)
fail-IsDone e [] = tt
fail-IsDone e (p ∷ ps) = (fail_future-IsDone e p.future, fail-IsDone e ps)

end_write-IsDone :
    (now : ℕ) (b : Bool) (bytes : List ℕ) (p : Pending)
    → IsDone p
    → IsDone (end_write now b bytes p)
end_write-IsDone now true bytes p h = h
end_write-IsDone now false bytes p h = fail_future-IsDone write_failed p.future

end_chunk-IsOver : (now : ℕ) (b : Bool) (c : Connection) → IsOver c → IsOver (end_chunk now b c)
unfolding end_chunk
end_chunk-IsOver now b c h = go c.writing
  where
    id_go :
        (id : Option String) (bytes : List ℕ)
        → All IsDone (update_written id (end_write now b bytes) c.pending)
    id_go none bytes = h
    id_go (some id) bytes =
        update-IsDone id (end_write now b bytes) c.pending (λ p k. end_write-IsDone now b bytes p k)
          h

    go :
        (w : Option Writing)
        → IsOver (elim w [
          | none ↦ c
          | some w ↦ record c {
            pending = update_written w.id (end_write now b w.bytes) c.pending;
            writing = none;
          }
        ])
    go none = h
    go (some w) = id_go w.id w.bytes

drop_pending-IsOver : (id : String) (c : Connection) → IsOver c → IsOver (drop_pending id c)
drop_pending-IsOver id c h = All-remove IsDone id c.pending h

abbrev pub AllOver : Registry → Type 0
AllOver reg = All IsOver reg.retired

retire-AllOver :
    (e : Option Entry) (reason : String) (cs : List Connection)
    → All IsOver cs
    → All IsOver (retire e reason cs)
unfolding fail_pending
retire-AllOver none reason cs h = h
retire-AllOver (some e) reason cs h = (fail-IsDone (not_connected reason) e.connection.pending, h)

unregister-AllOver :
    (id : ℕ) (ws : Option ℕ) (reg : Registry) → AllOver reg → AllOver (unregister id ws reg)
unfolding unregister
unregister-AllOver id ws reg h = elim (Option-cases (entry_of id reg.connections)) [
  | inl e ↦ rw (unregister, e) h
  | inr (x, e) ↦ elim (Bool-cases (is_stale ws x.connection)) [
    | inl k ↦ rw (unregister, e) (rw k h)
    | inr k ↦ rw (unregister, e) (rw k (retire-AllOver (some x) "agent disconnected" reg.retired h))
  ]
]

on_websocket-AllOver :
    (ws : ℕ) (f : Connection → Connection) (cs : List Connection)
    → ((c : Connection) → IsOver c → IsOver (f c))
    → All IsOver cs
    → All IsOver (map (on_websocket ws f) cs)
on_websocket-AllOver ws f [] k h = tt
on_websocket-AllOver ws f (c ∷ cs) k (h, hs) = elim (Bool-cases (c.websocket == ws)) [
  | inl e ↦ rw e (k c h, on_websocket-AllOver ws f cs k hs)
  | inr e ↦ rw e (h, on_websocket-AllOver ws f cs k hs)
]

module _ (id ws : ℕ) (m : Fields) (reg reg' : Registry) where
  resolve_response-retired :
      resolve_response id m (some ws) reg ≡ ok reg' → AllOver reg → AllOver reg'
  unfolding resolve_response
  resolve_response-retired e h = elim (Option-cases (live_connection id (some ws) reg)) [
    | inl g ↦ subst AllOver (ok_inj (rw (resolve_response, g) at e)) h
    | inr (c, g) ↦
        let (i, _, e1) = >>=-eq-ok (id_of (field_at "id" m)) _ (rw (resolve_response, g) at e) in
        let (c', a, e2) = >>=-eq-ok (answer m (pending_of i c.pending) c) _ e1 in
        subst AllOver (ok_inj e2) h
  ]

  receive_chunk-retired :
      (decode : Option Value → Option (List ℕ))
      → receive_chunk decode id m (some ws) reg ≡ ok reg'
      → AllOver reg
      → AllOver reg'
  unfolding receive_chunk
  receive_chunk-retired decode e h = elim (Option-cases (live_connection id (some ws) reg)) [
    | inl g ↦ subst AllOver (ok_inj (rw (receive_chunk, g) at e)) h
    | inr (c, g) ↦
        let (i, _, e1) = >>=-eq-ok (id_of (field_at "id" m)) _ (rw (receive_chunk, g) at e) in
        subst AllOver (ok_inj e1) h
  ]

after_dispatch-AllOver :
    (id ws : ℕ) (reg : Registry) (r : Run Registry)
    → ((reg' : Registry) → r ≡ ok reg' → AllOver reg')
    → AllOver reg
    → AllOver (after_dispatch id ws reg r)
after_dispatch-AllOver id ws reg (ok reg') k h = k reg' refl
after_dispatch-AllOver id ws reg (http n d) k h = unregister-AllOver id (some ws) reg h
after_dispatch-AllOver id ws reg crash k h = unregister-AllOver id (some ws) reg h
after_dispatch-AllOver id ws reg out_of_fuel k h = unregister-AllOver id (some ws) reg h

send_command-AllOver :
    (now id : ℕ) (rid : String) (st : Option (Option ℕ)) (reg : Registry)
    → AllOver reg
    → AllOver (or_same reg (send_command now id rid st reg))
unfolding send_command
send_command-AllOver now id rid st reg h = elim (Option-cases (entry_of id reg.connections)) [
  | inl e ↦ rw (or_same, send_command, e) h
  | inr (x, e) ↦ rw (or_same, send_command, e) h
]

module _ (decode : Option Value → Option (List ℕ)) where
  dispatch-AllOver :
      (id ws : ℕ) (m : Fields) (reg reg' : Registry)
      → dispatch decode id ws m reg ≡ ok reg'
      → AllOver reg
      → AllOver reg'
  unfolding dispatch
  dispatch-AllOver id ws m reg reg' e h =
      elim (Bool-cases (as_str (value_at "type" m) == some "fetch_chunk")) [
        | inl k ↦ receive_chunk-retired id ws m reg reg' decode (rw (dispatch, k) at e) h
        | inr k ↦ resolve_response-retired id ws m reg reg' (rw (dispatch, k) at e) h
      ]

  handle-AllOver : (e : Event) (reg : Registry) → AllOver reg → AllOver (handle decode e reg)
  unfolding handle register
  handle-AllOver (connected id ws) reg h =
      retire-AllOver (entry_of id reg.connections) "agent connection replaced by a newer one"
        reg.retired h
  handle-AllOver (disconnected id ws) reg h = unregister-AllOver id (some ws) reg h
  handle-AllOver (message id ws m) reg h =
      elim (Bool-cases (awaits_write ws (entry_of id reg.connections))) [
        | inl w ↦ rw w h
        | inr w ↦ rw w (
            after_dispatch-AllOver id ws reg (dispatch decode id ws m reg)
              (λ reg' e. dispatch-AllOver id ws m reg reg' e h) h)
      ]
  handle-AllOver (chunk_written ws now b) reg h =
      on_websocket-AllOver ws (end_chunk now b) reg.retired (end_chunk-IsOver now b) h
  handle-AllOver (sent now id rid st) reg h = send_command-AllOver now id rid st reg h
  handle-AllOver (finished ws id) reg h =
      on_websocket-AllOver ws (drop_pending id) reg.retired (drop_pending-IsOver id) h

  run-AllOver : (es : List Event) (reg : Registry) → AllOver reg → AllOver (run decode es reg)
  unfolding run
  run-AllOver [] reg h = h
  run-AllOver (e ∷ es) reg h = run-AllOver es (handle decode e reg) (handle-AllOver e reg h)

  -- From no connections on, whatever events happen: of a connection that was replaced or that ended,
  -- every pending future is done, so that no sender still waits on it.
  pub run-retired : (es : List Event) → AllOver (run decode es no_agents)
  run-retired es = run-AllOver es no_agents tt
