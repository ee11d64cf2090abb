-- ===== src/Agents/Answered.antt =====
-- backend/app/agent_registry.py: what the sender of a streamed fetch finds when it is answered.
use perchtail.Prelude.{
  some_inj, ℕ, ◌≡◌, true, false, Option, some, String, List, [], ◌∷◌, length, ◌==◌, ==_iff, nat_eq,
  option_eq, subst, and_true, ap, ◌∙◌, All, Bool-cases, inl, inr, arith, string_eq,
}
use perchtail.Prelude.Table.{get}
use perchtail.Json.{Value, Fields, as_int, value_at}
use perchtail.Model.{over}
use perchtail.Agents.{answered, Stream, Pending, Entry, Registry, find_pending, entry_of, is_truthy}
use perchtail.Agents.Loop.{Event, run}
use perchtail.Agents.Sound.{IsSound, IsSoundStream}
use perchtail.Agents.Streams.{entry_of-IsSound, run-IsSound}

abbrev pub no_agents : Registry
no_agents = record { connections = []; retired = [] }

find_pending-IsSound :
    (id : String) (ps : List Pending) (p : Pending)
    → All IsSound ps
    → find_pending id ps ≡ some p
    → IsSound p
unfolding get
find_pending-IsSound id [] p h g = ground arith
find_pending-IsSound id (x ∷ xs) p (h, hs) g = elim (Bool-cases (x.id == id)) [
  | inl k ↦ subst IsSound (some_inj (rw k at g)) h
  | inr k ↦ find_pending-IsSound id xs p hs (rw k at g)
]

-- What the sink of a fetch holds is what its answer announces.
pub IsWhole : Fields → Stream → Type 0
IsWhole m s =
    (as_int (value_at "size" m) ≡ some (length s.sink))
    × (as_int (value_at "chunks" m) ≡ some s.next_seq)
    × (over s.limit (length s.sink) ≡ false)

closed-IsWhole :
    (m : Fields) (s : Stream)
    → is_truthy (value_at "streamed" m) ≡ true
    → IsSoundStream (answered m) (some s)
    → IsWhole m s
unfolding IsWhole
closed-IsWhole m s t (a, b, c) =
    let (chunks, size) = and_true _ _ (rw t at c) in
    (
      (==_iff (as_int (value_at "size" m)) (some s.written)).0 size ∙ ap some a,
      (==_iff (as_int (value_at "chunks" m)) (some s.next_seq)).0 chunks,
      subst (λ n. over s.limit n ≡ false) a b,
    )

-- From no connections on, whatever events happen: when the pending command `rid` of a source has a
-- stream and its future holds an answer that says it streamed, the number of bytes in the sink is the
-- `size` of the answer, the number of chunks taken is its `chunks`, and the bytes are within the limit.
pub run-answered :
    (decode : Option Value → Option (List ℕ)) (es : List Event) (source_id : ℕ) (e : Entry)
    (rid : String) (p : Pending) (m : Fields) (s : Stream)
    → entry_of source_id (run decode es no_agents).connections ≡ some e
    → find_pending rid e.connection.pending ≡ some p
    → p.future ≡ answered m
    → p.stream ≡ some s
    → is_truthy (value_at "streamed" m) ≡ true
    → IsWhole m s
run-answered decode es source_id e rid p m s g h f t k =
    let sound = run-IsSound decode es no_agents (tt, tt) in
    let fits = (entry_of-IsSound source_id (run decode es no_agents).connections e sound.0 g).0 in
    let stream : IsSoundStream p.future p.stream =
      find_pending-IsSound rid e.connection.pending p fits h in
    closed-IsWhole m s k (
      subst (λ st. IsSoundStream (answered m) st) t
        (subst (λ x. IsSoundStream x p.stream) f stream))
