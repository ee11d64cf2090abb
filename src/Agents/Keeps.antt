-- ===== src/Agents/Keeps.antt =====
-- backend/app/agent_registry.py: every step on a connection keeps its streamed fetches sound.
use perchtail.Prelude.{
  ℕ, ◌+◌, ◌≡◌, refl, sym, Bool, true, false, not, Bool-cases, inl, inr, Option, Option-cases, none,
  some, String, List, [], ◌∷◌, ◌++◌, All, All-append, map, length, arith, ◌==◌, ==_iff, subst,
  nat_eq, string_eq, option_eq,
}
use perchtail.Prelude.Table.{get-key, remove, get-remove, get-append}
use perchtail.Run.{ok_inj, >>=-eq-ok, ok}
use perchtail.Json.{Value, Fields, as_int, value_at}
use perchtail.Model.{over}
use perchtail.Agents.{
  Future, waiting, failed, answered, Stream, Pending, Writing, Connection, AgentError,
  not_connected, find_pending, fail, fail_pending, settle_pending, pending_of, field_at, update,
  set_future, is_error, out_of_order, invalid_chunk, over_limit, is_done, answer,
}
use perchtail.Agents.Chunks.{
  take_chunk, take_unless, begin_chunk, end_write, update_written, end_chunk, orphan,
  orphan_writing, drop_pending, add_pending,
}
use perchtail.Agents.Sound.{
  IsSound, Fits, FitsStream, FitsId, FitsWriting, is_answered, IsSoundConnection, update-All,
  fail_pending-IsSound, failed-IsSound, settle-IsSound, end_write-IsSound, Fits-update, Fits-map,
  fail_future-unanswered, FitsWriting-lift,
}

pub All-remove :
    (P : Pending → Type 0) (id : String) (ps : List Pending)
    → All P ps
    → All P (remove (λ (p : Pending). p.id) id ps)
unfolding remove
All-remove P id [] h = tt
All-remove P id (p ∷ ps) (h, hs) = elim (Bool-cases (p.id == id)) [
  | inl e ↦ rw e (All-remove P id ps hs)
  | inr e ↦ rw e (h, All-remove P id ps hs)
]

pub fail_pending-IsSoundConnection :
    (c : Connection) (reason : String)
    → IsSoundConnection c
    → IsSoundConnection (fail_pending c reason)
unfolding fail_pending
fail_pending-IsSoundConnection c reason (h, w) = (
  fail_pending-IsSound (not_connected reason) c.pending h,
  FitsWriting-lift c.writing c.pending (map (fail (not_connected reason)) c.pending)
      (λ b j.
        Fits-map b j (fail (not_connected reason)) c.pending (λ p. refl)
          (λ p (k, l). (fail_future-unanswered (not_connected reason) p.future k, l)))
      w,
)

set_failed-IsSoundConnection :
    (id : String) (e : AgentError) (c : Connection)
    → IsSoundConnection c
    → IsSoundConnection (set_future id (failed e) c)
unfolding set_future
set_failed-IsSoundConnection id e c (h, w) =
    let f : Pending → Pending = λ p. record p { future = failed e } in
    (
      update-All IsSound id f c.pending h (λ p _ k. failed-IsSound e p.future p.stream k),
      FitsWriting-lift c.writing c.pending (update id f c.pending)
          (λ b j. Fits-update b j id f c.pending (λ p. refl) (λ p (k, l). (refl, l))) w,
    )

-- An answer comes when no chunk is being written.
pub answer-IsSoundConnection :
    (m : Fields) (o : Option Pending) (c c' : Connection)
    → c.writing ≡ none
    → IsSoundConnection c
    → answer m o c ≡ ok c'
    → IsSoundConnection c'
unfolding answer
answer-IsSoundConnection m none c c' n (h, w) e = subst IsSoundConnection (ok_inj e) (h, w)
answer-IsSoundConnection m (some p) c c' n (h, w) e = elim (Bool-cases (is_done p.future)) [
  | inl d ↦ subst IsSoundConnection (ok_inj (rw d at e)) (h, w)
  | inr d ↦
      let (b, _, e') = >>=-eq-ok (is_error (field_at "type" m)) _ (rw d at e) in
      subst IsSoundConnection (ok_inj e') (
        update-All IsSound p.id (settle_pending b m) c.pending h
            (λ q _ k. settle-IsSound b m q.future q.stream k),
        rw n tt,
      )
]

module _ (decode : Option Value → Option (List ℕ)) (m : Fields) (p : Pending) (c : Connection) where
  take_chunk-IsSoundConnection :
      (s : Stream)
      → find_pending p.id c.pending ≡ some p
      → is_done p.future ≡ false
      → p.stream ≡ some s
      → IsSoundConnection c
      → IsSoundConnection (take_chunk decode m p s c)
  unfolding take_chunk
  take_chunk-IsSoundConnection s g d t h =
      elim (Bool-cases (not (as_int (value_at "seq" m) == some s.next_seq))) [
        | inl k ↦ rw k (set_failed-IsSoundConnection p.id out_of_order c h)
        | inr k ↦ rw k (elim (Option-cases (decode (field_at "data_b64" m))) [
          | inl e ↦ rw e (set_failed-IsSoundConnection p.id invalid_chunk c h)
          | inr (bytes, e) ↦ rw e (elim (Bool-cases (over s.limit (s.written + length bytes))) [
            | inl o ↦
                rw o (set_failed-IsSoundConnection p.id (over_limit (s.written + length bytes)) c h)
            | inr o ↦ rw o (
              h.0,
              subst (Fits bytes) (sym g) (undone p.future d, subst (FitsStream bytes) (sym t) o),
            )
          ])
        ])
      ]
    where
      undone : (f : Future) → is_done f ≡ false → is_answered f ≡ false
      undone waiting d = refl
      undone (failed e) d = refl
      undone (answered m) d = d

  take_unless-IsSoundConnection :
      (b : Bool) (st : Option Stream)
      → find_pending p.id c.pending ≡ some p
      → is_done p.future ≡ b
      → p.stream ≡ st
      → IsSoundConnection c
      → IsSoundConnection (take_unless decode b m p st c)
  unfolding take_unless
  take_unless-IsSoundConnection true st g d t h = h
  take_unless-IsSoundConnection false none g d t h = h
  take_unless-IsSoundConnection false (some s) g d t h = take_chunk-IsSoundConnection s g d t h

pub begin_chunk-IsSoundConnection :
    (decode : Option Value → Option (List ℕ)) (m : Fields) (id : Option String) (c : Connection)
    → IsSoundConnection c
    → IsSoundConnection (begin_chunk decode m (pending_of id c.pending) c)
unfolding begin_chunk
begin_chunk-IsSoundConnection decode m none c h = h
begin_chunk-IsSoundConnection decode m (some id) c h =
    elim (Option-cases (find_pending id c.pending)) [
      | inl e ↦ rw e h
      | inr (p, e) ↦
          let same = get-key (λ (q : Pending). q.id) id c.pending p e in
          let g = subst (λ k. find_pending k c.pending ≡ some p) (sym same) e in
          rw e
            (take_unless-IsSoundConnection decode m p c (is_done p.future) p.stream g refl refl h)
    ]

pub end_chunk-IsSoundConnection :
    (now : ℕ) (b : Bool) (c : Connection)
    → IsSoundConnection c
    → IsSoundConnection (end_chunk now b c)
unfolding end_chunk
end_chunk-IsSoundConnection now b c (h, w) = go c.writing w
  where
    id_go :
        (id : Option String) (bytes : List ℕ)
        → FitsId bytes id c.pending
        → All IsSound (update_written id (end_write now b bytes) c.pending)
    id_go none bytes k = h
    id_go (some id) bytes k =
        update-All IsSound id (end_write now b bytes) c.pending h
          (λ p g s. end_write-IsSound now b bytes p (rw g at k) s)

    go :
        (w : Option Writing)
        → FitsWriting w c.pending
        → IsSoundConnection (elim w [
          | none ↦ c
          | some w ↦ record c {
            pending = update_written w.id (end_write now b w.bytes) c.pending;
            writing = none;
          }
        ])
    go none k = (h, w)
    go (some w) k = (id_go w.id w.bytes k, tt)

pub drop_pending-IsSoundConnection :
    (id : String) (c : Connection) → IsSoundConnection c → IsSoundConnection (drop_pending id c)
drop_pending-IsSoundConnection id c (h, w) = (All-remove IsSound id c.pending h, go c.writing w)
  where
    kept :
        (j : String)
        → (j == id) ≡ false
        → find_pending j (remove (λ (p : Pending). p.id) id c.pending) ≡ find_pending j c.pending
    kept j e =
        ground
          (arith, e, get-remove (λ (p : Pending). p.id) j id c.pending, ==_iff j id, ==_iff id j)

    id_go :
        (j : Option String) (bytes : List ℕ)
        → FitsId bytes j c.pending
        → FitsWriting
            (some (orphan id (record { id = j; bytes = bytes })))
            (remove (λ (p : Pending). p.id) id c.pending)
    id_go none bytes k = tt
    id_go (some j) bytes k = elim (Bool-cases (j == id)) [
      | inl e ↦ rw e tt
      | inr e ↦ rw e (subst (Fits bytes) (sym (kept j e)) k)
    ]

    go :
        (w : Option Writing)
        → FitsWriting w c.pending
        → FitsWriting (orphan_writing id w) (remove (λ (p : Pending). p.id) id c.pending)
    go none k = tt
    go (some w) k = id_go w.id w.bytes k

pub add_pending-IsSoundConnection :
    (p : Pending) (c : Connection)
    → IsSound p
    → IsSoundConnection c
    → IsSoundConnection (add_pending p c)
add_pending-IsSoundConnection p c s (h, w) = (
  All-append IsSound (remove (λ (q : Pending). q.id) p.id c.pending) (p ∷ [])
      (All-remove IsSound p.id c.pending h) (s, tt),
  go c.writing w,
)
  where
    added : List Pending
    added = remove (λ (q : Pending). q.id) p.id c.pending ++ p ∷ []

    kept : (j : String) → (j == p.id) ≡ false → find_pending j added ≡ find_pending j c.pending
    kept j e = ground (
      arith,
      e,
      get-append (λ (q : Pending). q.id) j (remove (λ (q : Pending). q.id) p.id c.pending) p,
      get-remove (λ (q : Pending). q.id) j p.id c.pending,
      ==_iff j p.id,
      ==_iff p.id j,
    )

    id_go :
        (j : Option String) (bytes : List ℕ)
        → FitsId bytes j c.pending
        → FitsWriting (some (orphan p.id (record { id = j; bytes = bytes }))) added
    id_go none bytes k = tt
    id_go (some j) bytes k = elim (Bool-cases (j == p.id)) [
      | inl e ↦ rw e tt
      | inr e ↦ rw e (subst (Fits bytes) (sym (kept j e)) k)
    ]

    go : (w : Option Writing) → FitsWriting w c.pending → FitsWriting (orphan_writing p.id w) added
    go none k = tt
    go (some w) k = id_go w.id w.bytes k
