-- ===== src/Agents/Sound.antt =====
-- backend/app/agent_registry.py: what a streamed fetch keeps, one command at a time.
use mathlib.Core.Bool.{false≢true}
use perchtail.Prelude.{
  ℕ, ◌+◌, ◌≡◌, refl, sym, Bool, true, false, ◌&&◌, ◌||◌, not, Bool-cases, inl, inr, Option, none,
  some, String, List, [], ◌∷◌, All, map, length, length-append, not_and, arith, ◌==◌, nat_eq,
  string_eq, option_eq,
}
use perchtail.Prelude.Table.{get}
use perchtail.Json.{Fields, value_at}
use perchtail.Model.{over}
use perchtail.Agents.{
  Future, waiting, failed, answered, Stream, Pending, Writing, Connection, AgentError, find_pending,
  fail, is_truthy, is_complete, settle, fail_future, write_failed, update,
}
use perchtail.Agents.Chunks.{end_write, wrote}

-- An answer that announces a streamed fetch fits the stream.
abbrev pub is_closed : Future → Stream → Bool
is_closed waiting s = true
is_closed (failed e) s = true
is_closed (answered m) s = not (is_truthy (value_at "streamed" m)) || is_complete m s

abbrev pub IsSoundStream : Future → Option Stream → Type 0
IsSoundStream f none = Unit
IsSoundStream f (some s) =
    (s.written ≡ length s.sink) × (over s.limit s.written ≡ false) × (is_closed f s ≡ true)

abbrev pub IsSound : Pending → Type 0
IsSound p = IsSoundStream p.future p.stream

abbrev pub is_answered : Future → Bool
is_answered waiting = false
is_answered (failed e) = false
is_answered (answered m) = true

abbrev pub FitsStream : List ℕ → Option Stream → Type 0
FitsStream bytes none = Unit
FitsStream bytes (some s) = over s.limit (s.written + length bytes) ≡ false

-- A chunk that is being written fits its command, which nobody has answered.
abbrev pub Fits : List ℕ → Option Pending → Type 0
Fits bytes none = Unit
Fits bytes (some p) = (is_answered p.future ≡ false) × FitsStream bytes p.stream

abbrev pub FitsId : List ℕ → Option String → List Pending → Type 0
FitsId bytes none ps = Unit
FitsId bytes (some id) ps = Fits bytes (find_pending id ps)

abbrev pub FitsWriting : Option Writing → List Pending → Type 0
FitsWriting none ps = Unit
FitsWriting (some w) ps = FitsId w.bytes w.id ps

abbrev pub IsSoundConnection : Connection → Type 0
IsSoundConnection c = All IsSound c.pending × FitsWriting c.writing c.pending

pub update-All :
    (P : Pending → Type 0) (id : String) (f : Pending → Pending) (ps : List Pending)
    → All P ps
    → ((p : Pending) → find_pending id ps ≡ some p → P p → P (f p))
    → All P (update id f ps)
unfolding update get
update-All P id f [] h k = tt
update-All P id f (p ∷ ps) (h, hs) k = elim (Bool-cases (p.id == id)) [
  | inl e ↦ rw e (k p (rw e refl) h, hs)
  | inr e ↦ rw e (h, update-All P id f ps hs (λ q g. k q (rw e g)))
]

fail_future-IsSound :
    (e : AgentError) (f : Future) (st : Option Stream)
    → IsSoundStream f st
    → IsSoundStream (fail_future e f) st
fail_future-IsSound e f none h = tt
fail_future-IsSound e waiting (some s) h = h
fail_future-IsSound e (failed e') (some s) h = h
fail_future-IsSound e (answered m) (some s) h = h

pub fail_pending-IsSound :
    (e : AgentError) (ps : List Pending) → All IsSound ps → All IsSound (map (fail e) ps)
fail_pending-IsSound e [] h = tt
fail_pending-IsSound e (p ∷ ps) (h, hs) =
    (fail_future-IsSound e p.future p.stream h, fail_pending-IsSound e ps hs)

pub failed-IsSound :
    (e : AgentError) (f : Future) (st : Option Stream)
    → IsSoundStream f st
    → IsSoundStream (failed e) st
failed-IsSound e f none h = tt
failed-IsSound e f (some s) (a, b, c) = (a, b, refl)

pub settle-IsSound :
    (b : Bool) (m : Fields) (f : Future) (st : Option Stream)
    → IsSoundStream f st
    → IsSoundStream (settle b m st) st
settle-IsSound b m f none h = tt
settle-IsSound true m f (some s) (a, b, c) = (a, b, refl)
settle-IsSound false m f (some s) (a, b, c) =
    elim (Bool-cases (is_truthy (value_at "streamed" m) && not (is_complete m s))) [
      | inl e ↦ rw e (a, b, refl)
      | inr e ↦ rw e (a, b, not_and (is_truthy (value_at "streamed" m)) (is_complete m s) e)
    ]

wrote-IsSound :
    (now : ℕ) (bytes : List ℕ) (f : Future) (st : Option Stream)
    → is_answered f ≡ false
    → FitsStream bytes st
    → IsSoundStream f st
    → IsSoundStream f (wrote now bytes st)
wrote-IsSound now bytes f none k w h = tt
wrote-IsSound now bytes waiting (some s) k w (a, b, c) =
    (rw (length-append s.sink bytes) (ground (arith, a)), w, refl)
wrote-IsSound now bytes (failed e) (some s) k w (a, b, c) =
    (rw (length-append s.sink bytes) (ground (arith, a)), w, refl)
wrote-IsSound now bytes (answered m) (some s) k w h = absurd (false≢true (sym k))

pub end_write-IsSound :
    (now : ℕ) (b : Bool) (bytes : List ℕ) (p : Pending)
    → Fits bytes (some p)
    → IsSound p
    → IsSound (end_write now b bytes p)
end_write-IsSound now true bytes p (k, w) h = wrote-IsSound now bytes p.future p.stream k w h
end_write-IsSound now false bytes p f h = fail_future-IsSound write_failed p.future p.stream h

-- What keeps each command's fit keeps the fit of the chunk being written.
pub Fits-update :
    (bytes : List ℕ) (j id : String) (f : Pending → Pending) (ps : List Pending)
    → ((p : Pending) → (f p).id ≡ p.id)
    → ((p : Pending) → Fits bytes (some p) → Fits bytes (some (f p)))
    → Fits bytes (find_pending j ps)
    → Fits bytes (find_pending j (update id f ps))
unfolding get update
Fits-update bytes j id f [] k l h = tt
Fits-update bytes j id f (p ∷ ps) k l h = elim (Bool-cases (p.id == id)) [
  | inl e ↦ rw e (elim (Bool-cases (p.id == j)) [
    | inl i ↦ rw (k p) (rw i (l p (rw i at h)))
    | inr i ↦ rw (k p) (rw i (rw i at h))
  ])
  | inr e ↦ rw e (elim (Bool-cases (p.id == j)) [
    | inl i ↦ rw i (rw i at h)
    | inr i ↦ rw i (Fits-update bytes j id f ps k l (rw i at h))
  ])
]

pub Fits-map :
    (bytes : List ℕ) (j : String) (f : Pending → Pending) (ps : List Pending)
    → ((p : Pending) → (f p).id ≡ p.id)
    → ((p : Pending) → Fits bytes (some p) → Fits bytes (some (f p)))
    → Fits bytes (find_pending j ps)
    → Fits bytes (find_pending j (map f ps))
unfolding get
Fits-map bytes j f [] k l h = tt
Fits-map bytes j f (p ∷ ps) k l h = elim (Bool-cases (p.id == j)) [
  | inl i ↦ rw (k p) (rw i (l p (rw i at h)))
  | inr i ↦ rw (k p) (rw i (Fits-map bytes j f ps k l (rw i at h)))
]

pub fail_future-unanswered :
    (e : AgentError) (f : Future) → is_answered f ≡ false → is_answered (fail_future e f) ≡ false
fail_future-unanswered e waiting k = refl
fail_future-unanswered e (failed e') k = refl
fail_future-unanswered e (answered m) k = k

FitsId-lift :
    (bytes : List ℕ) (id : Option String) (ps qs : List Pending)
    → ((j : String) → Fits bytes (find_pending j ps) → Fits bytes (find_pending j qs))
    → FitsId bytes id ps
    → FitsId bytes id qs
FitsId-lift bytes none ps qs k h = tt
FitsId-lift bytes (some j) ps qs k h = k j h

pub FitsWriting-lift :
    (w : Option Writing) (ps qs : List Pending)
    → ((bytes : List ℕ) (j : String)
        → Fits bytes (find_pending j ps)
        → Fits bytes (find_pending j qs))
    → FitsWriting w ps
    → FitsWriting w qs
FitsWriting-lift none ps qs k h = tt
FitsWriting-lift (some w) ps qs k h = FitsId-lift w.bytes w.id ps qs (k w.bytes) h
