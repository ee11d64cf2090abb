-- ===== src/AuthEvents/Folded.antt =====
-- backend/app/auth_events.py: every failure is in a row, in its count, or waits in `_recent`.
use perchtail.Prelude.{
  ℕ, suc, ◌+◌, ◌≤◌, ◌≡◌, refl, sym, ap, ◌∙◌, false, Bool-cases, Option-cases, inl, inr, none, some,
  List, [], ◌∷◌, ◌++◌, ltb, length, length-append, arith, ◌==◌, ==_iff, subst,
}
use perchtail.Prelude.Table.{get, get-key, replace}
use perchtail.Prelude.Keyed.{IsKeyed, replace-IsKeyed, append-IsKeyed}
use perchtail.AuthEvents.{
  Key, key_eq, Recent, Row, Events, Call, key_of, find, put, is_recent, max_recent, bounded, row,
  write_row, fold_into, record_call, record_calls,
}

abbrev by_key : Recent → Key
by_key r = r.key

-- the failures that wait in `_recent`
abbrev pub waiting : List Recent → ℕ
waiting [] = 0
waiting (r ∷ rs) = r.folded + waiting rs

-- the failures that the rows report, each its own and those folded into it
abbrev pub reported : List Row → ℕ
reported [] = 0
reported (r ∷ rs) = 1 + r.similar_events_folded + reported rs

reported-append :
    (rs : List Row) (r : Row)
    → reported (rs ++ r ∷ []) ≡ reported rs + (1 + r.similar_events_folded)
reported-append [] r = omega arith
reported-append (x ∷ xs) r = omega (arith, reported-append xs r)

waiting-append : (rs : List Recent) (r : Recent) → waiting (rs ++ r ∷ []) ≡ waiting rs + r.folded
waiting-append [] r = omega arith
waiting-append (x ∷ xs) r = omega (arith, waiting-append xs r)

replace-missing : (r : Recent) (rs : List Recent) → find r.key rs ≡ none → replace by_key r rs ≡ rs
unfolding replace get
replace-missing r [] h = refl
replace-missing r (x ∷ xs) h = ground (arith, replace-missing r xs)

waiting-replace :
    (r old : Recent) (rs : List Recent)
    → IsKeyed by_key rs
    → find r.key rs ≡ some old
    → waiting (replace by_key r rs) + old.folded ≡ waiting rs + r.folded
unfolding replace get
waiting-replace r old [] k h = ground (arith, h)
waiting-replace r old (x ∷ xs) (n, k) h = elim (Bool-cases (x.key == r.key)) [
  | inl e ↦
      let same = (==_iff x.key r.key).0 e in
      let rest = replace-missing r xs (subst (λ i. find i xs ≡ none) same n) in
      rw e (rw rest (ground (arith, rw e at h)))
  | inr e ↦ rw e (omega (arith, waiting-replace r old xs k (rw e at h)))
]

length-replace : (r : Recent) (rs : List Recent) → length (replace by_key r rs) ≡ length rs
unfolding replace
length-replace r [] = refl
length-replace r (x ∷ xs) = ap suc (length-replace r xs)

put-known :
    (r old : Recent) (rs : List Recent) → find r.key rs ≡ some old → put r rs ≡ replace by_key r rs
unfolding put
put-known r old rs h = rw (put, h) refl

put-new : (r : Recent) (rs : List Recent) → find r.key rs ≡ none → put r rs ≡ rs ++ r ∷ []
unfolding put
put-new r rs h = rw (put, h) refl

bounded-same : (now : ℕ) (rs : List Recent) → length rs ≤ max_recent → bounded now rs ≡ rs
unfolding bounded
bounded-same now rs h =
    let few : ltb max_recent (length rs) ≡ false = ground (arith, h) in rw (bounded, few) refl

-- After `n` calls: each key once, at most `n` keys, and `n` failures in all.
abbrev pub IsCounted : ℕ → Events → Type 0
IsCounted n s =
    IsKeyed by_key s.recent × (length s.recent ≤ n) × (waiting s.recent + reported s.rows ≡ n)

-- A row written for a key: what waited under it is in the row now.
written-IsCounted :
    (n now : ℕ) (c : Call) (old : Recent) (s : Events)
    → suc n ≤ max_recent
    → find (key_of c) s.recent ≡ some old
    → IsCounted n s
    → IsCounted (suc n) (write_row now c old.folded s)
unfolding write_row
written-IsCounted n now c old s m h (k, l, e) =
    let new : Recent = record { key = key_of c; at = now; folded = 0 } in
    let put_new = put-known new old s.recent h in
    let len = length-replace new s.recent in
    let same : bounded now (put new s.recent) ≡ replace by_key new s.recent =
      rw put_new (bounded-same now (replace by_key new s.recent) (omega (arith, len, l, m))) in
    rw same (
      replace-IsKeyed by_key new s.recent k,
      omega (arith, len, l),
      omega (
        arith,
        waiting-replace new old s.recent k h,
        reported-append s.rows (row c old.folded),
        e,
      ),
    )

fresh-IsCounted :
    (n now : ℕ) (c : Call) (s : Events)
    → suc n ≤ max_recent
    → find (key_of c) s.recent ≡ none
    → IsCounted n s
    → IsCounted (suc n) (write_row now c 0 s)
unfolding write_row
fresh-IsCounted n now c s m h (k, l, e) =
    let new : Recent = record { key = key_of c; at = now; folded = 0 } in
    let put_new = put-new new s.recent h in
    let len = length-append s.recent (new ∷ []) in
    let same : bounded now (put new s.recent) ≡ s.recent ++ new ∷ [] =
      rw put_new (bounded-same now (s.recent ++ new ∷ []) (omega (arith, len, l, m))) in
    rw same (
      append-IsKeyed by_key new s.recent h k,
      omega (arith, len, l),
      omega (arith, waiting-append s.recent new, reported-append s.rows (row c 0), e),
    )

folded-IsCounted :
    (n : ℕ) (r : Recent) (s : Events)
    → find r.key s.recent ≡ some r
    → IsCounted n s
    → IsCounted (suc n) (fold_into r s)
unfolding fold_into
folded-IsCounted n r s h (k, l, e) =
    let new : Recent = record r { folded = r.folded + 1 } in
    let put_new = put-known new r s.recent h in
    rw put_new (
      replace-IsKeyed by_key new s.recent k,
      omega (arith, length-replace new s.recent, l),
      omega (arith, waiting-replace new r s.recent k h, e),
    )

record_call-IsCounted :
    (n now : ℕ) (c : Call) (s : Events)
    → suc n ≤ max_recent
    → IsCounted n s
    → IsCounted (suc n) (record_call now c s)
unfolding record_call
record_call-IsCounted n now c s m h = elim (Option-cases (find (key_of c) s.recent)) [
  | inl g ↦ rw (record_call, g) (fresh-IsCounted n now c s m g h)
  | inr (r, g) ↦ elim (Bool-cases (is_recent now r)) [
    | inl t ↦
        let same = get-key by_key (key_of c) s.recent r g in
        rw (record_call, g)
          (rw t (folded-IsCounted n r s (subst (λ i. find i s.recent ≡ some r) (sym same) g) h))
    | inr t ↦ rw (record_call, g) (rw t (written-IsCounted n now c r s m g h))
  ]
]

record_calls-IsCounted :
    (n : ℕ) (cs : List (ℕ × Call)) (s : Events)
    → n + length cs ≤ max_recent
    → IsCounted n s
    → IsCounted (n + length cs) (record_calls cs s)
unfolding record_calls
record_calls-IsCounted n [] s m h = subst (λ k. IsCounted k s) (omega arith) h
record_calls-IsCounted n (c ∷ cs) s m h =
    subst (λ k. IsCounted k (record_calls cs (record_call c.0 c.1 s))) (omega arith)
      (record_calls-IsCounted (suc n) cs (record_call c.0 c.1 s) (omega (arith, m))
        (record_call-IsCounted n c.0 c.1 s (omega (arith, m)) h))

abbrev pub no_events : Events
no_events = record { recent = []; rows = [] }

-- Of at most as many calls as the table has room for, from no events on, each is counted once: by its
-- own row, by the row that it was folded into, or among those that wait for the next row.
pub record_calls-counts :
    (cs : List (ℕ × Call))
    → length cs ≤ max_recent
    → waiting (record_calls cs no_events).recent + reported (record_calls cs no_events).rows
      ≡ length cs
record_calls-counts cs m =
    (record_calls-IsCounted 0 cs no_events (omega (arith, m)) (tt, omega arith, refl)).2
    ∙ omega arith
