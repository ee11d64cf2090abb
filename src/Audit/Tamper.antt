-- ===== src/Audit/Tamper.antt =====
-- backend/app/audit_hash_chain.py: what the hash at the end of a chain says of the rows before it.
use perchtail.Prelude.{◌≡◌, refl, sym, ap, ◌∙◌, Option, String, List, [], ◌∷◌, length, map, arith}
use perchtail.Audit.{AuditLog, Canonical, canonical}
use perchtail.Audit.Chain.{IsChained, end_of}

-- What the hashes of a log cover, row by row.
abbrev pub hashed : Option String → List AuditLog → List Canonical
hashed prev [] = []
hashed prev (r ∷ rs) = canonical prev r ∷ hashed r.row_hash rs

-- All of a row but its id.
abbrev pub without_id : AuditLog → AuditLog
without_id r = record r { id = 0 }

abbrev row_of : Option String → Canonical → AuditLog
row_of row_hash c = record {
  id = 0;
  user_id = c.user_id;
  action = c.action;
  target_type = c.target_type;
  target_id = c.target_id;
  timestamp = c.timestamp;
  event_metadata = c.metadata;
  prev_hash = c.prev_hash;
  row_hash = row_hash;
}

-- What is hashed determines the row, but for its id.
canonical-row_of :
    (p : Option String) (x : AuditLog)
    → x.prev_hash ≡ p
    → without_id x ≡ row_of x.row_hash (canonical p x)
canonical-row_of p x h = ap (λ z. row_of x.row_hash (canonical z x)) h

module _ (digest : Canonical → String) where
  -- The digest does not collide on the rows that stand at the same place of the two logs.
  abbrev pub Distinguishes : List Canonical → List Canonical → Type 0
  Distinguishes [] ys = Unit
  Distinguishes (x ∷ xs) [] = Unit
  Distinguishes (x ∷ xs) (y ∷ ys) = (digest x ≡ digest y → x ≡ y) × Distinguishes xs ys

  -- The end of a chain pins all that is before it: two chained logs of the same length that end in the
  -- same hash start from the same hash and have the same rows in every column but the id, where the
  -- digest does not collide on them.
  pub end_of-contents :
      (p q : Option String) (xs ys : List AuditLog)
      → IsChained digest p xs
      → IsChained digest q ys
      → length xs ≡ length ys
      → end_of p xs ≡ end_of q ys
      → Distinguishes (hashed p xs) (hashed q ys)
      → (p ≡ q) × (map without_id xs ≡ map without_id ys)
  end_of-contents p q [] [] h k l e d = (e, refl)
  end_of-contents p q [] (y ∷ ys) h k l e d = ground arith
  end_of-contents p q (x ∷ xs) [] h k l e d = ground arith
  end_of-contents p q (x ∷ xs) (y ∷ ys) (u, a, h) (v, b, k) l e (d, ds) =
      let (r, c) = end_of-contents x.row_hash y.row_hash xs ys h k (ground arith) e ds in
      let same : digest (canonical p x) ≡ digest (canonical q y) = ground (arith, a, b, r) in
      let eq = d same in
      let row : without_id x ≡ without_id y =
        canonical-row_of p x u
        ∙ (ap (λ z. row_of z (canonical p x)) r
            ∙ (ap (row_of y.row_hash) eq ∙ sym (canonical-row_of q y v))) in
      (ap (λ z. z.prev_hash) eq, ground (arith, row, c))
