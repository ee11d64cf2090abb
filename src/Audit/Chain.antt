-- ===== src/Audit/Chain.antt =====
-- The specification of the audit chain.
use perchtail.Prelude.{ℕ, ◌≡◌, refl, ap, Option, none, some, String, List, [], ◌∷◌, ◌++◌, arith}
use perchtail.Json.{Fields}
use perchtail.Audit.{
  AuditLog, Log, Canonical, anchor_of, last_hash, current_chain_tip, compute_row_hash, link,
  new_entry, chain_new_entry, record_audit_event,
}

-- The hash behind the last row.
abbrev pub end_of : Option String → List AuditLog → Option String
end_of prev [] = prev
end_of prev (r ∷ rs) = end_of r.row_hash rs

module _ (digest : Canonical → String) where
  -- Each row's hash is that of its content and of the row before it, the first's of `prev`.
  abbrev pub IsChained : Option String → List AuditLog → Type 0
  IsChained prev [] = Unit
  IsChained prev (r ∷ rs) =
      (r.prev_hash ≡ prev)
      × (r.row_hash ≡ some (compute_row_hash digest prev r))
      × IsChained r.row_hash rs

  pub IsChained-append :
      (prev : Option String) (xs ys : List AuditLog)
      → IsChained prev xs
      → IsChained (end_of prev xs) ys
      → IsChained prev (xs ++ ys)
  IsChained-append prev [] ys h k = k
  IsChained-append prev (x ∷ xs) ys (p, q, h) k = (p, q, IsChained-append x.row_hash xs ys h k)

  pub IsChained-right :
      (prev : Option String) (xs ys : List AuditLog)
      → IsChained prev (xs ++ ys)
      → IsChained (end_of prev xs) ys
  IsChained-right prev [] ys h = h
  IsChained-right prev (x ∷ xs) ys (p, q, h) = IsChained-right x.row_hash xs ys h

  -- The tip of a chain is the hash behind its last row.
  tip-end_of :
      (prev : Option String) (r : AuditLog) (rs : List AuditLog)
      → IsChained prev (r ∷ rs)
      → (h : String) × (last_hash (r ∷ rs) ≡ some h) × (end_of prev (r ∷ rs) ≡ some h)
  unfolding last_hash
  tip-end_of prev r [] (p, q, h) = (_, q, q)
  tip-end_of prev r (s ∷ rs) (p, q, h) = tip-end_of r.row_hash s rs h

  pub current_chain_tip-end_of :
      (log : Log)
      → IsChained (anchor_of log.state) log.rows
      → current_chain_tip log ≡ end_of (anchor_of log.state) log.rows
  unfolding current_chain_tip
  current_chain_tip-end_of log h = go log.rows h
    where
      go :
          (rows : List AuditLog)
          → IsChained (anchor_of log.state) rows
          → (elim (last_hash rows) [ some h ↦ some h | none ↦ anchor_of log.state ])
            ≡ end_of (anchor_of log.state) rows
      go [] h = unfold last_hash in refl
      go (r ∷ rs) h = let (t, p, q) = tip-end_of (anchor_of log.state) r rs h in ground (arith)

  link-IsChained :
      {prev tip : Option String} (entry : AuditLog)
      → tip ≡ prev
      → IsChained prev (link digest tip entry ∷ [])
  link-IsChained entry e = (e, ap (λ p. some (compute_row_hash digest p entry)) e, tt)

  -- Recording an event keeps the log chained from its anchor: the new row links to the newest row,
  -- or to the anchor where none is left.
  pub record_audit_event-IsChained :
      (user_id : Option ℕ) (action : String) (target_type : Option String) (target_id : Option ℕ)
      (metadata : Option Fields) (now : ℕ) (log : Log)
      → IsChained (anchor_of log.state) log.rows
      → IsChained
          (anchor_of log.state)
          (record_audit_event digest user_id action target_type target_id metadata now log).rows
  unfolding record_audit_event chain_new_entry
  record_audit_event-IsChained user_id action target_type target_id metadata now log h =
      IsChained-append (anchor_of log.state) log.rows _ h (
        link-IsChained (new_entry log.next_id user_id action target_type target_id metadata now)
          (current_chain_tip-end_of log h))
