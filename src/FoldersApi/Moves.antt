-- ===== src/FoldersApi/Moves.antt =====
-- Moving and deleting a folder keep the forest; the theorem for all three handlers.
use mathlib.Core.Bool.{false≢true}
use perchtail.Prelude.{
  ℕ, ◌≡◌, ◌≢◌, refl, sym, ap, ◌∙◌, subst, false, Option, none, some, String, List, ◌==◌, ==_iff,
  nat_eq, option_eq, Bool-cases, inl, inr, ◌⊎◌, arith,
}
use perchtail.Prelude.Table.{remove, get-key, get-remove, get-replace, any-get}
use perchtail.Model.{Folder}
use perchtail.Run.{ok, >>=-eq-ok}
use perchtail.Rbac.{folder_by_id}
use perchtail.Rbac.Scopes.{Chain, top, up}
use perchtail.FoldersApi.{renamed, moved, validate_parent, has_children}
use perchtail.FoldersApi.Tree.{
  chain-get, chain-remove, changed, changed-ne, chain-change, chain-same, walk-chain,
}
use perchtail.FoldersApi.Invariant.{IsForest, parent-inv}

-- What a move leaves of the row, and why its parent is allowed.
pub moved-inv :
    (folders : List Folder) (fuel : ℕ) (parent : Option (Option ℕ)) (name : Option String)
    (f f' : Folder)
    → moved folders fuel parent (renamed name f) ≡ ok f'
    → (f'.id ≡ f.id)
      × (f'.customer_id ≡ f.customer_id)
      × ((f'.parent_folder_id ≡ f.parent_folder_id)
          ⊎ (validate_parent folders fuel f'.customer_id f'.parent_folder_id (some f'.id) ≡ ok tt))
unfolding moved
moved-inv folders fuel none none f f' h = (ground arith, ground arith, inl (ground arith))
moved-inv folders fuel none (some name) f f' h = (ground arith, ground arith, inl (ground arith))
moved-inv folders fuel (some parent) none f f' h =
    let (_, v, h1) =
      >>=-eq-ok (validate_parent folders fuel f.customer_id parent (some f.id)) _ h in
    (ground arith, ground arith, inr (ground arith))
moved-inv folders fuel (some parent) (some name) f f' h =
    let (_, v, h1) =
      >>=-eq-ok (validate_parent folders fuel f.customer_id parent (some f.id)) _ h in
    (ground arith, ground arith, inr (ground arith))

module _ (fuel : ℕ) (folders : List Folder) (next : ℕ) (t : IsForest folders next) (f f' : Folder)
    (here : folder_by_id f'.id folders ≡ some f) (customer : f'.customer_id ≡ f.customer_id)
    (parent : (f'.parent_folder_id ≡ f.parent_folder_id)
      ⊎ (validate_parent folders fuel f'.customer_id f'.parent_folder_id (some f'.id)
          ≡ ok tt)) where
  abbrev pub after : List Folder
  after = changed folders f f' here

  after-cases :
      (j : ℕ) (g : Folder)
      → folder_by_id j after ≡ some g
      → ((j ≡ f'.id) × (g ≡ f')) ⊎ (folder_by_id j folders ≡ some g)
  after-cases j g e = elim (Bool-cases (f'.id == j)) [
    | inl h ↦ inl (
      ground (arith, ==_iff f'.id j),
      ground (arith, get-replace (λ (x : Folder). x.id) j f' folders),
    )
    | inr h ↦ inr (sym (changed-ne folders f f' here j h) ∙ e)
  ]

  -- A row of the old table is still there, with its customer.
  after-customer :
      (j : ℕ) (g q : Folder)
      → folder_by_id j folders ≡ some g
      → folder_by_id j after ≡ some q
      → q.customer_id ≡ g.customer_id
  after-customer j g q e h = elim (after-cases j q h) [
    | inl (i, same) ↦ ground (arith, here, customer)
    | inr old ↦ ground arith
  ]

  moved-chain : Chain after f'.parent_folder_id
  moved-chain = elim parent [
    | inl same ↦
        subst (λ (x : Option ℕ). Chain after x) (sym same)
          (chain-same folders f f' here same (t.chained f'.id f here))
    | inr valid ↦ go f'.parent_folder_id valid
  ]
    where
      go :
          (p : Option ℕ)
          → validate_parent folders fuel f'.customer_id p (some f'.id) ≡ ok tt
          → Chain after p
      go none v = top
      go (some p) v =
          let (q, g, _, w) = parent-inv folders fuel f'.customer_id p (some f'.id) v in
          let (c, other) = walk-chain folders f f' here fuel q t.no_zero refl (t.chained p q g) w in
          let k : q.id ≡ p = get-key (λ (x : Folder). x.id) p folders q g in
          up
            (changed-ne folders f f' here p (ground (arith, ==_iff f'.id p, ==_iff q.id f'.id)) ∙ g)
            c

  parent-customer :
      (p : ℕ) (q : Folder)
      → f'.parent_folder_id ≡ some p
      → folder_by_id p folders ≡ some q
      → q.customer_id ≡ f'.customer_id
  parent-customer p q e g = elim parent [
    | inl same ↦ t.same_customer f'.id p f q here (sym same ∙ e) g ∙ sym customer
    | inr valid ↦
        let (q', g', c, _) =
          parent-inv folders fuel f'.customer_id p (some f'.id) (rw e at valid) in
        ground arith
  ]

  row-chain : (j : ℕ) (g : Folder) → folder_by_id j after ≡ some g → Chain after g.parent_folder_id
  row-chain j g e = elim (after-cases j g e) [
    | inl (i, same) ↦ subst (λ (x : Folder). Chain after x.parent_folder_id) (sym same) moved-chain
    | inr old ↦ chain-change folders f f' here moved-chain (t.chained j g old)
  ]

  pub changed-IsForest : IsForest after next
  changed-IsForest = record {
    chained = row-chain;
    fresh = λ j g e. elim (after-cases j g e) [
      | inl (i, same) ↦ omega (arith, t.fresh f'.id f here)
      | inr old ↦ t.fresh j g old
    ];
    no_zero = ground (arith, get-replace (λ (x : Folder). x.id) 0 f' folders, t.no_zero);
    positive = t.positive;
    same_customer = λ j p g q e up_to h. elim (after-cases j g e) [
      | inl (i, same) ↦ elim (after-cases p q h) [
        | inl (_, self) ↦ cc
        | inr there ↦
            parent-customer p q (sym (ap (λ (x : Folder). x.parent_folder_id) same) ∙ up_to) there
            ∙ sym (ap (λ (x : Folder). x.customer_id) same)
      ]
      | inr old ↦
          let (r, k) =
            chain-get (subst (λ (x : Option ℕ). Chain folders x) up_to (t.chained j g old)) in
          after-customer p r q k h ∙ t.same_customer j p g r old up_to k
    ];
  }

module _ (folders : List Folder) (next k : ℕ) (t : IsForest folders next)
    (h : has_children k folders ≡ false) where
  abbrev pub left : List Folder
  left = remove (λ (f : Folder). f.id) k folders

  left-get : (j : ℕ) (f : Folder) → folder_by_id j left ≡ some f → folder_by_id j folders ≡ some f
  left-get j f e = ground (arith, get-remove (λ (x : Folder). x.id) j k folders)

  not-child : (j : ℕ) (f : Folder) → folder_by_id j folders ≡ some f → f.parent_folder_id ≢ some k
  not-child j f e p = false≢true (
      sym (any-get (λ (x : Folder). x.id) _ j folders f h e)
      ∙ (==_iff f.parent_folder_id (some k)).1 p)

  pub left-IsForest : IsForest left next
  left-IsForest = record {
    chained = λ j f e.
        let old = left-get j f e in chain-remove k h (t.chained j f old) (not-child j f old);
    fresh = λ j f e. t.fresh j f (left-get j f e);
    no_zero = ground (arith, get-remove (λ (x : Folder). x.id) 0 k folders, t.no_zero);
    positive = t.positive;
    same_customer =
        λ j p f q e parent g. t.same_customer j p f q (left-get j f e) parent (left-get p q g);
  }
