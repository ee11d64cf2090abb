-- ===== src/FoldersApi/Invariant.antt =====
-- The handlers keep the folders of each customer a forest.
use perchtail.Prelude.{
  ℕ, ◌+◌, ◌<◌, ◌≡◌, refl, subst, Option, none, some, List, [], ◌∷◌, ◌++◌, ◌==◌, ==_iff, nat_eq,
  if◌then◌else◌, is_some, Option-cases, inl, inr, ◌⊎◌, arith,
}
use perchtail.Prelude.Table.{get-append}
use perchtail.Model.{Folder, Db, User, create_source}
use perchtail.Run.{ok, >>=-eq-ok}
use perchtail.Rbac.{folder_by_id, record_event, require_global_capability}
use perchtail.Rbac.Scopes.{Chain, top, up}
use perchtail.FoldersApi.{
  FolderCreate, folder_of, validate_parent, validate_walk, get_customer_or_404, create_folder,
}
use perchtail.FoldersApi.Tree.{chain-get, chain-grow}

-- Every folder has a chain of parents that ends, ids are below the next one and not 0, and a parent
-- belongs to the same customer.
pub record IsForest (folders : List Folder) (next : ℕ) : Type 0 where
  pub chained :
      (id : ℕ) (f : Folder) → folder_by_id id folders ≡ some f → Chain folders f.parent_folder_id
  pub fresh : (id : ℕ) (f : Folder) → folder_by_id id folders ≡ some f → id < next
  pub no_zero : folder_by_id 0 folders ≡ none
  pub positive : 0 < next
  pub same_customer :
      (id p : ℕ) (f q : Folder)
      → folder_by_id id folders ≡ some f
      → f.parent_folder_id ≡ some p
      → folder_by_id p folders ≡ some q
      → q.customer_id ≡ f.customer_id

pub create-inv :
    (fuel : ℕ) (user : User) (payload : FolderCreate) (db db' : Db) (f : Folder)
    → create_folder fuel user payload db ≡ ok (db', f)
    → (validate_parent db.folders fuel payload.customer_id payload.parent_folder_id none ≡ ok tt)
      × (f ≡ folder_of db.next_folder_id payload)
      × (db'.folders ≡ db.folders ++ f ∷ [])
      × (db'.next_folder_id ≡ db.next_folder_id + 1)
unfolding create_folder
create-inv fuel user payload db db' f h =
    let (_, _, h1) = >>=-eq-ok (require_global_capability user create_source) _ h in
    let (_, _, h2) = >>=-eq-ok (get_customer_or_404 db payload.customer_id) _ h1 in
    let (_, v, h3) =
      >>=-eq-ok (validate_parent db.folders fuel payload.customer_id payload.parent_folder_id none)
        _ h2 in
    (
      v,
      unfold record_event in ground arith,
      unfold record_event in ground arith,
      unfold record_event in ground arith,
    )

pub parent-inv :
    (folders : List Folder) (fuel customer_id p : ℕ) (id : Option ℕ)
    → validate_parent folders fuel customer_id (some p) id ≡ ok tt
    → (q : Folder) × (folder_by_id p folders ≡ some q)
      × (q.customer_id ≡ customer_id)
      × (validate_walk folders id fuel q ≡ ok tt)
unfolding validate_parent
parent-inv folders fuel customer_id p id h = elim (Option-cases (folder_by_id p folders)) [
  | inl miss ↦ absurd (ground arith)
  | inr (q, e) ↦ (q, e, ground (arith, ==_iff q.customer_id customer_id), ground arith)
]

module _ (fuel : ℕ) (payload : FolderCreate) (folders : List Folder) (next : ℕ)
    (t : IsForest folders next)
    (valid : validate_parent folders fuel payload.customer_id payload.parent_folder_id none
      ≡ ok tt) where
  abbrev pub added : List Folder
  added = folders ++ folder_of next payload ∷ []

  unused : folder_by_id next folders ≡ none
  unused = elim (Option-cases (folder_by_id next folders)) [
    | inl e ↦ e
    | inr (f, e) ↦ absurd (omega (arith, t.fresh next f e))
  ]

  get-added :
      (j : ℕ)
      → folder_by_id j added ≡ (
          if is_some (folder_by_id j folders)
          then folder_by_id j folders
          else if next == j
          then some (folder_of next payload)
          else none)
  get-added j = get-append (λ (f : Folder). f.id) j folders (folder_of next payload)

  keeps : (j : ℕ) (f : Folder) → folder_by_id j folders ≡ some f → folder_by_id j added ≡ some f
  keeps j f e = ground (arith, get-added j)

  -- A row of the new table is the new folder or an old one.
  added-cases :
      (j : ℕ) (f : Folder)
      → folder_by_id j added ≡ some f
      → (folder_by_id j folders ≡ some f) ⊎ ((j ≡ next) × (f ≡ folder_of next payload))
  added-cases j f e = elim (Option-cases (folder_by_id j folders)) [
    | inl miss ↦ inr (ground (arith, get-added j, ==_iff next j), ground (arith, get-added j))
    | inr (g, hit) ↦ inl (ground (arith, get-added j))
  ]

  new-chain : (p : Option ℕ) → payload.parent_folder_id ≡ p → Chain added p
  new-chain none e = top
  new-chain (some p) e =
      let (q, g, _, _) = parent-inv folders fuel payload.customer_id p none (rw e at valid) in
      up (keeps p q g) (chain-grow keeps (t.chained p q g))

  pub added-IsForest : IsForest added (next + 1)
  added-IsForest = record {
    chained = λ id f e. elim (added-cases id f e) [
      | inl old ↦ chain-grow keeps (t.chained id f old)
      | inr (_, new) ↦ rw new (new-chain payload.parent_folder_id refl)
    ];
    fresh = λ id f e. elim (added-cases id f e) [
      | inl old ↦ omega (arith, t.fresh id f old)
      | inr (same, _) ↦ omega arith
    ];
    no_zero = ground (arith, get-added 0, t.no_zero, t.positive, ==_iff next 0);
    positive = omega arith;
    same_customer = λ id p f q e parent g. elim (added-cases id f e) [
      | inl old ↦
          let (q', g') =
            chain-get (subst (λ (x : Option ℕ). Chain folders x) parent (t.chained id f old)) in
          t.same_customer id p f q old parent (ground (arith, keeps p q' g'))
      | inr (_, new) ↦
          let given : payload.parent_folder_id ≡ some p = ground arith in
          let (q', g', c, _) =
            parent-inv folders fuel payload.customer_id p none (rw given at valid) in
          ground (arith, keeps p q' g')
    ];
  }
