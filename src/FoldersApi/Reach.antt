-- ===== src/FoldersApi/Reach.antt =====
-- Any sequence of folder requests, and what it means for access control.
use perchtail.Prelude.{
  ℕ, ◌≤◌, ◌≡◌, refl, sym, ap, subst, ◌∙◌, Bool, false, Option, none, some, List, ◌||◌, Option-cases,
  inl, inr, or_false, nat_eq, arith,
}
use perchtail.Prelude.Table.{get-key, replace, remove}
use perchtail.Model.{Folder, Db, User, Source, Capability, create_source}
use perchtail.Run.{ok, >>=-eq-ok}
use perchtail.Rbac.{folder_by_id, record_event, require_global_capability, resolve_capability}
use perchtail.Rbac.Scopes.{Chain, top, up, depth, resolve_capability-allowed}
use perchtail.FoldersApi.{
  FolderCreate, FolderUpdate, renamed, moved, has_children, has_sources, create_folder,
  update_folder, delete_folder,
}
use perchtail.FoldersApi.Invariant.{IsForest, create-inv, added-IsForest}
use perchtail.FoldersApi.Moves.{moved-inv, changed-IsForest, left-IsForest}

-- A request that succeeds, by any user.
pub data Step (db db' : Db) : Type 0 where
  created :
      (fuel : ℕ) (user : User) (payload : FolderCreate) (f : Folder)
      → create_folder fuel user payload db ≡ ok (db', f)
      → Step db db'
  updated :
      (fuel : ℕ) (user : User) (id : ℕ) (payload : FolderUpdate) (f : Folder)
      → update_folder fuel user id payload db ≡ ok (db', f)
      → Step db db'
  deleted : (user : User) (id : ℕ) → delete_folder user id db ≡ ok db' → Step db db'

pub data Steps (db : Db) : Db → Type 0 where
  here : Steps db db
  next : {db' db'' : Db} → Steps db db' → Step db' db'' → Steps db db''

abbrev pub IsForestDb : Db → Type 0
IsForestDb db = IsForest db.folders db.next_folder_id

IsForest-subst :
    {folders folders' : List Folder} {n m : ℕ}
    → folders ≡ folders'
    → n ≡ m
    → IsForest folders n
    → IsForest folders' m
IsForest-subst {folders} {folders'} {m} p q t =
    subst (λ (fs : List Folder). IsForest fs m) p (subst (λ (k : ℕ). IsForest folders k) q t)

update-IsForest :
    (fuel : ℕ) (user : User) (id : ℕ) (payload : FolderUpdate) (db db' : Db) (f' : Folder)
    → update_folder fuel user id payload db ≡ ok (db', f')
    → IsForestDb db
    → IsForestDb db'
unfolding update_folder record_event
update-IsForest fuel user id payload db db' f' h t =
    let (_, _, h1) = >>=-eq-ok (require_global_capability user create_source) _ h in
    elim (Option-cases (folder_by_id id db.folders)) [
      | inl miss ↦ absurd (ground arith)
      | inr (f, e) ↦
          let (g, m, h2) =
            >>=-eq-ok (moved db.folders fuel payload.parent_folder_id (renamed payload.name f)) _
              (rw e at h1) in
          let (same, customer, parent) =
            moved-inv db.folders fuel payload.parent_folder_id payload.name f g m in
          let k : f.id ≡ id = get-key (λ (x : Folder). x.id) id db.folders f e in
          let there : folder_by_id g.id db.folders ≡ some f =
            ap (λ (j : ℕ). folder_by_id j db.folders) (same ∙ k) ∙ e in
          let p : db'.folders ≡ replace (λ (x : Folder). x.id) g db.folders = ground arith in
          let q : db'.next_folder_id ≡ db.next_folder_id = ground arith in
          IsForest-subst (sym p) (sym q)
            (changed-IsForest fuel db.folders db.next_folder_id t f g there customer parent)
    ]

delete-IsForest :
    (user : User) (id : ℕ) (db db' : Db)
    → delete_folder user id db ≡ ok db'
    → IsForestDb db
    → IsForestDb db'
unfolding delete_folder record_event
delete-IsForest user id db db' h t =
    let (_, _, h1) = >>=-eq-ok (require_global_capability user create_source) _ h in
    elim (Option-cases (folder_by_id id db.folders)) [
      | inl miss ↦ absurd (ground arith)
      | inr (f, e) ↦
          let free : (has_children id db.folders || has_sources id db.sources) ≡ false =
            ground arith in
          let p : db'.folders ≡ remove (λ (x : Folder). x.id) id db.folders = ground arith in
          let q : db'.next_folder_id ≡ db.next_folder_id = ground arith in
          IsForest-subst (sym p) (sym q)
            (left-IsForest db.folders db.next_folder_id id t (or_false _ _ free).0)
    ]

create-IsForest :
    (fuel : ℕ) (user : User) (payload : FolderCreate) (db db' : Db) (f : Folder)
    → create_folder fuel user payload db ≡ ok (db', f)
    → IsForestDb db
    → IsForestDb db'
create-IsForest fuel user payload db db' f h t =
    let (v, e, p, q) = create-inv fuel user payload db db' f h in
    IsForest-subst (sym (rw (← e) p)) (sym q)
      (added-IsForest fuel payload db.folders db.next_folder_id t v)

Step-IsForest : {db db' : Db} → Step db db' → IsForestDb db → IsForestDb db'
Step-IsForest {db} {db'} (created fuel user payload f h) t =
    create-IsForest fuel user payload db db' f h t
Step-IsForest {db} {db'} (updated fuel user id payload f h) t =
    update-IsForest fuel user id payload db db' f h t
Step-IsForest {db} {db'} (deleted user id h) t = delete-IsForest user id db db' h t

-- Whatever sequence of create, update and delete requests on folders succeeds, by any users, a
-- forest stays a forest: no folder becomes its own ancestor, every parent exists and belongs to the
-- same customer, and ids stay below the next one.
pub Steps-IsForest : {db db' : Db} → Steps db db' → IsForestDb db → IsForestDb db'
Steps-IsForest here t = t
Steps-IsForest (next r st) t = Step-IsForest st (Steps-IsForest r t)

-- In a forest, access control answers on every source whose folder exists: from some number of
-- rounds on, the loop over its folders has ended, with neither an exception nor a missing row.
pub resolve_capability_total :
    (db : Db) (user : User) (src : Source) (capability : Capability)
    → IsForestDb db
    → ((id : ℕ) → src.folder_id ≡ some id → (f : Folder) × (folder_by_id id db.folders ≡ some f))
    → (n : ℕ) × ((fuel : ℕ)
        → n ≤ fuel
        → (b : Bool) × (resolve_capability db user fuel src capability ≡ ok b))
resolve_capability_total db user src capability t found =
    let c = chain src.folder_id found in
    (depth c, λ fuel h. (_, resolve_capability-allowed db user src capability fuel c h))
  where
    chain :
        (id : Option ℕ)
        → ((j : ℕ) → id ≡ some j → (f : Folder) × (folder_by_id j db.folders ≡ some f))
        → Chain db.folders id
    chain none g = top
    chain (some j) g = let (f, e) = g j refl in up e (t.chained j f e)
