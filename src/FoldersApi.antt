-- ===== src/FoldersApi.antt =====
-- backend/app/api/folders.py: the handlers that build and change a customer's folder tree.
mod Tree
mod Invariant
mod Moves
mod Reach
mod Tests
use perchtail.Prelude.{
  ℕ, zero, suc, ◌+◌, Bool, true, false, ◌&&◌, ◌||◌, not, Option, none, some, String, List, [], ◌∷◌,
  ◌++◌, ◌==◌, nat_eq, option_eq, if◌then◌else◌, any, is_some,
}
use perchtail.Prelude.Table.{get, remove, replace}
use perchtail.Model.{Db, Folder, Source, User, GlobalCapability, create_source, ScopeType, folder}
use perchtail.Run.{Run, ok, http, crash, out_of_fuel, ◌>>=◌, ◌>>◌}
use perchtail.Rbac.{
  folder_by_id, has_id, require_global_capability, delete_scope_grants, record_event,
}

pub record FolderCreate : Type 0 where
  pub name : String
  pub customer_id : ℕ
  pub parent_folder_id : Option ℕ

-- `parent_folder_id` is `none` when the payload does not set the field.
pub record FolderUpdate : Type 0 where
  pub name : Option String
  pub parent_folder_id : Option (Option ℕ)

-- `_get_customer_or_404`
get_customer_or_404 : Db → ℕ → Run (Unit {0})
get_customer_or_404 db customer_id =
    if has_id customer_id db.customers then ok tt else http 404 "Customer not found"

-- `folder_id is not None and walk.id == folder_id`
abbrev pub is_moved : Option ℕ → ℕ → Bool
is_moved none id = false
is_moved (some folder_id) id = id == folder_id

-- The loop of `_validate_parent` at the folder `walk`; a parent id of 0 counts as none.
pub validate_walk : List Folder → Option ℕ → ℕ → Folder → Run (Unit {0})
validate_walk folders folder_id zero walk = out_of_fuel
validate_walk folders folder_id (suc fuel) walk =
    let next : Run (Unit {0}) = elim walk.parent_folder_id [
      | none ↦ ok tt
      | some p ↦
          let up : Run (Unit {0}) = elim (folder_by_id p folders) [
            | none ↦ ok tt
            | some f ↦ validate_walk folders folder_id fuel f
          ] in
          if p == 0 then ok tt else up
    ] in
    if is_moved folder_id walk.id
    then http 400 "Cannot move a folder under its own descendant"
    else next

-- `_validate_parent`
pub validate_parent : List Folder → ℕ → ℕ → Option ℕ → Option ℕ → Run (Unit {0})
validate_parent folders fuel customer_id none folder_id = ok tt
validate_parent folders fuel customer_id (some parent_folder_id) folder_id =
    elim (folder_by_id parent_folder_id folders) [
      | none ↦ http 404 "Parent folder not found"
      | some parent ↦
          if parent.customer_id == customer_id
          then validate_walk folders folder_id fuel parent
          else http 400 "A folder can only nest under a folder of the same customer"
    ]

abbrev pub folder_of : ℕ → FolderCreate → Folder
folder_of id payload = record {
  id = id;
  name = payload.name;
  customer_id = payload.customer_id;
  parent_folder_id = payload.parent_folder_id;
}

pub create_folder : ℕ → User → FolderCreate → Db → Run (Db × Folder)
create_folder fuel user payload db = do
  require_global_capability user create_source
  get_customer_or_404 db payload.customer_id
  validate_parent db.folders fuel payload.customer_id payload.parent_folder_id none
  let f = folder_of db.next_folder_id payload
  ok (
    record_event (some user.id) "folder.create" "folder" f.id
        (record db { folders = db.folders ++ f ∷ []; next_folder_id = db.next_folder_id + 1 }),
    f,
  )

abbrev pub renamed : Option String → Folder → Folder
renamed none f = f
renamed (some name) f = record f { name = name }

-- The move, if the payload asks for one.
pub moved : List Folder → ℕ → Option (Option ℕ) → Folder → Run Folder
moved folders fuel none f = ok f
moved folders fuel (some parent) f = do
  validate_parent folders fuel f.customer_id parent (some f.id)
  ok (record f { parent_folder_id = parent })

pub update_folder : ℕ → User → ℕ → FolderUpdate → Db → Run (Db × Folder)
update_folder fuel user folder_id payload db = do
  require_global_capability user create_source
  elim (folder_by_id folder_id db.folders) [
    | none ↦ http 404 "Folder not found"
    | some f ↦ do
      f' ← moved db.folders fuel payload.parent_folder_id (renamed payload.name f)
      ok (
        record_event (some user.id) "folder.update" "folder" f'.id
            (record db { folders = replace (λ (g : Folder). g.id) f' db.folders }),
        f',
      )
  ]

abbrev pub has_children : ℕ → List Folder → Bool
has_children id folders = any (λ (f : Folder). f.parent_folder_id == some id) folders

abbrev pub has_sources : ℕ → List Source → Bool
has_sources id sources = any (λ (s : Source). s.folder_id == some id) sources

pub delete_folder : User → ℕ → Db → Run Db
delete_folder user folder_id db = do
  require_global_capability user create_source
  elim (folder_by_id folder_id db.folders) [
    | none ↦ http 404 "Folder not found"
    | some f ↦
        if has_children folder_id db.folders || has_sources folder_id db.sources
        then http 409 "Folder still has sub-folders or sources; remove them first"
        else ok (
            record_event (some user.id) "folder.delete" "folder" folder_id (record db {
              grants = delete_scope_grants folder folder_id db.grants;
              folders = remove (λ (g : Folder). g.id) folder_id db.folders;
            }))
  ]
