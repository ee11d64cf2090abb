-- ===== src/Rbac/Boundary.antt =====
-- backend/app/auth/rbac.py: how far up a source's folder path is shown.
use perchtail.Prelude.{
  ℕ, zero, suc, ◌≤◌, ◌≡◌, refl, Bool, true, false, Option, none, some, List, [], ◌∷◌, ◌++◌, filter,
  ◌==◌, nat_eq, if◌then◌else◌, is_some, arith,
}
use perchtail.Model.{
  Source, Folder, RoleGrant, User, Db, ScopeType, customer, folder, source, scope_eq,
}
use perchtail.Run.{Run, ok, out_of_fuel}
use perchtail.Rbac.{folder_by_id, find_grant, has_id}
use perchtail.Rbac.Scopes.{
  Chain, top, up, depth, ancestors, Scope, folder_scopes, customer_scope, source_scopes,
}

pub record FolderVisibilityContext : Type 0 where
  is_super_admin : Bool
  folders_by_id : List Folder
  source_grant_ids : List ℕ
  folder_grant_ids : List ℕ

-- `{g.scope_id for g in grants if g.scope_type == scope_type}`
scope_ids : ScopeType → List RoleGrant → List ℕ
scope_ids scope_type [] = []
scope_ids scope_type (g ∷ gs) =
    let rest = scope_ids scope_type gs in
    if g.scope_type == scope_type then g.scope_id ∷ rest else rest

pub build_folder_visibility_context : Db → User → FolderVisibilityContext
unfolding scope_ids
build_folder_visibility_context db user =
    if user.role.is_super_admin
    then record {
      is_super_admin = true;
      folders_by_id = db.folders;
      source_grant_ids = [];
      folder_grant_ids = [];
    }
    else (let grants = filter (λ (g : RoleGrant). g.role_id == user.role.id) db.grants in
        record {
          is_super_admin = false;
          folders_by_id = db.folders;
          source_grant_ids = scope_ids source grants;
          folder_grant_ids = scope_ids folder grants;
        })

-- the loop of `folder_path_boundary`; a folder that is missing ends it
boundary_walk : FolderVisibilityContext → ℕ → Option ℕ → Run (Option ℕ)
boundary_walk ctx zero id = out_of_fuel
boundary_walk ctx (suc fuel) none = ok none
boundary_walk ctx (suc fuel) (some id) =
    let parent : Run (Option ℕ) = elim (folder_by_id id ctx.folders_by_id) [
      | none ↦ ok none
      | some f ↦ boundary_walk ctx fuel f.parent_folder_id
    ] in
    if has_id id ctx.folder_grant_ids then ok (some id) else parent

pub folder_path_boundary : FolderVisibilityContext → ℕ → Source → Run (Option ℕ)
unfolding boundary_walk
folder_path_boundary ctx fuel src =
    if ctx.is_super_admin
    then ok none
    else if has_id src.id ctx.source_grant_ids
    then ok src.folder_id
    else boundary_walk ctx fuel src.folder_id

-- The first scope with a grant: the one that decides in `allowed`.
unfoldable pub deciding_scope : List RoleGrant → ℕ → List Scope → Option Scope
deciding_scope grants role_id [] = none
deciding_scope grants role_id ((t, id) ∷ scopes) =
    let rest = deciding_scope grants role_id scopes in
    if is_some (find_grant grants role_id t id) then some (t, id) else rest

-- A grant on the source shows its own folder and no more, one on a folder shows up to that folder,
-- and one on the customer shows the whole path.
abbrev pub boundary_of : Source → Option Scope → Option ℕ
boundary_of src none = none
boundary_of src (some (source, id)) = src.folder_id
boundary_of src (some (folder, id)) = some id
boundary_of src (some (customer, id)) = none

module _ (role_id : ℕ) (t : ScopeType) (id : ℕ) where
  has-scope_ids :
      (grants : List RoleGrant)
      → has_id id (scope_ids t (filter (λ (g : RoleGrant). g.role_id == role_id) grants))
        ≡ is_some (find_grant grants role_id t id)
  unfolding scope_ids find_grant
  has-scope_ids [] = refl
  has-scope_ids (g ∷ gs) = ground (arith, has-scope_ids gs)

customer-boundary :
    (db : Db) (user : User) (src : Source) (id : Option ℕ)
    → boundary_of src (deciding_scope db.grants user.role.id (customer_scope id)) ≡ none
unfolding deciding_scope
customer-boundary db user src none = refl
customer-boundary db user src (some id) = ground arith

module _ (db : Db) (user : User) (src : Source) (n : user.role.is_super_admin ≡ false) where
  walk-boundary :
      {id : Option ℕ} (fuel : ℕ) (c : Chain db.folders id)
      → depth c ≤ fuel
      → boundary_walk (build_folder_visibility_context db user) fuel id
        ≡ ok (
            boundary_of src (
              deciding_scope db.grants user.role.id
                (folder_scopes (ancestors c) ++ customer_scope src.customer_id)))
  unfolding boundary_walk build_folder_visibility_context deciding_scope
  walk-boundary zero top h = elim h [ ]
  walk-boundary zero (up e c) h = elim h [ ]
  walk-boundary (suc fuel) top h = ground (arith, customer-boundary db user src src.customer_id)
  walk-boundary (suc fuel) (up {id} e c) h =
      ground
        (arith, walk-boundary fuel c (omega arith), has-scope_ids user.role.id folder id db.grants)

-- For a user who is no super-admin the folder path of a source stops at the very scope whose grant
-- decides access: nothing above the granted folder, or above the folder of a granted source, is
-- shown. A super-admin sees the whole path.
pub folder_path_boundary-deciding :
    (db : Db) (user : User) (src : Source) (fuel : ℕ) (c : Chain db.folders src.folder_id)
    → depth c ≤ fuel
    → folder_path_boundary (build_folder_visibility_context db user) fuel src
      ≡ ok (
          if user.role.is_super_admin
          then none
          else boundary_of src (deciding_scope db.grants user.role.id (source_scopes src c)))
unfolding folder_path_boundary build_folder_visibility_context deciding_scope
folder_path_boundary-deciding db user src fuel c h = ground (
  arith,
  λ (n : user.role.is_super_admin ≡ false). walk-boundary db user src n fuel c h,
  has-scope_ids user.role.id source src.id db.grants,
)
