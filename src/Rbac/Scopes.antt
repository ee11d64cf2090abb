-- ===== src/Rbac/Scopes.antt =====
-- Access control refines one rule: the nearest scope with a grant decides.
use perchtail.Prelude.{
  ℕ, zero, suc, ◌≤◌, ◌≡◌, refl, ap, Bool, false, Option, none, some, List, [], ◌∷◌, ◌++◌, map,
  if◌then◌else◌, ◌||◌, not, ◌&&◌, arith,
}
use perchtail.Model.{
  Source, Folder, RoleGrant, User, Db, ScopeType, customer, folder, source, Capability,
}
use perchtail.Run.{ok}
use perchtail.Rbac.{
  folder_by_id, find_grant, has_capability, customer_capability, visible_ids_from,
  visible_source_ids, resolve_folder_or_customer_capability, resolve_capability,
}

-- The parents of a folder are all there, and end at the top.
pub data Chain (folders : List Folder) : Option ℕ → Type 0 where
  top : Chain folders none
  up :
      {id : ℕ} {f : Folder}
      → folder_by_id id folders ≡ some f
      → Chain folders f.parent_folder_id
      → Chain folders (some id)

-- The rounds of the loop, its last test included.
abbrev pub depth : {folders : List Folder} {id : Option ℕ} → Chain folders id → ℕ
depth top = 1
depth (up e c) = suc (depth c)

-- The folders of a chain, nearest first.
abbrev pub ancestors : {folders : List Folder} {id : Option ℕ} → Chain folders id → List ℕ
ancestors top = []
ancestors (up {id} e c) = id ∷ ancestors c

abbrev pub Scope : Type 0
Scope = ScopeType × ℕ

abbrev pub customer_scope : Option ℕ → List Scope
customer_scope none = []
customer_scope (some id) = (customer, id) ∷ []

abbrev pub folder_scopes : List ℕ → List Scope
folder_scopes ids = map (λ id. (folder, id)) ids

-- The rule: of the scopes, most specific first, the first with a grant decides; without one, no.
unfoldable pub allowed : List RoleGrant → ℕ → Capability → List Scope → Bool
allowed grants role_id capability [] = false
allowed grants role_id capability ((t, id) ∷ scopes) =
    let rest = allowed grants role_id capability scopes in
    elim (find_grant grants role_id t id) [
      | none ↦ rest
      | some grant ↦ has_capability capability grant.capabilities
    ]

-- The scopes of a source: itself, its folders from the innermost, its customer.
abbrev pub source_scopes :
    {folders : List Folder} (src : Source) → Chain folders src.folder_id → List Scope
source_scopes src c =
    (source, src.id) ∷ (folder_scopes (ancestors c) ++ customer_scope src.customer_id)

customer-allowed :
    (db : Db) (user : User) (customer_id : Option ℕ) (capability : Capability)
    → customer_capability db user customer_id capability
      ≡ allowed db.grants user.role.id capability (customer_scope customer_id)
unfolding customer_capability allowed
customer-allowed db user none capability = refl
customer-allowed db user (some id) capability = refl

module _ (db : Db) (user : User) (customer_id : Option ℕ) (capability : Capability) where
  walk-allowed :
      {id : Option ℕ} (fuel : ℕ) (c : Chain db.folders id)
      → depth c ≤ fuel
      → resolve_folder_or_customer_capability db user fuel id customer_id capability
        ≡ ok (
            allowed db.grants user.role.id capability
              (folder_scopes (ancestors c) ++ customer_scope customer_id))
  unfolding resolve_folder_or_customer_capability allowed
  walk-allowed zero top h = elim h [ ]
  walk-allowed zero (up e c) h = elim h [ ]
  walk-allowed (suc fuel) top h = ap ok (customer-allowed db user customer_id capability)
  walk-allowed (suc fuel) (up {id} {f} e c) h = ground (arith, walk-allowed fuel c (omega arith))

-- On a source whose folders are all there, with fuel for their depth, access control answers, and
-- answers by the rule: a system source is for super-admins alone; a super-admin may do everything;
-- otherwise the first of the source, its folders from the innermost out, and its customer that has
-- a grant of the user's role decides by the capabilities of that grant, and with no grant at all
-- the answer is no.
pub resolve_capability-allowed :
    (db : Db) (user : User) (src : Source) (capability : Capability) (fuel : ℕ)
    (c : Chain db.folders src.folder_id)
    → depth c ≤ fuel
    → resolve_capability db user fuel src capability
      ≡ ok (
          if src.is_system
          then user.role.is_super_admin
          else user.role.is_super_admin
            || allowed db.grants user.role.id capability (source_scopes src c))
unfolding resolve_capability allowed
resolve_capability-allowed db user src capability fuel c h =
    ground (arith, walk-allowed db user src.customer_id capability fuel c h)

-- Every source has its folders, none deeper than the fuel.
unfoldable pub AllChains : (db : Db) → ℕ → List Source → Type 0
AllChains db fuel [] = Unit
AllChains db fuel (s ∷ rest) =
    ((c : Chain db.folders s.folder_id) × (depth c ≤ fuel)) × AllChains db fuel rest

-- The ids that the rule allows.
unfoldable pub allowed_ids :
    (db : Db) (user : User) (fuel : ℕ) (capability : Capability) (ss : List Source)
    → AllChains db fuel ss
    → List ℕ
unfolding AllChains allowed
allowed_ids db user fuel capability [] h = []
allowed_ids db user fuel capability (s ∷ ss) ((c, d), h) =
    let rest = allowed_ids db user fuel capability ss h in
    if not s.is_system && allowed db.grants user.role.id capability (source_scopes s c)
    then s.id ∷ rest
    else rest

visible_ids-allowed :
    (db : Db) (user : User) (fuel : ℕ) (capability : Capability) (ss : List Source)
    (h : AllChains db fuel ss)
    → user.role.is_super_admin ≡ false
    → visible_ids_from db user fuel capability ss ≡ ok (allowed_ids db user fuel capability ss h)
unfolding visible_ids_from allowed_ids AllChains
visible_ids-allowed db user fuel capability [] h n = refl
visible_ids-allowed db user fuel capability (s ∷ ss) ((c, d), h) n =
    rw
      (
        resolve_capability-allowed db user s capability fuel c d,
        visible_ids-allowed db user fuel capability ss h n,
        n,
      )
      (ground arith)

-- The list of sources of a user who is no super-admin holds exactly the sources, system sources
-- aside, on which the rule gives the capability, in order; a super-admin gets the answer "all".
pub visible_source_ids-allowed :
    (db : Db) (user : User) (fuel : ℕ) (capability : Capability) (h : AllChains db fuel db.sources)
    → visible_source_ids db user fuel capability
      ≡ ok (
          if user.role.is_super_admin
          then none
          else some (allowed_ids db user fuel capability db.sources h))
unfolding visible_source_ids
visible_source_ids-allowed db user fuel capability h =
    ground (arith, visible_ids-allowed db user fuel capability db.sources h)
