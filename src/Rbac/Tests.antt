-- ===== src/Rbac/Tests.antt =====
-- Access control on the sample tables.
use perchtail.Prelude.{◌≡◌, refl, true, none, some, arith, if◌then◌else◌, ◌||◌, nat_eq}
use perchtail.Prelude.Table.{get}
use perchtail.Model.{view, scope_eq}
use perchtail.Run.{ok}
use perchtail.Rbac.{find_grant, resolve_capability, visible_source_ids}
use perchtail.Rbac.Scopes.{
  Chain, top, up, AllChains, allowed, allowed_ids, source_scopes, resolve_capability-allowed,
  visible_source_ids-allowed,
}
use perchtail.Rbac.Boundary.{
  build_folder_visibility_context, folder_path_boundary, boundary_of, deciding_scope,
  folder_path_boundary-deciding,
}
use perchtail.Samples.{db, operator, logs, inner, outer}

logs_chain : Chain db.folders logs.folder_id
unfolding get
logs_chain = up {id = 2} {f = inner} refl (up {id = 1} {f = outer} refl top)

allowed-view : allowed db.grants operator.role.id view (source_scopes logs logs_chain) ≡ true
unfolding allowed find_grant logs_chain get
allowed-view = refl

resolve_capability-allowed_example :
    resolve_capability db operator 3 logs view
    ≡ ok (
        if logs.is_system
        then operator.role.is_super_admin
        else operator.role.is_super_admin
          || allowed db.grants operator.role.id view (source_scopes logs logs_chain))
unfolding logs_chain get
resolve_capability-allowed_example =
    resolve_capability-allowed db operator logs view 3 logs_chain (omega arith)

all_chains : AllChains db 3 db.sources
unfolding AllChains logs_chain get
all_chains = ((logs_chain, omega arith), tt)

visible_source_ids-allowed_example :
    visible_source_ids db operator 3 view
    ≡ ok (
        if operator.role.is_super_admin
        then none
        else some (allowed_ids db operator 3 view db.sources all_chains))
visible_source_ids-allowed_example = visible_source_ids-allowed db operator 3 view all_chains

folder_path_boundary-deciding_example :
    folder_path_boundary (build_folder_visibility_context db operator) 3 logs
    ≡ ok (
        if operator.role.is_super_admin
        then none
        else boundary_of logs
            (deciding_scope db.grants operator.role.id (source_scopes logs logs_chain)))
unfolding logs_chain get
folder_path_boundary-deciding_example =
    folder_path_boundary-deciding db operator logs 3 logs_chain (omega arith)
