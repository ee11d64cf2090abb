-- ===== src/FoldersApi/Tests.antt =====
-- A folder request on the sample tables.
use perchtail.Prelude.{ℕ, ◌≤◌, ◌≡◌, refl, Bool, none, some, [], ◌∷◌, arith, nat_eq}
use perchtail.Prelude.Table.{get}
use perchtail.Model.{Db, Folder, Source, view}
use perchtail.Run.{ok}
use perchtail.Rbac.{folder_by_id, resolve_capability, require_global_capability, record_event}
use perchtail.FoldersApi.{FolderCreate, create_folder, get_customer_or_404, validate_parent}
use perchtail.FoldersApi.Reach.{
  Steps, here, next, created, IsForestDb, Steps-IsForest, resolve_capability_total,
}
use perchtail.Samples.{no_folders, operator, logs}

abbrev payload : FolderCreate
payload = record { name = "outer"; customer_id = 1; parent_folder_id = none }

abbrev one_folder : Db
one_folder = record no_folders {
  folders = record { id = 1; name = "outer"; customer_id = 1; parent_folder_id = none } ∷ [];
  next_folder_id = 2;
  audit =
      record { user_id = some 7; action = "folder.create"; target_type = "folder"; target_id = 1 }
      ∷ [];
}

no_folders-IsForest : IsForestDb no_folders
unfolding get
no_folders-IsForest = record {
  chained = λ id f e. ground (arith, e);
  fresh = λ id f e. ground (arith, e);
  no_zero = refl;
  positive = omega arith;
  same_customer = λ id p f q e k g. ground (arith, e);
}

one_folder-Steps : Steps no_folders one_folder
unfolding create_folder get_customer_or_404 validate_parent require_global_capability record_event
one_folder-Steps = next here (
    created 1 operator payload
      (record { id = 1; name = "outer"; customer_id = 1; parent_folder_id = none }) refl)

Steps-IsForest_example : IsForestDb one_folder
Steps-IsForest_example = Steps-IsForest one_folder-Steps no_folders-IsForest

abbrev in_outer : Source
in_outer = record logs { folder_id = some 1 }

one_folder-IsForest : IsForestDb one_folder
one_folder-IsForest = Steps-IsForest one_folder-Steps no_folders-IsForest

in_outer_found :
    (id : ℕ)
    → in_outer.folder_id ≡ some id
    → (f : Folder) × (folder_by_id id one_folder.folders ≡ some f)
unfolding get
in_outer_found id h = (_, found)
  where
    found :
        folder_by_id id one_folder.folders
        ≡ some (record { id = 1; name = "outer"; customer_id = 1; parent_folder_id = none })
    found = ground (arith, h)

resolve_capability_total_example :
    (n : ℕ) × ((fuel : ℕ)
      → n ≤ fuel
      → (b : Bool) × (resolve_capability one_folder operator fuel in_outer view ≡ ok b))
resolve_capability_total_example =
    resolve_capability_total one_folder operator in_outer view one_folder-IsForest in_outer_found
