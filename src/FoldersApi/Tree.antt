-- ===== src/FoldersApi/Tree.antt =====
-- Chains of parents under the changes that the handlers make to the folder table.
use mathlib.Core.Bool.{false≢true}
use perchtail.Prelude.{
  ℕ, zero, suc, ◌≡◌, ◌≢◌, refl, sym, ap, ◌∙◌, subst, false, Option, none, some, List, ◌==◌, ==_iff,
  nat_eq, option_eq, Bool-cases, inl, inr, arith,
}
use perchtail.Prelude.Table.{remove, replace, get-key, get-remove, get-replace, any-get}
use perchtail.Model.{Folder}
use perchtail.Run.{ok}
use perchtail.Rbac.{folder_by_id}
use perchtail.Rbac.Scopes.{Chain, top, up}
use perchtail.FoldersApi.{validate_walk, has_children}

pub chain-get :
    {folders : List Folder} {id : ℕ}
    → Chain folders (some id)
    → (f : Folder) × (folder_by_id id folders ≡ some f)
chain-get (up {f} e c) = (f, e)

-- A table that still finds every folder has every chain.
pub chain-grow :
    {folders folders' : List Folder} {id : Option ℕ}
    → ((j : ℕ) (f : Folder) → folder_by_id j folders ≡ some f → folder_by_id j folders' ≡ some f)
    → Chain folders id
    → Chain folders' id
chain-grow keep top = top
chain-grow keep (up {id} {f} e c) = up (keep id f e) (chain-grow keep c)

-- Deleting a folder that is nobody's parent leaves the other chains.
pub chain-remove :
    {folders : List Folder} {id : Option ℕ} (k : ℕ)
    → has_children k folders ≡ false
    → Chain folders id
    → id ≢ some k
    → Chain (remove (λ (f : Folder). f.id) k folders) id
chain-remove k h top n = top
chain-remove {folders} k h (up {id} {f} e c) n =
    up {f = f} (ground (arith, get-remove (λ (g : Folder). g.id) id k folders, ==_iff k id, e)) (
      chain-remove k h c (λ p. false≢true (
        sym (any-get (λ (g : Folder). g.id) _ id folders f h e)
        ∙ (==_iff f.parent_folder_id (some k)).1 p)))

module _ (folders : List Folder) (f f' : Folder) (here : folder_by_id f'.id folders ≡ some f) where
  abbrev pub changed : List Folder
  changed = replace (λ (g : Folder). g.id) f' folders

  pub changed_self : folder_by_id f'.id changed ≡ some f'
  changed_self =
      ground (arith, get-replace (λ (g : Folder). g.id) f'.id f' folders, ==_iff f'.id f'.id)

  pub changed-ne : (j : ℕ) → (f'.id == j) ≡ false → folder_by_id j changed ≡ folder_by_id j folders
  changed-ne j h = ground (arith, get-replace (λ (g : Folder). g.id) j f' folders)

  -- Once the changed folder has a chain, every folder keeps one.
  pub chain-change :
      {id : Option ℕ} → Chain changed f'.parent_folder_id → Chain folders id → Chain changed id
  chain-change new top = top
  chain-change new (up {id} {f = g} e c) = elim (Bool-cases (f'.id == id)) [
    | inl h ↦
        subst (λ (j : ℕ). Chain changed (some j)) ((==_iff f'.id id).0 h) (up changed_self new)
    | inr h ↦ up (changed-ne id h ∙ e) (chain-change new c)
  ]

  -- A change that keeps the parent keeps every chain.
  pub chain-same :
      {id : Option ℕ}
      → f'.parent_folder_id ≡ f.parent_folder_id
      → Chain folders id
      → Chain changed id
  chain-same same top = top
  chain-same same (up {id} {f = g} e c) = elim (Bool-cases (f'.id == id)) [
    | inl h ↦
        let j : f'.id ≡ id = (==_iff f'.id id).0 h in
        let k : f ≡ g = ground (arith, here, e) in
        subst (λ (n : ℕ). Chain changed (some n)) j
          (up changed_self (
            subst (λ (x : Option ℕ). Chain changed x)
              (sym (same ∙ ap (λ (x : Folder). x.parent_folder_id) k)) (chain-same same c)))
    | inr h ↦ up (changed-ne id h ∙ e) (chain-same same c)
  ]

  -- What `_validate_parent` walks past is not the moved folder, so it keeps its chain.
  pub walk-chain :
      {id : Option ℕ} (fuel : ℕ) (w : Folder)
      → folder_by_id 0 folders ≡ none
      → w.parent_folder_id ≡ id
      → Chain folders id
      → validate_walk folders (some f'.id) fuel w ≡ ok tt
      → Chain changed id × ((w.id == f'.id) ≡ false)
  unfolding validate_walk
  walk-chain zero w z p top h = cc
  walk-chain zero w z p (up e c) h = cc
  walk-chain (suc fuel) w z p top h = (top, ground arith)
  walk-chain (suc fuel) w z p (up {id} {f = g} e c) h =
      let n : validate_walk folders (some f'.id) fuel g ≡ ok tt = ground (arith, ==_iff id 0) in
      let (new, other) = walk-chain fuel g z refl c n in
      let k : g.id ≡ id = get-key (λ (x : Folder). x.id) id folders g e in
      (
        up (changed-ne id (ground (arith, ==_iff f'.id id, ==_iff g.id f'.id)) ∙ e) new,
        ground arith,
      )
