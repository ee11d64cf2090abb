-- ===== src/Prelude/Keyed.antt =====
-- Tables in which every key stands in one row.
use mathlib.Core.Path.{◌≡◌, refl, subst}
use mathlib.Core.Logic.{inl, inr}
use mathlib.Core.Bool.{Bool, true}
use mathlib.Core.Option.{none, some}
use mathlib.Core.List.{List, [], ◌∷◌, ◌++◌}
use native.Mathlib.Omega.{arith}
use perchtail.Prelude.Tests.{Eq, ◌==◌, ==_iff, ==_refl, Bool-cases, if◌then◌else◌}
use perchtail.Prelude.Lists.{any}
use perchtail.Prelude.Table.{get, replace, get-replace, get-append}

module _ {ℓ κ} {K : Type ℓ} ⦃e : Eq K⦄ {A : Type κ} (key : A → K) where
  abbrev pub IsKeyed : List A → Type κ
  IsKeyed [] = Unit
  IsKeyed (x ∷ xs) = (get key (key x) xs ≡ none) × IsKeyed xs

  pub replace-IsKeyed : (y : A) (xs : List A) → IsKeyed xs → IsKeyed (replace key y xs)
  unfolding replace
  replace-IsKeyed y [] h = tt
  replace-IsKeyed y (x ∷ xs) (h, hs) = (
    ground (
      arith,
      h,
      get-replace key (key (if key x == key y then y else x)) y xs,
      ==_iff (key x) (key y),
      ==_iff (key y) (key x),
    ),
    replace-IsKeyed y xs hs,
  )

  pub append-IsKeyed :
      (y : A) (xs : List A) → get key (key y) xs ≡ none → IsKeyed xs → IsKeyed (xs ++ y ∷ [])
  unfolding get
  append-IsKeyed y [] n h = (refl, tt)
  append-IsKeyed y (x ∷ xs) n (h, hs) = elim (Bool-cases (key x == key y)) [
    | inl s ↦ ground (arith, rw s at n)
    | inr s ↦ (
      ground (
        arith,
        s,
        h,
        get-append key (key x) xs y,
        ==_iff (key x) (key y),
        ==_iff (key y) (key x),
      ),
      append-IsKeyed y xs (rw s at n) hs,
    )
  ]

  -- A row that passes a test is found by its key.
  pub any-found :
      (p : A → Bool) (xs : List A)
      → IsKeyed xs
      → any p xs ≡ true
      → (x : A) × (get key (key x) xs ≡ some x) × (p x ≡ true)
  unfolding get
  any-found p [] k h = ground (arith, h)
  any-found p (x ∷ xs) (n, k) h = elim (Bool-cases (p x)) [
    | inl t ↦ (x, rw (==_refl (key x)) refl, t)
    | inr t ↦
        let (o, g, r) = any-found p xs k (rw t at h) in
        elim (Bool-cases (key x == key o)) [
          | inl s ↦
              ground (arith, g, subst (λ i. get key i xs ≡ none) ((==_iff (key x) (key o)).0 s) n)
          | inr s ↦ (o, rw s g, r)
        ]
  ]
