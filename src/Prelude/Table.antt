-- ===== src/Prelude/Table.antt =====
-- A database table: rows found by their key, in insertion order.
use mathlib.Core.Path.{◌≡◌}
use mathlib.Core.Bool.{Bool, false, not}
use mathlib.Core.Option.{Option, none, some}
use mathlib.Core.List.{List, [], ◌∷◌, ◌++◌}
use native.Mathlib.Omega.{arith}
use perchtail.Prelude.Tests.{Eq, ◌==◌, ==_iff, if◌then◌else◌, is_some}
use perchtail.Prelude.Lists.{any, filter}

module _ {ℓ κ} {K : Type ℓ} ⦃e : Eq K⦄ {A : Type κ} (key : A → K) where
  unfoldable pub get : K → List A → Option A
  get k [] = none
  get k (x ∷ xs) = let rest = get k xs in if key x == k then some x else rest

  unfoldable pub remove : K → List A → List A
  remove k xs = filter (λ x. not (key x == k)) xs

  -- The row takes the place of the rows with its key.
  unfoldable pub replace : A → List A → List A
  replace y [] = []
  replace y (x ∷ xs) = (if key x == key y then y else x) ∷ replace y xs

  pub get-key : (k : K) (xs : List A) (x : A) → get k xs ≡ some x → key x ≡ k
  unfolding get
  get-key k [] x h = ground arith
  get-key k (y ∷ ys) x h = ground (arith, ==_iff (key y) k, get-key k ys x)

  pub get-remove :
      (j k : K) (xs : List A) → get j (remove k xs) ≡ (if k == j then none else get j xs)
  unfolding get remove
  get-remove j k [] = ground arith
  get-remove j k (x ∷ xs) =
      ground (arith, get-remove j k xs, ==_iff (key x) k, ==_iff (key x) j, ==_iff k j)

  pub get-replace :
      (j : K) (y : A) (xs : List A)
      → get j (replace y xs)
        ≡ (if key y == j then (if is_some (get j xs) then some y else none) else get j xs)
  unfolding get replace
  get-replace j y [] = ground arith
  get-replace j y (x ∷ xs) =
      ground (arith, get-replace j y xs, ==_iff (key x) (key y), ==_iff (key x) j, ==_iff (key y) j)

  pub get-append :
      (j : K) (xs : List A) (y : A)
      → get j (xs ++ y ∷ [])
        ≡ (if is_some (get j xs) then get j xs else if key y == j then some y else none)
  unfolding get
  get-append j [] y = ground arith
  get-append j (x ∷ xs) y = ground (arith, get-append j xs y)

  -- A row that is found passes a test that no row fails.
  pub any-get :
      (p : A → Bool) (k : K) (xs : List A) (x : A)
      → any p xs ≡ false
      → get k xs ≡ some x
      → p x ≡ false
  unfolding get
  any-get p k [] x h g = ground arith
  any-get p k (y ∷ ys) x h g = ground (arith, any-get p k ys x)
