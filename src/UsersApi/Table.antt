-- ===== src/UsersApi/Table.antt =====
-- backend/app/api/users.py: the table of accounts, its ids and its super-admins.
use perchtail.Prelude.{
  ℕ, suc, ◌<◌, ◌≡◌, refl, subst, true, Bool-cases, inl, inr, none, some, some_inj, List, [], ◌∷◌,
  ◌++◌, All, arith, ◌==◌, nat_eq,
}
use perchtail.Prelude.Table.{get, replace}
use perchtail.Prelude.Keyed.{IsKeyed}
use perchtail.Model.{Role}
use perchtail.UsersApi.{Account, account_by_id, put_account, is_super_admin}

-- Every id stands in one row.
abbrev pub HasIds : List Account → Type 0
HasIds = IsKeyed (λ (a : Account). a.id)

abbrev pub IsOld : ℕ → Account → Type 0
IsOld next a = a.id < next

-- The row of an active super-admin.
abbrev pub IsAdmin : List Role → List Account → Account → Type 0
IsAdmin roles accounts a =
    (account_by_id a.id accounts ≡ some a) × (a.active ≡ true) × (is_super_admin roles a ≡ true)

abbrev pub HasAdmin : List Role → List Account → Type 0
HasAdmin roles accounts = (a : Account) × IsAdmin roles accounts a

pub replace-IsOld :
    (next : ℕ) (y : Account) (as' : List Account)
    → y.id < next
    → All (IsOld next) as'
    → All (IsOld next) (put_account y as')
unfolding replace
replace-IsOld next y [] o h = tt
replace-IsOld next y (a ∷ rest) o (h, hs) = (ground (arith, o, h), replace-IsOld next y rest o hs)

pub get-IsOld :
    (next id : ℕ) (as' : List Account) (a : Account)
    → All (IsOld next) as'
    → account_by_id id as' ≡ some a
    → a.id < next
unfolding get
get-IsOld next id [] a h g = ground (arith, g)
get-IsOld next id (x ∷ rest) a (h, hs) g = elim (Bool-cases (x.id == id)) [
  | inl e ↦ subst (IsOld next) (some_inj (rw e at g)) h
  | inr e ↦ get-IsOld next id rest a hs (rw e at g)
]

pub unknown-new :
    (next : ℕ) (as' : List Account) → All (IsOld next) as' → account_by_id next as' ≡ none
unfolding get
unknown-new next [] h = refl
unknown-new next (a ∷ rest) (h, hs) = ground (arith, h, unknown-new next rest hs)

pub append-IsOld :
    (y : Account) (as' : List Account)
    → All (IsOld y.id) as'
    → All (IsOld (suc y.id)) (as' ++ y ∷ [])
append-IsOld y [] h = (omega arith, tt)
append-IsOld y (a ∷ rest) (h, hs) = (omega (arith, h), append-IsOld y rest hs)
