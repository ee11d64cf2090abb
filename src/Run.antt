-- ===== src/Run.antt =====
-- The outcome of a request handler or of a helper that may raise: a value, an `HTTPException`, any
-- other exception (an `AttributeError` from a missing row, a `TypeError`), or a loop that used up the
-- fuel of the model.
use perchtail.Prelude.{ℕ, String, ◌≡◌, refl, arith}

pub data Run {ℓ} (A : Type ℓ) : Type ℓ where
  ok : A → Run A
  http : ℕ → String → Run A
  crash : Run A
  out_of_fuel : Run A

infixl 5 ◌>>=◌ ◌>>◌
abbrev pub ◌>>=◌ {ℓ κ} : {A : Type ℓ} {B : Type κ} → Run A → (A → Run B) → Run B
ok a >>= f = f a
http code detail >>= f = http code detail
crash >>= f = crash
out_of_fuel >>= f = out_of_fuel

abbrev pub ◌>>◌ {ℓ κ} : {A : Type ℓ} {B : Type κ} → Run A → Run B → Run B
m >> k = m >>= λ _. k

pub ok_inj {ℓ} : {A : Type ℓ} {x y : A} → ok x ≡ ok y → x ≡ y
ok_inj e = ground (arith, e)

-- What a sequence that succeeds went through.
pub >>=-eq-ok {ℓ κ} :
    {A : Type ℓ} {B : Type κ} {y : B} (m : Run A) (f : A → Run B)
    → (m >>= f) ≡ ok y
    → (x : A) × (m ≡ ok x) × (f x ≡ ok y)
>>=-eq-ok (ok a) f h = (a, refl, h)
>>=-eq-ok (http code detail) f h = cc
>>=-eq-ok crash f h = cc
>>=-eq-ok out_of_fuel f h = cc
