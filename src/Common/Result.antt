-- ===== src/Common/Result.antt =====
-- `Result<T, String>`: a value or a message.
use Prim.Native.String.{String}
use mathlib.Core.Logic.{◌⊎◌, inl, inr}
use mathlib.Core.Path.{◌≡◌, refl}
use native.Mathlib.Omega.{arith}

pub data Result {ℓ} (A : Type ℓ) : Type ℓ where
  ok : A → Result A
  err : String → Result A

infixl 10 ◌>>=◌
abbrev pub ◌>>=◌ {ℓ κ} : {A : Type ℓ} {B : Type κ} → Result A → (A → Result B) → Result B
ok a >>= f = f a
err m >>= f = err m

-- A chain that yields a value yields one at each step.
pub bind_ok :
    {A B : Type 0} (x : Result A) (f : A → Result B) {b : B}
    → (x >>= f) ≡ ok b
    → (a : A) × (x ≡ ok a) × (f a ≡ ok b)
bind_ok (err m) f h = ground arith
bind_ok (ok a) f h = (a, refl, h)

pub ok-injective : {A : Type 0} (a b : A) → ok a ≡ ok b → a ≡ b
ok-injective a b h = ground arith

-- A failure has one message.
pub err_unique : {A : Type 0} (x : Result A) (l m : String) → x ≡ err l → x ≡ err m → l ≡ m
err_unique x l m h k = ground arith

pub Result-cases :
    {A : Type 0} (x : Result A) → ((m : String) × (x ≡ err m)) ⊎ ((a : A) × (x ≡ ok a))
Result-cases (err m) = inl (m, refl)
Result-cases (ok a) = inr (a, refl)
