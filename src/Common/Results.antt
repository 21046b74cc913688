-- ===== src/Common/Results.antt =====
-- What a call of the C++ code can end in: a value, or one of the ways in which it stops.
use mathlib.Core.Path.{◌≡◌, refl}
use mathlib.Core.Logic.{◌⊎◌, inl, inr}
use mathlib.Core.Bool.{Bool, true, false}

-- A failed assert, an access outside a buffer, a null pointer, a missing key or entry, a C++ exception.
pub data Fault : Type 0 where
  assertion out_of_bounds null_pointer exception : Fault

pub data Result {ℓ} (A : Type ℓ) : Type ℓ where
  ok : A → Result A
  err : Fault → Result A

-- A test that has to hold.
abbrev pub guard : Bool → Fault → Result (Unit {0})
guard false f = err f
guard true f = ok tt

-- What comes after a fault is not run.
abbrev pub ◌>>=◌ {κ ℓ} : {B : Type κ} {A : Type ℓ} → Result B → (B → Result A) → Result A
err f >>= next = err f
ok b >>= next = next b

abbrev pub ◌>>◌ {κ} : {A : Type κ} → Result (Unit {0}) → Result A → Result A
first >> next = first >>= λ done. next

infixl 5 ◌>>=◌ ◌>>◌
pub Result-cases {ℓ} :
    {A : Type ℓ} (r : Result A) → ((a : A) × (r ≡ ok a)) ⊎ ((e : Fault) × (r ≡ err e))
Result-cases (ok a) = inl (a, refl)
Result-cases (err e) = inr (e, refl)

pub ok-injective {ℓ} : {A : Type ℓ} (a b : A) → ok a ≡ ok b → a ≡ b
ok-injective a b h = cc
