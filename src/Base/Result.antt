-- ===== src/Base/Result.antt =====
-- Rust's `Result<T, E>`; the `?` operator is `>>=`.
use mathlib.Core.Path.{◌≡◌, refl, ap}
use mathlib.Core.Bool.{Bool, false}
use mathlib.Core.Logic.{◌⊎◌, inl, inr}
use native.Mathlib.Omega.{arith}
use adguard_sentinel.Base.Tests.{if◌then◌else◌}

pub data Result {ℓ κ} (E : Type κ) (A : Type ℓ) : Type (ℓ ⊔ κ) where
  err : E → Result E A
  ok : A → Result E A

infixl 5 ◌>>=◌
infixl 5 ◌>>◌
abbrev pub ◌>>=◌ {ℓ κ μ} :
    {Failure : Type μ} {A : Type ℓ} {B : Type κ}
    → Result Failure A
    → (A → Result Failure B)
    → Result Failure B
err failure >>= next = err failure
ok value >>= next = next value

-- A step that returns nothing of use.
abbrev pub ◌>>◌ {κ μ} :
    {Failure : Type μ} {B : Type κ}
    → Result Failure (Unit {0})
    → Result Failure B
    → Result Failure B
step >> next = step >>= (λ done. next)

abbrev pub ok_or {ℓ κ} : {Failure : Type κ} {A : Type ℓ} → Result Failure A → A → A
ok_or (err failure) default = default
ok_or (ok value) default = value

pub ok-injective {ℓ κ} :
    {Failure : Type κ} {A : Type ℓ} (x y : A) → Path (Result Failure A) (ok x) (ok y) → x ≡ y
ok-injective x y h = ap (λ r. ok_or r x) h

-- A chain that succeeds succeeded at each step.
pub >>=-ok {ℓ κ μ} :
    {Failure : Type μ} {A : Type ℓ} {B : Type κ} (r : Result Failure A)
    (next : A → Result Failure B) (b : B)
    → (r >>= next) ≡ ok b
    → (a : A) × (r ≡ ok a) × (next a ≡ ok b)
>>=-ok (err failure) next b h = ground arith
>>=-ok (ok a) next b h = (a, refl, h)

-- A refusal that lets a result through was off.
pub refused-ok {ℓ κ} :
    {Failure : Type κ} {A : Type ℓ} (stop : Bool) (failure : Failure) (r : Result Failure A) (x : A)
    → (if stop then err failure else r) ≡ ok x
    → (stop ≡ false) × (r ≡ ok x)
refused-ok stop failure r x h = ground arith

pub Result-cases {ℓ κ} :
    {Failure : Type κ} {A : Type ℓ} (r : Result Failure A)
    → ((failure : Failure) × (r ≡ err failure)) ⊎ ((a : A) × (r ≡ ok a))
Result-cases (err failure) = inl (failure, refl)
Result-cases (ok a) = inr (a, refl)
