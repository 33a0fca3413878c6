-- ===== src/Base/Opt.antt =====
-- `Option` and `Result` as Rust's `?` uses them.
use mathlib.Core.Path.{◌≡◌, refl}
use mathlib.Core.Bool.{Bool, true, false}
use mathlib.Core.Option.{Option, none, some}
use native.Mathlib.Omega.{arith}
use adguard_sentinel.Base.Tests.{if◌then◌else◌}

infixl 5 ◌>>=◌
abbrev pub ◌>>=◌ {ℓ κ} : {A : Type ℓ} {B : Type κ} → Option A → (A → Option B) → Option B
none >>= f = none
some a >>= f = f a

-- A chain that gives a result gave one at each step.
pub >>=-some {ℓ κ} :
    {A : Type ℓ} {B : Type κ} (o : Option A) (f : A → Option B) (b : B)
    → (o >>= f) ≡ some b
    → (a : A) × (o ≡ some a) × (f a ≡ some b)
>>=-some none f b h = ground arith
>>=-some (some a) f b h = (a, refl, h)

-- A guarded value is given only where the guard is off.
pub guard-some {ℓ} :
    {A : Type ℓ} (stop : Bool) (x y : A)
    → (if stop then none else some x) ≡ some y
    → (stop ≡ false) × (x ≡ y)
guard-some stop x y h = ground arith

pub unguarded-some {ℓ} :
    {A : Type ℓ} (stop : Bool) (o : Option A) (x : A)
    → (if stop then none else o) ≡ some x
    → (stop ≡ false) × (o ≡ some x)
unguarded-some stop o x h = ground arith

pub guarded-some {ℓ} :
    {A : Type ℓ} (go : Bool) (o : Option A) (x : A)
    → (if go then o else none) ≡ some x
    → (go ≡ true) × (o ≡ some x)
guarded-some go o x h = ground arith
