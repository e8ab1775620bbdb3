-- ===== src/Prelude/Results.antt =====
-- Code that may fault: `none` is a read or write outside an array, a failed assertion, or fuel
-- that ran out. `some` is a run to the end.
use mathlib.Core.Path.{◌≡◌, refl}
use mathlib.Core.Logic.{◌⊎◌, inl, inr}
use mathlib.Core.Option.{Option, none, some, none-ne-some}
use mathlib.Core.Bool.{Bool, true, false}

infixl 5 ◌>>=◌ ◌>>◌
abbrev pub ◌>>=◌ {ℓ κ} : {A : Type ℓ} {B : Type κ} → Option A → (A → Option B) → Option B
none >>= f = none
some a >>= f = f a

abbrev pub ◌>>◌ {ℓ} : {B : Type ℓ} → Option (Unit {0}) → Option B → Option B
m >> k = m >>= λ _. k

-- `assert(b)`.
abbrev pub assert : Bool → Option (Unit {0})
assert true = some tt
assert false = none

pub Option-cases {ℓ} : {A : Type ℓ} (o : Option A) → (o ≡ none) ⊎ ((a : A) × (o ≡ some a))
Option-cases none = inl refl
Option-cases (some a) = inr (a, refl)

-- What a run that succeeds went through.
pub assert_inv {ℓ} :
    {A : Type ℓ} (b : Bool) (k : Option A) {r : A}
    → (assert b >> k) ≡ some r
    → (b ≡ true) × (k ≡ some r)
assert_inv true k h = (refl, h)
assert_inv false k {r} h = absurd (none-ne-some r h)

pub bind_inv {ℓ κ} :
    {A : Type ℓ} {B : Type κ} (m : Option A) (f : A → Option B) {r : B}
    → (m >>= f) ≡ some r
    → (a : A) × (m ≡ some a) × (f a ≡ some r)
bind_inv none f {r} h = absurd (none-ne-some r h)
bind_inv (some a) f h = (a, refl, h)
