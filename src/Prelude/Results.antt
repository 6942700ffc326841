-- ===== src/Prelude/Results.antt =====
-- What a run of the program's code comes to: a value, a panic, or a model that ran out of fuel.
use mathlib.Core.Path.{◌≡◌, refl}
use mathlib.Core.Option.{Option, none, some}

pub data Outcome {ℓ} (A : Type ℓ) : Type ℓ where
  ok : A → Outcome A
  panic : Outcome A
  stuck : Outcome A

infixl 5 ◌>>=◌
abbrev pub ◌>>=◌ {κ ℓ} : {B : Type κ} {A : Type ℓ} → Outcome A → (A → Outcome B) → Outcome B
panic >>= next = panic
stuck >>= next = stuck
ok value >>= next = next value

-- `unwrap`, and an index into a vector.
abbrev pub or_panic {ℓ} : {A : Type ℓ} → Option A → Outcome A
or_panic none = panic
or_panic (some a) = ok a

-- A run of two parts that returns has a first part that returns.
pub >>=-eq-ok {κ ℓ} :
    {B : Type κ} {A : Type ℓ} (run : Outcome A) (next : A → Outcome B) {out : B}
    → (run >>= next) ≡ ok out
    → (mid : A) × (run ≡ ok mid) × (next mid ≡ ok out)
>>=-eq-ok panic next h = cc
>>=-eq-ok stuck next h = cc
>>=-eq-ok (ok mid) next h = (mid, refl, h)
