-- ===== src/Prelude/Seen.antt =====
-- Sets of numbers as lists, and how many numbers below a bound such a set lacks.
use Prim.Native.Nat.{ℕ, zero, suc, ◌+◌, ◌≤◌, ◌<◌}
use mathlib.Core.Path.{◌≡◌, refl}
use mathlib.Core.Logic.{◌↔◌, ◌⊎◌}
use mathlib.Core.Bool.{true, false, ◌||◌}
use mathlib.Core.List.{List, [], ◌∷◌, ◌++◌}
use native.Mathlib.Omega.{arith}
use package.rapx_log.Prelude.Tests.{◌==◌, if◌then◌else◌}
use package.rapx_log.Prelude.Lists.{contains, insert}

pub contains-concat : (r : List ℕ) (x y : ℕ) → contains (r ++ x ∷ []) y ≡ (contains r y || x == y)
contains-concat [] x y = ground arith
contains-concat (z ∷ r) x y = ground (arith, contains-concat r x y)

pub contains-insert :
    (r : List ℕ) (x y : ℕ) → (contains (insert r x) y ≡ true) ↔ ((contains r y ≡ true) ⊎ (y ≡ x))
contains-insert r x y = ground (arith, contains-concat r x y)

-- The numbers below `n` that are not in the set.
abbrev pub unseen : ℕ → List ℕ → ℕ
unseen zero r = 0
unseen (suc n) r = (if contains r n then 0 else 1) + unseen n r

-- Everything in the one set is in the other.
abbrev pub Within : List ℕ → List ℕ → Type 0
Within r s = (x : ℕ) → contains r x ≡ true → contains s x ≡ true

pub unseen-le : (n : ℕ) (r s : List ℕ) → Within r s → unseen n s ≤ unseen n r
unseen-le zero r s h = omega arith
unseen-le (suc n) r s h = ground (arith, h n, unseen-le n r s h)

pub unseen-lt :
    (n : ℕ) (r s : List ℕ) (x : ℕ)
    → Within r s
    → x < n
    → contains r x ≡ false
    → contains s x ≡ true
    → unseen n s < unseen n r
unseen-lt zero r s x h lt out within = elim lt [ ]
unseen-lt (suc n) r s x h lt out within =
    ground (arith, h n, unseen-le n r s h, unseen-lt n r s x h)

pub unseen-nil : (n : ℕ) → unseen n [] ≡ n
unseen-nil zero = refl
unseen-nil (suc n) = omega (arith, unseen-nil n)
