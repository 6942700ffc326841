-- ===== src/Senryx/Checker/Slice.antt =====
-- The bound on the length that `from_raw_parts` is checked against.
use rapx_log.Prelude.{ℕ, ◌*◌, ◌/◌, ◌≤◌, ◌<◌, ◌≡◌, refl, ◌↔◌, true, some, [], ◌∷◌, get, ok, arith}
use native.Mathlib.Nat.{le-div_iff_mul-le}
use rapx_log.Senryx.State.{usize, align_state, AbstractStateItem}
use rapx_log.Senryx.Align.{unaligned}
use rapx_log.Senryx.Contract.{Contract, check_contract, value_check, state_check, gt, le}
use rapx_log.Senryx.Checker.{isize_max, Contracts, slice_from_raw_parts}

length_contract :
    (bound n : ℕ) (item : AbstractStateItem)
    → item.value.1 ≡ usize n
    → (check_contract (value_check le (usize bound)) item ≡ true) ↔ (n ≤ bound)
unfolding check_contract
length_contract bound n item e = ground arith

-- Of an element type that takes up space, the checker has one contract on the second argument, and
-- it holds of a length whose greatest value is `n` exactly when n elements fit in `isize::MAX` bytes.
pub slice_from_raw_parts-length :
    (size n : ℕ) (item : AbstractStateItem)
    → 0 < size
    → item.value.1 ≡ usize n
    → (cs : Contracts) × (c : Contract) × (slice_from_raw_parts size ≡ ok cs)
      × (get cs 1 ≡ some (c ∷ []))
      × ((check_contract c item ≡ true) ↔ (n * size ≤ isize_max))
unfolding slice_from_raw_parts
slice_from_raw_parts-length size n item h e = (
  (0, state_check gt (align_state unaligned) ∷ []) ∷ (1, bound ∷ []) ∷ [],
  bound,
  ground arith,
  refl,
  (
    λ p. (le-div_iff_mul-le h).0 ((length_contract (isize_max / size) n item e).0 p),
    λ p. (length_contract (isize_max / size) n item e).1 ((le-div_iff_mul-le h).1 p),
  ),
)
  where
    bound : Contract
    bound = value_check le (usize (isize_max / size))
