-- ===== src/Senryx/Init.antt =====
-- The lattice of initialisation states: `InitState` of contracts/abstract_state.rs and its
-- `impl Lattice` in contracts/state_lattice.rs.
use package.rapx_log.Prelude.{◌≡◌, ◌⊎◌, ◌↔◌, Bool, true, false, arith}

pub data InitState : Type 0 where
  fully_initialized partly_initialized : InitState

pub join : InitState → InitState → InitState
join fully_initialized _ = fully_initialized
join _ fully_initialized = fully_initialized
join _ _ = partly_initialized

pub meet : InitState → InitState → InitState
meet fully_initialized other = other
meet self fully_initialized = self
meet _ _ = partly_initialized

pub less_than : InitState → InitState → Bool
less_than fully_initialized fully_initialized = true
less_than partly_initialized _ = true
less_than _ _ = false

pub equal : InitState → InitState → Bool
equal fully_initialized fully_initialized = true
equal partly_initialized partly_initialized = true
equal _ _ = false

unfoldable pub check : InitState → Bool
check _ = true

-- The initialisation states are a lattice: `less_than` is the order in which Partly is below Fully and
-- each is below itself, so a partial order; `join` is the least upper bound, above both arguments and
-- below every state that is above both; `meet` is the greatest lower bound, likewise; and `equal`
-- decides equality.
pub InitState-lattice :
    (a b c : InitState)
    → ((less_than a b ≡ true) ↔ ((a ≡ partly_initialized) ⊎ (b ≡ fully_initialized)))
      × (less_than a a ≡ true)
      × (less_than a b ≡ true → less_than b a ≡ true → a ≡ b)
      × (less_than a b ≡ true → less_than b c ≡ true → less_than a c ≡ true)
      × (less_than a (join a b) ≡ true)
      × (less_than b (join a b) ≡ true)
      × (less_than a c ≡ true → less_than b c ≡ true → less_than (join a b) c ≡ true)
      × (less_than (meet a b) a ≡ true)
      × (less_than (meet a b) b ≡ true)
      × (less_than c a ≡ true → less_than c b ≡ true → less_than c (meet a b) ≡ true)
      × ((equal a b ≡ true) ↔ (a ≡ b))
unfolding join meet less_than equal
InitState-lattice a b c = (
  ground arith,
  ground arith,
  λ p q. ground arith,
  λ p q. ground arith,
  ground arith,
  ground arith,
  λ p q. ground arith,
  ground arith,
  ground arith,
  λ p q. ground arith,
  ground arith,
)
