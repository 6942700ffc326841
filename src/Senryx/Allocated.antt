-- ===== src/Senryx/Allocated.antt =====
-- The lattice of allocation states: `AllocatedState` of contracts/abstract_state.rs and its
-- `impl Lattice` in contracts/state_lattice.rs.
pub mod Laws
use package.rapx_log.Prelude.{Bool, true, false}

pub data AllocatedState : Type 0 where
  top borrowed moved alloc specific_alloc bottom : AllocatedState

-- The guard `state1 == state2` is written out for the four states that reach it.
pub join : AllocatedState → AllocatedState → AllocatedState
join bottom other = other
join self bottom = self
join top _ = top
join _ top = top
join borrowed moved = top
join moved borrowed = top
join alloc specific_alloc = specific_alloc
join specific_alloc alloc = specific_alloc
join borrowed borrowed = borrowed
join moved moved = moved
join alloc alloc = alloc
join specific_alloc specific_alloc = specific_alloc
join alloc borrowed = borrowed
join borrowed alloc = borrowed
join alloc moved = moved
join moved alloc = moved
join specific_alloc borrowed = borrowed
join borrowed specific_alloc = borrowed
join moved specific_alloc = moved
join specific_alloc moved = moved

-- Alloc against Moved has no arm of its own and comes to the last one.
pub meet : AllocatedState → AllocatedState → AllocatedState
meet top other = other
meet self top = self
meet bottom _ = bottom
meet _ bottom = bottom
meet borrowed moved = bottom
meet moved borrowed = bottom
meet alloc specific_alloc = alloc
meet specific_alloc alloc = alloc
meet borrowed borrowed = borrowed
meet moved moved = moved
meet alloc alloc = alloc
meet specific_alloc specific_alloc = specific_alloc
meet alloc borrowed = alloc
meet borrowed alloc = alloc
meet specific_alloc borrowed = specific_alloc
meet borrowed specific_alloc = specific_alloc
meet moved specific_alloc = specific_alloc
meet specific_alloc moved = specific_alloc
meet alloc moved = bottom
meet moved alloc = bottom

unfoldable pub less_than : AllocatedState → AllocatedState → Bool
less_than bottom _ = true
less_than _ top = true
less_than alloc borrowed = true
less_than alloc specific_alloc = true
less_than alloc moved = true
less_than specific_alloc borrowed = true
less_than specific_alloc moved = true
less_than _ _ = false

-- `*self == other`, the derived equality.
unfoldable pub equal : AllocatedState → AllocatedState → Bool
equal top top = true
equal borrowed borrowed = true
equal moved moved = true
equal alloc alloc = true
equal specific_alloc specific_alloc = true
equal bottom bottom = true
equal _ _ = false

unfoldable pub check : AllocatedState → Bool
check _ = true
