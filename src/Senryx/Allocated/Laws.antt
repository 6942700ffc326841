-- ===== src/Senryx/Allocated/Laws.antt =====
-- The order of the allocation states, and where `join` and `meet` are its bounds.
use rapx_log.Prelude.{◌≡◌, ◌≢◌, ◌⊎◌, ◌↔◌, true, ◌||◌, arith}
use rapx_log.Senryx.Allocated.{
  AllocatedState, top, borrowed, moved, alloc, specific_alloc, bottom, join, meet, less_than, equal,
}

-- `less_than` or `equal`, the test that `handle_state_op` makes for `<=`.
abbrev pub Le : AllocatedState → AllocatedState → Type 0
Le a b = (less_than a b || equal a b) ≡ true

-- The order that the names suggest, as an independent description.
pub data Below : AllocatedState → AllocatedState → Type 0 where
  same : (a : AllocatedState) → Below a a
  from_bottom : (a : AllocatedState) → Below bottom a
  to_top : (a : AllocatedState) → Below a top
  alloc_specific : Below alloc specific_alloc
  alloc_borrowed : Below alloc borrowed
  alloc_moved : Below alloc moved
  specific_borrowed : Below specific_alloc borrowed
  specific_moved : Below specific_alloc moved

Le→Below : (a b : AllocatedState) → Le a b → Below a b
unfolding less_than equal
Le→Below bottom b h = from_bottom b
Le→Below a top h = to_top a
Le→Below borrowed borrowed h = same borrowed
Le→Below moved moved h = same moved
Le→Below alloc alloc h = same alloc
Le→Below specific_alloc specific_alloc h = same specific_alloc
Le→Below alloc specific_alloc h = alloc_specific
Le→Below alloc borrowed h = alloc_borrowed
Le→Below alloc moved h = alloc_moved
Le→Below specific_alloc borrowed h = specific_borrowed
Le→Below specific_alloc moved h = specific_moved
Le→Below _ _ h = cc

Below→Le : {a b : AllocatedState} → Below a b → Le a b
unfolding less_than equal
Below→Le (same a) = ground arith
Below→Le (from_bottom a) = ground arith
Below→Le (to_top a) = ground arith
Below→Le alloc_specific = ground arith
Below→Le alloc_borrowed = ground arith
Below→Le alloc_moved = ground arith
Below→Le specific_borrowed = ground arith
Below→Le specific_moved = ground arith

-- `less_than` or `equal` is exactly the order in which the bottom is least, the top greatest,
-- Alloc below SpecificAlloc, and both of these below Borrowed and Moved; and it is a partial order.
pub Le-order :
    (a b c : AllocatedState)
    → (Le a b ↔ Below a b) × Le a a × (Le a b → Le b a → a ≡ b) × (Le a b → Le b c → Le a c)
unfolding less_than equal
Le-order a b c = ((Le→Below a b, Below→Le), ground arith, λ p q. ground arith, λ p q. ground arith)

-- `join` is the least upper bound in the order of `less_than` and `equal`, for all states: it is
-- above both arguments and below every state that is above both.
pub join-least :
    (a b c : AllocatedState)
    → Le a (join a b) × Le b (join a b) × (Le a c → Le b c → Le (join a b) c)
unfolding join less_than equal
join-least a b c = (ground arith, ground arith, λ p q. ground arith)

-- Merging by `join` does not depend on the order or the grouping of the branches.
pub join_order_free :
    (a b c : AllocatedState)
    → (join (join a b) c ≡ join a (join b c)) × (join a b ≡ join b a) × (join a a ≡ a)
unfolding join
join_order_free a b c = (ground arith, ground arith, ground arith)

-- Moved against Borrowed or Alloc, in either order.
abbrev pub Conflict : AllocatedState → AllocatedState → Type 0
Conflict a b = (a ≡ moved) × (b ≡ borrowed ⊎ b ≡ alloc) ⊎ (b ≡ moved) × (a ≡ borrowed ⊎ a ≡ alloc)

-- `meet` is a lower bound of its arguments, and it is the greatest one exactly when the arguments
-- are not Moved and Borrowed, nor Moved and Alloc: every common lower bound is below `meet a b` if
-- and only if the two do not conflict.
pub meet-greatest :
    (a b : AllocatedState)
    → Le (meet a b) a
      × Le (meet a b) b
      × (((c : AllocatedState) → Le c a → Le c b → Le c (meet a b)) ↔ (¬ Conflict a b))
unfolding meet less_than equal
meet-greatest a b =
    (ground arith, ground arith, (λ all n. ground (arith, all alloc), λ n c p q. ground arith))

-- Grouping matters for `meet`, but the order does not: of three states no two of which conflict, the
-- two groupings agree; with Borrowed and Moved they differ for SpecificAlloc and for no other state.
pub meet-regroup_lossy :
    (a b c : AllocatedState)
    → (meet a b ≡ meet b a)
      × (¬ Conflict a b → ¬ Conflict b c → ¬ Conflict a c → meet a (meet b c) ≡ meet (meet a b) c)
      × ((meet a (meet borrowed moved) ≢ meet (meet a borrowed) moved) ↔ (a ≡ specific_alloc))
unfolding meet
meet-regroup_lossy a b c =
    (ground arith, λ p q r. ground arith, ((λ n. ground arith), λ e h. ground arith))
