-- ===== src/RCanary/Order/Cycles.antt =====
-- The blocks of loops are not in the order.
use rapx_log.Prelude.{ℕ, zero, suc, ◌<◌, ◌≡◌, some, List, length, get_elem?, All, ok, arith}
use rapx_log.Mir.{TerminatorKind}
use rapx_log.RCanary.Order.{Graph, order}
use rapx_log.RCanary.Order.Counts.{count, row}
use rapx_log.RCanary.Order.Topo.{IsOrder, index_of}
use rapx_log.RCanary.Order.Relax.{zero_of}
use rapx_log.RCanary.Order.Collect.{HasTargets}
use rapx_log.RCanary.Order.Whole.{order-IsOrder}

-- One edge or more lead from the one block to the other.
pub data Way (n : ℕ) (e : List (List ℕ)) (u : ℕ) : ℕ → Type 0 where
  edge : {v : ℕ} → u < n → 0 < count v (row e u) → Way n e u v
  further : {w v : ℕ} → Way n e u w → w < n → 0 < count v (row e w) → Way n e u v

module _ (n : ℕ) (e : List (List ℕ)) (topo : List ℕ) (o : IsOrder n e topo) where
  Way-behind :
      {u v : ℕ} (k : ℕ)
      → Way n e u v
      → get_elem? topo k ≡ some v
      → (j : ℕ) × (j < k) × (get_elem? topo j ≡ some u)
  Way-behind k (edge lt there) at = o.behind k _ at _ lt there
  Way-behind k (further way lt there) at =
      let (j, less, at') = o.behind k _ at _ lt there in
      let (i, less', at'') = Way-behind j way at' in (i, omega (arith, less, less'), at'')

  never_at : (m k v : ℕ) → k < m → Way n e v v → get_elem? topo k ≡ some v → ⊥
  never_at zero k v lt way at = elim lt [ ]
  never_at (suc m) k v lt way at =
      let (j, less, at') = Way-behind k way at in never_at m j v (omega (arith, less, lt)) way at'

  IsOrder-loop : (v : ℕ) → Way n e v v → count v topo ≡ 0
  IsOrder-loop v way =
      zero_of (count v topo) (λ there.
        (let (k, at) = index_of v topo there in never_at (suc k) k v (omega arith) way at))

-- On a body with a block, whose terminators lead to blocks of the body, never to the first, and are no
-- tail calls, no block from which edges lead back to itself is in the order that `order` returns.
pub order-loop_left_out :
    (blocks : List TerminatorKind)
    → 0 < length blocks
    → All (HasTargets (length blocks)) blocks
    → (g : Graph) × (order blocks ≡ ok g)
      × ((v : ℕ) → Way (length blocks) g.e v v → count v g.topo ≡ 0)
order-loop_left_out blocks lt has =
    let (g, run, collected, is_order) = order-IsOrder blocks lt has in
    (g, run, IsOrder-loop (length blocks) g.e g.topo is_order)
