-- ===== src/RCanary/Tests.antt =====
-- The order of the blocks of small bodies.
use rapx_log.Prelude.{ℕ, ◌≡◌, refl, List, [], ◌∷◌, All, ok, arith}
use rapx_log.Mir.{Place, move, TerminatorKind, goto, switch_int, return}
use rapx_log.RCanary.Order.{
  Graph, new_graph, pop, next_blocks, enter_edges, set_edges, collect_from, collect_edges, relax,
  visit_top, topo_loop, topo_order, order,
}
use rapx_log.RCanary.Order.Counts.{count}
use rapx_log.RCanary.Order.Topo.{IsOrder}
use rapx_log.RCanary.Order.Collect.{HasTargets}
use rapx_log.RCanary.Order.Whole.{IsCollected, order-IsOrder}
use rapx_log.RCanary.Order.Cycles.{Way, order-loop_left_out}

abbrev on_1 : Place
on_1 = record { local = 1; projection = [] }

-- Two branches that meet again.
abbrev diamond : List TerminatorKind
diamond =
    switch_int (move on_1) (record { targets = (0, 1) ∷ []; otherwise = 2 })
    ∷ goto 3
    ∷ goto 3
    ∷ return
    ∷ []

diamond_topo : (g : Graph) × (order diamond ≡ ok g) × (g.topo ≡ 0 ∷ 2 ∷ 1 ∷ 3 ∷ [])
unfolding order collect_edges collect_from next_blocks enter_edges set_edges topo_order topo_loop
    visit_top relax pop new_graph
diamond_topo = (_, refl, refl)

diamond_targets : All (HasTargets 4) diamond
unfolding next_blocks
diamond_targets = (
  (_, refl, (omega arith, (omega arith, tt)), refl),
  (
    (_, refl, (omega arith, tt), refl),
    ((_, refl, (omega arith, tt), refl), (([], refl, tt, refl), tt)),
  ),
)

order-IsOrder_example :
    (g : Graph) × (order diamond ≡ ok g) × IsCollected diamond g × IsOrder 4 g.e g.topo
order-IsOrder_example = order-IsOrder diamond (omega arith) diamond_targets

-- A loop between 1 and 2.
abbrev loop : List TerminatorKind
loop =
    goto 1
    ∷ switch_int (move on_1) (record { targets = (0, 3) ∷ []; otherwise = 2 })
    ∷ goto 1
    ∷ return
    ∷ []

-- The order ends in front of it.
loop_topo : (g : Graph) × (order loop ≡ ok g) × (g.topo ≡ 0 ∷ [])
unfolding order collect_edges collect_from next_blocks enter_edges set_edges topo_order topo_loop
    visit_top relax pop new_graph
loop_topo = (_, refl, refl)

loop_targets : All (HasTargets 4) loop
unfolding next_blocks
loop_targets = (
  (_, refl, (omega arith, tt), refl),
  (
    (_, refl, (omega arith, (omega arith, tt)), refl),
    ((_, refl, (omega arith, tt), refl), (([], refl, tt, refl), tt)),
  ),
)

order-loop_left_out_example :
    (g : Graph) × (order loop ≡ ok g) × ((v : ℕ) → Way 4 g.e v v → count v g.topo ≡ 0)
order-loop_left_out_example = order-loop_left_out loop (omega arith) loop_targets
