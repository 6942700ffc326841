-- ===== src/SafeDrop/Transfer/Variant.antt =====
-- The assignments of type `Variant`, which write the alias set without a look at the roots.
use rapx_log.Prelude.{ℕ, suc, ◌≡◌, refl, ◌≢◌, length, set, ok, false, true, stuck}
use rapx_log.Mir.{TyCtxt}
use rapx_log.SafeDrop.UnionFind.{union_find}
use rapx_log.SafeDrop.UnionFind.Roots.{Root, Root-self}
use rapx_log.SafeDrop.UnionFind.Cycle.{cycle}
use rapx_log.SafeDrop.State.{variant, Assignment, SafeDropGraph}
use rapx_log.SafeDrop.Nodes.{projection}
use rapx_log.SafeDrop.Transfer.{alias_assign}

-- If the two sides of a `Variant` assignment are different nodes of one alias set, of which the left
-- is the root, then the assignment returns and leaves an alias set in which `union_find` returns for
-- no value of that set: the write has closed a cycle.
pub alias_assign-cycle :
    (fuel : ℕ) (tcx : TyCtxt) (bb_index : ℕ) (a : Assignment) (g g1 g2 : SafeDropGraph) (lv rv : ℕ)
    → a.atype ≡ variant
    → projection tcx false a.lv g ≡ ok (lv, g1)
    → projection tcx true a.rv g1 ≡ ok (rv, g2)
    → rv ≢ lv
    → Root g2.alias_set rv lv
    → (h : SafeDropGraph) × (alias_assign fuel tcx bb_index a g ≡ ok (tt, h))
      × ((x : ℕ) → Root g2.alias_set x lv → union_find h.alias_set x ≡ stuck)
unfolding alias_assign union_find
alias_assign-cycle fuel tcx bb_index a g g1 g2 lv rv v left right apart back = (
  record g2 { alias_set = set g2.alias_set lv rv },
  rw (left, right, v, Root-self back) refl,
  λ x w. cycle g2.alias_set lv rv apart back (suc (length (set g2.alias_set lv rv))) x w,
)
