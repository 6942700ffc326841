-- ===== src/SafeDrop/Check.antt =====
-- The walk over the paths of a function: `check`, `split_check` and `split_check_with_cond` of
-- safedrop/safedrop.rs. Each call counts a visit and returns at once beyond `visit_limit`, so the
-- recursion has that many levels and one more as its fuel.
pub mod Paths
use package.rapx_log.Prelude.{
  ℕ, zero, suc, ◌%◌, ◌^◌, ltb, ◌==◌, Bool, true, false, not, ◌&&◌, if◌then◌else◌, Option, none,
  some, List, [], ◌∷◌, ◌++◌, map, length, get, put, contains, insert, Outcome, ok, panic, stuck,
}
use package.rapx_log.Mir.{
  Place, Operand, copy, move, constant, Terminator, TerminatorKind, switch_int, SwitchTargets,
  TyCtxt,
}
use package.rapx_log.FnAlias.{FnMap}
use package.rapx_log.SafeDrop.Types.{should_check}
use package.rapx_log.SafeDrop.State.{
  BlockNode, ValueNode, usize_max, SafeDropGraph, M, ◌>>=◌, ◌>>◌, pure, skip, diverge, when, reads,
  modify, at, value_at, for_each,
}
use package.rapx_log.SafeDrop.Component.{
  all_targets, same_targets, switch_of, next_under, insert_all, Work, push_new, work_loop, leaving,
  walk_component,
}
use package.rapx_log.SafeDrop.Nodes.{projection}
use package.rapx_log.SafeDrop.CheckBugs.{dp_check}
use package.rapx_log.SafeDrop.Transfer.{alias_bb, alias_bbcall, drop_check}

abbrev pub visit_limit : ℕ
visit_limit = 1000

-- The effect of a block: its assignments, its calls and its drops.
abbrev pub block_effect : ℕ → TyCtxt → FnMap → ℕ → M (Unit {0})
block_effect fuel tcx fn_map bb =
    alias_bb fuel tcx bb >> (alias_bbcall fuel tcx fn_map bb >> drop_check fuel tcx bb)

-- Runs `m` on a copy of the state of the path.
unfoldable pub split : M (Unit {0}) → M (Unit {0})
split m g = elim (m g) [
  | ok (u, h) ↦ ok (
    tt,
    record h {
      values = g.values;
      constants = g.constants;
      alias_set = g.alias_set;
      dead_record = g.dead_record;
    },
  )
  | panic ↦ panic
  | stuck ↦ stuck
]

unfoldable pub split_check : (ℕ → M (Unit {0})) → ℕ → M (Unit {0})
unfolding split
split_check check bb_index = split (check bb_index)

unfoldable pub split_check_with_cond : (ℕ → M (Unit {0})) → ℕ → ℕ → ℕ → M (Unit {0})
unfolding split
split_check_with_cond check bb_index path_discr_id path_discr_val = split (
    modify (λ g. record g { constants = put g.constants path_discr_id path_discr_val })
    >> check bb_index)

abbrev pub leaf_check : TyCtxt → BlockNode → M (Unit {0})
leaf_check tcx cur_block =
    reads (λ g. ok g.def_id) >>= λ def_id. when (should_check tcx def_id) (dp_check cur_block)

-- The loop over the targets of the component's switch. A target from which no block leaves the
-- component ends the loop, with the state as it is then.
pub target_loop :
    (ℕ → M (Unit {0}))
    → ℕ
    → TyCtxt
    → FnMap
    → ℕ
    → ℕ
    → BlockNode
    → BlockNode
    → SwitchTargets
    → List ℕ
    → List ℕ
    → M (Unit {0})
unfolding alias_bb alias_bbcall drop_check for_each work_loop leaving
target_loop check fuel tcx fn_map bb init_index init_block cur_block cur_targets scc [] = skip
target_loop check fuel tcx fn_map bb init_index init_block cur_block cur_targets scc (e ∷ es) =
    let rest =
      target_loop check fuel tcx fn_map bb init_index init_block cur_block cur_targets scc es in
    reads (λ g. ok g) >>= λ backup.
    reads (λ g. walk_component g init_index init_block cur_targets scc bb e) >>= λ r.
    for_each (block_effect fuel tcx fn_map) r.0 >> elim r.1 [
      | [] ↦ leaf_check tcx cur_block
      | n ∷ ns ↦
          (for_each check (n ∷ ns)
            >> (modify (λ g. record g { values = backup.values; constants = backup.constants })
                >> rest))
    ]

-- How the paths go on behind a block with several successors.
pub data Choice : Type 0 where
  -- the only target that the known value of the switch leaves
  single : ℕ → Choice
  -- every target, with the value that it means for the discriminant
  per_value : ℕ → SwitchTargets → Choice
  -- every successor
  every : Choice

-- The value of an arm, a `u128`, `as usize`.
abbrev pub arm_value : ℕ → ℕ
arm_value n = n % 2 ^ 64

-- The target of a value: the first arm that has it, and else the default, as also for an arm whose
-- target is block 0.
abbrev pub target_of : SwitchTargets → ℕ → ℕ
target_of t val = by_arm (get (map (λ (arm : ℕ × ℕ). (arm_value arm.0, arm.1)) t.targets) val)
  where
    by_arm : Option ℕ → ℕ
    by_arm (some target) = if target == 0 then t.otherwise else target
    by_arm none = t.otherwise

pub choose : TyCtxt → BlockNode → M Choice
unfolding projection
choose tcx cur_block = by_switch cur_block.switch_stmts cur_block.scc_sub_blocks
  where
    by_place : SwitchTargets → ℕ → ValueNode → Option ℕ → Choice
    by_place targets place v (some val) = single (target_of targets val)
    by_place targets place v none =
        if not (v.index == place) then per_value v.index targets else every

    on_place : Place → SwitchTargets → M Choice
    on_place p targets = do
      place ← projection tcx false p
      v ← value_at place
      known ← reads (λ g. ok (get g.constants v.index))
      pure (by_place targets place v known)

    by_operand : Operand → SwitchTargets → M Choice
    by_operand (constant c) targets = pure (single (target_of targets (value c.target_usize)))
      where
        value : Option ℕ → ℕ
        value (some n) = n
        value none = 0
    by_operand (copy p) targets = on_place p targets
    by_operand (move p) targets = on_place p targets

    by_kind : TerminatorKind → M Choice
    by_kind (switch_int discr targets) = by_operand discr targets
    by_kind _ = pure every

    by_switch : List Terminator → List ℕ → M Choice
    by_switch (t ∷ _) [] = by_kind t.kind
    by_switch _ _ = pure every

-- Unless the limit is passed.
abbrev within_limit : M (Unit {0}) → M (Unit {0})
within_limit m = reads (λ g. ok g.visit_times) >>= λ n. when (not (ltb visit_limit n)) m

abbrev pub go_on : (ℕ → M (Unit {0})) → List ℕ → Choice → M (Unit {0})
go_on check nexts (single target) = check target
go_on check nexts (per_value id targets) =
    for_each
      (λ (arm : ℕ × ℕ). within_limit (split_check_with_cond check arm.1 id (arm_value arm.0)))
      targets.targets
    >> split_check_with_cond check targets.otherwise id usize_max
go_on check nexts every = for_each (λ n. within_limit (split_check check n)) nexts

-- What follows the effect of the block itself, where its component has no single switch.
pub follow : (ℕ → M (Unit {0})) → ℕ → TyCtxt → FnMap → BlockNode → M (Unit {0})
unfolding alias_bb alias_bbcall drop_check for_each choose split_check split_check_with_cond
follow check fuel tcx fn_map cur_block =
    for_each (block_effect fuel tcx fn_map) cur_block.scc_sub_blocks >> elim cur_block.next [
      | [] ↦ leaf_check tcx cur_block
      | n ∷ [] ↦ check n
      | n ∷ m ∷ ns ↦ (choose tcx cur_block >>= λ c. go_on check (n ∷ m ∷ ns) c)
    ]

unfoldable pub check : ℕ → ℕ → TyCtxt → FnMap → ℕ → M (Unit {0})
unfolding target_loop follow
check zero fuel tcx fn_map bb_index = diverge
check (suc visits) fuel tcx fn_map bb_index =
    modify (λ g. record g { visit_times = suc g.visit_times })
    >> within_limit (do
      scc ← reads (λ g. at g.scc_indices bb_index)
      cur_block ← reads (λ g. at g.blocks scc)
      block_effect fuel tcx fn_map scc
      child ← reads (λ g. ok (get g.child_scc scc))
      elim child [
        | some (init_block, cur_targets, scc_block_set) ↦
            target_loop (check visits fuel tcx fn_map) fuel tcx fn_map bb_index scc init_block
              cur_block cur_targets scc_block_set (all_targets cur_targets)
        | none ↦ follow (check visits fuel tcx fn_map) fuel tcx fn_map cur_block
      ])
