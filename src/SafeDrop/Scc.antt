-- ===== src/SafeDrop/Scc.antt =====
-- Strongly connected components and paths: `tarjan`, `solve_scc`, `dfs_on_spanning_tree`,
-- `get_paths` and `switch_target` of safedrop/graph.rs.
use Prim.Native.Nat.{min}
use package.rapx_log.Prelude.{
  ℕ, zero, suc, ◌+◌, ◌==◌, false, if◌then◌else◌, Option, none, some, List, [], ◌∷◌, ◌++◌, set, put,
  contains, insert, Outcome, ok, panic, stuck,
}
use mathlib.Core.List.{reverse}
use package.rapx_log.Mir.{
  Operand, copy, move, constant, TerminatorKind, switch_int, Terminator, SwitchTargets, TyCtxt,
}
use package.rapx_log.SafeDrop.State.{
  BlockNode, SafeDropGraph, M, ◌>>=◌, ◌>>◌, pure, skip, diverge, reads, modify, at,
}
use package.rapx_log.SafeDrop.Nodes.{projection}
use package.rapx_log.SafeDrop.Component.{insert_all, leaving}

-- The vectors and sets of the search. The head of `stack` is its top.
pub record Tarjan : Type 0 where
  pub stack : List ℕ
  pub instack : List ℕ
  pub dfn : List ℕ
  pub low : List ℕ
  pub time : ℕ

abbrev update_block : ℕ → (BlockNode → BlockNode) → M (Unit {0})
update_block i f =
    reads (λ g. at g.blocks i) >>= λ b. modify (λ g. record g { blocks = set g.blocks i (f b) })

-- The value that the block's switch is on.
unfoldable pub switch_target : TyCtxt → ℕ → M (Option ℕ)
unfolding projection
switch_target tcx block_index = do
  block ← reads (λ g. at g.blocks block_index)
  by_switch block.switch_stmts
  where
    by_operand : Operand → M (Option ℕ)
    by_operand (copy p) = projection tcx false p >>= λ place. pure (some place)
    by_operand (move p) = projection tcx false p >>= λ place. pure (some place)
    by_operand (constant _) = pure none

    by_kind : TerminatorKind → M (Option ℕ)
    by_kind (switch_int discr _) = by_operand discr
    by_kind _ = pure none

    by_switch : List Terminator → M (Option ℕ)
    by_switch [] = pure none
    by_switch (t ∷ _) = by_kind t.kind

abbrev remove : List ℕ → ℕ → List ℕ
remove [] k = []
remove (x ∷ xs) k = if x == k then remove xs k else x ∷ remove xs k

-- What popping a component collects.
pub record Popped : Type 0 where
  pub state : Tarjan
  pub modified_set : List ℕ
  pub switch_targets : List (ℕ × Terminator)
  pub scc_block_set : List ℕ

-- The first switch of the component's root, under the value that a block of it switches on.
abbrev switch_entry : BlockNode → Option ℕ → List (ℕ × Terminator)
switch_entry root (some target) = first root.switch_stmts
  where
    first : List Terminator → List (ℕ × Terminator)
    first [] = []
    first (t ∷ _) = (target, t) ∷ []
switch_entry root none = []

-- The `loop` that pops the component of `index` off the stack.
pub pop_component : TyCtxt → ℕ → List ℕ → Popped → M Popped
unfolding switch_target
pop_component tcx index [] p = λ g. panic
pop_component tcx index (node ∷ stack) p = reads (λ g. at g.scc_indices node) >>= λ _.
    modify (λ g. record g { scc_indices = set g.scc_indices node index })
    >> (let s : Tarjan = record p.state { stack = stack; instack = remove p.state.instack node } in
        let rest = λ (q : Popped). pop_component tcx index stack q in
        if index == node then pure (record p { state = s }) else (do
          update_block index (λ b. record b { scc_sub_blocks = b.scc_sub_blocks ++ node ∷ [] })
          root ← reads (λ g. at g.blocks index)
          target ← switch_target tcx node
          sub ← reads (λ g. at g.blocks node)
          update_block index (λ b. record b { next = insert_all b.next sub.next })
          rest (record {
            state = s;
            modified_set = insert_all p.modified_set root.modified_value;
            switch_targets = p.switch_targets ++ switch_entry root target;
            scc_block_set = insert p.scc_block_set node;
          })))

abbrev keep_unmodified : List ℕ → List (ℕ × Terminator) → List (ℕ × Terminator)
keep_unmodified modified [] = []
keep_unmodified modified ((v, t) ∷ rest) =
    if contains modified v
    then keep_unmodified modified rest
    else (v, t) ∷ keep_unmodified modified rest

-- A component whose branches are all on one value that it does not modify keeps its first block,
-- the switch's targets and its blocks.
abbrev child_entry :
    BlockNode → List ℕ → List (ℕ × Terminator) → Option (BlockNode × SwitchTargets × List ℕ)
child_entry init_block scc ((v, t) ∷ []) = by_kind t.kind
  where
    by_kind : TerminatorKind → Option (BlockNode × SwitchTargets × List ℕ)
    by_kind (switch_int _ targets) = some (init_block, targets, scc)
    by_kind _ = none
child_entry init_block scc _ = none

pub close_component : TyCtxt → ℕ → Tarjan → M Tarjan
unfolding pop_component leaving
close_component tcx index t = do
  init_block ← reads (λ g. at g.blocks index)
  p ←
      pop_component tcx index t.stack
        (record { state = t; modified_set = []; switch_targets = []; scc_block_set = [] })
  elim (child_entry init_block p.scc_block_set (keep_unmodified p.modified_set p.switch_targets)) [
    | none ↦ skip
    | some entry ↦ modify (λ g. record g { child_scc = put g.child_scc index entry })
  ]
  root ← reads (λ g. at g.blocks index)
  next ← reads (λ g. leaving g.scc_indices index root.next)
  update_block index (λ b. record b { next = next; scc_sub_blocks = reverse b.scc_sub_blocks })
  pure p.state

-- The loop over the successors; `rec` visits one that has no number yet.
pub visit_targets : (ℕ → Tarjan → M Tarjan) → ℕ → List ℕ → Tarjan → M Tarjan
visit_targets rec index [] t = pure t
visit_targets rec index (target ∷ targets) t = reads (λ g. at t.dfn target) >>= λ d.
    (if d == 0
      then (do
        u ← rec target t
        low_index ← reads (λ g. at u.low index)
        low_target ← reads (λ g. at u.low target)
        pure (record u { low = set u.low index (min low_index low_target) }))
      else (if contains t.instack target
          then (do
            low_index ← reads (λ g. at t.low index)
            pure (record t { low = set t.low index (min low_index d) }))
          else pure t))
    >>= λ u. visit_targets rec index targets u

pub tarjan : ℕ → TyCtxt → ℕ → Tarjan → M Tarjan
unfolding visit_targets close_component
tarjan zero tcx index t = diverge
tarjan (suc fuel) tcx index t = do
  _ ← reads (λ g. at t.dfn index)
  block ← reads (λ g. at g.blocks index)
  u ← visit_targets (tarjan fuel tcx) index block.next (record {
    stack = index ∷ t.stack;
    instack = insert t.instack index;
    dfn = set t.dfn index t.time;
    low = set t.low index t.time;
    time = t.time + 1;
  })
  d ← reads (λ g. at u.dfn index)
  l ← reads (λ g. at u.low index)
  if d == l then close_component tcx index u else pure u

abbrev zeros : List BlockNode → List ℕ
zeros [] = []
zeros (_ ∷ bs) = 0 ∷ zeros bs

-- A visit from a visit has a block that had no number, or block 0 with its number 0.
unfoldable pub solve_scc : ℕ → TyCtxt → M (Unit {0})
unfolding tarjan
solve_scc fuel tcx = do
  blocks ← reads (λ g. ok g.blocks)
  _ ←
      tarjan fuel tcx 0
        (record { stack = []; instack = []; dfn = zeros blocks; low = zeros blocks; time = 0 })
  skip

-- The stack of the walk (its last element is its top) and the paths found.
abbrev pub Walk : Type 0
Walk = List ℕ × List (List ℕ)

abbrev drop_last : List ℕ → List ℕ
drop_last [] = []
drop_last (x ∷ []) = []
drop_last (x ∷ y ∷ xs) = x ∷ drop_last (y ∷ xs)

pub walk_children : (ℕ → Walk → Outcome Walk) → List ℕ → Walk → Outcome Walk
walk_children rec [] w = ok w
walk_children rec (child ∷ children) (stack, paths) =
    elim (rec child (stack ++ child ∷ [], paths)) [
      | ok w ↦ walk_children rec children w
      | panic ↦ panic
      | stuck ↦ stuck
    ]

-- The stack as it stands is a path at a block without successors.
pub walk_block : (ℕ → Walk → Outcome Walk) → List ℕ → Walk → Outcome Walk
unfolding walk_children
walk_block rec [] (stack, paths) = ok (stack, paths ++ stack ∷ [])
walk_block rec (n ∷ ns) w = walk_children rec (n ∷ ns) w

pub dfs_on_spanning_tree : ℕ → SafeDropGraph → ℕ → Walk → Outcome Walk
unfolding walk_block
dfs_on_spanning_tree zero g index w = stuck
dfs_on_spanning_tree (suc fuel) g index w = elim (at g.scc_indices index) [
  | ok scc ↦ elim (at g.blocks scc) [
    | ok block ↦ elim (walk_block (dfs_on_spanning_tree fuel g) block.next w) [
      | ok (s, ps) ↦ ok (drop_last s, ps)
      | panic ↦ panic
      | stuck ↦ stuck
    ]
    | panic ↦ panic
    | stuck ↦ stuck
  ]
  | panic ↦ panic
  | stuck ↦ stuck
]

unfoldable pub get_paths : ℕ → SafeDropGraph → Outcome (List (List ℕ))
unfolding dfs_on_spanning_tree
get_paths fuel g = elim (dfs_on_spanning_tree fuel g 0 (0 ∷ [], [])) [
  | ok (stack, paths) ↦ ok paths
  | panic ↦ panic
  | stuck ↦ stuck
]
