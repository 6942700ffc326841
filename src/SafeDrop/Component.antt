-- ===== src/SafeDrop/Component.antt =====
-- The walk through a component whose branches are all on one value, which `check` of
-- safedrop/safedrop.rs makes for each target of its switch.
pub mod Walk
use package.rapx_log.Prelude.{
  ℕ, zero, suc, ◌==◌, Bool, true, false, not, ◌&&◌, if◌then◌else◌, Option, none, some, List, [],
  ◌∷◌, ◌++◌, map, length, contains, insert, Outcome, ok, panic, stuck,
}
use package.rapx_log.Mir.{Terminator, TerminatorKind, switch_int, SwitchTargets}
use package.rapx_log.SafeDrop.State.{BlockNode, SafeDropGraph, at}

-- The default target is the last.
abbrev pub all_targets : SwitchTargets → List ℕ
all_targets t = map (λ (p : ℕ × ℕ). p.1) t.targets ++ t.otherwise ∷ []

abbrev pub same_arms : List (ℕ × ℕ) → List (ℕ × ℕ) → Bool
same_arms [] [] = true
same_arms ((a, b) ∷ xs) ((c, d) ∷ ys) = (a == c) && ((b == d) && same_arms xs ys)
same_arms _ _ = false

abbrev pub same_targets : SwitchTargets → SwitchTargets → Bool
same_targets s t = same_arms s.targets t.targets && (s.otherwise == t.otherwise)

-- The switch of a block, if it has one.
abbrev pub switch_of : BlockNode → Option SwitchTargets
switch_of b = first b.switch_stmts
  where
    targets_of : TerminatorKind → Option SwitchTargets
    targets_of (switch_int _ targets) = some targets
    targets_of _ = none

    first : List Terminator → Option SwitchTargets
    first [] = none
    first (t ∷ _) = targets_of t.kind

-- Where a block of the component leads when the switch on `cur_targets` takes `enum_index`.
abbrev pub next_under : SwitchTargets → ℕ → BlockNode → List ℕ
next_under cur_targets enum_index b = elim (switch_of b) [
  | none ↦ b.next
  | some targets ↦ (if same_targets cur_targets targets then enum_index ∷ [] else b.next)
]

abbrev pub insert_all : List ℕ → List ℕ → List ℕ
insert_all s [] = s
insert_all s (x ∷ xs) = insert_all (insert s x) xs

-- The work list (its head is popped first), the set of what was ever on it, the blocks visited, and
-- the successors found.
pub record Work : Type 0 where
  pub work_list : List ℕ
  pub work_set : List ℕ
  pub sub_blocks : List ℕ
  pub next : List ℕ

abbrev pub push_new : List ℕ → Work → List ℕ → Work
push_new scc_block_set w [] = w
push_new scc_block_set w (n ∷ ns) =
    push_new scc_block_set
      (if contains scc_block_set n && not (contains w.work_set n)
        then record w { work_list = n ∷ w.work_list; work_set = w.work_set ++ n ∷ [] }
        else w)
      ns

-- The `while` loop over the work list. Each block of the component enters it once, so one round for
-- each and one more are enough.
unfoldable pub work_loop :
    ℕ → (ℕ → Outcome BlockNode) → SwitchTargets → ℕ → List ℕ → Work → Outcome Work
work_loop zero node cur_targets enum_index scc_block_set w = stuck
work_loop (suc fuel) node cur_targets enum_index scc_block_set w = elim w.work_list [
  | [] ↦ ok w
  | current ∷ rest ↦ elim (node current) [
    | ok real_node ↦
        let nexts = next_under cur_targets enum_index real_node in
        work_loop fuel node cur_targets enum_index scc_block_set (
          push_new scc_block_set
            (record w {
              work_list = rest;
              sub_blocks = w.sub_blocks ++ current ∷ [];
              next = insert_all w.next nexts;
            })
            nexts)
    | panic ↦ panic
    | stuck ↦ stuck
  ]
]

-- The successors that leave the component.
unfoldable pub leaving : List ℕ → ℕ → List ℕ → Outcome (List ℕ)
leaving scc_indices init_index [] = ok []
leaving scc_indices init_index (i ∷ is) = elim (at scc_indices i) [
  | ok s ↦ elim (leaving scc_indices init_index is) [
    | ok rest ↦ ok (if s == init_index then rest else i ∷ rest)
    | panic ↦ panic
    | stuck ↦ stuck
  ]
  | panic ↦ panic
  | stuck ↦ stuck
]

-- The walk through a component whose branches are all on one value: the blocks visited when the
-- switch takes `enum_index`, and where they leave the component.
abbrev pub walk_component :
    SafeDropGraph → ℕ → BlockNode → SwitchTargets → List ℕ → ℕ → ℕ → Outcome (List ℕ × List ℕ)
walk_component g init_index init_block cur_targets scc_block_set bb_index enum_index =
    elim (node bb_index) [
      | ok block_node ↦ elim (run block_node) [
        | ok w ↦ elim (leaving g.scc_indices init_index w.next) [
          | ok next ↦ ok (w.sub_blocks, next)
          | panic ↦ panic
          | stuck ↦ stuck
        ]
        | panic ↦ panic
        | stuck ↦ stuck
      ]
      | panic ↦ panic
      | stuck ↦ stuck
    ]
  where
    node : ℕ → Outcome BlockNode
    node i = if i == init_index then ok init_block else at g.blocks i

    run : BlockNode → Outcome Work
    run block_node =
        work_loop (suc (suc (length scc_block_set))) node cur_targets enum_index scc_block_set
          (record {
            work_list = bb_index ∷ [];
            work_set = bb_index ∷ [];
            sub_blocks = block_node.scc_sub_blocks;
            next = next_under cur_targets enum_index block_node;
          })
