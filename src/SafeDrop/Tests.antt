-- ===== src/SafeDrop/Tests.antt =====
-- Runs of the detector on small graphs.
use rapx_log.Prelude.{
  as_isize, length, ℕ, Outcome, zero, suc, ◌≤◌, ◌<◌, ◌≡◌, refl, none, ◌≢◌, ◌⊎◌, ◌↔◌, Bool, true,
  false, not, ◌==◌, some, List, [], ◌∷◌, get_elem?, contains, ok, stuck, negsuc, pos, arith,
}
use mathlib.Core.List.{Memᴰ}
use mathlib.Core.List.Memᴰ
use rapx_log.Mir.{raw_ptr, other_ty, Place, field, deref, TyCtxt, Body, move, use_, assign, return}
use rapx_log.SafeDrop.Types.{is_adt, is_raw_ptr, kind, is_not_drop}
use rapx_log.SafeDrop.UnionFind.{union_find, union_merge, union_is_same, union_has_alias}
use rapx_log.SafeDrop.UnionFind.Roots.{IsForest, Root, top, up, union_find-Root}
use rapx_log.SafeDrop.UnionFind.Merge.{Merges, union_merge-Merges, union_is_same-merge}
use rapx_log.SafeDrop.UnionFind.Alone.{union_has_alias-alone}
use rapx_log.SafeDrop.State.{
  ValueNode, dead, BlockNode, new_value, new_block, M, modify, is_ptr, moved, variant, Assignment,
  usize_max, no_bugs, SafeDropGraph,
}
use rapx_log.SafeDrop.Nodes.{projection, merge_alias, fill_birth}
use rapx_log.SafeDrop.Nodes.Aliases.{Safe, merge_alias-Safe}
use rapx_log.SafeDrop.Nodes.Births.{fill_birth-Safe}
use rapx_log.SafeDrop.Nodes.Projection.{IsSound, Finds, projection-Finds}
use rapx_log.SafeDrop.Build.{new}
use rapx_log.SafeDrop.Build.Walkable.{new-IsWalkable}
use rapx_log.SafeDrop.Component.{Work, work_loop}
use rapx_log.SafeDrop.Component.Walk.{work_loop-enough}
use rapx_log.SafeDrop.Check.{Choice, per_value}
use rapx_log.SafeDrop.CheckBugs.Drops.{Drops}
use rapx_log.SafeDrop.CheckBugs.DeadNode.{dead_node-Drops, dead_node-dies}
use rapx_log.SafeDrop.CheckBugs.{dead_node, is_dangling, uaf_check, get_field_seq}
use rapx_log.SafeDrop.CheckBugs.Edges.{IsWalkable, Hits}
use rapx_log.SafeDrop.CheckBugs.Dangling.{is_dangling-decides}
use rapx_log.SafeDrop.CheckBugs.Uaf.{uaf_check-reports}
use rapx_log.SafeDrop.CheckBugs.FieldSeq.{get_field_seq-one_level}
use rapx_log.SafeDrop.Transfer.{alias_assign}
use rapx_log.SafeDrop.Transfer.Variant.{alias_assign-cycle}

-- 0 and 1 in one set, 2 and 3 in another.
abbrev two_sets : List ℕ
two_sets = 0 ∷ 0 ∷ 2 ∷ 2 ∷ []

two_sets-IsForest : IsForest two_sets
two_sets-IsForest = record { descends = descends }
  where
    descends : (i p : ℕ) → get_elem? two_sets i ≡ some p → p ≤ i
    descends zero p e = ground arith
    descends (suc zero) p e = ground arith
    descends (suc (suc zero)) p e = ground arith
    descends (suc (suc (suc zero))) p e = ground arith
    descends (suc (suc (suc (suc i)))) p e = cc

at_0 : Root two_sets 0 0
at_0 = top refl

below_0 : Root two_sets 1 0
below_0 = up refl (λ e. omega (arith, e)) at_0

below_2 : Root two_sets 3 2
below_2 = up refl (λ e. omega (arith, e)) (top refl)

union_find-Root_example : (r : ℕ) × (union_find two_sets 3 ≡ ok r) × Root two_sets 3 r
union_find-Root_example = union_find-Root two_sets two_sets-IsForest 3 (omega arith)

abbrev Eq : ℕ → ℕ → Type 0
Eq a b = a ≡ b

union_merge-Merges_example :
    (b : List ℕ) × (union_merge two_sets 3 1 ≡ ok b) × Merges two_sets 3 1 b
union_merge-Merges_example =
    union_merge-Merges two_sets 3 1 two_sets-IsForest (omega arith) (omega arith)

merged : union_merge two_sets 3 1 ≡ ok (0 ∷ 0 ∷ 0 ∷ 0 ∷ [])
unfolding union_merge
merged = refl

union_is_same-merge_example :
    (union_is_same (0 ∷ 0 ∷ 0 ∷ 0 ∷ []) 1 3 ≡ ok true)
    ↔ (Eq 0 2 ⊎ (Eq 0 2 ⊎ Eq 0 0) × (Eq 2 2 ⊎ Eq 2 0))
union_is_same-merge_example =
    union_is_same-merge two_sets (0 ∷ 0 ∷ 0 ∷ 0 ∷ []) 3 1 1 3 2 0 0 2 two_sets-IsForest merged
      below_2 below_0 below_0 below_2

union_has_alias-alone_example :
    (b : Bool) × (union_has_alias two_sets 1 ≡ ok b)
    × ((b ≡ true) ↔ ((x : ℕ) × (r : ℕ) × (x ≢ 1) × Root two_sets 1 r × Root two_sets x r))
union_has_alias-alone_example = union_has_alias-alone two_sets 1 two_sets-IsForest (omega arith)

-- Four values: the second is dead, and an alias of the first.
abbrev node : ℕ → ValueNode
node i = new_value i i true true

abbrev dead_node_1 : ValueNode
dead_node_1 = record (node 1) { birth = negsuc 0 }

abbrev small : SafeDropGraph
small = record {
  def_id = 0;
  span = 0;
  values = node 0 ∷ dead_node_1 ∷ node 2 ∷ node 3 ∷ [];
  blocks = [];
  arg_size = 0;
  scc_indices = [];
  constants = [];
  return_set = [];
  bug_records = no_bugs;
  visit_times = 0;
  alias_set = two_sets;
  dead_record = false ∷ false ∷ false ∷ false ∷ [];
  adt_owner = [];
  child_scc = [];
}

small-IsWalkable : IsWalkable small
small-IsWalkable = record { size = refl; forest = two_sets-IsForest; fields = fields }
  where
    leaf :
        (i : ℕ) (v : ValueNode) (f : ℕ × ℕ) {w : ValueNode}
        → w.fields ≡ []
        → some w ≡ some v
        → Memᴰ f v.fields
        → f.1 < 4
    leaf i v f none_ e m =
        let none' : v.fields ≡ [] = ground arith in absurd (Memᴰ.not-nil (rw none' at m))

    fields :
        (i : ℕ) (v : ValueNode) (f : ℕ × ℕ)
        → get_elem? small.values i ≡ some v
        → Memᴰ f v.fields
        → f.1 < 4
    fields zero v f e m = leaf zero v f refl e m
    fields (suc zero) v f e m = leaf (suc zero) v f refl e m
    fields (suc (suc zero)) v f e m = leaf (suc (suc zero)) v f refl e m
    fields (suc (suc (suc zero))) v f e m = leaf (suc (suc (suc zero))) v f refl e m
    fields (suc (suc (suc (suc i)))) v f e m = cc

is_dangling-decides_example :
    (b : Bool) × (is_dangling small 0 ≡ ok b) × ((b ≡ true) ↔ Hits small (not (0 == 0)) 0)
is_dangling-decides_example = is_dangling-decides small 0 small-IsWalkable (omega arith)

uaf_check-reports_example :
    (bugs : List ℕ) × (uaf_check 0 77 2 false small
      ≡ ok (tt, record small { bug_records = record no_bugs { uaf_bugs = bugs } }))
    × ((x : ℕ)
        → (contains bugs x ≡ true) ↔ (
            (contains [] x ≡ true)
            ⊎ (x ≡ 77)
              × (true ≡ true)
              × ((is_ptr is_adt ≡ false) ⊎ ((¬ Eq 0 2) ⊎ (false ≡ true)))
              × Hits small false 0))
uaf_check-reports_example = uaf_check-reports small 0 77 2 false (node 0) small-IsWalkable refl

-- A field of a local.
abbrev field_node : ValueNode
field_node = record (node 1) { father = 0; field_id = 5 }

get_field_seq-one_level_example :
    ((node 0).field_id ≡ usize_max → get_field_seq 2 small field_node ≡ ok (5 ∷ []))
    × ((node 0).field_id ≢ usize_max → get_field_seq 0 small field_node ≡ stuck)
get_field_seq-one_level_example =
    get_field_seq-one_level 0 small field_node (node 0) refl (λ e. omega (arith, e))

abbrev no_types : TyCtxt
no_types = record {
  needs_drop = λ ty. false;
  is_mir_available = λ i. false;
  def_str = λ i. [];
  place_ty = λ p. (other_ty, none);
}

-- `_0 = discriminant(_1)`, where 1 is in the set of 0.
abbrev discriminant_of_1 : Assignment
discriminant_of_1 = record {
  lv = record { local = 0; projection = [] };
  rv = record { local = 1; projection = [] };
  atype = variant;
  span = 9;
}

alias_assign-cycle_example :
    (h : SafeDropGraph) × (alias_assign 3 no_types 0 discriminant_of_1 small ≡ ok (tt, h))
    × ((x : ℕ) → Root two_sets x 0 → union_find h.alias_set x ≡ stuck)
unfolding projection
alias_assign-cycle_example =
    alias_assign-cycle 3 no_types 0 discriminant_of_1 small small small 0 1 refl refl refl
      (λ e. omega (arith, e)) below_0

small-IsSound : IsSound small
small-IsSound = record { walk = small-IsWalkable; dead_size = refl }

-- A new field of value 1, through its alias 0.
abbrev a_field : Place
a_field = record { local = 1; projection = field 2 other_ty ∷ deref ∷ [] }

projection-Finds_example : Finds small (projection no_types true a_field small)
projection-Finds_example = projection-Finds no_types true a_field small small-IsSound (omega arith)

-- A body of two locals that moves the one into the other and returns.
abbrev whole : ℕ → Place
whole i = record { local = i; projection = [] }

abbrev one_move : Body
one_move = record {
  local_decls = raw_ptr ∷ raw_ptr ∷ [];
  arg_count = 1;
  basic_blocks =
      record {
        statements = record { kind = assign (whole 0) (use_ (move (whole 1))); span = 4 } ∷ [];
        terminator = some (record { kind = return; span = 5 });
        is_cleanup = false;
      }
      ∷ [];
  span = 1;
}

abbrev pointer_node : ℕ → ValueNode
pointer_node i = record (new_value i i false true) { kind = is_raw_ptr }

abbrev built : SafeDropGraph
built = record {
  def_id = 3;
  span = 1;
  values = pointer_node 0 ∷ pointer_node 1 ∷ [];
  blocks =
      record (new_block 0 false) {
        assignments = record { lv = whole 0; rv = whole 1; atype = moved; span = 4 } ∷ [];
        modified_value = 0 ∷ [];
      }
      ∷ [];
  arg_size = 1;
  scc_indices = 0 ∷ [];
  constants = [];
  return_set = [];
  bug_records = no_bugs;
  visit_times = 0;
  alias_set = 0 ∷ 1 ∷ [];
  dead_record = false ∷ false ∷ [];
  adt_owner = [];
  child_scc = [];
}

built_lem : new one_move no_types 3 [] ≡ ok built
unfolding new is_not_drop kind
built_lem = refl

new-IsWalkable_example :
    IsWalkable built
    × (length built.dead_record ≡ length built.values)
    × ((i : ℕ) → i < 2 → get_elem? built.alias_set i ≡ some i)
new-IsWalkable_example = new-IsWalkable one_move no_types 3 [] built built_lem

-- A visit that forgets all values.
abbrev forget : ℕ → M (Unit {0})
forget n = modify (λ (g : SafeDropGraph). record g { values = [] })

-- A switch with an arm for the value 1 and the default.
abbrev two_ways : Choice
two_ways = per_value 0 (record { targets = (1, 5) ∷ []; otherwise = 7 })

-- A drop of value 2 at birth 8, which reaches its alias 3.
dead_node-Drops_example : Drops 8 (dead_node 5 2 8 77 false) small
dead_node-Drops_example =
    dead_node-Drops 5 2 8 77 false small small-IsSound (omega arith) (omega arith)

merge_alias-Safe_example : Safe small (merge_alias 2 3 1 small)
merge_alias-Safe_example = merge_alias-Safe 2 3 1 small small-IsSound (omega arith) (omega arith)

fill_birth-Safe_example : Safe small (fill_birth 2 0 (pos 6) small)
fill_birth-Safe_example = fill_birth-Safe 2 0 (pos 6) small small-IsSound (omega arith)

-- A component of the blocks 1 and 2, which lead to each other and out of it to 5.
abbrev loop_block : ℕ → Outcome BlockNode
loop_block i = ok (record (new_block i false) { next = 1 ∷ 2 ∷ 5 ∷ [] })

work_loop-enough_example :
    (w : Work) × (work_loop 4 loop_block
        (record { targets = []; otherwise = 5 })
        5
        (1 ∷ 2 ∷ [])
        (record { work_list = 1 ∷ []; work_set = 1 ∷ []; sub_blocks = []; next = [] })
      ≡ ok w)
    × (w.work_list ≡ [])
work_loop-enough_example =
    work_loop-enough loop_block (1 ∷ 2 ∷ []) (λ i h. (_, refl))
      (record { targets = []; otherwise = 5 }) 5 1 [] []
      (record (new_block 1 false) { next = 1 ∷ 2 ∷ 5 ∷ [] }) refl

dead_node-dies_example :
    (h : SafeDropGraph) × (dead_node 5 2 8 77 false small ≡ ok (tt, h))
    × (get_elem? h.values 2 ≡ some (dead (node 2)))
unfolding as_isize
dead_node-dies_example =
    dead_node-dies 4 2 8 77 false small (node 2) small-IsSound (omega arith) refl refl refl refl
      refl refl
