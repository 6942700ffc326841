-- ===== src/Mop/Tests.antt =====
-- The summary of a small graph.
use rapx_log.Prelude.{
  ℕ, zero, suc, ◌≤◌, ◌≡◌, refl, subst, ◌≢◌, ◌⊎◌, inl, true, false, some, some-inj, List, [], ◌∷◌,
  get_elem?, ok, arith,
}
use mathlib.Core.List.{Memᴰ}
use rapx_log.FnAlias.{RetAlias, FnRetAlias, new_alias, new_summary, add_alias}
use rapx_log.SafeDrop.Types.{is_raw_ptr}
use rapx_log.SafeDrop.State.{usize_max}
use rapx_log.SafeDrop.UnionFind.{union_find, union_is_same}
use rapx_log.SafeDrop.UnionFind.Roots.{IsForest, Root}
use rapx_log.Mop.Results.{
  ValueNode, MopGraph, field_seq_loop, get_field_seq, enter_alias, enter_pair, visit_pair,
  visit_pairs, is_aliased, is_start, visit_nodes, merge_results,
}
use rapx_log.Mop.Results.Related.{IsFlat, IsRelated, HasAlias}
use rapx_log.Mop.Results.Complete.{pair_alias, merge_results-IsRelated}

abbrev pointer : ℕ → ValueNode
pointer i = record {
  index = i;
  local = i;
  need_drop = false;
  may_drop = true;
  kind = is_raw_ptr;
  father = i;
  field_id = usize_max;
  fields = [];
}

-- The return value and the first of two arguments are in one set.
abbrev graph : MopGraph
graph = record {
  values = pointer 0 ∷ pointer 1 ∷ pointer 2 ∷ [];
  alias_set = 0 ∷ 0 ∷ 2 ∷ [];
  arg_size = 2;
  ret_alias = new_summary 2;
}

graph-IsForest : IsForest (0 ∷ 0 ∷ 2 ∷ [])
graph-IsForest = record { descends = descends }
  where
    descends : (i p : ℕ) → get_elem? (0 ∷ 0 ∷ 2 ∷ []) i ≡ some p → p ≤ i
    descends zero p e = ground arith
    descends (suc zero) p e = ground arith
    descends (suc (suc zero)) p e = ground arith
    descends (suc (suc (suc i))) p e = cc

pointer_at : (i : ℕ) (v : ValueNode) → get_elem? graph.values i ≡ some v → pointer i ≡ v
pointer_at zero v e = some-inj e
pointer_at (suc zero) v e = some-inj e
pointer_at (suc (suc zero)) v e = some-inj e
pointer_at (suc (suc (suc i))) v e = cc

graph-IsFlat : IsFlat graph
graph-IsFlat = record {
  forest = graph-IsForest;
  size = refl;
  index = λ i v at. subst (λ z. z.index ≡ i) (pointer_at i v at) refl;
  fathers = λ i v at. inl (subst (λ z. z.field_id ≡ usize_max) (pointer_at i v at) refl);
}

merged :
    merge_results 2 graph.values graph
    ≡ ok (record graph {
      ret_alias = record { arg_size = 2; alias_set = new_alias 0 true false 1 true false ∷ [] };
    })
unfolding merge_results visit_nodes is_start is_aliased visit_pairs visit_pair enter_pair
    enter_alias get_field_seq field_seq_loop union_is_same union_find add_alias
merged = refl

merge_results-IsRelated_example :
    (s : FnRetAlias) × (merge_results 2 (pointer 0 ∷ pointer 1 ∷ pointer 2 ∷ []) graph
      ≡ ok (record graph { ret_alias = s }))
    × ((a : RetAlias) → Memᴰ a s.alias_set → Memᴰ a [] ⊎ IsRelated graph a)
    × ((i j r : ℕ) (node other : ValueNode) (node_seq other_seq : List ℕ)
        → get_elem? graph.values i ≡ some node
        → get_elem? graph.values j ≡ some other
        → Root (0 ∷ 0 ∷ 2 ∷ []) i r
        → Root (0 ∷ 0 ∷ 2 ∷ []) j r
        → node.local ≤ 2
        → other.local ≤ 2
        → node.local ≢ other.local
        → 1 ≤ j
        → get_field_seq 2 graph.values node ≡ ok node_seq
        → get_field_seq 2 graph.values other ≡ ok other_seq
        → HasAlias (pair_alias node other node_seq other_seq) s)
merge_results-IsRelated_example = merge_results-IsRelated 0 graph graph-IsFlat
