-- ===== src/SafeDrop/Nodes.antt =====
-- Nodes and their fields: the part of safedrop/alias.rs that grows the graph. Recursion over fields
-- takes fuel; `stuck` is a recursion that is deeper.
pub mod Projection
pub mod Aliases
pub mod Births
use package.rapx_log.Prelude.{
  ℕ, zero, suc, ◌+◌, ℤ, pos_part, neg_part, ◌==◌, ltb, leb, Bool, true, false, not, ◌&&◌, ◌||◌,
  if◌then◌else◌, Option, none, some, List, [], ◌∷◌, length, get, put, ok,
}
use package.rapx_log.Mir.{Ty, ProjectionElem, deref, field, other_elem, Place, TyCtxt}
use package.rapx_log.FnAlias.{RetAlias}
use package.rapx_log.SafeDrop.UnionFind.{union_merge, union_is_same}
use package.rapx_log.SafeDrop.Types.{is_raw_ptr, kind, is_not_drop}
use package.rapx_log.SafeDrop.State.{
  ValueNode, new_value, M, ◌>>=◌, ◌>>◌, pure, skip, diverge, when, reads, modify, at, value_at,
  update_value, push_value, for_each,
}

-- The field of `id` at `idx`: its node, or the new node that `make` gives, with `entry` as its
-- entry in the alias set.
pub field_or_new : ℕ → ℕ → M ValueNode → ℕ → M ℕ
field_or_new id idx make entry = value_at id >>= λ v. by_field (get v.fields idx)
  where
    by_field : Option ℕ → M ℕ
    by_field (some j) = pure j
    by_field none = do
      node ← make
      update_value id (λ w. record w { fields = put w.fields idx node.index })
      push_value entry node
      pure node.index

-- The node of a field of `id` that a projection creates.
abbrev pub projected : TyCtxt → ℕ → ℕ → Ty → ValueNode → ℕ → ValueNode
projected tcx new_id local ty parent idx =
    let need_drop = tcx.needs_drop ty in
    record (new_value new_id local need_drop (need_drop || not (is_not_drop ty))) {
      kind = kind ty;
      birth = parent.birth;
      field_id = idx;
    }

-- On the right of an assignment a value that is not its own alias is replaced by its alias.
pub head_alias : Bool → ℕ → ℕ → M (ℕ × ℕ)
head_alias false local proj_id = pure (local, proj_id)
head_alias true local proj_id = do
  a ← reads (λ g. at g.alias_set proj_id)
  if a == proj_id then pure (local, proj_id) else (do v ← value_at a; pure (v.local, a))

pub project : TyCtxt → Bool → ℕ → ℕ → List ProjectionElem → M ℕ
unfolding field_or_new head_alias
project tcx is_right local proj_id [] = pure proj_id
project tcx is_right local proj_id (deref ∷ ps) = do
  a ← reads (λ g. at g.alias_set proj_id)
  project tcx is_right local a ps
project tcx is_right local proj_id (field idx ty ∷ ps) = do
  (local', id) ← head_alias is_right local proj_id
  parent ← value_at id
  new_id ← reads (λ g. ok (length g.values))
  entry ← reads (λ g. ok (length g.alias_set))
  j ← field_or_new id idx (pure (projected tcx new_id local' ty parent idx)) entry
  project tcx is_right local' j ps
project tcx is_right local proj_id (other_elem ∷ ps) = project tcx is_right local proj_id ps

unfoldable pub projection : TyCtxt → Bool → Place → M ℕ
unfolding project
projection tcx is_right place = project tcx is_right place.local place.local place.projection

-- `self.values[i].birth == -1`.
abbrev pub is_minus_one : ℤ → Bool
is_minus_one b = pos_part b + 1 == neg_part b

-- The loop of `fill_birth` over all values from `i`, with `left` to go.
pub fill_aliases : ℕ → ℕ → ℕ → ℤ → M (Unit {0})
fill_aliases zero i node birth = skip
fill_aliases (suc left) i node birth = do
  same ← reads (λ g. union_is_same g.alias_set i node)
  v ← value_at i
  when (same && is_minus_one v.birth) (update_value i (λ w. record w { birth = birth }))
  fill_aliases left (i + 1) node birth

unfoldable pub fill_birth : ℕ → ℕ → ℤ → M (Unit {0})
unfolding fill_aliases for_each
fill_birth zero node birth = diverge
fill_birth (suc fuel) node birth =
    update_value node (λ w. record w { birth = birth })
    >> (reads (λ g. ok (length g.values)) >>= λ n. fill_aliases n 0 node birth)
    >> (value_at node >>= λ v. for_each (λ (f : ℕ × ℕ). fill_birth fuel f.1 birth) v.fields)

-- The node that the left node `l` gets for a field `r` of the right one.
abbrev pub copied_node : ℕ → ValueNode → ValueNode → ℕ → ValueNode
copied_node new_id l r idx = record (new_value new_id l.local r.need_drop r.may_drop) {
  kind = r.kind;
  birth = l.birth;
  field_id = idx;
}

-- A field of the right node, in the loop of `merge_alias`: the left node gets the same field if it
-- has none, and the two are merged by `rec`.
pub merge_field : (ℕ → ℕ → M (Unit {0})) → ℕ → ℕ × ℕ → M (Unit {0})
unfolding field_or_new
merge_field rec lv (idx, right) = do
  l ← value_at lv
  new_id ← reads (λ g. ok (length g.values))
  entry ← reads (λ g. ok (length g.alias_set))
  lv_field ← field_or_new lv idx (value_at right >>= λ r. pure (copied_node new_id l r idx)) entry
  rec lv_field right

unfoldable pub merge_alias : ℕ → ℕ → ℕ → M (Unit {0})
unfolding merge_field for_each
merge_alias zero lv rv = diverge
merge_alias (suc fuel) lv rv =
    reads (λ g. ok (ltb (length g.values) lv || ltb (length g.values) rv)) >>= λ outside.
    if outside
    then skip
    else (reads (λ g. union_merge g.alias_set lv rv) >>= λ merged.
        modify (λ g. record g { alias_set = merged })
        >> (value_at rv >>= λ v. for_each (merge_field (merge_alias fuel) lv) v.fields))

-- The node of a field that a summary names and the graph lacks.
abbrev pub summary_node : ℕ → ℕ → Bool → Bool → ValueNode → ℕ → ValueNode
summary_node new_id local need_drop may_drop parent idx =
    record (new_value new_id local need_drop may_drop) {
      kind = is_raw_ptr;
      birth = parent.birth;
      field_id = idx;
    }

pub follow_left : RetAlias → ℕ → ℕ → List ℕ → M ℕ
unfolding field_or_new
follow_left a left_init lv [] = pure lv
follow_left a left_init lv (idx ∷ rest) = do
  parent ← value_at lv
  new_id ← reads (λ g. ok (length g.values))
  entry ← reads (λ g. ok (length g.alias_set))
  j ←
      field_or_new lv idx
        (pure (summary_node new_id left_init a.left_need_drop a.left_may_drop parent idx)) entry
  follow_left a left_init j rest

-- The source takes the new node's index from the alias set and its alias from the values.
pub follow_right : RetAlias → ℕ → ℕ → List ℕ → M ℕ
unfolding field_or_new
follow_right a right_init rv [] = pure rv
follow_right a right_init rv (idx ∷ rest) = do
  p ← reads (λ g. at g.alias_set rv)
  same ← reads (λ g. union_is_same g.alias_set rv p)
  v ← value_at rv
  w ← value_at (if same then v.index else rv)
  let rv' = if same then v.index else rv
  let right_init' = if same then w.local else right_init
  new_id ← reads (λ g. ok (length g.alias_set))
  entry ← reads (λ g. ok (length g.values))
  j ←
      field_or_new rv' idx
        (pure (summary_node new_id right_init' a.right_need_drop a.right_may_drop w idx)) entry
  follow_right a right_init' j rest

-- An index beyond the arguments is reported and ignored.
unfoldable pub merge : ℕ → RetAlias → List ℕ → M (Unit {0})
unfolding follow_left follow_right merge_alias
merge fuel a arg_vec =
    if leb (length arg_vec) a.left_index || leb (length arg_vec) a.right_index then skip else (do
      left_init ← reads (λ g. at arg_vec a.left_index)
      right_init ← reads (λ g. at arg_vec a.right_index)
      lv ← follow_left a left_init left_init a.left_field_seq
      rv ← follow_right a right_init right_init a.right_field_seq
      merge_alias fuel lv rv)
