-- ===== src/Mop/Results.antt =====
-- The values of core/alias/mop/graph.rs, and `merge_results` and `get_field_seq` of
-- core/alias/mop/alias.rs. The record has the fields that these read or write. The loop of
-- `get_field_seq` has fuel.
pub mod Related
pub mod Adds
pub mod Complete
use package.rapx_log.Prelude.{
  ℕ, zero, suc, ◌+◌, ◌-◌, ◌==◌, leb, ◌&&◌, ◌||◌, not, Bool, true, false, if◌then◌else◌, List, [],
  ◌∷◌, ◌++◌, length, get_elem?, Outcome, ok, stuck, ◌>>=◌, or_panic,
}
use package.rapx_log.FnAlias.{RetAlias, new_alias, FnRetAlias, add_alias}
use package.rapx_log.SafeDrop.Types.{TyKind}
use package.rapx_log.SafeDrop.State.{usize_max}
use package.rapx_log.SafeDrop.UnionFind.{union_is_same}

pub record ValueNode : Type 0 where
  pub index : ℕ
  pub local : ℕ
  pub need_drop : Bool
  pub may_drop : Bool
  pub kind : TyKind
  pub father : ℕ
  pub field_id : ℕ
  pub fields : List (ℕ × ℕ)

pub record MopGraph : Type 0 where
  pub values : List ValueNode
  pub alias_set : List ℕ
  pub arg_size : ℕ
  pub ret_alias : FnRetAlias

unfoldable pub field_seq_loop : ℕ → List ValueNode → ℕ → ValueNode → List ℕ → Outcome (List ℕ)
field_seq_loop zero values father node seq = stuck
field_seq_loop (suc fuel) values father node seq =
    if node.field_id == usize_max
    then ok seq
    else (or_panic (get_elem? values father) >>= λ next.
        field_seq_loop fuel values father next (seq ++ node.field_id ∷ []))

unfoldable pub get_field_seq : ℕ → List ValueNode → ValueNode → Outcome (List ℕ)
get_field_seq fuel values value = field_seq_loop fuel values value.father value []

abbrev pub alias_of : ValueNode → ValueNode → List ℕ → List ℕ → RetAlias
alias_of left right left_seq right_seq =
    record (new_alias left.local left.may_drop left.need_drop right.local right.may_drop
      right.need_drop) { left_field_seq = left_seq; right_field_seq = right_seq }

-- The alias between the two nodes, entered.
unfoldable pub enter_alias :
    ℕ → List ValueNode → ValueNode → ValueNode → FnRetAlias → Outcome FnRetAlias
enter_alias fuel values left right s = do
  left_seq ← get_field_seq fuel values left
  right_seq ← get_field_seq fuel values right
  ok (add_alias s (alias_of left right left_seq right_seq))

-- The return value stands on the left.
unfoldable pub enter_pair :
    ℕ → List ValueNode → ValueNode → ValueNode → FnRetAlias → Outcome FnRetAlias
enter_pair fuel values node other s =
    if other.local == 0
    then enter_alias fuel values other node s
    else enter_alias fuel values node other s

abbrev pub is_wanted : MopGraph → ValueNode → ℕ → ValueNode → Bool
is_wanted g node idx other =
    leb other.local g.arg_size && (not (idx == node.index) && not (node.local == other.local))

abbrev pub if_wanted : Bool → Outcome FnRetAlias → FnRetAlias → Outcome FnRetAlias
if_wanted true run s = run
if_wanted false run s = ok s

-- One `idx` of the inner loop.
unfoldable pub visit_pair :
    ℕ → MopGraph → List ValueNode → ValueNode → ℕ → FnRetAlias → Outcome FnRetAlias
visit_pair fuel g results_nodes node idx s = do
  same ← union_is_same g.alias_set idx node.index
  by_same same
  where
    by_same : Bool → Outcome FnRetAlias
    by_same false = ok s
    by_same true = do
      other ← or_panic (get_elem? results_nodes idx)
      if_wanted (is_wanted g node idx other) (enter_pair fuel g.values node other s) s

-- The inner loop from `idx`, with `left` values to go.
unfoldable pub visit_pairs :
    ℕ → MopGraph → List ValueNode → ValueNode → ℕ → ℕ → FnRetAlias → Outcome FnRetAlias
visit_pairs fuel g results_nodes node idx zero s = ok s
visit_pairs fuel g results_nodes node idx (suc left) s = do
  s' ← visit_pair fuel g results_nodes node idx s
  visit_pairs fuel g results_nodes node (idx + 1) left s'

-- The condition on a node; `union_is_same` is asked first.
unfoldable pub is_aliased : MopGraph → ValueNode → Outcome Bool
is_aliased g node = do
  parent ← or_panic (get_elem? g.alias_set node.index)
  same ← union_is_same g.alias_set node.index parent
  ok (same || not (parent == node.index))

-- The condition of the outer loop.
unfoldable pub is_start : MopGraph → ValueNode → Bool → Outcome Bool
is_start g node true = is_aliased g node
is_start g node false = ok false

-- One node of the outer loop, and the nodes behind it. A graph of one value ends the loop.
abbrev pub after_start :
    Bool
    → Bool
    → Outcome FnRetAlias
    → (FnRetAlias → Outcome FnRetAlias)
    → FnRetAlias
    → Outcome FnRetAlias
after_start false single pairs rest s = rest s
after_start true true pairs rest s = ok s
after_start true false pairs rest s = pairs >>= rest

unfoldable pub visit_nodes :
    ℕ → MopGraph → List ValueNode → List ValueNode → FnRetAlias → Outcome FnRetAlias
visit_nodes fuel g results_nodes [] s = ok s
visit_nodes fuel g results_nodes (node ∷ nodes) s = do
  start ← is_start g node (leb node.local g.arg_size)
  after_start start (length g.values == 1)
      (visit_pairs fuel g results_nodes node 1 (length g.values - 1) s)
      (visit_nodes fuel g results_nodes nodes) s

unfoldable pub merge_results : ℕ → List ValueNode → MopGraph → Outcome MopGraph
merge_results fuel results_nodes g = do
  s ← visit_nodes fuel g results_nodes results_nodes g.ret_alias
  ok (record g { ret_alias = s })
