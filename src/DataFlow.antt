-- ===== src/DataFlow.antt =====
-- The data-flow graph of core/dataflow/graph.rs: its nodes are the locals of a body and the markers
-- made for projections and constants, its edges say from which node a value flows into which. The
-- methods that change the graph take it last and return it behind their result.
pub mod Source
pub mod Build
pub mod Dfs
pub mod Flow
pub mod Ends
pub mod Deps
pub mod Collect
mod Tests
pub mod Sound
pub mod Edges
pub mod Invariant
pub mod Bodies
use package.rapx_log.Prelude.{
  ℕ, zero, suc, ◌+◌, ◌==◌, if◌then◌else◌, List, [], ◌∷◌, ◌++◌, some, none, length, get_elem?, set,
  Outcome, ok, panic, ◌>>=◌, or_panic,
}
use package.rapx_log.DataFlow.Source.{
  Str, PlaceElem, deref, field, downcast, index, constant_index, subslice, subtype, other_elem,
  Place, Operand, copy, move, constant,
}

pub data AggKind : Type 0 where
  array_agg tuple_agg : AggKind
  adt_agg closure_agg coroutine_agg : ℕ → AggKind

pub data NodeOp : Type 0 where
  nop_op err_op : NodeOp
  const_node : Str → NodeOp
  use_op repeat_op ref_op thread_local_ref_op address_of len_op cast_op binary_op checked_binary_op
        nullary_op_ unary_op_ discriminant_op :
      NodeOp
  aggregate_op : AggKind → NodeOp
  shallow_init_box_op copy_for_deref_op raw_ptr_op : NodeOp
  call_op : ℕ → NodeOp
  call_operand : NodeOp

pub data EdgeOp : Type 0 where
  nop_edge move_edge copy_edge const_edge immut_edge mut_edge deref_edge : EdgeOp
  field_edge downcast_edge : Str → EdgeOp
  index_edge const_index_edge sub_slice_edge sub_type_edge : EdgeOp

pub record GraphEdge : Type 0 where
  pub src : ℕ
  pub dst : ℕ
  pub op : EdgeOp
  pub seq : ℕ

pub record GraphNode : Type 0 where
  pub ops : List NodeOp
  pub span : ℕ
  pub seq : ℕ
  pub out_edges : List ℕ
  pub in_edges : List ℕ

abbrev pub dummy_sp : ℕ
dummy_sp = 0

unfoldable pub new_node : GraphNode
new_node = record { ops = nop_op ∷ []; span = dummy_sp; seq = 0; out_edges = []; in_edges = [] }

pub record Graph : Type 0 where
  pub def_id : ℕ
  pub span : ℕ
  pub argc : ℕ
  pub nodes : List GraphNode
  pub edges : List GraphEdge
  pub n_locals : ℕ

abbrev pub replicate : ℕ → GraphNode → List GraphNode
replicate zero v = []
replicate (suc n) v = v ∷ replicate n v

unfoldable pub new_graph : ℕ → ℕ → ℕ → ℕ → Graph
new_graph def_id span argc n_locals = record {
  def_id = def_id;
  span = span;
  argc = argc;
  nodes = replicate n_locals new_node;
  edges = [];
  n_locals = n_locals;
}

-- `nodes[i]`, written to.
unfoldable pub update_node : ℕ → (GraphNode → GraphNode) → Graph → Outcome Graph
update_node i f g = do
  v ← or_panic (get_elem? g.nodes i)
  ok (record g { nodes = set g.nodes i (f v) })

abbrev pub push_in : ℕ → GraphNode → GraphNode
push_in k v = record v { in_edges = v.in_edges ++ k ∷ [] }

abbrev pub push_out : ℕ → GraphNode → GraphNode
push_out k v = record v { out_edges = v.out_edges ++ k ∷ [] }

unfoldable pub push_node : GraphNode → Graph → Graph
push_node v g = record g { nodes = g.nodes ++ v ∷ [] }

unfoldable pub push_edge : GraphEdge → Graph → Graph
push_edge e g = record g { edges = g.edges ++ e ∷ [] }

unfoldable pub add_node_edge : ℕ → ℕ → EdgeOp → Graph → Outcome (ℕ × Graph)
add_node_edge src dst op g = do
  target ← or_panic (get_elem? g.nodes dst)
  let edge_idx = length g.edges
  let g1 = push_edge (record { src = src; dst = dst; op = op; seq = target.seq }) g
  g2 ← update_node dst (push_in edge_idx) g1
  g3 ← update_node src (push_out edge_idx) g2
  ok (edge_idx, g3)

-- The node of the constant gets no outgoing edge.
unfoldable pub add_const_edge : Str → ℕ → EdgeOp → Graph → Outcome (ℕ × Graph)
add_const_edge text dst op g = do
  target ← or_panic (get_elem? g.nodes dst)
  let g1 = push_node (record new_node { ops = const_node text ∷ [] }) g
  let edge_idx = length g.edges
  let g2 = push_edge (record { src = length g.nodes; dst = dst; op = op; seq = target.seq }) g1
  g3 ← update_node dst (push_in edge_idx) g2
  ok (edge_idx, g3)

-- The edges of one step of a place.
unfoldable pub step_edges : ℕ → ℕ → PlaceElem → Graph → Outcome (ℕ × Graph)
step_edges src dst deref g = add_node_edge src dst deref_edge g
step_edges src dst (field f) g = add_node_edge src dst (field_edge f) g
step_edges src dst (downcast none) g = panic
step_edges src dst (downcast (some symbol)) g = add_node_edge src dst (downcast_edge symbol) g
step_edges src dst (index idx) g = do
  r ← add_node_edge src dst index_edge g
  add_node_edge idx dst index_edge r.1
step_edges src dst constant_index g = add_node_edge src dst const_index_edge g
step_edges src dst subslice g = add_node_edge src dst sub_slice_edge g
step_edges src dst subtype g = add_node_edge src dst sub_type_edge g
step_edges src dst other_elem g = panic

unfoldable pub parse_one_step : ℕ → PlaceElem → Graph → Outcome (ℕ × Graph)
parse_one_step src place_elem g = do
  let dst = length g.nodes
  r ← step_edges src dst place_elem (push_node new_node g)
  ok (dst, r.1)

unfoldable pub parse_steps : ℕ → List PlaceElem → Graph → Outcome (ℕ × Graph)
parse_steps ret [] g = ok (ret, g)
parse_steps ret (place_elem ∷ projection) g = do
  r ← parse_one_step ret place_elem g
  parse_steps r.0 projection r.1

unfoldable pub parse_place : Place → Graph → Outcome (ℕ × Graph)
parse_place place g = parse_steps place.local place.projection g

-- An edge from a place.
unfoldable pub add_place : Place → ℕ → EdgeOp → Graph → Outcome Graph
add_place place dst op g = do r ← parse_place place g; s ← add_node_edge r.0 dst op r.1; ok s.1

unfoldable pub add_operand : Operand → ℕ → Graph → Outcome Graph
add_operand (copy place) dst g = add_place place dst copy_edge g
add_operand (move place) dst g = add_place place dst move_edge g
add_operand (constant c) dst g = do r ← add_const_edge c.text dst const_edge g; ok r.1

unfoldable pub add_operands : List Operand → ℕ → Graph → Outcome Graph
add_operands [] dst g = ok g
add_operands (operand ∷ operands) dst g = do
  h ← add_operand operand dst g
  add_operands operands dst h
