-- ===== src/DataFlow/Build.antt =====
-- The statements and the terminators of a body, written into its data-flow graph
-- (core/dataflow/graph.rs), and the graph of a whole body (core/dataflow.rs).
use package.rapx_log.Prelude.{
  ℕ, ◌+◌, ◌==◌, if◌then◌else◌, List, [], ◌∷◌, ◌++◌, Option, some, none, length, get_elem?, set,
  Outcome, ok, panic, ◌>>=◌, or_panic,
}
use package.rapx_log.DataFlow.Source.{
  Operand, copy, move, constant, BorrowKind, shared, mut_, fake, AggregateKind, array, tuple, adt,
  closure, coroutine, other_kind, Rvalue, use_, repeat, ref_, len, cast, binary_op, aggregate,
  unary_op, nullary_op, thread_local_ref, discriminant, shallow_init_box, copy_for_deref, raw_ptr,
  StatementKind, assign, other_statement, Statement, TerminatorKind, call, other_terminator,
  Terminator, BasicBlockData, Body,
}
use package.rapx_log.DataFlow.{
  array_agg, tuple_agg, adt_agg, closure_agg, coroutine_agg, NodeOp, nop_op, use_op, repeat_op,
  ref_op, len_op, cast_op, checked_binary_op, nullary_op_, unary_op_, discriminant_op, aggregate_op,
  shallow_init_box_op, copy_for_deref_op, raw_ptr_op, call_op, call_operand, EdgeOp, nop_edge,
  immut_edge, mut_edge, GraphNode, Graph, new_graph, update_node, add_const_edge, parse_place,
  add_place, add_operand, add_operands,
}

-- `nodes[dst].ops[seq] = op`.
unfoldable pub set_op : ℕ → ℕ → NodeOp → Graph → Outcome Graph
unfolding update_node
set_op dst seq op g = do
  v ← or_panic (get_elem? g.nodes dst)
  old ← or_panic (get_elem? v.ops seq)
  update_node dst (λ v. record v { ops = set v.ops seq op }) g

abbrev pub borrow_edge : BorrowKind → EdgeOp
borrow_edge shared = immut_edge
borrow_edge mut_ = mut_edge
borrow_edge fake = nop_edge

unfoldable pub set_aggregate : AggregateKind → ℕ → ℕ → Graph → Outcome Graph
set_aggregate array dst seq g = set_op dst seq (aggregate_op array_agg) g
set_aggregate tuple dst seq g = set_op dst seq (aggregate_op tuple_agg) g
set_aggregate (adt def_id) dst seq g = set_op dst seq (aggregate_op (adt_agg def_id)) g
set_aggregate (closure def_id) dst seq g = set_op dst seq (aggregate_op (closure_agg def_id)) g
set_aggregate (coroutine def_id) dst seq g = set_op dst seq (aggregate_op (coroutine_agg def_id)) g
set_aggregate other_kind dst seq g = panic

unfoldable pub add_rvalue : Rvalue → ℕ → ℕ → Graph → Outcome Graph
add_rvalue (use_ op) dst seq g = add_operand op dst g >>= set_op dst seq use_op
add_rvalue (repeat op) dst seq g = add_operand op dst g >>= set_op dst seq repeat_op
add_rvalue (ref_ borrow_kind place) dst seq g =
    add_place place dst (borrow_edge borrow_kind) g >>= set_op dst seq ref_op
add_rvalue (len place) dst seq g = add_place place dst nop_edge g >>= set_op dst seq len_op
add_rvalue (cast operand) dst seq g = add_operand operand dst g >>= set_op dst seq cast_op
add_rvalue (binary_op left right) dst seq g = do
  h ← add_operand left dst g
  k ← add_operand right dst h
  set_op dst seq checked_binary_op k
add_rvalue (aggregate kind operands) dst seq g =
    add_operands operands dst g >>= set_aggregate kind dst seq
add_rvalue (unary_op operand) dst seq g = add_operand operand dst g >>= set_op dst seq unary_op_
add_rvalue (nullary_op ty) dst seq g = do
  r ← add_const_edge ty dst nop_edge g
  set_op dst seq nullary_op_ r.1
add_rvalue thread_local_ref dst seq g = panic
add_rvalue (discriminant place) dst seq g =
    add_place place dst nop_edge g >>= set_op dst seq discriminant_op
add_rvalue (shallow_init_box operand) dst seq g =
    add_operand operand dst g >>= set_op dst seq shallow_init_box_op
add_rvalue (copy_for_deref place) dst seq g =
    add_place place dst nop_edge g >>= set_op dst seq copy_for_deref_op
add_rvalue (raw_ptr place) dst seq g = add_place place dst nop_edge g >>= set_op dst seq raw_ptr_op

-- `ops` gets one more `Nop` when its length is `seq`.
abbrev pub room_for : GraphNode → GraphNode
room_for v = record v { ops = if v.seq == length v.ops then v.ops ++ nop_op ∷ [] else v.ops }

unfoldable pub add_statm_to_graph : Statement → Graph → Outcome Graph
add_statm_to_graph statement g = by_kind statement.kind
  where
    by_kind : StatementKind → Outcome Graph
    by_kind other_statement = ok g
    by_kind (assign place rvalue) = do
      r ← parse_place place g
      g1 ← update_node r.0 (λ v. record v { span = statement.span }) r.1
      v ← or_panic (get_elem? g1.nodes r.0)
      g2 ← update_node r.0 room_for g1
      g3 ← add_rvalue rvalue r.0 v.seq g2
      update_node r.0 (λ w. record w { seq = v.seq + 1 }) g3

-- The edges and the operation of a call, by the operand that is called.
unfoldable pub add_call : Operand → List Operand → ℕ → ℕ → Graph → Outcome Graph
add_call (copy place) args dst seq g = panic
add_call (move place) args dst seq g = do
  h ← add_operand (move place) dst g
  k ← add_operands args dst h
  set_op dst seq call_operand k
add_call (constant c) args dst seq g = by_def c.fn_def
  where
    by_def : Option ℕ → Outcome Graph
    by_def none = ok g
    by_def (some def_id) = add_operands args dst g >>= set_op dst seq (call_op def_id)

unfoldable pub add_terminator_to_graph : Terminator → Graph → Outcome Graph
add_terminator_to_graph terminator g = by_kind terminator.kind
  where
    call_and_span : Operand → List Operand → ℕ → ℕ → Graph → Outcome Graph
    call_and_span func args dst seq h =
        add_call func args dst seq h >>= update_node dst (λ w. record w { span = terminator.span })

    by_kind : TerminatorKind → Outcome Graph
    by_kind other_terminator = ok g
    by_kind (call func args destination) = do
      let dst = destination.local
      v ← or_panic (get_elem? g.nodes dst)
      g1 ← update_node dst room_for g
      g2 ← call_and_span func args dst v.seq g1
      update_node dst (λ w. record w { seq = v.seq + 1 }) g2

unfoldable pub add_statements : List Statement → Graph → Outcome Graph
add_statements [] g = ok g
add_statements (statement ∷ statements) g = do
  h ← add_statm_to_graph statement g
  add_statements statements h

abbrev pub end_block : Option Terminator → Graph → Outcome Graph
end_block none g = ok g
end_block (some terminator) g = add_terminator_to_graph terminator g

unfoldable pub add_block : BasicBlockData → Graph → Outcome Graph
add_block block g = add_statements block.statements g >>= end_block block.terminator

unfoldable pub add_blocks : List BasicBlockData → Graph → Outcome Graph
add_blocks [] g = ok g
add_blocks (block ∷ blocks) g = do h ← add_block block g; add_blocks blocks h

unfoldable pub build_graph : ℕ → Body → Outcome Graph
build_graph def_id body =
    add_blocks body.basic_blocks (new_graph def_id body.span body.arg_count body.local_decls)
