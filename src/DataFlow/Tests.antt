-- ===== src/DataFlow/Tests.antt =====
-- The data-flow graphs of small bodies.
use rapx_log.Prelude.{
  some-inj, ℕ, zero, suc, ◌≤◌, ◌<◌, ◌≡◌, refl, sym, subst, ◌∙◌, ◌↔◌, ◌⊎◌, Bool, true, false,
  if◌then◌else◌, ◌==◌, none, some, List, [], ◌∷◌, ◌++◌, length, get_elem?, ok, stuck, arith,
}
use mathlib.Core.List.Memᴰ
use rapx_log.DataFlow.Source.{Place, copy, constant, use_, binary_op, assign, Statement, Body}
use rapx_log.DataFlow.{
  nop_op, use_op, call_op, checked_binary_op, const_node, copy_edge, const_edge, GraphNode,
  GraphEdge, Graph, new_node, parse_place, parse_steps, update_node, new_graph, add_operand,
  add_place, add_node_edge, push_edge, add_const_edge, push_node,
}
use rapx_log.DataFlow.Build.{
  build_graph, add_blocks, add_block, add_statements, add_rvalue, set_op, add_statm_to_graph,
}
use rapx_log.DataFlow.Sound.{IsSound}
use rapx_log.DataFlow.Bodies.{IsCovered, build_graph-IsSound}
use rapx_log.DataFlow.Dfs.{
  downside, DfsStatus, status_and, equivalent_edge_validator, dfs, find_operator,
  always_true_edge_validator, find_equivalent_operator, is_connected, param_return_deps,
  collect_equivalent_locals, deps_from, descend, traverse, find_root_operator, reduce_ops,
  reduce_from,
}
use rapx_log.DataFlow.Flow.{Downward, Upward, Answers, is_connected-Flow}
use rapx_log.DataFlow.Ends.{Returns, IsRanked, dfs-Returns, is_connected-cycle}
use rapx_log.DataFlow.Deps.{Depends, param_return_deps-Depends}
use rapx_log.DataFlow.Collect.{find_equivalent_operator-collects}

abbrev at_local : ℕ → Place
at_local l = record { local = l; projection = [] }

abbrev body_of : ℕ → ℕ → List Statement → Body
body_of argc n statements = record {
  span = 0;
  arg_count = argc;
  local_decls = n;
  basic_blocks = record { statements = statements; terminator = none } ∷ [];
}

-- `_0 = copy _1`.
abbrev copy_body : Body
copy_body =
    body_of 1 2 (record { kind = assign (at_local 0) (use_ (copy (at_local 1))); span = 7 } ∷ [])

abbrev copy_graph : Graph
copy_graph = record {
  def_id = 4;
  span = 0;
  argc = 1;
  nodes =
      record { ops = use_op ∷ []; span = 7; seq = 1; out_edges = []; in_edges = 0 ∷ [] }
      ∷ record { ops = nop_op ∷ []; span = 0; seq = 0; out_edges = 0 ∷ []; in_edges = [] }
      ∷ [];
  edges = record { src = 1; dst = 0; op = copy_edge; seq = 0 } ∷ [];
  n_locals = 2;
}

copy_built : build_graph 4 copy_body ≡ ok copy_graph
unfolding build_graph add_blocks add_block add_statements add_statm_to_graph parse_place parse_steps
    update_node new_graph add_rvalue add_operand add_place add_node_edge push_edge set_op new_node
copy_built = refl

copy-IsCovered : IsCovered copy_body
copy-IsCovered = (
  (
    (
      (
        record { local = omega arith; projection = tt },
        record { local = omega arith; projection = tt },
      ),
      tt,
    ),
    tt,
  ),
  tt,
)

ok-inj : {g h : Graph} → ok g ≡ ok h → g ≡ h
ok-inj e = cc

copy-IsSound : IsSound copy_graph
copy-IsSound =
    let (g, run, sound, le) = copy_run in subst IsSound (ok-inj (sym run ∙ copy_built)) sound
  where
    copy_run : (g : Graph) × (build_graph 4 copy_body ≡ ok g) × IsSound g × (2 ≤ length g.nodes)
    copy_run = build_graph-IsSound 4 copy_body copy-IsCovered

abbrev copy_rank : ℕ → ℕ
copy_rank x = if x == 1 then 0 else 1

copy-IsRanked : IsRanked copy_graph 1 copy_rank
copy-IsRanked = record { climbs = climbs; bounded = λ x. ground arith }
  where
    climbs :
        (k : ℕ) (e : GraphEdge)
        → get_elem? copy_graph.edges k ≡ some e
        → copy_rank e.src < copy_rank e.dst
    climbs zero e h = subst (λ f. copy_rank f.src < copy_rank f.dst) (some-inj h) (omega arith)
    climbs (suc k) e h = cc

is_connected-Flow_example :
    Answers (is_connected 5 copy_graph 0 1) (Downward copy_graph 0 1 ⊎ Upward copy_graph 0 1)
is_connected-Flow_example = is_connected-Flow 5 copy_graph 0 1 copy-IsSound (omega arith)

param_return_deps-Depends_example :
    (deps : List Bool) × (param_return_deps 2 copy_graph ≡ ok deps)
    × (length deps ≡ 2)
    × ((i : ℕ) (b : Bool) → get_elem? deps i ≡ some b → (b ≡ true) ↔ Depends copy_graph i)
param_return_deps-Depends_example =
    param_return_deps-Depends copy_graph 1 copy_rank 2 copy-IsSound copy-IsRanked (omega arith)
      (omega arith)

dfs-Returns_example :
    Returns (dfs 2 copy_graph (find_operator 0) always_true_edge_validator false downside 1 false)
unfolding find_operator always_true_edge_validator
dfs-Returns_example =
    dfs-Returns copy_graph 1 copy_rank (find_operator 0) always_true_edge_validator false downside 2
      1 false copy-IsSound copy-IsRanked (λ x s e. cc) (λ k e. cc) tt (omega arith)

copy_deps : param_return_deps 2 copy_graph ≡ ok (true ∷ true ∷ [])
unfolding param_return_deps deps_from is_connected dfs find_operator descend traverse
    always_true_edge_validator
copy_deps = refl

copy_collected : collect_equivalent_locals 3 copy_graph 0 true ≡ ok (1 ∷ 0 ∷ [])
unfolding collect_equivalent_locals dfs find_root_operator find_equivalent_operator reduce_ops
    reduce_from descend traverse equivalent_edge_validator
copy_collected = refl

-- `_1 = _1 + 1`.
abbrev counter_body : Body
counter_body = body_of 0 2 (
    record {
      kind =
          assign (at_local 1)
            (binary_op (copy (at_local 1)) (constant (record { text = 49 ∷ []; fn_def = none })));
      span = 5;
    }
    ∷ [])

abbrev counter_node : GraphNode
counter_node = record {
  ops = checked_binary_op ∷ [];
  span = 5;
  seq = 1;
  out_edges = 0 ∷ [];
  in_edges = 0 ∷ 1 ∷ [];
}

abbrev counter_edge : GraphEdge
counter_edge = record { src = 1; dst = 1; op = copy_edge; seq = 0 }

abbrev counter_graph : Graph
counter_graph = record {
  def_id = 4;
  span = 0;
  argc = 0;
  nodes =
      record { ops = nop_op ∷ []; span = 0; seq = 0; out_edges = []; in_edges = [] }
      ∷ counter_node
      ∷ record { ops = const_node (49 ∷ []) ∷ []; span = 0; seq = 0; out_edges = []; in_edges = [] }
      ∷ [];
  edges = counter_edge ∷ record { src = 2; dst = 1; op = const_edge; seq = 0 } ∷ [];
  n_locals = 2;
}

counter_built : build_graph 4 counter_body ≡ ok counter_graph
unfolding build_graph add_blocks add_block add_statements add_statm_to_graph parse_place parse_steps
    update_node new_graph add_rvalue add_operand add_place add_node_edge push_edge set_op new_node
    add_const_edge push_node
counter_built = refl

is_connected-cycle_example : is_connected 9 counter_graph 1 0 ≡ stuck
is_connected-cycle_example =
    is_connected-cycle counter_graph 1 0 0 counter_node counter_edge [] 9 refl refl refl refl
      (λ e. omega (arith, e))

-- `_1` is assigned a copy and then the result of a call.
abbrev two_ops : Graph
two_ops = record counter_graph {
  nodes = record counter_node { ops = use_op ∷ call_op 3 ∷ []; seq = 2 } ∷ [];
}

find_equivalent_operator-collects_example :
    (status : DfsStatus) × (find_equivalent_operator status_and two_ops 0 []
      ≡ ok (status, [] ++ 0 ∷ []))
find_equivalent_operator-collects_example =
    find_equivalent_operator-collects status_and 0 two_ops
      (record counter_node { ops = use_op ∷ call_op 3 ∷ []; seq = 2 }) use_op [] refl refl
      (Memᴰ.head refl) refl
