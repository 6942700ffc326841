-- ===== src/DataFlow/Dfs.antt =====
-- The traversal of a data-flow graph and the questions it answers (core/dataflow/graph.rs). The
-- operator of a traversal is a closure that writes to variables around it: they are a state, passed
-- through. No edge validator of the source keeps one. The traversal marks no node as
-- visited: the fuel is the depth of its recursion.
use package.rapx_log.Prelude.{
  ℕ, zero, suc, ◌+◌, ◌==◌, if◌then◌else◌, Bool, true, false, List, [], ◌∷◌, Option, none, some,
  get_elem?, contains, insert, Outcome, ok, panic, stuck, ◌>>=◌, or_panic,
}
use package.rapx_log.DataFlow.{
  NodeOp, nop_op, use_op, ref_op, EdgeOp, copy_edge, move_edge, mut_edge, immut_edge, GraphEdge,
  GraphNode, Graph,
}

pub data Direction : Type 0 where
  upside downside both : Direction

pub data DfsStatus : Type 0 where
  continue stop : DfsStatus

abbrev pub status_and : DfsStatus → DfsStatus → DfsStatus
status_and stop s2 = stop
status_and continue stop = stop
status_and continue continue = continue

abbrev pub status_or : DfsStatus → DfsStatus → DfsStatus
status_or continue s2 = continue
status_or stop continue = continue
status_or stop stop = stop

-- What a traversal and each of its parts comes to: its status, and the state behind it.
abbrev pub Run {ℓ} : Type ℓ → Type ℓ
Run S = S → Outcome (DfsStatus × S)

abbrev pub NodeOperator {ℓ} : Type ℓ → Type ℓ
NodeOperator S = Graph → ℕ → Run S

abbrev pub EdgeValidator : Type 0
EdgeValidator = Graph → ℕ → Outcome DfsStatus

module _ {ℓ} {S : Type ℓ} where
  -- Behind the traversal of one edge: the rest, or a stop.
  abbrev pub after_edge : Bool → Run S → DfsStatus × S → Outcome (DfsStatus × S)
  after_edge all rest (continue, s) = rest s
  after_edge true rest (stop, s) = rest s
  after_edge false rest (stop, s) = ok (stop, s)

  abbrev pub visit_edge : Bool → Run S → Run S → S → DfsStatus → Outcome (DfsStatus × S)
  visit_edge all run rest s continue = run s >>= after_edge all rest
  visit_edge all run rest s stop = rest s

  unfoldable pub traverse :
      Graph → EdgeValidator → Bool → (ℕ → Run S) → (GraphEdge → ℕ) → List ℕ → Run S
  traverse g valid all rec side [] s = ok (continue, s)
  traverse g valid all rec side (edge_idx ∷ edges) s = do
    edge ← or_panic (get_elem? g.edges edge_idx)
    status ← valid g edge_idx
    visit_edge all (rec (side edge)) (traverse g valid all rec side edges) s status

  -- The edges of a node, by the direction.
  unfoldable pub descend :
      Graph → EdgeValidator → Bool → (ℕ → Run S) → Direction → GraphNode → Run S
  descend g valid all rec upside v s = traverse g valid all rec (λ e. e.src) v.in_edges s
  descend g valid all rec downside v s = traverse g valid all rec (λ e. e.dst) v.out_edges s
  descend g valid all rec both v s =
      traverse g valid all rec (λ e. e.src) v.in_edges s
      >>= after_edge false (traverse g valid all rec (λ e. e.dst) v.out_edges)

  abbrev pub on_status : (S → Outcome (DfsStatus × S)) → DfsStatus × S → Outcome (DfsStatus × S)
  on_status go_on (continue, s) = go_on s
  on_status go_on (stop, s) = ok (stop, s)

  unfoldable pub dfs : ℕ → Graph → NodeOperator S → EdgeValidator → Bool → Direction → ℕ → Run S
  dfs zero g op valid all direction now s = stuck
  dfs (suc fuel) g op valid all direction now s =
      op g now s
      >>= on_status (λ s.
        (or_panic (get_elem? g.nodes now) >>= λ v.
        descend g valid all (dfs fuel g op valid all direction) direction v s))

unfoldable pub always_true_edge_validator : EdgeValidator
always_true_edge_validator g idx = ok continue

abbrev pub is_equivalent_edge : EdgeOp → DfsStatus
is_equivalent_edge copy_edge = continue
is_equivalent_edge move_edge = continue
is_equivalent_edge mut_edge = continue
is_equivalent_edge immut_edge = continue
is_equivalent_edge e = stop

unfoldable pub equivalent_edge_validator : EdgeValidator
equivalent_edge_validator g idx = do
  edge ← or_panic (get_elem? g.edges idx)
  ok (is_equivalent_edge edge.op)

-- The operator of `is_connected`; its state is `find`.
unfoldable pub find_operator : ℕ → NodeOperator Bool
find_operator target g idx find = ok (if idx == target then (stop, true) else (continue, false))

abbrev pub if_not_found : ℕ → Graph → ℕ → ℕ → Bool → Outcome Bool
if_not_found fuel g idx_1 idx_2 true = ok true
if_not_found fuel g idx_1 idx_2 false = do
  r ← dfs fuel g (find_operator idx_2) always_true_edge_validator false upside idx_1 false
  ok r.1

unfoldable pub is_connected : ℕ → Graph → ℕ → ℕ → Outcome Bool
is_connected fuel g idx_1 idx_2 = do
  r ← dfs fuel g (find_operator idx_2) always_true_edge_validator false downside idx_1 false
  if_not_found fuel g idx_1 idx_2 r.1

-- The answers from parameter `i`, with `left` parameters to go.
unfoldable pub deps_from : ℕ → Graph → ℕ → ℕ → Outcome (List Bool)
deps_from fuel g i zero = ok []
deps_from fuel g i (suc left) = do
  connected ← is_connected fuel g i 0
  rest ← deps_from fuel g (i + 1) left
  ok (connected ∷ rest)

unfoldable pub param_return_deps : ℕ → Graph → Outcome (List Bool)
param_return_deps fuel g = deps_from fuel g 0 (g.argc + 1)

-- `Nop`, `Use` and `Ref`: what keeps a value.
abbrev pub op_status : NodeOp → DfsStatus
op_status nop_op = continue
op_status use_op = continue
op_status ref_op = continue
op_status op = stop

-- What one run of the closure makes of the variable that it writes to.
abbrev pub written {ℓ} : {S : Type ℓ} → (S → S) → DfsStatus → S → S
written write continue s = write s
written write stop s = s

-- `iter().map(closure).reduce(reduce)` behind a first operation.
unfoldable pub reduce_from {ℓ} :
    {S : Type ℓ}
    → (DfsStatus → DfsStatus → DfsStatus)
    → (S → S)
    → DfsStatus
    → List NodeOp
    → S
    → DfsStatus × S
reduce_from reduce write status [] s = (status, s)
reduce_from reduce write status (op ∷ ops) s =
    reduce_from reduce write (reduce status (op_status op)) ops (written write (op_status op) s)

unfoldable pub reduce_ops {ℓ} :
    {S : Type ℓ} → (DfsStatus → DfsStatus → DfsStatus) → (S → S) → List NodeOp → Run S
reduce_ops reduce write [] s = panic
reduce_ops reduce write (op ∷ ops) s =
    ok (reduce_from reduce write (op_status op) ops (written write (op_status op) s))

-- The state is `root`.
unfoldable pub find_root_operator : (DfsStatus → DfsStatus → DfsStatus) → NodeOperator ℕ
find_root_operator reduce g idx root = do
  node ← or_panic (get_elem? g.nodes idx)
  reduce_ops reduce (λ root. idx) node.ops root

-- The state is `set`.
unfoldable pub find_equivalent_operator :
    (DfsStatus → DfsStatus → DfsStatus) → NodeOperator (List ℕ)
find_equivalent_operator reduce g idx set = do
  node ← or_panic (get_elem? g.nodes idx)
  let fresh = reduce_ops reduce (λ set. insert set idx) node.ops set
  if contains set idx then ok (stop, set) else fresh

abbrev pub reduce_func : Bool → DfsStatus → DfsStatus → DfsStatus
reduce_func true = status_and
reduce_func false = status_or

unfoldable pub collect_equivalent_locals : ℕ → Graph → ℕ → Bool → Outcome (List ℕ)
collect_equivalent_locals fuel g local strict = do
  r ←
      dfs fuel g (find_root_operator (reduce_func strict)) equivalent_edge_validator true upside
        local local
  let root = r.1
  s ←
      dfs fuel g (find_equivalent_operator (reduce_func strict)) equivalent_edge_validator true
        downside root []
  ok s.1

-- The node at the other end of an edge, if the node has so many.
abbrev pub end_at : Graph → (GraphEdge → ℕ) → Option ℕ → Outcome (Option ℕ)
end_at g side none = ok none
end_at g side (some edge_idx) = do
  edge ← or_panic (get_elem? g.edges edge_idx)
  ok (some (side edge))

unfoldable pub get_upside_idx : Graph → ℕ → ℕ → Outcome (Option ℕ)
get_upside_idx g node_idx order = do
  node ← or_panic (get_elem? g.nodes node_idx)
  end_at g (λ e. e.src) (get_elem? node.in_edges order)

unfoldable pub get_downside_idx : Graph → ℕ → ℕ → Outcome (Option ℕ)
get_downside_idx g node_idx order = do
  node ← or_panic (get_elem? g.nodes node_idx)
  end_at g (λ e. e.dst) (get_elem? node.out_edges order)
