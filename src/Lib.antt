-- ===== src/Lib.antt =====
-- RAPx is a static analyser of Rust programs that runs inside the compiler. This library models
-- some of its analyses on the compiler's intermediate representation (MIR), and what they share:
--   * safedrop (rapx/src/analysis/safedrop) walks the paths of a function with a graph of values, their
--     fields and their alias sets, marks what is dropped as dead, and reports uses of dead values;
--   * senryx (rapx/src/analysis/senryx) keeps an abstract state of each place and checks the contracts
--     of unsafe functions against it;
--   * mop (rapx/src/analysis/core/alias/mop) walks the paths of a function for a summary of its aliases;
--   * the data-flow graph (rapx/src/analysis/core/dataflow) has an edge for each flow of a value in a body;
--   * the call graph (rapx/src/analysis/core/call_graph) has the functions of a crate and their calls;
--   * the detector of leaks (rapx/src/analysis/rcanary) analyses the blocks of a body in a topological order.
--
-- Files and code, paths relative to rapx/src/analysis:
--   * Prelude: shared names, Boolean tests, lists with a panic out of range, association lists, results.
--   * Mir: the part of rustc's data types that the code matches on. Identifiers are numbers. The
--     compiler's queries are the record TyCtxt, a parameter.
--   * FnAlias: the summaries of core/alias.rs. HeapItem: the ownership of core/heap_item/ownership.rs.
--   * SafeDrop/State: the records of safedrop/graph.rs and safedrop/bug_records.rs, and the monad of
--     methods that change the graph. SafeDrop/Types: safedrop/types.rs and safedrop/corner_handle.rs.
--   * SafeDrop/UnionFind: union_find, union_merge, union_is_same, union_has_alias of
--     safedrop/alias.rs on the vector alias_set; its children prove them against the roots of a forest.
--   * SafeDrop/Nodes: projection, fill_birth, merge_alias, merge of safedrop/alias.rs; its children say
--     what these keep of the graph (Projection, Aliases, Births).
--   * SafeDrop/CheckBugs: safedrop/check_bugs.rs; its children describe the search for a dead value as
--     reachability (Edges) and prove it (Search, Dangling, Uaf), and treat drops (Drops, DeadNode) and
--     get_field_seq (FieldSeq).
--   * SafeDrop/Transfer: alias_bb and alias_bbcall of safedrop/alias.rs, drop_check of
--     safedrop/safedrop.rs; Variant treats the assignments of that type.
--   * SafeDrop/Check: check, split_check and split_check_with_cond of safedrop/safedrop.rs, with
--     SafeDrop/Component for its walk through a component, which ends (Component/Walk); Check/Paths treats
--     the branches.
--   * SafeDrop/Build: SafeDropGraph::new of safedrop/graph.rs. SafeDrop/Scc: tarjan, solve_scc and the
--     enumeration of paths of the same file.
--   * Senryx/Allocated, Senryx/Init, Senryx/Align: the states of senryx/contracts/abstract_state.rs
--     with their impl of Lattice in senryx/contracts/state_lattice.rs.
--   * Senryx/State: items and maps of abstract states, senryx/inter_record.rs.
--   * Senryx/Contract: senryx/contracts/contract.rs. Senryx/Checker: senryx/contracts/checker.rs and
--     senryx/matcher.rs.
--   * DataFlow: the graph of core/dataflow/graph.rs and the methods that add edges; DataFlow/Source: what
--     they read of MIR; DataFlow/Build: statements, terminators, and build_graph of core/dataflow.rs;
--     DataFlow/Dfs: the traversal, is_connected, param_return_deps, collect_equivalent_locals. Sound,
--     Edges, Invariant and Bodies treat the graph that is built, Flow what is_connected answers, Ends when
--     a traversal ends, Deps what param_return_deps answers, Collect what is collected at a node.
--   * CallGraph: core/call_graph/call_graph_helper.rs; CallGraph/Visitor: call_graph_visitor.rs beside it,
--     and the visits of core/call_graph.rs. Registry, Calls, Edge, Visits and Start follow the calls from
--     one insertion to the whole crate; Callees treats get_callees_path.
--   * Mop/Results: merge_results of core/alias/mop/alias.rs, which makes the summary at the end of a path;
--     Related, Adds and Complete prove what is in it.
--   * RCanary/Order: rcanary/ranalyzer/order.rs, on the graph of rcanary/ranalyzer.rs; Counts, Relax, Topo,
--     Collect and Whole prove what the order is, Cycles what it leaves out.
--
-- Outcomes: `ok`, `panic` (an index out of range, an unwrap of nothing, a panic in the source) and
-- `stuck` (the model's fuel is used up). Loops over a range are structural recursion. The `while` loop of
-- union_find has the length of the vector and one as its fuel, enough on a forest, where each step goes
-- to a smaller index; exist_dead has the number of values and one, enough since it visits each value at
-- most once. dead_node, fill_birth, merge_alias, get_field_seq and check take their fuel as an argument;
-- for dead_node the number of nodes that are not yet recorded as dead and one is enough. The traversals of
-- the data-flow graph take the depth of the recursion as their fuel: on a sound graph whose edges climb in
-- a rank of at most h a traversal in one direction ends with the depth h + 1 if its operator and its
-- validator do, and from a node whose first outgoing edge leads back to it is_connected to another node
-- returns for no depth. The loop of topo_order has the number of blocks and one.
-- Hash maps and hash sets are lists in their order of iteration. Machine words are unbounded numbers
-- where the code only counts or indexes; its casts to isize and, of the values of a switch, to usize are
-- those of a 64-bit target.
--
-- Not modelled: printing and logging, the command line, the drivers that run an analysis for every
-- function, the alias analysis mop but for the making of its summaries, the leak detector rcanary but
-- for its order of the blocks, the visitors that compute the ownership of types, the checks of
-- performance on the data-flow graph, the API dependency graph, the visitor of senryx.
pub mod CallGraph
pub mod DataFlow
pub mod FnAlias
pub mod HeapItem
pub mod Mir
pub mod Mop
pub mod Prelude
pub mod RCanary
pub mod SafeDrop
pub mod Senryx
