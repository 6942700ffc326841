-- ===== src/CallGraph/Tests.antt =====
-- The call graphs of small bodies.
use rapx_log.Prelude.{
  ℕ, ◌≡◌, refl, ◌↔◌, ◌==◌, if◌then◌else◌, true, false, none, some, List, [], ◌∷◌,
}
use rapx_log.CallGraph.{
  Str, get_str, contains_str, CallGraphInfo, empty_info, get_node_num, get_callees_path, paths_of,
  callees_of, add_node, add_funciton_call_edge,
}
use rapx_log.CallGraph.Visitor.{
  TyCtxt, TerminatorKind, call_fn_def, other_terminator, item, virtual, add_in_call_graph,
  add_to_call_graph, visit_terminator, visit_blocks, visit, start,
}
use rapx_log.CallGraph.Registry.{IsSound, Calls}
use rapx_log.CallGraph.Start.{CalledIn, start-Calls}
use rapx_log.CallGraph.Callees.{get_callees_path-Calls}

-- Function `d` has the path `d`; 9 is a method that is called through a trait object.
abbrev small : TyCtxt
small = record {
  def_path_str = λ d. d ∷ [];
  try_resolve =
      λ caller callee substs. if callee == 9 then some (virtual 9) else some (item callee);
  is_closure_like = λ d. false;
  captures = λ path. none;
}

-- 1 calls 2, itself and 2 again; 2 calls the method, which is not entered; 3 calls 1.
abbrev bodies : List (ℕ × List TerminatorKind)
bodies =
    (1, call_fn_def 2 0 ∷ call_fn_def 1 0 ∷ other_terminator ∷ call_fn_def 2 0 ∷ [])
    ∷ (2, call_fn_def 9 0 ∷ [])
    ∷ (3, call_fn_def 1 0 ∷ [])
    ∷ []

abbrev graph : CallGraphInfo
graph = start small bodies empty_info

counted : get_node_num graph ≡ 3
unfolding start visit visit_blocks visit_terminator add_to_call_graph add_in_call_graph add_node
    add_funciton_call_edge empty_info
counted = refl

callees_of_1 : get_callees_path graph (1 ∷ []) ≡ some ((2 ∷ []) ∷ (1 ∷ []) ∷ [])
unfolding get_callees_path callees_of paths_of start visit visit_blocks visit_terminator
    add_to_call_graph add_in_call_graph add_node add_funciton_call_edge empty_info
callees_of_1 = refl

start-Calls_example :
    IsSound (start small bodies empty_info)
    × ((q u : Str) → Calls (start small bodies empty_info) q u ↔ CalledIn small bodies q u)
start-Calls_example = start-Calls small bodies

get_callees_path-Calls_example :
    (get_str (start small bodies empty_info).node_registry (1 ∷ []) ≡ none
      → get_callees_path (start small bodies empty_info) (1 ∷ []) ≡ none)
    × ((i : ℕ)
        → get_str (start small bodies empty_info).node_registry (1 ∷ []) ≡ some i
        → (ts : List Str) × (get_callees_path (start small bodies empty_info) (1 ∷ []) ≡ some ts)
          × ((t : Str)
              → (contains_str ts t ≡ true) ↔ Calls (start small bodies empty_info) (1 ∷ []) t))
get_callees_path-Calls_example =
    get_callees_path-Calls (start small bodies empty_info) (1 ∷ []) (start-Calls small bodies).0
