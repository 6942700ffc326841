-- ===== src/CallGraph/Visitor.antt =====
-- The visit of the bodies, by which core/call_graph/call_graph_visitor.rs fills the call graph. What
-- rustc and the regular expression answer is a parameter.
use package.rapx_log.Prelude.{ℕ, Bool, true, false, List, [], ◌∷◌, ◌++◌, Option, none, some}
use package.rapx_log.CallGraph.{
  Str, CallGraphInfo, get_noed_by_path, add_node, add_funciton_call_edge,
}

-- `InstanceKind`, with the definition that each kind carries.
pub data InstanceKind : Type 0 where
  item intrinsic vtable_shim reify_shim fn_ptr_shim virtual closure_once_shim
        construct_coroutine_in_closure_shim thread_local_shim drop_glue fn_ptr_addr_shim
        async_drop_glue_ctor_shim clone_shim :
      ℕ → InstanceKind

pub data TerminatorKind : Type 0 where
  -- a call of a constant of a function's type: the definition and its arguments
  call_fn_def : ℕ → ℕ → TerminatorKind
  other_terminator : TerminatorKind

pub record TyCtxt : Type 0 where
  pub def_path_str : ℕ → Str
  -- `Instance::try_resolve` where the first argument calls the second with the third
  pub try_resolve : ℕ → ℕ → ℕ → Option InstanceKind
  pub is_closure_like : ℕ → Bool
  -- `dyn` and `func` of the first match of `(?<dyn>\w+)::(?<func>\w+)`
  pub captures : Str → Option (Str × Str)

-- The second `if let` of `add_in_call_graph`, on a graph that may have the callee by now.
abbrev pub edge_to : ℕ → CallGraphInfo → Option ℕ → CallGraphInfo
edge_to caller_id info none = info
edge_to caller_id info (some callee_id) = add_funciton_call_edge caller_id callee_id info

abbrev pub add_callee : ℕ → ℕ → Str → CallGraphInfo → Option ℕ → CallGraphInfo
add_callee caller_id callee_def_id callee_def_path info (some callee_id) =
    add_funciton_call_edge caller_id callee_id info
add_callee caller_id callee_def_id callee_def_path info none =
    let info' = add_node callee_def_id callee_def_path info in
    edge_to caller_id info' (get_noed_by_path info' callee_def_path)

abbrev pub by_caller_id : ℕ → Str → CallGraphInfo → Option ℕ → CallGraphInfo
by_caller_id callee_def_id callee_def_path info none = info
by_caller_id callee_def_id callee_def_path info (some caller_id) =
    add_callee caller_id callee_def_id callee_def_path info (get_noed_by_path info callee_def_path)

unfoldable pub add_in_call_graph : Str → ℕ → Str → CallGraphInfo → CallGraphInfo
add_in_call_graph caller_def_path callee_def_id callee_def_path info =
    by_caller_id callee_def_id callee_def_path info (get_noed_by_path info caller_def_path)

-- `(dyn trait) <* as `, `>::`.
abbrev pub dyn_prefix : Str
dyn_prefix =
    40 ∷ 100 ∷ 121 ∷ 110 ∷ 32 ∷ 116 ∷ 114 ∷ 97 ∷ 105 ∷ 116 ∷ 41 ∷ 32 ∷ 60 ∷ 42 ∷ 32 ∷ 97 ∷ 115 ∷ 32
    ∷ []

abbrev pub dyn_middle : Str
dyn_middle = 62 ∷ 58 ∷ 58 ∷ []

-- The path under which a callee is entered; `none` where the code returns.
abbrev pub dyn_path : Option (Str × Str) → Option Str
dyn_path none = none
dyn_path (some (dyn, func)) = some (dyn_prefix ++ dyn ++ dyn_middle ++ func)

abbrev pub entered_path : TyCtxt → ℕ → Option Bool → Option Str
entered_path tcx callee_def_id (some true) =
    dyn_path (tcx.captures (tcx.def_path_str callee_def_id))
entered_path tcx callee_def_id (some false) = some (tcx.def_path_str callee_def_id)
entered_path tcx callee_def_id none = some (tcx.def_path_str callee_def_id)

unfoldable pub add_to_call_graph : TyCtxt → ℕ → ℕ → Option Bool → CallGraphInfo → CallGraphInfo
add_to_call_graph tcx def_id callee_def_id is_virtual info =
    by_path (entered_path tcx callee_def_id is_virtual)
  where
    by_path : Option Str → CallGraphInfo
    by_path none = info
    by_path (some callee_def_path) =
        add_in_call_graph (tcx.def_path_str def_id) callee_def_id callee_def_path info

-- `instance_def_id`, and `is_virtual`.
abbrev pub instance_def : TyCtxt → InstanceKind → Option ℕ × Bool
instance_def tcx (item d) = (some d, false)
instance_def tcx (intrinsic d) = (some d, false)
instance_def tcx (vtable_shim d) = (some d, false)
instance_def tcx (reify_shim d) = (some d, false)
instance_def tcx (fn_ptr_shim d) = (some d, false)
instance_def tcx (virtual d) = (some d, true)
instance_def tcx (closure_once_shim d) = (some d, false)
instance_def tcx (construct_coroutine_in_closure_shim d) = (some d, false)
instance_def tcx (thread_local_shim d) = (some d, false)
instance_def tcx (drop_glue d) = (some d, false)
instance_def tcx (fn_ptr_addr_shim d) = (some d, false)
instance_def tcx (async_drop_glue_ctor_shim d) = (some d, false)
instance_def tcx (clone_shim d) = (unless_closure (tcx.is_closure_like d), false)
  where
    unless_closure : Bool → Option ℕ
    unless_closure true = none
    unless_closure false = some d

-- The callee that is entered for a call, with `is_virtual`.
abbrev pub resolved_callee : TyCtxt → ℕ → Option InstanceKind → Option (ℕ × Option Bool)
resolved_callee tcx callee_def_id none = some (callee_def_id, none)
resolved_callee tcx callee_def_id (some kind) = by_def (instance_def tcx kind)
  where
    by_def : Option ℕ × Bool → Option (ℕ × Option Bool)
    by_def (none, is_virtual) = none
    by_def (some d, is_virtual) = some (d, some is_virtual)

abbrev pub enter : TyCtxt → ℕ → CallGraphInfo → Option (ℕ × Option Bool) → CallGraphInfo
enter tcx def_id info none = info
enter tcx def_id info (some (d, is_virtual)) = add_to_call_graph tcx def_id d is_virtual info

unfoldable pub visit_terminator : TyCtxt → ℕ → TerminatorKind → CallGraphInfo → CallGraphInfo
visit_terminator tcx def_id other_terminator info = info
visit_terminator tcx def_id (call_fn_def callee_def_id callee_substs) info =
    enter tcx def_id info
      (resolved_callee tcx callee_def_id (tcx.try_resolve def_id callee_def_id callee_substs))

unfoldable pub visit_blocks : TyCtxt → ℕ → List TerminatorKind → CallGraphInfo → CallGraphInfo
visit_blocks tcx def_id [] info = info
visit_blocks tcx def_id (terminator ∷ rest) info =
    visit_blocks tcx def_id rest (visit_terminator tcx def_id terminator info)

-- The body is the terminators of its blocks.
unfoldable pub visit : TyCtxt → ℕ → List TerminatorKind → CallGraphInfo → CallGraphInfo
visit tcx def_id body info =
    visit_blocks tcx def_id body (add_node def_id (tcx.def_path_str def_id) info)

-- The bodies that `start` visits, in its order.
unfoldable pub start : TyCtxt → List (ℕ × List TerminatorKind) → CallGraphInfo → CallGraphInfo
start tcx [] info = info
start tcx ((def_id, body) ∷ bodies) info = start tcx bodies (visit tcx def_id body info)
