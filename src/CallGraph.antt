-- ===== src/CallGraph.antt =====
-- The call graph of core/call_graph: functions are numbered in the order in which their paths are met,
-- and the calls are sets of numbers. A path is the list of its characters.
pub mod Visitor
pub mod Registry
pub mod Calls
pub mod Edge
pub mod Visits
pub mod Callees
pub mod Start
mod Tests
use package.rapx_log.Prelude.{
  ℕ, ◌==◌, ◌&&◌, ◌||◌, if◌then◌else◌, Bool, true, false, List, [], ◌∷◌, ◌++◌, Option, none, some,
  length, get, put, contains_key, insert,
}

abbrev pub Str : Type 0
Str = List ℕ

abbrev pub same_str : Str → Str → Bool
same_str [] [] = true
same_str [] (y ∷ ys) = false
same_str (x ∷ xs) [] = false
same_str (x ∷ xs) (y ∷ ys) = x == y && same_str xs ys

-- A map from strings, and a set of them.
abbrev pub get_str : List (Str × ℕ) → Str → Option ℕ
get_str [] k = none
get_str ((j, v) ∷ m) k = if same_str j k then some v else get_str m k

abbrev pub put_str : List (Str × ℕ) → Str → ℕ → List (Str × ℕ)
put_str [] k v = (k, v) ∷ []
put_str ((j, w) ∷ m) k v = if same_str j k then (k, v) ∷ m else (j, w) ∷ put_str m k v

abbrev pub contains_str : List Str → Str → Bool
contains_str [] k = false
contains_str (x ∷ xs) k = same_str x k || contains_str xs k

abbrev pub insert_str : List Str → Str → List Str
insert_str s k = if contains_str s k then s else s ++ k ∷ []

pub record Node : Type 0 where
  pub def_id : ℕ
  pub def_path : Str

pub record CallGraphInfo : Type 0 where
  pub functions : List (ℕ × Node)
  pub function_calls : List (ℕ × List ℕ)
  pub node_registry : List (Str × ℕ)

unfoldable pub empty_info : CallGraphInfo
empty_info = record { functions = []; function_calls = []; node_registry = [] }

abbrev pub get_node_num : CallGraphInfo → ℕ
get_node_num info = length info.functions

abbrev pub get_noed_by_path : CallGraphInfo → Str → Option ℕ
get_noed_by_path info def_path = get_str info.node_registry def_path

abbrev pub insert_path : Option Node → List Str → List Str
insert_path none callees_path = callees_path
insert_path (some callee_node) callees_path = insert_str callees_path callee_node.def_path

-- The loop of `get_callees_path`.
unfoldable pub paths_of : CallGraphInfo → List ℕ → List Str → List Str
paths_of info [] callees_path = callees_path
paths_of info (id ∷ ids) callees_path =
    paths_of info ids (insert_path (get info.functions id) callees_path)

unfoldable pub callees_of : CallGraphInfo → Option (List ℕ) → List Str
callees_of info none = []
callees_of info (some callee_ids) = paths_of info callee_ids []

unfoldable pub get_callees_path : CallGraphInfo → Str → Option (List Str)
get_callees_path info caller_def_path = by_caller (get_str info.node_registry caller_def_path)
  where
    by_caller : Option ℕ → Option (List Str)
    by_caller none = none
    by_caller (some caller_id) = some (callees_of info (get info.function_calls caller_id))

abbrev pub with_node : ℕ → Str → CallGraphInfo → Option ℕ → CallGraphInfo
with_node def_id def_path info (some id) = info
with_node def_id def_path info none =
    let id = length info.node_registry in
    record info {
      node_registry = put_str info.node_registry def_path id;
      functions = put info.functions id (record { def_id = def_id; def_path = def_path });
    }

unfoldable pub add_node : ℕ → Str → CallGraphInfo → CallGraphInfo
add_node def_id def_path info = with_node def_id def_path info (get_noed_by_path info def_path)

abbrev pub insert_callee : ℕ → ℕ → CallGraphInfo → Option (List ℕ) → CallGraphInfo
insert_callee caller_id callee_id info none = info
insert_callee caller_id callee_id info (some callees) = record info {
  function_calls = put info.function_calls caller_id (insert callees callee_id);
}

unfoldable pub add_funciton_call_edge : ℕ → ℕ → CallGraphInfo → CallGraphInfo
add_funciton_call_edge caller_id callee_id info =
    let fresh = record info { function_calls = put info.function_calls caller_id [] } in
    let there = if contains_key info.function_calls caller_id then info else fresh in
    insert_callee caller_id callee_id there (get there.function_calls caller_id)
