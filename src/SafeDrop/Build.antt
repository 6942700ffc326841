-- ===== src/SafeDrop/Build.antt =====
-- The construction of the graph from a function's MIR: `SafeDropGraph::new` of safedrop/graph.rs.
pub mod Initial
pub mod Walkable
use package.rapx_log.Prelude.{
  ℕ, zero, suc, ◌+◌, ◌==◌, Bool, true, false, not, ◌||◌, if◌then◌else◌, Option, none, some, List,
  [], ◌∷◌, ◌++◌, length, get_elem?, set, insert, put, contains_key, Outcome, ok, panic, ◌>>=◌,
  or_panic,
}
use package.rapx_log.Mir.{
  Ty, Place, ConstKind, ty_const, unevaluated, val, Operand, copy, move, constant, Rvalue, use_,
  ref_, raw_ptr_, shallow_init_box, cast, aggregate, discriminant, other_rvalue, StatementKind,
  assign, other_statement, Statement, TerminatorKind, goto, switch_int, unwind_resume, return,
  unwind_terminate, unreachable, drop, call, tail_call, assert, yield, false_edge, false_unwind,
  coroutine_drop, inline_asm, Terminator, BasicBlockData, Body, TyCtxt,
}
use package.rapx_log.HeapItem.{AdtOwner}
use package.rapx_log.SafeDrop.Types.{
  kind, is_not_drop, drop_id, drop_in_place_id, box_drop_in_place_id, dealloc_id, manually_drop_id,
}
use package.rapx_log.SafeDrop.State.{
  AssignType, copied, moved, init_box, variant, Assignment, BlockNode, new_block, ValueNode,
  new_value, no_bugs, SafeDropGraph,
}

-- What the construction carries through the statements of a block.
pub record Building : Type 0 where
  pub values : List ValueNode
  pub alias_set : List ℕ
  pub dead_record : List Bool
  pub block : BlockNode

abbrev local_value : TyCtxt → ℕ → Ty → ValueNode
local_value tcx i ty =
    let need_drop = tcx.needs_drop ty in
    record (new_value i i need_drop (need_drop || not (is_not_drop ty))) { kind = kind ty }

-- The loop over the locals, the first of which is number `i`.
pub local_values : TyCtxt → ℕ → List Ty → List ValueNode
local_values tcx i [] = []
local_values tcx i (ty ∷ tys) = local_value tcx i ty ∷ local_values tcx (i + 1) tys

pub indices : ℕ → ℕ → List ℕ
indices i zero = []
indices i (suc n) = i ∷ indices (i + 1) n

abbrev pub none_dead : List Ty → List Bool
none_dead [] = []
none_dead (_ ∷ tys) = false ∷ none_dead tys

abbrev pub may_drop_at : List ValueNode → ℕ → Outcome Bool
may_drop_at values i = or_panic (get_elem? values i) >>= λ v. ok v.may_drop

-- An assignment is kept if both sides may be dropped.
pub push_assign : Building → Place → Place → AssignType → ℕ → Outcome Building
push_assign b lv rv atype span = may_drop_at b.values lv.local >>= λ l.
    if l then (may_drop_at b.values rv.local >>= λ r. ok (if r then pushed else b)) else ok b
  where
    pushed : Building
    pushed =
        let a : Assignment = record { lv = lv; rv = rv; atype = atype; span = span } in
        record b { block = record b.block { assignments = b.block.assignments ++ a ∷ [] } }

abbrev push_variant : Building → Place → Place → ℕ → Building
push_variant b lv rv span =
    let a : Assignment = record { lv = lv; rv = rv; atype = variant; span = span } in
    record b { block = record b.block { assignments = b.block.assignments ++ a ∷ [] } }

abbrev pub push_const : Building → ℕ → Option ℕ → Building
push_const b lv_local none = b
push_const b lv_local (some n) = record b {
  block = record b.block { const_value = b.block.const_value ++ (lv_local, n) ∷ [] };
}

abbrev pub scalar_of : ConstKind → Option ℕ
scalar_of (ty_const n) = n
scalar_of unevaluated = none
scalar_of (val n) = n

-- The first field of a box, which stands for what it points to.
pub shallow_box : Building → ℕ → Outcome Building
shallow_box b lv_local = do
  l ← or_panic (get_elem? b.values lv_local)
  let n = length b.values
  let lvl0 = record (new_value n lv_local false true) { birth = l.birth; field_id = 0 }
  ok (
      if contains_key l.fields 0 then b else record b {
        values = set b.values lv_local (record l { fields = put l.fields 0 n }) ++ lvl0 ∷ [];
        alias_set = b.alias_set ++ length b.alias_set ∷ [];
        dead_record = b.dead_record ++ false ∷ [];
      })

pub push_operands : Building → Place → ℕ → List Operand → Outcome Building
unfolding push_assign
push_operands b lv span [] = ok b
push_operands b lv span (x ∷ xs) = each x >>= λ b'. push_operands b' lv span xs
  where
    each : Operand → Outcome Building
    each (copy rv) = push_assign b lv rv copied span
    each (move rv) = push_assign b lv rv copied span
    each (constant _) = ok b

pub build_rvalue : Building → Place → ℕ → Rvalue → Outcome Building
unfolding push_assign shallow_box push_operands
build_rvalue b lv span (use_ (copy rv)) = push_assign b lv rv copied span
build_rvalue b lv span (use_ (move rv)) = push_assign b lv rv moved span
build_rvalue b lv span (use_ (constant c)) = ok (push_const b lv.local (scalar_of c.const_))
build_rvalue b lv span (ref_ rv) = push_assign b lv rv copied span
build_rvalue b lv span (raw_ptr_ rv) = push_assign b lv rv copied span
build_rvalue b lv span (shallow_init_box (copy rv)) =
    shallow_box b lv.local >>= λ b'. push_assign b' lv rv init_box span
build_rvalue b lv span (shallow_init_box (move rv)) =
    shallow_box b lv.local >>= λ b'. push_assign b' lv rv init_box span
build_rvalue b lv span (shallow_init_box (constant _)) = shallow_box b lv.local
build_rvalue b lv span (cast (copy rv)) = push_assign b lv rv copied span
build_rvalue b lv span (cast (move rv)) = push_assign b lv rv moved span
build_rvalue b lv span (cast (constant _)) = ok b
build_rvalue b lv span (aggregate xs) = push_operands b lv span xs
build_rvalue b lv span (discriminant rv) = ok (push_variant b lv rv span)
build_rvalue b lv span other_rvalue = ok b

abbrev pub modify_local : Building → ℕ → Building
modify_local b i = record b {
  block = record b.block { modified_value = insert b.block.modified_value i };
}

pub build_statements : Building → List Statement → Outcome Building
unfolding build_rvalue
build_statements b [] = ok b
build_statements b (s ∷ ss) = each s.kind >>= λ b'. build_statements b' ss
  where
    each : StatementKind → Outcome Building
    each (assign lv rvalue) = build_rvalue (modify_local b lv.local) lv s.span rvalue
    each other_statement = ok b

abbrev add_next : BlockNode → ℕ → BlockNode
add_next b i = record b { next = insert b.next i }

abbrev add_cleanup : BlockNode → Option ℕ → BlockNode
add_cleanup b none = b
add_cleanup b (some i) = add_next b i

abbrev add_targets : BlockNode → List ℕ → BlockNode
add_targets b [] = b
add_targets b (t ∷ ts) = add_targets (add_next b t) ts

abbrev add_arms : BlockNode → List (ℕ × ℕ) → BlockNode
add_arms b [] = b
add_arms b ((v, t) ∷ ts) = add_arms (add_next b t) ts

-- Functions that drop their argument.
abbrev pub is_drop_call : Operand → Bool
is_drop_call (constant c) = known c.fn_def
  where
    known : Option ℕ → Bool
    known none = false
    known (some id) =
        (id == drop_id)
        || ((id == drop_in_place_id)
            || ((id == manually_drop_id) || ((id == box_drop_in_place_id) || (id == dealloc_id))))
is_drop_call _ = false

abbrev push_drop : BlockNode → Terminator → BlockNode
push_drop b t = record b { drops = b.drops ++ t ∷ [] }

-- `tail_call` is a `todo!()`.
pub build_terminator : BlockNode → Terminator → Outcome BlockNode
build_terminator b t = by_kind t.kind
  where
    by_kind : TerminatorKind → Outcome BlockNode
    by_kind (goto target) = ok (add_next b target)
    by_kind (switch_int discr targets) = ok (
        add_next (add_arms (record b { switch_stmts = b.switch_stmts ++ t ∷ [] }) targets.targets)
          targets.otherwise)
    by_kind unwind_resume = ok b
    by_kind return = ok b
    by_kind unwind_terminate = ok b
    by_kind unreachable = ok b
    by_kind (drop place target unwind) = ok (add_cleanup (push_drop (add_next b target) t) unwind)
    by_kind (call func args destination target unwind) =
        let b1 = if is_drop_call func then push_drop b t else b in
        let b2 = add_cleanup (add_cleanup b1 target) unwind in
        ok (record b2 { calls = b2.calls ++ t ∷ [] })
    by_kind tail_call = panic
    by_kind (assert target unwind) = ok (add_cleanup (add_next b target) unwind)
    by_kind (yield resume drop_target) = ok (add_cleanup (add_next b resume) drop_target)
    by_kind (false_edge target) = ok (add_next b target)
    by_kind (false_unwind target) = ok (add_next b target)
    by_kind coroutine_drop = ok b
    by_kind (inline_asm targets unwind) = ok (add_cleanup (add_targets b targets) unwind)

-- The loop over the basic blocks, the first of which is number `i`.
pub build_blocks :
    Building → ℕ → List BasicBlockData → List BlockNode → Outcome (Building × List BlockNode)
unfolding build_statements build_terminator
build_blocks b i [] blocks = ok (b, blocks)
build_blocks b i (d ∷ ds) blocks = do
  terminator ← or_panic d.terminator
  b' ← build_statements (record b { block = new_block i d.is_cleanup }) d.statements
  block ← build_terminator b'.block terminator
  build_blocks b' (i + 1) ds (blocks ++ block ∷ [])

unfoldable pub new : Body → TyCtxt → ℕ → AdtOwner → Outcome SafeDropGraph
unfolding local_values indices build_blocks
new body tcx def_id adt_owner = do
  (b, blocks) ←
      build_blocks
        (record {
          values = local_values tcx 0 body.local_decls;
          alias_set = indices 0 (length body.local_decls);
          dead_record = none_dead body.local_decls;
          block = new_block 0 false;
        })
        0 body.basic_blocks []
  ok (record {
    def_id = def_id;
    span = body.span;
    values = b.values;
    blocks = blocks;
    arg_size = body.arg_count;
    scc_indices = indices 0 (length body.basic_blocks);
    constants = [];
    return_set = [];
    bug_records = no_bugs;
    visit_times = 0;
    alias_set = b.alias_set;
    dead_record = b.dead_record;
    adt_owner = adt_owner;
    child_scc = [];
  })
