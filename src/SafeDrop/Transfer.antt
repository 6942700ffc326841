-- ===== src/SafeDrop/Transfer.antt =====
-- The effect of one basic block: `alias_bb` and `alias_bbcall` of safedrop/alias.rs, `drop_check` and
-- `drop_heap_item_check` of safedrop/safedrop.rs. `fuel` bounds the recursion over fields.
pub mod Variant
use package.rapx_log.Prelude.{
  ℕ, zero, suc, ◌+◌, ℤ, as_isize, ltb, ◌==◌, Bool, true, false, not, ◌&&◌, ◌||◌, if◌then◌else◌,
  Option, none, some, List, [], ◌∷◌, ◌++◌, length, get_elem?, set, exists, get, put, contains_key,
  Outcome, ok, panic, stuck,
}
use package.rapx_log.Mir.{
  Ty, adt, Place, Operand, copy, move, constant, Terminator, TerminatorKind, drop, call, TyCtxt,
}
use package.rapx_log.HeapItem.{is_owned, OwnerUnit}
use package.rapx_log.FnAlias.{RetAlias, valuable, FnMap}
use package.rapx_log.SafeDrop.Types.{corner_handle}
use package.rapx_log.SafeDrop.State.{
  AssignType, copied, moved, init_box, variant, Assignment, BlockNode, ValueNode, is_ptr,
  SafeDropGraph, M, ◌>>=◌, ◌>>◌, pure, skip, diverge, when, reads, modify, at, value_at,
  update_value, for_each,
}
use package.rapx_log.SafeDrop.Nodes.{projection, fill_birth, merge_alias, merge}
use package.rapx_log.SafeDrop.CheckBugs.{uaf_check, dead_node}

-- The birth of a value that block `bb_index` assigns: the index of the block's component.
abbrev birth_in : ℕ → M ℕ
birth_in bb_index = reads (λ g. at g.scc_indices bb_index)

-- One assignment of a block.
pub alias_assign : ℕ → TyCtxt → ℕ → Assignment → M (Unit {0})
unfolding projection uaf_check fill_birth merge_alias
alias_assign fuel tcx bb_index a = do
  lv ← projection tcx false a.lv
  rv ← projection tcx true a.rv
  elim a.atype [
    | variant ↦
        (reads (λ g. at g.alias_set lv) >>= λ _.
        modify (λ g. record g { alias_set = set g.alias_set lv rv }))
    | init_box ↦
        (value_at lv >>= λ v. elim (get v.fields 0) [
          | none ↦ (λ g. panic)
          | some lv0 ↦ copy_alias fuel bb_index a lv0 rv
        ])
    | _ ↦ copy_alias fuel bb_index a lv rv
  ]
  where
    copy_alias : ℕ → ℕ → Assignment → ℕ → ℕ → M (Unit {0})
    copy_alias fuel bb_index a lv rv = do
      uaf_check rv a.span a.rv.local false
      birth ← birth_in bb_index
      fill_birth fuel lv (as_isize birth)
      l ← value_at lv
      r ← value_at rv
      when (not (l.local == r.local)) (merge_alias fuel lv rv)

unfoldable pub alias_bb : ℕ → TyCtxt → ℕ → M (Unit {0})
unfolding alias_assign for_each
alias_bb fuel tcx bb_index = do
  block ← reads (λ g. at g.blocks bb_index)
  for_each (λ (c : ℕ × ℕ). modify (λ g. record g { constants = put g.constants c.0 c.1 }))
      block.const_value
  for_each (alias_assign fuel tcx bb_index) block.assignments

-- The nodes of the arguments of a call, and how many of them may be dropped.
pub call_args : TyCtxt → ℕ → List Operand → M (List ℕ × ℕ)
unfolding projection uaf_check
call_args tcx span [] = pure ([], 0)
call_args tcx span (arg ∷ args) = elim (place_of arg) [
  | none ↦ (call_args tcx span args >>= λ r. pure (0 ∷ r.0, r.1))
  | some p ↦ (do
    rv ← projection tcx true p
    uaf_check rv span p.local true
    v ← value_at rv
    r ← call_args tcx span args
    pure (rv ∷ r.0, (if v.may_drop then suc r.1 else r.1)))
]
  where
    place_of : Operand → Option Place
    place_of (copy p) = some p
    place_of (move p) = some p
    place_of (constant _) = none

-- The arguments that an opaque function's result may point to.
pub right_set : SafeDropGraph → ℕ → List ℕ → Outcome (List ℕ)
right_set g lv [] = ok []
right_set g lv (rv ∷ rest) = elim (get_elem? g.values rv) [
  | none ↦ panic
  | some v ↦ elim (get_elem? g.values lv) [
    | none ↦ panic
    | some l ↦ elim (right_set g lv rest) [
      | ok rs ↦ ok (if v.may_drop && (not (lv == rv) && is_ptr l.kind) then rv ∷ rs else rs)
      | panic ↦ panic
      | stuck ↦ stuck
    ]
  ]
]

-- The effect of the callee: its summary, if its MIR is at hand, and else a guess from the types.
pub callee_effect : ℕ → TyCtxt → FnMap → ℕ → ℕ → List ℕ → M (Unit {0})
unfolding merge merge_alias right_set for_each
callee_effect fuel tcx fn_map target_id lv merge_vec =
    if tcx.is_mir_available target_id
    then elim (get fn_map target_id) [
      | none ↦ skip
      | some summary ↦
          for_each (λ (a : RetAlias). when (valuable a) (merge fuel a merge_vec)) summary.alias_set
    ]
    else (value_at lv >>= λ l.
        when (l.may_drop && not (corner_handle target_id))
          (reads (λ g. right_set g lv merge_vec) >>= λ rs. single rs))
  where
    single : List ℕ → M (Unit {0})
    single (r ∷ []) = merge_alias fuel lv r
    single _ = skip

pub alias_call : ℕ → TyCtxt → FnMap → ℕ → Terminator → M (Unit {0})
unfolding projection call_args callee_effect
alias_call fuel tcx fn_map bb_index t = elim t.kind [
  | call (constant func) args destination target unwind ↦ (do
    lv ← projection tcx false destination
    birth ← birth_in bb_index
    update_value lv (λ v. record v { birth = as_isize birth })
    l ← value_at lv
    (rvs, count) ← call_args tcx t.span args
    let may_drop_flag = if l.may_drop then suc count else count
    elim func.fn_def [
      | none ↦ skip
      | some target_id ↦
          when (ltb 1 may_drop_flag) (callee_effect fuel tcx fn_map target_id lv (lv ∷ rvs))
    ])
  | _ ↦ skip
]

unfoldable pub alias_bbcall : ℕ → TyCtxt → FnMap → ℕ → M (Unit {0})
unfolding alias_call for_each
alias_bbcall fuel tcx fn_map bb_index = do
  block ← reads (λ g. at g.blocks bb_index)
  for_each (alias_call fuel tcx fn_map bb_index) block.calls

-- Does the type of a dropped place hold heap memory, as far as is known?
pub owner_check : OwnerUnit → ℕ → Outcome Bool
owner_check owner idx = elim (get_elem? owner idx) [
  | none ↦ panic
  | some (raw, params) ↦ ok (if is_owned raw || exists (λ b. b) params then true else false)
]

pub drop_heap_item_check : SafeDropGraph → TyCtxt → Place → Outcome Bool
unfolding owner_check
drop_heap_item_check g tcx place = by_type (tcx.place_ty place).0 (tcx.place_ty place).1
  where
    variant_of : Option ℕ → ℕ
    variant_of (some vdx) = vdx
    variant_of none = 0

    by_type : Ty → Option ℕ → Outcome Bool
    by_type (adt did _ _) variant_index = elim (get g.adt_owner did) [
      | none ↦ ok true
      | some owner ↦ owner_check owner (variant_of variant_index)
    ]
    by_type _ variant_index = ok true

abbrev drop_place : ℕ → TyCtxt → ℕ → ℕ → Place → M (Unit {0})
drop_place fuel tcx bb_index span place = do
  birth ← birth_in bb_index
  drop_local ← projection tcx false place
  dead_node fuel drop_local birth span false

-- The drops of a block in turn. A constant operand ends the loop.
pub drop_all : ℕ → TyCtxt → ℕ → List Terminator → M (Unit {0})
unfolding drop_heap_item_check projection dead_node
drop_all fuel tcx bb_index [] = skip
drop_all fuel tcx bb_index (t ∷ ts) =
    let rest = drop_all fuel tcx bb_index ts in
    elim t.kind [
      | drop place target unwind ↦
          (reads (λ g. drop_heap_item_check g tcx place) >>= λ owned.
          when owned (drop_place fuel tcx bb_index t.span place) >> rest)
      | call func args destination target unwind ↦ elim args [
        | [] ↦ rest
        | copy place ∷ _ ↦ (drop_place fuel tcx bb_index t.span place >> rest)
        | move place ∷ _ ↦ (drop_place fuel tcx bb_index t.span place >> rest)
        | constant _ ∷ _ ↦ skip
      ]
      | _ ↦ rest
    ]

unfoldable pub drop_check : ℕ → TyCtxt → ℕ → M (Unit {0})
unfolding drop_all
drop_check fuel tcx bb_index = do
  block ← reads (λ g. at g.blocks bb_index)
  drop_all fuel tcx bb_index block.drops
