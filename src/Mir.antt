-- ===== src/Mir.antt =====
-- What the analyses read of rustc's intermediate representation: the variants and the fields that
-- the source matches on, under rustc's names. Identifiers (locals, basic blocks, definitions,
-- spans) are numbers. What the compiler computes on request is a field of `TyCtxt`, a parameter.
use package.rapx_log.Prelude.{ℕ, Bool, Option, List}

mutual
  -- A type as the source walks it. The fields of a struct or enum stand under their substitution.
  pub data Ty : Type 0 where
    bool char int uint float : Ty
    array : Ty → Ty
    -- the definition, its debug string, and all fields of all variants
    adt : ℕ → List ℕ → Tys → Ty
    tuple : Tys → Ty
    raw_ptr reference : Ty
    other_ty : Ty

  pub data Tys : Type 0 where
    nil : Tys
    cons : Ty → Tys → Tys

pub data ProjectionElem : Type 0 where
  deref : ProjectionElem
  field : ℕ → Ty → ProjectionElem
  -- an index, a slice pattern, a downcast, a cast
  other_elem : ProjectionElem

pub record Place : Type 0 where
  pub local : ℕ
  pub projection : List ProjectionElem

-- `Const`, with the value that rustc evaluates it to, if it is a scalar.
pub data ConstKind : Type 0 where
  ty_const : Option ℕ → ConstKind
  unevaluated : ConstKind
  val : Option ℕ → ConstKind

pub record MirConst : Type 0 where
  pub const_ : ConstKind
  -- the definition, if the constant's type is that of a function
  pub fn_def : Option ℕ
  -- `try_eval_target_usize`
  pub target_usize : Option ℕ

pub data Operand : Type 0 where
  copy : Place → Operand
  move : Place → Operand
  constant : MirConst → Operand

pub data Rvalue : Type 0 where
  use_ : Operand → Rvalue
  ref_ : Place → Rvalue
  raw_ptr_ : Place → Rvalue
  shallow_init_box : Operand → Rvalue
  cast : Operand → Rvalue
  aggregate : List Operand → Rvalue
  discriminant : Place → Rvalue
  other_rvalue : Rvalue

pub data StatementKind : Type 0 where
  assign : Place → Rvalue → StatementKind
  other_statement : StatementKind

pub record Statement : Type 0 where
  pub kind : StatementKind
  pub span : ℕ

-- The values with their targets, and the default target, which `all_targets` has last.
pub record SwitchTargets : Type 0 where
  pub targets : List (ℕ × ℕ)
  pub otherwise : ℕ

-- `none` where the action is not `Cleanup`.
abbrev pub UnwindAction : Type 0
UnwindAction = Option ℕ

pub data TerminatorKind : Type 0 where
  goto : ℕ → TerminatorKind
  switch_int : Operand → SwitchTargets → TerminatorKind
  unwind_resume return unwind_terminate unreachable : TerminatorKind
  drop : Place → ℕ → UnwindAction → TerminatorKind
  -- the function, the arguments, the destination, the target
  call : Operand → List Operand → Place → Option ℕ → UnwindAction → TerminatorKind
  tail_call : TerminatorKind
  assert : ℕ → UnwindAction → TerminatorKind
  yield : ℕ → Option ℕ → TerminatorKind
  false_edge : ℕ → TerminatorKind
  false_unwind : ℕ → TerminatorKind
  coroutine_drop : TerminatorKind
  inline_asm : List ℕ → UnwindAction → TerminatorKind

pub record Terminator : Type 0 where
  pub kind : TerminatorKind
  pub span : ℕ

pub record BasicBlockData : Type 0 where
  pub statements : List Statement
  pub terminator : Option Terminator
  pub is_cleanup : Bool

pub record Body : Type 0 where
  -- the types of the locals
  pub local_decls : List Ty
  pub arg_count : ℕ
  pub basic_blocks : List BasicBlockData
  pub span : ℕ

-- The compiler's queries.
pub record TyCtxt : Type 0 where
  pub needs_drop : Ty → Bool
  pub is_mir_available : ℕ → Bool
  -- the debug string of a definition
  pub def_str : ℕ → List ℕ
  -- the type of a place, and its variant if the place is a downcast
  pub place_ty : Place → Ty × Option ℕ
