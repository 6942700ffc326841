-- ===== src/DataFlow/Source.antt =====
-- What core/dataflow/graph.rs reads of rustc's intermediate representation: the variants it matches
-- on, under rustc's names. Locals, definitions and spans are numbers; a text that rustc renders (a
-- constant, a type, a field index, a variant) comes with the part it is rendered from.
use package.rapx_log.Prelude.{ℕ, Option, List}

abbrev pub Str : Type 0
Str = List ℕ

pub data PlaceElem : Type 0 where
  deref : PlaceElem
  field : Str → PlaceElem
  downcast : Option Str → PlaceElem
  index : ℕ → PlaceElem
  constant_index subslice subtype : PlaceElem
  -- an opaque cast
  other_elem : PlaceElem

pub record Place : Type 0 where
  pub local : ℕ
  pub projection : List PlaceElem

pub record MirConst : Type 0 where
  pub text : Str
  -- the definition, if the constant is a value of a function's type
  pub fn_def : Option ℕ

pub data Operand : Type 0 where
  copy : Place → Operand
  move : Place → Operand
  constant : MirConst → Operand

pub data BorrowKind : Type 0 where
  shared mut_ fake : BorrowKind

pub data AggregateKind : Type 0 where
  array tuple : AggregateKind
  adt closure coroutine : ℕ → AggregateKind
  other_kind : AggregateKind

pub data Rvalue : Type 0 where
  use_ repeat : Operand → Rvalue
  ref_ : BorrowKind → Place → Rvalue
  len : Place → Rvalue
  cast : Operand → Rvalue
  binary_op : Operand → Operand → Rvalue
  aggregate : AggregateKind → List Operand → Rvalue
  unary_op : Operand → Rvalue
  nullary_op : Str → Rvalue
  thread_local_ref : Rvalue
  discriminant : Place → Rvalue
  shallow_init_box : Operand → Rvalue
  copy_for_deref raw_ptr : Place → Rvalue

pub data StatementKind : Type 0 where
  assign : Place → Rvalue → StatementKind
  other_statement : StatementKind

pub record Statement : Type 0 where
  pub kind : StatementKind
  pub span : ℕ

pub data TerminatorKind : Type 0 where
  -- the function, the arguments, the destination
  call : Operand → List Operand → Place → TerminatorKind
  other_terminator : TerminatorKind

pub record Terminator : Type 0 where
  pub kind : TerminatorKind
  pub span : ℕ

pub record BasicBlockData : Type 0 where
  pub statements : List Statement
  pub terminator : Option Terminator

pub record Body : Type 0 where
  pub span : ℕ
  pub arg_count : ℕ
  pub local_decls : ℕ
  pub basic_blocks : List BasicBlockData
