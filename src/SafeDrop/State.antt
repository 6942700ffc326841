-- ===== src/SafeDrop/State.antt =====
-- The state of an analysed function: safedrop/graph.rs and safedrop/bug_records.rs. Vectors are lists
-- with a panic at an index out of range; hash maps and sets are lists in their order of iteration.
pub mod Fields
use package.rapx_log.Prelude.{
  ℕ, ℤ, pos, negsuc, ltb_ℤ, Bool, true, false, if◌then◌else◌, Option, none, List, [], ◌∷◌, ◌++◌,
  get_elem?, set, Outcome, ok, panic, stuck, or_panic,
}
use package.rapx_log.Mir.{Place, Terminator, SwitchTargets}
use package.rapx_log.HeapItem.{AdtOwner}
use package.rapx_log.SafeDrop.Types.{TyKind, is_adt, is_raw_ptr, is_tuple, corner_case, is_ref}

pub data AssignType : Type 0 where
  copied moved init_box variant : AssignType

pub record Assignment : Type 0 where
  pub lv : Place
  pub rv : Place
  pub atype : AssignType
  pub span : ℕ

pub record BlockNode : Type 0 where
  pub index : ℕ
  pub is_cleanup : Bool
  pub next : List ℕ
  pub assignments : List Assignment
  pub calls : List Terminator
  pub drops : List Terminator
  pub scc_sub_blocks : List ℕ
  pub const_value : List (ℕ × ℕ)
  pub switch_stmts : List Terminator
  pub modified_value : List ℕ
  pub scc_outer : Option (List ((ℕ × ℕ) × List ℕ))

abbrev pub new_block : ℕ → Bool → BlockNode
new_block index is_cleanup = record {
  index = index;
  is_cleanup = is_cleanup;
  next = [];
  assignments = [];
  calls = [];
  drops = [];
  scc_sub_blocks = [];
  const_value = [];
  switch_stmts = [];
  modified_value = [];
  scc_outer = none;
}

-- `usize::MAX` of a 64-bit target.
abbrev pub usize_max : ℕ
usize_max = 18_446_744_073_709_551_615

pub record ValueNode : Type 0 where
  pub index : ℕ
  pub local : ℕ
  pub need_drop : Bool
  pub may_drop : Bool
  pub kind : TyKind
  pub father : ℕ
  pub field_id : ℕ
  pub birth : ℤ
  pub fields : List (ℕ × ℕ)

abbrev pub new_value : ℕ → ℕ → Bool → Bool → ValueNode
new_value index local need_drop may_drop = record {
  index = index;
  local = local;
  need_drop = need_drop;
  may_drop = may_drop;
  kind = is_adt;
  father = local;
  field_id = usize_max;
  birth = pos 0;
  fields = [];
}

abbrev pub dead : ValueNode → ValueNode
dead v = record v { birth = negsuc 0 }

abbrev pub is_alive : ValueNode → Bool
is_alive v = ltb_ℤ (negsuc 0) v.birth

abbrev pub is_tuple_kind : TyKind → Bool
is_tuple_kind is_tuple = true
is_tuple_kind _ = false

abbrev pub is_ptr : TyKind → Bool
is_ptr is_raw_ptr = true
is_ptr is_ref = true
is_ptr _ = false

abbrev pub is_ref_kind : TyKind → Bool
is_ref_kind is_ref = true
is_ref_kind _ = false

abbrev pub is_corner_case : TyKind → Bool
is_corner_case corner_case = true
is_corner_case _ = false

pub record BugRecords : Type 0 where
  pub df_bugs : List (ℕ × ℕ)
  pub df_bugs_unwind : List (ℕ × ℕ)
  pub uaf_bugs : List ℕ
  pub dp_bugs : List ℕ
  pub dp_bugs_unwind : List ℕ

abbrev pub no_bugs : BugRecords
no_bugs = record {
  df_bugs = [];
  df_bugs_unwind = [];
  uaf_bugs = [];
  dp_bugs = [];
  dp_bugs_unwind = [];
}

pub record SafeDropGraph : Type 0 where
  pub def_id : ℕ
  pub span : ℕ
  pub values : List ValueNode
  pub blocks : List BlockNode
  pub arg_size : ℕ
  pub scc_indices : List ℕ
  pub constants : List (ℕ × ℕ)
  pub return_set : List (ℕ × ℕ)
  pub bug_records : BugRecords
  pub visit_times : ℕ
  pub alias_set : List ℕ
  pub dead_record : List Bool
  pub adt_owner : AdtOwner
  pub child_scc : List (ℕ × (BlockNode × SwitchTargets × List ℕ))

-- A method that changes the graph.
abbrev pub M : Type 0 → Type 0
M A = SafeDropGraph → Outcome (A × SafeDropGraph)

-- What follows a part that has been run.
abbrev pub and_then :
    {A B : Type 0} → Outcome (A × SafeDropGraph) → (A → M B) → Outcome (B × SafeDropGraph)
and_then (ok (a, h)) f = f a h
and_then panic f = panic
and_then stuck f = stuck

infixl 5 ◌>>=◌ ◌>>◌
abbrev pub ◌>>=◌ : {A B : Type 0} → M A → (A → M B) → M B
◌>>=◌ m f g = and_then (m g) f

abbrev pub ◌>>◌ : {B : Type 0} → M (Unit {0}) → M B → M B
m >> k = m >>= λ _. k

abbrev pub pure : {A : Type 0} → A → M A
pure a g = ok (a, g)

abbrev pub skip : M (Unit {0})
skip = pure tt

-- The end of a model's fuel.
abbrev pub diverge : {A : Type 0} → M A
diverge g = stuck

abbrev pub when : Bool → M (Unit {0}) → M (Unit {0})
when b m = if b then m else skip

-- A computation that only reads.
abbrev pub with_graph : {A : Type 0} → Outcome A → SafeDropGraph → Outcome (A × SafeDropGraph)
with_graph (ok a) g = ok (a, g)
with_graph panic g = panic
with_graph stuck g = stuck

abbrev pub reads : {A : Type 0} → (SafeDropGraph → Outcome A) → M A
reads f g = with_graph (f g) g

abbrev pub modify : (SafeDropGraph → SafeDropGraph) → M (Unit {0})
modify f g = ok (tt, f g)

abbrev pub at {ℓ} : {A : Type ℓ} → List A → ℕ → Outcome A
at xs i = or_panic (get_elem? xs i)

abbrev pub value_at : ℕ → M ValueNode
value_at i = reads (λ g. at g.values i)

-- `self.values[i]` with a field assigned.
abbrev pub update_value : ℕ → (ValueNode → ValueNode) → M (Unit {0})
update_value i f = value_at i >>= λ v. modify (λ g. record g { values = set g.values i (f v) })

-- A new node at the end of the three vectors that run in parallel, with its entry in the alias set.
abbrev pub push_value : ℕ → ValueNode → M (Unit {0})
push_value entry v = modify λ g. record g {
  alias_set = g.alias_set ++ entry ∷ [];
  dead_record = g.dead_record ++ false ∷ [];
  values = g.values ++ v ∷ [];
}

unfoldable pub for_each {ℓ} : {A : Type ℓ} → (A → M (Unit {0})) → List A → M (Unit {0})
for_each f [] = skip
for_each f (x ∷ xs) = f x >> for_each f xs
