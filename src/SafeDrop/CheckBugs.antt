-- ===== src/SafeDrop/CheckBugs.antt =====
-- The checks of safedrop/check_bugs.rs. The reports (`report_bugs`) are output and are not modelled.
pub mod Edges
pub mod Search
pub mod Dangling
pub mod Uaf
pub mod FieldSeq
pub mod Drops
pub mod DeadNode
use package.rapx_log.Prelude.{
  ℕ, zero, suc, ◌+◌, ℤ, as_isize, ltb_ℤ, ◌==◌, Bool, true, false, not, ◌&&◌, ◌||◌, if◌then◌else◌,
  Option, none, some, List, [], ◌∷◌, ◌++◌, length, get_elem?, set, map, contains, insert,
  contains_key, put, Outcome, ok, panic, stuck,
}
use package.rapx_log.SafeDrop.UnionFind.{union_has_alias, union_is_same}
use package.rapx_log.SafeDrop.State.{
  BlockNode, ValueNode, dead, is_alive, is_ptr, is_tuple_kind, is_ref_kind, is_corner_case,
  usize_max, BugRecords, SafeDropGraph, M, ◌>>=◌, ◌>>◌, pure, skip, diverge, when, reads, modify,
  at, value_at, update_value, for_each,
}

-- A search returns whether it found a dead node, and the nodes that it has visited.
abbrev pub Visit : Type 0
Visit = List ℕ → Outcome (Bool × List ℕ)

-- One search after another, until the first that finds something.
abbrev pub or_visit : Visit → Visit → Visit
or_visit v w record_ = elim (v record_) [
  | ok (hit, seen) ↦ (if hit then ok (true, seen) else w seen)
  | panic ↦ panic
  | stuck ↦ stuck
]

-- `record.contains(&i) == false && self.exist_dead(i, ..)`.
pub visit_new : (ℕ → Visit) → ℕ → Visit
visit_new rec i record_ = if contains record_ i then ok (false, record_) else rec i record_

-- The loop over the fields.
pub visit_fields : (ℕ → Visit) → List (ℕ × ℕ) → Visit
unfolding visit_new
visit_fields rec [] record_ = ok (false, record_)
visit_fields rec ((idx, i) ∷ fs) record_ = or_visit (visit_new rec i) (visit_fields rec fs) record_

-- The loop over the alias set, from `i` with `left` to go: `node` itself and the values of its set.
pub visit_aliases : (ℕ → Visit) → List ℕ → ℕ → ℕ → ℕ → Visit
unfolding visit_new
visit_aliases rec alias_set node zero i record_ = ok (false, record_)
visit_aliases rec alias_set node (suc left) i record_ =
    let rest = visit_aliases rec alias_set node left (i + 1) in
    if i == node
    then or_visit (visit_new rec i) rest record_
    else elim (union_is_same alias_set i node) [
      | ok same ↦ (if same then or_visit (visit_new rec i) rest record_ else rest record_)
      | panic ↦ panic
      | stuck ↦ stuck
    ]

-- What the search looks for: a dead node, and if `dangling` a dead pointer.
abbrev pub is_target : Bool → ValueNode → Bool
is_target dangling v = not (is_alive v) && (dangling && is_ptr v.kind || not dangling)

-- The visit of a node that is in range: the node, its aliases if it has any, and its fields.
pub visit_node : (ℕ → Visit) → SafeDropGraph → Bool → ℕ → ValueNode → Visit
unfolding visit_aliases visit_fields
visit_node rec g dangling node v record_ =
    if is_target dangling v then ok (true, record_) else elim (union_has_alias g.alias_set node) [
      | ok aliased ↦
          or_visit
            (if aliased then visit_aliases rec g.alias_set node (length g.alias_set) 0 else λ seen.
              ok (false, seen))
            (visit_fields rec v.fields) (insert record_ node)
      | panic ↦ panic
      | stuck ↦ stuck
    ]

unfoldable pub exist_dead : ℕ → SafeDropGraph → Bool → ℕ → Visit
unfolding visit_node
exist_dead zero g dangling node record_ = stuck
exist_dead (suc fuel) g dangling node record_ = elim (get_elem? g.values node) [
  | none ↦ ok (false, record_)
  | some v ↦ visit_node (exist_dead fuel g dangling) g dangling node v record_
]

-- A search visits each value at most once, so one round for each value and one more are enough.
abbrev pub search_fuel : SafeDropGraph → ℕ
search_fuel g = suc (length g.values)

abbrev pub hit_of : Outcome (Bool × List ℕ) → Outcome Bool
hit_of (ok (hit, seen)) = ok hit
hit_of panic = panic
hit_of stuck = stuck

abbrev pub found_dead : SafeDropGraph → Bool → ℕ → Outcome Bool
found_dead g dangling node = hit_of (exist_dead (search_fuel g) g dangling node [])

unfoldable pub is_dangling : SafeDropGraph → ℕ → Outcome Bool
is_dangling g local = found_dead g (not (local == 0)) local

abbrev set_bugs : (BugRecords → BugRecords) → M (Unit {0})
set_bugs f = modify λ g. record g { bug_records = f g.bug_records }

unfoldable pub uaf_check : ℕ → ℕ → ℕ → Bool → M (Unit {0})
uaf_check aliaset_idx span local is_func_call = value_at aliaset_idx >>= λ v.
    if v.may_drop && (not (is_ptr v.kind) || (not (v.local == local) || is_func_call))
    then (do
      hit ← reads (λ g. found_dead g false aliaset_idx)
      when hit (set_bugs (λ b. record b { uaf_bugs = insert b.uaf_bugs span })))
    else skip

unfoldable pub df_check : ℕ → ℕ → M Bool
df_check drop span = do
  v ← value_at drop
  g ← reads (λ h. ok h.bug_records)
  when (not (is_alive v) && not (contains_key g.df_bugs v.local))
      (set_bugs (λ b. record b { df_bugs = put b.df_bugs v.local span }))
  pure (not (is_alive v))

-- Is argument `i` a pointer that dangles?
abbrev dangling_arg : SafeDropGraph → ℕ → Outcome Bool
dangling_arg g i = elim (get_elem? g.values i) [
  | none ↦ panic
  | some v ↦ (if is_ptr v.kind then is_dangling g i else ok false)
]

-- The loops of `dp_check` over the arguments from `i`, with `left` to go.
pub check_args : (BugRecords → BugRecords) → ℕ → ℕ → M (Unit {0})
unfolding is_dangling
check_args found zero i = skip
check_args found (suc left) i = do
  hit ← reads (λ g. dangling_arg g (i + 1))
  when hit (set_bugs found)
  check_args found left (i + 1)

unfoldable pub dp_check : BlockNode → M (Unit {0})
unfolding is_dangling check_args
dp_check current_block = reads (λ g. ok g.span) >>= λ span.
    reads (λ g. ok g.arg_size) >>= λ arg_size.
    if current_block.is_cleanup
    then check_args (λ b. record b { dp_bugs_unwind = insert b.dp_bugs_unwind span }) arg_size 0
    else (do
      v ← value_at 0
      hit ← (if v.may_drop then reads (λ g. is_dangling g 0) else pure false)
      let dp = λ (b : BugRecords). record b { dp_bugs = insert b.dp_bugs span }
      if hit then set_bugs dp else check_args dp arg_size 0)

-- The loop of `dead_node` over all values from `i`, with `left` to go; `rec` drops an alias.
pub drop_aliases : (ℕ → M (Unit {0})) → ℕ → ℕ → ℕ → M (Unit {0})
drop_aliases rec drop zero i = skip
drop_aliases rec drop (suc left) i = do
  same ← reads (λ g. union_is_same g.alias_set drop i)
  v ← value_at i
  when (not (not same || (i == drop || is_ref_kind v.kind))) (rec i)
  drop_aliases rec drop left (i + 1)

-- A field of a dropped node. A field of a tuple that needs no drop is left alone.
pub drop_field : (ℕ → M (Unit {0})) → ℕ → ℕ × ℕ → M (Unit {0})
drop_field rec drop (idx, i) = do
  v ← value_at drop
  if is_tuple_kind v.kind then (value_at i >>= λ w. when w.need_drop (rec i)) else rec i

-- The end of `dead_node`: a value that is older than the drop dies.
pub kill : ℕ → ℕ → M (Unit {0})
kill drop birth = do
  v ← value_at drop
  when (ltb_ℤ v.birth (as_isize birth) && v.may_drop) (update_value drop dead)

-- The body of `dead_node` after the guards: the first visit of a node.
pub drop_node : (ℕ → Bool → M (Unit {0})) → ℕ → ℕ → Bool → M (Unit {0})
unfolding drop_aliases drop_field kill for_each
drop_node rec drop birth alias = do
  modify (λ g. record g { dead_record = set g.dead_record drop true })
  p ← reads (λ g. at g.alias_set drop)
  n ← reads (λ g. ok (length g.values))
  when (not (p == drop)) (drop_aliases (λ i. rec i true) drop n 0)
  v ← value_at drop
  when (not alias) (for_each (drop_field (λ i. rec i false) drop) v.fields)
  kill drop birth

-- The first visit of a node that no earlier visit of the drop has reached.
pub unless_done : (ℕ → Bool → M (Unit {0})) → ℕ → ℕ → Bool → M (Unit {0})
unfolding drop_node
unless_done rec drop birth alias = reads (λ g. at g.dead_record drop) >>= λ done.
    if done then skip else drop_node rec drop birth alias

unfoldable pub dead_node : ℕ → ℕ → ℕ → ℕ → Bool → M (Unit {0})
unfolding df_check unless_done
dead_node zero drop birth span alias = diverge
dead_node (suc fuel) drop birth span alias = value_at drop >>= λ v.
    if is_corner_case v.kind
    then skip
    else ((if alias then pure false else df_check drop span) >>= λ double.
        if double
        then skip
        else unless_done (λ i a. dead_node fuel i birth span a) drop birth alias)

-- The loop of `get_field_seq`, with the node's father fixed as in the source: `node_ref` moves to
-- the father of `value`, and not to its own.
pub field_seq_loop : ℕ → List ValueNode → ℕ → ValueNode → List ℕ → Outcome (List ℕ)
field_seq_loop zero values father node_ref seq = stuck
field_seq_loop (suc fuel) values father node_ref seq =
    let rest : Outcome (List ℕ) = elim (get_elem? values father) [
      | none ↦ panic
      | some next ↦ field_seq_loop fuel values father next (seq ++ node_ref.field_id ∷ [])
    ] in
    if node_ref.field_id == usize_max then ok seq else rest

unfoldable pub get_field_seq : ℕ → SafeDropGraph → ValueNode → Outcome (List ℕ)
unfolding field_seq_loop
get_field_seq fuel g value = field_seq_loop fuel g.values value.father value []
