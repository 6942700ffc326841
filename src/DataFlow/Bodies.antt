-- ===== src/DataFlow/Bodies.antt =====
-- The graph of a whole body is sound.
use rapx_log.Prelude.{
  ℕ, zero, suc, ◌≤◌, ◌<◌, ◌≡◌, refl, subst, ap, some, none, Option, List, [], ◌∷◌, length,
  get_elem?, get_elem?-some, All, Outcome, ok, ◌>>=◌, arith,
}
use rapx_log.DataFlow.Source.{
  Place, Operand, copy, move, constant, Rvalue, StatementKind, assign, other_statement, Statement,
  TerminatorKind, call, other_terminator, Terminator, BasicBlockData, Body,
}
use rapx_log.DataFlow.{
  dummy_sp, nop_op, GraphNode, Graph, new_node, new_graph, replicate, call_op, call_operand,
  add_operand, add_operands, update_node,
}
use rapx_log.DataFlow.Build.{
  add_rvalue, set_op, add_statm_to_graph, add_call, add_terminator_to_graph, add_statements,
  add_block, add_blocks, build_graph, end_block,
}
use rapx_log.DataFlow.Sound.{new_node-Sound, NodeSound, IsSound, Grows-refl, Grows-trans}
use rapx_log.DataFlow.Edges.{
  Steps, then-Steps, HasPlace, HasOperand, parse_place-Finds, add_operand-Steps, add_operands-Steps,
}
use rapx_log.DataFlow.Invariant.{
  Writable, Writable-Grows, Writable-lt, set_op-Steps, HasRvalue, add_rvalue-Steps, Builds,
  set_span-Steps, in_batch,
}

abbrev pub HasStatement : ℕ → StatementKind → Type 0
HasStatement n (assign place rvalue) = HasPlace n place × HasRvalue n rvalue
HasStatement n other_statement = Unit

-- The called operand is a constant or a moved place.
abbrev pub HasFunc : ℕ → Operand → Type 0
HasFunc n (copy place) = ⊥
HasFunc n (move place) = HasPlace n place
HasFunc n (constant c) = Unit

abbrev pub HasTerminator : ℕ → TerminatorKind → Type 0
HasTerminator n (call func args destination) =
    HasFunc n func × All (HasOperand n) args × (destination.local < n)
HasTerminator n other_terminator = Unit

abbrev pub HasOptTerminator : ℕ → Option Terminator → Type 0
HasOptTerminator n none = Unit
HasOptTerminator n (some terminator) = HasTerminator n terminator.kind

abbrev pub HasBlock : ℕ → BasicBlockData → Type 0
HasBlock n block =
    All (λ s. HasStatement n s.kind) block.statements × HasOptTerminator n block.terminator

-- Every local that the body names is declared, and it has no construct that the source leaves to do.
abbrev pub IsCovered : Body → Type 0
IsCovered body = All (HasBlock body.local_decls) body.basic_blocks

module _ (n : ℕ) where
  add_assign-Builds :
      (place : Place) (rvalue : Rvalue) (span : ℕ) (g : Graph)
      → IsSound g
      → n ≤ length g.nodes
      → HasPlace n place
      → HasRvalue n rvalue
      → Builds g (add_statm_to_graph (record { kind = assign place rvalue; span = span }) g)
  unfolding add_statm_to_graph
  add_assign-Builds place rvalue span g sound le has has' =
      let (d, h, run, grow, lt) = parse_place-Finds n place g sound le has in
      let (h1, run1, grow1) = set_span-Steps d span h grow.sound lt in
      let (v, at) = get_elem?-some h1.nodes d (omega (arith, lt, grow1.nodes)) in
      let (k, run2, sound2, le2) =
        in_batch h1 d v (add_rvalue rvalue d v.seq) grow1.sound at (λ x s same w.
          add_rvalue-Steps n d v.seq x s (omega (arith, le, grow.nodes, grow1.nodes, same)) w rvalue
            has') in
      (k, rw (run, run1, at) run2, sound2, omega (arith, grow.nodes, grow1.nodes, le2))

  add_statement-Builds :
      (statement : Statement) (g : Graph)
      → IsSound g
      → n ≤ length g.nodes
      → HasStatement n statement.kind
      → Builds g (add_statm_to_graph statement g)
  unfolding add_statm_to_graph
  add_statement-Builds statement g sound le has = by_kind statement.kind has
    where
      by_kind :
          (kind : StatementKind)
          → HasStatement n kind
          → Builds g (add_statm_to_graph (record { kind = kind; span = statement.span }) g)
      by_kind (assign place rvalue) (a, b) =
          add_assign-Builds place rvalue statement.span g sound le a b
      by_kind other_statement has = (g, refl, sound, omega arith)

  add_call-Steps :
      (func : Operand) (args : List Operand) (dst seq : ℕ) (g : Graph)
      → IsSound g
      → n ≤ length g.nodes
      → Writable g dst seq
      → HasFunc n func
      → All (HasOperand n) args
      → Steps g (add_call func args dst seq g)
  unfolding add_call
  add_call-Steps (copy place) args dst seq g sound le w has has' = absurd has
  add_call-Steps (move place) args dst seq g sound le w has has' =
      let lt = Writable-lt g dst seq w in
      then-Steps g (add_operand (move place) dst g) _
        (add_operand-Steps n (move place) dst g sound le lt has)
        (λ h grow.
          then-Steps h (add_operands args dst h) (set_op dst seq call_operand)
            (add_operands-Steps n args dst h grow.sound (omega (arith, le, grow.nodes))
              (omega (arith, lt, grow.nodes)) has')
            (λ k grow'.
              set_op-Steps dst seq call_operand k grow'.sound
                (Writable-Grows g k dst seq (Grows-trans grow grow') w)))
  add_call-Steps (constant c) args dst seq g sound le w has has' = by_def c.text c.fn_def
    where
      by_def :
          (text : List ℕ) (d : Option ℕ)
          → Steps g (add_call (constant (record { text = text; fn_def = d })) args dst seq g)
      by_def text none = (g, refl, Grows-refl g sound)
      by_def text (some def_id) =
          then-Steps g (add_operands args dst g) (set_op dst seq (call_op def_id))
            (add_operands-Steps n args dst g sound le (Writable-lt g dst seq w) has')
            (λ h grow. set_op-Steps dst seq _ h grow.sound (Writable-Grows g h dst seq grow w))

  add_terminator-Builds :
      (terminator : Terminator) (g : Graph)
      → IsSound g
      → n ≤ length g.nodes
      → HasTerminator n terminator.kind
      → Builds g (add_terminator_to_graph terminator g)
  unfolding add_terminator_to_graph
  add_terminator-Builds terminator g sound le has = by_kind terminator.kind has
    where
      by_kind :
          (kind : TerminatorKind)
          → HasTerminator n kind
          → Builds g (add_terminator_to_graph (record { kind = kind; span = terminator.span }) g)
      by_kind other_terminator has = (g, refl, sound, omega arith)
      by_kind (call func args destination) (a, b, lt) =
          let dst = destination.local in
          let (v, at) = get_elem?-some g.nodes dst (omega (arith, lt, le)) in
          let set_span = update_node dst (λ w. record w { span = terminator.span }) in
          let (k, run, sound', le') =
            in_batch g dst v (λ h. add_call func args dst v.seq h >>= set_span) sound at
              (λ h s same w.
                then-Steps h (add_call func args dst v.seq h) set_span
                  (add_call-Steps func args dst v.seq h s (omega (arith, le, same)) w a b)
                  (λ k grow.
                    set_span-Steps dst terminator.span k grow.sound
                      (omega (arith, lt, le, same, grow.nodes)))) in
          (k, rw at run, sound', le')

  then-Builds :
      (g : Graph) (run : Outcome Graph) (next : Graph → Outcome Graph)
      → n ≤ length g.nodes
      → Builds g run
      → ((h : Graph) → IsSound h → n ≤ length h.nodes → Builds h (next h))
      → Builds g (run >>= next)
  then-Builds g run next le (h, e, sound, more) rest =
      let (k, f, sound', more') = rest h sound (omega (arith, le, more)) in
      (k, rw (e, f), sound', omega (arith, more, more'))

  add_statements-Builds :
      (statements : List Statement) (g : Graph)
      → IsSound g
      → n ≤ length g.nodes
      → All (λ s. HasStatement n s.kind) statements
      → Builds g (add_statements statements g)
  unfolding add_statements
  add_statements-Builds [] g sound le has = (g, refl, sound, omega arith)
  add_statements-Builds (s ∷ ss) g sound le (has, rest) =
      then-Builds g (add_statm_to_graph s g) (add_statements ss) le
        (add_statement-Builds s g sound le has)
        (λ h sound' le'. add_statements-Builds ss h sound' le' rest)

  add_block-Builds :
      (block : BasicBlockData) (g : Graph)
      → IsSound g
      → n ≤ length g.nodes
      → HasBlock n block
      → Builds g (add_block block g)
  unfolding add_block
  add_block-Builds block g sound le (has, has') =
      then-Builds g (add_statements block.statements g) _ le
        (add_statements-Builds block.statements g sound le has)
        (λ h sound' le'. by_terminator block.terminator h sound' le' has')
    where
      by_terminator :
          (t : Option Terminator) (h : Graph)
          → IsSound h
          → n ≤ length h.nodes
          → HasOptTerminator n t
          → Builds h (end_block t h)
      by_terminator none h sound le has = (h, refl, sound, omega arith)
      by_terminator (some t) h sound le has = add_terminator-Builds t h sound le has

  add_blocks-Builds :
      (blocks : List BasicBlockData) (g : Graph)
      → IsSound g
      → n ≤ length g.nodes
      → All (HasBlock n) blocks
      → Builds g (add_blocks blocks g)
  unfolding add_blocks
  add_blocks-Builds [] g sound le has = (g, refl, sound, omega arith)
  add_blocks-Builds (b ∷ bs) g sound le (has, rest) =
      then-Builds g (add_block b g) (add_blocks bs) le (add_block-Builds b g sound le has)
        (λ h sound' le'. add_blocks-Builds bs h sound' le' rest)

length-replicate : (n : ℕ) (v : GraphNode) → length (replicate n v) ≡ n
length-replicate zero v = refl
length-replicate (suc n) v = ap suc (length-replicate n v)

get_elem?-replicate : (n i : ℕ) (v w : GraphNode) → get_elem? (replicate n v) i ≡ some w → v ≡ w
get_elem?-replicate zero i v w h = cc
get_elem?-replicate (suc n) zero v w h = cc
get_elem?-replicate (suc n) (suc i) v w h = get_elem?-replicate n i v w h

new_graph-IsSound : (def_id span argc n_locals : ℕ) → IsSound (new_graph def_id span argc n_locals)
unfolding new_graph new_node
new_graph-IsSound def_id span argc n_locals = record {
  ends = λ k e at. cc;
  nodes = λ i v at.
      subst (λ z. NodeSound [] i z) (get_elem?-replicate n_locals i new_node v at)
        (new_node-Sound [] i dummy_sp nop_op);
}

pub build_graph-IsSound :
    (def_id : ℕ) (body : Body)
    → IsCovered body
    → (g : Graph) × (build_graph def_id body ≡ ok g)
      × IsSound g
      × (body.local_decls ≤ length g.nodes)
unfolding build_graph new_graph
build_graph-IsSound def_id body covered =
    let g = new_graph def_id body.span body.arg_count body.local_decls in
    let many = length-replicate body.local_decls new_node in
    let (h, run, sound, more) =
      add_blocks-Builds body.local_decls body.basic_blocks g
        (new_graph-IsSound def_id body.span body.arg_count body.local_decls) (omega (arith, many))
        covered in
    (h, run, sound, omega (arith, many, more))
