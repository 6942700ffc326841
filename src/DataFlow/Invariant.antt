-- ===== src/DataFlow/Invariant.antt =====
-- The graph of a body is sound: the build does not panic on a body whose locals are declared and
-- that has none of the constructs that the source leaves to do.
use rapx_log.Prelude.{
  ℕ, ◌+◌, ◌≤◌, ◌<◌, ◌≡◌, refl, ◌∙◌, some, List, [], ◌∷◌, length, get_elem?, set, length-set,
  length-append, lt_of_get_elem, get_elem?-some, get_elem?-set_self, All, Outcome, ok, ◌>>=◌, arith,
}
use rapx_log.DataFlow.Source.{
  Place, Operand, AggregateKind, array, tuple, adt, closure, coroutine, other_kind, Rvalue, use_,
  repeat, ref_, len, cast, binary_op, aggregate, unary_op, nullary_op, thread_local_ref,
  discriminant, shallow_init_box, copy_for_deref, raw_ptr,
}
use rapx_log.DataFlow.{
  EdgeOp, checked_binary_op, nullary_op_, add_place, add_operand, add_operands, nop_edge, GraphEdge,
  GraphNode, Graph, NodeOp, nop_op, update_node,
}
use rapx_log.DataFlow.Build.{set_op, set_aggregate, add_rvalue, room_for}
use rapx_log.DataFlow.Sound.{
  NodeSound, IsSound, Grows, Grows-trans, update_node-runs, set_node-Grows, set_node-IsSound,
}
use rapx_log.DataFlow.Edges.{
  Steps, then-Steps, HasPlace, HasOperand, add_place-Steps, add_operand-Steps, add_operands-Steps,
  add_const_edge-Steps,
}

-- The node is there, and `ops[seq]` can be written.
abbrev pub Writable : Graph → ℕ → ℕ → Type 0
Writable g dst seq =
    (v : GraphNode) × (get_elem? g.nodes dst ≡ some v) × (v.seq ≡ seq) × (seq < length v.ops)

pub Writable-Grows :
    (g h : Graph) (dst seq : ℕ) → Grows g h → Writable g dst seq → Writable h dst seq
Writable-Grows g h dst seq grow (v, at, same, lt) =
    let (w, at', s, o) = grow.kept dst v at in (w, at', s ∙ same, omega (arith, o, lt))

pub Writable-lt : (g : Graph) (dst seq : ℕ) → Writable g dst seq → dst < length g.nodes
Writable-lt g dst seq (v, at, same, lt) = lt_of_get_elem g.nodes dst at

pub set_op-Steps :
    (dst seq : ℕ) (op : NodeOp) (g : Graph)
    → IsSound g
    → Writable g dst seq
    → Steps g (set_op dst seq op g)
unfolding set_op update_node
set_op-Steps dst seq op g sound (v, at, same, lt) =
    let (old, there) = get_elem?-some v.ops seq lt in
    let w : GraphNode = record v { ops = set v.ops seq op } in
    let s = sound.nodes dst v at in
    (
      record g { nodes = set g.nodes dst w },
      rw (at, there),
      set_node-Grows g dst v w sound at
          (record {
            ins = s.ins;
            outs = s.outs;
            room = omega (arith, s.room, length-set v.ops seq op);
            has_op = omega (arith, s.has_op, length-set v.ops seq op);
          })
          refl (length-set v.ops seq op),
    )

abbrev pub HasKind : AggregateKind → Type 0
HasKind array = Unit
HasKind tuple = Unit
HasKind (adt d) = Unit
HasKind (closure d) = Unit
HasKind (coroutine d) = Unit
HasKind other_kind = ⊥

abbrev pub HasRvalue : ℕ → Rvalue → Type 0
HasRvalue n (use_ x) = HasOperand n x
HasRvalue n (repeat x) = HasOperand n x
HasRvalue n (ref_ k place) = HasPlace n place
HasRvalue n (len place) = HasPlace n place
HasRvalue n (cast x) = HasOperand n x
HasRvalue n (binary_op x y) = HasOperand n x × HasOperand n y
HasRvalue n (aggregate kind xs) = HasKind kind × All (HasOperand n) xs
HasRvalue n (unary_op x) = HasOperand n x
HasRvalue n (nullary_op ty) = Unit
HasRvalue n thread_local_ref = ⊥
HasRvalue n (discriminant place) = HasPlace n place
HasRvalue n (shallow_init_box x) = HasOperand n x
HasRvalue n (copy_for_deref place) = HasPlace n place
HasRvalue n (raw_ptr place) = HasPlace n place

set_aggregate-Steps :
    (kind : AggregateKind) (dst seq : ℕ) (g : Graph)
    → HasKind kind
    → IsSound g
    → Writable g dst seq
    → Steps g (set_aggregate kind dst seq g)
unfolding set_aggregate
set_aggregate-Steps array dst seq g has sound w = set_op-Steps dst seq _ g sound w
set_aggregate-Steps tuple dst seq g has sound w = set_op-Steps dst seq _ g sound w
set_aggregate-Steps (adt d) dst seq g has sound w = set_op-Steps dst seq _ g sound w
set_aggregate-Steps (closure d) dst seq g has sound w = set_op-Steps dst seq _ g sound w
set_aggregate-Steps (coroutine d) dst seq g has sound w = set_op-Steps dst seq _ g sound w
set_aggregate-Steps other_kind dst seq g has sound w = absurd has

module _ (n dst seq : ℕ) (g : Graph) (sound : IsSound g) (le : n ≤ length g.nodes)
    (w : Writable g dst seq) where
  -- Edges first, then the operation.
  edges_then_op :
      (run : Outcome Graph) (op : NodeOp) → Steps g run → Steps g (run >>= set_op dst seq op)
  edges_then_op run op steps =
      then-Steps g run (set_op dst seq op) steps
        (λ h grow. set_op-Steps dst seq op h grow.sound (Writable-Grows g h dst seq grow w))

  by_place :
      (place : Place) (op : NodeOp) (e : EdgeOp)
      → HasPlace n place
      → Steps g (add_place place dst e g >>= set_op dst seq op)
  by_place place op e has =
      edges_then_op _ op (add_place-Steps n place dst e g sound le (Writable-lt g dst seq w) has)

  by_operand :
      (x : Operand) (op : NodeOp)
      → HasOperand n x
      → Steps g (add_operand x dst g >>= set_op dst seq op)
  by_operand x op has =
      edges_then_op _ op (add_operand-Steps n x dst g sound le (Writable-lt g dst seq w) has)

  by_operands :
      (xs : List Operand) (op : NodeOp)
      → All (HasOperand n) xs
      → Steps g (add_operands xs dst g >>= set_op dst seq op)
  by_operands xs op has =
      edges_then_op _ op (add_operands-Steps n xs dst g sound le (Writable-lt g dst seq w) has)

  set_aggregate-after :
      (kind : AggregateKind) (xs : List Operand)
      → HasKind kind
      → All (HasOperand n) xs
      → Steps g (add_operands xs dst g >>= set_aggregate kind dst seq)
  set_aggregate-after kind xs has has' =
      then-Steps g (add_operands xs dst g) (set_aggregate kind dst seq)
        (add_operands-Steps n xs dst g sound le (Writable-lt g dst seq w) has')
        (λ h grow.
          set_aggregate-Steps kind dst seq h has grow.sound (Writable-Grows g h dst seq grow w))

  pub add_rvalue-Steps :
      (rvalue : Rvalue) → HasRvalue n rvalue → Steps g (add_rvalue rvalue dst seq g)
  unfolding add_rvalue
  add_rvalue-Steps (use_ x) has = by_operand x _ has
  add_rvalue-Steps (repeat x) has = by_operand x _ has
  add_rvalue-Steps (ref_ kind place) has = by_place place _ _ has
  add_rvalue-Steps (len place) has = by_place place _ _ has
  add_rvalue-Steps (cast x) has = by_operand x _ has
  add_rvalue-Steps (binary_op x y) (has, has') =
      let lt = Writable-lt g dst seq w in
      then-Steps g (add_operand x dst g) _ (add_operand-Steps n x dst g sound le lt has) (λ h grow.
        then-Steps h (add_operand y dst h) (set_op dst seq checked_binary_op)
          (add_operand-Steps n y dst h grow.sound (omega (arith, le, grow.nodes))
            (omega (arith, lt, grow.nodes)) has')
          (λ k grow'.
            set_op-Steps dst seq checked_binary_op k grow'.sound
              (Writable-Grows g k dst seq (Grows-trans grow grow') w)))
  add_rvalue-Steps (aggregate kind xs) (has, has') = set_aggregate-after kind xs has has'
  add_rvalue-Steps (unary_op x) has = by_operand x _ has
  add_rvalue-Steps (nullary_op ty) has =
      let (h, run, grow) = add_const_edge-Steps ty dst nop_edge g sound (Writable-lt g dst seq w) in
      let (k, run', grow') =
        set_op-Steps dst seq nullary_op_ h grow.sound (Writable-Grows g h dst seq grow w) in
      (k, rw run run', Grows-trans grow grow')
  add_rvalue-Steps thread_local_ref has = absurd has
  add_rvalue-Steps (discriminant place) has = by_place place _ _ has
  add_rvalue-Steps (shallow_init_box x) has = by_operand x _ has
  add_rvalue-Steps (copy_for_deref place) has = by_place place _ _ has
  add_rvalue-Steps (raw_ptr place) has = by_place place _ _ has

-- The run returns a sound graph with no fewer nodes.
abbrev pub Builds : Graph → Outcome Graph → Type 0
Builds g run = (h : Graph) × (run ≡ ok h) × IsSound h × (length g.nodes ≤ length h.nodes)

pub set_span-Steps :
    (dst span : ℕ) (g : Graph)
    → IsSound g
    → dst < length g.nodes
    → Steps g (update_node dst (λ w. record w { span = span }) g)
set_span-Steps dst span g sound lt =
    let (v, at) = get_elem?-some g.nodes dst lt in
    let s = sound.nodes dst v at in
    let w : GraphNode = record v { span = span } in
    (
      record g { nodes = set g.nodes dst w },
      update_node-runs g dst (λ w. record w { span = span }) v at,
      set_node-Grows g dst v w sound at
          (record { ins = s.ins; outs = s.outs; room = s.room; has_op = s.has_op }) refl refl,
    )

room_for-Sound :
    (edges : List GraphEdge) (i : ℕ) (v : GraphNode)
    → NodeSound edges i v
    → NodeSound edges i (room_for v) × (v.seq < length (room_for v).ops)
room_for-Sound edges i v s =
    let longer = length-append v.ops (nop_op ∷ []) in
    (
      record {
        ins = s.ins;
        outs = s.outs;
        room = ground (arith, longer, s.room);
        has_op = ground (arith, longer, s.has_op);
      },
      ground (arith, longer, s.room),
    )

-- One batch of edges: room for its operation, the edges with the operation, and the next number.
pub in_batch :
    (g : Graph) (dst : ℕ) (v : GraphNode) (mid : Graph → Outcome Graph)
    → IsSound g
    → get_elem? g.nodes dst ≡ some v
    → ((h : Graph)
        → IsSound h
        → length h.nodes ≡ length g.nodes
        → Writable h dst v.seq
        → Steps h (mid h))
    → Builds g (
        update_node dst room_for g >>= λ h.
        (mid h >>= λ k. update_node dst (λ w. record w { seq = v.seq + 1 }) k))
in_batch g dst v mid sound at steps =
    let lt = lt_of_get_elem g.nodes dst at in
    let (s, room) = room_for-Sound g.edges dst v (sound.nodes dst v at) in
    let g1 : Graph = record g { nodes = set g.nodes dst (room_for v) } in
    let same = length-set g.nodes dst (room_for v) in
    let sound1 = set_node-IsSound g dst (room_for v) sound s in
    let w1 : Writable g1 dst v.seq =
      (room_for v, get_elem?-set_self g.nodes dst (room_for v) lt, refl, room) in
    let (k, run, grow) = steps g1 sound1 same w1 in
    let (w, at', seq, lt') = Writable-Grows g1 k dst v.seq grow w1 in
    let w' : GraphNode = record w { seq = v.seq + 1 } in
    let s' = grow.sound.nodes dst w at' in
    (
      record k { nodes = set k.nodes dst w' },
      rw (update_node-runs g dst room_for v at, run)
          (update_node-runs k dst (λ w. record w { seq = v.seq + 1 }) w at'),
      set_node-IsSound k dst w' grow.sound
          (record { ins = s'.ins; outs = s'.outs; room = omega (arith, lt'); has_op = s'.has_op }),
      omega (arith, same, grow.nodes, length-set k.nodes dst w'),
    )
