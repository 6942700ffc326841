-- ===== src/DataFlow/Edges.antt =====
-- Every method that adds edges returns on a sound graph and keeps it sound, when the locals it is
-- given are nodes and the place has no projection that the source leaves to do.
use rapx_log.Prelude.{
  get_elem?-last, ℕ, ◌≤◌, ◌<◌, ◌≡◌, refl, some, none, List, [], ◌∷◌, length, set, length-append,
  get_elem?-some, All, Outcome, ok, ◌>>=◌, arith,
}
use rapx_log.DataFlow.Source.{
  Str, PlaceElem, deref, field, downcast, index, constant_index, subslice, subtype, other_elem,
  Place, Operand, copy, move, constant,
}
use rapx_log.DataFlow.{
  dummy_sp, nop_op, GraphEdge, GraphNode, Graph, EdgeOp, new_node, update_node, push_in, push_out,
  push_node, push_edge, add_node_edge, add_const_edge, step_edges, parse_one_step, parse_steps,
  parse_place, add_place, add_operand, add_operands, const_node, const_edge, index_edge,
}
use rapx_log.DataFlow.Sound.{
  new_node-Sound, IsSound, Grows, Grows-refl, Grows-trans, push_edge-Grows, push_node-Grows,
  update_node-runs, set_node-Grows, Memᴰ-snoc, HasEdge,
}

-- The run returns a sound graph that has grown.
abbrev pub Steps : Graph → Outcome Graph → Type 0
Steps g run = (h : Graph) × (run ≡ ok h) × Grows g h

-- The same, with a node.
abbrev pub Finds : Graph → Outcome (ℕ × Graph) → Type 0
Finds g run = (n : ℕ) × (h : Graph) × (run ≡ ok (n, h)) × Grows g h × (n < length h.nodes)

push_in-Grows :
    (g : Graph) (i k : ℕ)
    → IsSound g
    → i < length g.nodes
    → HasEdge g.edges k (λ e. e.dst ≡ i)
    → Steps g (update_node i (push_in k) g)
push_in-Grows g i k sound lt edge =
    let (v, at) = get_elem?-some g.nodes i lt in
    let s = sound.nodes i v at in
    (
      record g { nodes = set g.nodes i (push_in k v) },
      update_node-runs g i (push_in k) v at,
      set_node-Grows g i v (push_in k v) sound at
          (record {
            ins = λ j m.
                Memᴰ-snoc v.in_edges k j (λ z. HasEdge g.edges z (λ e. e.dst ≡ i)) s.ins edge m;
            outs = s.outs;
            room = s.room;
            has_op = s.has_op;
          })
          refl refl,
    )

push_out-Grows :
    (g : Graph) (i k : ℕ)
    → IsSound g
    → i < length g.nodes
    → HasEdge g.edges k (λ e. e.src ≡ i)
    → Steps g (update_node i (push_out k) g)
push_out-Grows g i k sound lt edge =
    let (v, at) = get_elem?-some g.nodes i lt in
    let s = sound.nodes i v at in
    (
      record g { nodes = set g.nodes i (push_out k v) },
      update_node-runs g i (push_out k) v at,
      set_node-Grows g i v (push_out k v) sound at
          (record {
            ins = s.ins;
            outs = λ j m.
                Memᴰ-snoc v.out_edges k j (λ z. HasEdge g.edges z (λ e. e.src ≡ i)) s.outs edge m;
            room = s.room;
            has_op = s.has_op;
          })
          refl refl,
    )

pub add_node_edge-Steps :
    (src dst : ℕ) (op : EdgeOp) (g : Graph)
    → IsSound g
    → src < length g.nodes
    → dst < length g.nodes
    → (h : Graph) × (add_node_edge src dst op g ≡ ok (length g.edges, h)) × Grows g h
unfolding add_node_edge push_edge
add_node_edge-Steps src dst op g sound lt_s lt_d =
    let (target, at) = get_elem?-some g.nodes dst lt_d in
    let e : GraphEdge = record { src = src; dst = dst; op = op; seq = target.seq } in
    let g1 = push_edge e g in
    let grow1 = push_edge-Grows g e sound lt_s lt_d in
    let there = get_elem?-last g.edges e in
    let (g2, run2, grow2) =
      push_in-Grows g1 dst (length g.edges) grow1.sound lt_d (e, there, refl) in
    let (g3, run3, grow3) =
      push_out-Grows g2 src (length g.edges) grow2.sound (omega (arith, lt_s, grow2.nodes))
        (e, grow2.edges (length g.edges) e there, refl) in
    (g3, rw (at, run2, run3), Grows-trans grow1 (Grows-trans grow2 grow3))

pub add_const_edge-Steps :
    (text : Str) (dst : ℕ) (op : EdgeOp) (g : Graph)
    → IsSound g
    → dst < length g.nodes
    → (h : Graph) × (add_const_edge text dst op g ≡ ok (length g.edges, h)) × Grows g h
unfolding add_const_edge push_node push_edge new_node
add_const_edge-Steps text dst op g sound lt =
    let (target, at) = get_elem?-some g.nodes dst lt in
    let c : GraphNode = record new_node { ops = const_node text ∷ [] } in
    let g1 = push_node c g in
    let grow1 =
      push_node-Grows g c sound
        (new_node-Sound g.edges (length g.nodes) dummy_sp (const_node text)) in
    let longer = length-append g.nodes (c ∷ []) in
    let e : GraphEdge = record { src = length g.nodes; dst = dst; op = op; seq = target.seq } in
    let grow2 = push_edge-Grows g1 e grow1.sound (omega (arith, longer)) (omega (arith, longer)) in
    let (g3, run3, grow3) =
      push_in-Grows (push_edge e g1) dst (length g.edges) grow2.sound (omega (arith, longer))
        (e, get_elem?-last g.edges e, refl) in
    (g3, rw (at, run3), Grows-trans grow1 (Grows-trans grow2 grow3))

-- The locals of a place are nodes below `n`, and the source has a case for each of its projections.
abbrev pub HasElem : ℕ → PlaceElem → Type 0
HasElem n deref = Unit
HasElem n (field f) = Unit
HasElem n (downcast none) = ⊥
HasElem n (downcast (some symbol)) = Unit
HasElem n (index idx) = idx < n
HasElem n constant_index = Unit
HasElem n subslice = Unit
HasElem n subtype = Unit
HasElem n other_elem = ⊥

pub record HasPlace (n : ℕ) (place : Place) : Type 0 where
  pub local : place.local < n
  pub projection : All (HasElem n) place.projection

abbrev pub HasOperand : ℕ → Operand → Type 0
HasOperand n (copy place) = HasPlace n place
HasOperand n (move place) = HasPlace n place
HasOperand n (constant c) = Unit

-- Two parts, one after the other.
pub then-Steps :
    (g : Graph) (run : Outcome Graph) (next : Graph → Outcome Graph)
    → Steps g run
    → ((h : Graph) → Grows g h → Steps h (next h))
    → Steps g (run >>= next)
then-Steps g run next (h, e, grow) rest =
    let (k, f, grow') = rest h grow in (k, rw (e, f), Grows-trans grow grow')

one_edge :
    (src dst : ℕ) (op : EdgeOp) (g : Graph)
    → IsSound g
    → src < length g.nodes
    → dst < length g.nodes
    → (k : ℕ) × (h : Graph) × (add_node_edge src dst op g ≡ ok (k, h)) × Grows g h
one_edge src dst op g sound lt lt' =
    let (h, run, grow) = add_node_edge-Steps src dst op g sound lt lt' in
    (length g.edges, h, run, grow)

module _ (n : ℕ) where
  step_edges-Steps :
      (src dst : ℕ) (x : PlaceElem) (g : Graph)
      → IsSound g
      → n ≤ length g.nodes
      → src < length g.nodes
      → dst < length g.nodes
      → HasElem n x
      → (k : ℕ) × (h : Graph) × (step_edges src dst x g ≡ ok (k, h)) × Grows g h
  unfolding step_edges
  step_edges-Steps src dst deref g sound le lt lt' has = one_edge src dst _ g sound lt lt'
  step_edges-Steps src dst (field f) g sound le lt lt' has = one_edge src dst _ g sound lt lt'
  step_edges-Steps src dst (downcast none) g sound le lt lt' has = absurd has
  step_edges-Steps src dst (downcast (some symbol)) g sound le lt lt' has =
      one_edge src dst _ g sound lt lt'
  step_edges-Steps src dst (index idx) g sound le lt lt' has =
      let (h, run, grow) = add_node_edge-Steps src dst index_edge g sound lt lt' in
      let (k, run', grow') =
        add_node_edge-Steps idx dst index_edge h grow.sound (omega (arith, has, le, grow.nodes))
          (omega (arith, lt', grow.nodes)) in
      (length h.edges, k, rw (run, run'), Grows-trans grow grow')
  step_edges-Steps src dst constant_index g sound le lt lt' has = one_edge src dst _ g sound lt lt'
  step_edges-Steps src dst subslice g sound le lt lt' has = one_edge src dst _ g sound lt lt'
  step_edges-Steps src dst subtype g sound le lt lt' has = one_edge src dst _ g sound lt lt'
  step_edges-Steps src dst other_elem g sound le lt lt' has = absurd has

  parse_one_step-Finds :
      (src : ℕ) (x : PlaceElem) (g : Graph)
      → IsSound g
      → n ≤ length g.nodes
      → src < length g.nodes
      → HasElem n x
      → Finds g (parse_one_step src x g)
  unfolding parse_one_step push_node new_node
  parse_one_step-Finds src x g sound le lt has =
      let fresh =
        push_node-Grows g new_node sound
          (new_node-Sound g.edges (length g.nodes) dummy_sp nop_op) in
      let longer = length-append g.nodes (new_node ∷ []) in
      let (k, h, run, grow) =
        step_edges-Steps src (length g.nodes) x (push_node new_node g) fresh.sound
          (omega (arith, longer)) (omega (arith, longer)) (omega (arith, longer)) has in
      (length g.nodes, h, rw run, Grows-trans fresh grow, omega (arith, longer, grow.nodes))

  parse_steps-Finds :
      (ret : ℕ) (xs : List PlaceElem) (g : Graph)
      → IsSound g
      → n ≤ length g.nodes
      → ret < length g.nodes
      → All (HasElem n) xs
      → Finds g (parse_steps ret xs g)
  unfolding parse_steps
  parse_steps-Finds ret [] g sound le lt has = (ret, g, refl, Grows-refl g sound, lt)
  parse_steps-Finds ret (x ∷ xs) g sound le lt (has, rest) =
      let (d, h, run, grow, lt') = parse_one_step-Finds ret x g sound le lt has in
      let (d', h', run', grow', lt'') =
        parse_steps-Finds d xs h grow.sound (omega (arith, le, grow.nodes)) lt' rest in
      (d', h', rw (run, run'), Grows-trans grow grow', lt'')

  pub parse_place-Finds :
      (place : Place) (g : Graph)
      → IsSound g
      → n ≤ length g.nodes
      → HasPlace n place
      → Finds g (parse_place place g)
  unfolding parse_place
  parse_place-Finds place g sound le has =
      parse_steps-Finds place.local place.projection g sound le (omega (arith, has.local, le))
        has.projection

  pub add_place-Steps :
      (place : Place) (dst : ℕ) (op : EdgeOp) (g : Graph)
      → IsSound g
      → n ≤ length g.nodes
      → dst < length g.nodes
      → HasPlace n place
      → Steps g (add_place place dst op g)
  unfolding add_place
  add_place-Steps place dst op g sound le lt has =
      let (d, h, run, grow, lt') = parse_place-Finds place g sound le has in
      let (k, run', grow') =
        add_node_edge-Steps d dst op h grow.sound lt' (omega (arith, lt, grow.nodes)) in
      (k, rw (run, run'), Grows-trans grow grow')

  pub add_operand-Steps :
      (operand : Operand) (dst : ℕ) (g : Graph)
      → IsSound g
      → n ≤ length g.nodes
      → dst < length g.nodes
      → HasOperand n operand
      → Steps g (add_operand operand dst g)
  unfolding add_operand
  add_operand-Steps (copy place) dst g sound le lt has =
      add_place-Steps place dst _ g sound le lt has
  add_operand-Steps (move place) dst g sound le lt has =
      add_place-Steps place dst _ g sound le lt has
  add_operand-Steps (constant c) dst g sound le lt has =
      let (h, run, grow) = add_const_edge-Steps c.text dst const_edge g sound lt in
      (h, rw run, grow)

  pub add_operands-Steps :
      (operands : List Operand) (dst : ℕ) (g : Graph)
      → IsSound g
      → n ≤ length g.nodes
      → dst < length g.nodes
      → All (HasOperand n) operands
      → Steps g (add_operands operands dst g)
  unfolding add_operands
  add_operands-Steps [] dst g sound le lt has = (g, refl, Grows-refl g sound)
  add_operands-Steps (x ∷ xs) dst g sound le lt (has, rest) =
      then-Steps g (add_operand x dst g) (add_operands xs dst)
        (add_operand-Steps x dst g sound le lt has)
        (λ h grow.
          add_operands-Steps xs dst h grow.sound (omega (arith, le, grow.nodes))
            (omega (arith, lt, grow.nodes)) rest)
