-- ===== src/DataFlow/Sound.antt =====
-- What holds of a data-flow graph at all times, and that its elementary changes keep it.
use rapx_log.Prelude.{
  get_elem?-append, get_elem?-snoc, some-inj, ℕ, ◌≤◌, ◌<◌, ◌≡◌, refl, sym, ap, subst, ◌∙◌, inl, inr,
  some, List, [], ◌∷◌, ◌++◌, length, get_elem?, set, length-set, length-append, lt_of_get_elem,
  get_elem?-set_self, get_elem?-set_ne, ok, arith,
}
use mathlib.Core.List.{Memᴰ}
use native.Mathlib.Decide.{ℕ_discrete}
use rapx_log.DataFlow.{NodeOp, GraphEdge, GraphNode, Graph, update_node, push_node, push_edge}

-- Node `i`: the edges on its lists are there and begin or end at it, and there is room for `ops[seq]`
-- or the next push makes it.
pub record NodeSound (edges : List GraphEdge) (i : ℕ) (v : GraphNode) : Type 0 where
  pub ins :
      (k : ℕ) → Memᴰ k v.in_edges → (e : GraphEdge) × (get_elem? edges k ≡ some e) × (e.dst ≡ i)
  pub outs :
      (k : ℕ) → Memᴰ k v.out_edges → (e : GraphEdge) × (get_elem? edges k ≡ some e) × (e.src ≡ i)
  pub room : v.seq ≤ length v.ops
  pub has_op : 0 < length v.ops

-- A node without edges, with one operation that is still to be written.
pub new_node-Sound :
    (edges : List GraphEdge) (i span : ℕ) (op : NodeOp)
    → NodeSound edges i
        (record { ops = op ∷ []; span = span; seq = 0; out_edges = []; in_edges = [] })
new_node-Sound edges i span op = record {
  ins = λ k m. elim m [ ];
  outs = λ k m. elim m [ ];
  room = omega arith;
  has_op = omega arith;
}

-- Every edge joins two nodes, and every node is sound.
pub record IsSound (g : Graph) : Type 0 where
  pub ends :
      (k : ℕ) (e : GraphEdge)
      → get_elem? g.edges k ≡ some e
      → (e.src < length g.nodes) × (e.dst < length g.nodes)
  pub nodes : (i : ℕ) (v : GraphNode) → get_elem? g.nodes i ≡ some v → NodeSound g.edges i v

module _ {ℓ} {A : Type ℓ} where
  pub Memᴰ-snoc :
      (xs : List A) (x y : A) (P : A → Type ℓ)
      → ((z : A) → Memᴰ z xs → P z)
      → P x
      → Memᴰ y (xs ++ x ∷ [])
      → P y
  Memᴰ-snoc [] x y P h p (Memᴰ.head e) = subst P (sym e) p
  Memᴰ-snoc [] x y P h p (Memᴰ.tail m) = elim m [ ]
  Memᴰ-snoc (z ∷ xs) x y P h p (Memᴰ.head e) = h y (Memᴰ.head e)
  Memᴰ-snoc (z ∷ xs) x y P h p (Memᴰ.tail m) = Memᴰ-snoc xs x y P (λ w q. h w (Memᴰ.tail q)) p m

-- The step of the run keeps the graph sound, loses no node and no edge, and leaves `seq` and `ops` of every node
-- that there was as long as they were.
pub record Grows (g : Graph) (h : Graph) : Type 0 where
  pub sound : IsSound h
  pub nodes : length g.nodes ≤ length h.nodes
  pub edges : (k : ℕ) (e : GraphEdge) → get_elem? g.edges k ≡ some e → get_elem? h.edges k ≡ some e
  pub kept :
      (i : ℕ) (v : GraphNode)
      → get_elem? g.nodes i ≡ some v
      → (w : GraphNode) × (get_elem? h.nodes i ≡ some w)
        × (w.seq ≡ v.seq)
        × (length w.ops ≡ length v.ops)

pub Grows-refl : (g : Graph) → IsSound g → Grows g g
Grows-refl g s = record {
  sound = s;
  nodes = omega arith;
  edges = λ k f at. at;
  kept = λ i v e. (v, e, refl, refl);
}

pub Grows-trans : {g h k : Graph} → Grows g h → Grows h k → Grows g k
Grows-trans a b = record {
  sound = b.sound;
  nodes = omega (arith, a.nodes, b.nodes);
  edges = λ k e at. b.edges k e (a.edges k e at);
  kept = λ i v e.
      let (w, e', s, o) = a.kept i v e in
      let (u, e'', s', o') = b.kept i w e' in (u, e'', s' ∙ s, o' ∙ o);
}

abbrev pub HasEdge : List GraphEdge → ℕ → (GraphEdge → Type 0) → Type 0
HasEdge edges k P = (e : GraphEdge) × (get_elem? edges k ≡ some e) × P e

HasEdge-older :
    (edges : List GraphEdge) (e : GraphEdge) (k : ℕ) (P : GraphEdge → Type 0)
    → HasEdge edges k P
    → HasEdge (edges ++ e ∷ []) k P
HasEdge-older edges e k P (f, at, p) =
    (f, get_elem?-append edges (e ∷ []) k (lt_of_get_elem edges k at) ∙ at, p)

pub push_edge-Grows :
    (g : Graph) (e : GraphEdge)
    → IsSound g
    → e.src < length g.nodes
    → e.dst < length g.nodes
    → Grows g (push_edge e g)
unfolding push_edge
push_edge-Grows g e sound src dst = record {
  sound = record {
    ends = λ k f at. elim (get_elem?-snoc g.edges e k f at) [
      | inl old ↦ sound.ends k f old
      | inr (n, same) ↦
          subst (λ f. (f.src < length g.nodes) × (f.dst < length g.nodes)) (sym same) (src, dst)
    ];
    nodes = λ i v at.
        let s = sound.nodes i v at in
        record {
          ins = λ k m. HasEdge-older g.edges e k (λ f. f.dst ≡ i) (s.ins k m);
          outs = λ k m. HasEdge-older g.edges e k (λ f. f.src ≡ i) (s.outs k m);
          room = s.room;
          has_op = s.has_op;
        };
  };
  nodes = omega arith;
  edges = λ k f at. get_elem?-append g.edges (e ∷ []) k (lt_of_get_elem g.edges k at) ∙ at;
  kept = λ i v at. (v, at, refl, refl);
}

pub push_node-Grows :
    (g : Graph) (v : GraphNode)
    → IsSound g
    → NodeSound g.edges (length g.nodes) v
    → Grows g (push_node v g)
unfolding push_node
push_node-Grows g v sound new_one = record {
  sound = record {
    ends = λ k f at.
        let (a, b) = sound.ends k f at in
        (
          omega (arith, a, length-append g.nodes (v ∷ [])),
          omega (arith, b, length-append g.nodes (v ∷ [])),
        );
    nodes = λ i w at. elim (get_elem?-snoc g.nodes v i w at) [
      | inl old ↦ sound.nodes i w old
      | inr (n, same) ↦ rw (n, same) new_one
    ];
  };
  nodes = omega (arith, length-append g.nodes (v ∷ []));
  edges = λ k f at. at;
  kept = λ i w at.
      (w, get_elem?-append g.nodes (v ∷ []) i (lt_of_get_elem g.nodes i at) ∙ at, refl, refl);
}

-- A node is rewritten, and stays sound.
pub update_node-runs :
    (g : Graph) (i : ℕ) (f : GraphNode → GraphNode) (v : GraphNode)
    → get_elem? g.nodes i ≡ some v
    → update_node i f g ≡ ok (record g { nodes = set g.nodes i (f v) })
unfolding update_node
update_node-runs g i f v at = rw at

pub set_node-IsSound :
    (g : Graph) (i : ℕ) (w : GraphNode)
    → IsSound g
    → NodeSound g.edges i w
    → IsSound (record g { nodes = set g.nodes i w })
set_node-IsSound g i w sound new_one = record {
  ends = λ k f at. rw (length-set g.nodes i w) (sound.ends k f at);
  nodes = λ j u at. elim (ℕ_discrete i j) [
    | yes same ↦
        let inside : i < length g.nodes =
          omega (arith, lt_of_get_elem (set g.nodes i w) j at, length-set g.nodes i w, same) in
        let at' : get_elem? (set g.nodes i w) i ≡ some u =
          subst (λ z. get_elem? (set g.nodes i w) z ≡ some u) (sym same) at in
        let eq : w ≡ u = some-inj (sym (get_elem?-set_self g.nodes i w inside) ∙ at') in
        subst (λ z. NodeSound g.edges j z) eq (subst (λ z. NodeSound g.edges z w) same new_one)
    | no other ↦ sound.nodes j u (sym (get_elem?-set_ne g.nodes i j w other) ∙ at)
  ];
}

-- A rewritten node that keeps `seq` and the length of `ops`.
pub set_node-Grows :
    (g : Graph) (i : ℕ) (v w : GraphNode)
    → IsSound g
    → get_elem? g.nodes i ≡ some v
    → NodeSound g.edges i w
    → w.seq ≡ v.seq
    → length w.ops ≡ length v.ops
    → Grows g (record g { nodes = set g.nodes i w })
set_node-Grows g i v w sound at new_one seq ops = record {
  sound = set_node-IsSound g i w sound new_one;
  nodes = omega (arith, length-set g.nodes i w);
  edges = λ k f at. at;
  kept = λ j u at'. elim (ℕ_discrete i j) [
    | yes same ↦
        let eq : v ≡ u =
          some-inj (sym at ∙ subst (λ z. get_elem? g.nodes z ≡ some u) (sym same) at') in
        (
          w,
          subst (λ z. get_elem? (set g.nodes i w) z ≡ some w) same
              (get_elem?-set_self g.nodes i w (lt_of_get_elem g.nodes i at)),
          seq ∙ ap (λ z. z.seq) eq,
          ops ∙ ap (λ z. length z.ops) eq,
        )
    | no other ↦ (u, get_elem?-set_ne g.nodes i j w other ∙ at', refl, refl)
  ];
}
