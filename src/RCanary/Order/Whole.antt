-- ===== src/RCanary/Order/Whole.antt =====
-- The order of the blocks of a whole body.
use rapx_log.Prelude.{
  ℕ, zero, suc, ◌+◌, ◌≤◌, ◌<◌, ◌≡◌, refl, sym, ap, subst, ◌∙◌, ◌==◌, ==_iff, Bool-cases, inl, inr,
  some, List, [], ◌∷◌, length, get_elem?, set, All, some-inj, ok, unseen, unseen-nil,
  lt_of_get_elem, arith,
}
use rapx_log.Mir.{TerminatorKind}
use rapx_log.RCanary.Order.{
  Graph, new_graph, replicate, next_blocks, collect_from, collect_edges, topo_order, order,
}
use rapx_log.RCanary.Order.Counts.{count, row, pending}
use rapx_log.RCanary.Order.Topo.{IsOrder, Between, topo_loop-Between}
use rapx_log.RCanary.Order.Collect.{
  Holds, Filled, HasTargets, step-Filled, row-set_self, row-set_ne,
}

-- The graph has the edges of the blocks, and for each block its predecessors.
pub record IsCollected (blocks : List TerminatorKind) (g : Graph) : Type 0 where
  pub edges :
      (u : ℕ) (t : TerminatorKind) → get_elem? blocks u ≡ some t → next_blocks t ≡ ok (row g.e u)
  pub pres : Holds (length blocks) (λ v u. count v (row g.e u)) g.pre

-- The edges of the blocks below `b` are those of their terminators.
abbrev EdgesTo : List TerminatorKind → ℕ → Graph → Type 0
EdgesTo all b g =
    (u : ℕ) (t : TerminatorKind) → u < b → get_elem? all u ≡ some t → next_blocks t ≡ ok (row g.e u)

EdgesTo-step :
    (all : List TerminatorKind) (n b : ℕ) (lev : List ℕ) (g h : Graph) (t : TerminatorKind)
    (ts : List ℕ)
    → b < n
    → Filled n b lev g
    → get_elem? all b ≡ some t
    → next_blocks t ≡ ok ts
    → h.e ≡ set g.e b ts
    → EdgesTo all b g
    → EdgesTo all (suc b) h
EdgesTo-step all n b lev g h t ts lt f at next edges to u t' lt' at' = elim (Bool-cases (b == u)) [
  | inl same ↦
      let e = (==_iff b u).0 same in
      let same_t : t ≡ t' = some-inj (sym at ∙ ap (get_elem? all) e ∙ at') in
      let self = row-set_self g.e b ts (omega (arith, lt, f.e_size)) in
      let row_u : row h.e u ≡ ts =
        ap (λ z. row z u) edges ∙ ap (row (set g.e b ts)) (sym e) ∙ self in
      ap next_blocks (sym same_t) ∙ next ∙ ap ok (sym row_u)
  | inr other ↦
      to u t' (ground (arith, lt', other)) at'
      ∙ ap ok (sym (ap (λ z. row z u) edges ∙ row-set_ne g.e b u ts other))
]

collect_from-Filled :
    (all : List TerminatorKind) (n b : ℕ) (rest : List TerminatorKind) (lev : List ℕ) (g : Graph)
    → b + length rest ≡ n
    → ((u : ℕ) → get_elem? all (b + u) ≡ get_elem? rest u)
    → All (HasTargets n) rest
    → Filled n b lev g
    → EdgesTo all b g
    → (lev' : List ℕ) × (h : Graph) × (collect_from b rest lev g ≡ ok (lev', h))
      × Filled n n lev' h
      × EdgesTo all n h
unfolding collect_from
collect_from-Filled all n b [] lev g size suffix has f edges =
    let e : b ≡ n = omega (arith, size) in
    (lev, g, refl, subst (λ z. Filled n z lev g) e f, subst (λ z. EdgesTo all z g) e edges)
collect_from-Filled all n b (t ∷ rest) lev g size suffix ((ts, next, each, entry), has) f edges =
    let lt : b < n = omega (arith, size) in
    let (lev', h, k, run, run', e, f') = step-Filled n b lev g t ts lt each f in
    let b_0 : b + 0 ≡ b = omega arith in
    let at : get_elem? all b ≡ some t = ap (get_elem? all) (sym b_0) ∙ suffix 0 in
    let to = EdgesTo-step all n b lev g k t ts lt f at next e edges in
    let b_1 : b + 1 ≡ suc b = omega arith in
    let (lev'', h', run'', f'', to') =
      collect_from-Filled all n (b + 1) rest lev' k (omega (arith, size))
        (λ u.
          (let shift : b + 1 + u ≡ b + suc u = omega arith in
            ap (get_elem? all) shift ∙ suffix (suc u)))
        has (subst (λ z. Filled n z lev' k) (sym b_1) f')
        (subst (λ z. EdgesTo all z k) (sym b_1) to) in
    (lev'', h', rw (next, run, run') run'', f'', to')

length-replicate {ℓ} : {A : Type ℓ} (n : ℕ) (v : A) → length (replicate n v) ≡ n
length-replicate zero v = refl
length-replicate (suc n) v = ap suc (length-replicate n v)

get_elem?-replicate {ℓ} :
    {A : Type ℓ} (n i : ℕ) (v : A) → i < n → get_elem? (replicate n v) i ≡ some v
get_elem?-replicate zero i v lt = elim lt [ ]
get_elem?-replicate (suc n) zero v lt = refl
get_elem?-replicate (suc n) (suc i) v lt = get_elem?-replicate n i v (omega (arith, lt))

row-replicate : (n u : ℕ) → row (replicate n []) u ≡ []
row-replicate zero u = refl
row-replicate (suc n) zero = refl
row-replicate (suc n) (suc u) = row-replicate n u

new_graph-Filled : (n : ℕ) → Filled n 0 (replicate n 0) (new_graph n)
unfolding new_graph
new_graph-Filled n = record {
  size = length-replicate n 0;
  e_size = length-replicate n [];
  pre_size = length-replicate n [];
  level = λ v lt. get_elem?-replicate n v 0 lt;
  pres = λ v lt. ([], get_elem?-replicate n v [] lt, λ u. sym (ap (count v) (row-replicate n u)));
  inside = λ u v edge.
      let no_edge : 0 < 0 = subst (λ z. 0 < count v z) (row-replicate n u) edge in
      absurd (omega (arith, no_edge));
  empty = λ u le. row-replicate n u;
  topo = refl;
}

-- No edge leads to the first block.
no_entry :
    (all : List TerminatorKind) (n m : ℕ) (g : Graph)
    → m ≤ length all
    → ((u : ℕ) → u < m → count 0 (row g.e u) ≡ 0)
    → pending m g.e [] 0 ≡ 0
no_entry all n zero g le each = refl
no_entry all n (suc m) g le each =
    let rec = no_entry all n m g (omega (arith, le)) (λ u lt. each u (omega (arith, lt))) in
    let here = each m (omega arith) in omega (arith, rec, here)

entry_row :
    (n : ℕ) (blocks : List TerminatorKind) (u : ℕ)
    → All (HasTargets n) blocks
    → u < length blocks
    → (t : TerminatorKind) × (ts : List ℕ) × (get_elem? blocks u ≡ some t)
      × (next_blocks t ≡ ok ts)
      × (count 0 ts ≡ 0)
entry_row n [] u has lt = absurd (omega (arith, lt))
entry_row n (t ∷ blocks) zero ((ts, next, each, entry), has) lt = (t, ts, refl, next, entry)
entry_row n (t ∷ blocks) (suc u) (first, has) lt = entry_row n blocks u has (omega (arith, lt))

ok-inj {ℓ} : {A : Type ℓ} {x y : A} → ok x ≡ ok y → x ≡ y
ok-inj h = cc

-- The loop begins with the first block on the heap.
start-Between :
    (n : ℕ) (e : List (List ℕ)) (size : length e ≡ n)
    (inside : (u v : ℕ) → 0 < count v (row e u) → v < n) (lev : List ℕ)
    → length lev ≡ n
    → ((v : ℕ) → v < n → get_elem? lev v ≡ some (pending n e [] v))
    → 0 < n
    → pending n e [] 0 ≡ 0
    → Between n e size inside lev (0 ∷ []) []
start-Between n e size inside lev lev_size level lt entry = record {
  levels = record { size = lev_size; level = λ v h. level v h ∙ ap some (omega arith) };
  queue = record {
    once = λ x. ground arith;
    ready = λ x there. elim (Bool-cases (0 == x)) [
      | inl same ↦
          let x_0 = (==_iff 0 x).0 same in
          (
            subst (λ z. z < n) x_0 lt,
            subst (λ z. 0 + pending n e [] z ≡ 0) x_0 (omega (arith, entry)),
          )
      | inr other ↦ absurd (ground (arith, there, other))
    ];
    none_missed = λ x h has_edge last. absurd (omega (arith, has_edge, last));
  };
  behind = λ k v at. cc;
}

-- On a body with a block, whose terminators lead to blocks of the body, never to the first, and are no
-- tail calls, `order` returns: no level is taken below 0, and the heap runs empty. Its edges are those
-- of the terminators, and a block notes each predecessor as often as that has an edge to it. The order
-- names no block twice, the predecessors of a block stand before it, and a block with predecessors is
-- named if they all are.
pub order-IsOrder :
    (blocks : List TerminatorKind)
    → 0 < length blocks
    → All (HasTargets (length blocks)) blocks
    → (g : Graph) × (order blocks ≡ ok g)
      × IsCollected blocks g
      × IsOrder (length blocks) g.e g.topo
unfolding order collect_edges topo_order
order-IsOrder blocks lt has =
    let n = length blocks in
    let (lev, g, run, f, edges) =
      collect_from-Filled blocks n 0 blocks (replicate n 0) (new_graph n) (omega arith)
        (λ u. ap (get_elem? blocks) (omega arith)) has (new_graph-Filled n)
        (λ u t h at. absurd (omega (arith, h))) in
    let entry = no_entry blocks n n g (omega arith) (λ u lt'.
      let (t, ts, at, next, none_there) = entry_row n blocks u has lt' in
      let same : ts ≡ row g.e u = ok-inj (sym next ∙ edges u t lt' at) in
      ap (count 0) (sym same) ∙ none_there) in
    let start = start-Between n g.e f.e_size f.inside lev f.size f.level lt entry in
    let start' = subst (λ z. Between n g.e f.e_size f.inside lev (0 ∷ []) z) (sym f.topo) start in
    let many : unseen n g.topo ≡ n = ap (unseen n) f.topo ∙ unseen-nil n in
    let (h, run', is_order, same, pre) =
      topo_loop-Between n g.e f.e_size f.inside (suc (length g.e)) lev (0 ∷ []) g refl
        (omega (arith, many, f.e_size)) start' in
    (
      h,
      rw run run',
      record {
        edges =
            λ u t at. edges u t (lt_of_get_elem blocks u at) at ∙ ap (λ z. ok (row z u)) (sym same);
        pres =
            subst (λ z. Holds n (λ v u. count v (row z u)) h.pre) (sym same)
              (subst (λ z. Holds n (λ v u. count v (row g.e u)) z) (sym pre) f.pres);
      },
      subst (λ z. IsOrder n z h.topo) (sym same) is_order,
    )
