-- ===== src/RCanary/Order/Topo.antt =====
-- The `while` loop of `topo_order` ends without a panic, and every block is behind its predecessors.
use rapx_log.Prelude.{
  get_elem?-snoc, get_elem?-append, ℕ, zero, suc, ◌+◌, ◌≤◌, ◌<◌, ◌≡◌, refl, sym, ap, subst, ◌∙◌,
  inl, inr, ◌==◌, ==_iff, true, false, Bool-cases, some, Option-cases, List, [], ◌∷◌, ◌++◌, length,
  get_elem?, lt_of_get_elem, ok, contains, unseen, unseen-lt, contains-concat, arith,
}
use rapx_log.RCanary.Order.{Graph, pop, visit_top, topo_loop}
use rapx_log.RCanary.Order.Counts.{
  count, count-append, count-pop, pop-none, row, pending, pending-visit, pending-zero,
}
use rapx_log.RCanary.Order.Relax.{Levels, Queue, zero_of, relax-Levels}

abbrev pub deg : ℕ → List (List ℕ) → ℕ → ℕ
deg n e v = pending n e [] v

-- What the order comes to, by the edges `e` between `n` blocks.
pub record IsOrder (n : ℕ) (e : List (List ℕ)) (topo : List ℕ) : Type 0 where
  -- blocks, none of them twice
  pub once : (x : ℕ) → count x topo ≤ 1
  pub below : (x : ℕ) → 0 < count x topo → x < n
  -- the predecessors of a block are before it
  pub behind :
      (k v : ℕ)
      → get_elem? topo k ≡ some v
      → (u : ℕ) → u < n
      → 0 < count v (row e u)
      → (j : ℕ) × (j < k) × (get_elem? topo j ≡ some u)
  -- a block with predecessors is there if they all are
  pub complete :
      (v : ℕ)
      → v < n
      → 0 < deg n e v
      → ((u : ℕ) → u < n → 0 < count v (row e u) → 0 < count u topo)
      → 0 < count v topo

pub index_of : (v : ℕ) (xs : List ℕ) → 0 < count v xs → (j : ℕ) × (get_elem? xs j ≡ some v)
index_of v [] h = elim h [ ]
index_of v (x ∷ xs) h = elim (Bool-cases (x == v)) [
  | inl same ↦ (0, ap some ((==_iff x v).0 same))
  | inr other ↦ (let (j, at) = index_of v xs (ground (arith, h, other)) in (suc j, at))
]

pending-all :
    (n : ℕ) (e : List (List ℕ)) (done : List ℕ) (v : ℕ)
    → ((u : ℕ) → u < n → 0 < count v (row e u) → 0 < count u done)
    → pending n e done v ≡ 0
pending-all zero e done v each = refl
pending-all (suc n) e done v each =
    let rec = pending-all n e done v (λ u lt edge. each u (omega (arith, lt)) edge) in
    elim (Bool-cases (count n done == 0)) [
      | inl absent ↦
          let no_edge =
            zero_of (count v (row e n))
              (λ edge. (let there = each n (omega arith) edge in ground (arith, there))) in
          rw absent (omega (arith, rec, no_edge))
      | inr present ↦ rw present (omega (arith, rec))
    ]

row-get : (e : List (List ℕ)) (u : ℕ) → u < length e → get_elem? e u ≡ some (row e u)
row-get [] u lt = absurd (omega (arith, lt))
row-get (r ∷ e) zero lt = refl
row-get (r ∷ e) (suc u) lt = row-get e u (omega (arith, lt))

contains-count : (v : ℕ) (xs : List ℕ) → count v xs ≡ 0 → contains xs v ≡ false
contains-count v [] h = refl
contains-count v (x ∷ xs) h = ground (arith, h, contains-count v xs)

module _ (n : ℕ) (e : List (List ℕ)) (size : length e ≡ n)
    (inside : (u v : ℕ) → 0 < count v (row e u) → v < n) where
  -- Between two rounds.
  pub record Between (lev q done : List ℕ) : Type 0 where
    pub levels : Levels n [] (pending n e done) lev
    pub queue : Queue n (deg n e) [] (pending n e done) q done
    pub behind :
        (k v : ℕ)
        → get_elem? done k ≡ some v
        → (u : ℕ) → u < n
        → 0 < count v (row e u)
        → (j : ℕ) × (j < k) × (get_elem? done j ≡ some u)

  Between-end : (lev done : List ℕ) → Between lev [] done → IsOrder n e done
  Between-end lev done b = record {
    once = λ x. omega (arith, b.queue.once x);
    below = λ x there. (b.queue.ready x (omega (arith, there))).0;
    behind = b.behind;
    complete = λ v lt has_edge each.
        let last = pending-all n e done v each in
        omega (arith, b.queue.none_missed v lt has_edge (omega (arith, last)));
  }

  module _ (lev q done : List ℕ) (top : ℕ) (rest : List ℕ) (popped : pop q ≡ some (top, rest))
      (b : Between lev q done) where
    top_new : (count top rest ≡ 0) × (count top done ≡ 0)
    top_new =
        let e = count-pop q top rest popped top in
        let h = b.queue.once top in
        let self : (top == top) ≡ true = ground arith in
        (ground (arith, e, h, self), ground (arith, e, h, self))

    top_ready : (top < n) × (pending n e done top ≡ 0)
    top_ready =
        let e = count-pop q top rest popped top in
        let self : (top == top) ≡ true = ground arith in
        let (lt, last) = b.queue.ready top (ground (arith, e, self)) in (lt, omega (arith, last))

    split_count : (x : ℕ) → count x rest + count x (done ++ top ∷ []) ≡ count x q + count x done
    split_count x = ground (arith, count-pop q top rest popped x, count-append x done (top ∷ []))

    split_pending :
        (v : ℕ) → count v (row e top) + pending n e (done ++ top ∷ []) v ≡ pending n e done v
    split_pending v = sym (pending-visit n e done top v top_ready.0 top_new.1)

    Levels-pop : Levels n (row e top) (pending n e (done ++ top ∷ [])) lev
    Levels-pop = record {
      size = b.levels.size;
      level = λ v lt. b.levels.level v lt ∙ ap some (omega (arith, split_pending v));
    }

    Queue-pop :
        Queue n (deg n e) (row e top) (pending n e (done ++ top ∷ [])) rest (done ++ top ∷ [])
    Queue-pop = record {
      once = λ x. omega (arith, split_count x, b.queue.once x);
      ready = λ x there.
          let (lt, last) = b.queue.ready x (omega (arith, there, split_count x)) in
          (lt, omega (arith, last, split_pending x));
      none_missed = λ x lt has_edge last.
          let there = b.queue.none_missed x lt has_edge (omega (arith, last, split_pending x)) in
          omega (arith, there, split_count x);
    }

    behind-pop :
        (k v : ℕ)
        → get_elem? (done ++ top ∷ []) k ≡ some v
        → (u : ℕ) → u < n
        → 0 < count v (row e u)
        → (j : ℕ) × (j < k) × (get_elem? (done ++ top ∷ []) j ≡ some u)
    behind-pop k v at u lt edge = elim (get_elem?-snoc done top k v at) [
      | inl old ↦
          let (j, less, at') = b.behind k v old u lt edge in
          (j, less, get_elem?-append done (top ∷ []) j (lt_of_get_elem done j at') ∙ at')
      | inr (last, same) ↦
          let edge' : 0 < count top (row e u) = subst (λ z. 0 < count z (row e u)) same edge in
          let (j, at') = index_of u done (pending-zero n e done top u top_ready.1 lt edge') in
          let less = lt_of_get_elem done j at' in
          (j, omega (arith, less, last), get_elem?-append done (top ∷ []) j less ∙ at')
    ]

    unseen-pop : unseen n (done ++ top ∷ []) < unseen n done
    unseen-pop =
        unseen-lt n done (done ++ top ∷ []) top
          (λ x h. ground (arith, contains-concat done top x, h)) top_ready.0
          (contains-count top done top_new.1) (ground (arith, contains-concat done top top))

  pub topo_loop-Between :
      (fuel : ℕ) (lev q : List ℕ) (g : Graph)
      → g.e ≡ e
      → unseen n g.topo < fuel
      → Between lev q g.topo
      → (h : Graph) × (topo_loop fuel lev q g ≡ ok h)
        × IsOrder n e h.topo
        × (h.e ≡ e)
        × (h.pre ≡ g.pre)
  unfolding topo_loop visit_top
  topo_loop-Between zero lev q g same lt b = elim lt [ ]
  topo_loop-Between (suc fuel) lev q g same lt b = elim (Option-cases (pop q)) [
    | inl empty ↦
        let b' : Between lev [] g.topo = subst (λ z. Between lev z g.topo) (pop-none q empty) b in
        (g, rw empty, Between-end lev g.topo b', same, refl)
    | inr ((top, rest), popped) ↦
        let done = g.topo ++ top ∷ [] in
        let (in_range, last) = top_ready lev q g.topo top rest popped b in
        let at : get_elem? g.e top ≡ some (row e top) =
          ap (λ z. get_elem? z top) same ∙ row-get e top (omega (arith, in_range, size)) in
        let (lev', q', run, levels, queue) =
          relax-Levels n (deg n e) (row e top) (pending n e done) lev rest done (inside top)
            (Levels-pop lev q g.topo top rest popped b)
            (Queue-pop lev q g.topo top rest popped b) in
        let less = unseen-pop lev q g.topo top rest popped b in
        let (h, run', is_order, same', pre) =
          topo_loop-Between fuel lev' q' (record g { topo = done }) same (omega (arith, less, lt))
            (record {
              levels = levels;
              queue = queue;
              behind = behind-pop lev q g.topo top rest popped b;
            }) in
        (h, rw (popped, at, run) run', is_order, same', pre)
  ]
