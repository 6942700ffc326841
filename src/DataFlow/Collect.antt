-- ===== src/DataFlow/Collect.antt =====
-- What `collect_equivalent_locals` collects at a node with several operations.
use rapx_log.Prelude.{
  ℕ, ◌≡◌, refl, sym, ap, ◌∙◌, ◌⊎◌, inl, inr, true, false, some, List, [], ◌∷◌, ◌++◌, get_elem?,
  contains, insert, contains-concat, ok, arith,
}
use mathlib.Core.List.{Memᴰ}
use rapx_log.DataFlow.{NodeOp, GraphNode, Graph}
use rapx_log.DataFlow.Dfs.{
  DfsStatus, continue, stop, op_status, written, reduce_from, reduce_ops, find_equivalent_operator,
}

insert-there : (s : List ℕ) (i : ℕ) → contains s i ≡ true → insert s i ≡ s
insert-there s i h = rw h

insert-new : (s : List ℕ) (i : ℕ) → contains s i ≡ false → insert s i ≡ s ++ i ∷ []
insert-new s i h = rw h

contains-last : (s : List ℕ) (i : ℕ) → contains (s ++ i ∷ []) i ≡ true
contains-last s i = ground (arith, contains-concat s i i)

module _ (reduce : DfsStatus → DfsStatus → DfsStatus) (idx : ℕ) where
  written-there :
      (now : DfsStatus) (s : List ℕ) → contains s idx ≡ true → written (λ s. insert s idx) now s ≡ s
  written-there continue s h = insert-there s idx h
  written-there stop s h = refl

  -- Behind the first write nothing changes.
  reduce_from-there :
      (status : DfsStatus) (ops : List NodeOp) (s : List ℕ)
      → contains s idx ≡ true
      → (end : DfsStatus) × (reduce_from reduce (λ s. insert s idx) status ops s ≡ (end, s))
  unfolding reduce_from
  reduce_from-there status [] s h = (status, refl)
  reduce_from-there status (op ∷ ops) s h =
      let (end, e) = reduce_from-there (reduce status (op_status op)) ops s h in
      (end, rw (written-there (op_status op) s h) e)

  reduce_from-writes :
      (now status : DfsStatus) (ops : List NodeOp) (s : List ℕ)
      → contains s idx ≡ false
      → ((now ≡ continue) ⊎ ((op : NodeOp) × Memᴰ op ops × (op_status op ≡ continue)))
      → (end : DfsStatus) × (reduce_from reduce
            (λ s. insert s idx)
            status
            ops
            (written (λ s. insert s idx) now s)
          ≡ (end, s ++ idx ∷ []))
  unfolding reduce_from
  reduce_from-writes continue status ops s h kept =
      let (end, e) = reduce_from-there status ops (s ++ idx ∷ []) (contains-last s idx) in
      (end, rw h e)
  reduce_from-writes stop status [] s h kept = elim kept [
    | inl e ↦ absurd (stop_continue e)
    | inr (op, m, e) ↦ elim m [ ]
  ]
    where
      stop_continue : stop ≡ continue → ⊥
      stop_continue e = cc
  reduce_from-writes stop status (op ∷ ops) s h kept =
      reduce_from-writes (op_status op) (reduce status (op_status op)) ops s h
        (elim kept [ inl e ↦ inl cc | inr (o, m, e) ↦ first o m e ])
    where
      first :
          (o : NodeOp)
          → Memᴰ o (op ∷ ops)
          → op_status o ≡ continue
          → (op_status op ≡ continue) ⊎ ((o : NodeOp) × Memᴰ o ops × (op_status o ≡ continue))
      first o (Memᴰ.head same) e = inl (ap op_status (sym same) ∙ e)
      first o (Memᴰ.tail m) e = inr (o, m, e)

  -- A node that is not collected yet is collected as soon as one of its operations is `Nop`, `Use` or
  -- `Ref`, whatever the others are and whichever way the statuses are reduced: `strict` decides only
  -- whether the traversal goes on behind the node.
  pub find_equivalent_operator-collects :
      (g : Graph) (node : GraphNode) (op : NodeOp) (s : List ℕ)
      → get_elem? g.nodes idx ≡ some node
      → contains s idx ≡ false
      → Memᴰ op node.ops
      → op_status op ≡ continue
      → (status : DfsStatus) × (find_equivalent_operator reduce g idx s
          ≡ ok (status, s ++ idx ∷ []))
  unfolding find_equivalent_operator reduce_ops
  find_equivalent_operator-collects g node op s at new_one m e =
      let (status, h) = collects node.ops m in (status, rw (at, new_one) h)
    where
      which :
          (o : NodeOp) (ops : List NodeOp)
          → Memᴰ op (o ∷ ops)
          → (op_status o ≡ continue) ⊎ ((o : NodeOp) × Memᴰ o ops × (op_status o ≡ continue))
      which o ops (Memᴰ.head same) = inl (ap op_status (sym same) ∙ e)
      which o ops (Memᴰ.tail m) = inr (op, m, e)

      collects :
          (ops : List NodeOp)
          → Memᴰ op ops
          → (status : DfsStatus) × (reduce_ops reduce (λ s. insert s idx) ops s
              ≡ ok (status, s ++ idx ∷ []))
      collects [] m = elim m [ ]
      collects (o ∷ ops) m =
          let (end, h) =
            reduce_from-writes (op_status o) (op_status o) ops s new_one (which o ops m) in
          (end, ap ok h)
