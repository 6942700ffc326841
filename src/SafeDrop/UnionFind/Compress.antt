-- ===== src/SafeDrop/UnionFind/Compress.antt =====
-- The compression of `union_merge`: every value comes to point at its root.
use rapx_log.Prelude.{
  ℕ, zero, suc, ◌+◌, ◌≤◌, ◌<◌, ◌≡◌, refl, sym, subst, ◌∙◌, ◌≢◌, some, List, length, get_elem?, set,
  length-set, ok, arith, get_elem?-some, get_elem?-set_self, get_elem?-set_ne,
}
use native.Mathlib.Decide.{ℕ_discrete}
use rapx_log.SafeDrop.UnionFind.{compress}
use rapx_log.SafeDrop.UnionFind.Roots.{
  IsForest, Root, top, up, Root-self, Root-unique, Root-step, Root-le, union_find-Root,
}

-- A write of a smaller number keeps a forest.
pub IsForest-set : (a : List ℕ) (i v : ℕ) → IsForest a → i < length a → v ≤ i → IsForest (set a i v)
IsForest-set a i v forest h le = record { descends = descends }
  where
    descends : (j p : ℕ) → get_elem? (set a i v) j ≡ some p → p ≤ j
    descends j p e = elim (ℕ_discrete i j) [
      | yes same ↦ ground (arith, get_elem?-set_self a i v h)
      | no other ↦ ground (arith, get_elem?-set_ne a i j v other, forest.descends j p)
    ]

-- A value that points at the root of its set may as well be so in the vector.
pub Root-compress :
    (a : List ℕ) (m r : ℕ)
    → m < length a
    → Root a m r
    → {x s : ℕ} → Root a x s
    → Root (set a m r) x s
Root-compress a m r h w (top {x} e) = elim (ℕ_discrete m x) [
  | yes same ↦
      let eq : r ≡ x = Root-unique w (subst (λ k. Root a k x) (sym same) (top e)) in
      top (ground (arith, get_elem?-set_self a m r h))
  | no other ↦ top (get_elem?-set_ne a m x r other ∙ e)
]
Root-compress a m r h w (up {x} {p} {r = s} e n v) = elim (ℕ_discrete m x) [
  | yes same ↦
      let eq : r ≡ s = Root-unique w (subst (λ k. Root a k s) (sym same) (up e n v)) in
      let apart : m ≢ r = ground (arith, Root-self w) in
      let root : Root (set a m r) r r = top (get_elem?-set_ne a m r r apart ∙ Root-self w) in
      subst (λ k. Root (set a m r) k s) same
        (up (get_elem?-set_self a m r h) (λ q. apart (sym q))
          (subst (λ k. Root (set a m r) r k) eq root))
  | no other ↦ up (get_elem?-set_ne a m x r other ∙ e) n (Root-compress a m r h w v)
]

-- What a merge leaves: below index `k`, every value points at its root.
pub record Flat (a : List ℕ) (k : ℕ) : Type 0 where
  pub points : (i p : ℕ) → i < k → get_elem? a i ≡ some p → get_elem? a p ≡ some p

pub Flat-step :
    (a : List ℕ) (m r : ℕ) → m < length a → Root a m r → Flat a m → Flat (set a m r) (suc m)
Flat-step a m r h w flat = record { points = points }
  where
    root_kept : (q : ℕ) → get_elem? a q ≡ some q → get_elem? (set a m r) q ≡ some q
    root_kept q e = elim (ℕ_discrete m q) [
      | yes same ↦
          let eq : r ≡ q = Root-unique w (subst (λ k. Root a k q) (sym same) (top e)) in
          ground (arith, get_elem?-set_self a m r h)
      | no other ↦ get_elem?-set_ne a m q r other ∙ e
    ]

    points :
        (i p : ℕ) → i < suc m → get_elem? (set a m r) i ≡ some p → get_elem? (set a m r) p ≡ some p
    points i p lt e = elim (ℕ_discrete m i) [
      | yes same ↦
          let eq : r ≡ p = ground (arith, get_elem?-set_self a m r h) in
          subst (λ k. get_elem? (set a m r) k ≡ some k) eq (root_kept r (Root-self w))
      | no other ↦
          root_kept p (flat.points i p (omega arith) (sym (get_elem?-set_ne a m i r other) ∙ e))
    ]

pub record Compressed (a b : List ℕ) : Type 0 where
  pub size : length b ≡ length a
  pub forest : IsForest b
  pub flat : Flat b (length b)
  pub keeps : (x r : ℕ) → Root a x r → Root b x r

pub compress_lem :
    (left m : ℕ) (a : List ℕ)
    → IsForest a
    → m + left ≡ length a
    → Flat a m
    → (b : List ℕ) × (compress left m a ≡ ok b) × Compressed a b
unfolding compress
compress_lem zero m a forest total flat =
    let full : m ≡ length a = omega arith in
    (
      a,
      refl,
      record { size = refl; forest = forest; flat = subst (Flat a) full flat; keeps = λ x r w. w },
    )
compress_lem (suc left) m a forest total flat =
    let h : m < length a = omega arith in
    let (p, e) = get_elem?-some a m h in
    let below = forest.descends m p e in
    let (r, q, v) = union_find-Root a forest p (omega arith) in
    let w : Root a m r = Root-step a m p r e v in
    let le = Root-le a forest w in
    let (b, run, rest) =
      compress_lem left (m + 1) (set a m r) (IsForest-set a m r forest h le)
        (omega (arith, length-set a m r))
        (subst (Flat (set a m r)) (omega arith) (Flat-step a m r h w flat)) in
    (
      b,
      rw (e, q) run,
      record {
        size = rest.size ∙ length-set a m r;
        forest = rest.forest;
        flat = rest.flat;
        keeps = λ x s k. rest.keeps x s (Root-compress a m r h w k);
      },
    )
