-- ===== src/SafeDrop/UnionFind/Merge.antt =====
-- `union_merge` joins two sets and no others, and leaves every value pointing at its root.
use rapx_log.Prelude.{
  ℕ, ◌<◌, ◌≡◌, refl, sym, subst, ◌∙◌, ◌≢◌, ◌⊎◌, inl, inr, ◌↔◌, ◌==◌, ==_iff, true, if◌then◌else◌,
  Bool-cases, some, List, length, get_elem?, set, length-set, ok, arith, lt_of_get_elem,
  get_elem?-set_self, get_elem?-set_ne,
}
use Prim.Native.Nat.{min, max}
use native.Mathlib.Decide.{dec_lt}
use mathlib.Core.Path.{ap, ap₂}
use rapx_log.SafeDrop.UnionFind.{link, union_merge, union_is_same}
use rapx_log.SafeDrop.UnionFind.Roots.{
  IsForest, Root, top, up, Root-self, Root-unique, Root-lt, union_find-Root, union_is_same-Root,
}
use rapx_log.SafeDrop.UnionFind.Compress.{IsForest-set, Flat, compress_lem}

-- The root of a value after the sets of the roots `f1` and `f2` are joined: the smaller of the two
-- in place of the greater.
abbrev pub joined : ℕ → ℕ → ℕ → ℕ
joined f1 f2 r = if r == max f1 f2 then min f1 f2 else r

module _ (a : List ℕ) (lo hi : ℕ) (below : lo < hi) (low : get_elem? a lo ≡ some lo)
    (high : get_elem? a hi ≡ some hi) where
  Root-set : {x r : ℕ} → Root a x r → Root (set a hi lo) x (if r == hi then lo else r)
  Root-set (top {x} e) = elim (Bool-cases (x == hi)) [
    | inl same ↦ rw same (
        up
          (subst (λ k. get_elem? (set a hi lo) k ≡ some lo) (sym ((==_iff x hi).0 same))
            (get_elem?-set_self a hi lo (lt_of_get_elem a hi high)))
          (ground arith) (top (get_elem?-set_ne a hi lo lo (omega arith) ∙ low)))
    | inr other ↦ rw other (top (get_elem?-set_ne a hi x lo (ground arith) ∙ e))
  ]
  Root-set (up {x} {p} e n w) =
      let apart : hi ≢ x = ground arith in up (get_elem?-set_ne a hi x lo apart ∙ e) n (Root-set w)

-- What a call of `union_merge` comes to.
pub record Merges (a : List ℕ) (e1 e2 : ℕ) (b : List ℕ) : Type 0 where
  pub size : length b ≡ length a
  pub forest : IsForest b
  pub flat : Flat b (length b)
  pub roots : (f1 f2 x r : ℕ) → Root a e1 f1 → Root a e2 f2 → Root a x r → Root b x (joined f1 f2 r)

-- What the assignments of `union_merge` to the two roots come to.
record Linked (a : List ℕ) (f1 f2 : ℕ) (l : List ℕ) : Type 0 where
  size : length l ≡ length a
  forest : IsForest l
  roots : (x r : ℕ) → Root a x r → Root l x (joined f1 f2 r)

module _ (a : List ℕ) (f1 f2 : ℕ) (forest : IsForest a) (s1 : get_elem? a f1 ≡ some f1)
    (s2 : get_elem? a f2 ≡ some f2) where
  link-lt : f1 < f2 → Linked a f1 f2 (link a f1 f2)
  unfolding link
  link-lt lt =
      let e : link a f1 f2 ≡ set a f2 f1 = ground arith in
      subst (Linked a f1 f2) (sym e) (record {
        size = length-set a f2 f1;
        forest = IsForest-set a f2 f1 forest (lt_of_get_elem a f2 s2) (omega arith);
        roots = λ x r w. subst (Root (set a f2 f1) x) (ground arith) (Root-set a f1 f2 lt s1 s2 w);
      })

  link-gt : f2 < f1 → Linked a f1 f2 (link a f1 f2)
  unfolding link
  link-gt gt =
      let e : link a f1 f2 ≡ set a f1 f2 = ground arith in
      subst (Linked a f1 f2) (sym e) (record {
        size = length-set a f1 f2;
        forest = IsForest-set a f1 f2 forest (lt_of_get_elem a f1 s1) (omega arith);
        roots = λ x r w. subst (Root (set a f1 f2) x) (ground arith) (Root-set a f2 f1 gt s2 s1 w);
      })

  link-eq : f1 ≡ f2 → Linked a f1 f2 (link a f1 f2)
  unfolding link
  link-eq eq =
      let e : link a f1 f2 ≡ a = ground arith in
      subst (Linked a f1 f2) (sym e) (record {
        size = refl;
        forest = forest;
        roots = λ x r w. subst (Root a x) (ground arith) w;
      })

  link_lem : Linked a f1 f2 (link a f1 f2)
  link_lem = elim (dec_lt f1 f2) [
    | yes lt ↦ link-lt lt
    | no ge ↦ elim (dec_lt f2 f1) [ yes gt ↦ link-gt gt | no le ↦ link-eq (omega arith) ]
  ]

-- On a forest, `union_merge` of two values in range returns. The result is a forest of the same
-- size in which every value points at its root, and exactly the sets of the two values are joined:
-- whoever had the greater of their roots now has the smaller, and every other value keeps its root.
pub union_merge-Merges :
    (a : List ℕ) (e1 e2 : ℕ)
    → IsForest a
    → e1 < length a
    → e2 < length a
    → (b : List ℕ) × (union_merge a e1 e2 ≡ ok b) × Merges a e1 e2 b
unfolding union_merge
union_merge-Merges a e1 e2 forest h1 h2 =
    let (f1, q1, w1) = union_find-Root a forest e1 h1 in
    let (f2, q2, w2) = union_find-Root a forest e2 h2 in
    let l = link_lem a f1 f2 forest (Root-self w1) (Root-self w2) in
    let (b, run, c) =
      compress_lem (length a) 0 (link a f1 f2) l.forest (omega (arith, l.size))
        (none_yet (link a f1 f2)) in
    (
      b,
      rw (q1, q2) run,
      record {
        size = c.size ∙ l.size;
        forest = c.forest;
        flat = c.flat;
        roots = λ g1 g2 x r v1 v2 w.
            let same1 : f1 ≡ g1 = Root-unique w1 v1 in
            let same2 : f2 ≡ g2 = Root-unique w2 v2 in
            subst (Root b x) (ap₂ (λ j k. joined j k r) same1 same2)
              (c.keeps x (joined f1 f2 r) (l.roots x r w));
      },
    )
  where
    none_yet : (l : List ℕ) → Flat l 0
    none_yet l = record { points = λ i p h e. elim h [ ] }

joined_iff :
    (f1 f2 r s : ℕ)
    → (joined f1 f2 r ≡ joined f1 f2 s) ↔ ((r ≡ s) ⊎ ((r ≡ f1) ⊎ (r ≡ f2)) × ((s ≡ f1) ⊎ (s ≡ f2)))
joined_iff f1 f2 r s = (ground arith, ground arith)

-- After `union_merge` of two values in range of a forest, `union_is_same` holds of exactly the
-- pairs that had one root before and the pairs of which both had a root of one of the two merged
-- values.
pub union_is_same-merge :
    (a b : List ℕ) (e1 e2 x y f1 f2 r s : ℕ)
    → IsForest a
    → union_merge a e1 e2 ≡ ok b
    → Root a e1 f1
    → Root a e2 f2
    → Root a x r
    → Root a y s
    → (union_is_same b x y ≡ ok true) ↔ ((r ≡ s) ⊎ ((r ≡ f1) ⊎ (r ≡ f2)) × ((s ≡ f1) ⊎ (s ≡ f2)))
union_is_same-merge a b e1 e2 x y f1 f2 r s forest run w1 w2 wx wy =
    let (b', run', m') = union_merge-Merges a e1 e2 forest (Root-lt a w1) (Root-lt a w2) in
    let same : b' ≡ b = ground arith in
    let m : Merges a e1 e2 b = subst (Merges a e1 e2) same m' in
    let rx = m.roots f1 f2 x r w1 w2 wx in
    let ry = m.roots f1 f2 y s w1 w2 wy in
    let (t, e, iff) = union_is_same-Root b m.forest x y (Root-lt b rx) (Root-lt b ry) in
    (
      λ h.
          (joined_iff f1 f2 r s).0
            (let (k, v, w) = iff.0 (ground arith) in Root-unique rx v ∙ Root-unique w ry),
      λ h.
          e
          ∙ ap ok
              (iff.1 (joined f1 f2 r, rx, subst (Root b y) (sym ((joined_iff f1 f2 r s).1 h)) ry)),
    )
