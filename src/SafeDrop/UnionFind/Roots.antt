-- ===== src/SafeDrop/UnionFind/Roots.antt =====
-- The roots of an alias forest, and that the search for one ends.
use rapx_log.Prelude.{
  ℕ, zero, suc, ◌≤◌, ◌<◌, ◌≡◌, refl, sym, subst, ◌∙◌, ◌≢◌, inl, inr, ◌↔◌, ◌==◌, ==_iff, Bool, true,
  Bool-cases, some, List, length, get_elem?, ok, arith, get_elem?-some, lt_of_get_elem,
}
use native.Mathlib.Decide.{ℕ_discrete}
use rapx_log.SafeDrop.UnionFind.{find_loop, union_find, union_is_same}

-- No parent has a greater index than its child.
pub record IsForest (a : List ℕ) : Type 0 where
  pub descends : (i p : ℕ) → get_elem? a i ≡ some p → p ≤ i

-- `r` is the end of the walk along the parents from `x`.
pub data Root (a : List ℕ) : ℕ → ℕ → Type 0 where
  top : {x : ℕ} → get_elem? a x ≡ some x → Root a x x
  up : {x p r : ℕ} → get_elem? a x ≡ some p → p ≢ x → Root a p r → Root a x r

pub Root-self : {a : List ℕ} {x r : ℕ} → Root a x r → get_elem? a r ≡ some r
Root-self (top e) = e
Root-self (up e n w) = Root-self w

pub Root-unique : {a : List ℕ} {x r s : ℕ} → Root a x r → Root a x s → r ≡ s
Root-unique (top e) (top f) = refl
Root-unique (top e) (up f n w) = absurd (n (ground arith))
Root-unique (up e n v) (top f) = absurd (n (ground arith))
Root-unique {a} {s = s} (up {p = p} e n v) (up {p = q} f m w) =
    let same : q ≡ p = ground arith in Root-unique v (subst (λ k. Root a k s) same w)

pub Root-lt : (a : List ℕ) {x r : ℕ} → Root a x r → x < length a
Root-lt a (top {x} e) = lt_of_get_elem a x e
Root-lt a (up {x} e n w) = lt_of_get_elem a x e

-- A value has the root of its parent.
pub Root-step : (a : List ℕ) (x p r : ℕ) → get_elem? a x ≡ some p → Root a p r → Root a x r
Root-step a x p r e w = elim (ℕ_discrete p x) [
  | yes same ↦ subst (λ k. Root a k r) same w
  | no other ↦ up e other w
]

module _ (a : List ℕ) (forest : IsForest a) where
  pub Root-le : {x r : ℕ} → Root a x r → r ≤ x
  Root-le (top e) = omega arith
  Root-le (up {x} {p} e n w) = omega (arith, Root-le w, forest.descends x p e)

  find_loop-Root :
      (fuel x : ℕ) → x < fuel → x < length a → (r : ℕ) × (find_loop fuel a x ≡ ok r) × Root a x r
  unfolding find_loop
  find_loop-Root zero x h k = elim h [ ]
  find_loop-Root (suc fuel) x h k =
      let (p, e) = get_elem?-some a x k in
      let below = forest.descends x p e in
      elim (Bool-cases (p == x)) [
        | inl same ↦ let eq = (==_iff p x).0 same in (x, rw (e, same), top (rw eq at e))
        | inr other ↦
            let ne : p ≢ x = ground arith in
            let (r, q, w) = find_loop-Root fuel p (omega arith) (omega arith) in
            (r, rw (e, other) q, up e ne w)
      ]

  -- On a forest, `union_find` of a value in range returns the end of the walk along its parents.
  pub union_find-Root : (x : ℕ) → x < length a → (r : ℕ) × (union_find a x ≡ ok r) × Root a x r
  unfolding union_find
  union_find-Root x k = find_loop-Root (suc (length a)) x (omega arith) k

  -- On a forest, `union_is_same` returns for values that are in range, and it says whether their
  -- walks end at one root.
  pub union_is_same-Root :
      (x y : ℕ)
      → x < length a
      → y < length a
      → (b : Bool) × (union_is_same a x y ≡ ok b)
        × ((b ≡ true) ↔ ((r : ℕ) × Root a x r × Root a y r))
  unfolding union_is_same
  union_is_same-Root x y hx hy =
      let (r, e, v) = union_find-Root x hx in
      let (s, f, w) = union_find-Root y hy in
      (
        r == s,
        rw (e, f),
        (
          λ h. (r, v, subst (λ k. Root a y k) (sym ((==_iff r s).0 h)) w),
          λ (k, v', w'). (==_iff r s).1 (Root-unique v v' ∙ Root-unique w' w),
        ),
      )
