-- ===== src/SafeDrop/UnionFind/Cycle.antt =====
-- What an unchecked write to the alias set can do: `alias_bb` writes the right value of a `Variant`
-- assignment over the entry of the left one, without a look at the roots.
use rapx_log.Prelude.{
  ℕ, zero, suc, ◌≡◌, refl, ◌∙◌, ◌≢◌, ◌==◌, false, List, some, get_elem?, set, get_elem?-set_self,
  get_elem?-set_ne, stuck, arith,
}
use rapx_log.SafeDrop.UnionFind.{find_loop}
use rapx_log.SafeDrop.UnionFind.Roots.{Root, top, up, Root-self, Root-lt}

module _ (a : List ℕ) (lv rv : ℕ) (apart : rv ≢ lv) (back : Root a rv lv) where
  -- The parent after the write is another value of the set.
  next_parent :
      (x : ℕ)
      → Root a x lv
      → (p : ℕ) × (get_elem? (set a lv rv) x ≡ some p) × ((p == x) ≡ false) × Root a p lv
  next_parent x (top e) =
      (rv, get_elem?-set_self a lv rv (Root-lt a (top (Root-self back))), ground arith, back)
  next_parent x (up {p = p} e n v) =
      let ne : lv ≢ x = ground (arith, Root-self v) in
      (p, get_elem?-set_ne a lv x rv ne ∙ e, ground arith, v)

  -- From each value of the set the walk goes round without end.
  pub cycle : (fuel x : ℕ) → Root a x lv → find_loop fuel (set a lv rv) x ≡ stuck
  unfolding find_loop
  cycle zero x w = refl
  cycle (suc fuel) x w =
      let (p, read, other, v) = next_parent x w in rw (read, other) (cycle fuel p v)
