-- ===== src/Mop/Results/Related.antt =====
-- What `merge_results` enters into the summary.
use rapx_log.Prelude.{
  ℕ, ◌≤◌, ◌<◌, ◌≡◌, refl, sym, subst, ◌≢◌, ◌⊎◌, inl, inr, ◌||◌, true, Bool-cases, some, List, [],
  ◌∷◌, ◌++◌, length, get_elem?, exists, Outcome, ok, ◌>>=◌,
}
use mathlib.Core.List.{Memᴰ}
use rapx_log.FnAlias.{RetAlias, FnRetAlias, add_alias, alias_eq}
use rapx_log.SafeDrop.State.{usize_max}
use rapx_log.SafeDrop.UnionFind.Roots.{IsForest, Root}
use rapx_log.Mop.Results.{ValueNode, MopGraph}

-- The alias set is a forest of the size of the values, a value knows its index, and the father of a field
-- is a value that is no field.
pub record IsFlat (g : MopGraph) : Type 0 where
  pub forest : IsForest g.alias_set
  pub size : length g.alias_set ≡ length g.values
  pub index : (i : ℕ) (v : ValueNode) → get_elem? g.values i ≡ some v → v.index ≡ i
  pub fathers :
      (i : ℕ) (v : ValueNode)
      → get_elem? g.values i ≡ some v
      → (v.field_id ≡ usize_max)
        ⊎ ((w : ValueNode) × (get_elem? g.values v.father ≡ some w) × (w.field_id ≡ usize_max))

-- Two values of one alias set, of different locals among the arguments and the return value; the return
-- value is not on the right.
pub record IsRelated (g : MopGraph) (a : RetAlias) : Type 0 where
  pub i : ℕ
  pub j : ℕ
  pub left : ValueNode
  pub right : ValueNode
  pub root : ℕ
  pub at_i : get_elem? g.values i ≡ some left
  pub at_j : get_elem? g.values j ≡ some right
  pub root_i : Root g.alias_set i root
  pub root_j : Root g.alias_set j root
  pub left_local : a.left_index ≡ left.local
  pub right_local : a.right_index ≡ right.local
  pub left_le : left.local ≤ g.arg_size
  pub right_le : right.local ≤ g.arg_size
  pub differ : left.local ≢ right.local
  pub right_arg : 0 < right.local

-- The summary has the alias, by the derived equality.
abbrev pub HasAlias : RetAlias → FnRetAlias → Type 0
HasAlias x s = exists (alias_eq x) s.alias_set ≡ true

-- The run returns, what it adds is related, and nothing is lost.
abbrev pub Adds : MopGraph → FnRetAlias → Outcome FnRetAlias → Type 0
Adds g s run =
    (s' : FnRetAlias) × (run ≡ ok s')
    × ((a : RetAlias) → Memᴰ a s'.alias_set → Memᴰ a s.alias_set ⊎ IsRelated g a)
    × ((x : RetAlias) → HasAlias x s → HasAlias x s')

pub Adds-refl : (g : MopGraph) (s : FnRetAlias) → Adds g s (ok s)
Adds-refl g s = (s, refl, λ a m. inl m, λ x h. h)

pub Adds-then :
    (g : MopGraph) (s : FnRetAlias) (run : Outcome FnRetAlias)
    (next : FnRetAlias → Outcome FnRetAlias)
    → Adds g s run
    → ((s' : FnRetAlias) → Adds g s' (next s'))
    → Adds g s (run >>= next)
Adds-then g s run next (s', e, each, keep) rest =
    let (s'', f, each', keep') = rest s' in
    (
      s'',
      rw (e, f),
      λ a m. elim (each' a m) [ inl old ↦ each a old | inr new ↦ inr new ],
      λ x h. keep' x (keep x h),
    )

Memᴰ-last : (xs : List RetAlias) (x a : RetAlias) → Memᴰ a (xs ++ x ∷ []) → Memᴰ a xs ⊎ (a ≡ x)
Memᴰ-last [] x a (Memᴰ.head e) = inr e
Memᴰ-last [] x a (Memᴰ.tail m) = elim m [ ]
Memᴰ-last (y ∷ xs) x a (Memᴰ.head e) = inl (Memᴰ.head e)
Memᴰ-last (y ∷ xs) x a (Memᴰ.tail m) = elim (Memᴰ-last xs x a m) [
  | inl old ↦ inl (Memᴰ.tail old)
  | inr new ↦ inr new
]

pub add_alias-Adds :
    (g : MopGraph) (s : FnRetAlias) (x : RetAlias)
    → IsRelated g x
    → (a : RetAlias) → Memᴰ a (add_alias s x).alias_set
    → Memᴰ a s.alias_set ⊎ IsRelated g a
unfolding add_alias
add_alias-Adds g s x related a m = elim (Bool-cases (exists (alias_eq x) s.alias_set)) [
  | inl there ↦ inl (rw there at m)
  | inr new ↦
      let m' : Memᴰ a (s.alias_set ++ x ∷ []) = rw new at m in
      elim (Memᴰ-last s.alias_set x a m') [
        | inl old ↦ inl old
        | inr e ↦ inr (subst (IsRelated g) (sym e) related)
      ]
]

pub exists-append :
    (x : RetAlias) (xs ys : List RetAlias)
    → exists (alias_eq x) (xs ++ ys) ≡ (exists (alias_eq x) xs || exists (alias_eq x) ys)
exists-append x [] ys = refl
exists-append x (y ∷ xs) ys = elim (Bool-cases (alias_eq x y)) [
  | inl same ↦ rw same
  | inr other ↦ rw other (exists-append x xs ys)
]

pub add_alias-keeps : (s : FnRetAlias) (y x : RetAlias) → HasAlias x s → HasAlias x (add_alias s y)
unfolding add_alias
add_alias-keeps s y x h = elim (Bool-cases (exists (alias_eq y) s.alias_set)) [
  | inl there ↦ rw there h
  | inr new ↦ rw (new, exists-append x s.alias_set (y ∷ []), h)
]
