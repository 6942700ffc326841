-- ===== src/Mop/Results/Complete.antt =====
-- `merge_results` enters every pair that it should.
use rapx_log.Prelude.{
  ℕ, zero, suc, ◌+◌, ◌-◌, ◌≤◌, ◌<◌, ◌≡◌, refl, sym, ap, subst, ◌∙◌, ◌≢◌, ◌⊎◌, inl, inr, ◌==◌,
  ==_iff, leb, Bool, true, false, Bool-cases, if◌then◌else◌, some, some-inj, List, [], ◌∷◌, length,
  get_elem?, exists, get_elem?-some, lt_of_get_elem, Outcome, ok, arith,
}
use mathlib.Core.List.{Memᴰ}
use native.Mathlib.Decide.{ℕ_discrete}
use rapx_log.FnAlias.{RetAlias, FnRetAlias, add_alias, alias_eq, same_bool, same_seq}
use rapx_log.SafeDrop.UnionFind.{union_is_same}
use rapx_log.SafeDrop.UnionFind.Roots.{Root, top, up, union_is_same-Root, union_find-Root}
use rapx_log.Mop.Results.{
  ValueNode, MopGraph, get_field_seq, alias_of, enter_alias, enter_pair, is_wanted, visit_pair,
  visit_pairs, is_aliased, is_start, after_start, visit_nodes, merge_results,
}
use rapx_log.Mop.Results.Related.{IsFlat, IsRelated, HasAlias, exists-append}
use rapx_log.Mop.Results.Adds.{
  visit_pair-Adds, visit_pairs-Adds, visit_nodes-Adds, start-cases, index_of, in_range, AreValues,
}

same_bool_refl : (b : Bool) → same_bool b b ≡ true
same_bool_refl true = refl
same_bool_refl false = refl

same_seq_refl : (xs : List ℕ) → same_seq xs xs ≡ true
same_seq_refl [] = refl
same_seq_refl (x ∷ xs) = rw ((==_iff x x).1 refl) (same_seq_refl xs)

alias_eq_refl : (x : RetAlias) → alias_eq x x ≡ true
alias_eq_refl x = rw (
  (==_iff x.left_index x.left_index).1 refl,
  same_seq_refl x.left_field_seq,
  same_bool_refl x.left_may_drop,
  same_bool_refl x.left_need_drop,
  (==_iff x.right_index x.right_index).1 refl,
  same_seq_refl x.right_field_seq,
  same_bool_refl x.right_may_drop,
  same_bool_refl x.right_need_drop,
)

add_alias-HasAlias : (s : FnRetAlias) (x : RetAlias) → HasAlias x (add_alias s x)
unfolding add_alias
add_alias-HasAlias s x = elim (Bool-cases (exists (alias_eq x) s.alias_set)) [
  | inl there ↦ rw there there
  | inr new ↦
      let self : exists (alias_eq x) (x ∷ []) ≡ true = rw (alias_eq_refl x) in
      rw (new, exists-append x s.alias_set (x ∷ []), new, self)
]

-- The alias of the pair: the return value stands on the left.
abbrev pub pair_alias : ValueNode → ValueNode → List ℕ → List ℕ → RetAlias
pair_alias node other node_seq other_seq =
    if other.local == 0
    then alias_of other node other_seq node_seq
    else alias_of node other node_seq other_seq

-- The run returns a summary that has the alias.
abbrev Enters : RetAlias → Outcome FnRetAlias → Type 0
Enters x run = (s' : FnRetAlias) × (run ≡ ok s') × HasAlias x s'

-- A value has the root of its parent, and the parent that of the value.
parent-Root : (a : List ℕ) (k p q : ℕ) → get_elem? a k ≡ some p → Root a k q → Root a p q
parent-Root a k p q at (top e) = subst (λ z. Root a z k) (some-inj (sym e ∙ at)) (top e)
parent-Root a k p q at (up e n rest) = subst (λ z. Root a z q) (some-inj (sym e ∙ at)) rest

module _ (fuel : ℕ) (g : MopGraph) (flat : IsFlat g) (i j r : ℕ) (node other : ValueNode)
    (node_seq other_seq : List ℕ) (at_i : get_elem? g.values i ≡ some node)
    (at_j : get_elem? g.values j ≡ some other) (root_i : Root g.alias_set i r)
    (root_j : Root g.alias_set j r) (le_i : node.local ≤ g.arg_size)
    (le_j : other.local ≤ g.arg_size) (differ : node.local ≢ other.local) (apart : i ≢ j)
    (seq_i : get_field_seq (suc (suc fuel)) g.values node ≡ ok node_seq)
    (seq_j : get_field_seq (suc (suc fuel)) g.values other ≡ ok other_seq) where
  abbrev x : RetAlias
  x = pair_alias node other node_seq other_seq

  enter_pair-Enters :
      (s : FnRetAlias) → Enters x (enter_pair (suc (suc fuel)) g.values node other s)
  unfolding enter_pair enter_alias
  enter_pair-Enters s = elim (Bool-cases (other.local == 0)) [
    | inl ret ↦
        let y = alias_of other node other_seq node_seq in
        rw ret (add_alias s y, rw (seq_j, seq_i), add_alias-HasAlias s y)
    | inr no_ret ↦
        let y = alias_of node other node_seq other_seq in
        rw no_ret (add_alias s y, rw (seq_i, seq_j), add_alias-HasAlias s y)
  ]

  same_set : union_is_same g.alias_set j node.index ≡ ok true
  same_set =
      let e = flat.index i node at_i in
      let lt = lt_of_get_elem g.values j at_j in
      let (b, run, iff) =
        union_is_same-Root g.alias_set flat.forest j node.index (omega (arith, lt, flat.size))
          (in_range fuel g flat i node at_i le_i) in
      let yes_it : b ≡ true = iff.1 (r, root_j, subst (λ z. Root g.alias_set z r) (sym e) root_i) in
      run ∙ ap ok yes_it

  visit_pair-Enters : (s : FnRetAlias) → Enters x (visit_pair (suc (suc fuel)) g g.values node j s)
  unfolding visit_pair
  visit_pair-Enters s =
      let e = flat.index i node at_i in
      let wanted : is_wanted g node j other ≡ true = ground (arith, le_j, differ, apart, e) in
      rw (same_set, at_j, wanted) (enter_pair-Enters s)

  visit_pairs-Enters :
      (left idx : ℕ) (s : FnRetAlias)
      → idx ≤ j
      → j < idx + left
      → idx + left ≤ length g.values
      → Enters x (visit_pairs (suc (suc fuel)) g g.values node idx left s)
  unfolding visit_pairs
  visit_pairs-Enters zero idx s le lt in_all = absurd (omega (arith, le, lt))
  visit_pairs-Enters (suc left) idx s le lt in_all = elim (ℕ_discrete idx j) [
    | yes same ↦
        let (s1, run, has) =
          subst (λ z. Enters x (visit_pair (suc (suc fuel)) g g.values node z s)) (sym same)
            (visit_pair-Enters s) in
        let (s2, run', new, keep) =
          visit_pairs-Adds fuel g flat i node at_i le_i left (idx + 1) s1 (omega (arith, in_all)) in
        (s2, rw (run, run'), keep x has)
    | no later ↦
        let (s1, run, new, keep) =
          visit_pair-Adds fuel g flat i node at_i le_i idx s (omega (arith, in_all)) in
        let (s2, run', has) =
          visit_pairs-Enters left (idx + 1) s1 (ground (arith, le, later)) (omega (arith, lt))
            (omega (arith, in_all)) in
        (s2, rw (run, run'), has)
  ]

  is_start-true : is_start g node (leb node.local g.arg_size) ≡ ok true
  unfolding is_start is_aliased
  is_start-true =
      let le : leb node.local g.arg_size ≡ true = ground (arith, le_i) in
      let lt = in_range fuel g flat i node at_i le_i in
      let (p, at) = get_elem?-some g.alias_set node.index lt in
      let below = flat.forest.descends node.index p at in
      let (q, run, root) = union_find-Root g.alias_set flat.forest node.index lt in
      let (b, run', iff) =
        union_is_same-Root g.alias_set flat.forest node.index p lt (omega (arith, below, lt)) in
      let yes_it : b ≡ true = iff.1 (q, root, parent-Root g.alias_set node.index p q at root) in
      rw (le, at, run', yes_it)

  not_single : (length g.values == 1) ≡ false
  not_single =
      let lt_i = lt_of_get_elem g.values i at_i in
      let lt_j = lt_of_get_elem g.values j at_j in ground (arith, lt_i, lt_j, apart)

  head-Enters :
      (nodes : List ValueNode) (s : FnRetAlias)
      → 1 ≤ j
      → AreValues fuel g flat nodes
      → Enters x (visit_nodes (suc (suc fuel)) g g.values (node ∷ nodes) s)
  unfolding visit_nodes
  head-Enters nodes s pos values =
      let lt = lt_of_get_elem g.values j at_j in
      let (s1, run, has) =
        visit_pairs-Enters (length g.values - 1) 1 s pos (omega (arith, lt)) (omega (arith, lt)) in
      let (s2, run', new, keep) = visit_nodes-Adds fuel g flat nodes s1 values in
      (s2, rw (is_start-true, not_single, run, run'), keep x has)

  visit_nodes-Enters :
      (nodes : List ValueNode) (s : FnRetAlias)
      → 1 ≤ j
      → AreValues fuel g flat nodes
      → Memᴰ node nodes
      → Enters x (visit_nodes (suc (suc fuel)) g g.values nodes s)
  unfolding visit_nodes
  visit_nodes-Enters [] s pos values m = elim m [ ]
  visit_nodes-Enters (n ∷ nodes) s pos values (Memᴰ.head e) =
      subst (λ z. Enters x (visit_nodes (suc (suc fuel)) g g.values (z ∷ nodes) s)) e
        (head-Enters nodes s pos (λ v m. values v (Memᴰ.tail m)))
  visit_nodes-Enters (n ∷ nodes) s pos values (Memᴰ.tail m) =
      let (k, at) = values n (Memᴰ.head refl) in
      let (b, run, le) = start-cases fuel g flat k n at in
      rw (run, not_single)
        (by_start b k at le
          (λ s'. visit_nodes-Enters nodes s' pos (λ v m. values v (Memᴰ.tail m)) m))
    where
      by_start :
          (b : Bool) (k : ℕ)
          → get_elem? g.values k ≡ some n
          → (b ≡ true → n.local ≤ g.arg_size)
          → ((s' : FnRetAlias) → Enters x (visit_nodes (suc (suc fuel)) g g.values nodes s'))
          → Enters x (
              after_start b false
                (visit_pairs (suc (suc fuel)) g g.values n 1 (length g.values - 1) s)
                (visit_nodes (suc (suc fuel)) g g.values nodes)
                s)
      by_start false k at le rest = rest s
      by_start true k at le rest =
          let lt = lt_of_get_elem g.values k at in
          let (s1, run, new, keep) =
            visit_pairs-Adds fuel g flat k n at (le refl) (length g.values - 1) 1 s
              (omega (arith, lt)) in
          let (s2, run', has) = rest s1 in (s2, rw (run, run'), has)

member : (i : ℕ) (v : ValueNode) (vs : List ValueNode) → get_elem? vs i ≡ some v → Memᴰ v vs
member i v [] h = cc
member zero v (w ∷ vs) h = Memᴰ.head (some-inj (sym h))
member (suc i) v (w ∷ vs) h = Memᴰ.tail (member i v vs h)

ok-inj {ℓ} : {A : Type ℓ} {x y : A} → ok x ≡ ok y → x ≡ y
ok-inj h = cc

-- On a graph whose alias set is a forest of the size of the values, in which a value knows its index and
-- the father of a field is no field, `merge_results` of the values returns with two rounds or more of
-- `get_field_seq`, and changes nothing but the summary. What it adds to that are aliases between two
-- values of one alias set whose locals differ and are arguments or the return value, which is never on
-- the right; and of every two values like that, the second not value 0, the alias is in the summary.
pub merge_results-IsRelated :
    (fuel : ℕ) (g : MopGraph)
    → IsFlat g
    → (s : FnRetAlias) × (merge_results (suc (suc fuel)) g.values g
        ≡ ok (record g { ret_alias = s }))
      × ((a : RetAlias) → Memᴰ a s.alias_set → Memᴰ a g.ret_alias.alias_set ⊎ IsRelated g a)
      × ((i j r : ℕ) (node other : ValueNode) (node_seq other_seq : List ℕ)
          → get_elem? g.values i ≡ some node
          → get_elem? g.values j ≡ some other
          → Root g.alias_set i r
          → Root g.alias_set j r
          → node.local ≤ g.arg_size
          → other.local ≤ g.arg_size
          → node.local ≢ other.local
          → 1 ≤ j
          → get_field_seq (suc (suc fuel)) g.values node ≡ ok node_seq
          → get_field_seq (suc (suc fuel)) g.values other ≡ ok other_seq
          → HasAlias (pair_alias node other node_seq other_seq) s)
unfolding merge_results
merge_results-IsRelated fuel g flat =
    let (s, run, each, keep) =
      visit_nodes-Adds fuel g flat g.values g.ret_alias (λ v m. index_of v g.values m) in
    (
      s,
      rw run,
      each,
      λ i j r node other ns os at_i at_j root_i root_j le_i le_j differ pos seq_i seq_j.
          let apart : i ≢ j = λ e.
            differ (ap (λ z. z.local) (some-inj (sym at_i ∙ ap (get_elem? g.values) e ∙ at_j))) in
          let (s', run', has) =
            visit_nodes-Enters fuel g flat i j r node other ns os at_i at_j root_i root_j le_i le_j
              differ apart seq_i seq_j g.values g.ret_alias pos (λ v m. index_of v g.values m)
              (member i node g.values at_i) in
          subst (HasAlias (pair_alias node other ns os)) (ok-inj (sym run' ∙ run)) has,
    )
