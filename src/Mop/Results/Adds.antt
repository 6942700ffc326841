-- ===== src/Mop/Results/Adds.antt =====
-- Each part of `merge_results` returns, and enters related pairs only.
use rapx_log.Prelude.{
  ℕ, zero, suc, ◌+◌, ◌-◌, ◌≤◌, ◌<◌, ◌≡◌, refl, sym, ap, subst, ◌∙◌, ◌≢◌, inl, inr, ◌==◌, ==_iff,
  leb, ◌||◌, not, Bool, true, false, Bool-cases, some, List, [], ◌∷◌, length, get_elem?,
  get_elem?-some, lt_of_get_elem, Outcome, ok, arith,
}
use mathlib.Core.List.{Memᴰ}
use rapx_log.FnAlias.{FnRetAlias, add_alias}
use rapx_log.SafeDrop.State.{usize_max}
use rapx_log.SafeDrop.UnionFind.{union_is_same}
use rapx_log.SafeDrop.UnionFind.Roots.{Root, union_is_same-Root}
use rapx_log.Mop.Results.{
  ValueNode, MopGraph, field_seq_loop, get_field_seq, alias_of, enter_alias, enter_pair, is_wanted,
  if_wanted, visit_pair, visit_pairs, is_aliased, is_start, after_start, visit_nodes,
}
use rapx_log.Mop.Results.Related.{
  IsFlat, Adds, Adds-refl, Adds-then, add_alias-Adds, add_alias-keeps,
}

positive : (m : ℕ) → m ≢ 0 → 0 < m
positive zero h = absurd (h refl)
positive (suc m) h = omega arith

module _ (fuel : ℕ) (g : MopGraph) (flat : IsFlat g) where
  pub get_field_seq-returns :
      (i : ℕ) (v : ValueNode)
      → get_elem? g.values i ≡ some v
      → (seq : List ℕ) × (get_field_seq (suc (suc fuel)) g.values v ≡ ok seq)
  unfolding get_field_seq field_seq_loop
  get_field_seq-returns i v at = elim (Bool-cases (v.field_id == usize_max)) [
    | inl root ↦ ([], rw root)
    | inr inner ↦ elim (flat.fathers i v at) [
      | inl root ↦ absurd (ground (arith, root, inner))
      | inr (w, at', root) ↦
          let no_field : (w.field_id == usize_max) ≡ true = ground (arith, root) in
          (v.field_id ∷ [], rw (inner, at', no_field))
    ]
  ]

  enter_alias-Adds :
      (i j r : ℕ) (left right : ValueNode) (s : FnRetAlias)
      → get_elem? g.values i ≡ some left
      → get_elem? g.values j ≡ some right
      → Root g.alias_set i r
      → Root g.alias_set j r
      → left.local ≤ g.arg_size
      → right.local ≤ g.arg_size
      → left.local ≢ right.local
      → 0 < right.local
      → Adds g s (enter_alias (suc (suc fuel)) g.values left right s)
  unfolding enter_alias
  enter_alias-Adds i j r left right s at_i at_j root_i root_j le_i le_j differ arg =
      let (seq, run) = get_field_seq-returns i left at_i in
      let (seq', run') = get_field_seq-returns j right at_j in
      (
        add_alias s (alias_of left right seq seq'),
        rw (run, run'),
        add_alias-Adds g s (alias_of left right seq seq') (record {
          i = i;
          j = j;
          left = left;
          right = right;
          root = r;
          at_i = at_i;
          at_j = at_j;
          root_i = root_i;
          root_j = root_j;
          left_local = refl;
          right_local = refl;
          left_le = le_i;
          right_le = le_j;
          differ = differ;
          right_arg = arg;
        }),
        add_alias-keeps s (alias_of left right seq seq'),
      )

  enter_pair-Adds :
      (i j r : ℕ) (node other : ValueNode) (s : FnRetAlias)
      → get_elem? g.values i ≡ some node
      → get_elem? g.values j ≡ some other
      → Root g.alias_set i r
      → Root g.alias_set j r
      → node.local ≤ g.arg_size
      → other.local ≤ g.arg_size
      → node.local ≢ other.local
      → Adds g s (enter_pair (suc (suc fuel)) g.values node other s)
  unfolding enter_pair
  enter_pair-Adds i j r node other s at_i at_j root_i root_j le_i le_j differ =
      elim (Bool-cases (other.local == 0)) [
        | inl ret ↦
            let other_0 : other.local ≡ 0 = (==_iff other.local 0).0 ret in
            let arg : 0 < node.local = positive node.local (λ e. differ (e ∙ sym other_0)) in
            rw ret (
              enter_alias-Adds j i r other node s at_j at_i root_j root_i le_j le_i
                (λ e. differ (sym e)) arg)
        | inr no_ret ↦
            let arg : 0 < other.local = ground (arith, no_ret) in
            rw no_ret
              (enter_alias-Adds i j r node other s at_i at_j root_i root_j le_i le_j differ arg)
      ]

  module _ (i : ℕ) (node : ValueNode) (at_i : get_elem? g.values i ≡ some node)
      (le_i : node.local ≤ g.arg_size) where
    pub in_range : node.index < length g.alias_set
    in_range =
        let lt = lt_of_get_elem g.values i at_i in
        omega (arith, lt, flat.size, flat.index i node at_i)

    pub visit_pair-Adds :
        (idx : ℕ) (s : FnRetAlias)
        → idx < length g.values
        → Adds g s (visit_pair (suc (suc fuel)) g g.values node idx s)
    unfolding visit_pair
    visit_pair-Adds idx s lt =
        let (b, run, iff) =
          union_is_same-Root g.alias_set flat.forest idx node.index (omega (arith, lt, flat.size))
            in_range in
        by_same b run iff.0
      where
        wanted :
            (other : ValueNode) (r : ℕ)
            → get_elem? g.values idx ≡ some other
            → Root g.alias_set idx r
            → Root g.alias_set node.index r
            → Adds g s (
                if_wanted
                  (is_wanted g node idx other)
                  (enter_pair (suc (suc fuel)) g.values node other s)
                  s)
        wanted other r at root root_i = elim (Bool-cases (is_wanted g node idx other)) [
          | inl yes_it ↦
              let root_i' = subst (λ z. Root g.alias_set z r) (flat.index i node at_i) root_i in
              let le : other.local ≤ g.arg_size = ground (arith, yes_it) in
              let differ : node.local ≢ other.local = ground (arith, yes_it) in
              rw yes_it (enter_pair-Adds i idx r node other s at_i at root_i' root le_i le differ)
          | inr no_it ↦ rw no_it (Adds-refl g s)
        ]

        by_same :
            (b : Bool)
            → union_is_same g.alias_set idx node.index ≡ ok b
            → (b ≡ true → (r : ℕ) × Root g.alias_set idx r × Root g.alias_set node.index r)
            → Adds g s (visit_pair (suc (suc fuel)) g g.values node idx s)
        by_same false run same = rw run (Adds-refl g s)
        by_same true run same =
            let (other, at) = get_elem?-some g.values idx lt in
            let (r, root, root_i) = same refl in rw (run, at) (wanted other r at root root_i)

    pub visit_pairs-Adds :
        (left idx : ℕ) (s : FnRetAlias)
        → idx + left ≤ length g.values
        → Adds g s (visit_pairs (suc (suc fuel)) g g.values node idx left s)
    unfolding visit_pairs
    visit_pairs-Adds zero idx s le = Adds-refl g s
    visit_pairs-Adds (suc left) idx s le =
        Adds-then g s (visit_pair (suc (suc fuel)) g g.values node idx s)
          (visit_pairs (suc (suc fuel)) g g.values node (idx + 1) left)
          (visit_pair-Adds idx s (omega (arith, le)))
          (λ s'. visit_pairs-Adds left (idx + 1) s' (omega (arith, le)))

    is_aliased-returns : (b : Bool) × (is_aliased g node ≡ ok b)
    unfolding is_aliased
    is_aliased-returns =
        let (p, at) = get_elem?-some g.alias_set node.index in_range in
        let below = flat.forest.descends node.index p at in
        let (b, run, iff) =
          union_is_same-Root g.alias_set flat.forest node.index p in_range
            (omega (arith, below, in_range)) in
        (b || not (p == node.index), rw (at, run))

  -- The nodes are values.
  abbrev pub AreValues : List ValueNode → Type 0
  AreValues nodes = (v : ValueNode) → Memᴰ v nodes → (i : ℕ) × (get_elem? g.values i ≡ some v)

  pub start-cases :
      (i : ℕ) (node : ValueNode)
      → get_elem? g.values i ≡ some node
      → (b : Bool) × (is_start g node (leb node.local g.arg_size) ≡ ok b)
        × (b ≡ true → node.local ≤ g.arg_size)
  unfolding is_start
  start-cases i node at = elim (Bool-cases (leb node.local g.arg_size)) [
    | inl le ↦
        let le' : node.local ≤ g.arg_size = ground (arith, le) in
        let (b, run) = is_aliased-returns i node at le' in (b, rw le run, λ e. le')
    | inr more ↦ (false, rw more, λ e. cc)
  ]

  pub visit_nodes-Adds :
      (nodes : List ValueNode) (s : FnRetAlias)
      → AreValues nodes
      → Adds g s (visit_nodes (suc (suc fuel)) g g.values nodes s)
  unfolding visit_nodes
  visit_nodes-Adds [] s values = Adds-refl g s
  visit_nodes-Adds (node ∷ nodes) s values =
      let (i, at) = values node (Memᴰ.head refl) in
      let (b, run, le) = start-cases i node at in
      let lt = lt_of_get_elem g.values i at in
      rw run (
        by_start b (length g.values == 1) le i at
          (λ s'. visit_nodes-Adds nodes s' (λ v m. values v (Memᴰ.tail m))))
    where
      pairs : FnRetAlias → Outcome FnRetAlias
      pairs s = visit_pairs (suc (suc fuel)) g g.values node 1 (length g.values - 1) s

      by_start :
          (b single : Bool)
          → (b ≡ true → node.local ≤ g.arg_size)
          → (i : ℕ) → get_elem? g.values i ≡ some node
          → ((s' : FnRetAlias) → Adds g s' (visit_nodes (suc (suc fuel)) g g.values nodes s'))
          → Adds g s
              (after_start b single (pairs s) (visit_nodes (suc (suc fuel)) g g.values nodes) s)
      by_start false single le i at rest = rest s
      by_start true true le i at rest = Adds-refl g s
      by_start true false le i at rest =
          let lt = lt_of_get_elem g.values i at in
          Adds-then g s (pairs s) (visit_nodes (suc (suc fuel)) g g.values nodes)
            (visit_pairs-Adds i node at (le refl) (length g.values - 1) 1 s (omega (arith, lt)))
            rest

pub index_of :
    (v : ValueNode) (vs : List ValueNode) → Memᴰ v vs → (i : ℕ) × (get_elem? vs i ≡ some v)
index_of v [] m = elim m [ ]
index_of v (w ∷ vs) (Memᴰ.head e) = (0, ap some (sym e))
index_of v (w ∷ vs) (Memᴰ.tail m) = (let (i, at) = index_of v vs m in (suc i, at))
