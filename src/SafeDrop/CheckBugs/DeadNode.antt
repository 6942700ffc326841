-- ===== src/SafeDrop/CheckBugs/DeadNode.antt =====
-- With how many rounds `dead_node` of safedrop/check_bugs.rs returns, and what it leaves.
use rapx_log.Prelude.{
  ok, lt_of_get_elem, ltb_ℤ, as_isize, ℕ, zero, suc, ◌+◌, ◌≤◌, ◌<◌, ◌≡◌, refl, ◌∙◌, ap, inl, inr,
  ◌==◌, Bool, true, false, not, ◌||◌, Bool-cases, some, List, [], ◌∷◌, length, length-set,
  get_elem?, get_elem?-some, set, arith,
}
use mathlib.Core.List.{Memᴰ}
use rapx_log.SafeDrop.UnionFind.Roots.{union_is_same-Root}
use rapx_log.SafeDrop.State.{
  ValueNode, dead, is_alive, is_tuple_kind, is_ref_kind, is_corner_case, SafeDropGraph, M, when,
  for_each,
}
use rapx_log.SafeDrop.CheckBugs.{
  df_check, kill, drop_aliases, drop_field, drop_node, unless_done, dead_node,
}
use rapx_log.SafeDrop.CheckBugs.Drops.{
  undead, undead-set, Dropped, Dropped-trans, Drops, Dropped-records, skip-Dropped, then-Drops,
  df_check-returns, kill-Drops, kill-dies,
}
use rapx_log.SafeDrop.Nodes.Projection.{IsSound}

when-Drops :
    (birth : ℕ) (b : Bool) (m : M (Unit {0})) (g : SafeDropGraph)
    → IsSound g
    → Drops birth m g
    → Drops birth (when b m) g
when-Drops birth true m g sound d = d
when-Drops birth false m g sound d = (g, refl, skip-Dropped birth g sound)

-- A loop over fields that are nodes.
for_fields-Drops :
    (birth n fuel : ℕ) (f : ℕ × ℕ → M (Unit {0}))
    → ((x : ℕ × ℕ) (k : SafeDropGraph)
        → IsSound k
        → length k.values ≡ n
        → x.1 < n
        → undead k.dead_record < fuel
        → Drops birth (f x) k)
    → (xs : List (ℕ × ℕ)) (g : SafeDropGraph) → IsSound g
    → length g.values ≡ n
    → undead g.dead_record < fuel
    → ((x : ℕ × ℕ) → Memᴰ x xs → x.1 < n)
    → Drops birth (for_each f xs) g
unfolding for_each
for_fields-Drops birth n fuel f each [] g sound size left inside =
    (g, refl, skip-Dropped birth g sound)
for_fields-Drops birth n fuel f each (x ∷ xs) g sound size left inside =
    then-Drops birth g (f x) (for_each f xs) (each x g sound size (inside x (Memᴰ.head refl)) left)
      (λ h d.
        for_fields-Drops birth n fuel f each xs h d.sound (d.size ∙ size) (omega (arith, d.left))
          (λ y mem. inside y (Memᴰ.tail mem)))

module _ (birth fuel drop : ℕ) (rec : ℕ → Bool → M (Unit {0}))
    (each : (i : ℕ) (a : Bool) (k : SafeDropGraph)
      → IsSound k
      → i < length k.values
      → undead k.dead_record < fuel
      → Drops birth (rec i a) k) where
  drop_aliases-Drops :
      (left i : ℕ) (g : SafeDropGraph)
      → IsSound g
      → i + left ≤ length g.values
      → drop < length g.values
      → undead g.dead_record < fuel
      → Drops birth (drop_aliases (λ i. rec i true) drop left i) g
  unfolding drop_aliases
  drop_aliases-Drops zero i g sound le lt u = (g, refl, skip-Dropped birth g sound)
  drop_aliases-Drops (suc left) i g sound le lt u =
      let (same, run, iff) =
        union_is_same-Root g.alias_set sound.walk.forest drop i (omega (arith, sound.walk.size))
          (omega (arith, sound.walk.size)) in
      let (v, e) = get_elem?-some g.values i (omega arith) in
      let (h, run', d) =
        then-Drops birth g (when (not (not same || (i == drop || is_ref_kind v.kind))) (rec i true))
          (drop_aliases (λ i. rec i true) drop left (i + 1))
          (when-Drops birth _ (rec i true) g sound (each i true g sound (omega arith) u))
          (λ h d.
            drop_aliases-Drops left (i + 1) h d.sound (omega (arith, d.size))
              (omega (arith, d.size)) (omega (arith, d.left))) in
      (h, rw (run, e) run', d)

  drop_field-Drops :
      (x : ℕ × ℕ) (g : SafeDropGraph)
      → IsSound g
      → drop < length g.values
      → x.1 < length g.values
      → undead g.dead_record < fuel
      → Drops birth (drop_field (λ i. rec i false) drop x) g
  unfolding drop_field
  drop_field-Drops x g sound lt inside u =
      let (v, e) = get_elem?-some g.values drop lt in
      let (w, f) = get_elem?-some g.values x.1 inside in
      let (h, run, d) = each x.1 false g sound inside u in
      elim (Bool-cases (is_tuple_kind v.kind)) [
        | inr no_ ↦ (h, rw (e, no_) run, d)
        | inl yes_ ↦
            let (k, run', d') = when-Drops birth w.need_drop (rec x.1 false) g sound (h, run, d) in
            (k, rw (e, yes_, f) run', d')
      ]

  -- The node itself dies, if it may be dropped and is older than the drop.
  abbrev pub Dies : SafeDropGraph → SafeDropGraph → Type 0
  Dies g h =
      (v : ValueNode)
      → get_elem? g.values drop ≡ some v
      → v.may_drop ≡ true
      → ltb_ℤ v.birth (as_isize birth) ≡ true
      → get_elem? h.values drop ≡ some (dead v)

  itself-Dies :
      (g g3 h : SafeDropGraph)
      → Dropped birth g g3
      → Dropped birth g3 h
      → kill drop birth g3 ≡ ok (tt, h)
      → Dies g h
  itself-Dies g g3 h d d' run v e may older = elim (d.nodes drop v e) [
    | inl same ↦ kill-dies birth drop g3 h v run same may older
    | inr (gone, _, _) ↦ elim (d'.nodes drop (dead v) gone) [
      | inl same ↦ same
      | inr (again, _, _) ↦ again
    ]
  ]

  drop_node-Drops :
      (alias : Bool) (g : SafeDropGraph)
      → IsSound g
      → drop < length g.values
      → get_elem? g.dead_record drop ≡ some false
      → undead g.dead_record < suc fuel
      → (h : SafeDropGraph) × (drop_node rec drop birth alias g ≡ ok (tt, h))
        × Dropped birth g h
        × Dies g h
  unfolding drop_node
  drop_node-Drops alias g sound lt fresh u =
      let record_ = set g.dead_record drop true in
      let less = undead-set g.dead_record drop fresh in
      let g1 : SafeDropGraph = record g { dead_record = record_ } in
      let d1 : Dropped birth g g1 =
        Dropped-records birth g g.bug_records record_ sound (length-set g.dead_record drop true)
          (omega arith) in
      let (p, e) = get_elem?-some g.alias_set drop (omega (arith, sound.walk.size)) in
      let (g2, run2, d2) =
        when-Drops birth (not (p == drop)) (drop_aliases (λ i. rec i true) drop (length g.values) 0)
          g1 d1.sound
          (drop_aliases-Drops (length g.values) 0 g1 d1.sound (omega arith) lt (omega arith)) in
      let lt2 : drop < length g2.values = omega (arith, d2.size) in
      let (v, e2) = get_elem?-some g2.values drop lt2 in
      let (g3, run3, d3) =
        when-Drops birth (not alias) (for_each (drop_field (λ i. rec i false) drop) v.fields) g2
          d2.sound
          (for_fields-Drops birth (length g2.values) fuel (drop_field (λ i. rec i false) drop)
            (λ x k s size inside u'. drop_field-Drops x k s (omega arith) (omega arith) u') v.fields
            g2 d2.sound refl (omega (arith, d2.left))
            (λ x mem. d2.sound.walk.fields drop v x e2 mem)) in
      let (g4, run4, d4) = kill-Drops birth drop g3 d3.sound (omega (arith, d3.size)) in
      let before : Dropped birth g g3 =
        Dropped-trans birth g g1 g3 d1 (Dropped-trans birth g1 g2 g3 d2 d3) in
      (
        g4,
        rw (e, run2, e2, run3) run4,
        Dropped-trans birth g g3 g4 before d4,
        itself-Dies g g3 g4 before d4 run4,
      )

-- The part of `dead_node` behind the report of a double free.
behind_check-Drops :
    (fuel drop birth span : ℕ) (alias : Bool) (g : SafeDropGraph)
    → ((i : ℕ) (a : Bool) (k : SafeDropGraph)
        → IsSound k
        → i < length k.values
        → undead k.dead_record < fuel
        → Drops birth (dead_node fuel i birth span a) k)
    → IsSound g
    → drop < length g.values
    → undead g.dead_record < suc fuel
    → Drops birth (unless_done (λ i a. dead_node fuel i birth span a) drop birth alias) g
unfolding unless_done
behind_check-Drops fuel drop birth span alias g each sound lt u =
    let (b, e) = get_elem?-some g.dead_record drop (omega (arith, sound.dead_size)) in
    elim (Bool-cases b) [
      | inl done ↦ (g, rw (e, done), skip-Dropped birth g sound)
      | inr fresh ↦
          let (h, run, d, dies) =
            drop_node-Drops birth fuel drop (λ i a. dead_node fuel i birth span a) each alias g
              sound lt (e ∙ ap some fresh) u in
          (h, rw (e, fresh) run, d)
    ]

-- On a sound graph `dead_node` of a node returns if the fuel is greater than the number of nodes that
-- are not in the record of the dead. It leaves a sound graph with the same nodes and aliases, in which
-- each node is as it was, or it may be dropped, was born before the drop, and is dead.
pub dead_node-Drops :
    (fuel drop birth span : ℕ) (alias : Bool) (g : SafeDropGraph)
    → IsSound g
    → drop < length g.values
    → undead g.dead_record < fuel
    → Drops birth (dead_node fuel drop birth span alias) g
unfolding dead_node unless_done
dead_node-Drops zero drop birth span alias g sound lt u = elim u [ ]
dead_node-Drops (suc fuel) drop birth span true g sound lt u =
    let (v, e) = get_elem?-some g.values drop lt in
    elim (Bool-cases (is_corner_case v.kind)) [
      | inl corner ↦ (g, rw (e, corner), skip-Dropped birth g sound)
      | inr plain ↦
          let (h, run, d) =
            behind_check-Drops fuel drop birth span true g
              (λ i a k s lt u. dead_node-Drops fuel i birth span a k s lt u) sound lt u in
          (h, rw (e, plain) run, d)
    ]
dead_node-Drops (suc fuel) drop birth span false g sound lt u =
    let (v, e) = get_elem?-some g.values drop lt in
    let (b, bugs, checked) = df_check-returns g drop span lt in
    let reported : SafeDropGraph = record g { bug_records = bugs } in
    let d1 : Dropped birth g reported =
      Dropped-records birth g bugs g.dead_record sound refl (omega arith) in
    elim (Bool-cases (is_corner_case v.kind)) [
      | inl corner ↦ (g, rw (e, corner), skip-Dropped birth g sound)
      | inr plain ↦ elim (Bool-cases b) [
        | inl double ↦ (reported, rw (e, plain, checked, double), d1)
        | inr single ↦
            let (h, run, d) =
              behind_check-Drops fuel drop birth span false reported
                (λ i a k s lt u. dead_node-Drops fuel i birth span a k s lt u) d1.sound lt u in
            (h, rw (e, plain, checked, single) run, Dropped-trans birth g reported h d1 d)
      ]
    ]

df_check-alive :
    (g : SafeDropGraph) (drop span : ℕ) (v : ValueNode)
    → get_elem? g.values drop ≡ some v
    → is_alive v ≡ true
    → df_check drop span g ≡ ok (false, g)
unfolding df_check
df_check-alive g drop span v e alive = rw (e, alive)

-- A node that is alive, may be dropped, is older than the drop, is not counted by reference and is not
-- in the record of the dead: on a sound graph `dead_node` returns with a fuel greater than the number of
-- nodes that are not in that record, and the node is dead.
pub dead_node-dies :
    (fuel drop birth span : ℕ) (alias : Bool) (g : SafeDropGraph) (v : ValueNode)
    → IsSound g
    → undead g.dead_record < suc fuel
    → get_elem? g.values drop ≡ some v
    → get_elem? g.dead_record drop ≡ some false
    → is_corner_case v.kind ≡ false
    → is_alive v ≡ true
    → v.may_drop ≡ true
    → ltb_ℤ v.birth (as_isize birth) ≡ true
    → (h : SafeDropGraph) × (dead_node (suc fuel) drop birth span alias g ≡ ok (tt, h))
      × (get_elem? h.values drop ≡ some (dead v))
unfolding dead_node unless_done
dead_node-dies fuel drop birth span true g v sound u e fresh plain alive may older =
    let (h, run, d, dies) =
      drop_node-Drops birth fuel drop (λ i a. dead_node fuel i birth span a)
        (λ i a k s lt u. dead_node-Drops fuel i birth span a k s lt u) true g sound
        (lt_of_get_elem g.values drop e) fresh u in
    (h, rw (e, plain, fresh) run, dies v e may older)
dead_node-dies fuel drop birth span false g v sound u e fresh plain alive may older =
    let (h, run, d, dies) =
      drop_node-Drops birth fuel drop (λ i a. dead_node fuel i birth span a)
        (λ i a k s lt u. dead_node-Drops fuel i birth span a k s lt u) false g sound
        (lt_of_get_elem g.values drop e) fresh u in
    (h, rw (e, plain, df_check-alive g drop span v e alive, fresh) run, dies v e may older)
