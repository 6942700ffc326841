-- ===== src/SafeDrop/CheckBugs/Dangling.antt =====
-- `exist_dead` and `is_dangling` decide whether a dead node can be reached.
use rapx_log.Prelude.{
  ℕ, zero, suc, ◌≤◌, ◌<◌, ◌≡◌, refl, sym, ◌∙◌, ap, subst, ◌≢◌, ◌⊎◌, inl, inr, ◌↔◌, ◌==◌, Bool, true,
  false, not, Bool-cases, some, List, [], length, get_elem?, get_elem?-some, contains,
  contains-insert, insert, Outcome, ok, Within, unseen, unseen-le, unseen-lt, unseen-nil, arith,
}
use mathlib.Core.Bool.{false≢true}
use mathlib.Core.List.{Memᴰ}
use native.Mathlib.Decide.{ℕ_discrete}
use rapx_log.SafeDrop.UnionFind.Alone.{union_has_alias-alone}
use rapx_log.SafeDrop.UnionFind.Roots.{Root, Root-lt}
use rapx_log.SafeDrop.State.{ValueNode, SafeDropGraph}
use rapx_log.SafeDrop.CheckBugs.{
  Visit, or_visit, visit_aliases, visit_fields, visit_node, is_target, exist_dead, search_fuel,
  is_dangling,
}
use rapx_log.SafeDrop.CheckBugs.Edges.{
  IsWalkable, Edge, alias, field, Reach, here, step, IsTarget, Hits,
}
use rapx_log.SafeDrop.CheckBugs.Search.{
  Post, Post-refl, Good, hit, clear, or_visit-Good, Rec, visit_aliases-Good, visit_fields-Good,
}

module _ (g : SafeDropGraph) (dangling : Bool) (walkable : IsWalkable g) where
  Reach-cons : {i j k : ℕ} → Edge g i j → Reach g j k → Reach g i k
  Reach-cons e here = step here e
  Reach-cons e (step w f) = step (Reach-cons e w) f

  Good-hit :
      {M : ℕ → Type 0} {H K : Type 0} {r : List ℕ} {o : Outcome (Bool × List ℕ)}
      → (H → K)
      → Good g dangling r M H o
      → Good g dangling r M K o
  Good-hit f (hit s e h) = hit s e (f h)
  Good-hit f (clear s e p m) = clear s e p m

  -- The visit of a node that is no target, from what its parts have seen.
  finish :
      (s : List ℕ) (i : ℕ) {M : ℕ → Type 0} {H : Type 0} {o : Outcome (Bool × List ℕ)}
      → ¬ IsTarget g dangling i
      → ((y : ℕ) → Edge g i y → M y)
      → Good g dangling (insert s i) M H o
      → Good g dangling s (λ x. x ≡ i) H o
  finish s i miss edges (hit t e h) = hit t e h
  finish s i miss edges (clear t e p m) =
      clear t e
        (record {
          grows = λ x h. p.grows x ((contains-insert s i x).1 (inl h));
          clean = λ x h k. elim (ℕ_discrete x i) [
            | yes same ↦ subst (λ z. ¬ IsTarget g dangling z) (sym same) miss
            | no other ↦ p.clean x h (fresh x k other)
          ];
          closed = λ x y h k edge. elim (ℕ_discrete x i) [
            | yes same ↦ m y (edges y (subst (λ z. Edge g z y) same edge))
            | no other ↦ p.closed x y h (fresh x k other) edge
          ];
        })
        (λ x same. p.grows x ((contains-insert s i x).1 (inr same)))
    where
      fresh : (x : ℕ) → contains s x ≡ false → x ≢ i → contains (insert s i) x ≡ false
      fresh x k ne = ground (arith, contains-insert s i x)

  progress :
      (s : List ℕ) (i : ℕ)
      → i < length g.values
      → contains s i ≡ false
      → unseen (length g.values) (insert s i) < unseen (length g.values) s
  progress s i lt new =
      unseen-lt (length g.values) s (insert s i) i (λ x h. (contains-insert s i x).1 (inl h)) lt new
        ((contains-insert s i i).1 (inr refl))

  rec_of :
      (fuel i : ℕ)
      → ((j : ℕ) (t : List ℕ)
          → j < length g.values
          → contains t j ≡ false
          → unseen (length g.values) t ≤ fuel
          → Good g dangling t (λ x. x ≡ j) (Hits g dangling j) (exist_dead fuel g dangling j t))
      → Rec g dangling fuel (exist_dead fuel g dangling) (Edge g i) (Hits g dangling i)
  unfolding Rec
  rec_of fuel i visit j t edge lt new room =
      Good-hit (λ (k, w, target). (k, Reach-cons edge w, target)) (visit j t lt new room)

  module _ (fuel : ℕ) (rec : ℕ → Visit) (i : ℕ) (v : ValueNode) (s : List ℕ)
      (at_i : get_elem? g.values i ≡ some v)
      (good : Rec g dangling fuel rec (Edge g i) (Hits g dangling i))
      (room : unseen (length g.values) (insert s i) ≤ fuel)
      (in_range : i < length g.alias_set) where
    fields-Good :
        (t : List ℕ)
        → Within (insert s i) t
        → Good g dangling t
            (λ x. (idx : ℕ) × Memᴰ (idx, x) v.fields)
            (Hits g dangling i)
            (visit_fields rec v.fields t)
    fields-Good t w =
        visit_fields-Good g dangling fuel rec (Edge g i) (Hits g dangling i) good v.fields t
          (λ f m. (field v f.0 at_i m, walkable.fields i v f at_i m))
          (omega (arith, unseen-le (length g.values) (insert s i) t w))

    field_edge :
        (w : ValueNode) (idx y : ℕ)
        → get_elem? g.values i ≡ some w
        → Memᴰ (idx, y) w.fields
        → Memᴰ (idx, y) v.fields
    field_edge w idx y e m =
        let same : w ≡ v = ground arith in subst (λ u. Memᴰ (idx, y) u.fields) same m

    not-IsTarget : is_target dangling v ≡ false → ¬ IsTarget g dangling i
    not-IsTarget miss t =
        let same : t.node ≡ v = ground (arith, t.found) in
        false≢true (sym miss ∙ subst (λ u. is_target dangling u ≡ true) same t.hit)

    -- Which nodes the loop over the alias set visits.
    abbrev Aliased : ℕ → Type 0
    Aliased y =
        (0 ≤ y) × (y < length g.alias_set) × ((r : ℕ) × Root g.alias_set y r × Root g.alias_set i r)

    edges :
        (M : ℕ → Type 0)
        → ((y r : ℕ) → Root g.alias_set i r → Root g.alias_set y r → M y)
        → (y : ℕ) → Edge g i y
        → M y ⊎ ((idx : ℕ) × Memᴰ (idx, y) v.fields)
    edges M aliases y (alias r wi wy) = inl (aliases y r wi wy)
    edges M aliases y (field w idx e m) = inr (idx, field_edge w idx y e m)

    visit_aliased :
        ¬ IsTarget g dangling i
        → Good g dangling s
            (λ x. x ≡ i)
            (Hits g dangling i)
            (or_visit
              (visit_aliases rec g.alias_set i (length g.alias_set) 0)
              (visit_fields rec v.fields)
              (insert s i))
    visit_aliased miss =
        finish s i miss
          (edges Aliased (λ y r wi wy. (omega arith, Root-lt g.alias_set wy, (r, wy, wi))))
          (or_visit-Good g dangling (visit_aliases rec g.alias_set i (length g.alias_set) 0)
            (visit_fields rec v.fields) (insert s i)
            (visit_aliases-Good g dangling fuel rec (Edge g i) (Hits g dangling i) good g.alias_set
              i walkable.forest walkable.size in_range (λ j r wj wi. alias r wi wj)
              (length g.alias_set) 0 (insert s i) (omega arith) room)
            (λ t p. fields-Good t p.grows))

    visit_single :
        ¬ IsTarget g dangling i
        → ((x r : ℕ) → x ≢ i → Root g.alias_set i r → Root g.alias_set x r → ⊥)
        → Good g dangling s
            (λ x. x ≡ i)
            (Hits g dangling i)
            (or_visit (λ seen. ok (false, seen)) (visit_fields rec v.fields) (insert s i))
    visit_single miss alone =
        finish s i miss
          (edges (λ y. y ≡ i)
            (λ y r wi wy. elim (ℕ_discrete y i) [
              | yes e ↦ e
              | no ne ↦ absurd (alone y r ne wi wy)
            ]))
          (or_visit-Good g dangling (λ seen. ok (false, seen)) (visit_fields rec v.fields)
            (insert s i)
            (clear (insert s i) refl (Post-refl g dangling (insert s i))
              (λ x e. (contains-insert s i x).1 (inr e)))
            (λ t p. fields-Good t p.grows))

    visit_node-Good :
        Good g dangling s (λ x. x ≡ i) (Hits g dangling i) (visit_node rec g dangling i v s)
    unfolding visit_node
    visit_node-Good =
        let (b, run, iff) = union_has_alias-alone g.alias_set i walkable.forest in_range in
        elim (Bool-cases (is_target dangling v)) [
          | inl found ↦
              rw found (hit s refl (i, here, record { node = v; found = at_i; hit = found }))
          | inr miss ↦ elim (Bool-cases b) [
            | inl aliased ↦ rw (miss, run ∙ ap ok aliased) (visit_aliased (not-IsTarget miss))
            | inr single ↦
                rw (miss, run ∙ ap ok single)
                  (visit_single (not-IsTarget miss)
                    (λ x r ne wi wx. false≢true (sym single ∙ iff.1 (x, r, ne, wi, wx))))
          ]
        ]

  -- A visit returns with a target that can be reached, or leaves the node and all that can be reached
  -- from it seen and without a target.
  exist_dead-Good :
      (fuel i : ℕ) (s : List ℕ)
      → i < length g.values
      → contains s i ≡ false
      → unseen (length g.values) s ≤ fuel
      → Good g dangling s (λ x. x ≡ i) (Hits g dangling i) (exist_dead fuel g dangling i s)
  unfolding exist_dead
  exist_dead-Good zero i s lt new room = absurd (omega (arith, progress s i lt new))
  exist_dead-Good (suc fuel) i s lt new room =
      let (v, e) = get_elem?-some g.values i lt in
      let good : Rec g dangling fuel (exist_dead fuel g dangling) (Edge g i) (Hits g dangling i) =
        rec_of fuel i (λ j t jt jn jr. exist_dead-Good fuel j t jt jn jr) in
      rw (e, exist_dead)
        (visit_node-Good fuel (exist_dead fuel g dangling) i v s e good
          (omega (arith, progress s i lt new)) (omega (arith, walkable.size)))

  -- What has been seen without a hit holds all that can be reached.
  Reach-seen :
      (i k : ℕ) (s : List ℕ)
      → Post g dangling [] s
      → contains s i ≡ true
      → Reach g i k
      → contains s k ≡ true
  Reach-seen i k s p h here = h
  Reach-seen i k s p h (step {j} {k = l} w e) = p.closed j l (Reach-seen i j s p h w) refl e

  pub exist_dead-decides :
      (i : ℕ)
      → i < length g.values
      → (b : Bool) × (s : List ℕ) × (exist_dead (search_fuel g) g dangling i [] ≡ ok (b, s))
        × ((b ≡ true) ↔ Hits g dangling i)
  exist_dead-decides i lt =
      elim (exist_dead-Good (search_fuel g) i [] lt refl
        (omega (arith, unseen-nil (length g.values)))) [
          | hit s e h ↦ (true, s, e, (λ _. h, λ _. refl))
          | clear s e p m ↦ (
            false,
            s,
            e,
            (
              λ h. cc,
              λ (t, w, target). absurd (p.clean t (Reach-seen i t s p (m i refl) w) refl target),
            ),
          )
        ]

-- On a walkable graph `is_dangling` returns for every value in range, and it says yes exactly when
-- a dead value can be reached from it through aliases and fields; for a value other than the return
-- value, a dead pointer.
pub is_dangling-decides :
    (g : SafeDropGraph) (local : ℕ)
    → IsWalkable g
    → local < length g.values
    → (b : Bool) × (is_dangling g local ≡ ok b) × ((b ≡ true) ↔ Hits g (not (local == 0)) local)
unfolding is_dangling
is_dangling-decides g local walkable lt =
    let (b, s, e, iff) = exist_dead-decides g (not (local == 0)) walkable local lt in
    (b, rw (e, is_dangling), iff)
