-- ===== src/SafeDrop/Nodes/Births.antt =====
-- `fill_birth` on a sound graph: no panic, and a sound graph behind it.
use rapx_log.Prelude.{
  ℕ, zero, suc, ◌+◌, ℤ, ◌≤◌, ◌<◌, ◌≡◌, refl, sym, ◌∙◌, subst, ◌&&◌, Bool-cases, inl, inr, some,
  List, length, length-set, set, get_elem?, get_elem?-some, lt_of_get_elem, get_elem?-set_self,
  get_elem?-set_ne, arith,
}
use mathlib.Core.List.{Memᴰ}
use native.Mathlib.Decide.{ℕ_discrete}
use rapx_log.SafeDrop.UnionFind.Roots.{union_is_same-Root}
use rapx_log.SafeDrop.State.{ValueNode, SafeDropGraph, M, value_at, update_value, ◌>>=◌, for_each}
use rapx_log.SafeDrop.State.Fields.{AreNodes}
use rapx_log.SafeDrop.Nodes.{is_minus_one, fill_aliases, fill_birth}
use rapx_log.SafeDrop.Nodes.Projection.{IsSound}
use rapx_log.SafeDrop.Nodes.Aliases.{Safe, out_of_fuel, returns, and_then-Safe, for_each-Safe}

-- A change of a node that leaves its fields alone.
pub set-AreNodes :
    (values : List ValueNode) (i : ℕ) (v w : ValueNode)
    → AreNodes values
    → get_elem? values i ≡ some v
    → w.fields ≡ v.fields
    → AreNodes (set values i w)
set-AreNodes values i v w nodes e same j u f at_j mem = elim (ℕ_discrete i j) [
  | yes eq ↦
      let lt = lt_of_get_elem values i e in
      let is_w : w ≡ u = ground (arith, get_elem?-set_self values i w lt) in
      let mem' : Memᴰ f v.fields =
        subst (λ fs. Memᴰ f fs) same (subst (λ (x : ValueNode). Memᴰ f x.fields) (sym is_w) mem) in
      omega (arith, nodes i v f e mem', length-set values i w)
  | no ne ↦ omega (
    arith,
    nodes j u f (sym (get_elem?-set_ne values i j w ne) ∙ at_j) mem,
    length-set values i w,
  )
]

pub update_value-Safe :
    (g : SafeDropGraph) (i : ℕ) (f : ValueNode → ValueNode)
    → ((v : ValueNode) → (f v).fields ≡ v.fields)
    → IsSound g
    → i < length g.values
    → Safe g (update_value i f g)
update_value-Safe g i f same sound lt =
    let (v, e) = get_elem?-some g.values i lt in
    returns (record g { values = set g.values i (f v) }) (rw e)
      (record {
        walk = record {
          size = sound.walk.size ∙ sym (length-set g.values i (f v));
          forest = sound.walk.forest;
          fields = set-AreNodes g.values i v (f v) sound.walk.fields e (same v);
        };
        dead_size = sound.dead_size ∙ sym (length-set g.values i (f v));
      })
      (omega (arith, length-set g.values i (f v)))

fill_aliases-Safe :
    (left i node : ℕ) (birth : ℤ) (g : SafeDropGraph)
    → IsSound g
    → i + left ≤ length g.values
    → node < length g.values
    → Safe g (fill_aliases left i node birth g)
unfolding fill_aliases
fill_aliases-Safe zero i node birth g sound le lt = returns g refl sound (omega arith)
fill_aliases-Safe (suc left) i node birth g sound le lt =
    let (same, run, iff) =
      union_is_same-Root g.alias_set sound.walk.forest i node (omega (arith, sound.walk.size))
        (omega (arith, sound.walk.size)) in
    let (v, e) = get_elem?-some g.values i (omega arith) in
    let rest : (h : SafeDropGraph)
        → IsSound h
        → length g.values ≤ length h.values
        → Safe h (fill_aliases left (i + 1) node birth h) =
      λ h s le'. fill_aliases-Safe left (i + 1) node birth h s (omega arith) (omega arith) in
    elim (Bool-cases (same && is_minus_one v.birth)) [
      | inl yes_ ↦
          rw (run, e, yes_)
            (and_then-Safe g _ (fill_aliases left (i + 1) node birth)
              (update_value-Safe g i (λ w. record w { birth = birth }) (λ v. refl) sound
                (omega arith))
              rest)
      | inr no_ ↦ rw (run, e, no_) (rest g sound (omega arith))
    ]

-- A loop over the fields of a node.
pub over_fields-Safe :
    (f : ℕ × ℕ → M (Unit {0})) (node : ℕ)
    → ((x : ℕ × ℕ) (k : SafeDropGraph) → IsSound k → x.1 < length k.values → Safe k (f x k))
    → (h : SafeDropGraph) → IsSound h
    → node < length h.values
    → Safe h ((value_at node >>= λ v. for_each f v.fields) h)
over_fields-Safe f node each h sound lt =
    let (v, e) = get_elem?-some h.values node lt in
    rw e (
      for_each-Safe f (length h.values) (λ x k s le inside. each x k s (omega arith)) v.fields h
        sound (omega arith) (λ x mem. sound.walk.fields node v x e mem))

-- On a sound graph `fill_birth` of a node does not panic: unless the fuel cuts it off, it returns and
-- leaves a sound graph.
pub fill_birth-Safe :
    (fuel node : ℕ) (birth : ℤ) (g : SafeDropGraph)
    → IsSound g
    → node < length g.values
    → Safe g (fill_birth fuel node birth g)
unfolding fill_birth
fill_birth-Safe zero node birth g sound lt = out_of_fuel refl
fill_birth-Safe (suc fuel) node birth g sound lt =
    and_then-Safe g _ _
      (and_then-Safe g _ _
        (update_value-Safe g node (λ w. record w { birth = birth }) (λ v. refl) sound lt)
        (λ h s le.
          fill_aliases-Safe (length h.values) 0 node birth h s (omega arith) (omega arith)))
      (λ h s le.
        over_fields-Safe (λ (f : ℕ × ℕ). fill_birth fuel f.1 birth) node
          (λ x k s' inside. fill_birth-Safe fuel x.1 birth k s' inside) h s (omega arith))
