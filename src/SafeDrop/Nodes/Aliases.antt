-- ===== src/SafeDrop/Nodes/Aliases.antt =====
-- `merge_alias` on a sound graph: no panic, and a sound graph behind it.
use rapx_log.Prelude.{
  ℕ, zero, suc, ◌≤◌, ◌<◌, ◌≡◌, refl, ◌∙◌, false, ◌||◌, ltb, List, [], ◌∷◌, length, get_elem?-some,
  Outcome, ok, stuck, arith,
}
use mathlib.Core.List.{Memᴰ}
use rapx_log.SafeDrop.UnionFind.Merge.{union_merge-Merges}
use rapx_log.SafeDrop.State.{SafeDropGraph, M, and_then, value_at, pure, ◌>>=◌, for_each}
use rapx_log.SafeDrop.Nodes.{copied_node, merge_field, merge_alias}
use rapx_log.SafeDrop.Nodes.Projection.{IsSound, field_or_new-Finds}

-- The run does not panic: it is cut off by the fuel, or it returns and leaves a sound graph with at
-- least the nodes it had.
pub data Safe (g : SafeDropGraph) (run : Outcome (Unit {0} × SafeDropGraph)) : Type 0 where
  out_of_fuel : run ≡ stuck → Safe g run
  returns :
      (h : SafeDropGraph)
      → run ≡ ok (tt, h)
      → IsSound h
      → length g.values ≤ length h.values
      → Safe g run

-- One part after another.
pub and_then-Safe :
    (g : SafeDropGraph) (run : Outcome (Unit {0} × SafeDropGraph)) (next : M (Unit {0}))
    → Safe g run
    → ((h : SafeDropGraph) → IsSound h → length g.values ≤ length h.values → Safe h (next h))
    → Safe g (and_then run (λ _. next))
and_then-Safe g run next (out_of_fuel e) rest = out_of_fuel (rw e)
and_then-Safe g run next (returns h e sound grows) rest = elim (rest h sound grows) [
  | out_of_fuel f ↦ out_of_fuel (rw e f)
  | returns k f sound' grows' ↦ returns k (rw e f) sound' (omega (arith, grows, grows'))
]

-- A loop over fields that are nodes.
pub for_each-Safe :
    (f : ℕ × ℕ → M (Unit {0})) (n : ℕ)
    → ((x : ℕ × ℕ) (k : SafeDropGraph) → IsSound k → n ≤ length k.values → x.1 < n → Safe k (f x k))
    → (xs : List (ℕ × ℕ)) (g : SafeDropGraph) → IsSound g
    → n ≤ length g.values
    → ((x : ℕ × ℕ) → Memᴰ x xs → x.1 < n)
    → Safe g (for_each f xs g)
unfolding for_each
for_each-Safe f n each [] g sound le inside = returns g refl sound (omega arith)
for_each-Safe f n each (x ∷ xs) g sound le inside =
    and_then-Safe g (f x g) (for_each f xs) (each x g sound le (inside x (Memᴰ.head refl)))
      (λ h sound' grows.
        for_each-Safe f n each xs h sound' (omega arith) (λ y mem. inside y (Memᴰ.tail mem)))

merge_field-Safe :
    (rec : ℕ → ℕ → M (Unit {0})) (lv idx right : ℕ) (g : SafeDropGraph)
    → ((a b : ℕ) (k : SafeDropGraph)
        → IsSound k
        → a < length k.values
        → b < length k.values
        → Safe k (rec a b k))
    → IsSound g
    → lv < length g.values
    → right < length g.values
    → Safe g (merge_field rec lv (idx, right) g)
unfolding merge_field
merge_field-Safe rec lv idx right g each sound lt_l lt_r =
    let (l, el) = get_elem?-some g.values lv lt_l in
    let (r, er) = get_elem?-some g.values right lt_r in
    let new_id = length g.values in
    let f =
      field_or_new-Finds g lv idx (length g.alias_set) l (copied_node new_id l r idx)
        (value_at right >>= λ r. pure (copied_node new_id l r idx)) sound el (rw er) refl refl
        refl in
    elim (each f.node right f.after f.sound f.inside (omega (arith, f.grows))) [
      | out_of_fuel e ↦ out_of_fuel (rw (el, f.returns) e)
      | returns h e sound' grows ↦
          returns h (rw (el, f.returns) e) sound' (omega (arith, f.grows, grows))
    ]

-- On a sound graph `merge_alias` of two nodes does not panic, however the fields of the two hang
-- together: unless the fuel cuts it off, it returns and leaves a sound graph.
pub merge_alias-Safe :
    (fuel lv rv : ℕ) (g : SafeDropGraph)
    → IsSound g
    → lv < length g.values
    → rv < length g.values
    → Safe g (merge_alias fuel lv rv g)
unfolding merge_alias
merge_alias-Safe zero lv rv g sound lt_l lt_r = out_of_fuel refl
merge_alias-Safe (suc fuel) lv rv g sound lt_l lt_r =
    let (b, run, m) =
      union_merge-Merges g.alias_set lv rv sound.walk.forest (omega (arith, sound.walk.size))
        (omega (arith, sound.walk.size)) in
    let (v, e) = get_elem?-some g.values rv lt_r in
    let g' : SafeDropGraph = record g { alias_set = b } in
    let sound' : IsSound g' = record {
      walk = record {
        size = m.size ∙ sound.walk.size;
        forest = m.forest;
        fields = sound.walk.fields;
      };
      dead_size = sound.dead_size;
    } in
    let inside : (ltb (length g.values) lv || ltb (length g.values) rv) ≡ false = ground arith in
    elim (for_each-Safe (merge_field (merge_alias fuel) lv) (length g.values)
      (λ x k s le lt.
        merge_field-Safe (merge_alias fuel) lv x.0 x.1 k (merge_alias-Safe fuel) s (omega arith)
          (omega arith))
      v.fields g' sound' (omega arith) (λ x mem. sound.walk.fields rv v x e mem)) [
        | out_of_fuel f ↦ out_of_fuel (rw (inside, run, e) f)
        | returns h f s grows ↦ returns h (rw (inside, run, e) f) s grows
      ]
