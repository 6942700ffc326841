-- ===== src/SafeDrop/Nodes/Projection.antt =====
-- What `projection` keeps and returns.
use rapx_log.Prelude.{
  ℕ, ◌≤◌, ◌<◌, ◌≡◌, refl, sym, subst, inl, inr, Bool, true, false, ◌==◌, Bool-cases, Option-cases,
  none, some, List, [], ◌∷◌, ◌++◌, length, length-append, get_elem?, get_elem?-some, get, Outcome,
  ok, arith,
}
use rapx_log.Mir.{ProjectionElem, deref, field, other_elem, Place, TyCtxt}
use rapx_log.SafeDrop.CheckBugs.Edges.{IsWalkable}
use rapx_log.SafeDrop.State.{ValueNode, SafeDropGraph, M, pure}
use rapx_log.SafeDrop.State.Fields.{
  get_elem?-concat, mem-get, with_field, grown_fields, grown-length,
}
use rapx_log.SafeDrop.Nodes.{field_or_new, projected, head_alias, project, projection}

-- A graph to search, with an entry for each value in the record of the dead.
pub record IsSound (g : SafeDropGraph) : Type 0 where
  pub walk : IsWalkable g
  pub dead_size : length g.dead_record ≡ length g.values

-- The run returns a node, and leaves a sound graph with at least the nodes it had.
pub record Finds (g : SafeDropGraph) (run : Outcome (ℕ × SafeDropGraph)) : Type 0 where
  pub node : ℕ
  pub after : SafeDropGraph
  pub returns : run ≡ ok (node, after)
  pub sound : IsSound after
  pub grows : length g.values ≤ length after.values
  pub inside : node < length after.values

module _ (g : SafeDropGraph) (sound : IsSound g) (id idx : ℕ) (v node : ValueNode)
    (at_id : get_elem? g.values id ≡ some v) (no_fields : node.fields ≡ []) where
  grown : SafeDropGraph
  grown = record g {
    values = with_field g.values id idx v ++ node ∷ [];
    alias_set = g.alias_set ++ length g.alias_set ∷ [];
    dead_record = g.dead_record ++ false ∷ [];
  }

  grown-IsSound : IsSound grown
  unfolding grown
  grown-IsSound = record {
    walk = record {
      size = omega (
        arith,
        length-append g.alias_set (length g.alias_set ∷ []),
        grown-length g.values id idx v node,
        sound.walk.size,
      );
      forest = record {
        descends = λ i p e. elim (get_elem?-concat g.alias_set (length g.alias_set) i e) [
          | inl old ↦ sound.walk.forest.descends i p old
          | inr (at_end, eq) ↦ omega (arith, at_end, eq)
        ];
      };
      fields = λ i w f e m. omega (
        arith,
        grown-length g.values id idx v node,
        grown_fields g.values sound.walk.fields id idx v node at_id no_fields i w f e m,
      );
    };
    dead_size = omega (
      arith,
      length-append g.dead_record (false ∷ []),
      grown-length g.values id idx v node,
      sound.dead_size,
    );
  }

field_or_new-missing :
    (g : SafeDropGraph) (id idx : ℕ) (v node : ValueNode) (make : M ValueNode)
    → get_elem? g.values id ≡ some v
    → get v.fields idx ≡ none
    → make g ≡ ok (node, g)
    → node.index ≡ length g.values
    → field_or_new id idx make (length g.alias_set) g
      ≡ ok (
        node.index,
        record g {
          values = with_field g.values id idx v ++ node ∷ [];
          alias_set = g.alias_set ++ length g.alias_set ∷ [];
          dead_record = g.dead_record ++ false ∷ [];
        },
      )
unfolding field_or_new
field_or_new-missing g id idx v node make e missing made next = rw (e, missing, made, e, next)

-- A field that is there is a node, and a new one becomes one.
pub field_or_new-Finds :
    (g : SafeDropGraph) (id idx entry : ℕ) (v node : ValueNode) (make : M ValueNode)
    → IsSound g
    → get_elem? g.values id ≡ some v
    → make g ≡ ok (node, g)
    → node.fields ≡ []
    → node.index ≡ length g.values
    → entry ≡ length g.alias_set
    → Finds g (field_or_new id idx make entry g)
unfolding field_or_new grown
field_or_new-Finds g id idx entry v node make sound e made no_fields next at_end =
    elim (Option-cases (get v.fields idx)) [
      | inr (j, found) ↦
          let (k, mem) = mem-get v.fields idx j found in
          record {
            node = j;
            after = g;
            returns = rw (e, found);
            sound = sound;
            grows = omega arith;
            inside = sound.walk.fields id v (k, j) e mem;
          }
      | inl missing ↦ record {
        node = node.index;
        after = grown g sound id idx v node e no_fields;
        returns =
            subst
              (λ n.
                field_or_new id idx make n g
                ≡ ok (node.index, grown g sound id idx v node e no_fields))
              (sym at_end) (field_or_new-missing g id idx v node make e missing made next);
        sound = grown-IsSound g sound id idx v node e no_fields;
        grows = omega (arith, grown-length g.values id idx v node);
        inside = omega (arith, grown-length g.values id idx v node, next);
      }
    ]

-- The alias that stands for a value on the right side is a node.
head_alias-inside :
    (g : SafeDropGraph) (is_right : Bool) (local id : ℕ)
    → IsSound g
    → id < length g.values
    → (local' i : ℕ) × (head_alias is_right local id g ≡ ok ((local', i), g))
      × (i < length g.values)
unfolding head_alias
head_alias-inside g false local id sound lt = (local, id, refl, lt)
head_alias-inside g true local id sound lt =
    let (p, e) = get_elem?-some g.alias_set id (omega (arith, sound.walk.size)) in
    let below = sound.walk.forest.descends id p e in
    let (v, at_p) = get_elem?-some g.values p (omega arith) in
    elim (Bool-cases (p == id)) [
      | inl same ↦ (local, id, rw (e, same), lt)
      | inr other ↦ (v.local, p, rw (e, other, at_p), omega arith)
    ]

project-Finds :
    (tcx : TyCtxt) (is_right : Bool) (local id : ℕ) (ps : List ProjectionElem) (g : SafeDropGraph)
    → IsSound g
    → id < length g.values
    → Finds g (project tcx is_right local id ps g)
unfolding project
project-Finds tcx is_right local id [] g sound lt = record {
  node = id;
  after = g;
  returns = refl;
  sound = sound;
  grows = omega arith;
  inside = lt;
}
project-Finds tcx is_right local id (deref ∷ ps) g sound lt =
    let (p, e) = get_elem?-some g.alias_set id (omega (arith, sound.walk.size)) in
    let below = sound.walk.forest.descends id p e in
    rw e (project-Finds tcx is_right local p ps g sound (omega arith))
project-Finds tcx is_right local id (field idx ty ∷ ps) g sound lt =
    let (local', i, run, inside) = head_alias-inside g is_right local id sound lt in
    let (v, e) = get_elem?-some g.values i inside in
    let f =
      field_or_new-Finds g i idx (length g.alias_set) v
        (projected tcx (length g.values) local' ty v idx)
        (pure (projected tcx (length g.values) local' ty v idx)) sound e refl refl refl refl in
    let rest = project-Finds tcx is_right local' f.node ps f.after f.sound f.inside in
    record {
      node = rest.node;
      after = rest.after;
      returns = rw (run, e, f.returns) rest.returns;
      sound = rest.sound;
      grows = omega (arith, f.grows, rest.grows);
      inside = rest.inside;
    }
project-Finds tcx is_right local id (other_elem ∷ ps) g sound lt =
    project-Finds tcx is_right local id ps g sound lt

-- On a sound graph `projection` of a place whose local is a node returns, whatever the projections
-- are; the result is a node of the graph that it leaves, which is sound and has at least as many nodes.
pub projection-Finds :
    (tcx : TyCtxt) (is_right : Bool) (place : Place) (g : SafeDropGraph)
    → IsSound g
    → place.local < length g.values
    → Finds g (projection tcx is_right place g)
unfolding projection
projection-Finds tcx is_right place g sound lt =
    project-Finds tcx is_right place.local place.local place.projection g sound lt
