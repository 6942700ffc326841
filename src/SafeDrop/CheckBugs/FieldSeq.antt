-- ===== src/SafeDrop/CheckBugs/FieldSeq.antt =====
-- What `get_field_seq` returns for a field.
use rapx_log.Prelude.{
  ℕ, zero, suc, ◌≡◌, refl, ◌≢◌, ◌==◌, true, false, some, List, [], ◌∷◌, ◌++◌, get_elem?, ok, stuck,
  arith,
}
use rapx_log.SafeDrop.State.{ValueNode, SafeDropGraph, usize_max}
use rapx_log.SafeDrop.CheckBugs.{field_seq_loop, get_field_seq}

-- Behind a father that is itself a field the loop stays at that father.
field_seq_loop-stuck :
    (fuel : ℕ) (values : List ValueNode) (father : ℕ) (node w : ValueNode) (seq : List ℕ)
    → get_elem? values father ≡ some w
    → (node.field_id == usize_max) ≡ false
    → (w.field_id == usize_max) ≡ false
    → field_seq_loop fuel values father node seq ≡ stuck
unfolding field_seq_loop
field_seq_loop-stuck zero values father node w seq e n m = refl
field_seq_loop-stuck (suc fuel) values father node w seq e n m =
    rw (n, e) (field_seq_loop-stuck fuel values father w w (seq ++ node.field_id ∷ []) e m m)

-- For a field whose father is no field, `get_field_seq` returns the field's own number alone, with
-- two rounds or more, however deep the field lies; for a field whose father is itself a field, it
-- does not return, whatever the number of rounds.
pub get_field_seq-one_level :
    (fuel : ℕ) (g : SafeDropGraph) (v w : ValueNode)
    → get_elem? g.values v.father ≡ some w
    → v.field_id ≢ usize_max
    → (w.field_id ≡ usize_max → get_field_seq (suc (suc fuel)) g v ≡ ok (v.field_id ∷ []))
      × (w.field_id ≢ usize_max → get_field_seq fuel g v ≡ stuck)
unfolding get_field_seq
get_field_seq-one_level fuel g v w e n =
    let at_v : (v.field_id == usize_max) ≡ false = ground arith in
    (
      λ root. (let at_w : (w.field_id == usize_max) ≡ true = ground arith in rw (at_v, e, at_w)),
      λ inner. field_seq_loop-stuck fuel g.values v.father v w [] e at_v (ground arith),
    )
