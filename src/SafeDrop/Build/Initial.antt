-- ===== src/SafeDrop/Build/Initial.antt =====
-- The graph that `SafeDropGraph::new` builds.
use rapx_log.Prelude.{
  ℕ, zero, suc, ◌+◌, ◌<◌, ◌≡◌, refl, sym, ◌∙◌, ap, inl, inr, Bool, Bool-cases, some, List, [], ◌∷◌,
  length, get_elem?, ok, >>=-eq-ok, arith,
}
use mathlib.Core.List.{Memᴰ}
use rapx_log.Mir.{Ty, Place, TyCtxt}
use rapx_log.SafeDrop.State.{ValueNode, AssignType}
use rapx_log.SafeDrop.Build.{Building, local_values, indices, push_assign, may_drop_at, none_dead}

-- Every entry of the vector is its own index, from `i` on.
pub indices-at : (i n k p : ℕ) → get_elem? (indices i n) k ≡ some p → p ≡ i + k
unfolding indices
indices-at i zero k p h = cc
indices-at i (suc n) zero p h = ground arith
indices-at i (suc n) (suc k) p h = omega (arith, indices-at (i + 1) n k p h)

pub length-indices : (i n : ℕ) → length (indices i n) ≡ n
unfolding indices
length-indices i zero = refl
length-indices i (suc n) = ap suc (length-indices (i + 1) n)

-- What holds of the three vectors through the construction: every value is alone in its alias set, as
-- many entries as values, and fields that are values.
pub record IsFresh (values : List ValueNode) (alias_set : List ℕ) (dead_record : List Bool)
    : Type 0 where
  pub size : length alias_set ≡ length values
  pub dead_size : length dead_record ≡ length values
  pub own : (i p : ℕ) → get_elem? alias_set i ≡ some p → p ≡ i
  pub fields :
      (i : ℕ) (v : ValueNode) (f : ℕ × ℕ)
      → get_elem? values i ≡ some v
      → Memᴰ f v.fields
      → f.1 < length values

abbrev pub Fresh : Building → Type 0
Fresh b = IsFresh b.values b.alias_set b.dead_record

-- The building may change in its block alone.
pub record SameVectors (b b' : Building) : Type 0 where
  pub values : b'.values ≡ b.values
  pub alias_set : b'.alias_set ≡ b.alias_set
  pub dead_record : b'.dead_record ≡ b.dead_record

pub SameVectors-Fresh : {b b' : Building} → SameVectors b b' → Fresh b → Fresh b'
SameVectors-Fresh s fresh = record {
  size = ap length s.alias_set ∙ fresh.size ∙ sym (ap length s.values);
  dead_size = ap length s.dead_record ∙ fresh.dead_size ∙ sym (ap length s.values);
  own = rw s.alias_set fresh.own;
  fields = rw s.values fresh.fields;
}

pub kept : {b b' : Building} → ok b ≡ ok b' → SameVectors b b'
kept e = record { values = ground arith; alias_set = ground arith; dead_record = ground arith }

pub push_assign-SameVectors :
    (b b' : Building) (lv rv : Place) (atype : AssignType) (span : ℕ)
    → push_assign b lv rv atype span ≡ ok b'
    → SameVectors b b'
unfolding push_assign
push_assign-SameVectors b b' lv rv atype span h =
    let (l, e, h1) = >>=-eq-ok (may_drop_at b.values lv.local) _ h in
    elim (Bool-cases l) [
      | inl yes_ ↦
          let (r, e2, h2) = >>=-eq-ok (may_drop_at b.values rv.local) _ (rw yes_ at h1) in
          elim (Bool-cases r) [
            | inl yes2 ↦
                (let h3 = rw yes2 at h2 in
                  record {
                    values = ground arith;
                    alias_set = ground arith;
                    dead_record = ground arith;
                  })
            | inr no2 ↦ kept (rw no2 at h2)
          ]
      | inr no_ ↦ kept (rw no_ at h1)
    ]

pub get_elem?-values :
    (tcx : TyCtxt) (i k : ℕ) (tys : List Ty) (v : ValueNode)
    → get_elem? (local_values tcx i tys) k ≡ some v
    → v.fields ≡ []
unfolding local_values
get_elem?-values tcx i k [] v h = cc
get_elem?-values tcx i zero (ty ∷ tys) v h = ground arith
get_elem?-values tcx i (suc k) (ty ∷ tys) v h = get_elem?-values tcx (i + 1) k tys v h

pub length-local_values :
    (tcx : TyCtxt) (i : ℕ) (tys : List Ty) → length (local_values tcx i tys) ≡ length tys
unfolding local_values
length-local_values tcx i [] = refl
length-local_values tcx i (ty ∷ tys) = ap suc (length-local_values tcx (i + 1) tys)

pub length-none_dead : (tys : List Ty) → length (none_dead tys) ≡ length tys
length-none_dead [] = refl
length-none_dead (ty ∷ tys) = ap suc (length-none_dead tys)
