-- ===== src/SafeDrop/State/Fields.antt =====
-- The fields of the nodes when a node gets a new one, as `projection`, `merge_alias` and the constructor
-- of the graph do it.
use rapx_log.Prelude.{
  ℕ, zero, suc, ◌<◌, ◌≡◌, refl, sym, ◌∙◌, ap, subst, ◌⊎◌, inl, inr, ◌==◌, Bool-cases, some, List,
  [], ◌∷◌, ◌++◌, length, length-append, length-set, get_elem?, get_elem?-set_self, get_elem?-set_ne,
  lt_of_get_elem, set, put, get, arith,
}
use mathlib.Core.List.{Memᴰ}
use mathlib.Core.List.Memᴰ
use native.Mathlib.Decide.{ℕ_discrete}
use rapx_log.SafeDrop.State.{ValueNode}

pub get_elem?-concat {ℓ} :
    {A : Type ℓ} (xs : List A) (x : A) (i : ℕ) {v : A}
    → get_elem? (xs ++ x ∷ []) i ≡ some v
    → (get_elem? xs i ≡ some v) ⊎ (i ≡ length xs) × (v ≡ x)
get_elem?-concat [] x zero h = inr (refl, ground arith)
get_elem?-concat [] x (suc i) h = cc
get_elem?-concat (y ∷ ys) x zero h = inl h
get_elem?-concat (y ∷ ys) x (suc i) h = elim (get_elem?-concat ys x i h) [
  | inl old ↦ inl old
  | inr (at_end, e) ↦ inr (ap suc at_end, e)
]

pub mem-put : (m : List (ℕ × ℕ)) (k v : ℕ) (f : ℕ × ℕ) → Memᴰ f (put m k v) → (f.1 ≡ v) ⊎ Memᴰ f m
mem-put [] k v f h = inl (ap (λ (p : ℕ × ℕ). p.1) (Memᴰ.eq_of_singleton h))
mem-put ((j, w) ∷ m) k v f h = elim (Bool-cases (j == k)) [
  | inl same ↦
      let h' : Memᴰ f ((k, v) ∷ m) = rw same at h in
      elim (Memᴰ.cases_cons h') [
        | inl e ↦ inl (ap (λ (p : ℕ × ℕ). p.1) e)
        | inr later ↦ inr (Memᴰ.tail later)
      ]
  | inr other ↦
      let h' : Memᴰ f ((j, w) ∷ put m k v) = rw other at h in
      elim (Memᴰ.cases_cons h') [
        | inl e ↦ inr (Memᴰ.head e)
        | inr later ↦ elim (mem-put m k v f later) [ inl e ↦ inl e | inr old ↦ inr (Memᴰ.tail old) ]
      ]
]

-- A field that is found is in the map.
pub mem-get : (m : List (ℕ × ℕ)) (k v : ℕ) → get m k ≡ some v → (i : ℕ) × Memᴰ (i, v) m
mem-get [] k v h = cc
mem-get ((i, w) ∷ m) k v h = elim (Bool-cases (i == k)) [
  | inl same ↦
      (let eq : w ≡ v = ground arith in
        (i, subst (λ x. Memᴰ (i, x) ((i, w) ∷ m)) eq (Memᴰ.head refl)))
  | inr other ↦ (let (j, mem) = mem-get m k v (rw other at h) in (j, Memᴰ.tail mem))
]

-- Every field is the number of a node.
abbrev pub AreNodes : List ValueNode → Type 0
AreNodes values =
    (i : ℕ) (v : ValueNode) (f : ℕ × ℕ)
    → get_elem? values i ≡ some v
    → Memᴰ f v.fields
    → f.1 < length values

module _ (values : List ValueNode) (lv key : ℕ) (l : ValueNode) where
  -- The node `lv` gets a field that is new.
  abbrev pub with_field : List ValueNode
  with_field = set values lv (record l { fields = put l.fields key (length values) })

  pub grown-length :
      (new_node : ValueNode) → length (with_field ++ new_node ∷ []) ≡ suc (length values)
  grown-length new_node = omega (
    arith,
    length-append with_field (new_node ∷ []),
    length-set values lv (record l { fields = put l.fields key (length values) }),
  )

module _ (values : List ValueNode) (fields : AreNodes values) (lv key : ℕ) (l new_node : ValueNode)
    (at_lv : get_elem? values lv ≡ some l) (no_fields : new_node.fields ≡ []) where
  pub grown_fields :
      (i : ℕ) (v : ValueNode) (f : ℕ × ℕ)
      → get_elem? ((with_field values lv key l) ++ new_node ∷ []) i ≡ some v
      → Memᴰ f v.fields
      → f.1 < suc (length values)
  grown_fields i v f e m = elim (get_elem?-concat (with_field values lv key l) new_node i e) [
    | inl old ↦ elim (ℕ_discrete lv i) [
      | yes same ↦
          let lt = lt_of_get_elem values lv at_lv in
          let here =
            get_elem?-set_self values lv (record l { fields = put l.fields key (length values) })
              lt in
          let eq : record l { fields = put l.fields key (length values) } ≡ v = ground arith in
          elim (mem-put l.fields key (length values) f (subst (λ w. Memᴰ f w.fields) (sym eq) m)) [
            | inl at_end ↦ omega (arith, at_end)
            | inr before ↦ omega (arith, fields lv l f at_lv before)
          ]
      | no other ↦ omega (arith, fields i v f (sym (get_elem?-set_ne values lv i _ other) ∙ old) m)
    ]
    | inr (at_end, eq) ↦ absurd (Memᴰ.not-nil (rw (eq, no_fields) at m))
  ]
