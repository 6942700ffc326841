-- ===== src/SafeDrop/UnionFind/Alone.antt =====
-- Values that share their root with no other.
use rapx_log.Prelude.{
  ℕ, zero, suc, ◌+◌, ◌≤◌, ◌<◌, ◌≡◌, refl, sym, ◌∙◌, ap, subst, ◌≢◌, ◌↔◌, inl, inr, ◌==◌, Bool, true,
  false, Bool-cases, List, length, ok, arith,
}
use mathlib.Core.Bool.{false≢true}
use native.Mathlib.Decide.{ℕ_discrete}
use rapx_log.SafeDrop.UnionFind.{has_alias_from, union_has_alias}
use rapx_log.SafeDrop.UnionFind.Roots.{IsForest, Root, Root-lt, union_is_same-Root}

-- A value other than `e`, from `i` on, that has the root of `e`.
abbrev Partner : List ℕ → ℕ → ℕ → Type 0
Partner a e i = (x : ℕ) × (r : ℕ) × (i ≤ x) × (x ≢ e) × Root a e r × Root a x r

-- The loop finds a partner exactly if there is one among the values from `i` on.
has_alias_from_lem :
    (a : List ℕ) (e left i : ℕ)
    → IsForest a
    → e < length a
    → i + left ≡ length a
    → (b : Bool) × (has_alias_from a e left i ≡ ok b) × ((b ≡ true) ↔ Partner a e i)
unfolding has_alias_from
has_alias_from_lem a e zero i forest lt total =
    (false, refl, (λ h. cc, λ (x, r, ge, ne, we, wx). absurd (omega (arith, Root-lt a wx))))
has_alias_from_lem a e (suc left) i forest lt total =
    let (b, run, (found, all)) = has_alias_from_lem a e left (i + 1) forest lt (omega arith) in
    let (c, same, iff) = union_is_same-Root a forest e i lt (omega arith) in
    elim (Bool-cases (i == e)) [
      | inl self ↦ (
        b,
        rw self run,
        (λ h. later (found h), λ (x, r, ge, ne, we, wx). all (x, r, ground arith, ne, we, wx)),
      )
      | inr other ↦ elim (Bool-cases c) [
        | inl yes_ ↦ (
          true,
          rw (other, same ∙ ap ok yes_),
          (
            λ h. let (r, we, wi) = iff.0 yes_ in (i, r, omega arith, ground arith, we, wi),
            λ p. refl,
          ),
        )
        | inr no_ ↦ (
          b,
          rw (other, same ∙ ap ok no_) run,
          (
            λ h. later (found h),
            λ (x, r, ge, ne, we, wx). elim (ℕ_discrete i x) [
              | yes at_i ↦
                  absurd
                    (false≢true (sym no_ ∙ iff.1 (r, we, subst (λ k. Root a k r) (sym at_i) wx)))
              | no past ↦ all (x, r, omega arith, ne, we, wx)
            ],
          ),
        )
      ]
    ]
  where
    later : Partner a e (i + 1) → Partner a e i
    later (x, r, ge, ne, we, wx) = (x, r, omega arith, ne, we, wx)

-- On a forest `union_has_alias` of a value in range returns, and it says yes exactly if another
-- value has the same root.
pub union_has_alias-alone :
    (a : List ℕ) (e : ℕ)
    → IsForest a
    → e < length a
    → (b : Bool) × (union_has_alias a e ≡ ok b)
      × ((b ≡ true) ↔ ((x : ℕ) × (r : ℕ) × (x ≢ e) × Root a e r × Root a x r))
unfolding union_has_alias
union_has_alias-alone a e forest lt =
    let (b, run, (found, all)) = has_alias_from_lem a e (length a) 0 forest lt (omega arith) in
    (
      b,
      run,
      (
        λ h. let (x, r, ge, ne, we, wx) = found h in (x, r, ne, we, wx),
        λ (x, r, ne, we, wx). all (x, r, omega arith, ne, we, wx),
      ),
    )
