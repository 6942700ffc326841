-- ===== src/Senryx/Contract/Laws.antt =====
-- When a contract holds of an item, and of two merged items, and what the comparisons of states answer.
use rapx_log.Prelude.{
  ◌≡◌, refl, ◌≢◌, ◌∙◌, ◌⊎◌, inl, inr, ◌↔◌, Bool, true, false, Bool-cases, some, List, [], ◌∷◌, All,
  Outcome, ok, panic, arith,
}
use rapx_log.Senryx.Align
use rapx_log.Senryx.Allocated
use rapx_log.Senryx.Allocated.{AllocatedState, top, bottom}
use rapx_log.Senryx.Allocated.Laws.{Le, Below, Le-order}
use rapx_log.Senryx.Align.{AlignState, aligned, cast, unaligned, place_ty_eq}
use rapx_log.Senryx.State
use rapx_log.Senryx.State.{
  StateType, allocated_state, align_state, AbstractStateItem, find_state, meet_state_item,
}
use rapx_log.Senryx.State.Meet.{has_align, OnlyAlign, meet_state_item-align}
use rapx_log.Senryx.Contract.{
  Op, eq, ne, lt, gt, le, ge, state_check, check_is_same_state_type, check_states, check_contract,
  handle_state_op,
}

-- Every state of the kind of `s` passes its own check.
abbrev pub KindPasses : StateType → List StateType → Type 0
KindPasses s = All (λ x. check_is_same_state_type x s ≡ true → State.check x ≡ true)

check_states_lem :
    (xs : List StateType) (s : StateType) → (check_states xs s ≡ true) ↔ KindPasses s xs
unfolding check_states
check_states_lem [] s = (λ _. tt, λ _. refl)
check_states_lem (x ∷ xs) s = ground (arith, check_states_lem xs s)

-- A contract on the state holds of an item exactly when every state of the same kind in the item
-- passes its own check, whatever the operator and the state of the contract are.
pub check_contract-state :
    (op : Op) (s : StateType) (item : AbstractStateItem)
    → (check_contract (state_check op s) item ≡ true) ↔ KindPasses s item.state
unfolding check_contract
check_contract-state op s item = check_states_lem item.state s

module _ (t u : AlignState) where
  passes :
      (xs : List StateType) → Align.check t ≡ true → OnlyAlign t xs → KindPasses (align_state u) xs
  unfolding check_is_same_state_type State.check
  passes [] h only = tt
  passes (align_state a ∷ xs) h only = (λ _. ground (arith, only.0), passes xs h only.1)
  passes (allocated_state a ∷ xs) h only = (λ e. cc, passes xs h only.1)

  vacuous : (xs : List StateType) → has_align xs ≡ false → KindPasses (align_state u) xs
  unfolding check_is_same_state_type
  vacuous [] h = tt
  vacuous (align_state a ∷ xs) h = cc
  vacuous (allocated_state a ∷ xs) h = (λ e. cc, vacuous xs h)

  found_passes :
      (xs : List StateType)
      → has_align xs ≡ true
      → OnlyAlign t xs
      → KindPasses (align_state u) xs
      → Align.check t ≡ true
  unfolding check_is_same_state_type State.check
  found_passes [] h only k = cc
  found_passes (align_state a ∷ xs) h only k = ground (arith, only.0, k.0)
  found_passes (allocated_state a ∷ xs) h only k = found_passes xs h only.1 k.1

-- After a merge with an item whose alignment state is `t`, an alignment contract holds exactly when
-- the first item had no alignment state or `t` passes: what the first item knew is lost.
pub meet_state_item-check :
    (self item : AbstractStateItem) (op : Op) (t u : AlignState)
    → find_state (align_state t) item.state ≡ some (align_state t)
    → (check_contract (state_check op (align_state u)) (meet_state_item self item) ≡ true)
      ↔ ((has_align self.state ≡ false) ⊎ (Align.check t ≡ true))
meet_state_item-check self item op t u found = (
  λ h. elim (Bool-cases (has_align self.state)) [
    | inl some_align ↦ inr (found_passes t u merged (merge.1 ∙ some_align) merge.0 (iff.0 h))
    | inr none_align ↦ inl none_align
  ],
  elim [
    | inl none_align ↦ iff.1 (vacuous t u merged (merge.1 ∙ none_align))
    | inr passing ↦ iff.1 (passes t u merged passing merge.0)
  ],
)
  where
    merged : List StateType
    merged = (meet_state_item self item).state

    merge : OnlyAlign t merged × (has_align merged ≡ has_align self.state)
    merge = meet_state_item-align item.state t found self item refl

    iff :
        (check_contract (state_check op (align_state u)) (meet_state_item self item) ≡ true)
        ↔ KindPasses (align_state u) merged
    iff = check_contract-state op (align_state u) (meet_state_item self item)

-- The same state, where the types of a cast are compared as `PlaceTy` is.
abbrev SameAlign : AlignState → AlignState → Type 0
SameAlign aligned aligned = Unit
SameAlign (cast s d) (cast t e) = (place_ty_eq s t ≡ true) × (place_ty_eq d e ≡ true)
SameAlign unaligned unaligned = Unit
SameAlign _ _ = ⊥

-- Aligned is above all, and casts are below each other.
abbrev BelowAlign : AlignState → AlignState → Type 0
BelowAlign _ aligned = Unit
BelowAlign (cast _ _) (cast _ _) = Unit
BelowAlign unaligned unaligned = Unit
BelowAlign _ _ = ⊥

abbrev pub SameState : StateType → StateType → Type 0
SameState (allocated_state a) (allocated_state b) = a ≡ b
SameState (align_state a) (align_state b) = SameAlign a b
SameState _ _ = ⊥

abbrev pub BelowState : StateType → StateType → Type 0
BelowState (allocated_state a) (allocated_state b) = Below a b
BelowState (align_state a) (align_state b) = BelowAlign a b
BelowState _ _ = ⊥

-- The states that count as strictly below themselves.
abbrev pub IsLoop : StateType → Type 0
IsLoop (allocated_state a) = (a ≡ bottom) ⊎ (a ≡ top)
IsLoop (align_state a) = a ≢ unaligned

abbrev pub Meaning : Op → StateType → StateType → Type 0
Meaning eq l r = SameState l r
Meaning ne l r = ¬ SameState l r
Meaning le l r = BelowState l r
Meaning ge l r = BelowState r l
Meaning lt l r = BelowState l r × (SameState l r → IsLoop l)
Meaning gt l r = BelowState r l × (SameState r l → IsLoop r)

equal_lem : (a b : AllocatedState) → (Allocated.equal a b ≡ true) ↔ (a ≡ b)
unfolding Allocated.equal
equal_lem a b = ground arith

less_than_lem :
    (a b : AllocatedState)
    → (Allocated.less_than a b ≡ true) ↔ (Le a b × (a ≡ b → (a ≡ bottom) ⊎ (a ≡ top)))
unfolding Allocated.less_than Allocated.equal
less_than_lem a b = ground arith

-- The answer of a comparison: a panic exactly for states of two kinds, and else whether the
-- comparison holds.
abbrev pub Answers : Outcome Bool → Bool → Type 0 → Type 0
Answers run alike Holds =
    ((run ≡ panic) ↔ (alike ≡ false))
    × ((run ≡ ok true) ↔ ((alike ≡ true) × Holds))
    × ((run ≡ ok false) ↔ ((alike ≡ true) × (¬ Holds)))

allocated_answers :
    (op : Op) (a b : AllocatedState)
    → Answers
        (handle_state_op (allocated_state a) op (allocated_state b))
        true
        (Meaning op (allocated_state a) (allocated_state b))
unfolding handle_state_op State.less_than State.equal
allocated_answers eq a b = ground (arith, equal_lem a b)
allocated_answers ne a b = ground (arith, equal_lem a b)
allocated_answers le a b = ground (arith, (Le-order a b a).0)
allocated_answers ge a b = ground (arith, (Le-order b a a).0)
allocated_answers lt a b = ground (arith, less_than_lem a b, (Le-order a b a).0)
allocated_answers gt a b = ground (arith, less_than_lem b a, (Le-order b a a).0)

align_answers :
    (op : Op) (a b : AlignState)
    → Answers
        (handle_state_op (align_state a) op (align_state b))
        true
        (Meaning op (align_state a) (align_state b))
unfolding handle_state_op State.less_than State.equal Align.less_than Align.equal
align_answers eq a b = ground arith
align_answers ne a b = ground arith
align_answers le a b = ground arith
align_answers ge a b = ground arith
align_answers lt a b = ground arith
align_answers gt a b = ground arith

-- A comparison of states panics exactly when the two are of different kinds; of one kind it answers
-- whether the relation of its operator holds: `EQ` whether they are the same, `NE` whether they are
-- not, `LE` and `GE` the order of the states (of allocations that of `Below`; of alignments all are
-- below Aligned, casts below each other, and Unaligned below itself), and `LT` and `GT` the order
-- without the pairs of a state and the same again, but for the top and the bottom of the allocations
-- and for all alignments but Unaligned, which are strictly below themselves.
pub handle_state_op-kinds :
    (l : StateType) (op : Op) (r : StateType)
    → Answers (handle_state_op l op r) (check_is_same_state_type l r) (Meaning op l r)
unfolding handle_state_op check_is_same_state_type State.less_than State.equal
handle_state_op-kinds (allocated_state a) op (allocated_state b) = allocated_answers op a b
handle_state_op-kinds (align_state a) op (align_state b) = align_answers op a b
handle_state_op-kinds (allocated_state a) op (align_state b) = ground arith
handle_state_op-kinds (align_state a) op (allocated_state b) = ground arith
