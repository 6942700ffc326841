-- ===== src/Senryx/State.antt =====
-- The abstract state of a place: contracts/abstract_state.rs, the `impl Lattice for StateType` of
-- contracts/state_lattice.rs, and inter_record.rs. Hash maps and sets are lists in their order of
-- iteration; `panic!("Incompatible types")` is the outcome `panic`.
pub mod Meet
use package.rapx_log.Prelude.{
  ℕ, ◌+◌, ℤ, ◌==◌, ltb, ltb_ℤ, pos_part, neg_part, Bool, true, false, ◌&&◌, if◌then◌else◌, Option,
  none, some, List, [], ◌∷◌, ◌++◌, length, exists, forall_in, get, put, Outcome, ok, panic,
}
use package.rapx_log.Senryx.Allocated
use package.rapx_log.Senryx.Allocated.{AllocatedState}
use package.rapx_log.Senryx.Align
use package.rapx_log.Senryx.Align.{PlaceTy, AlignState, place_ty_eq, same_set}

pub data Value : Type 0 where
  usize : ℕ → Value
  isize : ℤ → Value
  u32 : ℕ → Value
  custom : Value
  none_value : Value

-- The position of the variant, by which the derived order compares first.
abbrev pub variant : Value → ℕ
variant (usize _) = 0
variant (isize _) = 1
variant (u32 _) = 2
variant custom = 3
variant none_value = 4

abbrev ℤ_eq : ℤ → ℤ → Bool
ℤ_eq a b = pos_part a + neg_part b == pos_part b + neg_part a

abbrev pub value_eq : Value → Value → Bool
value_eq (usize a) (usize b) = a == b
value_eq (isize a) (isize b) = ℤ_eq a b
value_eq (u32 a) (u32 b) = a == b
value_eq a b = variant a == variant b

abbrev pub value_lt : Value → Value → Bool
value_lt (usize a) (usize b) = ltb a b
value_lt (isize a) (isize b) = ltb_ℤ a b
value_lt (u32 a) (u32 b) = ltb a b
value_lt a b = ltb (variant a) (variant b)

pub data StateType : Type 0 where
  allocated_state : AllocatedState → StateType
  align_state : AlignState → StateType

pub data VType : Type 0 where
  pointer : PlaceTy → VType

pub record AbstractStateItem : Type 0 where
  pub value : Value × Value
  pub vtype : VType
  pub state : List StateType

pub record AbstractState : Type 0 where
  pub state_map : List (ℕ × Option AbstractStateItem)

-- The operations of `impl Lattice for StateType`.
unfoldable pub join : StateType → StateType → Outcome StateType
join (allocated_state a) (allocated_state b) = ok (allocated_state (Allocated.join a b))
join (align_state a) (align_state b) = ok (align_state (Align.join a b))
join _ _ = panic

unfoldable pub meet : StateType → StateType → Outcome StateType
meet (allocated_state a) (allocated_state b) = ok (allocated_state (Allocated.meet a b))
meet (align_state a) (align_state b) = ok (align_state (Align.meet a b))
meet _ _ = panic

unfoldable pub less_than : StateType → StateType → Outcome Bool
less_than (allocated_state a) (allocated_state b) = ok (Allocated.less_than a b)
less_than (align_state a) (align_state b) = ok (Align.less_than a b)
less_than _ _ = panic

unfoldable pub equal : StateType → StateType → Outcome Bool
equal (allocated_state a) (allocated_state b) = ok (Allocated.equal a b)
equal (align_state a) (align_state b) = ok (Align.equal a b)
equal _ _ = panic

unfoldable pub check : StateType → Bool
check (allocated_state a) = Allocated.check a
check (align_state a) = Align.check a

-- The derived `PartialEq`, which the hash set of states goes by.
unfoldable pub state_type_eq : StateType → StateType → Bool
state_type_eq (allocated_state a) (allocated_state b) = Allocated.equal a b
state_type_eq (align_state a) (align_state b) = Align.equal a b
state_type_eq _ _ = false

-- `std::mem::discriminant(a) == std::mem::discriminant(b)`.
abbrev pub same_discriminant : StateType → StateType → Bool
same_discriminant (allocated_state _) (allocated_state _) = true
same_discriminant (align_state _) (align_state _) = true
same_discriminant _ _ = false

abbrev pub insert_state : List StateType → StateType → List StateType
insert_state s x = if exists (state_type_eq x) s then s else s ++ x ∷ []

abbrev pub find_state : StateType → List StateType → Option StateType
find_state s [] = none
find_state s (x ∷ xs) = if same_discriminant x s then some x else find_state s xs

-- The body of the loop: the merged state, or `none` where the source says `continue`.
pub merge_state : StateType → Option StateType → Option StateType
merge_state (allocated_state a) (some (allocated_state b)) =
    some (allocated_state (Allocated.meet a b))
merge_state (align_state a) (some (align_state b)) = some (align_state (Align.meet a b))
merge_state s (some _) = none
merge_state s none = some s

pub meet_states : List StateType → List StateType → List StateType → List StateType
meet_states other [] new_state = new_state
meet_states other (s ∷ states) new_state =
    meet_states other states (elim (merge_state s (find_state s other)) [
      | none ↦ new_state
      | some merged ↦ insert_state new_state merged
    ])

pub meet_state_item : AbstractStateItem → AbstractStateItem → AbstractStateItem
unfolding meet_states merge_state
meet_state_item self other = record self { state = meet_states other.state self.state [] }

abbrev pub new : AbstractState
new = record { state_map = [] }

unfoldable pub insert_abstate : AbstractState → ℕ → Option AbstractStateItem → AbstractState
insert_abstate self place item = record { state_map = put self.state_map place item }

-- The derived `PartialEq` of items.
abbrev pub item_eq : AbstractStateItem → AbstractStateItem → Bool
item_eq a b =
    value_eq a.value.0 b.value.0
    && (value_eq a.value.1 b.value.1
        && (vtype_eq a.vtype b.vtype && same_set state_type_eq a.state b.state))
  where
    vtype_eq : VType → VType → Bool
    vtype_eq (pointer p) (pointer q) = place_ty_eq p q

-- The equality of hash maps: as many keys, and each of the one at an equal value in the other.
abbrev pub same_state_map :
    List (ℕ × Option AbstractStateItem) → List (ℕ × Option AbstractStateItem) → Bool
same_state_map m n = (length m == length n) && forall_in (λ e. matches (get n e.0) e.1) m
  where
    matches : Option (Option AbstractStateItem) → Option AbstractStateItem → Bool
    matches (some (some b)) (some a) = item_eq a b
    matches (some none) none = true
    matches _ _ = false

pub record InterAnalysisRecord : Type 0 where
  pub pre_analysis_state : List (ℕ × Option AbstractStateItem)
  pub post_analysis_state : List (ℕ × Option AbstractStateItem)

unfoldable pub is_pre_state_same : InterAnalysisRecord → List (ℕ × Option AbstractStateItem) → Bool
is_pre_state_same self other_pre_state = same_state_map self.pre_analysis_state other_pre_state
