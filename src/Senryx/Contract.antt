-- ===== src/Senryx/Contract.antt =====
-- Contracts and their check on an abstract state item: contracts/contract.rs.
pub mod Laws
use package.rapx_log.Prelude.{
  Bool, true, false, not, ◌&&◌, ◌||◌, if◌then◌else◌, List, [], ◌∷◌, Outcome, ok, ◌>>=◌,
}
use package.rapx_log.Senryx.State
use package.rapx_log.Senryx.State.{
  Value, value_eq, value_lt, StateType, allocated_state, align_state, AbstractStateItem,
}

pub data Op : Type 0 where
  eq ne lt gt le ge : Op

pub data Contract : Type 0 where
  value_check : Op → Value → Contract
  state_check : Op → StateType → Contract

-- A value is the interval from its first to its second component.
pub handle_value_op : Value × Value → Op → Value → Bool
handle_value_op (lo, hi) eq right = value_eq lo right
handle_value_op (lo, hi) ne right = not (value_eq lo right)
handle_value_op (lo, hi) lt right = value_lt hi right
handle_value_op (lo, hi) gt right = value_lt right lo
handle_value_op (lo, hi) le right = value_lt hi right || value_eq hi right
handle_value_op (lo, hi) ge right = value_lt right lo || value_eq lo right

pub check_is_same_state_type : StateType → StateType → Bool
check_is_same_state_type (allocated_state _) (allocated_state _) = true
check_is_same_state_type (align_state _) (align_state _) = true
check_is_same_state_type _ _ = false

-- `a || b` on calls that may panic: the second is made only if the first is false.
abbrev or_else : Outcome Bool → Outcome Bool → Outcome Bool
or_else a b = do x ← a; if x then ok true else b

pub handle_state_op : StateType → Op → StateType → Outcome Bool
handle_state_op left lt right = State.less_than left right
handle_state_op left le right = or_else (State.less_than left right) (State.equal left right)
handle_state_op left gt right = State.less_than right left
handle_state_op left ge right = or_else (State.less_than right left) (State.equal right left)
handle_state_op left eq right = State.equal left right
handle_state_op left ne right = State.equal left right >>= λ b. ok (not b)

-- The loop over the states of the item, which returns at the first that fails.
pub check_states : List StateType → StateType → Bool
unfolding check_is_same_state_type
check_states [] state = true
check_states (ab_state ∷ rest) state =
    if check_is_same_state_type ab_state state && not (State.check ab_state)
    then false
    else check_states rest state

unfoldable pub check_contract : Contract → AbstractStateItem → Bool
unfolding handle_value_op check_states
check_contract (value_check op value) item = handle_value_op item.value op value
check_contract (state_check _ state) item = check_states item.state state
