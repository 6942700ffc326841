-- ===== src/Senryx/Tests.antt =====
-- Runs of the contract checker on small inputs.
use rapx_log.Prelude.{
  ℕ, ◌*◌, ◌≤◌, ◌≡◌, refl, ◌≢◌, ◌⊎◌, ◌↔◌, true, false, none, some, List, [], ◌∷◌, get, ok, panic,
  arith,
}
use rapx_log.Mir.{Operand, move}
use rapx_log.Senryx.Allocated
use rapx_log.Senryx.Allocated.{AllocatedState, top, borrowed, moved, alloc, specific_alloc, bottom}
use rapx_log.Senryx.Allocated.Laws.{
  Le, Below, Le-order, join-least, join_order_free, Conflict, meet-greatest, meet-regroup_lossy,
}
use rapx_log.Senryx.Init
use rapx_log.Senryx.Init.{fully_initialized, partly_initialized, InitState-lattice}
use rapx_log.Senryx.Align
use rapx_log.Senryx.Align.{ty, place_ty_eq, possible_aligns, aligned, cast, unaligned}
use rapx_log.Senryx.Align.Laws.{IsFit, check-cast}
use rapx_log.Senryx.State
use rapx_log.Senryx.State.{
  Value, usize, none_value, pointer, allocated_state, align_state, AbstractStateItem, AbstractState,
  meet_state_item, insert_abstate, is_pre_state_same,
}
use rapx_log.Senryx.State.Meet.{has_align}
use rapx_log.Senryx.Contract.{
  gt, le, ge, Contract, value_check, state_check, check_is_same_state_type, check_contract,
  handle_state_op,
}
use rapx_log.Senryx.Contract.Laws.{
  KindPasses, Meaning, Answers, check_contract-state, meet_state_item-check, handle_state_op-kinds,
}
use rapx_log.Senryx.Checker.{
  match_unsafe_api_and_check_contracts, isize_max, Contracts, CheckResult, slice_from_raw_parts,
  process_checker,
}
use rapx_log.Senryx.Checker.Slice.{slice_from_raw_parts-length}
use rapx_log.Senryx.Checker.Verdict.{Covered, AllHold, process_checker_sound}

Le-order_example :
    (Le alloc moved ↔ Below alloc moved)
    × Le alloc alloc
    × (Le alloc moved → Le moved alloc → alloc ≡ moved)
    × (Le alloc moved → Le moved top → Le alloc top)
Le-order_example = Le-order alloc moved top

join-least_example :
    Le borrowed (Allocated.join borrowed moved)
    × Le moved (Allocated.join borrowed moved)
    × (Le borrowed top → Le moved top → Le (Allocated.join borrowed moved) top)
join-least_example = join-least borrowed moved top

join_order_free_example :
    (Allocated.join (Allocated.join alloc borrowed) moved
      ≡ Allocated.join alloc (Allocated.join borrowed moved))
    × (Allocated.join alloc borrowed ≡ Allocated.join borrowed alloc)
    × (Allocated.join alloc alloc ≡ alloc)
join_order_free_example = join_order_free alloc borrowed moved

meet-greatest_example :
    Le (Allocated.meet borrowed specific_alloc) borrowed
    × Le (Allocated.meet borrowed specific_alloc) specific_alloc
    × (((c : AllocatedState)
          → Le c borrowed
          → Le c specific_alloc
          → Le c (Allocated.meet borrowed specific_alloc))
        ↔ (¬ Conflict borrowed specific_alloc))
meet-greatest_example = meet-greatest borrowed specific_alloc

alloc_apart : ¬ Conflict specific_alloc borrowed
alloc_apart h = ground arith

borrowed_apart : ¬ Conflict borrowed alloc
borrowed_apart h = ground arith

specific_apart : ¬ Conflict specific_alloc alloc
specific_apart h = ground arith

meet-regroup_lossy_example :
    (Allocated.meet specific_alloc borrowed ≡ Allocated.meet borrowed specific_alloc)
    × (¬ Conflict specific_alloc borrowed
        → ¬ Conflict borrowed alloc
        → ¬ Conflict specific_alloc alloc
        → Allocated.meet specific_alloc (Allocated.meet borrowed alloc)
          ≡ Allocated.meet (Allocated.meet specific_alloc borrowed) alloc)
    × ((Allocated.meet specific_alloc (Allocated.meet borrowed moved)
          ≢ Allocated.meet (Allocated.meet specific_alloc borrowed) moved)
        ↔ (specific_alloc ≡ specific_alloc))
meet-regroup_lossy_example = meet-regroup_lossy specific_alloc borrowed alloc

no_conflict :
    Allocated.meet specific_alloc (Allocated.meet borrowed alloc)
    ≡ Allocated.meet (Allocated.meet specific_alloc borrowed) alloc
no_conflict =
    (meet-regroup_lossy specific_alloc borrowed alloc).1 alloc_apart borrowed_apart specific_apart

InitState-lattice_example :
    ((Init.less_than partly_initialized fully_initialized ≡ true)
      ↔ ((partly_initialized ≡ partly_initialized) ⊎ (fully_initialized ≡ fully_initialized)))
    × (Init.less_than partly_initialized partly_initialized ≡ true)
    × (Init.less_than partly_initialized fully_initialized ≡ true
        → Init.less_than fully_initialized partly_initialized ≡ true
        → partly_initialized ≡ fully_initialized)
    × (Init.less_than partly_initialized fully_initialized ≡ true
        → Init.less_than fully_initialized partly_initialized ≡ true
        → Init.less_than partly_initialized partly_initialized ≡ true)
    × (Init.less_than partly_initialized (Init.join partly_initialized fully_initialized) ≡ true)
    × (Init.less_than fully_initialized (Init.join partly_initialized fully_initialized) ≡ true)
    × (Init.less_than partly_initialized partly_initialized ≡ true
        → Init.less_than fully_initialized partly_initialized ≡ true
        → Init.less_than (Init.join partly_initialized fully_initialized) partly_initialized ≡ true)
    × (Init.less_than (Init.meet partly_initialized fully_initialized) partly_initialized ≡ true)
    × (Init.less_than (Init.meet partly_initialized fully_initialized) fully_initialized ≡ true)
    × (Init.less_than partly_initialized partly_initialized ≡ true
        → Init.less_than partly_initialized fully_initialized ≡ true
        → Init.less_than partly_initialized (Init.meet partly_initialized fully_initialized) ≡ true)
    × ((Init.equal partly_initialized fully_initialized ≡ true)
        ↔ (partly_initialized ≡ fully_initialized))
InitState-lattice_example =
    InitState-lattice partly_initialized fully_initialized partly_initialized

-- From a byte to a word of four bytes, and back.
check-cast_example : (Align.check (cast (ty 4 4) (ty 1 1)) ≡ true) ↔ (
    ((possible_aligns (ty 1 1) ≢ []) ⊎ (place_ty_eq (ty 4 4) (ty 1 1) ≡ true))
    × IsFit (possible_aligns (ty 4 4)) (possible_aligns (ty 1 1)))
check-cast_example = check-cast (ty 4 4) (ty 1 1)

upcast : Align.check (cast (ty 1 1) (ty 4 4)) ≡ true
unfolding Align.check
upcast = refl

downcast : Align.check (cast (ty 4 4) (ty 1 1)) ≡ false
unfolding Align.check
downcast = refl

-- A pointer of alignment state `cast`, to between 0 and 8 elements.
abbrev bad_item : AbstractStateItem
bad_item = record {
  value = (usize 0, usize 8);
  vtype = pointer (ty 1 1);
  state = allocated_state alloc ∷ align_state (cast (ty 4 4) (ty 1 1)) ∷ [];
}

abbrev good_item : AbstractStateItem
good_item = record {
  value = (usize 0, usize 8);
  vtype = pointer (ty 4 4);
  state = align_state aligned ∷ [];
}

check_contract-state_example :
    (check_contract (state_check gt (align_state unaligned)) bad_item ≡ true)
    ↔ KindPasses (align_state unaligned) bad_item.state
check_contract-state_example = check_contract-state gt (align_state unaligned) bad_item

meet_state_item-check_example :
    (check_contract (state_check gt (align_state unaligned)) (meet_state_item bad_item good_item)
      ≡ true)
    ↔ ((has_align bad_item.state ≡ false) ⊎ (Align.check aligned ≡ true))
meet_state_item-check_example = meet_state_item-check bad_item good_item gt aligned unaligned refl

handle_state_op-kinds_example :
    Answers
      (handle_state_op (allocated_state borrowed) ge (allocated_state alloc))
      (check_is_same_state_type (allocated_state borrowed) (allocated_state alloc))
      (Meaning ge (allocated_state borrowed) (allocated_state alloc))
handle_state_op-kinds_example =
    handle_state_op-kinds (allocated_state borrowed) ge (allocated_state alloc)

slice_from_raw_parts-length_example :
    (cs : Contracts) × (c : Contract) × (slice_from_raw_parts 4 ≡ ok cs)
    × (get cs 1 ≡ some (c ∷ []))
    × ((check_contract c good_item ≡ true) ↔ (8 * 4 ≤ isize_max))
slice_from_raw_parts-length_example = slice_from_raw_parts-length 4 8 good_item (omega arith) refl

-- A call of `from_raw_parts` on the locals 1 and 2.
abbrev two_args : List Operand
two_args =
    move (record { local = 1; projection = [] }) ∷ move (record { local = 2; projection = [] }) ∷ []

abbrev two_items : AbstractState
two_items = record { state_map = (1, some bad_item) ∷ (2, some good_item) ∷ [] }

abbrev slice_checker : Contracts
slice_checker =
    (0, state_check gt (align_state unaligned) ∷ []) ∷ (1, value_check le (usize 100) ∷ []) ∷ []

two_items-known : (p : ℕ) → get two_items.state_map p ≢ some none
two_items-known p h = ground arith

two_items-Covered : Covered two_args two_items slice_checker
unfolding Covered
two_items-Covered = (((_, refl), ((_, refl), tt)), two_items-known)

process_checker_sound_example :
    (r : CheckResult) × (process_checker slice_checker two_args two_items
        "core::slice::raw::from_raw_parts" 7
      ≡ ok r)
    × ((r.failed_contracts ≡ []) ↔ AllHold two_args two_items slice_checker)
process_checker_sound_example =
    process_checker_sound two_args two_items slice_checker "core::slice::raw::from_raw_parts" 7
      two_items-Covered

kinds_apart : State.join (align_state aligned) (allocated_state top) ≡ panic
unfolding State.join
kinds_apart = refl

last_wins : State.meet (align_state unaligned) (align_state aligned) ≡ ok (align_state aligned)
unfolding State.meet Align.meet
last_wins = refl

casts_join : Align.join (cast (ty 1 1) (ty 4 4)) (cast (ty 1 1) (ty 1 1)) ≡ unaligned
unfolding Align.join
casts_join = refl

never_fails : (Allocated.check bottom ≡ true) × (Init.check partly_initialized ≡ true)
unfolding Allocated.check Init.check
never_fails = (refl, refl)

stored : get (insert_abstate two_items 3 none).state_map 3 ≡ some none
unfolding insert_abstate
stored = refl

same_again :
    is_pre_state_same
      (record { pre_analysis_state = two_items.state_map; post_analysis_state = [] })
      two_items.state_map
    ≡ true
unfolding is_pre_state_same place_ty_eq State.state_type_eq Allocated.equal Align.equal
same_again = refl

other_call : match_unsafe_api_and_check_contracts "core::ptr::read" two_args two_items 7 4 ≡ ok none
unfolding match_unsafe_api_and_check_contracts
other_call = refl

-- The element type of no size.
zero_size :
    match_unsafe_api_and_check_contracts "core::slice::raw::from_raw_parts" two_args two_items 7 0
    ≡ panic
unfolding match_unsafe_api_and_check_contracts
zero_size = refl
