-- ===== src/Senryx/Checker.antt =====
-- The checker of `slice::from_raw_parts` and the matching of a call against it:
-- contracts/checker.rs, matcher.rs, and `CheckResult` of visitor.rs. The element type enters by its
-- size, `mem::size_of::<T>()`.
pub mod Slice
pub mod Verdict
use Prim.Native.String.{String}
use text.Mathlib.Text.{◌==◌ as str_eq}
use package.rapx_log.Prelude.{
  ℕ, ◌/◌, ◌==◌, ◌||◌, if◌then◌else◌, Option, none, some, List, [], ◌∷◌, ◌++◌, get_elem?, get,
  Outcome, ok, panic, ◌>>=◌, or_panic,
}
use package.rapx_log.Mir.{Operand, copy, move, constant}
use package.rapx_log.Senryx.Align.{unaligned}
use package.rapx_log.Senryx.State.{usize, align_state, AbstractStateItem, AbstractState}
use package.rapx_log.Senryx.Contract.{Contract, value_check, state_check, gt, le, check_contract}

-- `isize::MAX` of a 64-bit target.
abbrev pub isize_max : ℕ
isize_max = 9_223_372_036_854_775_807

-- `variable_contracts`: the contracts of each argument.
abbrev pub Contracts : Type 0
Contracts = List (ℕ × List Contract)

-- `SliceFromRawPartsChecker::new`. The division by a size of 0 panics.
unfoldable pub slice_from_raw_parts : ℕ → Outcome Contracts
slice_from_raw_parts size_of =
    if size_of == 0
    then panic
    else ok (
        (0, state_check gt (align_state unaligned) ∷ [])
        ∷ (1, value_check le (usize (isize_max / size_of)) ∷ [])
        ∷ [])

pub record CheckResult : Type 0 where
  pub func_name : String
  pub func_span : ℕ
  pub failed_contracts : List (ℕ × Contract)
  pub passed_contracts : List (ℕ × Contract)

abbrev pub new_result : String → ℕ → CheckResult
new_result func_name span = record {
  func_name = func_name;
  func_span = span;
  failed_contracts = [];
  passed_contracts = [];
}

unfoldable pub get_arg_place : Operand → ℕ
get_arg_place (move place) = place.local
get_arg_place (copy place) = place.local
get_arg_place (constant _) = 0

-- What the state map says of a place. A place that maps to `None` panics on `unwrap`.
pub check_place :
    ℕ → Contract → CheckResult → Option (Option AbstractStateItem) → Outcome CheckResult
check_place idx contract r none = ok r
check_place idx contract r (some none) = panic
check_place idx contract r (some (some item)) = ok (
    if check_contract contract item
    then record r { passed_contracts = r.passed_contracts ++ (idx, contract) ∷ [] }
    else record r { failed_contracts = r.failed_contracts ++ (idx, contract) ∷ [] })

-- The body of the inner loop of `process_checker`.
pub process_contract :
    List Operand → AbstractState → ℕ → CheckResult → Contract → Outcome CheckResult
unfolding get_arg_place check_place
process_contract args abstate idx r contract = do
  arg ← or_panic (get_elem? args idx)
  let arg_place = get_arg_place arg
  if arg_place == 0 then ok r else check_place idx contract r (get abstate.state_map arg_place)

pub process_contracts :
    List Operand → AbstractState → ℕ → CheckResult → List Contract → Outcome CheckResult
unfolding process_contract
process_contracts args abstate idx r [] = ok r
process_contracts args abstate idx r (c ∷ cs) =
    process_contract args abstate idx r c >>= λ r'. process_contracts args abstate idx r' cs

pub process_entries : List Operand → AbstractState → CheckResult → Contracts → Outcome CheckResult
unfolding process_contracts
process_entries args abstate r [] = ok r
process_entries args abstate r ((idx, contracts_vec) ∷ es) =
    process_contracts args abstate idx r contracts_vec >>= λ r'. process_entries args abstate r' es

pub process_checker : Contracts → List Operand → AbstractState → String → ℕ → Outcome CheckResult
unfolding process_entries
process_checker checker args abstate func_name span =
    process_entries args abstate (new_result func_name span) checker

unfoldable pub match_unsafe_api_and_check_contracts :
    String → List Operand → AbstractState → ℕ → ℕ → Outcome (Option CheckResult)
unfolding process_checker slice_from_raw_parts
match_unsafe_api_and_check_contracts func_name args abstate span size_of =
    if str_eq func_name "core::slice::raw::from_raw_parts"
      || str_eq func_name "core::slice::raw::from_raw_parts_mut"
    then (do
      checker ← slice_from_raw_parts size_of
      r ← process_checker checker args abstate func_name span
      ok (some r))
    else ok none
