-- ===== src/FnAlias.antt =====
-- The alias summaries of functions, between arguments and the return value:
-- rapx/src/analysis/core/alias.rs. A hash set is a list without repetition.
use package.rapx_log.Prelude.{
  ℕ, ◌==◌, Bool, true, false, ◌&&◌, not, if◌then◌else◌, List, [], ◌∷◌, ◌++◌, exists,
}

-- Index 0 is the return value, and index i the i-th argument.
pub record RetAlias : Type 0 where
  pub left_index : ℕ
  pub left_field_seq : List ℕ
  pub left_may_drop : Bool
  pub left_need_drop : Bool
  pub right_index : ℕ
  pub right_field_seq : List ℕ
  pub right_may_drop : Bool
  pub right_need_drop : Bool

abbrev pub new_alias : ℕ → Bool → Bool → ℕ → Bool → Bool → RetAlias
new_alias left_index left_may_drop left_need_drop right_index right_may_drop right_need_drop =
    record {
      left_index = left_index;
      left_field_seq = [];
      left_may_drop = left_may_drop;
      left_need_drop = left_need_drop;
      right_index = right_index;
      right_field_seq = [];
      right_may_drop = right_may_drop;
      right_need_drop = right_need_drop;
    }

abbrev pub valuable : RetAlias → Bool
valuable a = a.left_may_drop && a.right_may_drop

pub record FnRetAlias : Type 0 where
  pub arg_size : ℕ
  pub alias_set : List RetAlias

abbrev pub new_summary : ℕ → FnRetAlias
new_summary arg_size = record { arg_size = arg_size; alias_set = [] }

abbrev pub same_bool : Bool → Bool → Bool
same_bool true b = b
same_bool false b = not b

abbrev pub same_seq : List ℕ → List ℕ → Bool
same_seq [] [] = true
same_seq (x ∷ xs) (y ∷ ys) = x == y && same_seq xs ys
same_seq _ _ = false

-- The derived equality.
abbrev pub alias_eq : RetAlias → RetAlias → Bool
alias_eq a b =
    (a.left_index == b.left_index)
    && (same_seq a.left_field_seq b.left_field_seq
        && (same_bool a.left_may_drop b.left_may_drop
            && (same_bool a.left_need_drop b.left_need_drop
                && ((a.right_index == b.right_index)
                    && (same_seq a.right_field_seq b.right_field_seq
                        && (same_bool a.right_may_drop b.right_may_drop
                            && same_bool a.right_need_drop b.right_need_drop))))))

unfoldable pub add_alias : FnRetAlias → RetAlias → FnRetAlias
add_alias self a =
    if exists (alias_eq a) self.alias_set
    then self
    else record self { alias_set = self.alias_set ++ a ∷ [] }

-- The summaries of the functions that have been analysed.
abbrev pub FnMap : Type 0
FnMap = List (ℕ × FnRetAlias)
