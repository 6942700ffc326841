-- ===== src/HeapItem.antt =====
-- Ownership of heap memory by types: rapx/src/analysis/core/heap_item/ownership.rs.
use package.rapx_log.Prelude.{ℕ, Bool, true, false, ◌||◌, if◌then◌else◌, List, [], ◌∷◌, ◌++◌}

pub data RawTypeOwner : Type 0 where
  unowned owned uninit : RawTypeOwner

abbrev pub is_owned : RawTypeOwner → Bool
is_owned owned = true
is_owned unowned = false
is_owned uninit = false

-- For each variant: is it an owner, and which type parameters does it own?
abbrev pub OwnerUnit : Type 0
OwnerUnit = List (RawTypeOwner × List Bool)

abbrev pub AdtOwner : Type 0
AdtOwner = List (ℕ × OwnerUnit)

pub record OwnershipLayoutResult : Type 0 where
  pub layout : List RawTypeOwner
  pub param : Bool
  pub requirement : Bool
  pub owned_ : Bool

abbrev pub new_layout : OwnershipLayoutResult
new_layout = record { layout = []; param = false; requirement = false; owned_ = false }

-- What the update reads of the visitor of default ownership.
pub record DefaultOwnership : Type 0 where
  pub res : RawTypeOwner
  pub param : Bool
  pub ptr : Bool

-- `is_owning_true` of the visitor.
abbrev pub is_owning_true : DefaultOwnership → Bool
is_owning_true d = is_owned d.res

unfoldable pub update_from_default_ownership_visitor :
    OwnershipLayoutResult → DefaultOwnership → OwnershipLayoutResult
update_from_default_ownership_visitor self d =
    let required = if is_owning_true d || d.ptr then record self { requirement = true } else self in
    let owning = if is_owning_true d then record required { owned_ = true } else required in
    record owning { layout = owning.layout ++ d.res ∷ []; param = d.param }
