-- ===== src/SafeDrop/Types.antt =====
-- The kinds of types, and the types and functions that the analysis treats apart: safedrop/types.rs,
-- safedrop/corner_handle.rs and utils/intrinsic_id.rs. A debug string is the list of its characters.
use Prim.Native.String.{String}
use Prim.Native.Char.{code}
use package.rapx_log.Prelude.{
  ℕ, ◌==◌, Bool, true, false, ◌||◌, if◌then◌else◌, Option, none, some, List, [], ◌∷◌, ◌&&◌,
}
use package.rapx_log.Mir.{
  Ty, bool, char, int, uint, float, array, adt, tuple, raw_ptr, reference, other_ty, Tys, nil, cons,
  TyCtxt,
}

-- The characters of a literal.
abbrev pub codes : String → List ℕ
codes String.[] = []
codes (String.◌∷◌ c s) = code c ∷ codes s

abbrev pub starts_with : List ℕ → List ℕ → Bool
starts_with [] s = true
starts_with (p ∷ ps) [] = false
starts_with (p ∷ ps) (c ∷ s) = p == c && starts_with ps s

-- `str.find(pattern)` is `Some`.
abbrev pub found : List ℕ → List ℕ → Bool
found p [] = starts_with p []
found p (c ∷ s) = starts_with p (c ∷ s) || found p s

-- What stands behind the last `::`, if there is one.
abbrev pub after_last : List ℕ → Option (List ℕ)
after_last [] = none
after_last (c ∷ s) = elim (after_last s) [ some t ↦ some t | none ↦ here (c ∷ s) ]
  where
    here : List ℕ → Option (List ℕ)
    here [] = none
    here (a ∷ []) = none
    here (a ∷ b ∷ t) = if a == b':' && b == b':' then some t else none

pub data TyKind : Type 0 where
  is_adt is_raw_ptr is_tuple corner_case is_ref : TyKind

-- Structures that use the Rc kind of drop.
unfoldable pub is_corner_adt : List ℕ → Bool
is_corner_adt str =
    if found (codes "cell::RefMut") str
    then true
    else if found (codes "cell::Ref") str
    then true
    else if found (codes "rc::Rc") str
    then true
    else false

unfoldable pub kind : Ty → TyKind
unfolding is_corner_adt
kind raw_ptr = is_raw_ptr
kind reference = is_ref
kind (tuple _) = is_tuple
kind (adt _ name _) = if is_corner_adt name then corner_case else is_adt
kind _ = is_adt

-- Is no part of a value of this type ever to be dropped or followed?
unfoldable mutual
  pub is_not_drop : Ty → Bool
  is_not_drop bool = true
  is_not_drop char = true
  is_not_drop (int) = true
  is_not_drop uint = true
  is_not_drop float = true
  is_not_drop (array ty) = is_not_drop ty
  is_not_drop (adt _ _ fields) = none_drop fields
  is_not_drop (tuple fields) = none_drop fields
  is_not_drop raw_ptr = false
  is_not_drop reference = false
  is_not_drop other_ty = false

  pub none_drop : Tys → Bool
  none_drop nil = true
  none_drop (cons ty tys) = if is_not_drop ty then none_drop tys else false

-- The indices of the functions in the compiler's crates.
abbrev pub drop_id : ℕ
drop_id = 2177

abbrev pub drop_in_place_id : ℕ
drop_in_place_id = 2744

abbrev pub box_drop_in_place_id : ℕ
box_drop_in_place_id = 2699

abbrev pub dealloc_id : ℕ
dealloc_id = 137

abbrev pub manually_drop_id : ℕ
manually_drop_id = 2018

abbrev pub call_mut_id : ℕ
call_mut_id = 3575

abbrev pub next_id : ℕ
next_id = 8583

abbrev pub clone_id : ℕ
clone_id = 2913

-- Functions whose MIR cannot be had.
unfoldable pub corner_handle : ℕ → Bool
corner_handle def_id =
    if def_id == call_mut_id || (def_id == next_id || def_id == clone_id) then true else false

-- A dangling pointer is reasonable in functions such as `drop`.
unfoldable pub should_check : TyCtxt → ℕ → Bool
should_check tcx def_id =
    let def_str = last_segment (tcx.def_str def_id) in
    if found (codes "drop") def_str
    then false
    else if found (codes "dealloc") def_str
    then false
    else if found (codes "release") def_str
    then false
    else if found (codes "destroy") def_str
    then false
    else true
  where
    last_segment : List ℕ → List ℕ
    last_segment s = elim (after_last s) [ some t ↦ t | none ↦ s ]
