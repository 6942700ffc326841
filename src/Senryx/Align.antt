-- ===== src/Senryx/Align.antt =====
-- Alignment states: `PlaceTy` of visitor.rs, `AlignState` of contracts/abstract_state.rs and its
-- `impl Lattice` in contracts/state_lattice.rs. A hash set is the list of its elements in the order
-- of iteration, and rustc's interned types are compared by their handles, which are numbers here.
pub mod Laws
use Prim.Native.String.{String}
use text.Mathlib.Text.{◌==◌ as str_eq}
use package.rapx_log.Prelude.{
  ℕ, ◌==◌, Bool, true, false, not, ◌&&◌, ◌||◌, if◌then◌else◌, ltb, List, [], ◌∷◌, map, length,
  exists, forall_in, insert,
}

pub data PlaceTy : Type 0 where
  -- layout (align, size) of one specific type
  ty : ℕ → ℕ → PlaceTy
  -- the parameter's name, the types that satisfy its bounds, and their layouts
  generic_ty : String → List ℕ → List (ℕ × ℕ) → PlaceTy

-- The equality of hash sets: as many elements, and each of the one in the other.
abbrev pub same_set {ℓ} : {A : Type ℓ} → (A → A → Bool) → List A → List A → Bool
same_set eq xs ys = (length xs == length ys) && forall_in (λ x. exists (eq x) ys) xs

abbrev pub pair_eq : ℕ × ℕ → ℕ × ℕ → Bool
pair_eq (a, b) (c, d) = (a == c) && (b == d)

-- The derived `PartialEq`.
unfoldable pub place_ty_eq : PlaceTy → PlaceTy → Bool
place_ty_eq (ty a s) (ty b t) = (a == b) && (s == t)
place_ty_eq (generic_ty n tys ls) (generic_ty m uys ms) =
    str_eq n m && (same_set ◌==◌ tys uys && same_set pair_eq ls ms)
place_ty_eq _ _ = false

-- The set of first components.
abbrev pub collect_aligns : List (ℕ × ℕ) → List ℕ → List ℕ
collect_aligns [] out = out
collect_aligns ((align, size) ∷ tys) out = collect_aligns tys (insert out align)

unfoldable pub possible_aligns : PlaceTy → List ℕ
possible_aligns (ty align size) = insert [] align
possible_aligns (generic_ty _ _ tys) = collect_aligns tys []

pub data AlignState : Type 0 where
  aligned : AlignState
  cast : PlaceTy → PlaceTy → AlignState
  unaligned : AlignState

unfoldable pub join : AlignState → AlignState → AlignState
join aligned _ = aligned
join (cast _ _) (cast _ _) = unaligned
join unaligned _ = unaligned
join _ unaligned = unaligned
join _ other = other

unfoldable pub meet : AlignState → AlignState → AlignState
meet self other = other

unfoldable pub less_than : AlignState → AlignState → Bool
less_than _ aligned = true
less_than (cast _ _) (cast _ _) = true
less_than _ _ = false

unfoldable pub equal : AlignState → AlignState → Bool
unfolding place_ty_eq
equal aligned aligned = true
equal (cast s d) (cast t e) = place_ty_eq s t && place_ty_eq d e
equal unaligned unaligned = true
equal _ _ = false

-- The inner loop: is no source alignment greater than the destination's?
fits : ℕ → List ℕ → Bool
fits d_align [] = true
fits d_align (s_align ∷ ss) = if ltb d_align s_align then false else fits d_align ss

-- The outer loop, over the destination's alignments.
fits_all : List ℕ → List ℕ → Bool
unfolding fits
fits_all src_aligns [] = true
fits_all src_aligns (d_align ∷ ds) =
    let rest = fits_all src_aligns ds in
    if not (d_align == 1) && (length src_aligns == 0)
    then false
    else if fits d_align src_aligns
    then rest
    else false

unfoldable pub check : AlignState → Bool
unfolding fits_all possible_aligns place_ty_eq
check aligned = true
check unaligned = false
check (cast src dest) =
    let src_aligns = possible_aligns src in
    let dest_aligns = possible_aligns dest in
    if (length dest_aligns == 0) && not (place_ty_eq src dest)
    then false
    else fits_all src_aligns dest_aligns
