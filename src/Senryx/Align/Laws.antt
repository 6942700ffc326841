-- ===== src/Senryx/Align/Laws.antt =====
-- When an alignment state passes its check.
use rapx_log.Prelude.{
  ℕ, ◌≤◌, ◌≡◌, refl, ◌≢◌, ◌⊎◌, ◌↔◌, ◌==◌, Bool, true, false, ◌&&◌, not, if◌then◌else◌, List, [],
  ◌∷◌, length, All, arith,
}
use rapx_log.Senryx.Align.{PlaceTy, place_ty_eq, possible_aligns, cast, fits, fits_all, check}

-- Each destination alignment is at least each source alignment; and a destination alignment other
-- than 1 wants some known source alignment.
abbrev pub IsFit : List ℕ → List ℕ → Type 0
IsFit ss ds = All (λ d. All (λ s. s ≤ d) ss × ((d ≡ 1) ⊎ (ss ≢ []))) ds

fits_lem : (d : ℕ) (ss : List ℕ) → (fits d ss ≡ true) ↔ All (λ s. s ≤ d) ss
unfolding fits
fits_lem d [] = (λ _. tt, λ _. refl)
fits_lem d (s ∷ ss) = ground (arith, fits_lem d ss)

fits_all_lem : (ss ds : List ℕ) → (fits_all ss ds ≡ true) ↔ IsFit ss ds
unfolding fits_all
fits_all_lem ss [] = (λ _. tt, λ _. refl)
fits_all_lem [] (d ∷ ds) = ground (arith, fits_lem d [], fits_all_lem [] ds)
fits_all_lem (s ∷ ss) (d ∷ ds) = ground (arith, fits_lem d (s ∷ ss), fits_all_lem (s ∷ ss) ds)

-- A cast passes exactly when no possible source alignment exceeds a possible destination
-- alignment, the source's alignments are known unless the destination's is 1, and a destination
-- of unknown alignment is the source type itself.
pub check-cast :
    (src dest : PlaceTy)
    → (check (cast src dest) ≡ true) ↔ (
        ((possible_aligns dest ≢ []) ⊎ (place_ty_eq src dest ≡ true))
        × IsFit (possible_aligns src) (possible_aligns dest))
unfolding check
check-cast src dest = split (possible_aligns src) (possible_aligns dest) (place_ty_eq src dest)
  where
    split :
        (ss ds : List ℕ) (e : Bool)
        → ((if (length ds == 0) && not e then false else fits_all ss ds) ≡ true)
          ↔ (((ds ≢ []) ⊎ (e ≡ true)) × IsFit ss ds)
    split ss [] true = ground arith
    split ss [] false = ground arith
    split ss (d ∷ ds) e = ground (arith, fits_all_lem ss (d ∷ ds))
