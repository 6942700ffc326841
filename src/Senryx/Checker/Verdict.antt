-- ===== src/Senryx/Checker/Verdict.antt =====
-- What the result of `process_checker` says.
use Prim.Native.String.{String}
use rapx_log.Prelude.{
  ℕ, ◌≡◌, refl, ◌≢◌, inl, inr, ◌↔◌, ◌==◌, true, Bool-cases, Option-cases, Option, none, some, List,
  [], ◌∷◌, ◌++◌, All, get_elem?, get, ok, >>=-eq-ok, or_panic, arith,
}
use rapx_log.Mir.{Operand}
use rapx_log.Senryx.State.{AbstractStateItem, AbstractState}
use rapx_log.Senryx.Contract.{Contract, check_contract}
use rapx_log.Senryx.Checker.{
  Contracts, CheckResult, new_result, get_arg_place, check_place, process_contract,
  process_contracts, process_entries, process_checker,
}

module _ (args : List Operand) (abstate : AbstractState) where
  -- The contract holds of what is known of the place that argument `idx` names, if anything is.
  unfoldable pub Holds : ℕ → Contract → Type 0
  Holds idx c =
      (arg : Operand) (item : AbstractStateItem)
      → get_elem? args idx ≡ some arg
      → get_arg_place arg ≢ 0
      → get abstate.state_map (get_arg_place arg) ≡ some (some item)
      → check_contract c item ≡ true

  unfoldable pub AllHold : Contracts → Type 0
  AllHold cs = All (λ e. All (Holds e.0) e.1) cs

  abbrev Failed : CheckResult → Type 0
  Failed r = r.failed_contracts ≡ []

  concat-ne-nil {ℓ} : {A : Type ℓ} (xs : List A) (x : A) → xs ++ x ∷ [] ≢ []
  concat-ne-nil [] x h = cc
  concat-ne-nil (y ∷ ys) x h = cc

  place_verdict :
      (idx : ℕ) (c : Contract) (r r' : CheckResult) (o : Option (Option AbstractStateItem))
      → check_place idx c r o ≡ ok r'
      → Failed r' ↔ (
          Failed r
          × ((item : AbstractStateItem) → o ≡ some (some item) → check_contract c item ≡ true))
  unfolding check_place
  place_verdict idx c r r' none h = (λ f. (ground arith, λ item e. cc), λ f. ground arith)
  place_verdict idx c r r' (some none) h = cc
  place_verdict idx c r r' (some (some item)) h = (
    λ f. (
      ground (arith, concat-ne-nil r.failed_contracts (idx, c)),
      λ item' e. ground (arith, concat-ne-nil r.failed_contracts (idx, c)),
    ),
    λ f. ground (arith, f.1 item refl),
  )

  -- The same for an argument that is there.
  arg_verdict :
      (idx : ℕ) (c : Contract) (r r' : CheckResult) (arg : Operand)
      → get_elem? args idx ≡ some arg
      → process_contract args abstate idx r c ≡ ok r'
      → Failed r' ↔ (Failed r × Holds idx c)
  unfolding process_contract Holds
  arg_verdict idx c r r' arg e h = elim (Bool-cases (get_arg_place arg == 0)) [
    | inl z ↦
        let same : ok r ≡ ok r' = rw (e, z, or_panic) at h in
        (λ f. (ground arith, λ arg' item p nz g. ground arith), λ f. ground arith)
    | inr nz ↦
        let step : check_place idx c r (get abstate.state_map (get_arg_place arg)) ≡ ok r' =
          ground arith in
        let verdict = place_verdict idx c r r' (get abstate.state_map (get_arg_place arg)) step in
        (
          λ f. ((verdict.0 f).0, λ arg' item p ne g. (verdict.0 f).1 item (ground arith)),
          λ f. verdict.1 (f.0, λ item g. f.1 arg item e (ground arith) g),
        )
  ]

  contract_verdict :
      (idx : ℕ) (c : Contract) (r r' : CheckResult)
      → process_contract args abstate idx r c ≡ ok r'
      → Failed r' ↔ (Failed r × Holds idx c)
  unfolding process_contract
  contract_verdict idx c r r' h = elim (Option-cases (get_elem? args idx)) [
    | inl e ↦ ground arith
    | inr (arg, e) ↦ arg_verdict idx c r r' arg e h
  ]

  contracts_verdict :
      (idx : ℕ) (cs : List Contract) (r r' : CheckResult)
      → process_contracts args abstate idx r cs ≡ ok r'
      → Failed r' ↔ (Failed r × All (Holds idx) cs)
  unfolding process_contracts
  contracts_verdict idx [] r r' h = ground arith
  contracts_verdict idx (c ∷ cs) r r' h =
      let (s, first, rest) = >>=-eq-ok (process_contract args abstate idx r c) _ h in
      let now = contract_verdict idx c r s first in
      let later = contracts_verdict idx cs s r' rest in
      (
        λ f. ((now.0 (later.0 f).0).0, ((now.0 (later.0 f).0).1, (later.0 f).1)),
        λ f. later.1 (now.1 (f.0, f.1.0), f.1.1),
      )

  entries_verdict :
      (es : Contracts) (r r' : CheckResult)
      → process_entries args abstate r es ≡ ok r'
      → Failed r' ↔ (Failed r × AllHold es)
  unfolding process_entries AllHold
  entries_verdict [] r r' h = ground arith
  entries_verdict ((idx, cs) ∷ es) r r' h =
      let (s, first, rest) = >>=-eq-ok (process_contracts args abstate idx r cs) _ h in
      let now = contracts_verdict idx cs r s first in
      let later = entries_verdict es s r' rest in
      (
        λ f. ((now.0 (later.0 f).0).0, ((now.0 (later.0 f).0).1, (later.0 f).1)),
        λ f. later.1 (now.1 (f.0, f.1.0), f.1.1),
      )

  -- No entry is about an argument that the call does not have, and no known place is without a state.
  unfoldable pub Covered : Contracts → Type 0
  Covered cs =
      All (λ e. (arg : Operand) × (get_elem? args e.0 ≡ some arg)) cs
      × ((p : ℕ) → get abstate.state_map p ≢ some none)

  module _ (known : (p : ℕ) → get abstate.state_map p ≢ some none) where
    place_returns :
        (idx : ℕ) (c : Contract) (r : CheckResult) (o : Option (Option AbstractStateItem))
        → o ≢ some none
        → (r' : CheckResult) × (check_place idx c r o ≡ ok r')
    unfolding check_place
    place_returns idx c r none h = (r, refl)
    place_returns idx c r (some none) h = absurd (h refl)
    place_returns idx c r (some (some item)) h = (_, refl)

    contracts_return :
        (idx : ℕ) (arg : Operand) (cs : List Contract) (r : CheckResult)
        → get_elem? args idx ≡ some arg
        → (r' : CheckResult) × (process_contracts args abstate idx r cs ≡ ok r')
    unfolding process_contracts process_contract
    contracts_return idx arg [] r e = (r, refl)
    contracts_return idx arg (c ∷ cs) r e = elim (Bool-cases (get_arg_place arg == 0)) [
      | inl z ↦ let (r', q) = contracts_return idx arg cs r e in (r', rw (e, z) q)
      | inr nz ↦
          let (s, first) = place_returns idx c r _ (known (get_arg_place arg)) in
          let (r', q) = contracts_return idx arg cs s e in (r', rw (e, nz, first) q)
    ]

    entries_return :
        (es : Contracts) (r : CheckResult)
        → All (λ e. (arg : Operand) × (get_elem? args e.0 ≡ some arg)) es
        → (r' : CheckResult) × (process_entries args abstate r es ≡ ok r')
    unfolding process_entries
    entries_return [] r h = (r, refl)
    entries_return ((idx, cs) ∷ es) r h =
        let (s, first) = contracts_return idx h.0.0 cs r h.0.1 in
        let (r', rest) = entries_return es s h.1 in (r', rw first rest)

  -- If the call has every argument that the checker speaks of and no place is mapped to nothing,
  -- `process_checker` returns, and it reports no failed contract exactly when every contract holds
  -- of what is known of its argument's place.
  pub process_checker_sound :
      (checker : Contracts) (name : String) (span : ℕ)
      → Covered checker
      → (r : CheckResult) × (process_checker checker args abstate name span ≡ ok r)
        × ((r.failed_contracts ≡ []) ↔ AllHold checker)
  unfolding process_checker Covered
  process_checker_sound checker name span covered =
      let (r, e) = entries_return covered.1 checker (new_result name span) covered.0 in
      let verdict = entries_verdict checker (new_result name span) r e in
      (r, e, (λ f. (verdict.0 f).1, λ f. verdict.1 (refl, f)))
