-- ===== src/DataFlow/Deps.antt =====
-- What `param_return_deps` answers on a sound graph whose edges climb in a rank.
use rapx_log.Prelude.{
  some-inj, ℕ, zero, suc, ◌+◌, ◌≤◌, ◌<◌, ◌≡◌, refl, ap, subst, ◌⊎◌, ◌↔◌, Bool, true, false, some,
  List, [], ◌∷◌, length, get_elem?, ok, arith,
}
use rapx_log.DataFlow.{Graph}
use rapx_log.DataFlow.Sound.{IsSound}
use rapx_log.DataFlow.Dfs.{
  Direction, upside, downside, dfs, always_true_edge_validator, find_operator, is_connected,
  if_not_found, deps_from, param_return_deps,
}
use rapx_log.DataFlow.Flow.{Downward, Upward, out_of_fuel, answers, is_connected-Flow}
use rapx_log.DataFlow.Ends.{Returns, >>=-Returns, IsRanked, IsOneWay, dfs-Returns}

search-Returns :
    (g : Graph) (height : ℕ) (rank : ℕ → ℕ) (fuel a b : ℕ) (direction : Direction) (s : Bool)
    → IsSound g
    → IsRanked g height rank
    → IsOneWay direction
    → height < fuel
    → Returns (dfs fuel g (find_operator b) always_true_edge_validator false direction a s)
unfolding find_operator always_true_edge_validator
search-Returns g height rank fuel a b direction s sound ranked way lt =
    dfs-Returns g height rank (find_operator b) always_true_edge_validator false direction fuel a s
      sound ranked (λ x s e. cc) (λ k e. cc) way lt

is_connected-Returns :
    (g : Graph) (height : ℕ) (rank : ℕ → ℕ) (fuel a b : ℕ)
    → IsSound g
    → IsRanked g height rank
    → height < fuel
    → Returns (is_connected fuel g a b)
unfolding is_connected
is_connected-Returns g height rank fuel a b sound ranked lt =
    >>=-Returns _ _ (search-Returns g height rank fuel a b downside false sound ranked tt lt)
      (λ r run. second r.1)
  where
    second : (found : Bool) → Returns (if_not_found fuel g a b found)
    second true = λ e. cc
    second false =
        >>=-Returns _ _ (search-Returns g height rank fuel a b upside false sound ranked tt lt)
          (λ r run e. cc)

-- Is there a way from `i` to the return value, or from the return value to `i`?
abbrev pub Depends : Graph → ℕ → Type 0
Depends g i = Downward g i 0 ⊎ Upward g i 0

is_connected-decides :
    (g : Graph) (height : ℕ) (rank : ℕ → ℕ) (fuel a b : ℕ)
    → IsSound g
    → IsRanked g height rank
    → height < fuel
    → a < length g.nodes
    → (r : Bool) × (is_connected fuel g a b ≡ ok r) × ((r ≡ true) ↔ (Downward g a b ⊎ Upward g a b))
is_connected-decides g height rank fuel a b sound ranked lt inside =
    elim (is_connected-Flow fuel g a b sound inside) [
      | out_of_fuel h ↦ absurd (is_connected-Returns g height rank fuel a b sound ranked lt h)
      | answers r run iff ↦ (r, run, iff)
    ]

deps_from-Depends :
    (g : Graph) (height : ℕ) (rank : ℕ → ℕ) (fuel i left : ℕ)
    → IsSound g
    → IsRanked g height rank
    → height < fuel
    → i + left ≤ length g.nodes
    → (deps : List Bool) × (deps_from fuel g i left ≡ ok deps)
      × (length deps ≡ left)
      × ((j : ℕ) (b : Bool) → get_elem? deps j ≡ some b → (b ≡ true) ↔ Depends g (i + j))
unfolding deps_from
deps_from-Depends g height rank fuel i zero sound ranked lt le = ([], refl, refl, λ j b h. cc)
deps_from-Depends g height rank fuel i (suc left) sound ranked lt le =
    let (r, run, iff) =
      is_connected-decides g height rank fuel i 0 sound ranked lt (omega (arith, le)) in
    let (rest, run', many, each) =
      deps_from-Depends g height rank fuel (i + 1) left sound ranked lt (omega (arith, le)) in
    (r ∷ rest, rw (run, run'), ap suc many, entry r rest iff each)
  where
    entry :
        (r : Bool) (rest : List Bool)
        → ((r ≡ true) ↔ Depends g i)
        → ((j : ℕ) (b : Bool) → get_elem? rest j ≡ some b → (b ≡ true) ↔ Depends g (i + 1 + j))
        → (j : ℕ) (b : Bool) → get_elem? (r ∷ rest) j ≡ some b
        → (b ≡ true) ↔ Depends g (i + j)
    entry r rest iff each zero b h =
        let same : r ≡ b = some-inj h in
        let i_0 : i ≡ i + 0 = omega arith in
        subst (λ z. (z ≡ true) ↔ Depends g (i + 0)) same
          (subst (λ z. (r ≡ true) ↔ Depends g z) i_0 iff)
    entry r rest iff each (suc j) b h =
        let shift : i + 1 + j ≡ i + suc j = omega arith in
        subst (λ z. (b ≡ true) ↔ Depends g z) shift (each j b h)

-- On a sound graph whose edges climb in a rank of at most `height`, with a node for every parameter and
-- the return value, `param_return_deps` returns `argc + 1` answers, and answer `i` says whether the
-- graph has a way from parameter `i` to the return value or one from the return value to the parameter.
pub param_return_deps-Depends :
    (g : Graph) (height : ℕ) (rank : ℕ → ℕ) (fuel : ℕ)
    → IsSound g
    → IsRanked g height rank
    → height < fuel
    → g.argc < length g.nodes
    → (deps : List Bool) × (param_return_deps fuel g ≡ ok deps)
      × (length deps ≡ g.argc + 1)
      × ((i : ℕ) (b : Bool) → get_elem? deps i ≡ some b → (b ≡ true) ↔ Depends g i)
unfolding param_return_deps
param_return_deps-Depends g height rank fuel sound ranked lt inside =
    let (deps, run, many, each) =
      deps_from-Depends g height rank fuel 0 (g.argc + 1) sound ranked lt (omega (arith, inside)) in
    (
      deps,
      run,
      many,
      λ i b h.
          let same : 0 + i ≡ i = omega arith in
          subst (λ z. (b ≡ true) ↔ Depends g z) same (each i b h),
    )
